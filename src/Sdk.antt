-- ===== src/Sdk.antt =====
-- sdk/: the Go client. Children: Retry (its retry loop), Locks and Leases (what it holds).
pub mod Retry
pub mod Locks
pub mod Leases
