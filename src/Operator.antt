-- ===== src/Operator.antt =====
-- internal/operator/: the Kubernetes operator, as far as it chooses the seed node and the pods that join.
-- Children: Seed (the claim of the seed node), Pods (who joins and who leaves), OneSeed (theorem), Examples (tests).
pub mod Seed
pub mod Pods
pub mod OneSeed
mod Examples
