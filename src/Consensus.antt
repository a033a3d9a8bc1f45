-- ===== src/Consensus.antt =====
-- consensus/: the Raft log's commands, the finite state machine that applies them, and the node that
-- submits them. Children: Command (command.go), Fsm (fsm.go), Node and Servers (node.go), and the theorems Safety, Replicas and
-- Snapshots; Examples (tests).
pub mod Command
pub mod Fsm
pub mod Node
pub mod Servers
pub mod Safety
pub mod Replicas
pub mod Snapshots
mod Examples
