-- ===== src/Lib.antt =====
-- A model of the clusdr server (internal/) and of parts of its Go client (sdk/): a cluster
-- coordinator whose nodes keep a member list, locks and leases in agreement through a Raft log,
-- and stream events to their clients.
--
-- Parts and files. `locks/table.go` and `locks/expirer.go` are Locks; `leases/table.go` and
-- `leases/expirer.go` are Leases; `membership/engine.go` is Membership; `events/` is Events;
-- `consensus/command.go`, `consensus/fsm.go` and `consensus/node.go` are Consensus.Command,
-- Consensus.Fsm and Consensus.Node; `eventbus/bus.go` is Bus; `grpcserver/watch.go` is Watch and
-- `grpcserver/events.go` is Publish; `grpcserver/locks.go` is LockService, `grpcserver/leases.go`
-- is LeaseService, `grpcserver/join.go` is JoinService and `grpcserver/membership.go` is
-- MembershipService, with what they share in Grpc; `heartbeat/monitor.go` is Heartbeat;
-- `presence/` is Presence, with Presence.Keeper and Presence.Holder (all below internal/).
-- Consensus.Servers is the Raft configuration as `consensus/node.go` reads and changes it. Of the
-- Go client (sdk/), `sdk/retry.go` is Sdk.Retry, `sdk/lock.go` is Sdk.Locks and `sdk/lease.go` is
-- Sdk.Leases. Of the operator (internal/operator/), Operator has the claim of the seed node and
-- the choice of who joins. Grants is an abstract machine of grants with fencing tokens, which
-- both tables implement. Fault has the errors, Clock the times, Names the characters of names,
-- Prelude what all of them share.
--
-- How the parts interact. The services (LockService, LeaseService, JoinService) check a request
-- and, on the leader, act on the node; elsewhere they send it on to the leader. A service asks
-- the leader's node (Consensus.Node) for a change; the node clamps the lifetime, stamps a
-- deadline and puts a command into the Raft log; every node applies the log (Consensus.Fsm) to
-- its member list and its two tables, which hand events to the bus (Bus); a watch stream (Watch)
-- takes them from there. Publish puts the clients' own events on the bus, and asks the peers to
-- do the same. The heartbeat monitor (Heartbeat) marks silent peers dead, and so does the expiry
-- of their presence leases (Presence), which each node's keeper renews or asks for again, through
-- an interface (Presence.Keeper.Holder, with its laws Honours) that RaftHolder implements. The
-- expirers read the tables and submit expiries.
--
-- How the code corresponds. A type with a mutex is a record, and each of its methods a function
-- from the record to the record, the events it emits and its result. Function names are the
-- source's in this library's spelling (Acquire is acquire). A map is an association list with one
-- entry for a key, in any order; a Go error is an optional Error; time.Now() is an argument; an
-- instant is a number of nanoseconds since Go's zero time; a duration is an integer, and its
-- int64 wrap-around is written out where the code multiplies. Token counters and sequence numbers
-- are uint64 and wrap around. Loops are structural recursion on lists, or step relations
-- (LockService.Waiting.Missed); the one loop on fuel is the client's retry, whose fuel is one
-- turn for every 50 ms that the context has left, the least wait between two turns, and two more.
--
-- What others do. A method of a type with a mutex is one step. A handler or a loop that releases the
-- mutex between two steps takes what others do in between as an argument, where a theorem is about it:
-- TryLock between its entry and its answer, the lock and lease expirers between Due and each expiry,
-- Watch between Subscribe and LastSeq, the presence keeper between two turns; and Lock's loop is a step
-- relation. The other handlers run as if nobody came in between their steps, and so does the answer of
-- a Lock that was granted.
--
-- Parameters. The Unicode letter and digit tests (Names.Unicode), the JSON codec
-- (Consensus.Command.Codec), hashicorp/raft's Apply (Consensus.Node.Raft), what uid.New answers
-- (Publish), the pings (Heartbeat), the transport of a stream (Watch.Stream), the other nodes
-- (Grpc.Remote), changes of the Raft configuration (Consensus.Servers.Configurator), the join
-- token, the certificates and where they are saved (JoinService.Security, ControlService), and
-- the server of a client (Sdk.Locks.Server, Sdk.Leases.Server) and the Kubernetes API
-- (Operator.Seed.Api) are parameters. What is relied on of them is a hypothesis where it is used:
-- AppliesHere and RoundTrips in Consensus.Node.Submission, Commits in Consensus.Node.Commits,
-- IsVersioned in Operator.OneSeed, IsOpen in Watch.Opening.
--
-- Not modelled: logging and tickers, and contexts, except for the time at which one ends; the
-- health and heartbeat services and the server itself; store and configuration; the rest of the
-- operator, the client's watch stream, the command line, load generators; TLS and keys, which are
-- calls of the standard library; generated code.
pub mod Prelude
pub mod Fault
pub mod Clock
pub mod Names
pub mod Events
pub mod Locks
pub mod Grants
pub mod Leases
pub mod Membership
pub mod Consensus
pub mod Bus
pub mod Watch
pub mod Publish
pub mod Heartbeat
pub mod Presence
pub mod Sdk
pub mod Operator
pub mod Grpc
pub mod LockService
pub mod LeaseService
pub mod JoinService
pub mod MembershipService
