-- ===== src/JoinService.antt =====
-- grpcserver/join.go: JoinService, with which nodes enter, leave and change their role, and ControlService,
-- with which a node's own operator asks for it.
-- The Joiner is the FSM's member list, which can JoinAs, Left and Leave. `voter` is `none` without Raft (in
-- unit tests). JoinSecurity and JoinBootstrap are parameters, and so are the other nodes.
-- This file has the state and Join. Children: Changes (Promote, Leave and Rejoin) and Control (the
-- ControlService); Followers and Members (theorems), Examples (tests).
pub mod Changes
pub mod Control
pub mod Followers
pub mod Members
mod Examples
use clusdr.Prelude.{
  ℕ, Bool, true, false, not, ◌&&◌, ◌||◌, Option, none, some, List, [], ◌∷◌, ◌++◌, String, str_eq,
  if◌then◌else◌, map, length, ltb,
}
use clusdr.Fault.{
  Error, Result, ok, err, not_leader, node_id_required, address_required, addr_required,
  cluster_mismatch, invalid_join_token, member_not_found, member_not_alive, not_a_raft_member,
}
use clusdr.Clock.{Time}
use clusdr.Events.{Event}
use clusdr.Membership.{
  Engine, Member, join_as, leave, left, list_members, normalize_role, normalize_status, role_voter,
  role_observer, status_alive, is_some,
}
use clusdr.Membership.Listing.{find_member}
use clusdr.Consensus.Command.{Codec}
use clusdr.Consensus.Fsm.{Fsm}
use clusdr.Consensus.Node.{Raft, apply_add_member_as, apply_drop_member}
use clusdr.Consensus.Servers.{
  Server, Configurator, add_voter, add_nonvoter, remove_voter, promote_to_voter, has_server,
}
use clusdr.Grpc.{
  Code, Reply, replied, refused, invalid_argument, failed_precondition, internal, unavailable,
  not_found, unauthenticated, Remote, forward,
}

-- A node with the Raft configuration as it knows it.
pub record Cluster : Type 0 where
  pub node : Fsm
  pub servers : List Server

-- VoterAdder.
pub record Voter : Type 0 where
  pub is_leader : Bool
  pub codec : Codec
  pub raft : Raft
  pub conf : Configurator

-- What IssueNode returns.
pub record Certificates : Type 0 where
  pub node_cert : List ℕ
  pub node_key : List ℕ
  pub ca_cert : List ℕ
  pub join_token_hash : List ℕ

-- JoinSecurity.
pub record Security : Type 0 where
  pub check_token : String → Option Error
  pub issue_node : String → Result Certificates

-- joinService; the ControlService of the node has the same voter and Joiner.
pub record JoinService : Type 0 where
  pub cluster_id : String
  pub voter : Option Voter
  pub security : Option Security

pub record JoinRequest : Type 0 where
  pub node_id : String
  pub cluster_id : String
  pub address : String
  pub raft_addr : String
  pub join_token : String
  pub relay : Bool
  pub observer : Bool

-- pb.Member.
pub record MemberInfo : Type 0 where
  pub id : String
  pub address : String
  pub status : String
  pub leader : Bool
  pub role : String

-- `failure` is the message of a join that was not accepted.
pub record JoinResponse : Type 0 where
  pub failure : Option Error
  pub members : List MemberInfo
  pub certificates : Option Certificates

-- memberToProto of grpcserver/membership.go.
unfoldable pub member_to_proto : Member → MemberInfo
member_to_proto m = record {
  id = m.id;
  address = m.address;
  status = normalize_status m.status;
  leader = m.leader;
  role = normalize_role m.role;
}

-- protoMembers.
abbrev pub proto_members : Cluster → List MemberInfo
proto_members c = map member_to_proto (list_members c.node.members)

-- memberByID.
abbrev pub member_by_id : Cluster → String → Option Member
member_by_id c id = find_member id (list_members c.node.members)

-- What a step that can fail leaves behind: the cluster, the events, and the code and the error.
abbrev pub Outcome : Type 0
Outcome = Cluster × List Event × Option (Code × Error)

abbrev pub coded : Code → Option Error → Option (Code × Error)
coded code none = none
coded code (some e) = some (code, e)

-- `if err := ...; err != nil { return err }`, and then the rest.
abbrev pub then_do : Outcome → (Cluster → Outcome) → Outcome
then_do (c, events, some e) next = (c, events, some e)
then_do (c, events, none) next = let r = next c in (r.0, events ++ r.1, r.2)

abbrev pub error_of {ℓ} : {A : Type ℓ} → Result A → Option Error
error_of (ok a) = none
error_of (err e) = some e

-- joinLocal.
abbrev pub join_local : Time → String → String → String → Cluster → Outcome
join_local now id addr role c =
    let r = join_as now id addr role c.node.members in
    (record c { node = record c.node { members = r.0 } }, r.1, coded internal (error_of r.2))

-- A change of the Raft configuration.
abbrev pub reconfigure : (List Server → List Server × Option Error) → Cluster → Outcome
reconfigure call c = let r = call c.servers in (record c { servers = r.0 }, [], coded internal r.1)

-- A command on the member list.
abbrev pub submit : (Fsm → Fsm × List Event × Option Error) → Cluster → Outcome
submit call c = let r = call c.node in (record c { node = r.0 }, r.1, coded internal r.2)

abbrev pub joining_role : Bool → String
joining_role observer = if observer then role_observer else role_voter

-- The change of the Raft configuration in Join; a request without a Raft address makes none.
unfoldable pub add_server : Voter → JoinRequest → Cluster → Outcome
add_server v q c =
    if str_eq q.raft_addr ""
    then (c, [], none)
    else if q.observer
    then reconfigure (add_nonvoter v.conf q.node_id q.raft_addr) c
    else reconfigure (add_voter v.conf q.node_id q.raft_addr) c

-- The writes of Join.
unfoldable pub admit : Option Voter → Time → JoinRequest → Cluster → Outcome
unfolding add_server
admit none now q c = join_local now q.node_id q.address (joining_role q.observer) c
admit (some v) now q c =
    then_do (add_server v q c)
      (submit (apply_add_member_as v.codec v.raft q.node_id q.address (joining_role q.observer)))

abbrev pub with_certificates : List MemberInfo → Result Certificates → Reply JoinResponse
with_certificates members (err e) = refused internal e
with_certificates members (ok certs) =
    replied (record { failure = none; members = members; certificates = some certs })

-- The response of Join once the node is admitted.
abbrev pub welcome : Option Security → String → Cluster → Reply JoinResponse
welcome none id c =
    replied (record { failure = none; members = proto_members c; certificates = none })
welcome (some sec) id c = with_certificates (proto_members c) (sec.issue_node id)

abbrev pub answer_by {ℓ} :
    {A : Type ℓ} → Outcome → (Cluster → Reply A) → Cluster × List Event × Reply A
answer_by (c, events, some (code, e)) reply = (c, events, refused code e)
answer_by (c, events, none) reply = (c, events, reply c)

-- Join on the leader, or without Raft.
unfoldable pub join_here :
    JoinService → Time → JoinRequest → Cluster → Cluster × List Event × Reply JoinResponse
unfolding admit member_to_proto
join_here s now q c = answer_by (admit s.voter now q c) (welcome s.security q.node_id)

abbrev pub follows : Option Voter → Bool
follows none = false
follows (some v) = not v.is_leader

-- A request on a node: a follower sends it on to the leader, once.
unfoldable pub led :
    {Q A : Type 0}
    → JoinService
    → Remote Q A
    → Bool
    → Q
    → (Cluster → Cluster × List Event × Reply A)
    → Cluster
    → Cluster × List Event × Reply A
unfolding forward
led s remote relay q here c =
    if follows s.voter
    then (
      c,
      [],
      if relay then refused failed_precondition not_leader else forward remote c.node.members q,
    )
    else here c

abbrev pub unauthorized : Option Security → String → Bool
unauthorized none token = false
unauthorized (some sec) token = is_some (sec.check_token token)

-- Join.
unfoldable pub join :
    JoinService
    → Remote JoinRequest JoinResponse
    → Time
    → JoinRequest
    → Cluster
    → Cluster × List Event × Reply JoinResponse
unfolding join_here led
join s remote now q c =
    if str_eq q.node_id ""
    then (c, [], refused invalid_argument node_id_required)
    else if str_eq q.address ""
    then (c, [], refused invalid_argument address_required)
    else if not (str_eq s.cluster_id "")
        && not (str_eq q.cluster_id "")
        && not (str_eq q.cluster_id s.cluster_id)
    then (
      c,
      [],
      replied (record { failure = some cluster_mismatch; members = []; certificates = none }),
    )
    else if unauthorized s.security q.join_token
    then (c, [], refused unauthenticated invalid_join_token)
    else led s remote q.relay (record q { relay = true }) (join_here s now q) c
