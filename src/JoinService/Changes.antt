-- ===== src/JoinService/Changes.antt =====
-- grpcserver/join.go: Promote, Leave and Rejoin.
use clusdr.Prelude.{
  Bool, true, false, not, ◌&&◌, Option, none, some, List, [], String, str_eq, if◌then◌else◌,
}
use clusdr.Fault.{
  node_id_required, address_required, member_not_found, member_not_alive, not_a_raft_member,
}
use clusdr.Clock.{Time}
use clusdr.Events.{Event}
use clusdr.Membership.{Member, leave, left, normalize_role, role_voter, status_alive, is_some}
use clusdr.Membership.Listing.{find_member}
use clusdr.Consensus.Node.{apply_add_member_as, apply_drop_member}
use clusdr.Consensus.Servers.{remove_voter, promote_to_voter, has_server}
use clusdr.Grpc.{Reply, replied, refused, invalid_argument, failed_precondition, not_found, Remote}
use clusdr.JoinService.{
  Cluster, Voter, JoinService, MemberInfo, proto_members, member_by_id, member_to_proto, Outcome,
  then_do, join_local, reconfigure, submit, answer_by, led,
}

pub record PromoteRequest : Type 0 where
  pub node_id : String
  pub relay : Bool

-- The writes of promoteMember for a live observer.
unfoldable pub make_voter : Option Voter → Time → String → String → Cluster → Outcome
make_voter none now id addr c = join_local now id addr role_voter c
make_voter (some v) now id addr c =
    then_do (reconfigure (promote_to_voter v.conf id) c)
      (submit (apply_add_member_as v.codec v.raft id addr role_voter))

-- promoteMember.
unfoldable pub promote_member : Option Voter → Time → String → Cluster → Outcome
unfolding make_voter find_member
promote_member voter now id c = elim (member_by_id c id) [
  | none ↦ (c, [], some (not_found, member_not_found))
  | some m ↦
      if not (str_eq m.status status_alive)
      then (c, [], some (failed_precondition, member_not_alive m.status))
      else if str_eq (normalize_role m.role) role_voter
      then (c, [], none)
      else make_voter voter now id m.address c
]

-- The replies of Promote, Leave and Rejoin: the members.
abbrev pub listed : Cluster → Reply (List MemberInfo)
listed c = replied (proto_members c)

-- Promote on the leader, or without Raft.
unfoldable pub promote_here :
    JoinService → Time → PromoteRequest → Cluster → Cluster × List Event × Reply (List MemberInfo)
unfolding promote_member member_to_proto
promote_here s now q c = answer_by (promote_member s.voter now q.node_id c) listed

-- Promote.
unfoldable pub promote :
    JoinService
    → Remote PromoteRequest (List MemberInfo)
    → Time
    → PromoteRequest
    → Cluster
    → Cluster × List Event × Reply (List MemberInfo)
unfolding promote_here led
promote s remote now q c =
    if str_eq q.node_id ""
    then (c, [], refused invalid_argument node_id_required)
    else led s remote q.relay (record q { relay = true }) (promote_here s now q) c

-- The writes of leaveMember: the member list first, then the Raft configuration.
unfoldable pub remove_member : Option Voter → Bool → String → Cluster → Outcome
remove_member none in_raft id c =
    let r = leave id c.node.members in
    (record c { node = record c.node { members = r.0 } }, r.1, none)
remove_member (some v) in_raft id c =
    then_do (submit (apply_drop_member v.codec v.raft id) c)
      (λ c'. if in_raft then reconfigure (remove_voter v.conf id) c' else (c', [], none))

abbrev pub in_raft : Option Voter → String → Cluster → Bool
in_raft none id c = false
in_raft (some v) id c = has_server v.conf id c.servers

-- leaveMember.
unfoldable pub leave_member : Option Voter → String → Cluster → Outcome
unfolding remove_member find_member
leave_member voter id c =
    if not (is_some (member_by_id c id)) && not (in_raft voter id c) && not (left id c.node.members)
    then (c, [], some (not_found, member_not_found))
    else if left id c.node.members && not (in_raft voter id c)
    then (c, [], none)
    else remove_member voter (in_raft voter id c) id c

pub record LeaveRequest : Type 0 where
  pub node_id : String
  pub relay : Bool

-- Leave on the leader, or without Raft.
unfoldable pub leave_here :
    JoinService → LeaveRequest → Cluster → Cluster × List Event × Reply (List MemberInfo)
unfolding leave_member member_to_proto
leave_here s q c = answer_by (leave_member s.voter q.node_id c) listed

-- Leave.
unfoldable pub leave_cluster :
    JoinService
    → Remote LeaveRequest (List MemberInfo)
    → LeaveRequest
    → Cluster
    → Cluster × List Event × Reply (List MemberInfo)
unfolding leave_here led
leave_cluster s remote q c =
    if str_eq q.node_id ""
    then (c, [], refused invalid_argument node_id_required)
    else led s remote q.relay (record q { relay = true }) (leave_here s q) c

-- The role with which a node comes back: the one that the member list has, else the one it asks for.
abbrev pub rejoining_role : String → Option Member → String
rejoining_role role none = normalize_role role
rejoining_role role (some m) = normalize_role m.role

-- The write of rejoinMember.
unfoldable pub readmit : Option Voter → Time → String → String → String → Cluster → Outcome
readmit none now id addr role c = join_local now id addr role c
readmit (some v) now id addr role c = submit (apply_add_member_as v.codec v.raft id addr role) c

abbrev pub is_stranger : Option Voter → String → Cluster → Bool
is_stranger none id c = false
is_stranger (some v) id c = not (has_server v.conf id c.servers)

-- rejoinMember.
unfoldable pub rejoin_member : Option Voter → Time → String → String → String → Cluster → Outcome
unfolding readmit find_member
rejoin_member voter now id addr role c =
    if is_stranger voter id c
    then (c, [], some (failed_precondition, not_a_raft_member))
    else readmit voter now id addr (rejoining_role role (member_by_id c id)) c

pub record RejoinRequest : Type 0 where
  pub node_id : String
  pub address : String
  pub role : String
  pub relay : Bool

-- Rejoin on the leader, or without Raft.
unfoldable pub rejoin_here :
    JoinService → Time → RejoinRequest → Cluster → Cluster × List Event × Reply (List MemberInfo)
unfolding rejoin_member member_to_proto
rejoin_here s now q c = answer_by (rejoin_member s.voter now q.node_id q.address q.role c) listed

-- Rejoin.
unfoldable pub rejoin :
    JoinService
    → Remote RejoinRequest (List MemberInfo)
    → Time
    → RejoinRequest
    → Cluster
    → Cluster × List Event × Reply (List MemberInfo)
unfolding rejoin_here led
rejoin s remote now q c =
    if str_eq q.node_id ""
    then (c, [], refused invalid_argument node_id_required)
    else if str_eq q.address ""
    then (c, [], refused invalid_argument address_required)
    else led s remote q.relay (record q { relay = true }) (rejoin_here s now q) c
