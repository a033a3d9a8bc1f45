-- ===== src/JoinService/Control.antt =====
-- grpcserver/join.go: ControlService, which the command line of a node calls.
-- The remote JoinService and the file system (JoinBootstrap) are parameters.
use clusdr.Prelude.{
  Bool, true, false, Option, none, some, List, [], String, str_eq, if◌then◌else◌, length, ltb,
}
use clusdr.Fault.{Error, node_id_required, addr_required}
use clusdr.Clock.{Time}
use clusdr.Events.{Event}
use clusdr.Membership.{Member}
use clusdr.Grpc.{
  Code, Reply, replied, refused, invalid_argument, internal, unavailable, unauthenticated, Remote,
  forward,
}
use clusdr.JoinService.{
  Cluster, JoinService, JoinRequest, JoinResponse, Certificates, MemberInfo, member_by_id,
  member_to_proto, answer_by, follows,
}
use clusdr.JoinService.Changes.{PromoteRequest, LeaveRequest, promote_member, leave_member, listed}

-- controlService, beside what it shares with the node's JoinService.
pub record ControlService : Type 0 where
  pub raft_addr : String
  pub save_join_certs : Option (Certificates → Option Error)

-- RequestJoinRequest.
pub record RequestJoin : Type 0 where
  pub addr : String
  pub token : String
  pub observer : Bool

pub record RequestJoinResponse : Type 0 where
  pub failure : Option Error
  pub members : List MemberInfo
  pub cert_issued : Bool

abbrev pub address_of : Option Member → String
address_of none = ""
address_of (some m) = m.address

-- The request that RequestJoin sends to the remote node.
abbrev pub join_request : JoinService → ControlService → RequestJoin → Cluster → JoinRequest
join_request s control q c = record {
  node_id = c.node.members.self_id;
  cluster_id = s.cluster_id;
  address = address_of (member_by_id c c.node.members.self_id);
  raft_addr = control.raft_addr;
  join_token = q.token;
  relay = false;
  observer = q.observer;
}

-- The code that a failed remote join is reported with.
abbrev pub join_code : Code → Code
join_code unauthenticated = unauthenticated
join_code _ = unavailable

abbrev pub issued : Option Certificates → Bool
issued none = false
issued (some certs) = ltb 0 (length certs.node_cert)

abbrev pub save : Option (Certificates → Option Error) → Option Certificates → Option Error
save (some write) (some certs) = if ltb 0 (length certs.node_cert) then write certs else none
save _ _ = none

abbrev pub saved : List MemberInfo → Bool → Option Error → Reply RequestJoinResponse
saved members cert_issued (some e) = refused internal e
saved members cert_issued none =
    replied (record { failure = none; members = members; cert_issued = cert_issued })

-- What RequestJoin makes of the remote node's reply.
unfoldable pub conclude : ControlService → Reply JoinResponse → Reply RequestJoinResponse
conclude control (refused code e) = refused (join_code code) e
conclude control (replied resp) = elim resp.failure [
  | some e ↦ replied (record { failure = some e; members = []; cert_issued = false })
  | none ↦
      saved resp.members (issued resp.certificates) (save control.save_join_certs resp.certificates)
]

-- RequestJoin; it leaves this node as it is.
unfoldable pub request_join :
    JoinService
    → ControlService
    → Remote JoinRequest JoinResponse
    → RequestJoin
    → Cluster
    → Reply RequestJoinResponse
unfolding conclude member_to_proto
request_join s control remote q c =
    if str_eq q.addr "" then refused invalid_argument addr_required else elim (remote.dial q.addr) [
      | some e ↦ refused unavailable e
      | none ↦ conclude control (remote.answer q.addr (join_request s control q c))
    ]

-- The node that RequestPromote and RequestLeave are about: this one, if none is named.
abbrev pub or_self : String → Cluster → String
or_self id c = if str_eq id "" then c.node.members.self_id else id

-- RequestPromote.
unfoldable pub request_promote :
    JoinService
    → Remote PromoteRequest (List MemberInfo)
    → Time
    → String
    → Cluster
    → Cluster × List Event × Reply (List MemberInfo)
unfolding promote_member forward member_to_proto
request_promote s remote now node_id c =
    let id = or_self node_id c in
    if str_eq id ""
    then (c, [], refused invalid_argument node_id_required)
    else if follows s.voter
    then (c, [], forward remote c.node.members (record { node_id = id; relay = true }))
    else answer_by (promote_member s.voter now id c) listed

-- RequestLeave.
unfoldable pub request_leave :
    JoinService
    → Remote LeaveRequest (List MemberInfo)
    → String
    → Cluster
    → Cluster × List Event × Reply (List MemberInfo)
unfolding leave_member forward member_to_proto
request_leave s remote node_id c =
    let id = or_self node_id c in
    if str_eq id ""
    then (c, [], refused invalid_argument node_id_required)
    else if follows s.voter
    then (c, [], forward remote c.node.members (record { node_id = id; relay = true }))
    else answer_by (leave_member s.voter id c) listed
