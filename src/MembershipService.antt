-- ===== src/MembershipService.antt =====
-- grpcserver/membership.go: the handlers of MembershipService.
use clusdr.Prelude.{none, some, List, String, map}
use clusdr.Fault.{no_leader}
use clusdr.Membership.{Engine, leader_of}
use clusdr.Membership as Engines
use clusdr.Grpc.{Reply, replied, refused, unavailable}
use clusdr.JoinService.{MemberInfo, member_to_proto}

-- GetLeaderResponse.
pub record LeaderInfo : Type 0 where
  pub leader_id : String
  pub address : String

-- ListMembers.
unfoldable pub list_members : Engine → List MemberInfo
unfolding member_to_proto
list_members e = map member_to_proto (Engines.list_members e)

-- GetLeader.
unfoldable pub get_leader : Engine → Reply LeaderInfo
get_leader e = elim (leader_of e) [
  | none ↦ refused unavailable no_leader
  | some m ↦ replied (record { leader_id = m.id; address = m.address })
]
