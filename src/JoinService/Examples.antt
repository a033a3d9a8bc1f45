-- ===== src/JoinService/Examples.antt =====
-- Tests and witnesses for JoinService: a cluster of two, with Raft, in which "b" stopped.
use clusdr.Prelude.{
  ◌⊎◌, Bool, true, false, ◌≡◌, ◌≢◌, refl, none, some, List, [], ◌∷◌, String, lookup, if◌then◌else◌,
  insert, delete, values, sort_by, str_lt, str_eq,
}
use clusdr.Names.{ascii}
use clusdr.Fault.{dial_failed}
use clusdr.Membership.{
  Engine, Member, status_alive, role_voter, new, join_as, mark_dead, leave, left, list_members,
  normalize_role, normalize_status, run, step, joins, marks_dead,
}
use clusdr.Membership.Invariant.{IsConsistent, run-new-IsConsistent}
use clusdr.Membership.Listing.{find_member}
use clusdr.Consensus.Command.{Codec, blank, add_member, drop_member}
use clusdr.Consensus.Fsm.{apply, apply_command, apply_to, apply_member}
use clusdr.Consensus.Node.{propose_member, apply_add_member_as, apply_drop_member}
use clusdr.Consensus.Node.Fixtures.{
  is_add, is_drop, codec_for, at_once_with, at_once_with-AppliesHere, add_codec-RoundTrips,
  drop_codec-RoundTrips,
}
use clusdr.Consensus.Servers.{
  Server, Change, adds_voter, adds_nonvoter, removes, Configurator, among, has_server, remove_voter,
}
use clusdr.Grpc.{Reply, replied, refused, unavailable, Remote, forward}
use clusdr.JoinService.{
  Cluster, Voter, JoinService, JoinRequest, MemberInfo, led, join, member_to_proto,
}
use clusdr.JoinService.Changes.{
  PromoteRequest, LeaveRequest, RejoinRequest, promote, leave_cluster, leave_here, leave_member,
  remove_member, rejoin, rejoin_here, rejoin_member, readmit,
}
use clusdr.JoinService.Control.{or_self, request_promote, request_leave}
use clusdr.JoinService.Followers.{
  Untouched, MayJoin, MayChange, joins_only_as_leader, no_second_hop,
}
use clusdr.JoinService.Members.Rejoining.{rejoin_restores}
use clusdr.JoinService.Members.Leaving.{leave_removes}

-- Raft that does what it is asked.
abbrev drop_server : String → List Server → List Server
drop_server id [] = []
drop_server id (x ∷ xs) = if str_eq x.id id then drop_server id xs else x ∷ drop_server id xs

abbrev apply_change : Change → List Server → List Server
apply_change (adds_voter id addr) servers =
    record { id = id; address = addr; is_voter = true } ∷ drop_server id servers
apply_change (adds_nonvoter id addr) servers =
    record { id = id; address = addr; is_voter = false } ∷ drop_server id servers
apply_change (removes id) servers = drop_server id servers

abbrev willing : Configurator
willing = record {
  unreadable = λ servers. none;
  change = λ ch servers. (apply_change ch servers, none);
}

abbrev server_a : Server
server_a = record { id = "a"; address = "a:2"; is_voter = true }

abbrev server_b : Server
server_b = record { id = "b"; address = "b:2"; is_voter = true }

abbrev stopped : Engine
stopped = run (new 1 "a" "a:1") (joins 5 "b" "b:1" role_voter ∷ marks_dead "b" ∷ [])

abbrev pair : Cluster
pair = record {
  node = record { members = stopped; locks = none; leases = none };
  servers = server_a ∷ server_b ∷ [];
}

abbrev rejoins : Codec
rejoins =
    codec_for is_add (record (blank add_member) { id = "b"; address = "b:9"; role = role_voter })

abbrev leaving : Codec
leaving = codec_for is_drop (record (blank drop_member) { id = "b" })

abbrev voter_with : Bool → Codec → Voter
voter_with leads codec = record {
  is_leader = leads;
  codec = codec;
  raft = at_once_with codec;
  conf = willing;
}

abbrev service : Bool → Codec → JoinService
service leads codec = record {
  cluster_id = "east";
  voter = some (voter_with leads codec);
  security = none;
}

abbrev nobody : {Q A : Type 0} → Remote Q A
nobody = record {
  dial = λ addr. some dial_failed;
  answer = λ addr q. refused unavailable dial_failed;
}

abbrev come_back : RejoinRequest
come_back = record { node_id = "b"; address = "b:9"; role = "observer"; relay = false }

abbrev go_away : LeaveRequest
go_away = record { node_id = "b"; relay = false }

abbrev come_in : JoinRequest
come_in = record {
  node_id = "c";
  cluster_id = "east";
  address = "c:1";
  raft_addr = "c:2";
  join_token = "";
  relay = true;
  observer = false;
}

abbrev raise : PromoteRequest
raise = record { node_id = "b"; relay = true }

program : Unit {0}
unfolding new join_as mark_dead leave left list_members normalize_role normalize_status run step
    lookup insert delete values sort_by str_lt find_member apply apply_command apply_to apply_member
    propose_member apply_add_member_as apply_drop_member among has_server forward led join
    member_to_proto promote leave_cluster leave_here leave_member remove_member rejoin rejoin_here
    rejoin_member readmit
program = tt

member_infos : String → List MemberInfo
member_infos b_addr =
    record { id = "a"; address = "a:1"; status = status_alive; leader = true; role = role_voter }
    ∷ record {
      id = "b";
      address = b_addr;
      status = status_alive;
      leader = false;
      role = role_voter;
    }
    ∷ []

back_answer :
    (rejoin (service true rejoins) nobody 9 come_back pair).2 ≡ replied (member_infos "b:9")
unfolding program member_infos
back_answer = refl

away_answer :
    (leave_cluster (service true leaving) nobody go_away pair).2
    ≡ replied (
        record {
          id = "a";
          address = "a:1";
          status = status_alive;
          leader = true;
          role = role_voter;
        }
        ∷ [])
unfolding program
away_answer = refl

joins_only_as_leader_example :
    let s = service false rejoins in
    (MayJoin s come_in ⊎ Untouched pair (join s nobody 9 come_in pair))
    × (MayChange s raise.node_id ⊎ Untouched pair (promote s nobody 9 raise pair))
    × (MayChange s go_away.node_id ⊎ Untouched pair (leave_cluster s nobody go_away pair))
    × (MayChange s come_back.node_id ⊎ Untouched pair (rejoin s nobody 9 come_back pair))
    × (MayChange s (or_self "b" pair) ⊎ Untouched pair (request_promote s nobody 9 "b" pair))
    × (MayChange s (or_self "b" pair) ⊎ Untouched pair (request_leave s nobody "b" pair))
joins_only_as_leader_example =
    joins_only_as_leader (service false rejoins) 9 pair nobody come_in nobody raise nobody go_away
      nobody come_back "b"

abbrev anyone : {Q A : Type 0} → Reply A → Remote Q A
anyone r = record { dial = λ addr. none; answer = λ addr q. r }

no_second_hop_example :
    let s = service false rejoins in
    (come_in.relay ≡ true
      → join s nobody 9 come_in pair
        ≡ join s (anyone (refused unavailable dial_failed)) 9 come_in pair)
    × (raise.relay ≡ true
        → promote s nobody 9 raise pair ≡ promote s (anyone (replied [])) 9 raise pair)
    × (go_away.relay ≡ true
        → leave_cluster s nobody go_away pair ≡ leave_cluster s (anyone (replied [])) go_away pair)
    × (come_back.relay ≡ true
        → rejoin s nobody 9 come_back pair ≡ rejoin s (anyone (replied [])) 9 come_back pair)
no_second_hop_example =
    no_second_hop (service false rejoins) 9 pair nobody (anyone (refused unavailable dial_failed))
      come_in nobody (anyone (replied [])) raise nobody (anyone (replied [])) go_away nobody
      (anyone (replied [])) come_back refl

stopped-IsConsistent : IsConsistent stopped
stopped-IsConsistent =
    run-new-IsConsistent 1 "a" "a:1" (joins 5 "b" "b:1" role_voter ∷ marks_dead "b" ∷ [])

rejoin_restores_example :
    let c' = (rejoin (service true rejoins) nobody 9 come_back pair).0 in
    (has_server willing "b" pair.servers ≡ true)
    × (c'.servers ≡ pair.servers)
    × ((m : Member) × (lookup "b" c'.node.members.members ≡ some m)
        × (m.status ≡ status_alive)
        × (m.address ≡ "b:9")
        × ((m₀ : Member) → lookup "b" stopped.members ≡ some m₀ → m.role ≡ m₀.role)
        × (lookup "b" stopped.members ≡ none → m.role ≡ normalize_role "observer"))
    × ((k : String) → k ≢ "b" → lookup k c'.node.members.members ≡ lookup k stopped.members)
rejoin_restores_example =
    rejoin_restores ascii (service true rejoins) (voter_with true rejoins) nobody 9 come_back pair
      (member_infos "b:9") refl refl (at_once_with-AppliesHere rejoins)
      (add_codec-RoundTrips "b" "b:9" role_voter) stopped-IsConsistent back_answer

leave_removes_example :
    let c' = (leave_cluster (service true leaving) nobody go_away pair).0 in
    (lookup "b" c'.node.members.members ≡ none)
    × ((k : String) → k ≢ "b" → lookup k c'.node.members.members ≡ lookup k stopped.members)
    × (c'.servers ≡ (
        if has_server willing "b" pair.servers
        then (remove_voter willing "b" pair.servers).0
        else pair.servers))
leave_removes_example =
    leave_removes ascii (service true leaving) (voter_with true leaving) nobody go_away pair _ refl
      refl (at_once_with-AppliesHere leaving) (drop_codec-RoundTrips "b") stopped-IsConsistent
      away_answer
