-- ===== src/Heartbeat/Examples.antt =====
-- The heartbeat monitor on concrete inputs: tests of the definitions, and the theorem at work.
use clusdr.Prelude.{
  true, false, ◌≡◌, refl, [], ◌∷◌, String, str_ne, pos, lookup, insert, delete, Distinct, values,
  sort_by, str_lt,
}
use clusdr.Events.{event, nil, member_dead}
use clusdr.Membership.{Member, Engine, list_members, mark_dead, normalize_status}
use clusdr.Heartbeat.{Monitor, misses_of, miss, probe, probe_all, mark_all, tick}
use clusdr.Heartbeat.Peers.{mentions, probe_all-peer}

program : Unit {0}
unfolding miss probe probe_all mark_all tick mentions lookup insert delete list_members mark_dead
    values sort_by str_lt normalize_status
program = tt

abbrev peer : String → Member
peer id = record {
  id = id;
  address = id;
  status = "alive";
  leader = false;
  role = "voter";
  joined_at = 1;
}

-- One miss already, of two that are allowed.
abbrev monitor : Monitor
monitor = record { max_misses = pos 2; misses = ("b", 1) ∷ [] }

abbrev engine : Engine
engine = record {
  self_id = "a";
  leader_id = "a";
  members = ("a", peer "a") ∷ ("b", peer "b") ∷ [];
  dropped = [];
  emits = true;
}

-- The second miss marks the peer dead.
second_miss : (tick (λ addr. false) engine monitor).2 ≡ event member_dead "b" nil ∷ []
unfolding program
second_miss = refl

probe_all-peer_example :
    let r = probe_all (λ addr. false) "a" (peer "a" ∷ peer "b" ∷ peer "c" ∷ []) monitor in
    Distinct r.0.misses × (misses_of "b" r.0 ≡ 0) × (mentions "b" r.1 ≡ true)
unfolding lookup
probe_all-peer_example =
    probe_all-peer (λ addr. false) "a" (peer "a" ∷ []) (peer "c" ∷ []) (peer "b") monitor (tt, tt)
      (str_ne "a" "b" refl, tt) (str_ne "c" "b" refl, tt) (str_ne "b" "a" refl) refl
