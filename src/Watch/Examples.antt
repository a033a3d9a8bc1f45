-- ===== src/Watch/Examples.antt =====
-- The watch service on concrete inputs: tests of the definitions, and the theorems at work.
use clusdr.Prelude.{pos, true, false, ◌≡◌, refl, ◌↔◌, ◌⊎◌, none, [], ◌∷◌, ◌++◌, strip_prefix}
use clusdr.Events.{
  event, nil, member_join, lock_expired, normalize_topic, topic_from_type, watch_sync, watch_gap,
}
use clusdr.Membership.{Member, normalize_status}
use clusdr.Names.{ascii}
use clusdr.Bus.{Bus, subscribe, publish, last_seq}
use clusdr.Watch.{
  WatchRequest, Stream, send, matches_watch, listed, topic_listed, snapshot_kind, send_members,
  send_snapshot, opening, start, validate_topics, sync_response,
}
use clusdr.Watch.Filters.{PassesTopics, PassesTypes, matches_watch_iff}
use clusdr.Watch.Opening.{IsNormal, members_shown, leader_shown, gap_shown, start-open}

program : Unit {0}
unfolding send matches_watch listed topic_listed snapshot_kind send_members send_snapshot opening
    normalize_status normalize_topic topic_from_type strip_prefix
program = tt

abbrev everything : WatchRequest
everything = record { event_types = []; topics = []; last_seq = 3 }

abbrev one_topic : WatchRequest
one_topic = record { event_types = []; topics = "custom.deploy" ∷ []; last_seq = 0 }

topic_passes : matches_watch one_topic "custom.deploy" ≡ true
unfolding program
topic_passes = refl

others_do_not : matches_watch one_topic member_join ≡ false
unfolding program
others_do_not = refl

abbrev b_dead : Member
b_dead = record {
  id = "b";
  address = "b:1";
  status = "dead";
  leader = false;
  role = "voter";
  joined_at = 5;
}

abbrev quiet : Stream
quiet = record { sent = []; transport = λ n. none }

dead-IsNormal : IsNormal b_dead
unfolding normalize_status
dead-IsNormal = refl

matches_watch_iff_example : (matches_watch one_topic lock_expired ≡ true) ↔ (
    (lock_expired ≡ watch_sync)
    ⊎ (lock_expired ≡ watch_gap)
    ⊎ (PassesTopics one_topic.topics lock_expired × PassesTypes [] lock_expired))
matches_watch_iff_example = matches_watch_iff one_topic lock_expired

-- A bus that has sent seven events, one of them after the subscription.
abbrev six : Bus
six = record { seq = 6; next = 2; subs = [] }

legal : validate_topics ascii [] ≡ none
unfolding validate_topics
legal = refl

start-open_example :
    let s = subscribe (pos 64) six in
    let more = publish 70 (event lock_expired "job" nil) in
    let from_seq = last_seq (more s.0) in
    start ascii everything 70 71 72 (b_dead ∷ []) "a" more (λ b. b) six quiet ≡ (
      more s.0,
      record quiet {
        sent =
            (members_shown everything 70 (b_dead ∷ []) ++ leader_shown everything 70 "a")
            ++ (sync_response 71 from_seq ∷ gap_shown everything 72 from_seq);
      },
      none,
      s.1,
    )
start-open_example =
    start-open ascii everything 70 71 72 (b_dead ∷ []) "a"
      (publish 70 (event lock_expired "job" nil)) (λ b. b) six quiet legal (dead-IsNormal, tt)
      (λ n. refl)
