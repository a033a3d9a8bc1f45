-- ===== src/Membership/Examples.antt =====
-- The member list on concrete inputs: tests of the definitions, and the theorems at work.
use clusdr.Prelude.{true, false, ◌≡◌, refl, [], ◌∷◌, lookup, insert, delete}
use clusdr.Events.{event, nil, member_dead}
use clusdr.Membership.{
  Engine, joins, marks_dead, leaves, sets_leader, new, join_as, mark_dead, leave, set_leader, run,
  step, left, normalize_status, normalize_role, flag_leader,
}
use clusdr.Membership.Invariant.{IsConsistent, run-new-IsConsistent}
use clusdr.Membership.Emissions.{due_events, membership_events}

program : Unit {0}
unfolding new join_as mark_dead leave set_leader run step left normalize_status normalize_role
    flag_leader lookup insert delete
program = tt

two : Engine
unfolding new join_as normalize_role insert delete
two = record (join_as 5 "b" "b:1" "observer" (new 1 "a" "a:1")).0 { emits = true }

death_emits : (mark_dead "b" two).1 ≡ event member_dead "b" nil ∷ []
unfolding two program
death_emits = refl

left_then_joined :
    (left "b" (run two (leaves "b" ∷ [])) ≡ true)
    × (left "b" (run two (leaves "b" ∷ joins 9 "b" "b:2" "voter" ∷ [])) ≡ false)
unfolding two program
left_then_joined = (refl, refl)

run-new-IsConsistent_example :
    IsConsistent
      (run (new 1 "a" "a:1") (joins 5 "b" "b:1" "observer" ∷ sets_leader "b" ∷ leaves "a" ∷ []))
run-new-IsConsistent_example =
    run-new-IsConsistent 1 "a" "a:1"
      (joins 5 "b" "b:1" "observer" ∷ sets_leader "b" ∷ leaves "a" ∷ [])

two-IsConsistent : IsConsistent two
unfolding two program
two-IsConsistent =
    let c : IsConsistent (run (new 1 "a" "a:1") (joins 5 "b" "b:1" "observer" ∷ [])) =
      run-new-IsConsistent 1 "a" "a:1" (joins 5 "b" "b:1" "observer" ∷ []) in
    record {
      distinct = c.distinct;
      entries = c.entries;
      gone_distinct = c.gone_distinct;
      gone = c.gone;
    }

two_emits : two.emits ≡ true
unfolding two
two_emits = refl

membership_events_example :
    (step two (marks_dead "b")).1 ≡ due_events (marks_dead "b") two (step two (marks_dead "b")).0
membership_events_example = membership_events two (marks_dead "b") two_emits two-IsConsistent
