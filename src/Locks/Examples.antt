-- ===== src/Locks/Examples.antt =====
-- The lock table on concrete inputs: tests of the definitions, and the theorems at work.
use clusdr.Prelude.{
  List, All, sort_by, keep, true, false, ◌≡◌, refl, ◌≢◌, ◌⊎◌, none, some, [], ◌∷◌, String, arith,
  str_ne, ◌<◌, ◌↔◌, pos, lookup, insert, delete, byte_len, values,
}
use mathlib.Core.List.Perm
use clusdr.Names.{ascii, is_name_char, first_bad}
use clusdr.Fault.{ok}
use clusdr.Grants.{IsFenced, Had, Move}
use clusdr.Locks.{
  LockRecord, Table, Call, expire_all, due, acquires, releases, renews, expires, waits, acquire,
  release, renew, expire, run, step, valid_name, snapshot_copy, restore, expirer_tick, is_due, wait,
  set_deadline, add_lock, drop_lock,
}
use clusdr.Locks.Fencing.{
  token_of, view, Stale, Refused, step-Move, run-IsFenced, old_token_fails, acquire_token_grows,
}
use clusdr.Locks.Invariant.{IsWellFormed, run-IsWellFormed}
use clusdr.Locks.Methods.{Holds, held_until_ended}
use clusdr.Locks.Apart.{Names}
use clusdr.Locks.Expiry.{expirer_tick_iff}
use clusdr.Locks.Snapshots.{restore-snapshot_copy}

program : Unit {0}
unfolding valid_name is_name_char first_bad byte_len lookup insert delete acquire release renew
    expire set_deadline add_lock drop_lock step run wait snapshot_copy values expirer_tick
    expire_all due sort_by keep
program = tt

abbrev job : LockRecord
job = record {
  name = "job";
  holder = "a";
  token = 1;
  acquired_at = 10;
  deadline = 30;
  ttl = pos 20;
}

abbrev held : Table
held = record { waiting = 7 ∷ []; locks = ("job", job) ∷ []; next = 1; emits = true }

job_legal : valid_name ascii "job" ≡ none
unfolding program
job_legal = refl

second_refused : (acquire ascii 20 "job" "b" 40 (pos 20) held).1 ≡ ok (1, false)
unfolding program
second_refused = refl

held-IsWellFormed : IsWellFormed ascii held
held-IsWellFormed = record {
  distinct = (tt, tt);
  named = ((refl, job_legal, str_ne "a" "" refl), tt);
  bounded = omega arith;
}

held-IsFenced : IsFenced token_of (view held)
held-IsFenced = record {
  distinct = (tt, tt);
  issued = ((omega arith, omega arith), tt);
  apart = (tt, tt);
}

-- The holder lets go, and another node takes the lock under the next token.
handed_over : Table
handed_over = run ascii held (releases "job" "a" 1 ∷ acquires 20 "job" "b" 40 (pos 20) ∷ [])

handed_over_token :
    lookup "job" handed_over.locks
    ≡ some (record {
      name = "job";
      holder = "b";
      token = 2;
      acquired_at = 20;
      deadline = 40;
      ttl = pos 20;
    })
unfolding handed_over program
handed_over_token = refl

step-Move_example : Move token_of (view held) (view (step ascii held (expires "job" 1)))
step-Move_example = step-Move ascii held (expires "job" 1) (omega arith)

run-IsFenced_example : IsFenced token_of (view handed_over)
unfolding handed_over
run-IsFenced_example =
    run-IsFenced ascii held (releases "job" "a" 1 ∷ acquires 20 "job" "b" 40 (pos 20) ∷ [])
      (omega arith) held-IsFenced

abbrev dropped : Table
dropped = record held { locks = [] }

dropped-IsFenced : IsFenced token_of (view dropped)
dropped-IsFenced = record { distinct = tt; issued = tt; apart = tt }

dropped-Stale : Stale dropped "job" 1
unfolding program
dropped-Stale = (omega arith, λ rec h. ground arith)

old_token_fails_example :
    Refused
      (run ascii dropped (acquires 20 "job" "b" 40 (pos 20) ∷ []))
      (release ascii "job" "a" 1 (run ascii dropped (acquires 20 "job" "b" 40 (pos 20) ∷ [])))
old_token_fails_example =
    (old_token_fails ascii dropped (acquires 20 "job" "b" 40 (pos 20) ∷ []) "job" "a" 1 50 (pos 20)
      (omega arith) dropped-IsFenced dropped-Stale).0

grant_token :
    (acquire ascii 20 "job" "b" 40 (pos 20) (run ascii held (expires "job" 1 ∷ []))).1
    ≡ ok (2, true)
unfolding program
grant_token = refl

acquire_token_grows_example : (1 < 2) ⊎ Had token_of (view held) "job" 2
acquire_token_grows_example =
    acquire_token_grows ascii held (expires "job" 1 ∷ []) 20 "job" "b" 40 (pos 20) 2 (omega arith)
      held-IsFenced grant_token

run-IsWellFormed_example :
    IsWellFormed ascii (run ascii held (waits 3 ∷ renews "job" "a" 1 50 (pos 20) ∷ []))
run-IsWellFormed_example =
    run-IsWellFormed ascii held (waits 3 ∷ renews "job" "a" 1 50 (pos 20) ∷ []) held-IsWellFormed

held-Holds : Holds held "job" "a" 1
unfolding program
held-Holds = (job, refl, (refl, refl))

other_holder : ◌≢◌ {A = String} "b" "a"
other_holder = str_ne "b" "a" refl

held_until_ended_example :
    Holds (run ascii held (waits 3 ∷ releases "job" "b" 1 ∷ [])) "job" "a" 1
    × ((acquire ascii 20 "job" "b" 40
          (pos 20)
          (run ascii held (waits 3 ∷ releases "job" "b" 1 ∷ []))).1
        ≢ ok (2, true))
held_until_ended_example =
    held_until_ended ascii held (waits 3 ∷ releases "job" "b" 1 ∷ []) "job" "a" "b" 1 2 20 40
      (pos 20) (tt, tt) held-Holds (λ h. h, (λ h. other_holder h.1, tt)) other_holder

refreshed : (acquire ascii 20 "job" "a" 90 (pos 60) held).1 ≡ ok (1, true)
unfolding program
refreshed = refl

abbrev others : String → List Call
others name = acquires 40 "db" "b" 90 (pos 50) ∷ waits 3 ∷ []

others-apart : (name : String) → All (λ c. ¬ Names c "job") (others name)
others-apart name = (str_ne "db" "job" refl, (λ h. h, tt))

expirer_tick_iff_example :
    ((lookup "job" (expirer_tick ascii (λ name. true) others true 40 held).locks ≡ some job)
      ↔ ((lookup "job" held.locks ≡ some job) × ((is_due 40 job ≡ false) ⊎ (true ≡ false))))
    × (expirer_tick ascii (λ name. true) others false 40 held ≡ held)
expirer_tick_iff_example =
    expirer_tick_iff ascii (λ name. true) others 40 held "job" job held-IsWellFormed others-apart

-- A renewal between Due and the expiry keeps the token, so that the lock goes although it is no longer due.
abbrev renewed : String → List Call
renewed name = renews "job" "a" 1 90 (pos 60) ∷ []

raced :
    (lookup "job" (run ascii held (renewed "job")).locks
      ≡ some (record job { deadline = 90; ttl = pos 60 }))
    × (is_due 40 (record job { deadline = 90; ttl = pos 60 }) ≡ false)
    × (lookup "job" (expirer_tick ascii (λ name. true) renewed true 40 held).locks ≡ none)
unfolding program
raced = (refl, refl, refl)

restore-snapshot_copy_example :
    let t' = restore (record { locks = job ∷ []; next = (snapshot_copy held).next }) dropped in
    (lookup "job" t'.locks ≡ lookup "job" held.locks) × (t'.next ≡ 1) × (t'.waiting ≡ [])
unfolding program
restore-snapshot_copy_example =
    restore-snapshot_copy ascii held dropped (job ∷ []) "job" held-IsWellFormed
      (Perm.refl (job ∷ []))
