-- ===== src/Locks/Invariant.antt =====
-- What every lock table looks like inside, whatever the calls.
use clusdr.Prelude.{
  ◌≡◌, refl, ◌≢◌, ◌≤◌, ◌<◌, none, some, List, [], ◌∷◌, String, arith, lookup, Distinct, All,
  All-insert, All-delete, All-lookup, Distinct-insert, Distinct-delete, length, length-insert,
  length-delete-le,
}
use clusdr.Names.{Unicode}
use clusdr.Clock.{Time, Duration}
use clusdr.Locks.{
  LockRecord, Table, Call, acquires, releases, renews, expires, waits, valid_name, max_locks, wait,
  step, run, set_deadline, add_lock, drop_lock, new, new_lock,
}
use clusdr.Locks.Cases.{acquire_cases, release_cases, renew_cases, expire_cases}

-- An entry stands under its own name, which is legal, and has a holder.
abbrev pub Entry : Unicode → String × LockRecord → Type 0
Entry u e = (e.1.name ≡ e.0) × (valid_name u e.0 ≡ none) × (e.1.holder ≢ "")

pub record IsWellFormed (u : Unicode) (t : Table) : Type 0 where
  pub distinct : Distinct t.locks
  pub named : All (Entry u) t.locks
  pub bounded : length t.locks ≤ max_locks

pub new-IsWellFormed : (u : Unicode) → IsWellFormed u new
unfolding new
new-IsWellFormed u = record { distinct = tt; named = tt; bounded = omega arith }

set_deadline-IsWellFormed :
    (u : Unicode) (t : Table) (name : String) (rec : LockRecord) (deadline : Time) (ttl : Duration)
    → lookup name t.locks ≡ some rec
    → IsWellFormed u t
    → IsWellFormed u (set_deadline name rec deadline ttl t)
unfolding set_deadline
set_deadline-IsWellFormed u t name rec deadline ttl l w = record {
  distinct = Distinct-insert name _ t.locks w.distinct;
  named =
      All-insert (Entry u) name _ t.locks (All-lookup (Entry u) name {v = rec} t.locks w.named l)
        w.named;
  bounded =
      ground (arith, length-insert name (record rec { deadline = deadline; ttl = ttl }) t.locks);
}

add_lock-IsWellFormed :
    (u : Unicode) (t : Table) (now : Time) (name holder : String) (deadline : Time) (ttl : Duration)
    → valid_name u name ≡ none
    → holder ≢ ""
    → lookup name t.locks ≡ none
    → length t.locks < max_locks
    → IsWellFormed u t
    → IsWellFormed u (add_lock now name holder deadline ttl t)
unfolding add_lock
add_lock-IsWellFormed u t now name holder deadline ttl v n l b w = record {
  distinct = Distinct-insert name _ t.locks w.distinct;
  named = All-insert (Entry u) name _ t.locks (refl, v, n) w.named;
  bounded = ground (arith, length-insert name (new_lock now name holder deadline ttl t) t.locks);
}

drop_lock-IsWellFormed :
    (u : Unicode) (t : Table) (name : String) → IsWellFormed u t → IsWellFormed u (drop_lock name t)
unfolding drop_lock
drop_lock-IsWellFormed u t name w = record {
  distinct = Distinct-delete name t.locks w.distinct;
  named = All-delete (Entry u) name t.locks w.named;
  bounded = omega (arith, length-delete-le name t.locks);
}

pub step-IsWellFormed :
    (u : Unicode) (t : Table) (c : Call) → IsWellFormed u t → IsWellFormed u (step u t c)
unfolding step wait
step-IsWellFormed u t (acquires now n h deadline ttl) w =
    acquire_cases u n t (λ r. IsWellFormed u r.0) now h deadline ttl (λ _ _. w) (λ _ _. w)
      (λ rec v x l b. reset (set_deadline-IsWellFormed u t n rec deadline ttl l w)) (λ _ _ _ _ _. w)
      (λ _ _ _ _. w) (λ v x l b. add_lock-IsWellFormed u t now n h deadline ttl v x l b w)
  where
    reset : {t' : Table} → IsWellFormed u t' → IsWellFormed u (record t' { waiting = [] })
    reset w' = record { distinct = w'.distinct; named = w'.named; bounded = w'.bounded }
step-IsWellFormed u t (releases n h k) w =
    release_cases u n t (λ r. IsWellFormed u r.0) h k (λ _ _. w) (λ _ _. w) (λ _ _ _ _. w)
      (λ _ _ _ _. drop_lock-IsWellFormed u t n w)
step-IsWellFormed u t (renews n h k deadline ttl) w =
    renew_cases u n t (λ r. IsWellFormed u r.0) h k deadline ttl (λ _ _. w) (λ _ _. w)
      (λ _ _ _ _. w) (λ rec v l b. set_deadline-IsWellFormed u t n rec deadline ttl l w)
step-IsWellFormed u t (expires n k) w =
    expire_cases u n t (λ r. IsWellFormed u r.0) k (λ _ _. w) (λ _ _. w) (λ _ _ _ _. w)
      (λ _ _ _ _. drop_lock-IsWellFormed u t n w)
step-IsWellFormed u t (waits g) w = record {
  distinct = w.distinct;
  named = w.named;
  bounded = w.bounded;
}

-- Any calls keep the table well formed: distinct legal names, each record under its own name with a
-- holder, and at most MaxLocks locks.
pub run-IsWellFormed :
    (u : Unicode) (t : Table) (cs : List Call) → IsWellFormed u t → IsWellFormed u (run u t cs)
unfolding run
run-IsWellFormed u t [] w = w
run-IsWellFormed u t (c ∷ cs) w = run-IsWellFormed u (step u t c) cs (step-IsWellFormed u t c w)
