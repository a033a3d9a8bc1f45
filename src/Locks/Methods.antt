-- ===== src/Locks/Methods.antt =====
-- What the methods of the lock table do on every branch, as their callers see it.
use clusdr.Prelude.{
  ℕ, true, ◌≡◌, refl, ◌≢◌, ◌↔◌, inl, inr, none, some, List, [], ◌∷◌, String, arith, lookup,
  Distinct, lookup-insert, lookup-delete, str_eq, str_eq_iff, lookup-insert_self, All,
  Distinct-insert, Distinct-delete, if◌then◌else◌, Bool-cases,
}
use clusdr.Names.{Unicode}
use clusdr.Fault.{ok}
use clusdr.Clock.{Time, Duration}
use clusdr.Locks.Cases.{acquire_cases, release_cases, renew_cases, expire_cases, Matches}
use clusdr.Locks.{
  LockRecord, Table, Call, acquires, releases, renews, expires, waits, acquire, release, renew,
  wait, step, run, set_deadline, add_lock, new_lock, drop_lock, valid_name,
}

-- A lock is held under a name, by a holder, with a token.
abbrev pub Holds : Table → String → String → ℕ → Type 0
Holds t name holder token =
    (rec : LockRecord) × (lookup name t.locks ≡ some rec) × Matches rec holder token

lookup-set_deadline :
    (t : Table) (name other : String) (rec : LockRecord) (deadline : Time) (ttl : Duration)
    → lookup other (set_deadline name rec deadline ttl t).locks ≡ (
        if str_eq name other
        then some (record rec { deadline = deadline; ttl = ttl })
        else lookup other t.locks)
unfolding set_deadline
lookup-set_deadline t name other rec deadline ttl = lookup-insert name other _ t.locks

lookup-drop_lock :
    (t : Table) (name other : String)
    → Distinct t.locks
    → lookup other (drop_lock name t).locks
      ≡ (if str_eq name other then none else lookup other t.locks)
unfolding drop_lock
lookup-drop_lock t name other d = lookup-delete name other t.locks d

-- Release succeeds exactly when the name is legal and held by this holder under this token.
pub release_iff :
    (u : Unicode) (t : Table) (name holder : String) (token : ℕ)
    → ((release u name holder token t).1 ≡ none)
      ↔ ((valid_name u name ≡ none) × Holds t name holder token)
release_iff u t name holder token =
    release_cases u name t
      (λ r. (r.1 ≡ none) ↔ ((valid_name u name ≡ none) × Holds t name holder token)) holder token
      (λ e v. (λ q. cc, λ h. absurd (ground arith)))
      (λ v l. (λ q. cc, λ h. absurd (ground (arith, h.1.1))))
      (λ rec v l d. (λ q. cc, λ h. absurd (d (matched rec l h.1))))
      (λ rec v l m. (λ q. (v, (rec, l, m)), λ h. refl))
  where
    matched :
        (rec : LockRecord)
        → lookup name t.locks ≡ some rec
        → Holds t name holder token
        → Matches rec holder token
    matched rec l (rec', k, m) = (ground arith, ground arith)

-- Renew succeeds exactly when Release would.
pub renew_iff :
    (u : Unicode) (t : Table) (name holder : String) (token : ℕ) (deadline : Time) (ttl : Duration)
    → ((renew u name holder token deadline ttl t).1 ≡ none)
      ↔ ((release u name holder token t).1 ≡ none)
unfolding renew release
renew_iff u t name holder token deadline ttl = (λ h. ground arith, λ h. ground arith)

-- The call ends the grant of a name under a holder and a token: it is the holder's release with the
-- token, or an expiry with the token.
abbrev pub Ends : Call → String → String → ℕ → Type 0
Ends (releases name holder token) n h k = (name ≡ n) × (holder ≡ h) × (token ≡ k)
Ends (expires name token) n h k = (name ≡ n) × (token ≡ k)
Ends _ n h k = ⊥

set_deadline-Holds :
    (t : Table) (n name holder : String) (token : ℕ) (rec' : LockRecord) (deadline : Time)
    (ttl : Duration)
    → lookup n t.locks ≡ some rec'
    → Holds t name holder token
    → Holds (set_deadline n rec' deadline ttl t) name holder token
set_deadline-Holds t n name holder token rec' deadline ttl k (rec, l, m) =
    elim (Bool-cases (str_eq n name)) [
      | inl b ↦ (
        record rec' { deadline = deadline; ttl = ttl },
        ground (arith, set),
        (ground (arith, same b), ground (arith, same b)),
      )
      | inr b ↦ (rec, ground (arith, set), m)
    ]
  where
    set : lookup name (set_deadline n rec' deadline ttl t).locks ≡ (
        if str_eq n name
        then some (record rec' { deadline = deadline; ttl = ttl })
        else lookup name t.locks)
    set = lookup-set_deadline t n name rec' deadline ttl

    same : str_eq n name ≡ true → rec' ≡ rec
    same b = ground (arith, str_eq_iff n name)

add_lock-Holds :
    (t : Table) (now : Time) (n h name holder : String) (token : ℕ) (deadline : Time)
    (ttl : Duration)
    → lookup n t.locks ≡ none
    → Holds t name holder token
    → Holds (add_lock now n h deadline ttl t) name holder token
unfolding add_lock
add_lock-Holds t now n h name holder token deadline ttl k (rec, l, m) = (
  rec,
  ground (arith, str_eq_iff n name, lookup-insert n name (new_lock now n h deadline ttl t) t.locks),
  m,
)

drop_lock-Holds :
    (t : Table) (n name holder : String) (token : ℕ)
    → Distinct t.locks
    → n ≢ name
    → Holds t name holder token
    → Holds (drop_lock n t) name holder token
drop_lock-Holds t n name holder token d ne (rec, l, m) =
    (rec, ground (arith, str_eq_iff n name, lookup-drop_lock t n name d), m)

step-Holds :
    (u : Unicode) (t : Table) (c : Call) (name holder : String) (token : ℕ)
    → Distinct t.locks
    → ¬ Ends c name holder token
    → Holds t name holder token
    → Holds (step u t c) name holder token
unfolding step wait
step-Holds u t (acquires now n h deadline ttl) name holder token d e (rec, l, m) =
    acquire_cases u n t (λ r. Holds r.0 name holder token) now h deadline ttl (λ _ _. (rec, l, m))
      (λ _ _. (rec, l, m))
      (λ rec' v x k b. set_deadline-Holds t n name holder token rec' deadline ttl k (rec, l, m))
      (λ rec' v x k b. (rec, l, m)) (λ v x k b. (rec, l, m))
      (λ v x k b. add_lock-Holds t now n h name holder token deadline ttl k (rec, l, m))
step-Holds u t (releases n h k) name holder token d e (rec, l, m) =
    release_cases u n t (λ r. Holds r.0 name holder token) h k (λ _ _. (rec, l, m))
      (λ _ _. (rec, l, m)) (λ rec' v l' b. (rec, l, m))
      (λ rec' v l' b.
        drop_lock-Holds t n name holder token d (λ q. e (ground arith, ground arith, ground arith))
          (rec, l, m))
step-Holds u t (renews n h k deadline ttl) name holder token d e (rec, l, m) =
    renew_cases u n t (λ r. Holds r.0 name holder token) h k deadline ttl (λ _ _. (rec, l, m))
      (λ _ _. (rec, l, m)) (λ rec' v l' b. (rec, l, m))
      (λ rec' v l' b. set_deadline-Holds t n name holder token rec' deadline ttl l' (rec, l, m))
step-Holds u t (expires n k) name holder token d e (rec, l, m) =
    expire_cases u n t (λ r. Holds r.0 name holder token) k (λ _ _. (rec, l, m))
      (λ _ _. (rec, l, m)) (λ rec' v l' b. (rec, l, m))
      (λ rec' v l' b.
        drop_lock-Holds t n name holder token d (λ q. e (ground arith, ground arith)) (rec, l, m))
step-Holds u t (waits g) name holder token d e h = h

pub step-Distinct :
    (u : Unicode) (t : Table) (c : Call) → Distinct t.locks → Distinct (step u t c).locks
unfolding step wait set_deadline add_lock drop_lock
step-Distinct u t (acquires now n h deadline ttl) d =
    acquire_cases u n t (λ r. Distinct r.0.locks) now h deadline ttl (λ _ _. d) (λ _ _. d)
      (λ rec v x k b. Distinct-insert n _ t.locks d) (λ rec v x k b. d) (λ v x k b. d)
      (λ v x k b. Distinct-insert n _ t.locks d)
step-Distinct u t (releases n h k) d =
    release_cases u n t (λ r. Distinct r.0.locks) h k (λ _ _. d) (λ _ _. d) (λ rec v l b. d)
      (λ rec v l b. Distinct-delete n t.locks d)
step-Distinct u t (renews n h k deadline ttl) d =
    renew_cases u n t (λ r. Distinct r.0.locks) h k deadline ttl (λ _ _. d) (λ _ _. d)
      (λ rec v l b. d) (λ rec v l b. Distinct-insert n _ t.locks d)
step-Distinct u t (expires n k) d =
    expire_cases u n t (λ r. Distinct r.0.locks) k (λ _ _. d) (λ _ _. d) (λ rec v l b. d)
      (λ rec v l b. Distinct-delete n t.locks d)
step-Distinct u t (waits g) d = d

-- A grant stays until it is ended: through any calls of which none is the holder's release with the
-- token or an expiry with the token, the name stays held by the holder under the token.
run-Holds :
    (u : Unicode) (t : Table) (cs : List Call) (name holder : String) (token : ℕ)
    → Distinct t.locks
    → All (λ c. ¬ Ends c name holder token) cs
    → Holds t name holder token
    → Holds (run u t cs) name holder token
unfolding run
run-Holds u t [] name holder token d e h = h
run-Holds u t (c ∷ cs) name holder token d e h =
    run-Holds u (step u t c) cs name holder token (step-Distinct u t c d) e.1
      (step-Holds u t c name holder token d e.0 h)

acquire_blocked :
    (u : Unicode) (t : Table) (now : Time) (name holder other : String) (token k : ℕ)
    (deadline : Time) (ttl : Duration)
    → Holds t name holder token
    → other ≢ holder
    → (acquire u now name other deadline ttl t).1 ≢ ok (k, true)
acquire_blocked u t now name holder other token k deadline ttl (rec, l, m) ne =
    acquire_cases u name t (λ r. r.1 ≢ ok (k, true)) now other deadline ttl (λ e _ q. cc)
      (λ _ _ q. cc) (λ rec' v x l' b q. ne (ground arith)) (λ rec' v x l' b q. cc)
      (λ v x l' b q. cc) (λ v x l' b q. ground arith)

-- Mutual exclusion: while a grant has not been ended by the holder's release or an expiry with its
-- token, the name stays held by the holder under that token, whatever else is called, and an Acquire
-- by anybody else is not granted.
pub held_until_ended :
    (u : Unicode) (t : Table) (cs : List Call) (name holder other : String) (token k : ℕ)
    (now deadline : Time) (ttl : Duration)
    → Distinct t.locks
    → Holds t name holder token
    → All (λ c. ¬ Ends c name holder token) cs
    → other ≢ holder
    → Holds (run u t cs) name holder token
      × ((acquire u now name other deadline ttl (run u t cs)).1 ≢ ok (k, true))
held_until_ended u t cs name holder other token k now deadline ttl d h e ne = (
  run-Holds u t cs name holder token d e h,
  acquire_blocked u _ now name holder other token k deadline ttl
      (run-Holds u t cs name holder token d e h) ne,
)

-- A granted Acquire leaves the name held by the caller under the token that it returns, with the
-- deadline and lifetime that it asked for, and wakes every waiter.
pub acquire_grants :
    (u : Unicode) (t : Table) (now : Time) (name holder : String) (deadline : Time) (ttl : Duration)
    (token : ℕ)
    → (acquire u now name holder deadline ttl t).1 ≡ ok (token, true)
    → let t' = (acquire u now name holder deadline ttl t).0 in
      (rec : LockRecord) × (lookup name t'.locks ≡ some rec)
      × Matches rec holder token
      × (rec.deadline ≡ deadline)
      × (rec.ttl ≡ ttl)
      × (t'.waiting ≡ [])
unfolding set_deadline add_lock
acquire_grants u t now name holder deadline ttl token =
    acquire_cases u name t
      (λ r.
        r.1 ≡ ok (token, true)
        → (rec : LockRecord) × (lookup name r.0.locks ≡ some rec)
          × Matches rec holder token
          × (rec.deadline ≡ deadline)
          × (rec.ttl ≡ ttl)
          × (r.0.waiting ≡ []))
      now holder deadline ttl (λ e _ q. absurd (ground arith)) (λ _ _ q. absurd (ground arith))
      (λ rec v x l b q. (
        record rec { deadline = deadline; ttl = ttl },
        lookup-insert_self name _ t.locks,
        (b, ground arith),
        refl,
        refl,
        refl,
      ))
      (λ rec v x l b q. absurd (ground arith)) (λ v x l b q. absurd (ground arith))
      (λ v x l b q. (
        new_lock now name holder deadline ttl t,
        lookup-insert_self name _ t.locks,
        (refl, ground arith),
        refl,
        refl,
        refl,
      ))
