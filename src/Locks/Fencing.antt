-- ===== src/Locks/Fencing.antt =====
-- The lock table's methods are moves of the abstract machine of Grants, and what follows for the
-- fencing tokens of any history of calls.
use native.Mathlib.Decide.{dec_le}
use clusdr.Prelude.{
  inc_uint64, ℕ, true, false, ◌+◌, ◌<◌, ◌^◌, ◌≤◌, ◌≡◌, refl, ◌≢◌, ◌⊎◌, inl, inr, Option, none, some,
  List, [], ◌∷◌, String, arith, length, lookup,
}
use clusdr.Names.{Unicode}
use clusdr.Fault.{Error, ok}
use clusdr.Clock.{Time, Duration}
use clusdr.Grants.{
  State, Move, same, touch, add, drop, Reach, here, next, Move-last-le, IsFenced, Reach-IsFenced,
  Reach-last, Reach-Had, Had,
}
use clusdr.Locks.Cases.{acquire_cases, release_cases, renew_cases, expire_cases}
use clusdr.Locks.{
  LockRecord, Table, Call, acquires, releases, renews, expires, waits, acquire, release, renew,
  expire, wait, step, run, set_deadline, add_lock, drop_lock,
}

abbrev pub token_of : LockRecord → ℕ
token_of rec = rec.token

-- The table as the abstract machine sees it.
abbrev pub view : Table → State LockRecord
view t = record { grants = t.locks; last = t.next }

abbrev Moves : Table → Table → Type 0
Moves s t = Move token_of (view s) (view t)

acquire-Move :
    (u : Unicode) (t : Table) (now : Time) (name holder : String) (deadline : Time) (ttl : Duration)
    → t.next + 1 < 2 ^ 64
    → Moves t (acquire u now name holder deadline ttl t).0
unfolding set_deadline add_lock
acquire-Move u t now name holder deadline ttl h =
    acquire_cases u name t (λ r. Moves t r.0) now holder deadline ttl (λ e _. same refl refl)
      (λ _ _. same refl refl) (λ rec v n l b. touch name rec _ l refl refl refl)
      (λ rec v n l b. same refl refl) (λ v n l b. same refl refl)
      (λ v n l b. add name _ l (omega arith) refl (omega arith))

release-Move :
    (u : Unicode) (t : Table) (name holder : String) (token : ℕ)
    → Moves t (release u name holder token t).0
unfolding drop_lock
release-Move u t name holder token =
    release_cases u name t (λ r. Moves t r.0) holder token (λ e _. same refl refl)
      (λ _ _. same refl refl) (λ rec v l d. same refl refl) (λ rec v l m. drop name refl refl)

renew-Move :
    (u : Unicode) (t : Table) (name holder : String) (token : ℕ) (deadline : Time) (ttl : Duration)
    → Moves t (renew u name holder token deadline ttl t).0
unfolding set_deadline
renew-Move u t name holder token deadline ttl =
    renew_cases u name t (λ r. Moves t r.0) holder token deadline ttl (λ e _. same refl refl)
      (λ _ _. same refl refl) (λ rec v l d. same refl refl)
      (λ rec v l m. touch name rec _ l refl refl refl)

expire-Move :
    (u : Unicode) (t : Table) (name : String) (token : ℕ) → Moves t (expire u name token t).0
unfolding drop_lock
expire-Move u t name token =
    expire_cases u name t (λ r. Moves t r.0) token (λ e _. same refl refl) (λ _ _. same refl refl)
      (λ rec v l d. same refl refl) (λ rec v l m. drop name refl refl)

-- Refinement: every call is a move of the abstract grant machine, as long as the token counter has
-- not used up its 64 bits.
pub step-Move : (u : Unicode) (t : Table) (c : Call) → t.next + 1 < 2 ^ 64 → Moves t (step u t c)
unfolding step wait
step-Move u t (acquires now name holder deadline ttl) h =
    acquire-Move u t now name holder deadline ttl h
step-Move u t (releases name holder token) h = release-Move u t name holder token
step-Move u t (renews name holder token deadline ttl) h =
    renew-Move u t name holder token deadline ttl
step-Move u t (expires name token) h = expire-Move u t name token
step-Move u t (waits g) h = same refl refl

next-step-le :
    (u : Unicode) (t : Table) (c : Call) → t.next + 1 < 2 ^ 64 → (step u t c).next ≤ t.next + 1
next-step-le u t c h = Move-last-le token_of (step-Move u t c h)

run-Reach :
    (u : Unicode) (s t : Table) (cs : List Call)
    → t.next + length cs < 2 ^ 64
    → Reach token_of (view s) (view t)
    → Reach token_of (view s) (view (run u t cs))
unfolding run
run-Reach u s t [] h r = r
run-Reach u s t (c ∷ cs) h r =
    run-Reach u s (step u t c) cs (omega (arith, next-step-le u t c))
      (next r (step-Move u t c (omega arith)))

run-next-le :
    (u : Unicode) (s : Table) (cs : List Call)
    → s.next + length cs < 2 ^ 64
    → (run u s cs).next ≤ s.next + length cs
unfolding run
run-next-le u s [] h = omega arith
run-next-le u s (c ∷ cs) h = omega (
  arith,
  next-step-le u s c (omega arith),
  run-next-le u (step u s c) cs (omega (arith, next-step-le u s c (omega arith))),
)

pub after_run :
    (u : Unicode) (s : Table) (cs : List Call)
    → s.next + length cs < 2 ^ 64
    → Reach token_of (view s) (view (run u s cs))
after_run u s cs h = run-Reach u s s cs h here

-- From a fenced table (distinct names, every token between 1 and the counter, no token held twice),
-- any calls lead to a fenced table, as long as the counter stays below 2^64.
pub run-IsFenced :
    (u : Unicode) (s : Table) (cs : List Call)
    → s.next + length cs < 2 ^ 64
    → IsFenced token_of (view s)
    → IsFenced token_of (view (run u s cs))
run-IsFenced u s cs h f = Reach-IsFenced token_of (after_run u s cs h) f

-- A token that was given out and that the name no longer holds.
abbrev pub Stale : Table → String → ℕ → Type 0
Stale t name token =
    (token ≤ t.next) × ((rec : LockRecord) → lookup name t.locks ≡ some rec → rec.token ≢ token)

Stale-run :
    (u : Unicode) (s : Table) (cs : List Call) (name : String) (token : ℕ)
    → s.next + length cs < 2 ^ 64
    → IsFenced token_of (view s)
    → Stale s name token
    → (rec : LockRecord) → lookup name (run u s cs).locks ≡ some rec
    → rec.token ≢ token
Stale-run u s cs name token h f st rec l e =
    let (old, was, equal) = Reach-Had token_of name token (after_run u s cs h) f st.0 (rec, l, e) in
    st.1 old was equal

-- Nothing happened: the table is as it was, and the answer is an error.
abbrev pub Refused : Table → Table × Option Error → Type 0
Refused t r = (r.0 ≡ t) × (r.1 ≢ none)

release-Refused :
    (u : Unicode) (t : Table) (name holder : String) (token : ℕ)
    → ((rec : LockRecord) → lookup name t.locks ≡ some rec → rec.token ≢ token)
    → Refused t (release u name holder token t)
release-Refused u t name holder token h =
    release_cases u name t (Refused t) holder token (λ e _. (refl, cc)) (λ _ _. (refl, cc))
      (λ rec v l d. (refl, cc)) (λ rec v l m. absurd (h rec l m.1))

renew-Refused :
    (u : Unicode) (t : Table) (name holder : String) (token : ℕ) (deadline : Time) (ttl : Duration)
    → ((rec : LockRecord) → lookup name t.locks ≡ some rec → rec.token ≢ token)
    → Refused t (renew u name holder token deadline ttl t)
renew-Refused u t name holder token deadline ttl h =
    renew_cases u name t (Refused t) holder token deadline ttl (λ e _. (refl, cc))
      (λ _ _. (refl, cc)) (λ rec v l d. (refl, cc)) (λ rec v l m. absurd (h rec l m.1))

expire_idle :
    (u : Unicode) (t : Table) (name : String) (token : ℕ)
    → ((rec : LockRecord) → lookup name t.locks ≡ some rec → rec.token ≢ token)
    → expire u name token t ≡ (t, [], false)
expire_idle u t name token h =
    expire_cases u name t (λ r. r ≡ (t, [], false)) token (λ e _. refl) (λ _ _. refl)
      (λ rec v l d. refl) (λ rec v l m. absurd (h rec l m))

-- Fencing: once a token that was given out is no longer the token of a name, no later history of calls
-- makes it valid again. Release and Renew with it are refused and Expire with it does nothing, and all
-- three leave the table as it is, whoever calls.
pub old_token_fails :
    (u : Unicode) (s : Table) (cs : List Call) (name holder : String) (token : ℕ) (deadline : Time)
    (ttl : Duration)
    → s.next + length cs < 2 ^ 64
    → IsFenced token_of (view s)
    → Stale s name token
    → Refused (run u s cs) (release u name holder token (run u s cs))
      × Refused (run u s cs) (renew u name holder token deadline ttl (run u s cs))
      × (expire u name token (run u s cs) ≡ (run u s cs, [], false))
old_token_fails u s cs name holder token deadline ttl h f st = (
  release-Refused u _ name holder token gone,
  renew-Refused u _ name holder token deadline ttl gone,
  expire_idle u _ name token gone,
)
  where
    gone : (rec : LockRecord) → lookup name (run u s cs).locks ≡ some rec → rec.token ≢ token
    gone = Stale-run u s cs name token h f st

-- A grant of a lock that was not granted under that token before gets a token above every token that
-- was given out before: the tokens of successive grants of a name grow.
pub acquire_token_grows :
    (u : Unicode) (s : Table) (cs : List Call) (now : Time) (name holder : String) (deadline : Time)
    (ttl : Duration) (token : ℕ)
    → s.next + length cs + 1 < 2 ^ 64
    → IsFenced token_of (view s)
    → (acquire u now name holder deadline ttl (run u s cs)).1 ≡ ok (token, true)
    → (s.next < token) ⊎ Had token_of (view s) name token
acquire_token_grows u s cs now name holder deadline ttl token h f =
    acquire_cases u name (run u s cs) (λ r. r.1 ≡ ok (token, true) → Grown) now holder deadline ttl
      (λ e _ q. cc) (λ _ _ q. cc) (λ rec v n l b q. held (rec, l, ground arith))
      (λ rec v n l b q. cc) (λ v n l b q. cc) (λ v n l b q. inl (fresh (ground arith)))
  where
    Grown : Type 0
    Grown = (s.next < token) ⊎ Had token_of (view s) name token

    held : Had token_of (view (run u s cs)) name token → Grown
    held had = elim (dec_le token s.next) [
      | yes le ↦ inr (Reach-Had token_of name token (after_run u s cs (omega arith)) f le had)
      | no gt ↦ inl (omega arith)
    ]

    fresh : inc_uint64 (run u s cs).next ≡ token → s.next < token
    fresh e = omega (
      arith,
      Reach-last token_of (after_run u s cs (omega arith)),
      run-next-le u s cs (omega arith),
    )
