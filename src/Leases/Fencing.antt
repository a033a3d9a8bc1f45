-- ===== src/Leases/Fencing.antt =====
-- The lease table's methods are moves of the abstract machine of Grants, and what follows for the
-- fencing tokens of any history of calls.
use clusdr.Prelude.{
  ℕ, false, ◌+◌, ◌<◌, ◌^◌, ◌≤◌, ◌≡◌, refl, ◌≢◌, Option, none, some, List, [], ◌∷◌, String, arith,
  length, lookup,
}
use clusdr.Names.{Unicode}
use clusdr.Events.{Event}
use clusdr.Fault.{Error}
use clusdr.Clock.{Time, Duration}
use clusdr.Grants.{
  State, Move, same, touch, add, drop, Reach, here, next, Move-last-le, IsFenced, Reach-IsFenced,
  Reach-Had,
}
use clusdr.Leases.Cases.{grant_cases, revoke_cases, renew_cases, expire_cases}
use clusdr.Leases.{
  LeaseRecord, Table, Call, grants, revokes, renews, expires, grant, revoke, renew, expire, step,
  run, set_deadline, add_lease, drop_lease,
}

abbrev pub token_of : LeaseRecord → ℕ
token_of rec = rec.token

-- The table as the abstract machine sees it.
abbrev pub view : Table → State LeaseRecord
view t = record { grants = t.leases; last = t.next }

abbrev Moves : Table → Table → Type 0
Moves s t = Move token_of (view s) (view t)

grant-Move :
    (u : Unicode) (t : Table) (now : Time) (name owner : String) (deadline : Time) (ttl : Duration)
    → t.next + 1 < 2 ^ 64
    → Moves t (grant u now name owner deadline ttl t).0
unfolding set_deadline add_lease
grant-Move u t now name owner deadline ttl h =
    grant_cases u name t (λ r. Moves t r.0) now owner deadline ttl (λ e _. same refl refl)
      (λ _ _. same refl refl) (λ rec v n l b. touch name rec _ l refl refl refl)
      (λ rec v n l b. same refl refl) (λ v n l b. same refl refl)
      (λ v n l b. add name _ l (omega arith) refl (omega arith))

revoke-Move :
    (u : Unicode) (t : Table) (name owner : String) (token : ℕ)
    → Moves t (revoke u name owner token t).0
unfolding drop_lease
revoke-Move u t name owner token =
    revoke_cases u name t (λ r. Moves t r.0) owner token (λ e _. same refl refl)
      (λ _ _. same refl refl) (λ rec v l d. same refl refl) (λ rec v l m. drop name refl refl)

renew-Move :
    (u : Unicode) (t : Table) (name owner : String) (token : ℕ) (deadline : Time) (ttl : Duration)
    → Moves t (renew u name owner token deadline ttl t).0
unfolding set_deadline
renew-Move u t name owner token deadline ttl =
    renew_cases u name t (λ r. Moves t r.0) owner token deadline ttl (λ e _. same refl refl)
      (λ _ _. same refl refl) (λ rec v l d. same refl refl)
      (λ rec v l m. touch name rec _ l refl refl refl)

expire-Move :
    (u : Unicode) (t : Table) (name : String) (token : ℕ) → Moves t (expire u name token t).0
unfolding drop_lease
expire-Move u t name token =
    expire_cases u name t (λ r. Moves t r.0) token (λ e _. same refl refl) (λ _ _. same refl refl)
      (λ rec v l d. same refl refl) (λ rec v l m. drop name refl refl)

-- Refinement: every call is a move of the abstract grant machine, as long as the token counter has
-- not used up its 64 bits.
pub call-Move : (u : Unicode) (t : Table) (c : Call) → t.next + 1 < 2 ^ 64 → Moves t (step u t c).0
unfolding step
call-Move u t (grants now name owner deadline ttl) h = grant-Move u t now name owner deadline ttl h
call-Move u t (revokes name owner token) h = revoke-Move u t name owner token
call-Move u t (renews name owner token deadline ttl) h =
    renew-Move u t name owner token deadline ttl
call-Move u t (expires name token) h = expire-Move u t name token

next-step-le :
    (u : Unicode) (t : Table) (c : Call) → t.next + 1 < 2 ^ 64 → (step u t c).0.next ≤ t.next + 1
next-step-le u t c h = Move-last-le token_of (call-Move u t c h)

run-Reach :
    (u : Unicode) (s t : Table) (cs : List Call)
    → t.next + length cs < 2 ^ 64
    → Reach token_of (view s) (view t)
    → Reach token_of (view s) (view (run u t cs))
unfolding run
run-Reach u s t [] h r = r
run-Reach u s t (c ∷ cs) h r =
    run-Reach u s (step u t c).0 cs (omega (arith, next-step-le u t c))
      (next r (call-Move u t c (omega arith)))

run-next-le :
    (u : Unicode) (s : Table) (cs : List Call)
    → s.next + length cs < 2 ^ 64
    → (run u s cs).next ≤ s.next + length cs
unfolding run
run-next-le u s [] h = omega arith
run-next-le u s (c ∷ cs) h = omega (
  arith,
  next-step-le u s c (omega arith),
  run-next-le u (step u s c).0 cs (omega (arith, next-step-le u s c (omega arith))),
)

pub after_run :
    (u : Unicode) (s : Table) (cs : List Call)
    → s.next + length cs < 2 ^ 64
    → Reach token_of (view s) (view (run u s cs))
after_run u s cs h = run-Reach u s s cs h here

-- From a fenced table (distinct names, every token between 1 and the counter, no token held twice),
-- any calls lead to a fenced table, as long as the counter stays below 2^64.
pub calls-IsFenced :
    (u : Unicode) (s : Table) (cs : List Call)
    → s.next + length cs < 2 ^ 64
    → IsFenced token_of (view s)
    → IsFenced token_of (view (run u s cs))
calls-IsFenced u s cs h f = Reach-IsFenced token_of (after_run u s cs h) f

-- A token that was given out and that the name no longer holds.
abbrev pub Stale : Table → String → ℕ → Type 0
Stale t name token =
    (token ≤ t.next) × ((rec : LeaseRecord) → lookup name t.leases ≡ some rec → rec.token ≢ token)

Stale-run :
    (u : Unicode) (s : Table) (cs : List Call) (name : String) (token : ℕ)
    → s.next + length cs < 2 ^ 64
    → IsFenced token_of (view s)
    → Stale s name token
    → (rec : LeaseRecord) → lookup name (run u s cs).leases ≡ some rec
    → rec.token ≢ token
Stale-run u s cs name token h f st rec l e =
    let (old, was, equal) = Reach-Had token_of name token (after_run u s cs h) f st.0 (rec, l, e) in
    st.1 old was equal

-- Nothing happened: the table is as it was, and the answer is an error.
abbrev pub Refused : Table → Table × Option Error → Type 0
Refused t r = (r.0 ≡ t) × (r.1 ≢ none)

abbrev pub RefusedRevoke : Table → Table × List Event × Option Error → Type 0
RefusedRevoke t r = (r.0 ≡ t) × (r.1 ≡ []) × (r.2 ≢ none)

revoke-Refused :
    (u : Unicode) (t : Table) (name owner : String) (token : ℕ)
    → ((rec : LeaseRecord) → lookup name t.leases ≡ some rec → rec.token ≢ token)
    → RefusedRevoke t (revoke u name owner token t)
revoke-Refused u t name owner token h =
    revoke_cases u name t (RefusedRevoke t) owner token (λ e _. (refl, refl, cc))
      (λ _ _. (refl, refl, cc)) (λ rec v l d. (refl, refl, cc)) (λ rec v l m. absurd (h rec l m.1))

renew-Refused :
    (u : Unicode) (t : Table) (name owner : String) (token : ℕ) (deadline : Time) (ttl : Duration)
    → ((rec : LeaseRecord) → lookup name t.leases ≡ some rec → rec.token ≢ token)
    → Refused t (renew u name owner token deadline ttl t)
renew-Refused u t name owner token deadline ttl h =
    renew_cases u name t (Refused t) owner token deadline ttl (λ e _. (refl, cc))
      (λ _ _. (refl, cc)) (λ rec v l d. (refl, cc)) (λ rec v l m. absurd (h rec l m.1))

expire_idle :
    (u : Unicode) (t : Table) (name : String) (token : ℕ)
    → ((rec : LeaseRecord) → lookup name t.leases ≡ some rec → rec.token ≢ token)
    → expire u name token t ≡ (t, [], false)
expire_idle u t name token h =
    expire_cases u name t (λ r. r ≡ (t, [], false)) token (λ e _. refl) (λ _ _. refl)
      (λ rec v l d. refl) (λ rec v l m. absurd (h rec l m))

-- Fencing: once a token that was given out is no longer the token of a name, no later history of calls
-- makes it valid again. Revoke and Renew with it are refused and Expire with it does nothing; all three
-- leave the table as it is and emit nothing, whoever calls.
pub old_lease_token_fails :
    (u : Unicode) (s : Table) (cs : List Call) (name owner : String) (token : ℕ) (deadline : Time)
    (ttl : Duration)
    → s.next + length cs < 2 ^ 64
    → IsFenced token_of (view s)
    → Stale s name token
    → RefusedRevoke (run u s cs) (revoke u name owner token (run u s cs))
      × Refused (run u s cs) (renew u name owner token deadline ttl (run u s cs))
      × (expire u name token (run u s cs) ≡ (run u s cs, [], false))
old_lease_token_fails u s cs name owner token deadline ttl h f st = (
  revoke-Refused u _ name owner token gone,
  renew-Refused u _ name owner token deadline ttl gone,
  expire_idle u _ name token gone,
)
  where
    gone : (rec : LeaseRecord) → lookup name (run u s cs).leases ≡ some rec → rec.token ≢ token
    gone = Stale-run u s cs name token h f st
