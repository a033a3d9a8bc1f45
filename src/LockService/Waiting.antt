-- ===== src/LockService/Waiting.antt =====
-- Lock among the other calls of the table: the loop of grpcserver/locks.go over Wait of locks/table.go.
pub mod Missed
use clusdr.Prelude.{
  ℕ, Bool, true, false, ◌≡◌, ◌≢◌, ◌⊎◌, refl, sym, ap, ◌∙◌, inl, inr, none, some, Option, List, [],
  ◌∷◌, String, arith, lookup, str_eq, str_eq_iff, ◌==◌, ==_iff, ◌||◌, Bool-cases, All, Distinct,
  lookup-delete, str_eq_refl, pos, lookup-insert, if◌then◌else◌,
}
use mathlib.Core.Option
use clusdr.Names.{Unicode}
use clusdr.Clock.{Time, Duration}
use clusdr.Fault.{Error, context_done}
use clusdr.Grpc.{Code, Reply, refused}
use clusdr.Locks
use clusdr.Locks.{
  LockRecord, Table, Call, acquires, releases, renews, expires, waits, step, run, wait, broadcast,
  set_deadline, add_lock, drop_lock,
}
use clusdr.Locks.Cases.{acquire_cases, release_cases, renew_cases, expire_cases}
use clusdr.Consensus.Fsm.{Fsm}
use clusdr.LockService.{LockService, LockRequest}
use clusdr.LockService.Calls.{asking, declined, waiting, returned, Phase, ask}

-- Whether a goroutine is among the ones that wait.
unfoldable pub is_waiting : ℕ → List ℕ → Bool
is_waiting g [] = false
is_waiting g (x ∷ xs) = (x == g) || is_waiting g xs

-- Who holds a lock, and under which token.
abbrev pub owner : String → Table → Option (String × ℕ)
owner name t = Option.map (λ rec. (rec.holder, rec.token)) (lookup name t.locks)

-- A call of another goroutine than `g`.
abbrev pub IsOther : ℕ → Call → Type 0
IsOther g (waits h) = h ≢ g
IsOther g _ = Unit

-- Everybody was woken, or the lock is as it was and `g` waits if it did.
abbrev Woken : ℕ → String → Table → Table → Type 0
Woken g name t t' =
    (t'.waiting ≡ [])
    ⊎ ((owner name t' ≡ owner name t) × (is_waiting g t'.waiting ≡ is_waiting g t.waiting))

owner-set_deadline :
    (t : Table) (name other : String) (rec : LockRecord) (deadline : Time) (ttl : Duration)
    → lookup other t.locks ≡ some rec
    → owner name (set_deadline other rec deadline ttl t) ≡ owner name t
unfolding set_deadline
owner-set_deadline t name other rec deadline ttl l = elim (Bool-cases (str_eq other name)) [
  | inl b ↦
      let p : other ≡ name = (str_eq_iff other name).0 b in
      rw
        (
          lookup-insert other name (record rec { deadline = deadline; ttl = ttl }) t.locks,
          b,
          ← p,
          l,
        )
        refl
  | inr b ↦
      rw (lookup-insert other name (record rec { deadline = deadline; ttl = ttl }) t.locks, b) refl
]

waiting-set_deadline :
    (t : Table) (name : String) (rec : LockRecord) (deadline : Time) (ttl : Duration)
    → (set_deadline name rec deadline ttl t).waiting ≡ t.waiting
unfolding set_deadline
waiting-set_deadline t name rec deadline ttl = refl

-- What a call of another goroutine means to one that waits for a lock.
step-Woken :
    (u : Unicode) (g : ℕ) (name : String) (t : Table) (c : Call)
    → IsOther g c
    → Woken g name t (step u t c)
unfolding step add_lock drop_lock wait is_waiting
step-Woken u g name t (acquires now other holder deadline ttl) o =
    acquire_cases u other t (λ r. Woken g name t r.0) now holder deadline ttl
      (λ e v. inr (refl, refl)) (λ v h. inr (refl, refl)) (λ rec v h l e. inl refl)
      (λ rec v h l e. inr (refl, refl)) (λ v h l m. inr (refl, refl)) (λ v h l m. inl refl)
step-Woken u g name t (releases other holder token) o =
    release_cases u other t (λ r. Woken g name t r.0) holder token (λ e v. inr (refl, refl))
      (λ v l. inr (refl, refl)) (λ rec v l m. inr (refl, refl)) (λ rec v l m. inl refl)
step-Woken u g name t (renews other holder token deadline ttl) o =
    renew_cases u other t (λ r. Woken g name t r.0) holder token deadline ttl
      (λ e v. inr (refl, refl)) (λ v l. inr (refl, refl)) (λ rec v l m. inr (refl, refl))
      (λ rec v l m. inr (
        owner-set_deadline t name other rec deadline ttl l,
        ap (is_waiting g) (waiting-set_deadline t other rec deadline ttl),
      ))
step-Woken u g name t (expires other token) o =
    expire_cases u other t (λ r. Woken g name t r.0) token (λ e v. inr (refl, refl))
      (λ v l. inr (refl, refl)) (λ rec v l m. inr (refl, refl)) (λ rec v l m. inl refl)
step-Woken u g name t (waits h) o = inr (refl, ground (arith, ==_iff h g))

-- Nobody but `g` puts `g` to sleep.
stays_awake :
    (u : Unicode) (g : ℕ) (t : Table) (calls : List Call)
    → All (IsOther g) calls
    → is_waiting g t.waiting ≡ false
    → is_waiting g (run u t calls).waiting ≡ false
unfolding run is_waiting
stays_awake u g t [] a w = w
stays_awake u g t (c ∷ cs) a w = elim (step-Woken u g "" t c a.0) [
  | inl n ↦ stays_awake u g (step u t c) cs a.1 (ap (is_waiting g) n)
  | inr (e, n) ↦ stays_awake u g (step u t c) cs a.1 (n ∙ w)
]

unchanged :
    (u : Unicode) (g : ℕ) (name : String) (t : Table) (calls : List Call)
    → All (IsOther g) calls
    → is_waiting g (run u t calls).waiting ≡ true
    → owner name (run u t calls) ≡ owner name t
unfolding run is_waiting
unchanged u g name t [] a w = refl
unchanged u g name t (c ∷ cs) a w = elim (step-Woken u g name t c a.0) [
  | inl n ↦
      let q : is_waiting g (run u (step u t c) cs).waiting ≡ false =
        stays_awake u g (step u t c) cs a.1 (ap (is_waiting g) n) in
      absurd (ground arith)
  | inr (e, n) ↦ unchanged u g name (step u t c) cs a.1 w ∙ e
]

-- While a goroutine waits in the table and only others call it, the lock that it waits for keeps its
-- holder and its token: a release, an expiry or a new grant of any lock wakes it.
pub wait_misses_nothing :
    (u : Unicode) (g : ℕ) (name : String) (t : Table) (calls : List Call)
    → All (IsOther g) calls
    → is_waiting g (run u (wait g t) calls).waiting ≡ true
    → owner name (run u (wait g t) calls) ≡ owner name t
unfolding wait
wait_misses_nothing u g name t calls a w = unchanged u g name (wait g t) calls a w
