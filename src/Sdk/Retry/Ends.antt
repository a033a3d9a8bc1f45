-- ===== src/Sdk/Retry/Ends.antt =====
-- retry of sdk/retry.go ends.
use clusdr.Prelude.{
  ℕ, zero, suc, ◌+◌, ◌*◌, ◌-◌, ◌/◌, ◌≤◌, true, false, ◌≡◌, ◌⊎◌, refl, ◌∙◌, inl, inr, some, arith,
  Bool-cases, leb,
}
use clusdr.Clock.{Time}
use clusdr.Fault.{context_done}
use clusdr.Grpc.{Reply, refused, unknown}
use clusdr.Sdk.Retry.{Call, transient, min_backoff, next_backoff, later, retry_loop, retry, enough}

next_backoff_least : (b : ℕ) → min_backoff ≤ b → min_backoff ≤ next_backoff b
unfolding next_backoff
next_backoff_least b h = ground arith

later_least : (t u : Time) → (t ≤ later t u) × (u ≤ later t u)
later_least t u = (ground arith, ground arith)

-- How the loop ends, from `now` on: with a reply that is no temporary failure, or after the context ended.
abbrev Ended : {W A : Type 0} → Time → Time → Time × W × Reply A → Type 0
Ended until now r = (now ≤ r.0) × ((transient r.2 ≡ false) ⊎ (until ≤ r.0))

-- One turn of the loop: the context has ended, the reply stands, the context ends in the wait, or the loop goes on.
module _ {W A : Type 0} (call : Call W A) (until : Time) (fuel backoff : ℕ) (last : Reply A)
    (now : Time) (w : W) where
  pub turn_over :
      leb until now ≡ true
      → retry_loop call until (suc fuel) backoff last now w ≡ some (now, w, last)
  unfolding retry_loop
  turn_over d = rw d refl

  pub turn_stands :
      leb until now ≡ false
      → transient (call now w).2 ≡ false
      → retry_loop call until (suc fuel) backoff last now w ≡ some (call now w)
  unfolding retry_loop
  turn_stands d p = rw (d, p) refl

  pub turn_cut :
      leb until now ≡ false
      → transient (call now w).2 ≡ true
      → leb until ((call now w).0 + backoff) ≡ true
      → let r = call now w in
        retry_loop call until (suc fuel) backoff last now w ≡ some (later r.0 until, r.1, r.2)
  unfolding retry_loop
  turn_cut d p q = rw (d, p, q) refl

  pub turn_again :
      leb until now ≡ false
      → transient (call now w).2 ≡ true
      → leb until ((call now w).0 + backoff) ≡ false
      → let r = call now w in
        retry_loop call until (suc fuel) backoff last now w
        ≡ retry_loop call until fuel (next_backoff backoff) r.2 (r.0 + backoff) r.1
  unfolding retry_loop
  turn_again d p q = rw (d, p, q) refl

loop-Ended :
    {W A : Type 0} (call : Call W A) (until : Time)
    → ((t : Time) (w : W) → t ≤ (call t w).0)
    → (fuel backoff : ℕ) (last : Reply A) (now : Time) (w : W) → min_backoff ≤ backoff
    → until ≤ now + fuel * min_backoff
    → (r : Time × W × Reply A) × (retry_loop call until (suc fuel) backoff last now w ≡ some r)
      × Ended until now r
loop-Ended call until on zero backoff last now w b e = (
  (now, w, last),
  turn_over call until zero backoff last now w (ground arith),
  (omega arith, inr (omega (arith, e))),
)
loop-Ended call until on (suc n) backoff last now w b e =
    let r = call now w in
    let o = on now w in
    elim (Bool-cases (leb until now)) [
      | inl d ↦ (
        (now, w, last),
        turn_over call until (suc n) backoff last now w d,
        (omega arith, inr (ground arith)),
      )
      | inr d ↦ elim (Bool-cases (transient r.2)) [
        | inr p ↦ (r, turn_stands call until (suc n) backoff last now w d p, (o, inl p))
        | inl p ↦ elim (Bool-cases (leb until (r.0 + backoff))) [
          | inl q ↦ (
            (later r.0 until, r.1, r.2),
            turn_cut call until (suc n) backoff last now w d p q,
            (omega (arith, o, (later_least r.0 until).0), inr (later_least r.0 until).1),
          )
          | inr q ↦
              let (x, y, (f, g)) =
                loop-Ended call until on n (next_backoff backoff) r.2 (r.0 + backoff) r.1
                  (next_backoff_least backoff b) (omega (arith, o, b, e)) in
              (
                x,
                turn_again call until (suc n) backoff last now w d p q ∙ y,
                (omega (arith, o, f), g),
              )
        ]
      ]
    ]

enough_lem : (until now : Time) → until ≤ now + suc ((until - now) / min_backoff) * min_backoff
enough_lem until now = omega arith

-- Over calls that do not go back in time, retry ends, with the fuel that it is given: with a reply that is no
-- temporary failure, or not before its context ended.
pub retry-Ended :
    {W A : Type 0} (call : Call W A) (until now : Time) (w : W)
    → ((t : Time) (w : W) → t ≤ (call t w).0)
    → (r : Time × W × Reply A) × (retry call until (enough until now) now w ≡ some r)
      × (now ≤ r.0)
      × ((transient r.2 ≡ false) ⊎ (until ≤ r.0))
unfolding retry
retry-Ended call until now w on =
    let (r, e, (f, g)) =
      loop-Ended call until on (suc ((until - now) / min_backoff)) min_backoff
        (refused unknown context_done) now w (omega arith) (enough_lem until now) in
    (r, e, f, g)
