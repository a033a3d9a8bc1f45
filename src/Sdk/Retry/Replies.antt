-- ===== src/Sdk/Retry/Replies.antt =====
-- A success of retry of sdk/retry.go is the reply of one of its calls.
use clusdr.Prelude.{
  ℕ, zero, suc, ◌+◌, ◌≤◌, true, false, ◌≡◌, sym, ap, ◌∙◌, inl, inr, some, none, arith, Bool-cases,
  leb,
}
use clusdr.Fault.{context_done}
use clusdr.Clock.{Time}
use clusdr.Grpc.{Reply, replied, refused, unknown}
use clusdr.Sdk.Retry.Ends.{turn_over, turn_stands, turn_cut, turn_again}
use clusdr.Sdk.Retry.{Call, transient, min_backoff, next_backoff, later, retry_loop, retry}

-- A call, not before `now`, that came to this.
abbrev pub Called : {W A : Type 0} → Call W A → Time → Time × W × Reply A → Type 0
Called {W} call now r = (t : Time) × (w : W) × (now ≤ t) × (call t w ≡ r)

abbrev IsReplied : {A : Type 0} → Reply A → Type 0
IsReplied {A} r = (a : A) × (r ≡ replied a)

some_inv : {A : Type 0} (x y : A) → some x ≡ some y → x ≡ y
some_inv x y h = ap (λ o. elim o [ some z ↦ z | none ↦ x ]) h

transient-IsReplied : {A : Type 0} (r : Reply A) → transient r ≡ true → ¬ IsReplied r
unfolding transient
transient-IsReplied r p (a, e) = absurd (let q : false ≡ true = rw e at p in ground arith)

loop-Called :
    {W A : Type 0} (call : Call W A) (until : Time)
    → ((t : Time) (w : W) → t ≤ (call t w).0)
    → (fuel backoff : ℕ) (last : Reply A) (now : Time) (w : W) (r : Time × W × Reply A)
    → ¬ IsReplied last
    → retry_loop call until fuel backoff last now w ≡ some r
    → IsReplied r.2
    → Called call now r
unfolding retry_loop
loop-Called call until on zero backoff last now w r l e i = absurd (ground arith)
loop-Called call until on (suc n) backoff last now w r l e (a, i) =
    let c = call now w in
    let o = on now w in
    elim (Bool-cases (leb until now)) [
      | inl d ↦
          let k =
            some_inv (now, w, last) r (sym (turn_over call until n backoff last now w d) ∙ e) in
          absurd (l (a, ap (λ z. z.2) k ∙ i))
      | inr d ↦ elim (Bool-cases (transient c.2)) [
        | inr p ↦ (
          now,
          w,
          omega arith,
          some_inv c r (sym (turn_stands call until n backoff last now w d p) ∙ e),
        )
        | inl p ↦ elim (Bool-cases (leb until (c.0 + backoff))) [
          | inl q ↦
              let k =
                some_inv (later c.0 until, c.1, c.2) r
                  (sym (turn_cut call until n backoff last now w d p q) ∙ e) in
              absurd (transient-IsReplied c.2 p (a, ap (λ z. z.2) k ∙ i))
          | inr q ↦
              let (t, v, f, g) =
                loop-Called call until on n (next_backoff backoff) c.2 (c.0 + backoff) c.1 r
                  (transient-IsReplied c.2 p)
                  (sym (turn_again call until n backoff last now w d p q) ∙ e) (a, i) in
              (t, v, omega (arith, o, f), g)
        ]
      ]
    ]

pub retry-Called :
    {W A : Type 0} (call : Call W A) (until : Time)
    → ((t : Time) (w : W) → t ≤ (call t w).0)
    → (fuel : ℕ) (now : Time) (w : W) (r : Time × W × Reply A) (a : A)
    → retry call until fuel now w ≡ some r
    → r.2 ≡ replied a
    → Called call now r
unfolding retry
retry-Called call until on fuel now w r a e i =
    loop-Called call until on fuel min_backoff (refused unknown context_done) now w r
      (λ x. absurd (let q = x.1 in ground arith)) e (a, i)
