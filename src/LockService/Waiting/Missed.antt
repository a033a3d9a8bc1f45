-- ===== src/LockService/Waiting/Missed.antt =====
-- The loop of Lock among the other calls of the table, and a release that it misses.
use clusdr.Prelude.{
  ℕ, true, false, ◌≡◌, refl, sym, ap, ◌∙◌, none, some, String, arith, lookup, ==_iff, Distinct,
  lookup-delete, str_eq_refl,
}
use clusdr.Names.{Unicode}
use clusdr.Clock.{Time}
use clusdr.Fault.{context_done}
use clusdr.Grpc.{Code, refused}
use clusdr.Locks
use clusdr.Locks.{
  LockRecord, Table, Call, acquires, releases, renews, expires, waits, step, run, wait, broadcast,
  set_deadline, add_lock, drop_lock,
}
use clusdr.Locks.Cases.{release_cases}
use clusdr.Consensus.Fsm.{Fsm}
use clusdr.LockService.{LockService, LockRequest}
use clusdr.LockService.Calls.{asking, declined, waiting, returned, Phase, ask}
use clusdr.LockService.Waiting.{is_waiting, IsOther}

abbrev pub World : Type 0
World = Phase × Fsm

-- A turn of the goroutine `g` that runs Lock. Wait gives up its place with the lock of the table, so between
-- two turns the others call; a context that is done wakes everybody.
pub data Own (s : LockService) (q : LockRequest) (holder : String) (g : ℕ) (w w' : World)
    : Type 0 where
  asks :
      (now : Time)
      → w.0 ≡ asking
      → w' ≡ ((ask s now q holder w.1).2, (ask s now q holder w.1).0)
      → Own s q holder g w w'
  sleeps :
      (t : Table)
      → w.0 ≡ declined
      → w.1.locks ≡ some t
      → w' ≡ (waiting, record w.1 { locks = some (wait g t) })
      → Own s q holder g w w'
  wakes :
      (t : Table)
      → w.0 ≡ waiting
      → w.1.locks ≡ some t
      → is_waiting g t.waiting ≡ false
      → w' ≡ (asking, w.1)
      → Own s q holder g w w'
  stops :
      (code : Code)
      → w.0 ≡ asking
      → w' ≡ (returned (refused code context_done), w.1)
      → Own s q holder g w w'
  gives_up :
      (code : Code) (t : Table)
      → w.0 ≡ waiting
      → w.1.locks ≡ some t
      → w' ≡ (returned (refused code context_done), record w.1 { locks = some (broadcast t) })
      → Own s q holder g w w'

-- A call of the table by another goroutine, through the FSM.
pub data Other (u : Unicode) (g : ℕ) (w w' : World) : Type 0 where
  calls :
      (t : Table) (c : Call)
      → IsOther g c
      → w.1.locks ≡ some t
      → w' ≡ (w.0, record w.1 { locks = some (step u t c) })
      → Other u g w w'

-- Turns of both, in any order.
pub data Turns (s : LockService) (q : LockRequest) (holder : String) (g : ℕ) (end : World)
    : World → Type 0 where
  stop : Turns s q holder g end end
  own : (w v : World) → Own s q holder g w v → Turns s q holder g end v → Turns s q holder g end w
  other :
      (w v : World) → Other s.unicode g w v → Turns s q holder g end v → Turns s q holder g end w

-- The lock is free, and yet `g` waits for it, with no turn of its own left but to give up.
abbrev pub IsStuck : LockService → LockRequest → String → ℕ → World → Type 0
IsStuck s q holder g w =
    (w.0 ≡ waiting)
    × ((t : Table) × (w.1.locks ≡ some t) × (lookup q.name t.locks ≡ none))
    × ((w' : World)
        → Own s q holder g w w'
        → (code : Code) × (w'.0 ≡ returned (refused code context_done)))

freed :
    (u : Unicode) (g : ℕ) (name : String) (t : Table) (rec : LockRecord)
    → Locks.valid_name u name ≡ none
    → lookup name t.locks ≡ some rec
    → Distinct t.locks
    → lookup name (wait g (step u t (releases name rec.holder rec.token))).locks ≡ none
unfolding step wait drop_lock
freed u g name t rec v k d =
    release_cases u name t (λ r. lookup name r.0.locks ≡ none) rec.holder rec.token
      (λ e x. absurd (ground arith)) (λ _ l. l) (λ r _ l m. absurd (m (ground arith, ground arith)))
      (λ r _ l m. lookup-delete name name t.locks d ∙ rw (str_eq_refl name) refl)

asleep : (g : ℕ) (t : Table) → is_waiting g (wait g t).waiting ≡ true
unfolding is_waiting wait
asleep g t = ground (arith, ==_iff g g)

only_gives_up :
    (s : LockService) (q : LockRequest) (holder : String) (g : ℕ) (w w' : World) (t : Table)
    → w.0 ≡ waiting
    → w.1.locks ≡ some t
    → is_waiting g t.waiting ≡ true
    → Own s q holder g w w'
    → (code : Code) × (w'.0 ≡ returned (refused code context_done))
only_gives_up s q holder g w w' t p l a (asks now e n) = absurd (let c = sym p ∙ e in ground arith)
only_gives_up s q holder g w w' t p l a (sleeps t' e m n) =
    absurd (let c = sym p ∙ e in ground arith)
only_gives_up s q holder g w w' t p l a (wakes t' e m b n) = absurd (
    let c : t' ≡ t = ground arith in
    let b' : is_waiting g t.waiting ≡ false = ap (λ r. is_waiting g r.waiting) (sym c) ∙ b in
    ground arith)
only_gives_up s q holder g w w' t p l a (stops code e n) =
    absurd (let c = sym p ∙ e in ground arith)
only_gives_up s q holder g w w' t p l a (gives_up code t' e m n) = (code, ap (λ x. x.0) n)

-- A call that the table declines can miss the release: whenever Lock is declined while somebody holds the
-- lock under a legal name, the holder can release it before Lock has begun to wait; then the lock is
-- free and Lock waits for it, and can only give up when its context is done, unless somebody else calls.
pub release_can_be_missed :
    (s : LockService) (q : LockRequest) (holder : String) (g : ℕ) (now : Time) (f : Fsm) (t : Table)
    (rec : LockRecord)
    → (ask s now q holder f).2 ≡ declined
    → (ask s now q holder f).0.locks ≡ some t
    → Distinct t.locks
    → Locks.valid_name s.unicode q.name ≡ none
    → lookup q.name t.locks ≡ some rec
    → (w : World) × Turns s q holder g w (asking, f) × IsStuck s q holder g w
release_can_be_missed s q holder g now f t rec d l x v k =
    let f₁ = (ask s now q holder f).0 in
    let t₂ = step s.unicode t (releases q.name rec.holder rec.token) in
    let f₂ : Fsm = record f₁ { locks = some t₂ } in
    let f₃ : Fsm = record f₁ { locks = some (wait g t₂) } in
    (
      (waiting, f₃),
      own (asking, f) (declined, f₁) (asks now refl (λ i. (sym d i, f₁)))
          (other (declined, f₁) (declined, f₂)
            (calls t (releases q.name rec.holder rec.token) tt l refl)
            (own (declined, f₂) (waiting, f₃) (sleeps t₂ refl refl refl) stop)),
      (
        refl,
        (wait g t₂, refl, freed s.unicode g q.name t rec v k x),
        λ w' o. only_gives_up s q holder g (waiting, f₃) w' (wait g t₂) refl refl (asleep g t₂) o,
      ),
    )
