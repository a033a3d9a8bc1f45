-- ===== src/LockService/Handlers.antt =====
-- What the handlers of LockService do to the node and tell the client.
pub mod Told
use clusdr.Prelude.{
  ◌≢◌, Option, ℕ, Bool, true, false, ◌≡◌, ◌⊎◌, refl, sym, ap, subst, ◌∙◌, inl, inr, none, some,
  List, [], String, arith, lookup, lookup-insert_self, Bool-cases, Option-cases, pos, ◌*◌, ◌+◌, ◌≤◌,
}
use clusdr.Names.{Unicode}
use clusdr.Fault.{Error, Result, ok, err}
use clusdr.Clock.{Time, Duration, epoch_ms, nanos_per_ms}
use clusdr.Events.{Event}
use clusdr.Locks
use clusdr.Locks.{LockRecord, Table, set_deadline, add_lock}
use clusdr.Locks.Cases.{acquire_cases}
use clusdr.Consensus.Fsm.{Fsm}
use clusdr.Consensus.Node.{apply_lock_acquire}
use clusdr.Consensus.Node.Submission.{AppliesHere, RoundTrips, acquire_submitted}
use clusdr.Consensus.Node.Locking.{acquire_had_table}
use clusdr.Grpc.{
  Code, Reply, replied, refused, internal, Remote, Leading, must_forward, reject_if_observer,
  unix_ms, reply_by,
}
use clusdr.LockService.{
  LockService, LockRequest, LockResponse, UnlockRequest, RenewRequest, RenewResponse, apply_acquire,
  holder_of, get_in, grant_response, held_response, deadline_ms, ttl_from_ms,
}
use clusdr.LockService.Calls.{
  guarded, try_lock, try_lock_here, unlock, unlock_here, renew, renew_here, try_answer,
}
use clusdr.LockService.Answers.{acquired_record, Shows, Tells, answered, replied_inv}

-- A node that may act on a lock: the name is legal, the node is no observer, and it leads or has no Raft.
abbrev pub MayAct : LockService → String → Fsm → Type 0
MayAct s name f =
    (Locks.valid_name s.unicode name ≡ none)
    × (reject_if_observer f.members ≡ none)
    × (must_forward s.raft ≡ false)

-- Nothing happened to the node.
abbrev pub Untouched : {A : Type 0} → Fsm → Fsm × List Event × Reply A → Type 0
Untouched f r = (r.0 ≡ f) × (r.1 ≡ [])

-- A reply that the node gave itself, without the leader, is a refusal.
abbrev pub IsRefusal : {A : Type 0} → LockService → Reply A → Type 0
IsRefusal s r = (must_forward s.raft ≡ true) ⊎ ((code : Code) × (e : Error) × (r ≡ refused code e))

pub guarded-cases :
    {Q A : Type 0} (s : LockService) (remote : Remote Q A) (name : String) (q : Q)
    (body : Fsm → Fsm × List Event × Reply A) (f : Fsm)
    → (MayAct s name f × (guarded s remote name q body f ≡ body f))
      ⊎ (Untouched f (guarded s remote name q body f)
          × IsRefusal s (guarded s remote name q body f).2)
unfolding guarded
guarded-cases s remote name q body f = elim (Option-cases (Locks.valid_name s.unicode name)) [
  | inr (e, v) ↦ inr (rw (guarded, v) ((refl, refl), inr (_, _, refl)))
  | inl v ↦ elim (Option-cases (reject_if_observer f.members)) [
    | inr (e, o) ↦ inr (rw (guarded, v, o) ((refl, refl), inr (_, _, refl)))
    | inl o ↦ elim (Bool-cases (must_forward s.raft)) [
      | inl b ↦ inr (rw (guarded, v, o, b) ((refl, refl), inl refl))
      | inr b ↦ inl ((v, o, b), rw (guarded, v, o, b) refl)
    ]
  ]
]

either :
    {Q A : Type 0} (s : LockService) (remote : Remote Q A) (name : String) (q : Q)
    (body : Fsm → Fsm × List Event × Reply A) (f : Fsm)
    → MayAct s name f ⊎ Untouched f (guarded s remote name q body f)
either s remote name q body f = elim (guarded-cases s remote name q body f) [
  | inl (m, e) ↦ inl m
  | inr (n, x) ↦ inr n
]

-- TryLock, Unlock and Renew change nothing of a node and emit nothing, unless the name is legal, the node
-- is no observer, and it is the leader or has no Raft.
pub acts_only_as_leader :
    (s : LockService) (f : Fsm) (now : Time) (between : Fsm → Fsm)
    (at : Remote LockRequest LockResponse) (q : LockRequest) (at' : Remote UnlockRequest (Unit {0}))
    (q' : UnlockRequest) (at'' : Remote RenewRequest RenewResponse) (q'' : RenewRequest)
    → (MayAct s q.name f ⊎ Untouched f (try_lock s at now between q f))
      × (MayAct s q'.name f ⊎ Untouched f (unlock s at' q' f))
      × (MayAct s q''.name f ⊎ Untouched f (renew s at'' now q'' f))
unfolding try_lock unlock renew
acts_only_as_leader s f now between at q at' q' at'' q'' = (
  either s at q.name q (try_lock_here s now between q) f,
  either s at' q'.name q' (unlock_here s q') f,
  either s at'' q''.name q'' (renew_here s now q'') f,
)

acting :
    {Q A : Type 0} (s : LockService) (remote : Remote Q A) (name : String) (q : Q)
    (body : Fsm → Fsm × List Event × Reply A) (f : Fsm)
    → MayAct s name f
    → guarded s remote name q body f ≡ body f
unfolding guarded
acting s remote name q body f (v, o, b) = rw (guarded, v, o, b) refl

ended :
    (s : LockService) (now : Time) (between : Fsm → Fsm) (q : LockRequest) (f : Fsm)
    → (try_lock_here s now between q f).0 ≡ between (try_lock_here s now (λ f. f) q f).0
unfolding try_lock_here
ended s now between q f = refl

here_tells :
    (s : LockService) (l : Leading) (now : Time) (between : Fsm → Fsm) (q : LockRequest) (f : Fsm)
    (t : Table) (resp : LockResponse)
    → s.raft ≡ some l
    → AppliesHere l.codec s.unicode l.raft
    → RoundTrips l.codec
    → (epoch_ms + 1) * nanos_per_ms ≤ now
    → f.locks ≡ some t
    → (try_lock_here s now between q f).2 ≡ replied resp
    → let f₁ = (try_lock_here s now (λ f. f) q f).0 in Tells s q f f₁ (between f₁) resp
unfolding try_lock_here
here_tells s l now between q f t resp r here back past e h =
    let holder = holder_of f.members q.holder in
    let ttl = ttl_from_ms s q.ttl_ms (pos 0) in
    let a = apply_acquire s now q.name holder ttl f in
    let (p, x, y) = replied_inv (try_answer q.name holder (between a.0)) a.2 resp h in
    let j : a ≡ apply_lock_acquire l.codec l.raft now q.name holder ttl f =
      rw (apply_acquire, r) refl in
    let (local, k, n) =
      acquire_submitted l.codec s.unicode l.raft now q.name holder ttl f t p.0 p.1 here back past e
        (sym (ap (λ z. z.2) j) ∙ x) in
    let (rec, m, u, v, w) = acquired_record s.unicode local q.name holder _ _ t p.0 p.1 k in
    let st = ap (λ z. z.0) j ∙ n in
    subst (Tells s q f a.0 (between a.0)) (sym y) (
      answered s q f a.0 (between a.0) p.0 p.1 rec (ap (λ z. get_in q.name z.locks) st ∙ m) u v
        (λ b. ((w b).0, st ∙ (λ i. record f { locks = (ap some ((w b).1) ∙ sym e) i }))))

-- TryLock on the leader, where raft.Apply and the codec do what is relied on and the clock is past 1970,
-- whatever others do between the entry and the answer: when it replies, the entry left the table with a
-- record of the lock. A client that was told that it has the lock is the holder of that record, and has its
-- token; the deadline in the response is the one that the lock has when the handler answers, or zero if it has
-- been freed by then. A client that was told that the lock is held was not its holder, and the entry changed
-- nothing; token, holder and deadline in the response are those of the record that the lock has when the
-- handler answers, or zero and empty if it has been freed by then.
pub try_lock_tells :
    (s : LockService) (l : Leading) (remote : Remote LockRequest LockResponse) (now : Time)
    (between : Fsm → Fsm) (q : LockRequest) (f : Fsm) (t : Table) (resp : LockResponse)
    → s.raft ≡ some l
    → l.is_leader ≡ true
    → AppliesHere l.codec s.unicode l.raft
    → RoundTrips l.codec
    → (epoch_ms + 1) * nanos_per_ms ≤ now
    → f.locks ≡ some t
    → (try_lock s remote now between q f).2 ≡ replied resp
    → let f₁ = (try_lock s remote now (λ f. f) q f).0 in
      let f' = (try_lock s remote now between q f).0 in
      (f' ≡ between f₁)
      × ((rec : LockRecord) × (get_in q.name f₁.locks ≡ some rec)
          × (resp.acquired ≡ true
              → (rec.token ≡ resp.fencing_token)
                × (rec.holder ≡ resp.holder)
                × (resp.holder ≡ holder_of f.members q.holder)
                × (deadline_ms (get_in q.name f'.locks) ≡ resp.deadline_unix_ms))
          × (resp.acquired ≡ false
              → (f₁ ≡ f) × (rec.holder ≢ holder_of f.members q.holder) × Shows q.name f' resp))
unfolding try_lock
try_lock_tells s l remote now between q f t resp r lead here back past e h =
    elim (guarded-cases s remote q.name q (try_lock_here s now between q) f) [
      | inr (n, inl b) ↦
          absurd (let c : must_forward s.raft ≡ false = rw (r, lead) refl in ground arith)
      | inr (n, inr (code, x, c)) ↦ absurd (ground arith)
      | inl (m, p) ↦
          let p₁ = acting s remote q.name q (try_lock_here s now (λ f. f) q) f m in
          let there =
            here_tells s l now between q f t resp r here back past e (sym (ap (λ z. z.2) p) ∙ h) in
          let same : (try_lock_here s now between q f).0
              ≡ between (try_lock_here s now (λ f. f) q f).0 =
            ended s now between q f in
          (
            ap (λ z. z.0) p ∙ (same ∙ ap (λ z. between z.0) (sym p₁)),
            subst
                (λ z.
                  Tells s q f z.0 (guarded s remote q.name q (try_lock_here s now between q) f).0
                    resp)
                (sym p₁)
                (subst (λ z. Tells s q f (try_lock_here s now (λ f. f) q f).0 z resp)
                  (sym (ap (λ z. z.0) p ∙ same)) there),
          )
    ]
