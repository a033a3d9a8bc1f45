-- ===== src/LockService/Handlers/Told.antt =====
-- What TryLock of grpcserver/locks.go tells its client, without a hypothesis on the lock table.
use clusdr.Prelude.{
  Bool-cases, true, false, ◌≡◌, refl, sym, ap, ◌∙◌, inl, inr, some, arith, pos, ◌*◌, ◌+◌, ◌≤◌,
}
use clusdr.Clock.{Time, epoch_ms, nanos_per_ms}
use clusdr.Locks.{LockRecord, Table}
use clusdr.Consensus.Fsm.{Fsm}
use clusdr.Consensus.Node.{apply_lock_acquire}
use clusdr.Consensus.Node.Submission.{AppliesHere, RoundTrips}
use clusdr.Consensus.Node.Locking.{acquire_had_table}
use clusdr.Grpc.{replied, Remote, Leading, must_forward}
use clusdr.LockService.{
  LockService, LockRequest, LockResponse, apply_acquire, holder_of, get_in, ttl_from_ms,
}
use clusdr.LockService.Calls.{try_lock, try_lock_here, try_answer}
use clusdr.LockService.Answers.{replied_inv}
use clusdr.LockService.Handlers.{guarded-cases, try_lock_tells}

-- try_lock_tells where nobody comes in between, whether or not the node is known to have a lock table.
pub try_lock_told :
    (s : LockService) (l : Leading) (remote : Remote LockRequest LockResponse) (now : Time)
    (q : LockRequest) (f : Fsm) (resp : LockResponse)
    → s.raft ≡ some l
    → l.is_leader ≡ true
    → AppliesHere l.codec s.unicode l.raft
    → RoundTrips l.codec
    → (epoch_ms + 1) * nanos_per_ms ≤ now
    → (try_lock s remote now (λ f. f) q f).2 ≡ replied resp
    → let f' = (try_lock s remote now (λ f. f) q f).0 in
      (rec : LockRecord) × (get_in q.name f'.locks ≡ some rec)
      × (rec.token ≡ resp.fencing_token)
      × (rec.holder ≡ resp.holder)
unfolding try_lock try_lock_here
try_lock_told s l remote now q f resp r lead here back past h =
    let (t, e) = table in
    let (same, (rec, g, granted, declined)) =
      try_lock_tells s l remote now (λ f. f) q f t resp r lead here back past e h in
    elim (Bool-cases resp.acquired) [
      | inl b ↦ (rec, g, (granted b).0, (granted b).1)
      | inr b ↦ elim ((declined b).2) [
        | inl (gone, _, _, _) ↦ absurd (ground arith)
        | inr (rec', g', x, y, z) ↦ (rec', g', x, y)
      ]
    ]
  where
    table : (t : Table) × (f.locks ≡ some t)
    table = elim (guarded-cases s remote q.name q (try_lock_here s now (λ f. f) q) f) [
      | inr (n, inl b) ↦
          absurd (let c : must_forward s.raft ≡ false = rw (r, lead) refl in ground arith)
      | inr (n, inr (code, x, c)) ↦ absurd (ground arith)
      | inl (m, p) ↦
          let holder = holder_of f.members q.holder in
          let ttl = ttl_from_ms s q.ttl_ms (pos 0) in
          let a = apply_acquire s now q.name holder ttl f in
          let (w, x, y) =
            replied_inv (try_answer q.name holder a.0) a.2 resp (sym (ap (λ z. z.2) p) ∙ h) in
          let j : a ≡ apply_lock_acquire l.codec l.raft now q.name holder ttl f =
            rw (apply_acquire, r) refl in
          acquire_had_table l.codec s.unicode l.raft now q.name holder ttl f w here back
            (sym (ap (λ z. z.2) j) ∙ x)
    ]
