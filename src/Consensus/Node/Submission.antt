-- ===== src/Consensus/Node/Submission.antt =====
-- What a submitted command does: consensus/node.go against consensus/fsm.go and locks/table.go.
use clusdr.Prelude.{
  ℕ, ◌*◌, ◌/◌, ◌+◌, ◌≤◌, Bool, ◌≡◌, refl, sym, ap, ◌∙◌, none, some, List, String, pos, negsuc, ℤ,
  arith, ◌≤ℤ◌, ◌⊎◌, inl, inr, Option-cases, int64_small,
}
use clusdr.Fault.{Error, Result, ok, err}
use clusdr.Clock.{
  Time, Duration, add, to_unix_ms, from_unix_ms, duration_ms, ms_duration, epoch_ms, nanos_per_ms,
}
use clusdr.Names.{Unicode}
use clusdr.Locks
use clusdr.Locks.Ttl.{clamp_ttl_lem}
use clusdr.Consensus.Command.{Command, Codec, deadline_of, ttl_of}
use clusdr.Consensus.Fsm.{
  answer_grant, Fsm, LockResult, Response, command, nothing, failed, result, apply, apply_command,
  apply_to, on_locks,
}
use clusdr.Consensus.Fsm as Machine
use clusdr.Consensus.Node.{
  Raft, lock_result, apply_lock, propose, acquire_command, apply_lock_acquire, member_result,
  propose_member,
}

-- What the code relies on of raft.Apply: a future without an error carries what the FSM's Apply answered
-- for the entry on this node, at some local time.
abbrev pub AppliesHere : Codec → Unicode → Raft → Type 0
AppliesHere codec u raft =
    (bytes : List ℕ) (f : Fsm) (r : Response)
    → (raft.submit bytes f).2 ≡ ok r
    → (local : Time) × (apply codec u local (command bytes) f
        ≡ ((raft.submit bytes f).0, (raft.submit bytes f).1, r))

-- What it relies on of the JSON codec: an encoded command is read back.
abbrev pub RoundTrips : Codec → Type 0
RoundTrips codec =
    (cmd : Command) (bytes : List ℕ) → codec.encode cmd ≡ ok bytes → codec.decode bytes ≡ some cmd

-- An instant and a duration, cut to whole milliseconds.
abbrev pub whole : ℕ → ℕ
whole n = n / nanos_per_ms * nanos_per_ms

abbrev pub whole_duration : Duration → Duration
whole_duration (pos n) = pos (whole n)
whole_duration (negsuc n) = negsuc n

pub deadline_read_back :
    (cmd : Command) (d : Time)
    → (epoch_ms + 1) * nanos_per_ms ≤ d
    → cmd.deadline_unix_ms ≡ to_unix_ms d
    → deadline_of cmd ≡ whole d
unfolding deadline_of to_unix_ms from_unix_ms
deadline_read_back cmd d h e = ground arith

pub Result-cases {ℓ} :
    {A : Type ℓ} (r : Result A) → ((e : Error) × (r ≡ err e)) ⊎ ((a : A) × (r ≡ ok a))
Result-cases (err e) = inl (e, refl)
Result-cases (ok a) = inr (a, refl)

lock_result-ok :
    (r : Result Response) (l : LockResult)
    → lock_result r ≡ ok l
    → (r ≡ ok (result l)) × (l.failure ≡ none)
unfolding lock_result
lock_result-ok (err e) l h = ground arith
lock_result-ok (ok nothing) l h = ground arith
lock_result-ok (ok (failed e)) l h = ground arith
lock_result-ok (ok (result r)) l h = elim (Option-cases r.failure) [
  | inl e ↦
      let q : ok r ≡ ok l = rw (lock_result, e) at h in
      let p : r ≡ l = ground arith in (ap (λ x. ok (result x)) p, ap (λ x. x.failure) (sym p) ∙ e)
  | inr (x, e) ↦ let q : err x ≡ ok l = rw (lock_result, e) at h in absurd (ground arith)
]

pub lifetime_read_back :
    (cmd : Command) (ttl : Duration)
    → Locks.min_ttl ≤ℤ ttl
    → ttl ≤ℤ Locks.max_ttl
    → cmd.ttl_ms ≡ duration_ms ttl
    → ttl_of cmd ≡ whole_duration ttl
unfolding ttl_of duration_ms ms_duration
lifetime_read_back cmd (pos n) h k e = ground (arith, int64_small (n / nanos_per_ms * nanos_per_ms))
lifetime_read_back cmd (negsuc n) h k e = absurd (omega (arith, h))

pub apply-decoded :
    (codec : Codec) (u : Unicode) (local : Time) (bytes : List ℕ) (cmd : Command) (f : Fsm)
    → codec.decode bytes ≡ some cmd
    → apply codec u local (command bytes) f ≡ apply_command u local cmd f
unfolding apply apply_command
apply-decoded codec u local bytes cmd f e = rw (apply, e) refl

-- A submission that succeeds was applied here, and its result is what the command answered.
pub submitted :
    (codec : Codec) (u : Unicode) (raft : Raft) (cmd : Command) (f : Fsm) (l : LockResult)
    → AppliesHere codec u raft
    → RoundTrips codec
    → (propose codec raft cmd f).2 ≡ ok l
    → (l.failure ≡ none)
      × ((local : Time) × ((apply_command u local cmd f).0 ≡ (propose codec raft cmd f).0)
          × ((apply_command u local cmd f).2 ≡ result l))
unfolding propose apply_lock
submitted codec u raft cmd f l here back h = elim (Result-cases (codec.encode cmd)) [
  | inl (e, p) ↦ absurd (let q : err e ≡ ok l = rw (propose, p) at h in ground arith)
  | inr (bytes, p) ↦
      let q : lock_result (raft.submit bytes f).2 ≡ ok l = rw (propose, p) at h in
      let (r, clear) = lock_result-ok (raft.submit bytes f).2 l q in
      let (local, a) = here bytes f (result l) r in
      let b = sym (apply-decoded codec u local bytes cmd f (back cmd bytes p)) ∙ a in
      (clear, (local, ap (λ x. x.0) b ∙ rw (propose, p) refl, ap (λ x. x.2) b))
]

-- An answer of Acquire that Apply turned into a result without a failure.
pub answer_grant-clear :
    (r : Result (ℕ × Bool)) (deadline : ℤ) (l : LockResult)
    → answer_grant r deadline ≡ result l
    → l.failure ≡ none
    → r ≡ ok (l.token, l.acquired)
answer_grant-clear (err e) deadline l h c = ground arith
answer_grant-clear (ok (token, acquired)) deadline l h c = ground arith

-- Apply on an acquire command, on a node with a lock table.
apply-acquire :
    (u : Unicode) (local : Time) (now : Time) (name holder : String) (requested : Duration)
    (f : Fsm) (t : Locks.Table) (d : Time) (v : Duration)
    → let cmd = acquire_command now name holder requested in
      f.locks ≡ some t
      → deadline_of cmd ≡ d
      → ttl_of cmd ≡ v
      → let r = Locks.acquire u local name holder d v t in
        ((apply_command u local cmd f).0 ≡ record f { locks = some r.0 })
        × ((apply_command u local cmd f).2 ≡ answer_grant r.1 cmd.deadline_unix_ms)
unfolding apply_command apply_to on_locks Machine.apply_lock
apply-acquire u local now name holder requested f t d v e p q = rw (e, p, q) (refl, refl)

-- The deadline of a request is past 1970 if the clock is.
pub deadline_past :
    (now : Time) (ttl : Duration)
    → Locks.min_ttl ≤ℤ ttl
    → (epoch_ms + 1) * nanos_per_ms ≤ now
    → (epoch_ms + 1) * nanos_per_ms ≤ add now ttl
unfolding add
deadline_past now (pos n) h k = omega (arith, k)
deadline_past now (negsuc n) h k = absurd (omega (arith, h))

-- ApplyLockAcquire on a node with a lock table, where raft.Apply and the codec do what is relied on and the clock
-- is past 1970: if it returns a token and a flag, these are what Acquire of the lock table answers, at
-- some local time, to the holder's request with the lifetime of ClampTTL and the deadline that lies
-- that lifetime after the leader's clock, both cut to whole milliseconds; and nothing but the lock table
-- changed, to what that Acquire makes of it.
pub acquire_submitted :
    (codec : Codec) (u : Unicode) (raft : Raft) (now : Time) (name holder : String)
    (requested : Duration) (f : Fsm) (t : Locks.Table) (token : ℕ) (acquired : Bool)
    → AppliesHere codec u raft
    → RoundTrips codec
    → (epoch_ms + 1) * nanos_per_ms ≤ now
    → f.locks ≡ some t
    → (apply_lock_acquire codec raft now name holder requested f).2 ≡ ok (token, acquired)
    → let ttl = Locks.clamp_ttl requested (pos 0) in
      let f' = (apply_lock_acquire codec raft now name holder requested f).0 in
      (local : Time) × ((Locks.acquire u local name holder
          (whole (add now ttl))
          (whole_duration ttl)
          t).1
        ≡ ok (token, acquired))
      × (f' ≡ record f {
        locks =
            some (Locks.acquire u local name holder (whole (add now ttl)) (whole_duration ttl) t).0;
      })
unfolding apply_lock_acquire
acquire_submitted codec u raft now name holder requested f t token acquired here back past e h =
    let ttl = Locks.clamp_ttl requested (pos 0) in
    let cmd = acquire_command now name holder requested in
    elim (Result-cases (propose codec raft cmd f).2) [
      | inl (x, p) ↦ absurd (let q : err x ≡ ok (token, acquired) = rw p at h in ground arith)
      | inr (l, p) ↦
          let (clear, (local, s, r)) = submitted codec u raft cmd f l here back p in
          let (low, high, _, _, _) = clamp_ttl_lem requested (pos 0) in
          let d = deadline_read_back cmd (add now ttl) (deadline_past now ttl low past) refl in
          let v = lifetime_read_back cmd ttl low high refl in
          let (x, y) =
            apply-acquire u local now name holder requested f t (whole (add now ttl))
              (whole_duration ttl) e d v in
          let q : ok (l.token, l.acquired) ≡ ok (token, acquired) = rw p at h in
          (local, answer_grant-clear _ cmd.deadline_unix_ms l (sym y ∙ r) clear ∙ q, sym s ∙ x)
    ]

-- A member command whose submission succeeds was applied here.
pub member_submitted :
    (codec : Codec) (u : Unicode) (raft : Raft) (cmd : Command) (f : Fsm)
    → AppliesHere codec u raft
    → RoundTrips codec
    → (propose_member codec raft cmd f).2 ≡ none
    → (local : Time) × ((apply_command u local cmd f).0 ≡ (propose_member codec raft cmd f).0)
unfolding propose_member
member_submitted codec u raft cmd f here back h = elim (Result-cases (codec.encode cmd)) [
  | inl (e, p) ↦ absurd (let q : some e ≡ none = rw (propose_member, p) at h in ground arith)
  | inr (bytes, p) ↦
      let q : member_result (raft.submit bytes f).2 ≡ none = rw (propose_member, p) at h in
      elim (Result-cases (raft.submit bytes f).2) [
        | inl (e, x) ↦ absurd (let y : some e ≡ none = rw x at q in ground arith)
        | inr (r, x) ↦
            let (local, a) = here bytes f r x in
            let b = sym (apply-decoded codec u local bytes cmd f (back cmd bytes p)) ∙ a in
            (local, ap (λ y. y.0) b ∙ rw (propose_member, p) refl)
      ]
]
