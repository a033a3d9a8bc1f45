-- ===== src/Consensus/Node/Leasing.antt =====
-- What a submitted lease command does: consensus/node.go against consensus/fsm.go and leases/table.go.
use clusdr.Prelude.{
  ℕ, ◌*◌, ◌+◌, ◌≤◌, Bool, ◌≡◌, refl, sym, ◌∙◌, none, some, Option, String, pos, arith, ◌≤ℤ◌, inl,
  inr, Option-cases, ℤ, true,
}
use clusdr.Fault.{Error, ok, err, lease_table_missing}
use clusdr.Clock.{Time, Duration, add, epoch_ms, nanos_per_ms}
use clusdr.Names.{Unicode}
use clusdr.Leases
use clusdr.Consensus.Command.{Command, Codec, deadline_of, ttl_of}
use clusdr.Consensus.Fsm.{
  Fsm, LockResult, result, apply_command, apply_to, on_leases, apply_lease, answer_grant,
  answer_done, refused, target, to_leases,
}
use clusdr.Consensus.Node.{
  Raft, propose, grant_command, renew_command, apply_lease_grant, apply_lease_renew,
}
use clusdr.Consensus.Node.Submission.{
  AppliesHere, RoundTrips, whole, whole_duration, Result-cases, submitted, answer_grant-clear,
  deadline_read_back, lifetime_read_back, deadline_past,
}

-- The bounds of ClampTTL of leases/table.go.
clamp_ttl-bounds :
    (requested fallback : Duration)
    → (Leases.min_ttl ≤ℤ Leases.clamp_ttl requested fallback)
      × (Leases.clamp_ttl requested fallback ≤ℤ Leases.max_ttl)
unfolding Leases.clamp_ttl
clamp_ttl-bounds requested fallback = (ground arith, ground arith)

pub apply-grant :
    (u : Unicode) (local now : Time) (name owner : String) (requested : Duration) (f : Fsm)
    (t : Leases.Table) (d : Time) (v : Duration)
    → let cmd = grant_command now name owner requested in
      f.leases ≡ some t
      → deadline_of cmd ≡ d
      → ttl_of cmd ≡ v
      → let r = Leases.grant u local name owner d v t in
        ((apply_command u local cmd f).0 ≡ record f { leases = some r.0 })
        × ((apply_command u local cmd f).2 ≡ answer_grant r.2 cmd.deadline_unix_ms)
unfolding apply_command apply_to on_leases apply_lease
apply-grant u local now name owner requested f t d v e p q = rw (e, p, q) (refl, refl)

apply-renew :
    (u : Unicode) (local now : Time) (name owner : String) (token : ℕ) (requested : Duration)
    (f : Fsm) (t : Leases.Table) (d : Time) (v : Duration)
    → let cmd = renew_command now name owner token requested in
      f.leases ≡ some t
      → deadline_of cmd ≡ d
      → ttl_of cmd ≡ v
      → let r = Leases.renew u name owner token d v t in
        ((apply_command u local cmd f).0 ≡ record f { leases = some r.0 })
        × ((apply_command u local cmd f).2 ≡ answer_done r.1 true token cmd.deadline_unix_ms)
unfolding apply_command apply_to on_leases apply_lease
apply-renew u local now name owner token requested f t d v e p q = rw (e, p, q) (refl, refl)

answer_done-clear :
    (e : Option Error) (acquired : Bool) (token : ℕ) (deadline : ℤ) (l : LockResult)
    → answer_done e acquired token deadline ≡ result l
    → l.failure ≡ none
    → e ≡ none
answer_done-clear (some x) acquired token deadline l h c = ground arith
answer_done-clear none acquired token deadline l h c = refl

-- What the code relies on of a leader's node: raft.Apply and the codec do what is relied on, the clock is past
-- 1970, and the FSM has the lease table `t`.
pub record Leads (codec : Codec) (u : Unicode) (raft : Raft) (now : Time) (f : Fsm)
    (t : Leases.Table) : Type 0 where
  pub here : AppliesHere codec u raft
  pub back : RoundTrips codec
  pub past : (epoch_ms + 1) * nanos_per_ms ≤ now
  pub leases : f.leases ≡ some t

-- ApplyLeaseGrant that returns a token and a flag did Grant of the lease table, at some local time, with
-- the lifetime of ClampTTL and the deadline that lies it after the leader's clock, in whole milliseconds.
pub grant_submitted :
    (codec : Codec) (u : Unicode) (raft : Raft) (now : Time) (name owner : String)
    (requested : Duration) (f : Fsm) (t : Leases.Table) (token : ℕ) (granted : Bool)
    → Leads codec u raft now f t
    → (apply_lease_grant codec raft now name owner requested f).2 ≡ ok (token, granted)
    → let ttl = Leases.clamp_ttl requested (pos 0) in
      (local : Time) × ((Leases.grant u local name owner
          (whole (add now ttl))
          (whole_duration ttl)
          t).2
        ≡ ok (token, granted))
      × ((apply_lease_grant codec raft now name owner requested f).0 ≡ record f {
        leases =
            some (Leases.grant u local name owner (whole (add now ttl)) (whole_duration ttl) t).0;
      })
unfolding apply_lease_grant
grant_submitted codec u raft now name owner requested f t token granted a h =
    let ttl = Leases.clamp_ttl requested (pos 0) in
    let cmd = grant_command now name owner requested in
    elim (Result-cases (propose codec raft cmd f).2) [
      | inl (x, p) ↦ absurd (let q : err x ≡ ok (token, granted) = rw p at h in ground arith)
      | inr (l, p) ↦
          let (clear, (local, s, r)) = submitted codec u raft cmd f l a.here a.back p in
          let (low, high) = clamp_ttl-bounds requested (pos 0) in
          let d = deadline_read_back cmd (add now ttl) (deadline_past now ttl low a.past) refl in
          let v = lifetime_read_back cmd ttl low high refl in
          let (x, y) =
            apply-grant u local now name owner requested f t (whole (add now ttl))
              (whole_duration ttl) a.leases d v in
          let q : ok (l.token, l.acquired) ≡ ok (token, granted) = rw p at h in
          (local, answer_grant-clear _ cmd.deadline_unix_ms l (sym y ∙ r) clear ∙ q, sym s ∙ x)
    ]

-- ApplyLeaseRenew that returns a deadline did Renew of the lease table, with that deadline and the lifetime
-- of ClampTTL in whole milliseconds.
pub renew_submitted :
    (codec : Codec) (u : Unicode) (raft : Raft) (now : Time) (name owner : String) (token : ℕ)
    (requested : Duration) (f : Fsm) (t : Leases.Table) (deadline : Time)
    → Leads codec u raft now f t
    → (apply_lease_renew codec raft now name owner token requested f).2 ≡ ok deadline
    → let ttl = Leases.clamp_ttl requested (pos 0) in
      let r = Leases.renew u name owner token (whole (add now ttl)) (whole_duration ttl) t in
      (r.1 ≡ none)
      × ((apply_lease_renew codec raft now name owner token requested f).0
          ≡ record f { leases = some r.0 })
      × (deadline ≡ add now ttl)
unfolding apply_lease_renew
renew_submitted codec u raft now name owner token requested f t deadline a h =
    let ttl = Leases.clamp_ttl requested (pos 0) in
    let cmd = renew_command now name owner token requested in
    elim (Result-cases (propose codec raft cmd f).2) [
      | inl (x, p) ↦ absurd (let q : err x ≡ ok deadline = rw p at h in ground arith)
      | inr (l, p) ↦
          let (clear, (local, s, r)) = submitted codec u raft cmd f l a.here a.back p in
          let (low, high) = clamp_ttl-bounds requested (pos 0) in
          let d = deadline_read_back cmd (add now ttl) (deadline_past now ttl low a.past) refl in
          let v = lifetime_read_back cmd ttl low high refl in
          let (x, y) =
            apply-renew u local now name owner token requested f t (whole (add now ttl))
              (whole_duration ttl) a.leases d v in
          let q : ok (add now ttl) ≡ ok deadline = rw p at h in
          (
            answer_done-clear _ true token cmd.deadline_unix_ms l (sym y ∙ r) clear,
            sym s ∙ x,
            ground arith,
          )
    ]

refused_without_table :
    (u : Unicode) (local : Time) (cmd : Command) (f : Fsm)
    → target cmd.kind ≡ to_leases
    → f.leases ≡ none
    → (apply_command u local cmd f).2 ≡ refused lease_table_missing
unfolding apply_command apply_to on_leases
refused_without_table u local cmd f k p = rw (apply_command, k, p) refl

-- Without a lease table no lease command succeeds.
table_needed :
    (codec : Codec) (u : Unicode) (raft : Raft) (cmd : Command) (f : Fsm) (l : LockResult)
    → AppliesHere codec u raft
    → RoundTrips codec
    → target cmd.kind ≡ to_leases
    → (propose codec raft cmd f).2 ≡ ok l
    → (t : Leases.Table) × (f.leases ≡ some t)
table_needed codec u raft cmd f l here back k h = elim (Option-cases f.leases) [
  | inr (t, p) ↦ (t, p)
  | inl p ↦
      let (clear, (local, s, r)) = submitted codec u raft cmd f l here back h in
      absurd (let x = sym (refused_without_table u local cmd f k p) ∙ r in ground arith)
]

pub grant_had_table :
    (codec : Codec) (u : Unicode) (raft : Raft) (now : Time) (name owner : String)
    (requested : Duration) (f : Fsm) (x : ℕ × Bool)
    → AppliesHere codec u raft
    → RoundTrips codec
    → (apply_lease_grant codec raft now name owner requested f).2 ≡ ok x
    → (t : Leases.Table) × (f.leases ≡ some t)
unfolding apply_lease_grant
grant_had_table codec u raft now name owner requested f x here back h =
    elim (Result-cases (propose codec raft (grant_command now name owner requested) f).2) [
      | inl (e, p) ↦ absurd (let q : err e ≡ ok x = rw p at h in ground arith)
      | inr (l, p) ↦
          table_needed codec u raft (grant_command now name owner requested) f l here back refl p
    ]

pub renew_had_table :
    (codec : Codec) (u : Unicode) (raft : Raft) (now : Time) (name owner : String) (token : ℕ)
    (requested : Duration) (f : Fsm) (x : Time)
    → AppliesHere codec u raft
    → RoundTrips codec
    → (apply_lease_renew codec raft now name owner token requested f).2 ≡ ok x
    → (t : Leases.Table) × (f.leases ≡ some t)
unfolding apply_lease_renew
renew_had_table codec u raft now name owner token requested f x here back h =
    elim (Result-cases (propose codec raft (renew_command now name owner token requested) f).2) [
      | inl (e, p) ↦ absurd (let q : err e ≡ ok x = rw p at h in ground arith)
      | inr (l, p) ↦
          table_needed codec u raft (renew_command now name owner token requested) f l here back
            refl p
    ]
