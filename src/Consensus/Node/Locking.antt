-- ===== src/Consensus/Node/Locking.antt =====
-- An acquire command that succeeds found a lock table: consensus/node.go against consensus/fsm.go.
use clusdr.Prelude.{ℕ, Bool, ◌≡◌, refl, sym, ◌∙◌, inl, inr, none, some, String, arith, Option-cases}
use clusdr.Fault.{ok, err, lock_table_missing}
use clusdr.Clock.{Time, Duration}
use clusdr.Names.{Unicode}
use clusdr.Locks
use clusdr.Consensus.Command.{Command, Codec}
use clusdr.Consensus.Fsm.{Fsm, apply_command, apply_to, on_locks, refused, target, to_locks}
use clusdr.Consensus.Node.{Raft, propose, acquire_command, apply_lock_acquire}
use clusdr.Consensus.Node.Submission.{AppliesHere, RoundTrips, Result-cases, submitted}

refused_without_table :
    (u : Unicode) (local : Time) (cmd : Command) (f : Fsm)
    → target cmd.kind ≡ to_locks
    → f.locks ≡ none
    → (apply_command u local cmd f).2 ≡ refused lock_table_missing
unfolding apply_command apply_to on_locks
refused_without_table u local cmd f k p = rw (apply_command, k, p) refl

pub acquire_had_table :
    (codec : Codec) (u : Unicode) (raft : Raft) (now : Time) (name holder : String)
    (requested : Duration) (f : Fsm) (x : ℕ × Bool)
    → AppliesHere codec u raft
    → RoundTrips codec
    → (apply_lock_acquire codec raft now name holder requested f).2 ≡ ok x
    → (t : Locks.Table) × (f.locks ≡ some t)
unfolding apply_lock_acquire
acquire_had_table codec u raft now name holder requested f x here back h =
    let cmd = acquire_command now name holder requested in
    elim (Result-cases (propose codec raft cmd f).2) [
      | inl (e, p) ↦ absurd (let q : err e ≡ ok x = rw p at h in ground arith)
      | inr (l, p) ↦ elim (Option-cases f.locks) [
        | inr (t, g) ↦ (t, g)
        | inl g ↦
            let (clear, (local, s, r)) = submitted codec u raft cmd f l here back p in
            absurd (let y = sym (refused_without_table u local cmd f refl g) ∙ r in ground arith)
      ]
    ]
