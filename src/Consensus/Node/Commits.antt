-- ===== src/Consensus/Node/Commits.antt =====
-- What the lease commands do where Raft takes every entry.
use clusdr.Prelude.{
  ℕ, ◌<◌, true, ◌≡◌, ◌≢◌, refl, sym, ap, ◌∙◌, none, some, List, String, arith, inl, inr, lookup,
  length,
}
use clusdr.Fault.{ok}
use clusdr.Clock.{Time, Duration}
use clusdr.Names.{Unicode}
use clusdr.Leases
use clusdr.Leases.Cases.{grant_cases, renew_cases}
use clusdr.Consensus.Command.{Command, Codec, deadline_of, ttl_of}
use clusdr.Consensus.Fsm.{
  Fsm, Response, apply_command, apply_to, on_leases, apply_lease, answer_grant,
}
use clusdr.Consensus.Node.{
  Raft, propose, apply_lock, lock_result, granted, grant_command, renew_command, apply_lease_grant,
  apply_lease_renew,
}
use clusdr.Consensus.Node.Leasing.{apply-grant}
use clusdr.Consensus.Node.Submission.{AppliesHere, RoundTrips, Result-cases, apply-decoded}

-- A Raft that has a quorum: no future has an error.
abbrev pub Commits : Raft → Type 0
Commits raft = (bytes : List ℕ) (f : Fsm) → (r : Response) × ((raft.submit bytes f).2 ≡ ok r)

-- An encoded command is applied at once.
committed :
    (codec : Codec) (u : Unicode) (raft : Raft) (cmd : Command) (f : Fsm) (bytes : List ℕ)
    → AppliesHere codec u raft
    → RoundTrips codec
    → Commits raft
    → codec.encode cmd ≡ ok bytes
    → (local : Time) × ((propose codec raft cmd f).0 ≡ (apply_command u local cmd f).0)
      × ((propose codec raft cmd f).2 ≡ lock_result (ok (apply_command u local cmd f).2))
unfolding propose apply_lock
committed codec u raft cmd f bytes here back all p =
    let (r, x) = all bytes f in
    let (local, a) = here bytes f r x in
    let b = sym (apply-decoded codec u local bytes cmd f (back cmd bytes p)) ∙ a in
    (
      local,
      rw (propose, p) (sym (ap (λ y. y.0) b)),
      rw (propose, p) (ap lock_result (x ∙ ap ok (sym (ap (λ y. y.2) b)))),
    )

-- A renewal of a lease that nobody has leaves the table as it is, whether it is encoded or not.
pub renew-missing :
    (codec : Codec) (u : Unicode) (raft : Raft) (now : Time) (name owner : String) (token : ℕ)
    (requested : Duration) (f : Fsm) (t : Leases.Table)
    → AppliesHere codec u raft
    → RoundTrips codec
    → Commits raft
    → f.leases ≡ some t
    → lookup name t.leases ≡ none
    → (apply_lease_renew codec raft now name owner token requested f).0.leases ≡ some t
unfolding apply_lease_renew propose apply_command apply_to on_leases apply_lease
renew-missing codec u raft now name owner token requested f t here back all e h =
    let cmd = renew_command now name owner token requested in
    elim (Result-cases (codec.encode cmd)) [
      | inl (x, p) ↦ rw (apply_lease_renew, propose, p) e
      | inr (bytes, p) ↦
          let (local, s, _) = committed codec u raft cmd f bytes here back all p in
          ap (λ y. y.leases) s
          ∙ rw e (
              ap some (
                renew_cases u name t (λ r. r.0 ≡ t) owner token (deadline_of cmd) (ttl_of cmd)
                  (λ x v. refl) (λ v l. refl) (λ rec v l m. refl)
                  (λ rec v l m. absurd (ground arith))))
    ]

-- A grant of a lease that nobody has succeeds, if the name is legal and the table has room.
pub grant-missing :
    (codec : Codec) (u : Unicode) (raft : Raft) (now : Time) (name owner : String)
    (requested : Duration) (f : Fsm) (t : Leases.Table) (bytes : List ℕ)
    → AppliesHere codec u raft
    → RoundTrips codec
    → Commits raft
    → codec.encode (grant_command now name owner requested) ≡ ok bytes
    → f.leases ≡ some t
    → Leases.valid_name u name ≡ none
    → owner ≢ ""
    → lookup name t.leases ≡ none
    → length t.leases < Leases.max_leases
    → (token : ℕ) × ((apply_lease_grant codec raft now name owner requested f).2 ≡ ok (token, true))
unfolding apply_lease_grant apply_command apply_to on_leases apply_lease lock_result
grant-missing codec u raft now name owner requested f t bytes here back all p e v n h room =
    let cmd = grant_command now name owner requested in
    let (local, _, x) = committed codec u raft cmd f bytes here back all p in
    let (token, y) =
      grant_cases u name t (λ r. (token : ℕ) × (r.2 ≡ ok (token, true))) local owner
        (deadline_of cmd) (ttl_of cmd) (λ z b. absurd (ground arith)) (λ b c. absurd (n c))
        (λ rec b c l m. absurd (ground arith)) (λ rec b c l m. absurd (ground arith))
        (λ b c l m. absurd (omega (arith, m, room))) (λ b c l m. (_, refl)) in
    let (_, w) =
      apply-grant u local now name owner requested f t (deadline_of cmd) (ttl_of cmd) e refl refl in
    (
      token,
      ap granted
          (x ∙ ap (λ z. lock_result (ok z)) (w ∙ ap (λ z. answer_grant z cmd.deadline_unix_ms) y)),
    )
