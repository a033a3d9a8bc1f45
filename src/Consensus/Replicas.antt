-- ===== src/Consensus/Replicas.antt =====
-- Two replicas that apply one log: what a command answers, and the state that it leads to, do not
-- depend on the local clock, on who is waiting or on whom the node takes for the leader.
mod Locks
mod Leases
mod Members
use clusdr.Prelude.{
  ℕ, ◌≡◌, refl, sym, ◌∙◌, ap, none, some, Option, List, [], ◌∷◌, arith, map, Option-cases, inl, inr,
}
use mathlib.Core.Option
use clusdr.Names.{Unicode}
use clusdr.Clock.{Time}
use clusdr.Locks as LockTable
use clusdr.Leases as LeaseTable
use clusdr.Membership.{Engine, normalize_role}
use clusdr.Consensus.Command.{
  Command, CommandKind, Codec, add_member, remove_member, drop_member, lock_acquire, lock_release,
  lock_renew, lock_expire, lease_grant, lease_renew, lease_revoke, lease_expire, unknown,
  deadline_of, ttl_of,
}
use clusdr.Consensus.Fsm.{
  Fsm, Response, LogEntry, internal, command, Target, to_members, to_locks, to_leases, to_nobody,
  target, apply_lock, apply_lease, apply_member, on_locks, on_leases, apply_to, apply_command,
  apply, replay, answer_grant, answer_done, answer_join, answered,
}
use Locks.{plain_locks, acquire-plain, release-plain, renew-plain, expire-plain}
use Leases.{plain_leases, grant-plain, revoke-plain}
use Leases.{renew-plain as lease_renew-plain, expire-plain as lease_expire-plain}
use Members.{plain_engine, join_as-plain, mark_dead-plain, leave-plain}

-- The replicated state: the FSM without the parts that are local to a node.
abbrev pub plain : Fsm → Fsm
plain f = record {
  members = plain_engine f.members;
  locks = Option.map plain_locks f.locks;
  leases = Option.map plain_leases f.leases;
}

apply_lock-plain :
    (u : Unicode) (now : Time) (cmd : Command) (t : LockTable.Table) (k : CommandKind)
    → let r = apply_lock u now cmd k t in
      let p = apply_lock u 0 cmd k (plain_locks t) in (p.0 ≡ plain_locks r.0) × (p.2 ≡ r.2)
unfolding apply_lock
apply_lock-plain u now cmd t lock_acquire =
    ground (arith, acquire-plain u now cmd.name cmd.id (deadline_of cmd) (ttl_of cmd) t)
apply_lock-plain u now cmd t lock_release =
    ground (arith, release-plain u cmd.name cmd.id cmd.token t)
apply_lock-plain u now cmd t lock_renew =
    ground (arith, renew-plain u cmd.name cmd.id cmd.token (deadline_of cmd) (ttl_of cmd) t)
apply_lock-plain u now cmd t lock_expire = ground (arith, expire-plain u cmd.name cmd.token t)
apply_lock-plain u now cmd t _ = (refl, refl)

apply_lease-plain :
    (u : Unicode) (now : Time) (cmd : Command) (t : LeaseTable.Table) (k : CommandKind)
    → let r = apply_lease u now cmd k t in
      let p = apply_lease u 0 cmd k (plain_leases t) in (p.0 ≡ plain_leases r.0) × (p.2 ≡ r.2)
unfolding apply_lease
apply_lease-plain u now cmd t lease_grant =
    ground (arith, grant-plain u now cmd.name cmd.id (deadline_of cmd) (ttl_of cmd) t)
apply_lease-plain u now cmd t lease_revoke =
    ground (arith, revoke-plain u cmd.name cmd.id cmd.token t)
apply_lease-plain u now cmd t lease_renew =
    ground (arith, lease_renew-plain u cmd.name cmd.id cmd.token (deadline_of cmd) (ttl_of cmd) t)
apply_lease-plain u now cmd t lease_expire =
    ground (arith, lease_expire-plain u cmd.name cmd.token t)
apply_lease-plain u now cmd t _ = (refl, refl)

apply_member-plain :
    (now : Time) (cmd : Command) (e : Engine) (k : CommandKind)
    → let r = apply_member now cmd k e in
      let p = apply_member 0 cmd k (plain_engine e) in (p.0 ≡ plain_engine r.0) × (p.2 ≡ r.2)
unfolding apply_member
apply_member-plain now cmd e add_member =
    ground (arith, join_as-plain now cmd.id cmd.address (normalize_role cmd.role) e)
apply_member-plain now cmd e remove_member = ground (arith, mark_dead-plain cmd.id e)
apply_member-plain now cmd e drop_member = ground (arith, leave-plain cmd.id e)
apply_member-plain now cmd e _ = (refl, refl)

on_locks-plain :
    (u : Unicode) (now : Time) (cmd : Command) (o : Option LockTable.Table)
    → let r = on_locks u now cmd o in
      let p = on_locks u 0 cmd (Option.map plain_locks o) in
      (p.0 ≡ Option.map plain_locks r.0) × (p.2 ≡ r.2)
unfolding on_locks
on_locks-plain u now cmd none = (refl, refl)
on_locks-plain u now cmd (some t) = ground (arith, apply_lock-plain u now cmd t cmd.kind)

on_leases-plain :
    (u : Unicode) (now : Time) (cmd : Command) (o : Option LeaseTable.Table)
    → let r = on_leases u now cmd o in
      let p = on_leases u 0 cmd (Option.map plain_leases o) in
      (p.0 ≡ Option.map plain_leases r.0) × (p.2 ≡ r.2)
unfolding on_leases
on_leases-plain u now cmd none = (refl, refl)
on_leases-plain u now cmd (some t) = ground (arith, apply_lease-plain u now cmd t cmd.kind)

apply_to-plain :
    (u : Unicode) (now : Time) (cmd : Command) (f : Fsm) (k : Target)
    → let r = apply_to u now cmd k f in
      let p = apply_to u 0 cmd k (plain f) in (p.0 ≡ plain r.0) × (p.2 ≡ r.2)
unfolding apply_to
apply_to-plain u now cmd f to_members =
    let (s, r) = apply_member-plain now cmd f.members cmd.kind in
    (λ i. record (plain f) { members = s i }, r)
apply_to-plain u now cmd f to_locks =
    let (s, r) = on_locks-plain u now cmd f.locks in (λ i. record (plain f) { locks = s i }, r)
apply_to-plain u now cmd f to_leases =
    let (s, r) = on_leases-plain u now cmd f.leases in (λ i. record (plain f) { leases = s i }, r)
apply_to-plain u now cmd f to_nobody = (refl, refl)

apply-plain :
    (codec : Codec) (u : Unicode) (now : Time) (entry : LogEntry) (f : Fsm)
    → let r = apply codec u now entry f in
      let p = apply codec u 0 entry (plain f) in (p.0 ≡ plain r.0) × (p.2 ≡ r.2)
unfolding apply apply_command
apply-plain codec u now internal f = (refl, refl)
apply-plain codec u now (command bytes) f = elim (Option-cases (codec.decode bytes)) [
  | inl e ↦ rw (e, apply) (refl, refl)
  | inr (cmd, e) ↦ rw (e, apply) (apply_to-plain u now cmd f (target cmd.kind))
]

-- What a log answers, entry by entry.
unfoldable pub answers : Codec → Unicode → List (Time × LogEntry) → Fsm → List Response
answers codec u [] f = []
answers codec u ((now, entry) ∷ log) f =
    let r = apply codec u now entry f in r.2 ∷ answers codec u log r.0

-- A log of entries, each with the local times at which the first and the second node apply it.
abbrev pub at_first : Time × Time × LogEntry → Time × LogEntry
at_first e = (e.0, e.2)

abbrev pub at_second : Time × Time × LogEntry → Time × LogEntry
at_second e = (e.1, e.2)

agree_step :
    (codec : Codec) (u : Unicode) (s t : Time) (entry : LogEntry) (f g : Fsm)
    → plain f ≡ plain g
    → (plain (apply codec u s entry f).0 ≡ plain (apply codec u t entry g).0)
      × ((apply codec u s entry f).2 ≡ (apply codec u t entry g).2)
agree_step codec u s t entry f g e =
    let (p, a) = apply-plain codec u s entry f in
    let (q, b) = apply-plain codec u t entry g in
    (
      sym p ∙ (ap (λ h. (apply codec u 0 entry h).0) e ∙ q),
      sym a ∙ (ap (λ h. (apply codec u 0 entry h).2) e ∙ b),
    )

-- Nodes whose replicated states agree still agree after the same log, and answer every entry alike,
-- whatever their local clocks show and whatever is local to them: members, their addresses, statuses and
-- roles, who has left, every lock and lease with its holder, token, deadline and lifetime, and both
-- token counters are the same.
pub replicas_agree :
    (codec : Codec) (u : Unicode) (log : List (Time × Time × LogEntry)) (f g : Fsm)
    → plain f ≡ plain g
    → (plain (replay codec u (map at_first log) f) ≡ plain (replay codec u (map at_second log) g))
      × (answers codec u (map at_first log) f ≡ answers codec u (map at_second log) g)
unfolding replay answers
replicas_agree codec u [] f g e = (e, refl)
replicas_agree codec u ((s, t, entry) ∷ log) f g e =
    let (p, a) = agree_step codec u s t entry f g e in
    let (q, b) =
      replicas_agree codec u log (apply codec u s entry f).0 (apply codec u t entry g).0 p in
    (q, λ i. a i ∷ b i)
