-- ===== src/Consensus/Safety.antt =====
-- The FSM as a whole: what every applied log keeps of the member list and of both tables.
use clusdr.Prelude.{
  ℕ, suc, ◌+◌, ◌<◌, ◌^◌, ◌≡◌, none, some, Option, List, [], ◌∷◌, arith, length, subst, Option-cases,
  inl, inr,
}
use native.Mathlib.Nat.{add-zero}
use clusdr.Names.{Unicode}
use clusdr.Clock.{Time}
use clusdr.Grants.{IsFenced, Move-IsFenced, Move-last-le}
use clusdr.Membership.{Engine, join_as, mark_dead, leave}
use clusdr.Membership as Membership
use clusdr.Membership.Invariant.{IsConsistent, step-IsConsistent}
use clusdr.Locks
use clusdr.Leases
use clusdr.Locks.Fencing as LockFencing
use clusdr.Leases.Fencing as LeaseFencing
use clusdr.Locks.Invariant as LockInvariant
use clusdr.Leases.Invariant as LeaseInvariant
use clusdr.Consensus.Command.{
  Command, CommandKind, Codec, add_member, remove_member, drop_member, lock_acquire, lock_release,
  lock_renew, lock_expire, lease_grant, lease_renew, lease_revoke, lease_expire, deadline_of,
  ttl_of,
}
use clusdr.Consensus.Fsm.{
  Fsm, LogEntry, internal, command, Target, to_members, to_locks, to_leases, to_nobody, target,
  apply_lock, apply_lease, apply_member, on_locks, on_leases, apply_to, apply_command, apply,
  replay,
}

-- What a command does to the lock table is nothing, or one call.
lock_call {ℓ} :
    (P : Locks.Table → Type ℓ) (u : Unicode) (now : Time) (cmd : Command) (t : Locks.Table)
    → P t
    → ((c : Locks.Call) → P (Locks.step u t c))
    → (k : CommandKind) → P (apply_lock u now cmd k t).0
unfolding apply_lock Locks.step
lock_call P u now cmd t p q lock_acquire =
    q (Locks.acquires now cmd.name cmd.id (deadline_of cmd) (ttl_of cmd))
lock_call P u now cmd t p q lock_release = q (Locks.releases cmd.name cmd.id cmd.token)
lock_call P u now cmd t p q lock_renew =
    q (Locks.renews cmd.name cmd.id cmd.token (deadline_of cmd) (ttl_of cmd))
lock_call P u now cmd t p q lock_expire = q (Locks.expires cmd.name cmd.token)
lock_call P u now cmd t p q _ = p

lease_call {ℓ} :
    (P : Leases.Table → Type ℓ) (u : Unicode) (now : Time) (cmd : Command) (t : Leases.Table)
    → P t
    → ((c : Leases.Call) → P (Leases.step u t c).0)
    → (k : CommandKind) → P (apply_lease u now cmd k t).0
unfolding apply_lease Leases.step
lease_call P u now cmd t p q lease_grant =
    q (Leases.grants now cmd.name cmd.id (deadline_of cmd) (ttl_of cmd))
lease_call P u now cmd t p q lease_revoke = q (Leases.revokes cmd.name cmd.id cmd.token)
lease_call P u now cmd t p q lease_renew =
    q (Leases.renews cmd.name cmd.id cmd.token (deadline_of cmd) (ttl_of cmd))
lease_call P u now cmd t p q lease_expire = q (Leases.expires cmd.name cmd.token)
lease_call P u now cmd t p q _ = p

member_call {ℓ} :
    (P : Engine → Type ℓ) (now : Time) (cmd : Command) (e : Engine)
    → P e
    → ((c : Membership.Call) → P (Membership.step e c).0)
    → (k : CommandKind) → P (apply_member now cmd k e).0
unfolding apply_member Membership.step
member_call P now cmd e p q add_member =
    q (Membership.joins now cmd.id cmd.address (Membership.normalize_role cmd.role))
member_call P now cmd e p q remove_member = q (Membership.marks_dead cmd.id)
member_call P now cmd e p q drop_member = q (Membership.leaves cmd.id)
member_call P now cmd e p q _ = p

-- What holds of a table, where there is one.
abbrev pub IfAny {ℓ} : {A : Type 0} → (A → Type ℓ) → Option A → Type ℓ
IfAny P none = Unit
IfAny P (some a) = P a

abbrev pub LocksSafe : Unicode → Locks.Table → Type 0
LocksSafe u t = LockInvariant.IsWellFormed u t × IsFenced LockFencing.token_of (LockFencing.view t)

abbrev pub LeasesSafe : Unicode → Leases.Table → Type 0
LeasesSafe u t =
    LeaseInvariant.IsWellFormed u t × IsFenced LeaseFencing.token_of (LeaseFencing.view t)

pub record IsSafe (u : Unicode) (f : Fsm) : Type 0 where
  pub members : IsConsistent f.members
  pub locks : IfAny (LocksSafe u) f.locks
  pub leases : IfAny (LeasesSafe u) f.leases

-- Both token counters are below a bound.
abbrev pub CountersBelow : ℕ → Fsm → Type 0
CountersBelow n f = IfAny (λ t. t.next < n) f.locks × IfAny (λ t. t.next < n) f.leases

lock_step-Safe :
    (u : Unicode) (t : Locks.Table) (n : ℕ) (c : Locks.Call)
    → n < 2 ^ 64
    → t.next < n
    → LocksSafe u t
    → LocksSafe u (Locks.step u t c) × ((Locks.step u t c).next < n + 1)
lock_step-Safe u t n c b h s =
    let m = LockFencing.step-Move u t c (omega arith) in
    (
      (LockInvariant.step-IsWellFormed u t c s.0, Move-IsFenced LockFencing.token_of m s.1),
      omega (arith, Move-last-le LockFencing.token_of m),
    )

lease_step-Safe :
    (u : Unicode) (t : Leases.Table) (n : ℕ) (c : Leases.Call)
    → n < 2 ^ 64
    → t.next < n
    → LeasesSafe u t
    → LeasesSafe u (Leases.step u t c).0 × ((Leases.step u t c).0.next < n + 1)
lease_step-Safe u t n c b h s =
    let m = LeaseFencing.call-Move u t c (omega arith) in
    (
      (LeaseInvariant.step-IsWellFormed u t c s.0, Move-IsFenced LeaseFencing.token_of m s.1),
      omega (arith, Move-last-le LeaseFencing.token_of m),
    )

below_more :
    {A : Type 0} (next : A → ℕ) (n : ℕ) (o : Option A)
    → IfAny (λ t. next t < n) o
    → IfAny (λ t. next t < n + 1) o
below_more next n none h = tt
below_more next n (some t) h = omega arith

abbrev LocksBelow : Unicode → ℕ → Option Locks.Table → Type 0
LocksBelow u n o = IfAny (LocksSafe u) o × IfAny (λ t. t.next < n) o

abbrev LeasesBelow : Unicode → ℕ → Option Leases.Table → Type 0
LeasesBelow u n o = IfAny (LeasesSafe u) o × IfAny (λ t. t.next < n) o

on_locks-Safe :
    (u : Unicode) (now : Time) (cmd : Command) (n : ℕ) (o : Option Locks.Table)
    → n < 2 ^ 64
    → LocksBelow u n o
    → LocksBelow u (n + 1) (on_locks u now cmd o).0
unfolding on_locks
on_locks-Safe u now cmd n none b p = (tt, tt)
on_locks-Safe u now cmd n (some t) b p =
    lock_call (λ t'. LocksSafe u t' × (t'.next < n + 1)) u now cmd t (p.0, omega arith)
      (λ c. lock_step-Safe u t n c b p.1 p.0) cmd.kind

on_leases-Safe :
    (u : Unicode) (now : Time) (cmd : Command) (n : ℕ) (o : Option Leases.Table)
    → n < 2 ^ 64
    → LeasesBelow u n o
    → LeasesBelow u (n + 1) (on_leases u now cmd o).0
unfolding on_leases
on_leases-Safe u now cmd n none b p = (tt, tt)
on_leases-Safe u now cmd n (some t) b p =
    lease_call (λ t'. LeasesSafe u t' × (t'.next < n + 1)) u now cmd t (p.0, omega arith)
      (λ c. lease_step-Safe u t n c b p.1 p.0) cmd.kind

-- The FSM is safe and its counters are below a bound.
abbrev Below : Unicode → ℕ → Fsm → Type 0
Below u n f = IsSafe u f × CountersBelow n f

weaken : (u : Unicode) (n : ℕ) (f : Fsm) → Below u n f → Below u (n + 1) f
weaken u n f (s, b) =
    (s, (below_more (λ t. t.next) n f.locks b.0, below_more (λ t. t.next) n f.leases b.1))

apply_to-Below :
    (u : Unicode) (now : Time) (cmd : Command) (n : ℕ) (f : Fsm) (k : Target)
    → n < 2 ^ 64
    → Below u n f
    → Below u (n + 1) (apply_to u now cmd k f).0
unfolding apply_to
apply_to-Below u now cmd n f to_members b p =
    let (s, c) = weaken u n f p in
    (
      record {
        members =
            member_call IsConsistent now cmd f.members s.members
              (λ x. step-IsConsistent f.members x s.members) cmd.kind;
        locks = s.locks;
        leases = s.leases;
      },
      c,
    )
apply_to-Below u now cmd n f to_locks b p =
    let (s, c) = weaken u n f p in
    let (safe, below) = on_locks-Safe u now cmd n f.locks b (p.0.locks, p.1.0) in
    (record { members = s.members; locks = safe; leases = s.leases }, (below, c.1))
apply_to-Below u now cmd n f to_leases b p =
    let (s, c) = weaken u n f p in
    let (safe, below) = on_leases-Safe u now cmd n f.leases b (p.0.leases, p.1.1) in
    (record { members = s.members; locks = s.locks; leases = safe }, (c.0, below))
apply_to-Below u now cmd n f to_nobody b p = weaken u n f p

apply-Below :
    (codec : Codec) (u : Unicode) (now : Time) (entry : LogEntry) (n : ℕ) (f : Fsm)
    → n < 2 ^ 64
    → Below u n f
    → Below u (n + 1) (apply codec u now entry f).0
unfolding apply apply_command
apply-Below codec u now internal n f b p = weaken u n f p
apply-Below codec u now (command bytes) n f b p = elim (Option-cases (codec.decode bytes)) [
  | inl e ↦ rw (e, apply) (weaken u n f p)
  | inr (cmd, e) ↦ rw (e, apply) (apply_to-Below u now cmd n f (target cmd.kind) b p)
]

-- Any applied log, whatever its entries and the local clock, keeps the FSM safe: the member list is
-- consistent, both tables are well formed, and their tokens are fenced, as long as the counters stay
-- below 2^64.
pub replay-IsSafe :
    (codec : Codec) (u : Unicode) (log : List (Time × LogEntry)) (n : ℕ) (f : Fsm)
    → n + length log < 2 ^ 64
    → IsSafe u f
    → CountersBelow n f
    → IsSafe u (replay codec u log f) × CountersBelow (n + length log) (replay codec u log f)
unfolding replay
replay-IsSafe codec u [] n f b s c = rw (add-zero n) (s, c)
replay-IsSafe codec u ((now, entry) ∷ log) n f b s c =
    let (s', c') = apply-Below codec u now entry n f (omega arith) (s, c) in
    let shift : n + 1 + length log ≡ n + suc (length log) = omega arith in
    subst
      (λ k.
        IsSafe u (replay codec u log (apply codec u now entry f).0)
        × CountersBelow k (replay codec u log (apply codec u now entry f).0))
      shift (replay-IsSafe codec u log (n + 1) (apply codec u now entry f).0 (omega arith) s' c')
