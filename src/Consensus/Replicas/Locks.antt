-- ===== src/Consensus/Replicas/Locks.antt =====
-- The lock table without what is local to a node (fsm.go applies one log on every node).
use clusdr.Prelude.{
  ℕ, ◌≡◌, [], String, arith, lookup, Option-cases, inl, inr, true, over, lookup-over, over-insert,
  over-delete, length-over,
}
use clusdr.Names.{Unicode}
use clusdr.Clock.{Time, Duration}
use clusdr.Locks as Locks

-- A lock table without what is local to a node: the time of the grant, the waiters and the hook.
abbrev pub plain_lock : Locks.LockRecord → Locks.LockRecord
plain_lock rec = record rec { acquired_at = 0 }

abbrev pub plain_locks : Locks.Table → Locks.Table
plain_locks t = record {
  waiting = [];
  locks = over plain_lock t.locks;
  next = t.next;
  emits = true;
}

pub acquire-plain :
    (u : Unicode) (now : Time) (name holder : String) (deadline : Time) (ttl : Duration)
    (t : Locks.Table)
    → let r = Locks.acquire u now name holder deadline ttl t in
      Locks.acquire u 0 name holder deadline ttl (plain_locks t) ≡ (plain_locks r.0, r.1)
unfolding Locks.acquire Locks.set_deadline Locks.add_lock
acquire-plain u now name holder deadline ttl t = elim (Option-cases (lookup name t.locks)) [
  | inl l ↦ ground (
    arith,
    lookup-over plain_lock name t.locks,
    length-over plain_lock t.locks,
    over-insert plain_lock name (Locks.new_lock now name holder deadline ttl t) t.locks,
  )
  | inr (rec, l) ↦ ground (
    arith,
    lookup-over plain_lock name t.locks,
    over-insert plain_lock name (record rec { deadline = deadline; ttl = ttl }) t.locks,
  )
]

pub release-plain :
    (u : Unicode) (name holder : String) (token : ℕ) (t : Locks.Table)
    → let r = Locks.release u name holder token t in
      Locks.release u name holder token (plain_locks t) ≡ (plain_locks r.0, r.1)
unfolding Locks.release Locks.drop_lock
release-plain u name holder token t =
    ground (arith, lookup-over plain_lock name t.locks, over-delete plain_lock name t.locks)

pub renew-plain :
    (u : Unicode) (name holder : String) (token : ℕ) (deadline : Time) (ttl : Duration)
    (t : Locks.Table)
    → let r = Locks.renew u name holder token deadline ttl t in
      Locks.renew u name holder token deadline ttl (plain_locks t) ≡ (plain_locks r.0, r.1)
unfolding Locks.renew Locks.set_deadline
renew-plain u name holder token deadline ttl t = elim (Option-cases (lookup name t.locks)) [
  | inl l ↦ ground (arith, lookup-over plain_lock name t.locks)
  | inr (rec, l) ↦ ground (
    arith,
    lookup-over plain_lock name t.locks,
    over-insert plain_lock name (record rec { deadline = deadline; ttl = ttl }) t.locks,
  )
]

pub expire-plain :
    (u : Unicode) (name : String) (token : ℕ) (t : Locks.Table)
    → let r = Locks.expire u name token t in
      let p = Locks.expire u name token (plain_locks t) in (p.0 ≡ plain_locks r.0) × (p.2 ≡ r.2)
unfolding Locks.expire Locks.drop_lock
expire-plain u name token t =
    ground (arith, lookup-over plain_lock name t.locks, over-delete plain_lock name t.locks)
