-- ===== src/Locks/Snapshots.antt =====
-- SnapshotCopy and Restore of locks/table.go.
use clusdr.Prelude.{
  ◌≡◌, refl, List, [], ◌∷◌, String, lookup, All, Map, Perm, lookup-insert_all_perm, String-set,
}
use clusdr.Names.{Unicode}
use clusdr.Locks.{LockRecord, Table, snapshot_copy, restore}
use clusdr.Locks.Invariant.{IsWellFormed, Entry}

own_names : (u : Unicode) (m : Map LockRecord) → All (Entry u) m → All (λ e. e.1.name ≡ e.0) m
own_names u [] a = tt
own_names u (e ∷ m) a = (a.0.0, own_names u m a.1)

LockRecord-set : IsSet LockRecord
LockRecord-set = hlevel String-set

-- Restoring a snapshot of a well-formed table into any table, with the records in whatever order they
-- were stored, gives every lookup and the token counter of the table that was copied; what the restored
-- table held before is gone, and every waiter is woken.
pub restore-snapshot_copy :
    (u : Unicode) (t old : Table) (recs : List LockRecord) (k : String)
    → IsWellFormed u t
    → Perm (snapshot_copy t).locks recs
    → let t' = restore (record { locks = recs; next = (snapshot_copy t).next }) old in
      (lookup k t'.locks ≡ lookup k t.locks) × (t'.next ≡ t.next) × (t'.waiting ≡ [])
unfolding snapshot_copy restore
restore-snapshot_copy u t old recs k w p = (
  lookup-insert_all_perm (λ r. r.name) t.locks w.distinct recs k LockRecord-set
      (own_names u t.locks w.named) p,
  refl,
  refl,
)
