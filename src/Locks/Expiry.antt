-- ===== src/Locks/Expiry.antt =====
-- Due of locks/table.go and RunExpirer of locks/expirer.go. Child: Loop, the inner loop.
mod Loop
use clusdr.Prelude.{
  ℕ, Bool, ◌⊎◌, if◌then◌else◌, true, false, ◌≡◌, refl, ◌≢◌, ◌↔◌, none, some, List, [], ◌∷◌, String,
  arith, lookup, Distinct, str_eq_iff, All, All-lookup, All-values, All-values_of, All-keep,
  All-keep_of, All-sort_by, All-sort_by_of, Bool-cases, inl, inr, Map, sym, ap, subst, ◌∙◌,
  All-of-lookup, lookup-delete, Distinct-delete,
}
use clusdr.Names.{Unicode}
use clusdr.Clock.{Time}
use clusdr.Locks.Apart.{Names, run_apart}
use clusdr.Locks.{
  LockRecord, Table, Call, run, expire, drop_lock, valid_name, is_due, due, expire_all,
  expirer_tick,
}
use clusdr.Locks.Invariant.{IsWellFormed, Entry}
use clusdr.Locks.Cases.{expire_cases}
use clusdr.Locks.Expiry.Loop.{Spared, expire_all-removes, expire_all_keeps}

-- What holds of every due record holds of every element of Due, and the other way round.
All-due_of :
    (P : LockRecord → Type 0) (now : Time) (t : Table)
    → All (λ e. is_due now e.1 ≡ true → P e.1) t.locks
    → All P (due now t)
unfolding due
All-due_of P now t a =
    All-sort_by_of (λ r. r.name) P _
      (All-keep_of P (is_due now) _ (All-values_of (λ r. is_due now r ≡ true → P r) t.locks a))

All-due :
    (P : LockRecord → Type 0) (now : Time) (t : Table)
    → All P (due now t)
    → All (λ e. is_due now e.1 ≡ true → P e.1) t.locks
unfolding due
All-due P now t a =
    All-values (λ r. is_due now r ≡ true → P r) t.locks
      (All-keep P (is_due now) _ (All-sort_by (λ r. r.name) P _ a))

due_valid :
    (u : Unicode) (now : Time) (m : Map LockRecord)
    → All (Entry u) m
    → All (λ e. is_due now e.1 ≡ true → valid_name u e.1.name ≡ none) m
due_valid u now [] a = tt
due_valid u now (e ∷ m) a = (λ _. rw (a.0.0) (a.0.1), due_valid u now m a.1)

module _ (u : Unicode) (applies : String → Bool) (others : String → List Call) (now : Time)
    (t : Table) (k : String) (rec : LockRecord) (n : IsWellFormed u t)
    (apart : (name : String) → All (λ c. ¬ Names c k) (others name)) where
  tick_removes :
      lookup k (expire_all u applies others (due now t) t).locks ≡ some rec
      → (lookup k t.locks ≡ some rec) × ((is_due now rec ≡ false) ⊎ (applies k ≡ false))
  tick_removes h = (found.0, left)
    where
      found : (lookup k t.locks ≡ some rec) × All (Spared applies k rec) (due now t)
      found =
          expire_all-removes u applies others k rec apart (due now t) t n.distinct
            (All-due_of (λ r. valid_name u r.name ≡ none) now t (due_valid u now t.locks n.named)) h

      under : is_due now rec ≡ true → Spared applies k rec rec
      under =
          All-lookup (λ e. is_due now e.1 ≡ true → Spared applies k rec e.1) k {v = rec} t.locks
            (All-due (Spared applies k rec) now t found.1) found.0

      own_name : rec.name ≡ k
      own_name = (All-lookup (Entry u) k {v = rec} t.locks n.named found.0).0

      left : (is_due now rec ≡ false) ⊎ (applies k ≡ false)
      left = elim (Bool-cases (is_due now rec)) [
        | inl b ↦ elim (under b own_name) [
          | inl ne ↦ absurd (ne refl)
          | inr a ↦ inr (ap applies (sym own_name) ∙ a)
        ]
        | inr b ↦ inl b
      ]

  tick_keeps :
      lookup k t.locks ≡ some rec
      → (is_due now rec ≡ false) ⊎ (applies k ≡ false)
      → lookup k (expire_all u applies others (due now t) t).locks ≡ some rec
  tick_keeps l b =
      expire_all_keeps u applies others k rec apart (due now t) t n.distinct
        (All-due_of (λ r. (r.name ≡ k) → applies r.name ≡ false) now t
          (All-of-lookup (λ e. is_due now e.1 ≡ true → (e.1.name ≡ k) → applies e.1.name ≡ false)
            t.locks n.distinct spared))
        l
    where
      spared :
          (j : String) (r : LockRecord)
          → lookup j t.locks ≡ some r
          → is_due now r ≡ true
          → (r.name ≡ k)
          → applies r.name ≡ false
      spared j r h due_r e = elim b [
        | inr a ↦ ap applies e ∙ a
        | inl not_due ↦
            let named : r.name ≡ j = (All-lookup (Entry u) j {v = r} t.locks n.named h).0 in
            let both : some r ≡ some rec =
              sym h ∙ subst (λ i. lookup i t.locks ≡ some rec) (sym e ∙ named) l in
            let same : r ≡ rec = cc in absurd (ground (arith, ap (is_due now) same))
      ]

-- One tick of the expirer on the leader, in a well-formed table, while nobody else calls the table about the name `k`:
-- a record is held under `k` afterwards exactly if it was held before, and it was not due or the entry for `k`
-- was not applied. What others do about other names in between, and which other entries are applied, changes
-- nothing about that. On a node that is not the leader the tick changes nothing.
pub expirer_tick_iff :
    (u : Unicode) (applies : String → Bool) (others : String → List Call) (now : Time) (t : Table)
    (k : String) (rec : LockRecord)
    → IsWellFormed u t
    → ((name : String) → All (λ c. ¬ Names c k) (others name))
    → ((lookup k (expirer_tick u applies others true now t).locks ≡ some rec)
        ↔ ((lookup k t.locks ≡ some rec) × ((is_due now rec ≡ false) ⊎ (applies k ≡ false))))
      × (expirer_tick u applies others false now t ≡ t)
unfolding expirer_tick
expirer_tick_iff u applies others now t k rec n apart = (
  (
    tick_removes u applies others now t k rec n apart,
    λ h. tick_keeps u applies others now t k rec n apart h.0 h.1,
  ),
  refl,
)
