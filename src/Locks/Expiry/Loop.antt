-- ===== src/Locks/Expiry/Loop.antt =====
-- Expire of locks/table.go, and the inner loop of RunExpirer of locks/expirer.go.
use clusdr.Prelude.{
  ℕ, Bool, ◌⊎◌, if◌then◌else◌, false, ◌≡◌, refl, ◌≢◌, none, some, List, [], ◌∷◌, String, arith,
  lookup, Distinct, str_eq_iff, All, Bool-cases, inl, inr, sym, ◌∙◌, lookup-delete, Distinct-delete,
}
use clusdr.Names.{Unicode}
use clusdr.Locks.Apart.{Names, run_apart}
use clusdr.Locks.{LockRecord, Table, Call, run, expire, drop_lock, valid_name, expire_all}
use clusdr.Locks.Cases.{expire_cases}

-- What one Expire with a legal name leaves.
expire-removes :
    (u : Unicode) (t : Table) (name k : String) (token : ℕ) (rec : LockRecord)
    → Distinct t.locks
    → valid_name u name ≡ none
    → lookup k (expire u name token t).0.locks ≡ some rec
    → (lookup k t.locks ≡ some rec) × ((name ≡ k) → rec.token ≢ token)
unfolding drop_lock
expire-removes u t name k token rec d valid =
    expire_cases u name t
      (λ r.
        lookup k r.0.locks ≡ some rec
        → (lookup k t.locks ≡ some rec) × ((name ≡ k) → rec.token ≢ token))
      token (λ e v h. absurd (ground arith)) (λ v l h. (h, λ q. absurd (ground arith)))
      (λ rec' v l ne h. (h, λ q e. ne (ground arith)))
      (λ rec' v l eq h. ground (arith, str_eq_iff name k, lookup-delete name k t.locks d))

expire_keeps :
    (u : Unicode) (t : Table) (name k : String) (token : ℕ) (rec : LockRecord)
    → Distinct t.locks
    → name ≢ k
    → lookup k t.locks ≡ some rec
    → lookup k (expire u name token t).0.locks ≡ some rec
unfolding drop_lock
expire_keeps u t name k token rec d ne h =
    expire_cases u name t (λ r. lookup k r.0.locks ≡ some rec) token (λ e v. h) (λ v l. h)
      (λ _ v l _. h)
      (λ rec' v l eq. ground (arith, str_eq_iff name k, lookup-delete name k t.locks d))

expire-Distinct :
    (u : Unicode) (t : Table) (name : String) (token : ℕ)
    → Distinct t.locks
    → Distinct (expire u name token t).0.locks
unfolding drop_lock
expire-Distinct u t name token d =
    expire_cases u name t (λ r. Distinct r.0.locks) token (λ _ _. d) (λ _ _. d) (λ _ _ _ _. d)
      (λ _ _ _ _. Distinct-delete name t.locks d)

-- Why a record is left by the expiry for a due record.
abbrev pub Spared : (String → Bool) → String → LockRecord → LockRecord → Type 0
Spared applies k rec r = (r.name ≡ k) → (rec.token ≢ r.token) ⊎ (applies r.name ≡ false)

module _ (u : Unicode) (applies : String → Bool) (others : String → List Call) (k : String)
    (rec : LockRecord) (apart : (name : String) → All (λ c. ¬ Names c k) (others name)) where
  after : LockRecord → Table → Table
  after r t =
      let t' = run u t (others r.name) in
      if applies r.name then (expire u r.name r.token t').0 else t'

  after-Distinct : (r : LockRecord) (t : Table) → Distinct t.locks → Distinct (after r t).locks
  unfolding after
  after-Distinct r t d = elim (Bool-cases (applies r.name)) [
    | inl b ↦
        rw b
          (expire-Distinct u _ r.name r.token (run_apart u t (others r.name) k d (apart r.name)).1)
    | inr b ↦ rw b (run_apart u t (others r.name) k d (apart r.name)).1
  ]

  after-removes :
      (r : LockRecord) (t : Table)
      → Distinct t.locks
      → valid_name u r.name ≡ none
      → lookup k (after r t).locks ≡ some rec
      → (lookup k t.locks ≡ some rec) × Spared applies k rec r
  unfolding after
  after-removes r t d v =
      let (same, d') = run_apart u t (others r.name) k d (apart r.name) in
      elim (Bool-cases (applies r.name)) [
        | inl b ↦ rw b (λ h.
            let (l, n) = expire-removes u _ r.name k r.token rec d' v h in
            (sym same ∙ l, λ e. inl (n e)))
        | inr b ↦ rw b (λ h. (sym same ∙ h, λ e. inr refl))
      ]

  after_keeps :
      (r : LockRecord) (t : Table)
      → Distinct t.locks
      → (r.name ≡ k → applies r.name ≡ false)
      → lookup k t.locks ≡ some rec
      → lookup k (after r t).locks ≡ some rec
  unfolding after
  after_keeps r t d n h =
      let (same, d') = run_apart u t (others r.name) k d (apart r.name) in
      elim (Bool-cases (applies r.name)) [
        | inl b ↦ rw b (
            expire_keeps u _ r.name k r.token rec d' (λ e. absurd (let q = n e in ground arith))
              (same ∙ h))
        | inr b ↦ rw b (same ∙ h)
      ]

  pub expire_all-removes :
      (recs : List LockRecord) (t : Table)
      → Distinct t.locks
      → All (λ r. valid_name u r.name ≡ none) recs
      → lookup k (expire_all u applies others recs t).locks ≡ some rec
      → (lookup k t.locks ≡ some rec) × All (Spared applies k rec) recs
  unfolding expire_all after
  expire_all-removes [] t d v h = (h, tt)
  expire_all-removes (r ∷ recs) t d v h =
      let (l, rest) = expire_all-removes recs (after r t) (after-Distinct r t d) v.1 h in
      let (l', this) = after-removes r t d v.0 l in (l', (this, rest))

  pub expire_all_keeps :
      (recs : List LockRecord) (t : Table)
      → Distinct t.locks
      → All (λ r. (r.name ≡ k) → applies r.name ≡ false) recs
      → lookup k t.locks ≡ some rec
      → lookup k (expire_all u applies others recs t).locks ≡ some rec
  unfolding expire_all after
  expire_all_keeps [] t d n h = h
  expire_all_keeps (r ∷ recs) t d n h =
      expire_all_keeps recs (after r t) (after-Distinct r t d) n.1 (after_keeps r t d n.0 h)
