-- ===== src/Grants.antt =====
-- What the lock table and the lease table promise alike, as an abstract machine: a map from names to
-- grants, each with a fencing token, and the last token that was given out. The tables' methods are
-- shown to be its moves (Locks/Fencing, Leases/Fencing), and this file says what the moves keep.
use clusdr.Prelude.{
  ℕ, suc, ◌+◌, ◌≤◌, ◌<◌, ◌≡◌, sym, subst, ◌∙◌, ◌≢◌, inl, inr, none, some, [], ◌∷◌, String, arith,
  str_eq, str_eq_iff, All, Map, lookup, insert, delete, Distinct, Apart, lookup-insert,
  lookup-delete, All-insert, All-delete, All-lookup, Distinct-insert, Distinct-delete, Apart-insert,
  Apart-update, Apart-delete, Bool-cases,
}

pub record State (V : Type 0) : Type 0 where
  pub grants : Map V
  pub last : ℕ

module _ {V : Type 0} (token : V → ℕ) where
  -- Nothing happens; a held grant is refreshed and keeps its token; a free name is granted under the
  -- next token; a grant is dropped.
  pub data Move (s t : State V) : Type 0 where
    same : t.grants ≡ s.grants → t.last ≡ s.last → Move s t
    touch :
        (k : String) (u v : V)
        → lookup k s.grants ≡ some u
        → token v ≡ token u
        → t.grants ≡ insert k v s.grants
        → t.last ≡ s.last
        → Move s t
    add :
        (k : String) (v : V)
        → lookup k s.grants ≡ none
        → token v ≡ suc s.last
        → t.grants ≡ insert k v s.grants
        → t.last ≡ suc s.last
        → Move s t
    drop : (k : String) → t.grants ≡ delete k s.grants → t.last ≡ s.last → Move s t

  -- One entry: its token has been given out.
  abbrev pub Issued : ℕ → String × V → Type 0
  Issued n e = (1 ≤ token e.1) × (token e.1 ≤ n)

  -- Names are distinct, every token has been given out, and no two grants share a token.
  pub record IsFenced (s : State V) : Type 0 where
    pub distinct : Distinct s.grants
    pub issued : All (Issued s.last) s.grants
    pub apart : Apart token s.grants

  Issued-weaken : (m : Map V) (n k : ℕ) → n ≤ k → All (Issued n) m → All (Issued k) m
  Issued-weaken [] n k h a = tt
  Issued-weaken (e ∷ m) n k h a = ((a.0.0, omega arith), Issued-weaken m n k h a.1)

  Issued-fresh : (m : Map V) (n k : ℕ) → n < k → All (Issued n) m → All (λ e. token e.1 ≢ k) m
  Issued-fresh [] n k h a = tt
  Issued-fresh (e ∷ m) n k h a = (omega arith, Issued-fresh m n k h a.1)

  Apart-unique :
      (m : Map V) (j k : String) (u v : V)
      → Apart token m
      → lookup j m ≡ some u
      → lookup k m ≡ some v
      → token u ≡ token v
      → j ≡ k
  unfolding lookup
  Apart-unique [] j k u v a h e p = cc
  Apart-unique ((i, w) ∷ m) j k u v a h e p = elim (Bool-cases (str_eq i j)) [
    | inl b ↦ elim (Bool-cases (str_eq i k)) [
      | inl c ↦ sym ((str_eq_iff i j).0 b) ∙ (str_eq_iff i k).0 c
      | inr c ↦
          absurd
            (All-lookup (λ x. token x.1 ≢ token w) k {v = v} m a.0 (ground arith) (ground arith))
    ]
    | inr b ↦ elim (Bool-cases (str_eq i k)) [
      | inl c ↦
          absurd
            (All-lookup (λ x. token x.1 ≢ token w) j {v = u} m a.0 (ground arith) (ground arith))
      | inr c ↦ Apart-unique m j k u v a.1 (ground arith) (ground arith) p
    ]
  ]

  -- Every move keeps the map fenced.
  pub Move-IsFenced : {s t : State V} → Move s t → IsFenced s → IsFenced t
  Move-IsFenced {s} {t} (same g l) f = record {
    distinct = rw g f.distinct;
    issued = rw (g, l) f.issued;
    apart = rw g f.apart;
  }
  Move-IsFenced {s} {t} (touch k u v h p g l) f = record {
    distinct = rw g (Distinct-insert k v s.grants f.distinct);
    issued = rw (g, l) (All-insert _ k v s.grants (rw p old) f.issued);
    apart = rw g (Apart-update token k u v s.grants h p f.apart);
  }
    where
      old : (1 ≤ token u) × (token u ≤ s.last)
      old = All-lookup (Issued s.last) k s.grants f.issued h
  Move-IsFenced {s} {t} (add k v h p g l) f = record {
    distinct = rw g (Distinct-insert k v s.grants f.distinct);
    issued =
        rw (g, l)
          (All-insert _ k v s.grants (omega arith)
            (Issued-weaken s.grants s.last (suc s.last) (omega arith) f.issued));
    apart = rw g (
        Apart-insert token k v s.grants
          (Issued-fresh s.grants s.last (token v) (omega arith) f.issued) f.apart);
  }
  Move-IsFenced {s} {t} (drop k g l) f = record {
    distinct = rw g (Distinct-delete k s.grants f.distinct);
    issued = rw (g, l) (All-delete _ k s.grants f.issued);
    apart = rw g (Apart-delete token k s.grants f.apart);
  }

  pub Move-last : {s t : State V} → Move s t → s.last ≤ t.last
  Move-last (same g l) = omega arith
  Move-last (touch k u v h p g l) = omega arith
  Move-last (add k v h p g l) = omega arith
  Move-last (drop k g l) = omega arith

  -- The grant that a name had, under the same token.
  abbrev pub Had : State V → String → ℕ → Type 0
  Had s k n = (u : V) × (lookup k s.grants ≡ some u) × (token u ≡ n)

  pub Move-Had :
      {s t : State V} (k : String) (n : ℕ)
      → Move s t
      → Distinct s.grants
      → n ≤ s.last
      → Had t k n
      → Had s k n
  Move-Had {s} {t} k n (same g l) d le (w, e, q) = (w, rw g at e, q)
  Move-Had {s} {t} k n (touch j u v h p g l) d le (w, e, q) = elim (Bool-cases (str_eq j k)) [
    | inl b ↦ (
      u,
      subst (λ i. lookup i s.grants ≡ some u) ((str_eq_iff j k).0 b) h,
      ground (arith, lookup-insert j k v s.grants),
    )
    | inr b ↦ (w, ground (arith, lookup-insert j k v s.grants), q)
  ]
  Move-Had {s} {t} k n (add j v h p g l) d le (w, e, q) = elim (Bool-cases (str_eq j k)) [
    | inl b ↦ absurd (ground (arith, lookup-insert j k v s.grants))
    | inr b ↦ (w, ground (arith, lookup-insert j k v s.grants), q)
  ]
  Move-Had {s} {t} k n (drop j g l) d le (w, e, q) =
      (w, ground (arith, lookup-delete j k s.grants d), q)

  pub data Reach (s : State V) : State V → Type 0 where
    here : Reach s s
    next : {t u : State V} → Reach s t → Move t u → Reach s u

  pub Reach-IsFenced : {s t : State V} → Reach s t → IsFenced s → IsFenced t
  Reach-IsFenced here f = f
  Reach-IsFenced (next r m) f = Move-IsFenced m (Reach-IsFenced r f)

  pub Reach-last : {s t : State V} → Reach s t → s.last ≤ t.last
  Reach-last here = omega arith
  Reach-last (next r m) = omega (arith, Reach-last r, Move-last m)

  -- Through any history, a token that was given out before it is held only by a name that held it at
  -- the start: what was dropped does not come back.
  pub Reach-Had :
      {s t : State V} (k : String) (n : ℕ)
      → Reach s t
      → IsFenced s
      → n ≤ s.last
      → Had t k n
      → Had s k n
  Reach-Had k n here f le had = had
  Reach-Had k n (next r m) f le had =
      Reach-Had k n r f le
        (Move-Had k n m (Reach-IsFenced r f).distinct (omega (arith, Reach-last r)) had)

  -- A token names one grant.
  pub IsFenced-unique :
      (s : State V) (j k : String) (u v : V)
      → IsFenced s
      → lookup j s.grants ≡ some u
      → lookup k s.grants ≡ some v
      → token u ≡ token v
      → j ≡ k
  IsFenced-unique s j k u v f h e p = Apart-unique s.grants j k u v f.apart h e p

  -- A move gives out one token at most.
  pub Move-last-le : {s t : State V} → Move s t → t.last ≤ s.last + 1
  Move-last-le (same g l) = omega arith
  Move-last-le (touch k u v h p g l) = omega arith
  Move-last-le (add k v h p g l) = omega arith
  Move-last-le (drop k g l) = omega arith
