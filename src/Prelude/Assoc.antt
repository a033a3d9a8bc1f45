-- ===== src/Prelude/Assoc.antt =====
-- Go's maps with string keys, as association lists. `insert` replaces and `delete` removes the entry
-- of a key, so `length` is Go's `len` where the keys are distinct.
use Prim.Native.Nat.{ℕ, ◌+◌, ◌≤◌}
use Prim.Native.String.{String}
use mathlib.Core.Path.{◌≡◌, refl, sym, subst, ◌∙◌}
use mathlib.Core.Logic.{◌≢◌, ◌⊎◌, inl, inr}
use mathlib.Core.Bool.{true, false}
use mathlib.Core.Option.{Option, none, some}
use mathlib.Core.List.{List, [], ◌∷◌}
use native.Mathlib.Omega.{arith}
use clusdr.Prelude.Tests.{if◌then◌else◌, Bool-cases, Option-cases}
use clusdr.Prelude.Lists.{length, All}
use clusdr.Prelude.Text.{str_eq, str_eq_iff, str_eq_refl, str_ne}

abbrev pub Map {ℓ} : Type ℓ → Type ℓ
Map V = List (String × V)

module _ {ℓ} {V : Type ℓ} where
  unfoldable pub lookup : String → Map V → Option V
  lookup k [] = none
  lookup k ((j, v) ∷ m) = if str_eq j k then some v else lookup k m

  unfoldable pub insert : String → V → Map V → Map V
  insert k v [] = (k, v) ∷ []
  insert k v ((j, w) ∷ m) = if str_eq j k then (k, v) ∷ m else (j, w) ∷ insert k v m

  unfoldable pub delete : String → Map V → Map V
  delete k [] = []
  delete k ((j, w) ∷ m) = if str_eq j k then m else (j, w) ∷ delete k m

  unfoldable pub values : Map V → List V
  values [] = []
  values ((k, v) ∷ m) = v ∷ values m

  -- No entry has the key.
  abbrev pub Absent : String → Map V → Type 0
  Absent k m = All (λ e. str_eq e.0 k ≡ false) m

  -- The keys are distinct, as those of a map are.
  abbrev pub Distinct : Map V → Type 0
  Distinct [] = Unit
  Distinct ((k, v) ∷ m) = Absent k m × Distinct m

  -- No two entries carry the same number.
  abbrev pub Apart : (V → ℕ) → Map V → Type 0
  Apart f [] = Unit
  Apart f ((k, v) ∷ m) = All (λ e. f e.1 ≢ f v) m × Apart f m

  pub lookup-insert :
      (k j : String) (v : V) (m : Map V)
      → lookup j (insert k v m) ≡ (if str_eq k j then some v else lookup j m)
  unfolding lookup insert
  lookup-insert k j v [] = refl
  lookup-insert k j v ((i, w) ∷ m) =
      ground (arith, str_eq_iff k j, str_eq_iff i k, str_eq_iff i j, lookup-insert k j v m)

  pub lookup-insert_self : (k : String) (v : V) (m : Map V) → lookup k (insert k v m) ≡ some v
  lookup-insert_self k v m = rw (lookup-insert k k v m, str_eq_refl k)

  pub lookup-Absent : (k : String) (m : Map V) → Absent k m → lookup k m ≡ none
  unfolding lookup
  lookup-Absent k [] a = refl
  lookup-Absent k ((j, w) ∷ m) a = rw (a.0) (lookup-Absent k m a.1)

  pub Absent-lookup : (k : String) (m : Map V) → lookup k m ≡ none → Absent k m
  unfolding lookup
  Absent-lookup k [] h = tt
  Absent-lookup k ((j, w) ∷ m) h = ground (arith, Absent-lookup k m)

  pub lookup-delete :
      (k j : String) (m : Map V)
      → Distinct m
      → lookup j (delete k m) ≡ (if str_eq k j then none else lookup j m)
  unfolding lookup delete
  lookup-delete k j [] d = ground arith
  lookup-delete k j ((i, w) ∷ m) d = ground (
    arith,
    str_eq_iff k j,
    str_eq_iff i k,
    str_eq_iff i j,
    lookup-Absent j m,
    lookup-delete k j m,
  )

  pub All-insert {κ} :
      (P : String × V → Type κ) (k : String) (v : V) (m : Map V)
      → P (k, v)
      → All P m
      → All P (insert k v m)
  unfolding insert
  All-insert P k v [] p a = (p, tt)
  All-insert P k v ((j, w) ∷ m) p a = elim (Bool-cases (str_eq j k)) [
    | inl e ↦ rw e (p, a.1)
    | inr e ↦ rw e (a.0, All-insert P k v m p a.1)
  ]

  pub All-delete {κ} :
      (P : String × V → Type κ) (k : String) (m : Map V) → All P m → All P (delete k m)
  unfolding delete
  All-delete P k [] a = tt
  All-delete P k ((j, w) ∷ m) a = elim (Bool-cases (str_eq j k)) [
    | inl e ↦ rw e a.1
    | inr e ↦ rw e (a.0, All-delete P k m a.1)
  ]

  pub All-lookup {κ} :
      (P : String × V → Type κ) (k : String) {v : V} (m : Map V)
      → All P m
      → lookup k m ≡ some v
      → P (k, v)
  unfolding lookup
  All-lookup P k [] a h = cc
  All-lookup P k {v} ((j, w) ∷ m) a h = elim (Bool-cases (str_eq j k)) [
    | inl e ↦ subst P (λ i. ((str_eq_iff j k).0 e i, same e i)) a.0
    | inr e ↦ All-lookup P k m a.1 (ground arith)
  ]
    where
      same : str_eq j k ≡ true → w ≡ v
      same e = ground arith

  pub Distinct-insert : (k : String) (v : V) (m : Map V) → Distinct m → Distinct (insert k v m)
  unfolding insert
  Distinct-insert k v [] d = (tt, tt)
  Distinct-insert k v ((j, w) ∷ m) d = elim (Bool-cases (str_eq j k)) [
    | inl e ↦ rw e (subst (λ i. Absent i m) ((str_eq_iff j k).0 e) d.0, d.1)
    | inr e ↦ rw e (
      All-insert _ k v m (ground (arith, str_eq_iff j k, str_eq_iff k j)) d.0,
      Distinct-insert k v m d.1,
    )
  ]

  pub Distinct-delete : (k : String) (m : Map V) → Distinct m → Distinct (delete k m)
  unfolding delete
  Distinct-delete k [] d = tt
  Distinct-delete k ((j, w) ∷ m) d = elim (Bool-cases (str_eq j k)) [
    | inl e ↦ rw e d.1
    | inr e ↦ rw e (All-delete _ k m d.0, Distinct-delete k m d.1)
  ]

  pub length-insert :
      (k : String) (v : V) (m : Map V)
      → length (insert k v m) ≡ elim (lookup k m) [ none ↦ length m + 1 | some _ ↦ length m ]
  unfolding lookup insert
  length-insert k v [] = omega arith
  length-insert k v ((j, w) ∷ m) = ground (arith, length-insert k v m)

  pub length-delete-le : (k : String) (m : Map V) → length (delete k m) ≤ length m
  unfolding delete
  length-delete-le k [] = omega arith
  length-delete-le k ((j, w) ∷ m) = ground (arith, length-delete-le k m)

  -- A new entry with a fresh number, and an update that keeps the number.
  pub Apart-insert :
      (f : V → ℕ) (k : String) (v : V) (m : Map V)
      → All (λ e. f e.1 ≢ f v) m
      → Apart f m
      → Apart f (insert k v m)
  unfolding insert
  Apart-insert f k v [] n a = (tt, tt)
  Apart-insert f k v ((j, w) ∷ m) n a = elim (Bool-cases (str_eq j k)) [
    | inl e ↦ rw e (n.1, a.1)
    | inr e ↦ rw e (All-insert _ k v m (λ h. n.0 (sym h)) a.0, Apart-insert f k v m n.1 a.1)
  ]

  pub Apart-update :
      (f : V → ℕ) (k : String) (u v : V) (m : Map V)
      → lookup k m ≡ some u
      → f v ≡ f u
      → Apart f m
      → Apart f (insert k v m)
  unfolding insert lookup
  Apart-update f k u v [] h p a = (tt, tt)
  Apart-update f k u v ((j, w) ∷ m) h p a = elim (Bool-cases (str_eq j k)) [
    | inl e ↦ rw e (subst (λ x. All (λ y. f y.1 ≢ x) m) (ground arith) a.0, a.1)
    | inr e ↦ rw e (
      All-insert _ k v m (λ q. All-lookup (λ y. f y.1 ≢ f w) k m a.0 (ground arith) (sym p ∙ q))
          a.0,
      Apart-update f k u v m (ground arith) p a.1,
    )
  ]

  pub Apart-delete : (f : V → ℕ) (k : String) (m : Map V) → Apart f m → Apart f (delete k m)
  unfolding delete
  Apart-delete f k [] a = tt
  Apart-delete f k ((j, w) ∷ m) a = elim (Bool-cases (str_eq j k)) [
    | inl e ↦ rw e a.1
    | inr e ↦ rw e (All-delete _ k m a.0, Apart-delete f k m a.1)
  ]

  pub All-values {κ} : (P : V → Type κ) (m : Map V) → All P (values m) → All (λ e. P e.1) m
  unfolding values
  All-values P [] a = tt
  All-values P ((k, v) ∷ m) a = (a.0, All-values P m a.1)

  pub All-values_of {κ} : (P : V → Type κ) (m : Map V) → All (λ e. P e.1) m → All P (values m)
  unfolding values
  All-values_of P [] a = tt
  All-values_of P ((k, v) ∷ m) a = (a.0, All-values_of P m a.1)

  -- Every entry of a map is what a lookup of its key finds.
  pub All-of-lookup {κ} :
      (P : String × V → Type κ) (m : Map V)
      → Distinct m
      → ((k : String) (v : V) → lookup k m ≡ some v → P (k, v))
      → All P m
  unfolding lookup
  All-of-lookup P [] d h = tt
  All-of-lookup P ((k, v) ∷ m) d h = (
    h k v (rw (str_eq_refl k)),
    All-of-lookup P m d.1 (λ j w e. h j w (ground (arith, lookup-Absent k m d.0, str_eq_iff k j))),
  )

  -- `for _, v := range vs { m[key(v)] = v }`.
  unfoldable pub insert_all : (V → String) → List V → Map V → Map V
  insert_all key [] m = m
  insert_all key (v ∷ vs) m = insert_all key vs (insert (key v) v m)

  -- Each value that is inserted is what a map `m` holds under its key: then a lookup in the result
  -- finds what `m` holds, or no value had that key.
  lookup-insert_all :
      (key : V → String) (m : Map V) (vs : List V) (acc : Map V) (k : String)
      → All (λ v. lookup (key v) m ≡ some v) vs
      → (lookup k (insert_all key vs acc) ≡ lookup k m)
        ⊎ (All (λ v. key v ≢ k) vs × (lookup k (insert_all key vs acc) ≡ lookup k acc))
  unfolding insert_all
  lookup-insert_all key m [] acc k a = inr (tt, refl)
  lookup-insert_all key m (v ∷ vs) acc k a =
      elim (lookup-insert_all key m vs (insert (key v) v acc) k a.1) [
        | inl e ↦ inl e
        | inr (n, e) ↦ elim (Bool-cases (str_eq (key v) k)) [
          | inl b ↦ inl (
              e
              ∙ (lookup-insert (key v) k v acc
                  ∙ rw b (sym (subst (λ i. lookup i m ≡ some v) ((str_eq_iff (key v) k).0 b) a.0))))
          | inr b ↦ inr ((str_ne (key v) k b, n), e ∙ (lookup-insert (key v) k v acc ∙ rw b refl))
        ]
      ]

  -- So inserting the values of a map in any order that holds them all gives its lookups back.
  pub lookup-insert_all_values :
      (key : V → String) (m : Map V) (vs : List V) (k : String)
      → All (λ v. lookup (key v) m ≡ some v) vs
      → ((v : V) → lookup k m ≡ some v → ¬ All (λ w. key w ≢ k) vs)
      → lookup k (insert_all key vs []) ≡ lookup k m
  unfolding lookup
  lookup-insert_all_values key m vs k a all = elim (lookup-insert_all key m vs [] k a) [
    | inl e ↦ e
    | inr (n, e) ↦ elim (Option-cases (lookup k m)) [
      | inl none_there ↦ e ∙ sym none_there
      | inr (v, there) ↦ absurd (all v there n)
    ]
  ]
