-- ===== src/Prelude/Lists.antt =====
-- Lists measured by native numbers, predicates over them by recursion, and Boolean searches.
use Prim.Native.Nat.{ℕ, suc, ◌+◌, ◌≤◌}
use mathlib.Core.Path.{◌≡◌}
use mathlib.Core.Bool.{Bool, true}
use mathlib.Core.Logic.{inl, inr}
use mathlib.Core.List.{List, [], ◌∷◌, ◌++◌, map}
use native.Mathlib.Omega.{arith}
use clusdr.Prelude.Tests.{if◌then◌else◌, Bool-cases}

module _ {ℓ} {A : Type ℓ} where
  abbrev pub length : List A → ℕ
  length [] = 0
  length (x ∷ xs) = suc (length xs)

  pub length-append : (xs ys : List A) → length (xs ++ ys) ≡ length xs + length ys
  length-append [] ys = omega arith
  length-append (x ∷ xs) ys = omega (arith, length-append xs ys)

  abbrev pub All {κ} : (A → Type κ) → List A → Type κ
  All P [] = Unit
  All P (x ∷ xs) = P x × All P xs

  -- The elements that pass a test, in order.
  unfoldable pub keep : (A → Bool) → List A → List A
  keep test [] = []
  keep test (x ∷ xs) = if test x then x ∷ keep test xs else keep test xs

  pub length-keep-le : (test : A → Bool) (xs : List A) → length (keep test xs) ≤ length xs
  unfolding keep
  length-keep-le test [] = omega arith
  length-keep-le test (x ∷ xs) = ground (arith, length-keep-le test xs)

  pub All-keep {κ} :
      (P : A → Type κ) (test : A → Bool) (xs : List A)
      → All P (keep test xs)
      → All (λ x. test x ≡ true → P x) xs
  unfolding keep
  All-keep P test [] a = tt
  All-keep P test (x ∷ xs) a = elim (Bool-cases (test x)) [
    | inl e ↦ let b : All P (x ∷ keep test xs) = rw e at a in (λ _. b.0, All-keep P test xs b.1)
    | inr e ↦ (λ h. absurd (ground arith), All-keep P test xs (rw e at a))
  ]

  pub All-keep_of {κ} :
      (P : A → Type κ) (test : A → Bool) (xs : List A)
      → All (λ x. test x ≡ true → P x) xs
      → All P (keep test xs)
  unfolding keep
  All-keep_of P test [] a = tt
  All-keep_of P test (x ∷ xs) a = elim (Bool-cases (test x)) [
    | inl e ↦ rw e (a.0 e, All-keep_of P test xs a.1)
    | inr e ↦ rw e (All-keep_of P test xs a.1)
  ]

module _ {ℓ κ μ} {A : Type ℓ} {B : Type κ} (P : B → Type μ) (f : A → B) where
  pub All-map_of : (xs : List A) → All (λ x. P (f x)) xs → All P (map f xs)
  All-map_of [] a = tt
  All-map_of (x ∷ xs) a = (a.0, All-map_of xs a.1)

  pub All-map : (xs : List A) → All P (map f xs) → All (λ x. P (f x)) xs
  All-map [] a = tt
  All-map (x ∷ xs) a = (a.0, All-map xs a.1)
