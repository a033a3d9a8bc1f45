-- ===== src/Prelude/Sorting.antt =====
-- sort.Slice by a text, as an insertion sort: the library's order among equal keys is not specified,
-- and the names that the source sorts by are distinct.
use Prim.Native.String.{String, compare}
use mathlib.Core.Logic.{inl, inr}
use mathlib.Core.Bool.{Bool}
use mathlib.Core.List.{List, [], ◌∷◌}
use text.Mathlib.Text.{is_lt}
use clusdr.Prelude.Tests.{if◌then◌else◌, Bool-cases}
use clusdr.Prelude.Lists.{All}

-- `a < b` on texts.
unfoldable pub str_lt : String → String → Bool
str_lt a b = is_lt (compare a b)

module _ {ℓ} {A : Type ℓ} (key : A → String) where
  unfoldable pub insert_sorted : A → List A → List A
  insert_sorted a [] = a ∷ []
  insert_sorted a (x ∷ xs) = if str_lt (key a) (key x) then a ∷ x ∷ xs else x ∷ insert_sorted a xs

  unfoldable pub sort_by : List A → List A
  unfolding insert_sorted
  sort_by [] = []
  sort_by (x ∷ xs) = insert_sorted x (sort_by xs)

  All-insert_sorted {κ} :
      (P : A → Type κ) (a : A) (xs : List A) → All P (insert_sorted a xs) → P a × All P xs
  unfolding insert_sorted
  All-insert_sorted P a [] h = h
  All-insert_sorted P a (x ∷ xs) h = elim (Bool-cases (str_lt (key a) (key x))) [
    | inl e ↦ rw e at h
    | inr e ↦
        let g : P x × All P (insert_sorted a xs) = rw e at h in
        let (pa, ps) = All-insert_sorted P a xs g.1 in (pa, (g.0, ps))
  ]

  All-insert_sorted_of {κ} :
      (P : A → Type κ) (a : A) (xs : List A) → P a → All P xs → All P (insert_sorted a xs)
  unfolding insert_sorted
  All-insert_sorted_of P a [] p h = (p, h)
  All-insert_sorted_of P a (x ∷ xs) p h = elim (Bool-cases (str_lt (key a) (key x))) [
    | inl e ↦ rw e (p, h)
    | inr e ↦ rw e (h.0, All-insert_sorted_of P a xs p h.1)
  ]

  -- Sorting neither loses nor adds an element.
  pub All-sort_by {κ} : (P : A → Type κ) (xs : List A) → All P (sort_by xs) → All P xs
  unfolding sort_by
  All-sort_by P [] h = h
  All-sort_by P (x ∷ xs) h =
      let (p, rest) = All-insert_sorted P x (sort_by xs) h in (p, All-sort_by P xs rest)

  pub All-sort_by_of {κ} : (P : A → Type κ) (xs : List A) → All P xs → All P (sort_by xs)
  unfolding sort_by
  All-sort_by_of P [] h = h
  All-sort_by_of P (x ∷ xs) h = All-insert_sorted_of P x (sort_by xs) h.0 (All-sort_by_of P xs h.1)
