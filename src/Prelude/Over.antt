-- ===== src/Prelude/Over.antt =====
-- A function on the values of a map, and the map's operations.
use mathlib.Core.Path.{◌≡◌, refl, ap}
use mathlib.Core.List.{[], ◌∷◌}
use mathlib.Core.Option
use Prim.Native.Nat.{suc}
use Prim.Native.String.{String}
use native.Mathlib.Omega.{arith}
use clusdr.Prelude.Lists.{length}
use clusdr.Prelude.Assoc.{Map, lookup, insert, delete}

-- A function on the values of a map.
unfoldable pub over {ℓ κ} : {A : Type ℓ} {B : Type κ} → (A → B) → Map A → Map B
over f [] = []
over f ((k, v) ∷ m) = (k, f v) ∷ over f m

module _ {ℓ κ} {A : Type ℓ} {B : Type κ} (f : A → B) where
  pub lookup-over : (k : String) (m : Map A) → lookup k (over f m) ≡ Option.map f (lookup k m)
  unfolding over lookup
  lookup-over k [] = refl
  lookup-over k ((j, v) ∷ m) = ground (arith, lookup-over k m)

  pub over-insert :
      (k : String) (v : A) (m : Map A) → over f (insert k v m) ≡ insert k (f v) (over f m)
  unfolding over insert
  over-insert k v [] = refl
  over-insert k v ((j, w) ∷ m) = ground (arith, over-insert k v m)

  pub over-delete : (k : String) (m : Map A) → over f (delete k m) ≡ delete k (over f m)
  unfolding over delete
  over-delete k [] = refl
  over-delete k ((j, w) ∷ m) = ground (arith, over-delete k m)

  pub length-over : (m : Map A) → length (over f m) ≡ length m
  unfolding over
  length-over [] = refl
  length-over (e ∷ m) = ap suc (length-over m)
