-- ===== src/Prelude/Orders.antt =====
-- Lists that hold the same elements in another order.
use mathlib.Core.Path.{◌≡◌, sym, subst}
use mathlib.Core.List.{List, [], Perm, Permᴰ}
use mathlib.Core.Logic.{∥∥₁_elim, ◌≢◌}
use mathlib.Core.Option.{some}
use Prim.Native.String.{String}
use clusdr.Prelude.Assoc.{
  Map, Distinct, lookup, values, insert_all, All-values, All-values_of, All-of-lookup, All-lookup,
  lookup-insert_all_values,
}
use clusdr.Prelude.Lists.{All}

All-Permᴰ {ℓ κ} : {A : Type ℓ} (P : A → Type κ) {xs ys : List A} → Permᴰ xs ys → All P xs → All P ys
All-Permᴰ P Permᴰ.nil a = tt
All-Permᴰ P (Permᴰ.cons e p) a = (subst P e a.0, All-Permᴰ P p a.1)
All-Permᴰ P (Permᴰ.swap e f) a = (subst P f a.1.0, (subst P e a.0, a.1.1))
All-Permᴰ P (Permᴰ.trans p q) a = All-Permᴰ P q (All-Permᴰ P p a)

All-Permᴰ_back {ℓ κ} :
    {A : Type ℓ} (P : A → Type κ) {xs ys : List A} → Permᴰ xs ys → All P ys → All P xs
All-Permᴰ_back P Permᴰ.nil a = tt
All-Permᴰ_back P (Permᴰ.cons e p) a = (subst P (sym e) a.0, All-Permᴰ_back P p a.1)
All-Permᴰ_back P (Permᴰ.swap e f) a = (subst P (sym e) a.1.0, (subst P (sym f) a.0, a.1.1))
All-Permᴰ_back P (Permᴰ.trans p q) a = All-Permᴰ_back P p (All-Permᴰ_back P q a)

module _ {ℓ} {V : Type ℓ} (key : V → String) (m : Map V) (d : Distinct m) where
  stored : All (λ e. key e.1 ≡ e.0) m → All (λ v. lookup (key v) m ≡ some v) (values m)
  stored n = All-values_of _ m (
      All-of-lookup (λ e. lookup (key e.1) m ≡ some e.1) m d
        (λ j v h.
          subst (λ i. lookup i m ≡ some v) (sym (All-lookup (λ e. key e.1 ≡ e.0) j m n h)) h))

  -- A map is built again from its values, whatever the order they come in.
  pub lookup-insert_all_perm :
      (vs : List V) (k : String)
      → IsSet V
      → All (λ e. key e.1 ≡ e.0) m
      → Perm (values m) vs
      → lookup k (insert_all key vs []) ≡ lookup k m
  lookup-insert_all_perm vs k set n p = ∥∥₁_elim p (hlevel set) (λ q.
      lookup-insert_all_values key m vs k (All-Permᴰ _ q (stored n)) (λ v h a.
        All-lookup (λ e. key e.1 ≢ k) k m (All-values (λ w. key w ≢ k) m (All-Permᴰ_back _ q a)) h
          (All-lookup (λ e. key e.1 ≡ e.0) k m n h)))
