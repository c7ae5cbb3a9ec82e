-- ===== src/Sort.antt =====
-- Array.prototype.sort with a comparator: stable, so determined by the comparator alone.
pub mod Laws
use Prim.Native.Nat.{Ordering}
use agroassure.Prelude.{List, [], ◌∷◌}

module _ {ℓ} {A : Type ℓ} (cmp : A → A → Ordering) where
  -- In front of the first element that x is not above.
  unfoldable pub insert : A → List A → List A
  insert x [] = x ∷ []
  insert x (y ∷ l) = elim (cmp x y) [ Ordering.gt ↦ y ∷ insert x l | _ ↦ x ∷ y ∷ l ]

  unfoldable pub sort : List A → List A
  unfolding insert
  sort [] = []
  sort (x ∷ l) = insert x (sort l)
