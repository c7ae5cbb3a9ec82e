-- ===== src/Sort/Laws.antt =====
-- Sorting gives an order of its input, the same one for every order of the input.
use Prim.Native.Nat.{Ordering}
use mathlib.Core.Path.{subst, ap₂}
use mathlib.Core.List.{Permᴰ}
use mathlib.Core.List.Permᴰ
use agroassure.Prelude.{Bool, any, List, [], ◌∷◌, ◌≡◌, refl, ◌∙◌, sym, arith, All, ◌⊎◌, inl, inr}
use agroassure.Sort.{insert, sort}

pub record IsOrder {ℓ} {A : Type ℓ} (cmp : A → A → Ordering) : Type ℓ where
  pub same : (x : A) → cmp x x ≡ Ordering.eq
  pub flip_lt : (x y : A) → cmp x y ≡ Ordering.lt → cmp y x ≡ Ordering.gt
  pub flip_eq : (x y : A) → cmp x y ≡ Ordering.eq → cmp y x ≡ Ordering.eq
  pub flip_gt : (x y : A) → cmp x y ≡ Ordering.gt → cmp y x ≡ Ordering.lt
  pub trans : (x y z : A) → cmp x y ≡ Ordering.lt → cmp y z ≡ Ordering.lt → cmp x z ≡ Ordering.lt
  pub trans_eq : (x y z : A) → cmp x y ≡ Ordering.lt → cmp y z ≡ Ordering.eq → cmp x z ≡ Ordering.lt

-- Comparing by a key.
pub IsOrder-on {ℓ κ} :
    {A : Type ℓ} {B : Type κ} (f : B → A) {cmp : A → A → Ordering}
    → IsOrder cmp
    → IsOrder {A = B} (λ x y. cmp (f x) (f y))
IsOrder-on f o = record {
  same = λ x. o.same (f x);
  flip_lt = λ x y. o.flip_lt (f x) (f y);
  flip_eq = λ x y. o.flip_eq (f x) (f y);
  flip_gt = λ x y. o.flip_gt (f x) (f y);
  trans = λ x y z. o.trans (f x) (f y) (f z);
  trans_eq = λ x y z. o.trans_eq (f x) (f y) (f z);
}

module _ {ℓ} {A : Type ℓ} (cmp : A → A → Ordering) where
  insert-permᴰ : (x : A) (l : List A) → Permᴰ (insert cmp x l) (x ∷ l)
  unfolding insert
  insert-permᴰ x [] = Permᴰ.refl (x ∷ [])
  insert-permᴰ x (y ∷ l) =
      elim (cmp x y)
        as (λ o. Permᴰ (elim o [ Ordering.gt ↦ y ∷ insert cmp x l | _ ↦ x ∷ y ∷ l ]) (x ∷ y ∷ l)) [
          | Ordering.gt ↦ Permᴰ.trans (Permᴰ.cons refl (insert-permᴰ x l)) (Permᴰ.swap refl refl)
          | Ordering.lt ↦ Permᴰ.refl _
          | Ordering.eq ↦ Permᴰ.refl _
        ]

  pub sort-permᴰ : (l : List A) → Permᴰ (sort cmp l) l
  unfolding sort
  sort-permᴰ [] = Permᴰ.nil
  sort-permᴰ (x ∷ l) = Permᴰ.trans (insert-permᴰ x (sort cmp l)) (Permᴰ.cons refl (sort-permᴰ l))

  -- Every neighbour is strictly below the next.
  abbrev pub IsAscending : List A → Type 0
  IsAscending [] = Unit
  IsAscending (x ∷ []) = Unit
  IsAscending (x ∷ y ∷ l) = (cmp x y ≡ Ordering.lt) × IsAscending (y ∷ l)

  pub sort_of_IsAscending : (l : List A) → IsAscending l → sort cmp l ≡ l
  unfolding sort
  sort_of_IsAscending [] h = refl
  sort_of_IsAscending (x ∷ []) h = refl
  sort_of_IsAscending (x ∷ y ∷ l) h = rw (sort_of_IsAscending (y ∷ l) h.1) (ground arith)

module _ {ℓ κ} {A : Type ℓ} (P : A → Type κ) where
  pub All-permᴰ : {l r : List A} → Permᴰ l r → All P l → All P r
  All-permᴰ Permᴰ.nil h = h
  All-permᴰ (Permᴰ.cons e p) h = (subst P e h.0, All-permᴰ p h.1)
  All-permᴰ (Permᴰ.swap e d) h = (subst P d h.1.0, (subst P e h.0, h.1.1))
  All-permᴰ (Permᴰ.trans p q) h = All-permᴰ q (All-permᴰ p h)

module _ {A : Type 0} where
  abbrev pub In : A → List A → Type 0
  In x [] = ⊥
  In x (y ∷ l) = (x ≡ y) ⊎ In x l

  All-weaken : (y : A) (l r : List A) → All (λ x. In x r) l → All (λ x. In x (y ∷ r)) l
  All-weaken y [] r h = tt
  All-weaken y (x ∷ l) r h = (inr h.0, All-weaken y l r h.1)

  All-In : (l : List A) → All (λ x. In x l) l
  All-In [] = tt
  All-In (x ∷ l) = (inl refl, All-weaken x l l (All-In l))

module _ {A : Type 0} (cmp : A → A → Ordering) (o : IsOrder cmp) where
  -- Two insertions in either order, where only equal values compare as equal.
  pub insert_comm :
      (x y : A) (l : List A)
      → (cmp x y ≡ Ordering.eq → x ≡ y)
      → insert cmp x (insert cmp y l) ≡ insert cmp y (insert cmp x l)
  unfolding insert
  insert_comm x y [] agree = ground (arith, o.flip_lt x y, o.flip_gt x y)
  insert_comm x y (z ∷ l) agree = ground (
    arith,
    o.flip_lt x y,
    o.flip_gt x y,
    o.flip_eq x y,
    o.flip_eq x z,
    o.flip_eq y z,
    o.trans_eq x y z,
    o.trans_eq y x z,
    o.flip_lt x z,
    o.flip_gt x z,
    o.flip_lt y z,
    o.flip_gt y z,
    o.trans x y z,
    o.trans y x z,
    o.trans x z y,
    o.trans y z x,
    o.trans z x y,
    o.trans z y x,
    insert_comm x y l agree,
  )

  module _ {κ} (P : A → Type κ)
      (agree : (x y : A) → P x → P y → cmp x y ≡ Ordering.eq → x ≡ y) where
    sort-eq_of_permᴰ : {l r : List A} → Permᴰ l r → All P l → sort cmp l ≡ sort cmp r
    unfolding sort
    sort-eq_of_permᴰ Permᴰ.nil h = refl
    sort-eq_of_permᴰ (Permᴰ.cons e p) h = ap₂ (insert cmp) e (sort-eq_of_permᴰ p h.1)
    sort-eq_of_permᴰ (Permᴰ.swap {a} {b} {l = l} e d) h =
        rw (← e, ← d) (insert_comm a b (sort cmp l) (agree a b h.0 h.1.0))
    sort-eq_of_permᴰ (Permᴰ.trans p q) h =
        sort-eq_of_permᴰ p h ∙ sort-eq_of_permᴰ q (All-permᴰ P p h)

  below_all : (x y : A) (l : List A) → IsAscending cmp (x ∷ l) → In y l → cmp x y ≡ Ordering.lt
  below_all x y [] a m = absurd m
  below_all x y (z ∷ l) a (inl e) = rw e a.0
  below_all x y (z ∷ l) a (inr m) = o.trans x z y a.0 (below_all z y l a.1 m)

  IsAscending-tail : (x : A) (l : List A) → IsAscending cmp (x ∷ l) → IsAscending cmp l
  IsAscending-tail x [] a = tt
  IsAscending-tail x (y ∷ l) a = a.1

  ascending_agree :
      (l : List A) → IsAscending cmp l → (x y : A) → In x l → In y l → cmp x y ≡ Ordering.eq → x ≡ y
  ascending_agree [] a x y m n e = absurd m
  ascending_agree (z ∷ l) a x y (inl p) (inl q) e = p ∙ sym q
  ascending_agree (z ∷ l) a x y (inl p) (inr n) e = cc (below_all z y l a n, p, e)
  ascending_agree (z ∷ l) a x y (inr m) (inl q) e = cc (o.flip_eq x y e, below_all z x l a m, q)
  ascending_agree (z ∷ l) a x y (inr m) (inr n) e =
      ascending_agree l (IsAscending-tail z l a) x y m n e

  -- However an ascending list was shuffled, sorting it gives it back.
  pub sort_shuffled : (l r : List A) → IsAscending cmp l → Permᴰ l r → sort cmp r ≡ l
  sort_shuffled l r a p =
      sym (sort-eq_of_permᴰ (λ x. In x l) (ascending_agree l a) p (All-In l))
      ∙ sort_of_IsAscending cmp l a

-- The same rows in another order.
pub any-permᴰ {ℓ} : {A : Type ℓ} (p : A → Bool) {xs ys : List A} → Permᴰ xs ys → any p xs ≡ any p ys
any-permᴰ p Permᴰ.nil = refl
any-permᴰ p (Permᴰ.cons e q) = cc (e, any-permᴰ p q)
any-permᴰ p (Permᴰ.swap {a} {b} {l = l} e d) = rw (← e, ← d) (ground arith)
any-permᴰ p (Permᴰ.trans q r) = any-permᴰ p q ∙ any-permᴰ p r
