-- ===== src/Hlc/Order.antt =====
-- The comparison of clocks and of texts are orders in the sense that sorting needs.
use Prim.Native.Nat.{Ordering}
use agroassure.Prelude.{◌≡◌, refl, arith, [], ◌∷◌, Text}
use agroassure.Sort.Laws.{IsOrder}
use agroassure.Hlc.{text_compare, compare_state}

text_same : (s : Text) → text_compare s s ≡ Ordering.eq
unfolding text_compare
text_same [] = refl
text_same (a ∷ s) = ground (arith, text_same s)

text_flip_lt : (s t : Text) → text_compare s t ≡ Ordering.lt → text_compare t s ≡ Ordering.gt
unfolding text_compare
text_flip_lt [] [] h = cc
text_flip_lt [] (b ∷ t) h = refl
text_flip_lt (a ∷ s) [] h = cc
text_flip_lt (a ∷ s) (b ∷ t) h = ground (arith, text_flip_lt s t)

text_flip_gt : (s t : Text) → text_compare s t ≡ Ordering.gt → text_compare t s ≡ Ordering.lt
unfolding text_compare
text_flip_gt [] [] h = cc
text_flip_gt [] (b ∷ t) h = cc
text_flip_gt (a ∷ s) [] h = refl
text_flip_gt (a ∷ s) (b ∷ t) h = ground (arith, text_flip_gt s t)

pub text_compare_eq : (s t : Text) → text_compare s t ≡ Ordering.eq → s ≡ t
unfolding text_compare
text_compare_eq [] [] h = refl
text_compare_eq [] (b ∷ t) h = cc
text_compare_eq (a ∷ s) [] h = cc
text_compare_eq (a ∷ s) (b ∷ t) h = ground (arith, text_compare_eq s t)

text_trans :
    (s t u : Text)
    → text_compare s t ≡ Ordering.lt
    → text_compare t u ≡ Ordering.lt
    → text_compare s u ≡ Ordering.lt
unfolding text_compare
text_trans [] [] u h k = cc
text_trans [] (b ∷ t) [] h k = cc
text_trans [] (b ∷ t) (c ∷ u) h k = refl
text_trans (a ∷ s) [] u h k = cc
text_trans (a ∷ s) (b ∷ t) [] h k = cc
text_trans (a ∷ s) (b ∷ t) (c ∷ u) h k = ground (arith, text_trans s t u)

text_flip_eq : (s t : Text) → text_compare s t ≡ Ordering.eq → text_compare t s ≡ Ordering.eq
text_flip_eq s t h = rw (text_compare_eq s t h) (text_same t)

text_trans_eq :
    (s t u : Text)
    → text_compare s t ≡ Ordering.lt
    → text_compare t u ≡ Ordering.eq
    → text_compare s u ≡ Ordering.lt
text_trans_eq s t u h k = rw (← text_compare_eq t u k) h

pub text_compare-IsOrder : IsOrder text_compare
text_compare-IsOrder = record {
  same = text_same;
  flip_lt = text_flip_lt;
  flip_eq = text_flip_eq;
  flip_gt = text_flip_gt;
  trans = text_trans;
  trans_eq = text_trans_eq;
}

-- The order of clocks is total: reflexive, antisymmetric in its three answers, and transitive; two
-- clocks that compare as equal are interchangeable in it.
compare_state-IsOrder : IsOrder compare_state
compare_state-IsOrder = record {
  same = λ a. unfold compare_state in ground (arith, text_same a.node_id);
  flip_lt = λ a b h. unfold compare_state in ground (arith, text_flip_lt a.node_id b.node_id);
  flip_eq = λ a b h. unfold compare_state in ground (arith, text_flip_eq a.node_id b.node_id);
  flip_gt = λ a b h. unfold compare_state in ground (arith, text_flip_gt a.node_id b.node_id);
  trans =
      λ a b c h k. unfold compare_state in ground (arith, text_trans a.node_id b.node_id c.node_id);
  trans_eq = λ a b c h k.
      unfold compare_state in ground (arith, text_trans_eq a.node_id b.node_id c.node_id);
}
