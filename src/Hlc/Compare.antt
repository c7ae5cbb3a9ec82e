-- ===== src/Hlc/Compare.antt =====
-- hlcCompare on stamps, against the order of stamps written out.
use Prim.Native.Nat.{Ordering}
use agroassure.Prelude.{ℕ, ◌<◌, ◌^◌, Option, some, [], ◌∷◌, ◌≡◌, ◌⊎◌, refl, arith, Text}
use agroassure.Hlc.{HlcState, encode, text_compare, compare_state, hlc_compare}
use agroassure.Hlc.Codec.{decode-encode}

-- The order of the dictionary, on code units.
abbrev pub TextBefore : Text → Text → Type 0
TextBefore s [] = ⊥
TextBefore [] (b ∷ t) = Unit
TextBefore (a ∷ s) (b ∷ t) = (a < b) ⊎ ((a ≡ b) × TextBefore s t)

-- The wall clock's time decides, then the counter, then the node.
abbrev pub StampBefore : HlcState → HlcState → Type 0
StampBefore a b =
    (a.physical < b.physical)
    ⊎ ((a.physical ≡ b.physical)
        × ((a.counter < b.counter) ⊎ ((a.counter ≡ b.counter) × TextBefore a.node_id b.node_id)))

-- What an answer says of two things that `Before` orders.
abbrev pub Says : {A : Type 0} → (A → A → Type 0) → Ordering → A → A → Type 0
Says Before Ordering.lt a b = Before a b
Says Before Ordering.eq a b = a ≡ b
Says Before Ordering.gt a b = Before b a

text_compare_lem : (s t : Text) → Says TextBefore (text_compare s t) s t
unfolding text_compare
text_compare_lem [] [] = refl
text_compare_lem [] (b ∷ t) = tt
text_compare_lem (a ∷ s) [] = tt
text_compare_lem (a ∷ s) (b ∷ t) = ground (arith, text_compare_lem s t)

compare_state_lem : (a b : HlcState) → Says StampBefore (compare_state a b) a b
unfolding compare_state
compare_state_lem a b = ground (arith, text_compare_lem a.node_id b.node_id)

-- hlcCompare on the stamps of two clocks whose times and counters stay below 10^15 answers, and the
-- answer is right: the first is before the second by time, then counter, then the code units of the
-- node, or the clocks are equal, or the second is before the first.
pub hlc_compare-encode :
    (other : Text → Option ℕ) (a b : HlcState)
    → (a.physical < 10 ^ 15) × (a.counter < 10 ^ 15)
    → (b.physical < 10 ^ 15) × (b.counter < 10 ^ 15)
    → (o : Ordering) × (hlc_compare other (encode a) (encode b) ≡ some o) × Says StampBefore o a b
unfolding hlc_compare
hlc_compare-encode other a b ha hb = (
  compare_state a b,
  rw (hlc_compare, decode-encode other a ha.0 ha.1, decode-encode other b hb.0 hb.1) refl,
  compare_state_lem a b,
)
