-- ===== src/Scoring/Bounds.antt =====
-- The range of the score.
use native.Mathlib.Nat.{div-lt_iff_lt-mul, lt-div-mul-add, div-mul-le_self}
use agroassure.Prelude.{ℕ, ◌+◌, ◌*◌, ◌≤◌, ◌<◌, ◌≡◌, refl, List, [], ◌∷◌, arith, if◌then◌else◌}
use agroassure.Types.{is_na, is_yes}
use agroassure.Scoring.{
  ScoredCheckpoint, FindingLike, RatingBands, tally, round_div, rating_of, score_inspection,
}

-- The sums without accumulators: the weight of the Yes answers, and of the answers.
abbrev pub yes_weight : List ScoredCheckpoint → ℕ
yes_weight [] = 0
yes_weight (c ∷ cs) = (if is_yes c.response then c.weight else 0) + yes_weight cs

abbrev pub answered_weight : List ScoredCheckpoint → ℕ
answered_weight [] = 0
answered_weight (c ∷ cs) = (if is_na c.response then 0 else c.weight) + answered_weight cs

pub tally_lem :
    (cs : List ScoredCheckpoint) (y a : ℕ)
    → ((tally cs y a).0 ≡ y + yes_weight cs) × ((tally cs y a).1 ≡ a + answered_weight cs)
unfolding tally
tally_lem [] y a = omega arith
tally_lem (c ∷ cs) y a = ground (
  arith,
  tally_lem cs y a,
  tally_lem cs y (a + c.weight),
  tally_lem cs (y + c.weight) (a + c.weight),
)

pub yes_weight-le-answered_weight :
    (cs : List ScoredCheckpoint) → yes_weight cs ≤ answered_weight cs
yes_weight-le-answered_weight [] = omega arith
yes_weight-le-answered_weight (c ∷ cs) = ground (arith, yes_weight-le-answered_weight cs)

-- Half up: the whole number nearest to n / d.
abbrev pub IsNearest : ℕ → ℕ → ℕ → Type 0
IsNearest r n d = (2 * n < (2 * r + 1) * d) × (2 * r * d ≤ 2 * n + d)

round_div-IsNearest : (n d : ℕ) → 0 < d → IsNearest (round_div n d) n d
round_div-IsNearest n d pos = grind (
  arith,
  lt-div-mul-add {a = 2 * n + d} {b = 2 * d} (omega arith),
  div-mul-le_self (2 * n + d) (2 * d),
)

round_div-le : (n d k : ℕ) → 0 < d → n ≤ k * d → round_div n d ≤ k
round_div-le n d k pos h = le_of_lt-succ ((div-lt_iff_lt-mul (omega arith)).1 (grind arith))
  where
    le_of_lt-succ : {m : ℕ} → m < k + 1 → m ≤ k
    le_of_lt-succ lt = omega arith

rating_of-zero : (y : ℕ) → rating_of y 0 ≡ 0
unfolding rating_of
rating_of-zero y = refl

rating_of-le : (y a : ℕ) → y ≤ a → rating_of y a ≤ 10000
unfolding rating_of
rating_of-le y a h = ground (arith, round_div-le (10000 * y) a 10000)

rating_of-IsNearest : (y a : ℕ) → 0 < a → IsNearest (rating_of y a) (10000 * y) a
unfolding rating_of
rating_of-IsNearest y a pos = ground (arith, round_div-IsNearest (10000 * y) a pos)

-- Whatever the answers, findings and bands: the Yes weight is the summed weight of the Yes answers
-- and the answered weight that of all answers but N/A, the rating lies between 0 and 100 percent, it
-- is 0 when no weight was answered and else the hundredth of a percent nearest to yes / answered,
-- and the displayed percentage is the whole number nearest to the rating and at most 100.
pub score_inspection_lem :
    (cs : List ScoredCheckpoint) (fs : List FindingLike) (bands : RatingBands)
    → let r = score_inspection cs fs bands in
      (r.weighted_yes ≡ yes_weight cs)
      × (r.weighted_answered ≡ answered_weight cs)
      × (r.rating_percent ≤ 10000)
      × (r.weighted_answered ≡ 0 → r.rating_percent ≡ 0)
      × (0 < r.weighted_answered
          → IsNearest r.rating_percent (10000 * yes_weight cs) (answered_weight cs))
      × IsNearest r.display_percent r.rating_percent 100
      × (r.display_percent ≤ 100)
unfolding score_inspection
score_inspection_lem cs fs bands =
    let yes : (tally cs 0 0).0 ≡ yes_weight cs = omega (arith, tally_lem cs 0 0) in
    let answered : (tally cs 0 0).1 ≡ answered_weight cs = omega (arith, tally_lem cs 0 0) in
    let whole =
      rating_of-le (yes_weight cs) (answered_weight cs) (yes_weight-le-answered_weight cs) in
    rw (yes, answered)
      (
        refl,
        refl,
        whole,
        λ none_answered. rw none_answered (rating_of-zero (yes_weight cs)),
        rating_of-IsNearest (yes_weight cs) (answered_weight cs),
        round_div-IsNearest _ 100 (omega arith),
        round_div-le _ 100 100 (omega arith) whole,
      )
