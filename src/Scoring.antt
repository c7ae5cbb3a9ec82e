-- ===== src/Scoring.antt =====
-- packages/domain/src/scoring.ts: the weighted score of an inspection and its band.
-- A percentage is counted in hundredths of a percent, since the code rounds it to two places.
pub mod Bounds
pub mod Order
pub mod Bands
use agroassure.Prelude.{
  ℕ, ◌+◌, ◌*◌, ◌/◌, Bool, ◌&&◌, ◌||◌, List, [], ◌∷◌, ltb, ◌==◌, if◌then◌else◌, any,
}
use agroassure.Types.{
  CheckpointResponse, RatingBand, satisfactory, needs_improvement, critical_issues, FindingSeverity,
  is_na, is_yes, is_critical, is_major,
}

pub record ScoredCheckpoint : Type 0 where
  pub weight : ℕ
  pub response : CheckpointResponse

-- In hundredths of a percent.
pub record RatingBands : Type 0 where
  pub satisfactory_min : ℕ
  pub needs_improvement_min : ℕ

pub record FindingLike : Type 0 where
  pub severity : FindingSeverity
  pub is_open : Bool

pub record RatingResult : Type 0 where
  pub rating_percent : ℕ  -- hundredths of a percent
  pub display_percent : ℕ  -- whole percent
  pub band : RatingBand
  pub weighted_yes : ℕ
  pub weighted_answered : ℕ

abbrev pub default_bands : RatingBands
default_bands = record { satisfactory_min = 8000; needs_improvement_min = 6000 }

-- The loop over the checkpoints, with its two running sums; `continue` leaves them alone.
unfoldable pub tally : List ScoredCheckpoint → ℕ → ℕ → ℕ × ℕ
tally [] weighted_yes weighted_answered = (weighted_yes, weighted_answered)
tally (c ∷ cs) weighted_yes weighted_answered =
    tally cs
      (if is_na c.response
        then weighted_yes
        else if is_yes c.response
        then weighted_yes + c.weight
        else weighted_yes)
      (if is_na c.response then weighted_answered else weighted_answered + c.weight)

-- Math.round of n / d for whole n and d > 0: half a unit rounds up.
abbrev pub round_div : ℕ → ℕ → ℕ
round_div n d = (2 * n + d) / (2 * d)

unfoldable pub rating_of : ℕ → ℕ → ℕ
rating_of weighted_yes weighted_answered =
    if weighted_answered == 0 then 0 else round_div (10000 * weighted_yes) weighted_answered

unfoldable pub band_of : ℕ → List FindingLike → RatingBands → RatingBand
band_of rating_percent findings bands =
    let has_open_critical =
      any (λ (f : FindingLike). f.is_open && is_critical f.severity) findings in
    let has_open_major = any (λ (f : FindingLike). f.is_open && is_major f.severity) findings in
    if has_open_critical || ltb rating_percent bands.needs_improvement_min
    then critical_issues
    else if has_open_major || ltb rating_percent bands.satisfactory_min
    then needs_improvement
    else satisfactory

unfoldable pub score_inspection :
    List ScoredCheckpoint → List FindingLike → RatingBands → RatingResult
unfolding tally rating_of band_of
score_inspection checkpoints findings bands =
    let (weighted_yes, weighted_answered) = tally checkpoints 0 0 in
    let rating_percent = rating_of weighted_yes weighted_answered in
    record {
      rating_percent = rating_percent;
      display_percent = round_div rating_percent 100;
      band = band_of rating_percent findings bands;
      weighted_yes = weighted_yes;
      weighted_answered = weighted_answered;
    }
