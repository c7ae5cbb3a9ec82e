-- ===== src/Scoring/Bands.antt =====
-- What each band means.
use agroassure.Prelude.{◌≤◌, ◌≡◌, ◌↔◌, true, List, [], ◌∷◌, arith, any, All, ◌&&◌, false}
use agroassure.Types.{minor, satisfactory, is_critical, is_major}
use agroassure.Scoring.{ScoredCheckpoint, FindingLike, RatingBands, band_of, score_inspection}

-- A finding that is closed, or of the least severity.
abbrev pub IsHarmless : FindingLike → Type 0
IsHarmless f = f.is_open ≡ true → f.severity ≡ minor

no_open_serious_iff :
    (fs : List FindingLike)
    → (((any (λ (f : FindingLike). f.is_open && is_critical f.severity) fs) ≡ false)
        × ((any (λ (f : FindingLike). f.is_open && is_major f.severity) fs) ≡ false))
      ↔ All IsHarmless fs
no_open_serious_iff [] = ground arith
no_open_serious_iff (f ∷ fs) = ground (arith, no_open_serious_iff fs)

-- The band is Satisfactory exactly when every open finding is minor and the rating reaches both
-- thresholds.
band-eq-satisfactory_iff :
    (cs : List ScoredCheckpoint) (fs : List FindingLike) (bands : RatingBands)
    → ((score_inspection cs fs bands).band ≡ satisfactory) ↔ (
        All IsHarmless fs
        × (bands.needs_improvement_min ≤ (score_inspection cs fs bands).rating_percent)
        × (bands.satisfactory_min ≤ (score_inspection cs fs bands).rating_percent))
unfolding score_inspection band_of
band-eq-satisfactory_iff cs fs bands = ground (arith, no_open_serious_iff fs)
