-- ===== src/Scoring/Order.antt =====
-- The score does not depend on the order of the answers, and a better answer never lowers it.
use mathlib.Core.Logic.{∥∥₁_elim}
use mathlib.Core.List.{Perm, Permᴰ}
use mathlib.Core.HLevel.{hedberg}
use native.Mathlib.Nat.{ℕ_set, le-div_iff_mul-le, div-mul-le_self}
use agroassure.Prelude.{
  ℕ, ◌+◌, ◌*◌, ◌/◌, ◌≤◌, ◌<◌, ◌≡◌, refl, ◌∙◌, ◌⊎◌, List, [], ◌∷◌, arith, any, Bool, ◌&&◌,
}
use agroassure.Types.{
  yes_response, no_response, satisfactory, needs_improvement, critical_issues, RatingBand,
  is_critical, is_major,
}
use agroassure.Scoring.{
  ScoredCheckpoint, FindingLike, RatingBands, tally, rating_of, band_of, score_inspection,
}
use agroassure.Sort.Laws.{any-permᴰ}
use agroassure.Scoring.Bounds.{yes_weight, answered_weight, tally_lem}

yes_weight-permᴰ : {cs ds : List ScoredCheckpoint} → Permᴰ cs ds → yes_weight cs ≡ yes_weight ds
yes_weight-permᴰ Permᴰ.nil = refl
yes_weight-permᴰ (Permᴰ.cons e p) = cc (e, yes_weight-permᴰ p)
yes_weight-permᴰ (Permᴰ.swap {a} {b} {l = l} e d) = rw (← e, ← d) (omega arith)
yes_weight-permᴰ (Permᴰ.trans p q) = yes_weight-permᴰ p ∙ yes_weight-permᴰ q

answered_weight-permᴰ :
    {cs ds : List ScoredCheckpoint} → Permᴰ cs ds → answered_weight cs ≡ answered_weight ds
answered_weight-permᴰ Permᴰ.nil = refl
answered_weight-permᴰ (Permᴰ.cons e p) = cc (e, answered_weight-permᴰ p)
answered_weight-permᴰ (Permᴰ.swap {a} {b} {l = l} e d) = rw (← e, ← d) (omega arith)
answered_weight-permᴰ (Permᴰ.trans p q) = answered_weight-permᴰ p ∙ answered_weight-permᴰ q

Bool-discrete : Discrete Bool
Bool-discrete = hlevel

tally-eq :
    (cs ds : List ScoredCheckpoint)
    → yes_weight cs ≡ yes_weight ds
    → answered_weight cs ≡ answered_weight ds
    → tally cs 0 0 ≡ tally ds 0 0
tally-eq cs ds y a = ground (arith, tally_lem cs 0 0, tally_lem ds 0 0)

-- The result does not depend on the order of the answers, nor on that of the findings.
score_inspection_perm :
    (cs ds : List ScoredCheckpoint) (fs gs : List FindingLike) (bands : RatingBands)
    → Perm cs ds
    → Perm fs gs
    → score_inspection cs fs bands ≡ score_inspection ds gs bands
unfolding score_inspection
score_inspection_perm cs ds fs gs bands p q =
    let same =
      tally-eq cs ds (∥∥₁_elim p (ℕ_set _ _) yes_weight-permᴰ)
        (∥∥₁_elim p (ℕ_set _ _) answered_weight-permᴰ) in
    let criticals : any (λ (f : FindingLike). f.is_open && is_critical f.severity) fs
        ≡ any (λ f. f.is_open && is_critical f.severity) gs =
      ∥∥₁_elim q (hedberg Bool-discrete _ _) (any-permᴰ _) in
    let majors : any (λ (f : FindingLike). f.is_open && is_major f.severity) fs
        ≡ any (λ f. f.is_open && is_major f.severity) gs =
      ∥∥₁_elim q (hedberg Bool-discrete _ _) (any-permᴰ _) in
    cc (same, criticals, majors)

-- The same checkpoints, answered alike except that some No answers are now Yes.
abbrev pub IsImproved : List ScoredCheckpoint → List ScoredCheckpoint → Type 0
IsImproved [] [] = Unit
IsImproved (c ∷ cs) (d ∷ ds) =
    (c.weight ≡ d.weight)
    × ((c.response ≡ d.response) ⊎ ((c.response ≡ no_response) × (d.response ≡ yes_response)))
    × IsImproved cs ds
IsImproved _ _ = ⊥

IsImproved-weights :
    (cs ds : List ScoredCheckpoint)
    → IsImproved cs ds
    → (yes_weight cs ≤ yes_weight ds) × (answered_weight cs ≡ answered_weight ds)
IsImproved-weights [] [] h = omega arith
IsImproved-weights [] (d ∷ ds) h = absurd h
IsImproved-weights (c ∷ cs) [] h = absurd h
IsImproved-weights (c ∷ cs) (d ∷ ds) h = ground (arith, IsImproved-weights cs ds h.2)

abbrev pub rank : RatingBand → ℕ
rank critical_issues = 0
rank needs_improvement = 1
rank satisfactory = 2

div_mono : (n m d : ℕ) → 0 < d → n ≤ m → n / d ≤ m / d
div_mono n m d pos h = (le-div_iff_mul-le pos).1 (omega (arith, div-mul-le_self n d))

rating_of_mono : (y z a : ℕ) → y ≤ z → rating_of y a ≤ rating_of z a
unfolding rating_of
rating_of_mono y z a h =
    ground (arith, div_mono (2 * (10000 * y) + a) (2 * (10000 * z) + a) (2 * a))

band_of_mono :
    (p q : ℕ) (fs : List FindingLike) (bands : RatingBands)
    → p ≤ q
    → rank (band_of p fs bands) ≤ rank (band_of q fs bands)
unfolding band_of
band_of_mono p q fs bands h = ground arith

rating_of-tally_mono :
    (cs ds : List ScoredCheckpoint)
    → IsImproved cs ds
    → rating_of (tally cs 0 0).0 (tally cs 0 0).1 ≤ rating_of (tally ds 0 0).0 (tally ds 0 0).1
rating_of-tally_mono cs ds h =
    let same : (tally cs 0 0).1 ≡ (tally ds 0 0).1 =
      omega (arith, tally_lem cs 0 0, tally_lem ds 0 0, IsImproved-weights cs ds h) in
    let more : (tally cs 0 0).0 ≤ (tally ds 0 0).0 =
      omega (arith, tally_lem cs 0 0, tally_lem ds 0 0, IsImproved-weights cs ds h) in
    rw same (rating_of_mono _ _ _ more)

-- Turning No answers into Yes lowers neither the rating, nor the displayed percentage, nor the band.
pub score_inspection_mono :
    (cs ds : List ScoredCheckpoint) (fs : List FindingLike) (bands : RatingBands)
    → IsImproved cs ds
    → ((score_inspection cs fs bands).rating_percent
        ≤ (score_inspection ds fs bands).rating_percent)
      × ((score_inspection cs fs bands).display_percent
          ≤ (score_inspection ds fs bands).display_percent)
      × (rank (score_inspection cs fs bands).band ≤ rank (score_inspection ds fs bands).band)
unfolding score_inspection
score_inspection_mono cs ds fs bands h =
    let rating = rating_of-tally_mono cs ds h in
    (rating, div_mono _ _ 200 (omega arith) (omega arith), band_of_mono _ _ fs bands rating)
