-- ===== src/Risk/Ranking.antt =====
-- The reasons are ranked, and the score adds up what they stand for.
use mathlib.Core.List.{Permᴰ}
use agroassure.Prelude.{◌≤◌, min, List, [], ◌∷◌, map, filter, ◌≡◌, refl, ap, ◌∙◌, arith}
use agroassure.Sort.{insert, sort}
use agroassure.Sort.Laws.{sort-permᴰ}
use agroassure.Risk.{
  RiskSignal, RiskResult, by_points, contributes, contributing, total, reason_of, facility_risk,
}

-- No signal has fewer points than the next.
abbrev pub Descending : List RiskSignal → Type 0
Descending [] = Unit
Descending (s ∷ []) = Unit
Descending (s ∷ t ∷ ss) = (t.points ≤ s.points) × Descending (t ∷ ss)

insert-Descending :
    (s : RiskSignal) (ss : List RiskSignal) → Descending ss → Descending (insert by_points s ss)
unfolding insert
insert-Descending s [] h = tt
insert-Descending s (t ∷ []) h = ground arith
insert-Descending s (t ∷ u ∷ ss) h = ground (arith, insert-Descending s (u ∷ ss) h.1)

sort-Descending : (ss : List RiskSignal) → Descending (sort by_points ss)
unfolding sort
sort-Descending [] = tt
sort-Descending (s ∷ ss) = insert-Descending s (sort by_points ss) (sort-Descending ss)

total-permᴰ : {l r : List RiskSignal} → Permᴰ l r → total l ≡ total r
total-permᴰ Permᴰ.nil = refl
total-permᴰ (Permᴰ.cons e p) = omega (arith, ap (λ (s : RiskSignal). s.points) e, total-permᴰ p)
total-permᴰ (Permᴰ.swap e d) =
    omega (arith, ap (λ (s : RiskSignal). s.points) e, ap (λ (s : RiskSignal). s.points) d)
total-permᴰ (Permᴰ.trans p q) = total-permᴰ p ∙ total-permᴰ q

total-filter : (ss : List RiskSignal) → total (filter contributes ss) ≡ total ss
total-filter [] = refl
total-filter (s ∷ ss) = ground (arith, total-filter ss)

-- What a result says of the signals.
pub record Ranked (signals : List RiskSignal) (result : RiskResult) : Type 0 where
  pub ranked : List RiskSignal
  pub contributors : Permᴰ ranked (filter contributes signals)
  pub descending : Descending ranked
  pub reasons : result.reasons ≡ map reason_of ranked
  pub score : result.score ≡ min 100 (total signals)

-- The score is the sum of all points, held to 100; the reasons are those of the signals with points,
-- each as often as it is there, the highest contribution first.
pub facility_risk-Ranked : (signals : List RiskSignal) → Ranked signals (facility_risk signals)
unfolding facility_risk contributing
facility_risk-Ranked signals = record {
  ranked = contributing signals;
  contributors = sort-permᴰ by_points (filter contributes signals);
  descending = sort-Descending (filter contributes signals);
  reasons = refl;
  score =
      ap (min 100)
        (total-permᴰ (sort-permᴰ by_points (filter contributes signals)) ∙ total-filter signals);
}
