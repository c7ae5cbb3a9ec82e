-- ===== src/Risk/Findings.antt =====
-- What more findings do to the score.
use agroassure.Prelude.{ℕ, zero, suc, ◌+◌, ◌*◌, ◌≤◌, List, [], ◌∷◌, ◌++◌, ◌≡◌, arith}
use agroassure.Risk.{
  RiskSignal, RiskWeights, FacilityRiskInput, total, facility_risk, inspection_signals,
  rating_signals, finding_signals, certificate_signals, build_risk_signals,
}
use agroassure.Risk.Ranking.{facility_risk-Ranked}

total-append : (xs ys : List RiskSignal) → total (xs ++ ys) ≡ total xs + total ys
total-append [] ys = omega arith
total-append (x ∷ xs) ys = omega (arith, total-append xs ys)

scaled_mono : (a b w : ℕ) → a ≤ b → a * w ≤ b * w
scaled_mono zero b w h = omega arith
scaled_mono (suc a) zero w h = absurd (omega (arith, h))
scaled_mono (suc a) (suc b) w h = omega (arith, scaled_mono a b w (omega (arith, h)))

-- The same facility with other numbers of findings.
abbrev pub with_findings : FacilityRiskInput → ℕ → ℕ → FacilityRiskInput
with_findings input open_findings overdue_findings = record input {
  open_findings = open_findings;
  overdue_findings = overdue_findings;
}

finding_signals_mono :
    (input : FacilityRiskInput) (w : RiskWeights) (o o' d d' : ℕ)
    → o ≤ o'
    → d ≤ d'
    → total (finding_signals (with_findings input o d) w)
      ≤ total (finding_signals (with_findings input o' d') w)
unfolding finding_signals
finding_signals_mono input w o o' d d' h k =
    ground (arith, scaled_mono o o' w.per_open_finding h, scaled_mono d d' w.per_overdue_finding k)

total-append_four :
    (a b c d : List RiskSignal) → total (a ++ b ++ c ++ d) ≡ total a + total b + total c + total d
total-append_four a b c d =
    omega (arith, total-append (a ++ b ++ c) d, total-append (a ++ b) c, total-append a b)

total-build_risk_signals :
    (input : FacilityRiskInput) (w : RiskWeights)
    → total (build_risk_signals input w)
      ≡ total (inspection_signals input w)
        + total (rating_signals input w)
        + total (finding_signals input w)
        + total (certificate_signals input w)
unfolding build_risk_signals
total-build_risk_signals input w =
    total-append_four (inspection_signals input w) (rating_signals input w)
      (finding_signals input w) (certificate_signals input w)

-- With any weights: a facility with more open findings and more overdue ones, and all else the same,
-- never has the lower score.
facility_risk-build_risk_signals_mono :
    (input : FacilityRiskInput) (w : RiskWeights) (o o' d d' : ℕ)
    → o ≤ o'
    → d ≤ d'
    → (facility_risk (build_risk_signals (with_findings input o d) w)).score
      ≤ (facility_risk (build_risk_signals (with_findings input o' d') w)).score
unfolding inspection_signals rating_signals certificate_signals
facility_risk-build_risk_signals_mono input w o o' d d' h k =
    let few = build_risk_signals (with_findings input o d) w in
    let many = build_risk_signals (with_findings input o' d') w in
    omega (
      arith,
      (facility_risk-Ranked few).score,
      (facility_risk-Ranked many).score,
      total-build_risk_signals (with_findings input o d) w,
      total-build_risk_signals (with_findings input o' d') w,
      finding_signals_mono input w o o' d d' h k,
    )
