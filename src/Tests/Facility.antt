-- ===== src/Tests/Facility.antt =====
-- The risk of a facility with a lapsed certificate and two open findings.
use agroassure.Prelude.{true, false, some, [], ◌∷◌, ◌≡◌, refl, codes, decimal}
use agroassure.Sort.{sort, insert}
use agroassure.Risk.{
  RiskResult, negsuc, FacilityRiskInput, default_risk_weights, contributing, facility_risk,
  inspection_signals, rating_signals, finding_signals, certificate_signals, build_risk_signals,
}
use agroassure.Risk.Ranking.{Ranked, facility_risk-Ranked}

abbrev facility : FacilityRiskInput
facility = record {
  months_since_last_inspection = some 14;
  cycle_target_months = 12;
  two_consecutive_needs_improvement = true;
  last_rating_critical_issues = false;
  open_findings = 2;
  overdue_findings = 1;
  cert_days_to_expiry = some (negsuc 4);
}

abbrev explained : RiskResult
explained = record {
  score = 85;
  reasons =
      codes "certificate expired 5 days ago"
      ∷ codes "2 open findings, 1 overdue"
      ∷ codes "two consecutive Needs Improvement ratings"
      ∷ codes "last inspected 14 months ago"
      ∷ [];
}

scored : facility_risk (build_risk_signals facility default_risk_weights) ≡ explained
unfolding facility_risk contributing sort insert build_risk_signals inspection_signals
    rating_signals finding_signals certificate_signals decimal
scored = refl

facility_risk-Ranked_example :
    Ranked
      (build_risk_signals facility default_risk_weights)
      (facility_risk (build_risk_signals facility default_risk_weights))
facility_risk-Ranked_example =
    facility_risk-Ranked (build_risk_signals facility default_risk_weights)
