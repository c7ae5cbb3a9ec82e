-- ===== src/Risk.antt =====
-- packages/domain/src/risk.ts: the risk of a facility and the reasons for it.
pub mod Ranking
pub mod Findings
use Prim.Native.Nat.{Ordering}
use agroassure.Prelude.{
  ℕ, zero, suc, ◌+◌, ◌-◌, ◌*◌, min, Bool, true, false, Option, none, some, List, [], ◌∷◌, ◌++◌, map,
  filter, Text, codes, decimal, ltb, leb, ◌==◌, if◌then◌else◌,
}
use agroassure.Sort.{sort}

pub record RiskSignal : Type 0 where
  pub points : ℕ
  pub reason : Text

pub record RiskResult : Type 0 where
  pub score : ℕ
  pub reasons : List Text

-- The comparator of the sort, b.points - a.points.
abbrev pub by_points : RiskSignal → RiskSignal → Ordering
by_points a b =
    if ltb b.points a.points
    then Ordering.lt
    else if a.points == b.points
    then Ordering.eq
    else Ordering.gt

abbrev pub contributes : RiskSignal → Bool
contributes s = ltb 0 s.points

unfoldable pub contributing : List RiskSignal → List RiskSignal
contributing signals = sort by_points (filter contributes signals)

abbrev pub total : List RiskSignal → ℕ
total [] = 0
total (s ∷ ss) = s.points + total ss

abbrev pub reason_of : RiskSignal → Text
reason_of s = s.reason

unfoldable pub facility_risk : List RiskSignal → RiskResult
facility_risk signals =
    let ranked = contributing signals in
    record { score = min 100 (total ranked); reasons = map reason_of ranked }

pub record RiskWeights : Type 0 where
  pub per_month_overdue : ℕ
  pub per_month_cap : ℕ
  pub two_needs_improvement : ℕ
  pub critical_issues : ℕ
  pub per_open_finding : ℕ
  pub per_overdue_finding : ℕ
  pub cert_expiring_soon : ℕ
  pub cert_lapsed : ℕ
  pub never_inspected : ℕ

abbrev pub default_risk_weights : RiskWeights
default_risk_weights = record {
  per_month_overdue = 1;
  per_month_cap = 12;
  two_needs_improvement = 25;
  critical_issues = 40;
  per_open_finding = 8;
  per_overdue_finding = 12;
  cert_expiring_soon = 15;
  cert_lapsed = 30;
  never_inspected = 60;
}

-- A whole number of days: `negsuc n` is -(n + 1).
pub data ℤ : Type 0 where
  pos negsuc : ℕ → ℤ

pub record FacilityRiskInput : Type 0 where
  pub months_since_last_inspection : Option ℕ
  pub cycle_target_months : ℕ
  pub two_consecutive_needs_improvement : Bool
  pub last_rating_critical_issues : Bool
  pub open_findings : ℕ
  pub overdue_findings : ℕ
  pub cert_days_to_expiry : Option ℤ

abbrev signal : ℕ → Text → List RiskSignal
signal points reason = record { points = points; reason = reason } ∷ []

-- The signals of the last inspection: subtraction stops at 0, as Math.max has it.
unfoldable pub inspection_signals : FacilityRiskInput → RiskWeights → List RiskSignal
inspection_signals input w = elim input.months_since_last_inspection [
  | none ↦ signal w.never_inspected (codes "never inspected")
  | some months ↦
      let points =
        min w.per_month_cap ((months - input.cycle_target_months) * w.per_month_overdue) in
      if ltb 0 points
      then signal points (codes "last inspected " ++ decimal months ++ codes " months ago")
      else []
]

unfoldable pub rating_signals : FacilityRiskInput → RiskWeights → List RiskSignal
rating_signals input w =
    if input.last_rating_critical_issues
    then signal w.critical_issues (codes "last rating was Critical Issues")
    else if input.two_consecutive_needs_improvement
    then signal w.two_needs_improvement (codes "two consecutive Needs Improvement ratings")
    else []

unfoldable pub finding_signals : FacilityRiskInput → RiskWeights → List RiskSignal
finding_signals input w =
    if ltb 0 input.open_findings
    then signal
        (input.open_findings * w.per_open_finding + input.overdue_findings * w.per_overdue_finding)
        (decimal input.open_findings
          ++ codes " open finding"
          ++ (if input.open_findings == 1 then [] else codes "s")
          ++ (if ltb 0 input.overdue_findings
              then codes ", " ++ decimal input.overdue_findings ++ codes " overdue"
              else []))
    else []

unfoldable pub certificate_signals : FacilityRiskInput → RiskWeights → List RiskSignal
certificate_signals input w = elim input.cert_days_to_expiry [
  | none ↦ []
  | some (negsuc n) ↦
      signal w.cert_lapsed (codes "certificate expired " ++ decimal (suc n) ++ codes " days ago")
  | some (pos n) ↦
      if leb n 30
      then signal w.cert_expiring_soon
          (codes "certificate expires in " ++ decimal n ++ codes " days")
      else []
]

unfoldable pub build_risk_signals : FacilityRiskInput → RiskWeights → List RiskSignal
build_risk_signals input w =
    inspection_signals input w
    ++ rating_signals input w
    ++ finding_signals input w
    ++ certificate_signals input w
