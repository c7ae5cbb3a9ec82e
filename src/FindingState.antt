-- ===== src/FindingState.antt =====
-- packages/domain/src/finding-state.ts: the corrective-action state machine and its deadlines.
-- A Date is its milliseconds since the epoch.
pub mod Machine
pub mod Deadlines
use agroassure.Prelude.{
  ℕ, ◌+◌, ◌-◌, ◌*◌, ◌/◌, Bool, true, false, ◌++◌, List, [], ◌∷◌, ltb, ◌==◌, if◌then◌else◌, any,
  Text, codes, decimal,
}
use agroassure.Types.{
  FindingSeverity, critical, major, minor, FindingStatus, open_status, overdue,
  awaiting_verification, escalated, closed, status_eq,
}

unfoldable pub finding_transitions : FindingStatus → List FindingStatus
finding_transitions open_status = awaiting_verification ∷ overdue ∷ []
finding_transitions overdue = awaiting_verification ∷ escalated ∷ []
finding_transitions escalated = awaiting_verification ∷ []
finding_transitions awaiting_verification = closed ∷ open_status ∷ []
finding_transitions closed = []

unfoldable pub can_transition : FindingStatus → FindingStatus → Bool
unfolding finding_transitions
can_transition from to = any (status_eq to) (finding_transitions from)

pub record FindingSla : Type 0 where
  pub due_in_days : ℕ
  pub escalate_after_overdue_days : ℕ

abbrev pub default_sla : FindingSeverity → FindingSla
default_sla critical = record { due_in_days = 3; escalate_after_overdue_days = 3 }
default_sla major = record { due_in_days = 7; escalate_after_overdue_days = 7 }
default_sla minor = record { due_in_days = 21; escalate_after_overdue_days = 14 }

abbrev pub day_ms : ℕ
day_ms = 86400000

-- setUTCDate moves a date by whole days of 86 400 000 ms.
unfoldable pub due_date_for : FindingSeverity → ℕ → (FindingSeverity → FindingSla) → ℕ
due_date_for severity raised_on sla = raised_on + (sla severity).due_in_days * day_ms

pub record EscalationCheck : Type 0 where
  pub status : FindingStatus
  pub severity : FindingSeverity
  pub due_date : ℕ

abbrev past_escalation : EscalationCheck → ℕ → (FindingSeverity → FindingSla) → Bool
past_escalation f now sla =
    ltb (f.due_date + (sla f.severity).escalate_after_overdue_days * day_ms) now

-- The early returns by status, then the comparison of the deadline.
unfoldable pub should_escalate : EscalationCheck → ℕ → (FindingSeverity → FindingSla) → Bool
should_escalate f now sla =
    if status_eq f.status closed
    then false
    else if status_eq f.status escalated
    then false
    else if status_eq f.status awaiting_verification
    then false
    else past_escalation f now sla

unfoldable pub is_overdue : ℕ → ℕ → Bool
is_overdue due_date now = ltb due_date now

abbrev severity_word : FindingSeverity → Text
severity_word critical = codes "Critical"
severity_word major = codes "Major"
severity_word minor = codes "Minor"

-- Called only past the due date, where the difference is not negative.
unfoldable pub escalation_reason : FindingSeverity → ℕ → ℕ → Text
escalation_reason severity due_date now =
    let days = (now - due_date) / day_ms in
    severity_word severity
    ++ (codes " finding overdue by "
        ++ (decimal days ++ (codes " day" ++ (if days == 1 then [] else codes "s"))))
