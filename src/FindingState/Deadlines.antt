-- ===== src/FindingState/Deadlines.antt =====
-- When a finding falls due and when it is escalated.
use agroassure.Prelude.{ℕ, ◌+◌, ◌*◌, ◌<◌, ◌≡◌, ◌↔◌, ◌⊎◌, true, arith}
use agroassure.Types.{FindingSeverity, open_status, overdue}
use agroassure.FindingState.{
  FindingSla, EscalationCheck, day_ms, due_date_for, should_escalate, is_overdue,
}

-- For any windows: a finding is escalated exactly when it is open or overdue and more than the
-- grace of its severity has passed since it fell due; it is then overdue as well.
should_escalate_iff :
    (f : EscalationCheck) (now : ℕ) (sla : FindingSeverity → FindingSla)
    → ((should_escalate f now sla ≡ true) ↔ (
        ((f.status ≡ open_status) ⊎ (f.status ≡ overdue))
        × (f.due_date + (sla f.severity).escalate_after_overdue_days * day_ms < now)))
      × (should_escalate f now sla ≡ true → is_overdue f.due_date now ≡ true)
unfolding should_escalate is_overdue
should_escalate_iff f now sla = ground arith

-- A finding that is never answered: with the due date counted from the day it was raised, it is not
-- escalated at any time up to the due window and the grace together, and is at any time after.
unanswered_escalates :
    (severity : FindingSeverity) (raised_on now : ℕ) (sla : FindingSeverity → FindingSla)
    → (should_escalate
          (record {
            status = overdue;
            severity = severity;
            due_date = due_date_for severity raised_on sla;
          })
          now
          sla
        ≡ true)
      ↔ (raised_on
            + ((sla severity).due_in_days + (sla severity).escalate_after_overdue_days) * day_ms
          < now)
unfolding should_escalate due_date_for
unanswered_escalates severity raised_on now sla = ground arith
