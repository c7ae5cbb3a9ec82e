-- ===== src/Escalation.antt =====
-- services/sync-gateway/src/workers/escalation.service.ts: the sweep over the findings that are due.
pub mod Effects
pub mod Rows
pub mod Settled
pub mod Serving
use agroassure.Prelude.{
  ℕ, ◌+◌, ◌*◌, ◌/◌, Bool, ◌&&◌, Option, none, some, List, [], ◌∷◌, ◌++◌, map, filter, ltb,
  if◌then◌else◌, Text, codes,
}
use agroassure.Types.{FindingSeverity, FindingStatus, open_status, overdue, status_eq}
use agroassure.FindingState.{
  default_sla, day_ms, EscalationCheck, should_escalate, escalation_reason,
}
use agroassure.Projection.{FindingRow, Tables}
use agroassure.Projection.FindingRows.{finding_became_overdue, finding_escalated, is_unanswered}

-- A row of the query. Its due date is in days.
pub record DueFinding : Type 0 where
  pub id : Text
  pub severity : FindingSeverity
  pub status : FindingStatus
  pub due_date : ℕ
  pub reference : Text
  pub summary : Text
  pub supervisor_id : Option Text

-- `supervisor_of` is the subquery on the roles of users, for an inspection.
abbrev pub due_finding : (Text → Option Text) → FindingRow → DueFinding
due_finding supervisor_of f = record {
  id = f.id;
  severity = f.severity;
  status = f.status;
  due_date = f.due_date;
  reference = f.reference;
  summary = f.summary;
  supervisor_id = supervisor_of f.inspection_id;
}

abbrev pub is_due : ℕ → FindingRow → Bool
is_due now f = is_unanswered f.status && ltb f.due_date (now / day_ms)

unfoldable pub due_findings : (Text → Option Text) → ℕ → Tables → List DueFinding
due_findings supervisor_of now t = map (due_finding supervisor_of) (filter (is_due now) t.findings)

-- What the loop does, one after the other: the two appends, and the INSERT of a notification.
pub data Action : Type 0 where
  append_overdue : Text → ℕ → Action
  append_escalated : Text → ℕ → Text → Text → Action
  notify : Text → DueFinding → Text → Action

pub record SweepResult : Type 0 where
  pub marked_overdue : ℕ
  pub escalated : ℕ

abbrev pub as_check : DueFinding → EscalationCheck
as_check f = record { status = f.status; severity = f.severity; due_date = f.due_date * day_ms }

abbrev pub notification : Option Text → DueFinding → Text → List Action
notification none f reason = []
notification (some user_id) f reason = notify user_id f reason ∷ []

unfoldable pub sweep_finding : ℕ → DueFinding → List Action
sweep_finding now f =
    let reason = escalation_reason f.severity (f.due_date * day_ms) now in
    (if status_eq f.status open_status then append_overdue f.id now ∷ [] else [])
    ++ (if should_escalate (as_check f) now default_sla
        then append_escalated f.id now (codes "desk_supervisor") reason
          ∷ notification f.supervisor_id f reason
        else [])

-- The loop, with its counts.
unfoldable pub sweep : ℕ → List DueFinding → List Action × SweepResult
sweep now [] = ([], record { marked_overdue = 0; escalated = 0 })
sweep now (f ∷ fs) =
    let (rest, n) = sweep now fs in
    (
      sweep_finding now f ++ rest,
      record {
        marked_overdue = (if status_eq f.status open_status then 1 else 0) + n.marked_overdue;
        escalated = (if should_escalate (as_check f) now default_sla then 1 else 0) + n.escalated;
      },
    )

-- What an action does to the tables, where the projector has no other event pending: append runs it.
unfoldable pub act : Action → Tables → Tables
act (append_overdue id at_time) t = finding_became_overdue id t
act (append_escalated id at_time to reason) t =
    finding_escalated id (record { at_time = at_time; to = to; reason = reason }) t
act (notify user_id f reason) t = t

unfoldable pub act_all : List Action → Tables → Tables
act_all [] t = t
act_all (a ∷ actions) t = act_all actions (act a t)
