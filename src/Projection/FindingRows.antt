-- ===== src/Projection/FindingRows.antt =====
-- projector.service.ts: the handlers of the finding events.
use agroassure.Prelude.{
  ℕ, ◌/◌, Bool, not, ◌&&◌, ◌||◌, Option, none, some, List, [], ◌∷◌, ◌++◌, any, find, if◌then◌else◌,
  Text, text_eq,
}
use agroassure.Types.{
  FindingStatus, open_status, overdue, awaiting_verification, escalated, closed, status_eq,
}
use agroassure.FindingState.{due_date_for, default_sla, day_ms}
use agroassure.Projection.{References, InspectionRow, ResponseRow, FindingRow, Tables}
use agroassure.Projection.Payloads.{
  FindingRaisedPayload, FindingEscalatedPayload, FindingClosurePayload, FindingClosedPayload,
}
use agroassure.Projection.Rows.{
  update_where, coalesce, checked, refers, is_inspection, is_finding, count_findings,
}

abbrev pub answers_checkpoint : Text → Text → ResponseRow → Bool
answers_checkpoint inspection_id ref r =
    text_eq r.inspection_id inspection_id && text_eq r.checkpoint_ref ref

abbrev response_id : Text → Text → List ResponseRow → Option Text
response_id inspection_id ref rows = elim (find (answers_checkpoint inspection_id ref) rows) [
  | none ↦ none
  | some r ↦ some r.id
]

-- A date is the whole days of a time.
abbrev pub date_of : ℕ → ℕ
date_of time = time / day_ms

-- `now` is the database's clock, the default of created_at.
abbrev pub finding_of : Text → ℕ → ℕ → FindingRaisedPayload → Tables → FindingRow
finding_of id recorded_at now p t = record {
  id = id;
  reference = p.reference;
  inspection_id = p.inspection_id;
  checkpoint_response_id = response_id p.inspection_id p.checkpoint_ref t.responses;
  checkpoint_ref = p.checkpoint_ref;
  summary = p.summary;
  severity = p.severity;
  owner_user_id = p.owner_user_id;
  owner_label = p.owner_label;
  due_date = coalesce p.due_date (date_of (due_date_for p.severity recorded_at default_sla));
  status = open_status;
  escalated_to = none;
  escalated_at = none;
  closure_submitted_at = none;
  closed_at = none;
  closed_by_user_id = none;
  created_at = now;
}

-- SET findings_count = (SELECT count(*) …)
abbrev pub recount : Text → Tables → Tables
recount inspection_id t = record t {
  inspections =
      update_where (is_inspection inspection_id)
        (λ (i : InspectionRow). record i {
          findings_count = count_findings inspection_id t.findings;
        })
        t.inspections;
}

abbrev same_reference : Text → FindingRow → Bool
same_reference reference f = text_eq f.reference reference

unfoldable pub finding_raised :
    References → Text → ℕ → ℕ → FindingRaisedPayload → Tables → Option Tables
finding_raised refs id recorded_at now p t =
    if any (is_finding id) t.findings
    then some (recount p.inspection_id t)
    else checked
        (any (is_inspection p.inspection_id) t.inspections
          && refers refs.users p.owner_user_id
          && not (any (same_reference p.reference) t.findings))
        (recount p.inspection_id
          (record t { findings = t.findings ++ finding_of id recorded_at now p t ∷ [] }))

-- The conditional UPDATEs: the row's status is part of the WHERE.
abbrev pub move_finding :
    Text → (FindingStatus → Bool) → (FindingRow → FindingRow) → Tables → Tables
move_finding id from change t = record t {
  findings = update_where (λ (f : FindingRow). is_finding id f && from f.status) change t.findings;
}

abbrev pub is_unanswered : FindingStatus → Bool
is_unanswered s = status_eq s open_status || status_eq s overdue

abbrev pub is_pursued : FindingStatus → Bool
is_pursued s = status_eq s open_status || status_eq s overdue || status_eq s escalated

abbrev awaits : FindingStatus → Bool
awaits s = status_eq s awaiting_verification

unfoldable pub finding_became_overdue : Text → Tables → Tables
finding_became_overdue id =
    move_finding id (λ s. status_eq s open_status)
      (λ (f : FindingRow). record f { status = overdue })

unfoldable pub finding_escalated : Text → FindingEscalatedPayload → Tables → Tables
finding_escalated id p = move_finding id is_unanswered (λ (f : FindingRow). record f {
  status = escalated;
  escalated_to = some p.to;
  escalated_at = some p.at_time;
})

unfoldable pub finding_closure_submitted : Text → FindingClosurePayload → Tables → Tables
finding_closure_submitted id p = move_finding id is_pursued (λ (f : FindingRow). record f {
  status = awaiting_verification;
  closure_submitted_at = some p.at_time;
})

unfoldable pub finding_closure_rejected : Text → Tables → Tables
finding_closure_rejected id =
    move_finding id awaits
      (λ (f : FindingRow). record f { status = open_status; closure_submitted_at = none })

-- closed_by_user_id references a user: the constraint is met where no row is closed.
unfoldable pub finding_closed : References → Text → FindingClosedPayload → Tables → Option Tables
finding_closed refs id p t =
    checked
      (any (text_eq p.verified_by_user_id) refs.users
        || not (any (λ (f : FindingRow). is_finding id f && awaits f.status) t.findings))
      (move_finding id awaits
        (λ (f : FindingRow). record f {
          status = closed;
          closed_at = some p.at_time;
          closed_by_user_id = some p.verified_by_user_id;
        })
        t)
