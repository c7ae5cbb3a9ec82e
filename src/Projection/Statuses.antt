-- ===== src/Projection/Statuses.antt =====
-- Every event moves the projected findings along the transitions of finding-state.ts, but for one.
use mathlib.Core.Path.{subst}
use agroassure.Prelude.{
  ℕ, Bool, true, ◌&&◌, Option, none, some, List, [], ◌∷◌, ◌++◌, ◌≡◌, refl, sym, arith, All, Text,
  ◌⊎◌, inl,
}
use agroassure.Types.{
  FindingStatus, open_status, awaiting_verification, escalated, closed, status_eq,
}
use agroassure.FindingState.{can_transition}
use agroassure.Projection.{References, FindingRow, Tables}
use agroassure.Projection.Payloads.{
  StoredEvent, Content, FindingRaisedPayload, FindingEscalatedPayload, FindingClosurePayload,
  FindingClosedPayload, InspectionStartedPayload, ResponseRecordedPayload, EvidenceCapturedPayload,
  InspectionSubmittedPayload, FacilityRegisteredPayload, FacilityUpdatedPayload,
  DecisionRecordedPayload, CertificateAuthorisedPayload,
}
use agroassure.Projection.Rows.{update_where, is_finding}
use agroassure.Projection.Facilities.{facility_registered, facility_updated}
use agroassure.Projection.FindingRows.{
  finding_of, finding_raised, finding_became_overdue, finding_escalated, finding_closure_submitted,
  finding_closure_rejected, finding_closed,
}
use agroassure.Projection.Inspections.{
  raised_after, dated_back, insert_started, inspection_started, inspection_submitted,
}
use agroassure.Projection.Answers.{Cast, response_recorded}
use agroassure.Projection.Exhibits.{evidence_captured}
use agroassure.Projection.Certificates.{
  decision_recorded, certificate_authorised, certificate_revoked,
}
use agroassure.Projection.Apply.{Setting, apply}

-- A status stays, follows a transition of the state machine, or goes from open to escalated.
abbrev pub Follows : FindingStatus → FindingStatus → Type 0
Follows s t = (s ≡ t) ⊎ (can_transition s t ≡ true) ⊎ ((s ≡ open_status) × (t ≡ escalated))

-- The findings afterwards: those before, in their order, and new ones, which are open.
abbrev pub Grows : List FindingRow → List FindingRow → Type 0
Grows [] new = All (λ (f : FindingRow). f.status ≡ open_status) new
Grows (f ∷ fs) [] = ⊥
Grows (f ∷ fs) (g ∷ gs) = (g.id ≡ f.id) × Follows f.status g.status × Grows fs gs

Grows-refl : (fs : List FindingRow) → Grows fs fs
Grows-refl [] = tt
Grows-refl (f ∷ fs) = (refl, inl refl, Grows-refl fs)

Grows-append :
    (fs : List FindingRow) (f : FindingRow) → f.status ≡ open_status → Grows fs (fs ++ f ∷ [])
Grows-append [] f h = (h, tt)
Grows-append (g ∷ fs) f h = (refl, inl refl, Grows-append fs f h)

Grows-update_where :
    (p : FindingRow → Bool) (change : FindingRow → FindingRow)
    → ((f : FindingRow) → p f ≡ true → ((change f).id ≡ f.id) × Follows f.status (change f).status)
    → (fs : List FindingRow) → Grows fs (update_where p change fs)
Grows-update_where p change legal [] = tt
Grows-update_where p change legal (f ∷ fs) =
    ground (arith, legal f, Grows-update_where p change legal fs)

finding_became_overdue-Grows :
    (id : Text) (t : Tables) → Grows t.findings (finding_became_overdue id t).findings
unfolding finding_became_overdue can_transition
finding_became_overdue-Grows id t = Grows-update_where _ _ (λ f h. (refl, ground arith)) t.findings

finding_escalated-Grows :
    (id : Text) (p : FindingEscalatedPayload) (t : Tables)
    → Grows t.findings (finding_escalated id p t).findings
unfolding finding_escalated can_transition
finding_escalated-Grows id p t = Grows-update_where _ _ (λ f h. (refl, ground arith)) t.findings

finding_closure_submitted-Grows :
    (id : Text) (p : FindingClosurePayload) (t : Tables)
    → Grows t.findings (finding_closure_submitted id p t).findings
unfolding finding_closure_submitted can_transition
finding_closure_submitted-Grows id p t =
    Grows-update_where _ _ (λ f h. (refl, ground arith)) t.findings

finding_closure_rejected-Grows :
    (id : Text) (t : Tables) → Grows t.findings (finding_closure_rejected id t).findings
unfolding finding_closure_rejected can_transition
finding_closure_rejected-Grows id t =
    Grows-update_where _ _ (λ f h. (refl, ground arith)) t.findings

inspection_submitted-Grows :
    (refs : References) (id : Text) (p : InspectionSubmittedPayload) (t : Tables)
    → Grows t.findings (inspection_submitted refs id p t).findings
unfolding inspection_submitted
inspection_submitted-Grows refs id p t = ground (
  arith,
  Grows-refl t.findings,
  Grows-update_where (raised_after id p.inspector_signed_at) (dated_back p.inspector_signed_at)
      (λ f h. (refl, inl refl)) t.findings,
)

-- The handlers that can raise an error.
abbrev Keeps : Tables → Option Tables → Type 0
Keeps t none = Unit
Keeps t (some t') = Grows t.findings t'.findings

finding_closed-Keeps :
    (refs : References) (id : Text) (p : FindingClosedPayload) (t : Tables)
    → Keeps t (finding_closed refs id p t)
unfolding finding_closed can_transition
finding_closed-Keeps refs id p t = ground (
  arith,
  Grows-update_where
      (λ (f : FindingRow). is_finding id f && status_eq f.status awaiting_verification)
      (λ (f : FindingRow). record f {
        status = closed;
        closed_at = some p.at_time;
        closed_by_user_id = some p.verified_by_user_id;
      })
      (λ f h. (refl, ground arith)) t.findings,
)

finding_raised-Keeps :
    (refs : References) (id : Text) (recorded_at now : ℕ) (p : FindingRaisedPayload) (t : Tables)
    → Keeps t (finding_raised refs id recorded_at now p t)
unfolding finding_raised
finding_raised-Keeps refs id recorded_at now p t =
    ground (
      arith,
      Grows-refl t.findings,
      Grows-append t.findings (finding_of id recorded_at now p t) refl,
    )

-- The handlers of other tables.
abbrev Spares : Tables → Option Tables → Type 0
Spares t none = Unit
Spares t (some t') = t'.findings ≡ t.findings

Spares-Keeps : (t : Tables) (r : Option Tables) → Spares t r → Keeps t r
Spares-Keeps t none h = tt
Spares-Keeps t (some t') h = subst (λ fs. Grows t.findings fs) (sym h) (Grows-refl t.findings)

facility_registered-Spares :
    (refs : References) (id : Text) (at_time : ℕ) (p : FacilityRegisteredPayload) (t : Tables)
    → Spares t (facility_registered refs id at_time p t)
unfolding facility_registered
facility_registered-Spares refs id at_time p t = ground arith

facility_updated-Spares :
    (id : Text) (p : FacilityUpdatedPayload) (t : Tables) → Spares t (facility_updated id p t)
unfolding facility_updated
facility_updated-Spares id p t = ground arith

inspection_started-Spares :
    (refs : References) (id : Text) (actor device : Option Text) (p : InspectionStartedPayload)
    (t : Tables)
    → Spares t (inspection_started refs id actor device p t)
unfolding inspection_started insert_started
inspection_started-Spares refs id actor device p t = ground arith

response_recorded-Spares :
    (to_int : Text → Cast) (refs : References) (event_id id hlc : Text)
    (p : ResponseRecordedPayload) (t : Tables)
    → Spares t (response_recorded to_int refs event_id id hlc p t)
unfolding response_recorded
response_recorded-Spares to_int refs event_id id hlc p t = ground arith

evidence_captured-Spares :
    (id : Text) (p : EvidenceCapturedPayload) (t : Tables) → Spares t (evidence_captured id p t)
unfolding evidence_captured
evidence_captured-Spares id p t = ground arith

decision_recorded-Spares :
    (refs : References) (p : DecisionRecordedPayload) (t : Tables)
    → Spares t (decision_recorded refs p t)
unfolding decision_recorded
decision_recorded-Spares refs p t = ground arith

certificate_authorised-Spares :
    (refs : References) (id : Text) (p : CertificateAuthorisedPayload) (t : Tables)
    → Spares t (certificate_authorised refs id p t)
unfolding certificate_authorised
certificate_authorised-Spares refs id p t = ground arith

certificate_revoked-Spares :
    (id : Text) (t : Tables) → (certificate_revoked id t).findings ≡ t.findings
unfolding certificate_revoked
certificate_revoked-Spares id t = refl

keeps :
    (x : Setting) (now : ℕ) (e : StoredEvent) (t : Tables) (c : Content)
    → Keeps t (apply x now (record e { content = c }) t)
unfolding apply
keeps x now e t (Content.facility_registered p) =
    Spares-Keeps t _ (facility_registered-Spares x.refs e.aggregate_id e.recorded_at p t)
keeps x now e t (Content.facility_updated p) =
    Spares-Keeps t _ (facility_updated-Spares e.aggregate_id p t)
keeps x now e t (Content.inspection_started p) =
    Spares-Keeps t _
      (inspection_started-Spares x.refs e.aggregate_id e.actor_user_id e.device_id p t)
keeps x now e t (Content.response_recorded p) =
    Spares-Keeps t _ (response_recorded-Spares x.to_int x.refs e.event_id e.aggregate_id e.hlc p t)
keeps x now e t (Content.evidence_captured p) =
    Spares-Keeps t _ (evidence_captured-Spares e.aggregate_id p t)
keeps x now e t (Content.inspection_submitted p) =
    inspection_submitted-Grows x.refs e.aggregate_id p t
keeps x now e t (Content.finding_raised p) =
    finding_raised-Keeps x.refs e.aggregate_id e.recorded_at now p t
keeps x now e t Content.finding_became_overdue = finding_became_overdue-Grows e.aggregate_id t
keeps x now e t (Content.finding_escalated p) = finding_escalated-Grows e.aggregate_id p t
keeps x now e t (Content.finding_closure_submitted p) =
    finding_closure_submitted-Grows e.aggregate_id p t
keeps x now e t Content.finding_closure_rejected = finding_closure_rejected-Grows e.aggregate_id t
keeps x now e t (Content.finding_closed p) = finding_closed-Keeps x.refs e.aggregate_id p t
keeps x now e t (Content.decision_recorded p) =
    Spares-Keeps t _ (decision_recorded-Spares x.refs p t)
keeps x now e t (Content.certificate_authorised p) =
    Spares-Keeps t _ (certificate_authorised-Spares x.refs e.aggregate_id p t)
keeps x now e t Content.certificate_revoked =
    Spares-Keeps t (some (certificate_revoked e.aggregate_id t))
      (certificate_revoked-Spares e.aggregate_id t)
keeps x now e t Content.other_content = Grows-refl t.findings

-- Whatever the event: no projected finding is lost or changes places or its id, each keeps its
-- status, follows a transition of the state machine or goes from open to escalated, and a finding
-- that is new is open.
pub apply-Grows :
    (x : Setting) (now : ℕ) (e : StoredEvent) (t t' : Tables)
    → apply x now e t ≡ some t'
    → Grows t.findings t'.findings
apply-Grows x now e t t' h = subst (Keeps t) h (keeps x now e t e.content)
