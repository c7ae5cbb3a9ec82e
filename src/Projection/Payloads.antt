-- ===== src/Projection/Payloads.antt =====
-- packages/domain/src/events.ts: the payloads of the events, and a stored event with the payload that
-- its handler reads.
use agroassure.Prelude.{ℕ, Bool, Option, List, Text}
use agroassure.Types.{CheckpointResponse, RatingBand, FindingSeverity}
use agroassure.Json.{Json}
use agroassure.Projection.{GeoPoint}

pub record InspectionStartedPayload : Type 0 where
  pub reference : Text
  pub facility_id : Text
  pub instrument_version_id : Text
  pub structure_hash : Text
  pub point : GeoPoint
  pub distance_from_registered_m : Text
  pub flagged : Bool

pub record ResponseRecordedPayload : Type 0 where
  pub checkpoint_ref : Text
  pub response : CheckpointResponse
  pub remark : Option Text
  pub evidence_ids : Option (List Text)

pub record EvidenceCapturedPayload : Type 0 where
  pub evidence_id : Text
  pub checkpoint_ref : Text
  pub sha256 : Text
  pub mime : Text
  pub captured_at : ℕ
  pub point : GeoPoint

-- The rating is in hundredths of a percent.
pub record InspectionSubmittedPayload : Type 0 where
  pub rating_percent : ℕ
  pub rating_band : RatingBand
  pub findings_count : ℕ
  pub inspector_user_id : Text
  pub inspector_signed_at : ℕ
  pub rep_name : Text
  pub rep_role : Text
  pub rep_signed_at : ℕ

pub record FindingRaisedPayload : Type 0 where
  pub reference : Text
  pub inspection_id : Text
  pub checkpoint_ref : Text
  pub summary : Text
  pub severity : FindingSeverity
  pub owner_label : Option Text
  pub owner_user_id : Option Text
  pub due_date : Option ℕ

pub record FindingEscalatedPayload : Type 0 where
  pub at_time : ℕ
  pub to : Text
  pub reason : Text

pub record CertificateAuthorisedPayload : Type 0 where
  pub facility_id : Text
  pub inspection_id : Text
  pub decision_id : Text
  pub authorising_officer_id : Text
  pub serial : Text
  pub verification_token : Text
  pub issued_on : ℕ
  pub valid_to : ℕ
  pub next_due_on : ℕ

pub record FacilityRegisteredPayload : Type 0 where
  pub jurisdiction_id : Text
  pub licence_number : Text
  pub facility_type : Text
  pub name : Text
  pub owner_contact : Option Json
  pub address : Option Json
  pub lga : Option Text
  pub registered_point : Option GeoPoint

-- Partial<FacilityRegisteredPayload>, the fields that the handler reads.
pub record FacilityUpdatedPayload : Type 0 where
  pub licence_number : Option Text
  pub facility_type : Option Text
  pub name : Option Text
  pub owner_contact : Option Json
  pub address : Option Json
  pub lga : Option Text
  pub registered_point : Option GeoPoint

pub record DecisionRecordedPayload : Type 0 where
  pub decision_id : Text
  pub inspection_id : Text
  pub officer_id : Text
  pub decision_type : Text
  pub basis : Option Text
  pub decided_at : ℕ

pub record FindingClosurePayload : Type 0 where
  pub at_time : ℕ
  pub note : Option Text
  pub evidence_ids : Option (List Text)

pub record FindingClosedPayload : Type 0 where
  pub at_time : ℕ
  pub verified_by_user_id : Text

-- The event types that have a handler, each with its payload, and all others.
pub data Content : Type 0 where
  facility_registered : FacilityRegisteredPayload → Content
  facility_updated : FacilityUpdatedPayload → Content
  inspection_started : InspectionStartedPayload → Content
  response_recorded : ResponseRecordedPayload → Content
  evidence_captured : EvidenceCapturedPayload → Content
  inspection_submitted : InspectionSubmittedPayload → Content
  finding_raised : FindingRaisedPayload → Content
  finding_became_overdue : Content
  finding_escalated : FindingEscalatedPayload → Content
  finding_closure_submitted : FindingClosurePayload → Content
  finding_closure_rejected : Content
  finding_closed : FindingClosedPayload → Content
  decision_recorded : DecisionRecordedPayload → Content
  certificate_authorised : CertificateAuthorisedPayload → Content
  certificate_revoked : Content
  other_content : Content

pub record StoredEvent : Type 0 where
  pub event_id : Text
  pub aggregate_id : Text
  pub content : Content
  pub actor_user_id : Option Text
  pub device_id : Option Text
  pub hlc : Text
  pub recorded_at : ℕ
