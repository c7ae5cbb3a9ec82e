-- ===== src/Projection.antt =====
-- services/sync-gateway/src/projections: the tables that are derived from the event store, and the
-- payloads that their handlers read (packages/domain/src/events.ts). Coordinates and distances are
-- texts, since nothing is computed with them; times are microseconds and dates are days.
pub mod Payloads
pub mod Rows
pub mod Facilities
pub mod FindingRows
pub mod Assignments
pub mod Answers
pub mod Exhibits
pub mod Inspections
pub mod Certificates
pub mod Apply
pub mod Statuses
pub mod LateSync
pub mod Replay
pub mod Places
pub mod Batches
pub mod Pending
pub mod LateCommit
use agroassure.Prelude.{ℕ, Bool, Option, List, Text}
use agroassure.Types.{
  CheckpointResponse, RatingBand, FindingSeverity, FindingStatus, CertificateStatus,
}
use agroassure.Json.{Json}

pub record GeoPoint : Type 0 where
  pub lat : Text
  pub lng : Text
  pub accuracy_m : Option Text

-- The tables that the projector only reads.
pub record CheckpointSpec : Type 0 where
  pub section_ordinal : ℕ
  pub ordinal : ℕ
  pub weight : ℕ

pub record InstrumentVersion : Type 0 where
  pub id : Text
  pub in_force : Bool
  pub satisfactory_min : ℕ
  pub needs_improve_min : ℕ
  pub checkpoints : List CheckpointSpec

pub record IssuingAuthority : Type 0 where
  pub id : Text
  pub jurisdiction_id : Text
  pub created_at : ℕ

pub record References : Type 0 where
  pub jurisdictions : List Text
  pub users : List Text
  pub devices : List Text
  pub versions : List InstrumentVersion
  pub authorities : List IssuingAuthority

-- The projected tables.
pub record FacilityRow : Type 0 where
  pub id : Text
  pub jurisdiction_id : Text
  pub licence_number : Text
  pub facility_type : Text
  pub name : Text
  pub owner_contact : Json
  pub address : Json
  pub lga : Option Text
  pub registered_point : Option (Text × Text)
  pub registered_accuracy_m : Option Text
  pub registered_at : ℕ

pub data InspectionStatus : Type 0 where
  in_progress submitted : InspectionStatus

pub record InspectionRow : Type 0 where
  pub id : Text
  pub reference : Text
  pub facility_id : Text
  pub instrument_version_id : Text
  pub structure_hash : Text
  pub inspector_user_id : Text
  pub device_id : Text
  pub checkin_point : GeoPoint
  pub checkin_distance_m : Text
  pub checkin_flagged : Bool
  pub version_discrepancy : Bool
  pub status : InspectionStatus
  pub rating_percent : Option ℕ
  pub rating_band : Option RatingBand
  pub findings_count : ℕ
  pub inspector_signed_at : Option ℕ
  pub facility_signed_at : Option ℕ
  pub facility_rep_name : Option Text
  pub submitted_at : Option ℕ

pub record ResponseRow : Type 0 where
  pub id : Text
  pub inspection_id : Text
  pub checkpoint_ref : Text
  pub response : CheckpointResponse
  pub remark : Option Text
  pub weight : ℕ
  pub recorded_hlc : Text

pub record ExhibitRow : Type 0 where
  pub id : Text
  pub inspection_id : Text
  pub checkpoint_ref : Text
  pub sha256 : Text
  pub object_key : Text
  pub mime : Text
  pub captured_at : ℕ
  pub point : GeoPoint
  pub locked : Bool

pub record FindingRow : Type 0 where
  pub id : Text
  pub reference : Text
  pub inspection_id : Text
  pub checkpoint_response_id : Option Text
  pub checkpoint_ref : Text
  pub summary : Text
  pub severity : FindingSeverity
  pub owner_user_id : Option Text
  pub owner_label : Option Text
  pub due_date : ℕ
  pub status : FindingStatus
  pub escalated_to : Option Text
  pub escalated_at : Option ℕ
  pub closure_submitted_at : Option ℕ
  pub closed_at : Option ℕ
  pub closed_by_user_id : Option Text
  pub created_at : ℕ

pub record DecisionRow : Type 0 where
  pub id : Text
  pub inspection_id : Text
  pub officer_id : Text
  pub decision_type : Text
  pub basis : Option Text
  pub decided_at : ℕ

pub record CertificateRow : Type 0 where
  pub id : Text
  pub serial : Text
  pub facility_id : Text
  pub inspection_id : Text
  pub decision_id : Text
  pub authorising_officer_id : Text
  pub issuing_authority_id : Text
  pub rating_band : RatingBand
  pub rating_percent : ℕ
  pub issued_on : ℕ
  pub valid_to : ℕ
  pub next_due_on : ℕ
  pub status : CertificateStatus
  pub verification_token : Text

-- Planning data, which the projector writes to and a rebuild leaves.
pub data AssignmentStatus : Type 0 where
  planned under_way completed cancelled : AssignmentStatus

pub record AssignmentRow : Type 0 where
  pub id : Text
  pub facility_id : Text
  pub assigned_to_user_id : Text
  pub due_by : Option ℕ
  pub created_at : ℕ
  pub status : AssignmentStatus
  pub inspection_id : Option Text

pub record Tables : Type 0 where
  pub facilities : List FacilityRow
  pub inspections : List InspectionRow
  pub responses : List ResponseRow
  pub exhibits : List ExhibitRow
  pub findings : List FindingRow
  pub decisions : List DecisionRow
  pub certificates : List CertificateRow
  pub assignments : List AssignmentRow
