-- ===== src/FieldInspection.antt =====
-- packages/field-core/src/inspection.ts and geo.ts: one visit, authored offline.
pub mod Checklist
pub mod Payloads
pub mod Actions
pub mod Rules
pub mod Frames
pub mod Submission
pub mod Authoring
pub mod Completion
pub mod Refresh
pub mod Recording
use agroassure.Prelude.{
  ℕ, Bool, true, false, Option, none, some, List, ◌++◌, leb, if◌then◌else◌, Text, codes, decimal,
}
use agroassure.Types.{CheckpointResponse, FindingSeverity}
use agroassure.Hashing.{Platform}
use agroassure.Outbox.{Signer, AuthorError}
use agroassure.FieldStore.{FieldStore}

-- JavaScript's text and date functions: toUpperCase, trim, the milliseconds of new Date(text), with
-- `none` for an invalid date, toISOString().slice(0, 10), and Math.round of distanceMetres.
pub record Runtime : Type 0 where
  pub to_upper : Text → Text
  pub trim : Text → Text
  pub parse_date : Text → Option ℕ
  pub iso_date : ℕ → Text
  pub distance : Text × Text → Text × Text → ℕ

-- What a FieldInspection holds besides the store: its EventAuthor, and the functions it calls.
pub record Kit : Type 0 where
  pub platform : Platform
  pub runtime : Runtime
  pub signer : Signer
  pub actor_user_id : Text

-- What the clock and the random numbers answer while one event is authored; `fresh_id` is the
-- uuidv7() that the operation itself asks for.
pub record Tick : Type 0 where
  pub fresh_id : Text
  pub event_id : Text
  pub now : ℕ
  pub created_at : ℕ

pub record GeoPoint : Type 0 where
  pub lat : Text
  pub lng : Text
  pub accuracy_m : Option Text

pub record CheckinResult : Type 0 where
  pub distance_from_registered_m : ℕ
  pub flagged : Bool
  pub reason : Option Text

pub record StartInspectionInput : Type 0 where
  pub facility_id : Text
  pub jurisdiction_code : Text
  pub at : GeoPoint
  pub geofence_m : ℕ

pub record RecordResponseInput : Type 0 where
  pub checkpoint_ref : Text
  pub response : CheckpointResponse
  pub remark : Option Text
  pub evidence_ids : List Text

pub record CaptureEvidenceInput : Type 0 where
  pub checkpoint_ref : Text
  pub sha256 : Text
  pub local_uri : Text
  pub mime : Text
  pub captured_at : Text
  pub at : GeoPoint

pub record SubmitInput : Type 0 where
  pub inspector_user_id : Text
  pub inspector_signed_at : Text
  pub rep_name : Text
  pub rep_role : Text
  pub rep_signed_at : Text

pub record StartedInspection : Type 0 where
  pub inspection_id : Text
  pub reference : Text
  pub checkin : CheckinResult

pub record ProvisionalFinding : Type 0 where
  pub checkpoint_ref : Text
  pub severity : FindingSeverity
  pub summary : Text

-- The InspectionErrors in the order of the code, then what the calls throw: toISOString, author, and
-- SQLite on a constraint.
pub data InspectionError : Type 0 where
  not_in_bundle no_instrument na_not_accepted remark_needed : InspectionError
  unknown_inspection already_submitted no_bound_version not_on_instrument : InspectionError
  unanswered_left : List Text → InspectionError
  bad_date constraint : InspectionError
  not_authored : AuthorError → InspectionError

pub data Result {ℓ} (A : Type ℓ) : Type ℓ where
  ok : A → Result A
  raised : InspectionError → Result A

-- What was written before an error stays written.
abbrev pub Visit {ℓ} : Type ℓ → Type ℓ
Visit A = FieldStore → Result A × FieldStore

-- DEFAULT_GEOFENCE_M, the radius where the caller gives none.
abbrev pub default_geofence_m : ℕ
default_geofence_m = 250

unfoldable pub evaluate_checkin : Runtime → GeoPoint → Option (Text × Text) → ℕ → CheckinResult
evaluate_checkin rt actual none geofence_m = record {
  distance_from_registered_m = 0;
  flagged = false;
  reason = none;
}
evaluate_checkin rt actual (some registered) geofence_m =
    let distance = rt.distance (actual.lat, actual.lng) registered in
    if leb distance geofence_m
    then record { distance_from_registered_m = distance; flagged = false; reason = none }
    else record {
      distance_from_registered_m = distance;
      flagged = true;
      reason = some (
          codes "check-in "
          ++ (decimal distance
              ++ (codes "m from the registered point (limit "
                  ++ (decimal geofence_m ++ codes "m)"))));
    }
