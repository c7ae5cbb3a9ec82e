-- ===== src/Tests/Projections.antt =====
-- The projector on a facility with two assignments, and a visit that arrives four days late.
use agroassure.Prelude.{
  ℕ, ◌+◌, ◌-◌, ◌*◌, ◌<◌, true, false, Option, none, some, [], ◌∷◌, ◌≡◌, refl, arith, any, find,
  filter, Text, text_eq, codes,
}
use agroassure.Types.{major, minor, satisfactory, open_status}
use agroassure.Json.{object, end}
use agroassure.FindingState.{day_ms}
use agroassure.Projection.{
  GeoPoint, References, FacilityRow, FindingRow, AssignmentRow, planned, Tables,
}
use agroassure.Projection.Payloads.{
  InspectionStartedPayload, FindingRaisedPayload, InspectionSubmittedPayload, Content, StoredEvent,
}
use agroassure.Projection.Rows.{is_finding}
use agroassure.Projection.FindingRows.{date_of, finding_raised, finding_became_overdue}
use agroassure.Projection.Assignments.{claim, claimable}
use agroassure.Projection.Answers.{refused}
use agroassure.Projection.Inspections.{insert_started, inspection_started, inspection_submitted}
use agroassure.Projection.Apply.{
  Setting, apply, compare_place, is_after, Database, lag, apply_batch, apply_pending, rebuild,
}
use agroassure.Projection.Statuses.{Grows, apply-Grows}
use agroassure.Projection.Pending.{Settled, cleared, Rebuilt, apply_pending_lem, rebuild_lem}
use agroassure.Projection.Places.{InPlace}
use agroassure.Projection.LateSync.{late_sync}
use agroassure.Projection.Replay.{Replays, replay_claims}

abbrev refs : References
refs = record {
  jurisdictions = codes "kt" ∷ [];
  users = codes "ann" ∷ [];
  devices = codes "dev" ∷ [];
  versions =
      record {
        id = codes "v1";
        in_force = true;
        satisfactory_min = 8000;
        needs_improve_min = 6000;
        checkpoints = [];
      }
      ∷ [];
  authorities = [];
}

abbrev pub setting : Setting
setting = record { to_int = λ t. refused; refs = refs }

abbrev shop : FacilityRow
shop = record {
  id = codes "f1";
  jurisdiction_id = codes "kt";
  licence_number = codes "L1";
  facility_type = codes "agro_dealer";
  name = codes "Shop";
  owner_contact = object end;
  address = object end;
  lga = none;
  registered_point = none;
  registered_accuracy_m = none;
  registered_at = 0;
}

abbrev task : Text → AssignmentRow
task id = record {
  id = id;
  facility_id = codes "f1";
  assigned_to_user_id = codes "ann";
  due_by = none;
  created_at = 0;
  status = planned;
  inspection_id = none;
}

abbrev before : Tables
before = record {
  facilities = shop ∷ [];
  inspections = [];
  responses = [];
  exhibits = [];
  findings = [];
  decisions = [];
  certificates = [];
  assignments = task (codes "a1") ∷ task (codes "a2") ∷ [];
}

abbrev here : GeoPoint
here = record { lat = codes "12"; lng = codes "7"; accuracy_m = none }

abbrev visit : InspectionStartedPayload
visit = record {
  reference = codes "INS-1";
  facility_id = codes "f1";
  instrument_version_id = codes "v1";
  structure_hash = codes "0a";
  point = here;
  distance_from_registered_m = codes "0";
  flagged = false;
}

abbrev or_before : Option Tables → Tables
or_before none = before
or_before (some t) = t

abbrev started : Tables
started =
    or_before
      (inspection_started refs (codes "i1") (some (codes "ann")) (some (codes "dev")) visit before)

started_lem :
    inspection_started refs (codes "i1") (some (codes "ann")) (some (codes "dev")) visit before
    ≡ some started
unfolding inspection_started insert_started claim text_eq
started_lem = refl

-- The other assignment is free still.
second_free : any (claimable (codes "f1") (some (codes "ann"))) started.assignments ≡ true
unfolding inspection_started insert_started claim text_eq
second_free = refl

replay_claims_example :
    Replays refs (codes "i1") (some (codes "ann")) (some (codes "dev")) visit started
replay_claims_example =
    replay_claims refs (codes "i1") (some (codes "ann")) (some (codes "dev")) visit before started
      started_lem

-- Signed on day 0, arrived on day 4, due on day 7.
abbrev raised : FindingRaisedPayload
raised = record {
  reference = codes "CA-1";
  inspection_id = codes "i1";
  checkpoint_ref = codes "1.1";
  summary = codes "Bags on the floor";
  severity = major;
  owner_label = none;
  owner_user_id = none;
  due_date = some 7;
}

abbrev signed : InspectionSubmittedPayload
signed = record {
  rating_percent = 9000;
  rating_band = satisfactory;
  findings_count = 1;
  inspector_user_id = codes "ann";
  inspector_signed_at = 5;
  rep_name = codes "Musa";
  rep_role = codes "owner";
  rep_signed_at = 5;
}

abbrev arrived : Tables
arrived = or_before (finding_raised refs (codes "n1") (4 * day_ms) (4 * day_ms) raised started)

arrived_lem :
    finding_raised refs (codes "n1") (4 * day_ms) (4 * day_ms) raised started ≡ some arrived
unfolding finding_raised inspection_started insert_started claim text_eq
arrived_lem = refl

none_raised : any (is_finding (codes "n1")) started.findings ≡ false
unfolding inspection_started insert_started claim text_eq
none_raised = refl

late_sync_example :
    (f : FindingRow) × (find
        (is_finding (codes "n1"))
        (inspection_submitted refs (codes "i1") signed arrived).findings
      ≡ some f)
    × (f.due_date ≡ date_of 5 + 7 - date_of (4 * day_ms))
    × (date_of 5 < date_of (4 * day_ms) → 0 < 7 → f.due_date < 7)
late_sync_example =
    late_sync refs (codes "n1") (4 * day_ms) (4 * day_ms) 7 raised signed started arrived refl
      none_raised arrived_lem (omega arith)

-- Two events on one finding.
abbrev finding : FindingRow
finding = record {
  id = codes "n1";
  reference = codes "CA-1";
  inspection_id = codes "i1";
  checkpoint_response_id = none;
  checkpoint_ref = codes "1.1";
  summary = codes "Bags on the floor";
  severity = minor;
  owner_user_id = none;
  owner_label = none;
  due_date = 7;
  status = open_status;
  escalated_to = none;
  escalated_at = none;
  closure_submitted_at = none;
  closed_at = none;
  closed_by_user_id = none;
  created_at = 0;
}

abbrev pub event : Text → ℕ → Content → StoredEvent
event id at content = record {
  event_id = id;
  aggregate_id = codes "n1";
  content = content;
  actor_user_id = none;
  device_id = none;
  hlc = [];
  recorded_at = at;
}

abbrev pub tracked : Tables
tracked = record before { findings = finding ∷ [] }

abbrev late_event : StoredEvent
late_event = event (codes "e1") 1 Content.finding_became_overdue

apply-Grows_example : Grows tracked.findings (finding_became_overdue (codes "n1") tracked).findings
apply-Grows_example =
    apply-Grows setting 0 late_event tracked (finding_became_overdue (codes "n1") tracked)
      applied_lem
  where
    applied_lem :
        apply setting 0 late_event tracked ≡ some (finding_became_overdue (codes "n1") tracked)
    applied_lem = unfold apply in refl

abbrev database : Database
database = record {
  tables = tracked;
  cursor = none;
  events = late_event ∷ event (codes "e2") 2 Content.finding_closure_rejected ∷ [];
}

small_lag : lag database < 3
unfolding lag
small_lag = omega arith

in_order : InPlace database.events
unfolding compare_place
in_order = ((refl, tt), (tt, tt))

apply_pending_lem_example :
    (apply_pending setting 0 1 3 0 database
      ≡ some (apply_batch setting 0 (filter (is_after none) database.events) 0 database))
    × Settled setting 0 0 database
        (apply_batch setting 0 (filter (is_after none) database.events) 0 database)
apply_pending_lem_example =
    apply_pending_lem setting 0 1 3 0 database in_order (omega arith) small_lag

rebuild_lem_example :
    (rebuild setting 0 1 3 database
      ≡ some (apply_batch setting 0 database.events 0 (cleared database)))
    × Rebuilt setting 0 database (apply_batch setting 0 database.events 0 (cleared database))
rebuild_lem_example = rebuild_lem setting 0 1 3 database in_order (omega arith) (omega arith)
