-- ===== src/FieldInspection/Actions.antt =====
-- packages/field-core/src/inspection.ts: start, recordResponse, captureEvidence and submit.
use agroassure.Prelude.{
  ℕ, suc, Bool, true, false, not, Option, none, some, List, [], ◌∷◌, ◌++◌, length, if◌then◌else◌,
  Text, codes, decimal,
}
use agroassure.Json.{Json}
use agroassure.Types.{CheckpointResponse, no_response, na, FindingSeverity}
use agroassure.Scoring.{RatingResult}
use agroassure.FindingState.{default_sla, due_date_for}
use agroassure.Events.{DeviceEvent}
use agroassure.Outbox.{Request, authored, failed, author}
use agroassure.FieldStore.{Checkpoint, AssignedFacility, LocalInspection, FieldStore}
use agroassure.FieldStore.Visits.{
  inspection, insert_inspection, SignOff, mark_submitted, upsert_response, insert_evidence,
  facility, instrument_version_for_type,
}
use agroassure.FieldInspection.{
  Kit, Runtime, Tick, StartInspectionInput, RecordResponseInput, CaptureEvidenceInput, SubmitInput,
  StartedInspection, ProvisionalFinding, InspectionError, not_in_bundle, no_instrument,
  na_not_accepted, remark_needed, unknown_inspection, already_submitted, unanswered_left, bad_date,
  constraint, not_authored, Result, ok, raised, Visit, evaluate_checkin,
}
use agroassure.FieldInspection.Checklist.{
  or_raise, checkpoint, unanswered, provisional_findings, rating,
}
use agroassure.FieldInspection.Payloads.{
  last_six, started_json, response_json, captured_json, finding_json, submitted_json,
}

infixl 5 ◌>>=◌ ◌>>◌
abbrev pub ◌>>=◌ {ℓ κ} : {A : Type ℓ} {B : Type κ} → Visit A → (A → Visit B) → Visit B
(m >>= f) s = let (r, s') = m s in elim r [ ok a ↦ f a s' | raised e ↦ (raised e, s') ]

abbrev pub ◌>>◌ {ℓ} : {B : Type ℓ} → Visit (Unit {0}) → Visit B → Visit B
m >> k = m >>= λ _. k

abbrev pub pure {ℓ} : {A : Type ℓ} → A → Visit A
pure a s = (ok a, s)

abbrev pub read {ℓ} : {A : Type ℓ} → (FieldStore → Result A) → Visit A
read f s = (f s, s)

abbrev pub raise_if : Bool → InspectionError → Visit (Unit {0})
raise_if c e s = (if c then raised e else ok tt, s)

abbrev pub modify : (FieldStore → FieldStore) → Visit (Unit {0})
modify f s = (ok tt, f s)

-- A write that a constraint may refuse.
abbrev pub write : (FieldStore → Option FieldStore) → Visit (Unit {0})
write f s = elim (f s) [ some s' ↦ (ok tt, s') | none ↦ (raised constraint, s) ]

unfoldable pub authored_as : Kit → Text → Text → Text → Json → Tick → Visit DeviceEvent
authored_as kit aggregate_type aggregate_id event_type payload tick s =
    let request : Request = record {
      aggregate_type = aggregate_type;
      aggregate_id = aggregate_id;
      event_type = event_type;
      payload = payload;
      now = tick.now;
      event_id = tick.event_id;
      created_at = tick.created_at;
    } in
    elim (author kit.platform kit.signer kit.actor_user_id request s) [
      | authored e s' ↦ (ok e, s')
      | failed why ↦ (raised (not_authored why), s)
    ]

abbrev registered_point : AssignedFacility → Option (Text × Text)
registered_point f = elim f.reg_lat [
  | none ↦ none
  | some lat ↦ elim f.reg_lng [ none ↦ none | some lng ↦ some (lat, lng) ]
]

-- `year` is the UTC year of the device's clock.
unfoldable pub start : Kit → StartInspectionInput → ℕ → Tick → Visit StartedInspection
start kit input year tick = do
  let f = (← read (λ s. or_raise (facility input.facility_id s) not_in_bundle))
  let v = (← read (λ s. or_raise (instrument_version_for_type f.facility_type s) no_instrument))
  let checkin = evaluate_checkin kit.runtime input.at (registered_point f) input.geofence_m
  let reference =
      codes "INS-"
      ++ (kit.runtime.to_upper input.jurisdiction_code
          ++ (codes "-"
              ++ (decimal year ++ (codes "-" ++ kit.runtime.to_upper (last_six tick.fresh_id)))))
  write (
      insert_inspection (record {
        id = tick.fresh_id;
        reference = reference;
        facility_id = f.id;
        instrument_version_id = v.id;
        structure_hash = v.structure_hash;
        checkin_lat = input.at.lat;
        checkin_lng = input.at.lng;
        checkin_accuracy_m = input.at.accuracy_m;
        checkin_distance_m = checkin.distance_from_registered_m;
        checkin_flagged = checkin.flagged;
        is_submitted = false;
        rating = none;
        inspector_signed_at = none;
        facility_signed_at = none;
        facility_rep_name = none;
        submitted_at = none;
      }))
  let event =
      (← authored_as kit (codes "inspection") tick.fresh_id (codes "InspectionStarted")
        (started_json reference f v input.at checkin) tick)
  pure (record { inspection_id = tick.fresh_id; reference = reference; checkin = checkin })

-- remark?.trim(), where an empty text counts as none.
abbrev pub trimmed : Runtime → Option Text → Option Text
trimmed rt none = none
trimmed rt (some remark) = elim (rt.trim remark) [ [] ↦ none | c ∷ t ↦ some (c ∷ t) ]

abbrev pub breaks_na : CheckpointResponse → Checkpoint → Bool
breaks_na r spec = elim r [ na ↦ not spec.allows_na | _ ↦ false ]

abbrev pub lacks_remark : CheckpointResponse → Option Text → Bool
lacks_remark r remark = elim r [
  | no_response ↦ elim remark [ none ↦ true | some _ ↦ false ]
  | _ ↦ false
]

unfoldable pub record_response : Kit → Text → RecordResponseInput → Tick → Visit (Unit {0})
record_response kit inspection_id input tick = do
  let spec = (← read (checkpoint kit.platform inspection_id input.checkpoint_ref))
  let remark = trimmed kit.runtime input.remark
  raise_if (breaks_na input.response spec) na_not_accepted
  raise_if (lacks_remark input.response remark) remark_needed
  let event =
      (← authored_as kit (codes "inspection") inspection_id (codes "ResponseRecorded")
        (response_json input remark) tick)
  modify (
      upsert_response (record {
        id = event.event_id;
        inspection_id = inspection_id;
        checkpoint_ref = input.checkpoint_ref;
        response = input.response;
        remark = remark;
        weight = spec.weight;
        recorded_hlc = event.hlc;
      }))

unfoldable pub capture_evidence : Kit → Text → CaptureEvidenceInput → Tick → Visit Text
capture_evidence kit inspection_id input tick = do
  let spec = (← read (checkpoint kit.platform inspection_id input.checkpoint_ref))
  write (
      insert_evidence (record {
        evidence_id = tick.fresh_id;
        inspection_id = inspection_id;
        checkpoint_ref = input.checkpoint_ref;
        sha256 = input.sha256;
        local_uri = input.local_uri;
        mime = input.mime;
        captured_at = input.captured_at;
        lat = input.at.lat;
        lng = input.at.lng;
        accuracy_m = input.at.accuracy_m;
        uploaded = false;
      }))
  let event =
      (← authored_as kit (codes "inspection") inspection_id (codes "EvidenceCaptured")
        (captured_json tick.fresh_id input) tick)
  pure tick.fresh_id

-- toISOString throws on an invalid date.
abbrev due_text : Runtime → Option ℕ → FindingSeverity → Result Text
due_text rt none severity = raised bad_date
due_text rt (some raised_on) severity =
    ok (rt.iso_date (due_date_for severity raised_on default_sla))

-- The loop over the findings; `index` counts the ones before, and the ticks are numbered likewise.
unfoldable pub raise_findings :
    Kit → LocalInspection → Option ℕ → (ℕ → Tick) → ℕ → List ProvisionalFinding → Visit (Unit {0})
raise_findings kit i raised_on ticks index [] = pure tt
raise_findings kit i raised_on ticks index (finding ∷ findings) = do
  let due_date = (← read (λ s. due_text kit.runtime raised_on finding.severity))
  let event =
      (← authored_as kit (codes "finding") (ticks index).fresh_id (codes "FindingRaised")
        (finding_json i.id i.reference index finding due_date) (ticks index))
  raise_findings kit i raised_on ticks (suc index) findings

abbrev pub sign_off_of : RatingResult → SubmitInput → SignOff
sign_off_of result input = record {
  percent = result.rating_percent;
  band = result.band;
  inspector_signed_at = input.inspector_signed_at;
  rep_name = input.rep_name;
  rep_signed_at = input.rep_signed_at;
  submitted_at = input.rep_signed_at;
}

abbrev pub unless_empty : List Text → Visit (Unit {0})
unless_empty [] = pure tt
unless_empty (ref ∷ refs) = λ s. (raised (unanswered_left (ref ∷ refs)), s)

-- The guards of submit, up to the point where it starts to author.
unfoldable pub check_submission : Text → Visit LocalInspection
check_submission inspection_id = do
  let i = (← read (λ s. or_raise (inspection inspection_id s) unknown_inspection))
  raise_if i.is_submitted already_submitted
  let missing = (← read (unanswered inspection_id))
  unless_empty missing
  pure i

unfoldable pub submit : Kit → Text → SubmitInput → (ℕ → Tick) → Visit RatingResult
submit kit inspection_id input ticks = do
  let i = (← check_submission inspection_id)
  let result = (← read (rating kit.platform inspection_id))
  let findings = (← read (provisional_findings kit.platform inspection_id))
  raise_findings kit i (kit.runtime.parse_date input.inspector_signed_at) ticks 0 findings
  let event =
      (← authored_as kit (codes "inspection") inspection_id (codes "InspectionSubmitted")
        (submitted_json result (length findings) input) (ticks (length findings)))
  modify (mark_submitted inspection_id (sign_off_of result input))
  pure result
