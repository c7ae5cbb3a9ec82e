-- ===== src/Projection/Inspections.antt =====
-- projector.service.ts: inspectionStarted, inspectionSubmitted and recomputeRating.
use agroassure.Prelude.{
  ℕ, ◌+◌, ◌-◌, Bool, true, false, not, ◌&&◌, Option, none, some, [], ◌∷◌, ◌++◌, map, any, filter,
  find, ltb, if◌then◌else◌, Text, text_eq,
}
use agroassure.Types.{closed, status_eq, RatingBand}
use agroassure.Scoring.{ScoredCheckpoint, FindingLike, RatingResult, score_inspection}
use agroassure.Projection.{
  References, in_progress, submitted, InspectionRow, ResponseRow, FindingRow, Tables,
}
use agroassure.Projection.Payloads.{InspectionStartedPayload, InspectionSubmittedPayload}
use agroassure.Projection.Rows.{
  update_where, checked, refers_strictly, is_inspection, is_version, is_facility, of_inspection,
  count_findings,
}
use agroassure.Projection.FindingRows.{date_of}
use agroassure.Projection.Assignments.{claim, complete}
use agroassure.Projection.Exhibits.{decodes, lower_hex}

abbrev or_empty : Option Text → Text
or_empty none = []
or_empty (some t) = t

abbrev discrepancy : Text → References → Bool
discrepancy version_id refs = elim (find (is_version version_id) refs.versions) [
  | none ↦ false
  | some v ↦ not v.in_force
]

abbrev pub started_row :
    References → Text → Option Text → Option Text → InspectionStartedPayload → InspectionRow
started_row refs id actor device p = record {
  id = id;
  reference = p.reference;
  facility_id = p.facility_id;
  instrument_version_id = p.instrument_version_id;
  structure_hash = lower_hex p.structure_hash;
  inspector_user_id = or_empty actor;
  device_id = or_empty device;
  checkin_point = p.point;
  checkin_distance_m = p.distance_from_registered_m;
  checkin_flagged = p.flagged;
  version_discrepancy = discrepancy p.instrument_version_id refs;
  status = in_progress;
  rating_percent = none;
  rating_band = none;
  findings_count = 0;
  inspector_signed_at = none;
  facility_signed_at = none;
  facility_rep_name = none;
  submitted_at = none;
}

-- NOT NULL and the foreign keys, in front of them the cast of the hash.
abbrev startable : References → Option Text → Option Text → InspectionStartedPayload → Tables → Bool
startable refs actor device p t =
    any (is_facility p.facility_id) t.facilities
    && any (is_version p.instrument_version_id) refs.versions
    && refers_strictly refs.users actor
    && refers_strictly refs.devices device
    && not (any (λ (i : InspectionRow). text_eq i.reference p.reference) t.inspections)

abbrev is_given : Option Text → Bool
is_given none = false
is_given (some t) = true

unfoldable pub insert_started :
    References
    → Text
    → Option Text
    → Option Text
    → InspectionStartedPayload
    → Tables
    → Option Tables
insert_started refs id actor device p t =
    if not (decodes p.structure_hash && is_given actor && is_given device)
    then none
    else if any (is_inspection id) t.inspections
    then some t
    else checked (startable refs actor device p t)
        (record t { inspections = t.inspections ++ started_row refs id actor device p ∷ [] })

unfoldable pub inspection_started :
    References
    → Text
    → Option Text
    → Option Text
    → InspectionStartedPayload
    → Tables
    → Option Tables
inspection_started refs id actor device p t = elim (insert_started refs id actor device p t) [
  | none ↦ none
  | some t' ↦ some (record t' { assignments = claim id p.facility_id actor t'.assignments })
]

-- The rating from the stored answers, findings and bands.
abbrev pub scored : ResponseRow → ScoredCheckpoint
scored r = record { weight = r.weight; response = r.response }

abbrev pub held_against : FindingRow → FindingLike
held_against f = record { severity = f.severity; is_open = not (status_eq f.status closed) }

abbrev pub answer_of : Text → ResponseRow → Bool
answer_of id r = text_eq r.inspection_id id

unfoldable pub recompute_rating : References → Text → Tables → Option RatingResult
recompute_rating refs id t = elim (find (is_inspection id) t.inspections) [
  | none ↦ none
  | some i ↦ elim (find (is_version i.instrument_version_id) refs.versions) [
    | none ↦ none
    | some v ↦ some (
        score_inspection (map scored (filter (answer_of id) t.responses))
          (map held_against (filter (of_inspection id) t.findings))
          (record {
            satisfactory_min = v.satisfactory_min;
            needs_improvement_min = v.needs_improve_min;
          }))
  ]
]

abbrev percent_of : Option RatingResult → InspectionSubmittedPayload → ℕ
percent_of none p = p.rating_percent
percent_of (some r) p = r.rating_percent

abbrev band_from : Option RatingResult → InspectionSubmittedPayload → RatingBand
band_from none p = p.rating_band
band_from (some r) p = r.band

abbrev pub signed_off :
    Option RatingResult → ℕ → InspectionSubmittedPayload → InspectionRow → InspectionRow
signed_off rating findings_count p i = record i {
  status = submitted;
  rating_percent = some (percent_of rating p);
  rating_band = some (band_from rating p);
  findings_count = findings_count;
  inspector_signed_at = some p.inspector_signed_at;
  facility_signed_at = some p.rep_signed_at;
  facility_rep_name = some p.rep_name;
  submitted_at = some p.inspector_signed_at;
}

-- A finding that was inserted after the signing is dated back to it. Dates are far above 0, so the
-- subtraction is that of the days.
abbrev pub dated_back : ℕ → FindingRow → FindingRow
dated_back submitted_at f = record f {
  created_at = submitted_at;
  due_date = date_of submitted_at + f.due_date - date_of f.created_at;
}

abbrev pub raised_after : Text → ℕ → FindingRow → Bool
raised_after id submitted_at f = of_inspection id f && ltb submitted_at f.created_at

unfoldable pub inspection_submitted :
    References → Text → InspectionSubmittedPayload → Tables → Tables
inspection_submitted refs id p t =
    let rating = recompute_rating refs id t in
    let known = any (is_inspection id) t.inspections in
    record t {
      inspections =
          update_where (is_inspection id) (signed_off rating (count_findings id t.findings) p)
            t.inspections;
      findings =
          if known
          then update_where (raised_after id p.inspector_signed_at)
              (dated_back p.inspector_signed_at) t.findings
          else t.findings;
      assignments = complete id t.assignments;
    }
