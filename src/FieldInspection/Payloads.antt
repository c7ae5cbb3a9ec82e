-- ===== src/FieldInspection/Payloads.antt =====
-- packages/field-core/src/inspection.ts: the payloads of the events that a visit authors.
use agroassure.Prelude.{
  ℕ, ◌+◌, ◌-◌, ◌/◌, ◌%◌, Option, none, some, List, [], ◌∷◌, ◌++◌, length, drop, ◌==◌, if◌then◌else◌,
  Text, codes, decimal, pad_start,
}
use agroassure.Json.{
  Json, Items, boolean, number, text, array, object, undefined, nil, cons, end, field,
}
use agroassure.Types.{
  CheckpointResponse, yes_response, no_response, na, RatingBand, satisfactory, needs_improvement,
  critical_issues, FindingSeverity, critical, major, minor,
}
use agroassure.Scoring.{RatingResult}
use agroassure.FieldStore.{AssignedFacility, LocalVersion}
use agroassure.FieldInspection.{
  GeoPoint, CheckinResult, RecordResponseInput, CaptureEvidenceInput, SubmitInput,
  ProvisionalFinding,
}

abbrev number_or_undefined : Option Text → Json
number_or_undefined none = undefined
number_or_undefined (some t) = number t

abbrev text_or_undefined : Option Text → Json
text_or_undefined none = undefined
text_or_undefined (some t) = text t

abbrev pub point_json : GeoPoint → Json
point_json at = object (
    field (codes "lat") (number at.lat) (
      field (codes "lng") (number at.lng)
        (field (codes "accuracyM") (number_or_undefined at.accuracy_m) end)))

-- slice(-6)
abbrev pub last_six : Text → Text
last_six t = drop (length t - 6) t

abbrev pub started_json : Text → AssignedFacility → LocalVersion → GeoPoint → CheckinResult → Json
started_json reference f v at checkin = object (
    field (codes "reference") (text reference) (
      field (codes "facilityId") (text f.id) (
        field (codes "instrumentVersionId") (text v.id) (
          field (codes "structureHash") (text v.structure_hash) (
            field (codes "checkin")
              (object (
                field (codes "point") (point_json at) (
                  field (codes "distanceFromRegisteredM")
                    (number (decimal checkin.distance_from_registered_m))
                    (field (codes "flagged") (boolean checkin.flagged) end))))
              end)))))

abbrev response_word : CheckpointResponse → Text
response_word yes_response = codes "yes"
response_word no_response = codes "no"
response_word na = codes "na"

abbrev texts_json : List Text → Items
texts_json [] = nil
texts_json (t ∷ ts) = cons (text t) (texts_json ts)

abbrev array_or_undefined : List Text → Json
array_or_undefined [] = undefined
array_or_undefined (t ∷ ts) = array (texts_json (t ∷ ts))

abbrev pub response_json : RecordResponseInput → Option Text → Json
response_json input remark = object (
    field (codes "checkpointRef") (text input.checkpoint_ref) (
      field (codes "response") (text (response_word input.response)) (
        field (codes "remark") (text_or_undefined remark)
          (field (codes "evidenceIds") (array_or_undefined input.evidence_ids) end))))

abbrev severity_text : FindingSeverity → Text
severity_text critical = codes "critical"
severity_text major = codes "major"
severity_text minor = codes "minor"

abbrev band_text : RatingBand → Text
band_text satisfactory = codes "satisfactory"
band_text needs_improvement = codes "needs_improvement"
band_text critical_issues = codes "critical_issues"

-- String of hundredths / 100.
abbrev percent_text : ℕ → Text
percent_text h =
    decimal (h / 100)
    ++ (if h % 100 == 0
        then []
        else codes "."
          ++ (if h % 10 == 0 then decimal (h % 100 / 10) else pad_start 2 (decimal (h % 100))))

abbrev pub finding_json : Text → Text → ℕ → ProvisionalFinding → Text → Json
finding_json inspection_id reference index finding due_date = object (
    field (codes "reference")
      (text
        (codes "CA-" ++ (last_six reference ++ (codes "-" ++ pad_start 2 (decimal (index + 1))))))
      (field (codes "inspectionId") (text inspection_id) (
        field (codes "checkpointRef") (text finding.checkpoint_ref) (
          field (codes "summary") (text finding.summary) (
            field (codes "severity") (text (severity_text finding.severity))
              (field (codes "dueDate") (text due_date) end))))))

abbrev pub submitted_json : RatingResult → ℕ → SubmitInput → Json
submitted_json result findings_count input = object (
    field (codes "ratingPercent") (number (percent_text result.rating_percent)) (
      field (codes "ratingBand") (text (band_text result.band)) (
        field (codes "findingsCount") (number (decimal findings_count)) (
          field (codes "inspector")
            (object (
              field (codes "userId") (text input.inspector_user_id)
                (field (codes "signedAt") (text input.inspector_signed_at) end)))
            (field (codes "facilityRep")
              (object (
                field (codes "name") (text input.rep_name) (
                  field (codes "role") (text input.rep_role)
                    (field (codes "signedAt") (text input.rep_signed_at) end))))
              end)))))

abbrev pub captured_json : Text → CaptureEvidenceInput → Json
captured_json evidence_id input = object (
    field (codes "evidenceId") (text evidence_id) (
      field (codes "checkpointRef") (text input.checkpoint_ref) (
        field (codes "sha256") (text input.sha256) (
          field (codes "mime") (text input.mime) (
            field (codes "capturedAt") (text input.captured_at)
              (field (codes "point") (point_json input.at) end))))))
