-- ===== src/FieldStore/Visits.antt =====
-- packages/field-core/src/sqlite.ts: inspections, responses and evidence.
use agroassure.Prelude.{
  ℕ, Bool, true, not, ◌&&◌, Option, none, some, List, [], ◌∷◌, ◌++◌, filter, find, any,
  if◌then◌else◌, Text, text_eq,
}
use agroassure.Types.{RatingBand}
use agroassure.FieldStore.{
  EvidenceRow, AssignedFacility, LocalVersion, LocalInspection, LocalResponse, FieldStore,
}

abbrev pub is_inspection : Text → LocalInspection → Bool
is_inspection id i = text_eq i.id id

unfoldable pub inspection : Text → FieldStore → Option LocalInspection
inspection id s = find (is_inspection id) s.inspections

-- `none` where SQLite raises a constraint error.
unfoldable pub insert_inspection : LocalInspection → FieldStore → Option FieldStore
insert_inspection i s =
    if any (is_inspection i.id) s.inspections
    then none
    else some (record s { inspections = s.inspections ++ i ∷ [] })

-- What markSubmitted is given.
pub record SignOff : Type 0 where
  pub percent : ℕ
  pub band : RatingBand
  pub inspector_signed_at : Text
  pub rep_name : Text
  pub rep_signed_at : Text
  pub submitted_at : Text

abbrev pub sign_off : SignOff → LocalInspection → LocalInspection
sign_off o i = record i {
  is_submitted = true;
  rating = some (o.percent, o.band);
  inspector_signed_at = some o.inspector_signed_at;
  facility_rep_name = some o.rep_name;
  facility_signed_at = some o.rep_signed_at;
  submitted_at = some o.submitted_at;
}

abbrev pub submitted_at_id : Text → SignOff → List LocalInspection → List LocalInspection
submitted_at_id id o [] = []
submitted_at_id id o (i ∷ is) =
    (if is_inspection id i then sign_off o i else i) ∷ submitted_at_id id o is

unfoldable pub mark_submitted : Text → SignOff → FieldStore → FieldStore
mark_submitted id o s = record s { inspections = submitted_at_id id o s.inspections }

abbrev pub last_where : (LocalInspection → Bool) → List LocalInspection → Option LocalInspection
last_where p [] = none
last_where p (i ∷ is) = elim (last_where p is) [
  | some j ↦ some j
  | none ↦ if p i then some i else none
]

unfoldable pub open_inspection_for : Text → FieldStore → Option (Text × Text)
open_inspection_for facility_id s =
    elim (last_where
      (λ (i : LocalInspection). text_eq i.facility_id facility_id && not i.is_submitted)
      s.inspections) [ none ↦ none | some i ↦ some (i.id, i.reference) ]

abbrev band_of_rating : Option (ℕ × RatingBand) → Option RatingBand
band_of_rating none = none
band_of_rating (some (percent, band)) = some band

unfoldable pub submitted_inspection_for : Text → FieldStore → Option (Text × Option RatingBand)
submitted_inspection_for facility_id s =
    elim (last_where (λ (i : LocalInspection). text_eq i.facility_id facility_id && i.is_submitted)
      s.inspections) [ none ↦ none | some i ↦ some (i.id, band_of_rating i.rating) ]

abbrev pub answers : Text → Text → LocalResponse → Bool
answers inspection_id ref r = text_eq r.inspection_id inspection_id && text_eq r.checkpoint_ref ref

-- DO UPDATE SET response, remark and recorded_hlc
abbrev pub corrected_by : LocalResponse → LocalResponse → LocalResponse
corrected_by new old = record old {
  response = new.response;
  remark = new.remark;
  recorded_hlc = new.recorded_hlc;
}

abbrev pub put_response : LocalResponse → List LocalResponse → List LocalResponse
put_response new [] = new ∷ []
put_response new (r ∷ rs) =
    if answers new.inspection_id new.checkpoint_ref r
    then corrected_by new r ∷ rs
    else r ∷ put_response new rs

-- A new row whose id is taken would raise an error; ids are those of new events.
unfoldable pub upsert_response : LocalResponse → FieldStore → FieldStore
upsert_response r s = record s { responses = put_response r s.responses }

abbrev pub of_inspection : Text → LocalResponse → Bool
of_inspection id r = text_eq r.inspection_id id

unfoldable pub responses_of : Text → FieldStore → List LocalResponse
responses_of id s = filter (of_inspection id) s.responses

unfoldable pub insert_evidence : EvidenceRow → FieldStore → Option FieldStore
insert_evidence e s =
    if any (λ (f : EvidenceRow). text_eq f.evidence_id e.evidence_id) s.evidence
    then none
    else some (record s { evidence = s.evidence ++ e ∷ [] })

unfoldable pub evidence_for : Text → Text → FieldStore → List EvidenceRow
evidence_for inspection_id ref s =
    filter
      (λ (e : EvidenceRow). text_eq e.inspection_id inspection_id && text_eq e.checkpoint_ref ref)
      s.evidence

unfoldable pub facility : Text → FieldStore → Option AssignedFacility
facility id s = find (λ (f : AssignedFacility). text_eq f.id id) s.facilities

unfoldable pub instrument_version_for_type : Text → FieldStore → Option LocalVersion
instrument_version_for_type facility_type s =
    find (λ (v : LocalVersion). text_eq v.facility_type facility_type) s.versions

unfoldable pub instrument_version : Text → FieldStore → Option LocalVersion
instrument_version id s = find (λ (v : LocalVersion). text_eq v.id id) s.versions
