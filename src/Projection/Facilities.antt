-- ===== src/Projection/Facilities.antt =====
-- projector.service.ts: the handlers of the facility events.
use agroassure.Prelude.{
  ℕ, Bool, not, ◌&&◌, Option, none, some, List, [], ◌∷◌, ◌++◌, any, if◌then◌else◌, Text, text_eq,
}
use agroassure.Json.{object, end}
use agroassure.Projection.{GeoPoint, References, FacilityRow, Tables}
use agroassure.Projection.Payloads.{FacilityRegisteredPayload, FacilityUpdatedPayload}
use agroassure.Projection.Rows.{update_where, coalesce, checked, is_facility}

abbrev position : Option GeoPoint → Option (Text × Text)
position none = none
position (some p) = some (p.lat, p.lng)

abbrev accuracy : Option GeoPoint → Option Text
accuracy none = none
accuracy (some p) = p.accuracy_m

-- UNIQUE (jurisdiction_id, licence_number)
abbrev same_licence : FacilityRow → FacilityRow → Bool
same_licence f g =
    text_eq g.jurisdiction_id f.jurisdiction_id && text_eq g.licence_number f.licence_number

abbrev facility_of : Text → ℕ → FacilityRegisteredPayload → FacilityRow
facility_of id recorded_at p = record {
  id = id;
  jurisdiction_id = p.jurisdiction_id;
  licence_number = p.licence_number;
  facility_type = p.facility_type;
  name = p.name;
  owner_contact = coalesce p.owner_contact (object end);
  address = coalesce p.address (object end);
  lga = p.lga;
  registered_point = position p.registered_point;
  registered_accuracy_m = accuracy p.registered_point;
  registered_at = recorded_at;
}

unfoldable pub facility_registered :
    References → Text → ℕ → FacilityRegisteredPayload → Tables → Option Tables
facility_registered refs id recorded_at p t =
    let row = facility_of id recorded_at p in
    if any (is_facility id) t.facilities
    then some t
    else checked
        (any (text_eq p.jurisdiction_id) refs.jurisdictions
          && not (any (same_licence row) t.facilities))
        (record t { facilities = t.facilities ++ row ∷ [] })

abbrev with_update : FacilityUpdatedPayload → FacilityRow → FacilityRow
with_update p f = record f {
  licence_number = coalesce p.licence_number f.licence_number;
  facility_type = coalesce p.facility_type f.facility_type;
  name = coalesce p.name f.name;
  owner_contact = coalesce p.owner_contact f.owner_contact;
  address = coalesce p.address f.address;
  lga = elim p.lga [ none ↦ f.lga | some lga ↦ some lga ];
  registered_point = elim p.registered_point [
    | none ↦ f.registered_point
    | some point ↦ some (point.lat, point.lng)
  ];
  registered_accuracy_m = elim (accuracy p.registered_point) [
    | none ↦ f.registered_accuracy_m
    | some metres ↦ some metres
  ];
}

-- Another facility with the licence number that the updated one would have.
abbrev takes_licence : Text → FacilityUpdatedPayload → FacilityRow → FacilityRow → Bool
takes_licence id p f g = not (is_facility id g) && same_licence (with_update p f) g

abbrev licence_taken : Text → FacilityUpdatedPayload → List FacilityRow → FacilityRow → Bool
licence_taken id p facilities f = is_facility id f && any (takes_licence id p f) facilities

unfoldable pub facility_updated : Text → FacilityUpdatedPayload → Tables → Option Tables
facility_updated id p t =
    checked (not (any (licence_taken id p t.facilities) t.facilities))
      (record t { facilities = update_where (is_facility id) (with_update p) t.facilities })
