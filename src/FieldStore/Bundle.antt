-- ===== src/FieldStore/Bundle.antt =====
-- packages/field-core/src/sqlite.ts and sync.ts: the tables that the pre-departure bundle fills, and
-- applyBootstrap.
use agroassure.Prelude.{
  Bool, true, false, not, ◌&&◌, some, List, [], ◌∷◌, ◌++◌, filter, any, if◌then◌else◌, Text, codes,
  text_eq,
}
use agroassure.FieldStore.{AssignedFacility, LocalVersion, PriorFinding, FieldStore}

pub record BootstrapBundle : Type 0 where
  pub jurisdiction_code : Text
  pub facilities : List AssignedFacility
  pub instrument_versions : List LocalVersion
  pub prior_findings : List PriorFinding

-- `to_upper` is toUpperCase.
unfoldable pub set_jurisdiction_code : (Text → Text) → Text → FieldStore → FieldStore
set_jurisdiction_code to_upper code s = record s { jurisdiction_code = some (to_upper code) }

abbrev pub other_facility : Text → AssignedFacility → Bool
other_facility id f = not (text_eq f.id id)

-- INSERT OR REPLACE: the row with the same key goes, and the new one comes last.
unfoldable pub put_facilities :
    List AssignedFacility → List AssignedFacility → List AssignedFacility
put_facilities [] table = table
put_facilities (f ∷ fs) table = put_facilities fs (filter (other_facility f.id) table ++ f ∷ [])

unfoldable pub replace_assigned_facilities : List AssignedFacility → FieldStore → FieldStore
replace_assigned_facilities fs s = record s { facilities = put_facilities fs [] }

-- Where the loops of INSERTs end: at their end, or at a row whose key is taken.
pub data Filled : Type 0 where
  filled broken : FieldStore → Filled

unfoldable pub insert_versions : List LocalVersion → FieldStore → Filled
insert_versions [] s = filled s
insert_versions (v ∷ vs) s = elim (any (λ (w : LocalVersion). text_eq w.id v.id) s.versions) [
  | true ↦ broken s
  | false ↦ insert_versions vs (record s { versions = s.versions ++ v ∷ [] })
]

unfoldable pub replace_instrument_versions : List LocalVersion → FieldStore → Filled
replace_instrument_versions vs s = insert_versions vs (record s { versions = [] })

unfoldable pub insert_prior_findings : List PriorFinding → FieldStore → Filled
insert_prior_findings [] s = filled s
insert_prior_findings (f ∷ fs) s =
    elim (any (λ (g : PriorFinding). text_eq g.id f.id) s.prior_findings) [
      | true ↦ broken s
      | false ↦ insert_prior_findings fs (record s { prior_findings = s.prior_findings ++ f ∷ [] })
    ]

unfoldable pub replace_prior_findings : List PriorFinding → FieldStore → Filled
replace_prior_findings fs s = insert_prior_findings fs (record s { prior_findings = [] })

unfoldable pub prior_findings_of : Text → FieldStore → List PriorFinding
prior_findings_of facility_id s =
    filter
      (λ (f : PriorFinding).
        text_eq f.facility_id facility_id && not (text_eq f.status (codes "closed")))
      s.prior_findings

unfoldable pub apply_bootstrap : (Text → Text) → BootstrapBundle → FieldStore → Filled
apply_bootstrap to_upper bundle s =
    let coded =
      if text_eq bundle.jurisdiction_code []
      then s
      else set_jurisdiction_code to_upper bundle.jurisdiction_code s in
    let placed = replace_assigned_facilities bundle.facilities coded in
    elim (replace_instrument_versions bundle.instrument_versions placed) [
      | broken s' ↦ broken s'
      | filled s' ↦ replace_prior_findings bundle.prior_findings s'
    ]
