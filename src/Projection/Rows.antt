-- ===== src/Projection/Rows.antt =====
-- What the handlers' SQL does to a table.
use agroassure.Prelude.{
  ℕ, Bool, true, false, Option, none, some, List, [], ◌∷◌, any, filter, length, if◌then◌else◌, Text,
  text_eq,
}
use agroassure.Projection.{
  InstrumentVersion, FacilityRow, InspectionRow, FindingRow, DecisionRow, CertificateRow,
}

-- UPDATE … SET f WHERE p
abbrev pub update_where {ℓ} : {A : Type ℓ} → (A → Bool) → (A → A) → List A → List A
update_where p f [] = []
update_where p f (a ∷ l) = (if p a then f a else a) ∷ update_where p f l

abbrev pub coalesce {ℓ} : {A : Type ℓ} → Option A → A → A
coalesce none a = a
coalesce (some b) a = b

-- A constraint that is not met raises an error, which rolls the transaction back.
abbrev pub checked {ℓ} : {A : Type ℓ} → Bool → A → Option A
checked true a = some a
checked false a = none

-- A nullable foreign key.
abbrev pub refers : List Text → Option Text → Bool
refers ids none = true
refers ids (some id) = any (text_eq id) ids

-- A foreign key that is NOT NULL.
abbrev pub refers_strictly : List Text → Option Text → Bool
refers_strictly ids none = false
refers_strictly ids (some id) = any (text_eq id) ids

abbrev pub is_facility : Text → FacilityRow → Bool
is_facility id f = text_eq f.id id

abbrev pub is_inspection : Text → InspectionRow → Bool
is_inspection id i = text_eq i.id id

abbrev pub is_version : Text → InstrumentVersion → Bool
is_version id v = text_eq v.id id

abbrev pub is_finding : Text → FindingRow → Bool
is_finding id f = text_eq f.id id

abbrev pub is_decision : Text → DecisionRow → Bool
is_decision id d = text_eq d.id id

abbrev pub is_certificate : Text → CertificateRow → Bool
is_certificate id c = text_eq c.id id

abbrev pub of_inspection : Text → FindingRow → Bool
of_inspection id f = text_eq f.inspection_id id

-- (SELECT count(*) FROM finding WHERE inspection_id = id)
abbrev pub count_findings : Text → List FindingRow → ℕ
count_findings id findings = length (filter (of_inspection id) findings)
