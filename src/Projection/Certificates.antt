-- ===== src/Projection/Certificates.antt =====
-- projector.service.ts: the handlers of the decision and certificate events.
use agroassure.Prelude.{
  ℕ, Bool, not, ◌&&◌, Option, none, some, List, [], ◌∷◌, ◌++◌, any, filter, find, ltb,
  if◌then◌else◌, Text, text_eq,
}
use agroassure.Types.{RatingBand, valid, revoked}
use agroassure.Projection.{IssuingAuthority, References, CertificateRow, Tables}
use agroassure.Projection.Payloads.{DecisionRecordedPayload, CertificateAuthorisedPayload}
use agroassure.Projection.Rows.{
  update_where, checked, is_facility, is_inspection, is_decision, is_certificate,
}

unfoldable pub decision_recorded : References → DecisionRecordedPayload → Tables → Option Tables
decision_recorded refs p t =
    if any (is_decision p.decision_id) t.decisions
    then some t
    else checked
        (any (is_inspection p.inspection_id) t.inspections && any (text_eq p.officer_id) refs.users)
        (record t {
          decisions =
              t.decisions
              ++ record {
                id = p.decision_id;
                inspection_id = p.inspection_id;
                officer_id = p.officer_id;
                decision_type = p.decision_type;
                basis = p.basis;
                decided_at = p.decided_at;
              }
                ∷ [];
        })

-- ORDER BY created_at LIMIT 1
abbrev oldest : List IssuingAuthority → Option IssuingAuthority
oldest [] = none
oldest (a ∷ l) = elim (oldest l) [
  | none ↦ some a
  | some b ↦ if ltb b.created_at a.created_at then some b else some a
]

abbrev authority_of : Text → References → Tables → Option IssuingAuthority
authority_of facility_id refs t = elim (find (is_facility facility_id) t.facilities) [
  | none ↦ none
  | some f ↦ oldest (
      filter (λ (a : IssuingAuthority). text_eq a.jurisdiction_id f.jurisdiction_id)
        refs.authorities)
]

-- The constraints that hold between a new certificate and the other rows.
abbrev certifiable : References → CertificateAuthorisedPayload → Tables → Bool
certifiable refs p t =
    any (is_facility p.facility_id) t.facilities
    && any (is_decision p.decision_id) t.decisions
    && any (text_eq p.authorising_officer_id) refs.users
    && not (any (λ (c : CertificateRow). text_eq c.serial p.serial) t.certificates)
    && not (
        any (λ (c : CertificateRow). text_eq c.verification_token p.verification_token)
          t.certificates)

abbrev certificate_of :
    Text → CertificateAuthorisedPayload → IssuingAuthority → ℕ → RatingBand → CertificateRow
certificate_of id p authority percent band = record {
  id = id;
  serial = p.serial;
  facility_id = p.facility_id;
  inspection_id = p.inspection_id;
  decision_id = p.decision_id;
  authorising_officer_id = p.authorising_officer_id;
  issuing_authority_id = authority.id;
  rating_band = band;
  rating_percent = percent;
  issued_on = p.issued_on;
  valid_to = p.valid_to;
  next_due_on = p.next_due_on;
  status = valid;
  verification_token = p.verification_token;
}

-- NOT NULL and CHECK are tested before ON CONFLICT. Without the inspection there is no row to insert.
unfoldable pub certificate_authorised :
    References → Text → CertificateAuthorisedPayload → Tables → Option Tables
certificate_authorised refs id p t = elim (find (is_inspection p.inspection_id) t.inspections) [
  | none ↦ some t
  | some i ↦ elim i.rating_band [
    | none ↦ none
    | some band ↦ elim i.rating_percent [
      | none ↦ none
      | some percent ↦ elim (authority_of p.facility_id refs t) [
        | none ↦ none
        | some authority ↦
            if not (ltb p.issued_on p.valid_to && ltb p.issued_on p.next_due_on)
            then none
            else if any (is_certificate id) t.certificates
            then some t
            else checked (certifiable refs p t) (record t {
              certificates = t.certificates ++ certificate_of id p authority percent band ∷ [];
            })
      ]
    ]
  ]
]

unfoldable pub certificate_revoked : Text → Tables → Tables
certificate_revoked id t = record t {
  certificates =
      update_where (is_certificate id) (λ (c : CertificateRow). record c { status = revoked })
        t.certificates;
}
