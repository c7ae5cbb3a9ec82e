-- ===== src/FieldStore/Refresh.antt =====
-- What applying a bundle leaves in the store.
use mathlib.Core.Path.{subst}
use mathlib.Core.List.{append_assoc, append-nil}
use agroassure.Prelude.{
  Bool, false, Option, some, List, [], ◌∷◌, ◌++◌, if◌then◌else◌, any, ◌≡◌, refl, sym, ap, ◌∙◌,
  arith, Text, text_eq, any-append, text_eq_iff, filter, Bool-cases, inl, inr,
}
use agroassure.FieldStore.{AssignedFacility, LocalVersion, PriorFinding, FieldStore}
use agroassure.FieldStore.Bundle.{
  other_facility, BootstrapBundle, put_facilities, filled, broken, insert_versions,
  insert_prior_findings, apply_bootstrap, set_jurisdiction_code, replace_assigned_facilities,
  replace_instrument_versions, replace_prior_findings,
}

module _ {A : Type 0} (key : A → Text) where
  abbrev pub holds_key : Text → List A → Bool
  holds_key k rows = any (λ (r : A). text_eq (key r) k) rows

  -- No two rows have the same key.
  abbrev pub Distinct : List A → Type 0
  Distinct [] = Unit
  Distinct (r ∷ rows) = (holds_key (key r) rows ≡ false) × Distinct rows

  text_eq_flip : (a b : Text) → text_eq a b ≡ false → text_eq b a ≡ false
  text_eq_flip a b h = ground (arith, text_eq_iff a b, text_eq_iff b a)

  pub Distinct-front :
      (rows : List A) (r : A) (more : List A)
      → Distinct (rows ++ r ∷ more)
      → holds_key (key r) rows ≡ false
  Distinct-front [] r more h = refl
  Distinct-front (q ∷ rows) r more (fresh, h) = ground (
    arith,
    any-append (λ (x : A). text_eq (key x) (key q)) rows (r ∷ more),
    text_eq_flip (key r) (key q),
    Distinct-front rows r more h,
  )

insert_versions_lem :
    (rows : List LocalVersion) (s : FieldStore)
    → Distinct (λ (r : LocalVersion). r.id) (s.versions ++ rows)
    → insert_versions rows s ≡ filled (record s { versions = s.versions ++ rows })
unfolding insert_versions
insert_versions_lem [] s h =
    ap (λ (l : List LocalVersion). filled (record s { versions = l })) (sym (append-nil s.versions))
insert_versions_lem (r ∷ rows) s h =
    rw (insert_versions, Distinct-front (λ (x : LocalVersion). x.id) s.versions r rows h)
      (insert_versions_lem rows (record s { versions = s.versions ++ r ∷ [] })
          (subst (Distinct (λ (x : LocalVersion). x.id))
            (sym (append_assoc s.versions (r ∷ []) rows)) h)
        ∙ ap (λ (l : List LocalVersion). filled (record s { versions = l }))
            (append_assoc s.versions (r ∷ []) rows))

insert_prior_findings_lem :
    (rows : List PriorFinding) (s : FieldStore)
    → Distinct (λ (r : PriorFinding). r.id) (s.prior_findings ++ rows)
    → insert_prior_findings rows s ≡ filled (record s { prior_findings = s.prior_findings ++ rows })
unfolding insert_prior_findings
insert_prior_findings_lem [] s h =
    ap (λ (l : List PriorFinding). filled (record s { prior_findings = l }))
      (sym (append-nil s.prior_findings))
insert_prior_findings_lem (r ∷ rows) s h =
    rw
      (insert_prior_findings, Distinct-front (λ (x : PriorFinding). x.id) s.prior_findings r rows h)
      (insert_prior_findings_lem rows (record s { prior_findings = s.prior_findings ++ r ∷ [] })
          (subst (Distinct (λ (x : PriorFinding). x.id))
            (sym (append_assoc s.prior_findings (r ∷ []) rows)) h)
        ∙ ap (λ (l : List PriorFinding). filled (record s { prior_findings = l }))
            (append_assoc s.prior_findings (r ∷ []) rows))

-- INSERT OR REPLACE of rows with new ids adds them.
untouched :
    (table : List AssignedFacility) (id : Text)
    → holds_key (λ (f : AssignedFacility). f.id) id table ≡ false
    → filter (other_facility id) table ≡ table
untouched [] id h = refl
untouched (f ∷ table) id h = ground (arith, untouched table id)

put_facilities_lem :
    (fs table : List AssignedFacility)
    → Distinct (λ (f : AssignedFacility). f.id) (table ++ fs)
    → put_facilities fs table ≡ table ++ fs
unfolding put_facilities
put_facilities_lem [] table h = sym (append-nil table)
put_facilities_lem (f ∷ fs) table h =
    rw (untouched table f.id (Distinct-front (λ (g : AssignedFacility). g.id) table f fs h)) (
      put_facilities_lem fs (table ++ f ∷ [])
        (subst (Distinct (λ (g : AssignedFacility). g.id)) (sym (append_assoc table (f ∷ []) fs)) h)
      ∙ append_assoc table (f ∷ []) fs)

abbrev coded : (Text → Text) → Text → Option Text → Option Text
coded to_upper code old = if text_eq code [] then old else some (to_upper code)

filled_from :
    (vs : List LocalVersion) (fs : List PriorFinding) (s : FieldStore)
    → Distinct (λ (v : LocalVersion). v.id) vs
    → Distinct (λ (f : PriorFinding). f.id) fs
    → (elim (replace_instrument_versions vs s) [
      | broken t ↦ broken t
      | filled t ↦ replace_prior_findings fs t
    ])
      ≡ filled (record s { versions = vs; prior_findings = fs })
unfolding replace_instrument_versions replace_prior_findings
filled_from vs fs s h k =
    rw (insert_versions_lem vs (record s { versions = [] }) h)
      (insert_prior_findings_lem fs (record s { versions = vs; prior_findings = [] }) k)

-- The tables once a bundle is applied, whatever ids its facilities have.
pub apply_bootstrap_put :
    (to_upper : Text → Text) (bundle : BootstrapBundle) (s : FieldStore)
    → Distinct (λ (v : LocalVersion). v.id) bundle.instrument_versions
    → Distinct (λ (f : PriorFinding). f.id) bundle.prior_findings
    → apply_bootstrap to_upper bundle s
      ≡ filled (record s {
        jurisdiction_code = coded to_upper bundle.jurisdiction_code s.jurisdiction_code;
        facilities = put_facilities bundle.facilities [];
        versions = bundle.instrument_versions;
        prior_findings = bundle.prior_findings;
      })
unfolding apply_bootstrap set_jurisdiction_code replace_assigned_facilities
apply_bootstrap_put to_upper bundle s h k =
    elim (Bool-cases (text_eq bundle.jurisdiction_code [])) [
      | inl e ↦
          rw (apply_bootstrap, e)
            (filled_from bundle.instrument_versions bundle.prior_findings
              (record s { facilities = put_facilities bundle.facilities [] }) h k)
      | inr e ↦
          rw (apply_bootstrap, e)
            (filled_from bundle.instrument_versions bundle.prior_findings
              (record s {
                jurisdiction_code = some (to_upper bundle.jurisdiction_code);
                facilities = put_facilities bundle.facilities [];
              })
              h k)
    ]

-- A bundle whose facilities have distinct ids, whose instrument versions have and whose prior
-- findings have, is stored as it is: the tables of versions, prior findings and facilities are the
-- bundle's, the code is set unless it is empty, and the outbox, the evidence, the cursors, the
-- inspections and the answers are those from before.
pub apply_bootstrap_lem :
    (to_upper : Text → Text) (bundle : BootstrapBundle) (s : FieldStore)
    → Distinct (λ (f : AssignedFacility). f.id) bundle.facilities
    → Distinct (λ (v : LocalVersion). v.id) bundle.instrument_versions
    → Distinct (λ (f : PriorFinding). f.id) bundle.prior_findings
    → apply_bootstrap to_upper bundle s
      ≡ filled (record s {
        jurisdiction_code = coded to_upper bundle.jurisdiction_code s.jurisdiction_code;
        facilities = bundle.facilities;
        versions = bundle.instrument_versions;
        prior_findings = bundle.prior_findings;
      })
apply_bootstrap_lem to_upper bundle s g h k =
    apply_bootstrap_put to_upper bundle s h k
    ∙ ap
        (λ (fs : List AssignedFacility). filled (record s {
          jurisdiction_code = coded to_upper bundle.jurisdiction_code s.jurisdiction_code;
          facilities = fs;
          versions = bundle.instrument_versions;
          prior_findings = bundle.prior_findings;
        }))
        (put_facilities_lem bundle.facilities [] g)
