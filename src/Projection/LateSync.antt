-- ===== src/Projection/LateSync.antt =====
-- What the projection makes of a finding that reaches the gateway some days after the visit.
use agroassure.Prelude.{
  ℕ, ◌+◌, ◌-◌, ◌<◌, true, false, some, List, [], ◌∷◌, ◌++◌, ◌≡◌, refl, ap, ◌∙◌, arith, any, find,
  lt→ltb, Text, text_eq_refl,
}
use agroassure.Projection.{References, InspectionRow, FindingRow, Tables}
use agroassure.Projection.Payloads.{FindingRaisedPayload, InspectionSubmittedPayload}
use agroassure.Projection.Rows.{update_where, is_finding, is_inspection, count_findings}
use agroassure.Projection.FindingRows.{date_of, finding_of, finding_raised}
use agroassure.Projection.Inspections.{raised_after, dated_back, inspection_submitted}

-- The finding that was added last, after an update of the table.
find-update_where :
    (id inspection_id : Text) (signed : ℕ) (row : FindingRow) (fs : List FindingRow)
    → any (is_finding id) fs ≡ false
    → is_finding id row ≡ true
    → raised_after inspection_id signed row ≡ true
    → find
        (is_finding id)
        (update_where (raised_after inspection_id signed) (dated_back signed) (fs ++ row ∷ []))
      ≡ some (dated_back signed row)
find-update_where id inspection_id signed row [] fresh it late = ground arith
find-update_where id inspection_id signed row (f ∷ fs) fresh it late =
    ground (arith, find-update_where id inspection_id signed row fs)

finding_raised_lem :
    (refs : References) (id : Text) (recorded_at now : ℕ) (p : FindingRaisedPayload) (t t' : Tables)
    → any (is_finding id) t.findings ≡ false
    → finding_raised refs id recorded_at now p t ≡ some t'
    → t'.findings ≡ t.findings ++ finding_of id recorded_at now p t ∷ []
unfolding finding_raised
finding_raised_lem refs id recorded_at now p t t' fresh h = ground arith

any-update_where :
    (id other : Text) (count : ℕ) (is : List InspectionRow)
    → any (is_inspection id) (
        update_where
          (is_inspection other)
          (λ (i : InspectionRow). record i { findings_count = count })
          is)
      ≡ any (is_inspection id) is
any-update_where id other count [] = refl
any-update_where id other count (i ∷ is) = ground (arith, any-update_where id other count is)

finding_raised-known :
    (refs : References) (id : Text) (recorded_at now : ℕ) (p : FindingRaisedPayload) (t t' : Tables)
    → any (is_finding id) t.findings ≡ false
    → finding_raised refs id recorded_at now p t ≡ some t'
    → any (is_inspection p.inspection_id) t'.inspections ≡ true
unfolding finding_raised
finding_raised-known refs id recorded_at now p t t' fresh h =
    let found =
      any-update_where p.inspection_id p.inspection_id
        (count_findings p.inspection_id (t.findings ++ finding_of id recorded_at now p t ∷ []))
        t.inspections in
    ground arith

inspection_submitted_findings :
    (refs : References) (id : Text) (q : InspectionSubmittedPayload) (t : Tables)
    → any (is_inspection id) t.inspections ≡ true
    → (inspection_submitted refs id q t).findings
      ≡ update_where
          (raised_after id q.inspector_signed_at)
          (dated_back q.inspector_signed_at)
          t.findings
unfolding inspection_submitted
inspection_submitted_findings refs id q t known = rw known refl

-- The device dates a finding from the signing of the visit. The events arrive later, and the database
-- dates the finding's row from their arrival. When the submission is projected, the due date is moved
-- to the day of signing plus the days from arrival to the due date, so a visit that arrives on a
-- later day than it was signed has its finding due before the date that the device gave it, by the
-- days of the delay.
pub late_sync :
    (refs : References) (id : Text) (recorded_at now due : ℕ) (p : FindingRaisedPayload)
    (q : InspectionSubmittedPayload) (t t' : Tables)
    → p.due_date ≡ some due
    → any (is_finding id) t.findings ≡ false
    → finding_raised refs id recorded_at now p t ≡ some t'
    → q.inspector_signed_at < now
    → (f : FindingRow) × (find
          (is_finding id)
          (inspection_submitted refs p.inspection_id q t').findings
        ≡ some f)
      × (f.due_date ≡ date_of q.inspector_signed_at + due - date_of now)
      × (date_of q.inspector_signed_at < date_of now → 0 < due → f.due_date < due)
late_sync refs id recorded_at now due p q t t' given fresh raised late =
    let row = finding_of id recorded_at now p t in
    let at_due : row.due_date ≡ due = rw given refl in
    (
      dated_back q.inspector_signed_at row,
      ap (find (is_finding id)) (
            inspection_submitted_findings refs p.inspection_id q t'
              (finding_raised-known refs id recorded_at now p t t' fresh raised)
            ∙ ap
                (update_where (raised_after p.inspection_id q.inspector_signed_at)
                  (dated_back q.inspector_signed_at))
                (finding_raised_lem refs id recorded_at now p t t' fresh raised))
          ∙ find-update_where id p.inspection_id q.inspector_signed_at row t.findings fresh
              (text_eq_refl id)
              (let same = text_eq_refl p.inspection_id in
                let after = lt→ltb _ _ late in ground arith),
      omega (arith, at_due),
      λ delayed dated. omega (arith, at_due, delayed, dated),
    )
