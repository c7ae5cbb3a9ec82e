-- ===== src/Escalation/Settled.antt =====
-- A sweep settles what it finds: the next one at the same time has nothing to do.
use agroassure.Prelude.{
  ℕ, false, Option, List, [], ◌∷◌, ◌++◌, map, filter, if◌then◌else◌, Text, codes, text_eq_iff,
  text_eq_refl, ◌≡◌, refl, ap, ◌∙◌, arith, Bool-cases, inl, inr,
}
use mathlib.Core.Path.{ap₂}
use agroassure.Types.{open_status, status_eq}
use agroassure.FindingState.{default_sla, should_escalate}
use agroassure.Projection.{FindingRow, Tables}
use agroassure.FieldStore.Refresh.{Distinct, holds_key}
use agroassure.Escalation.{
  due_finding, is_due, due_findings, Action, as_check, sweep_finding, sweep, act_all,
}
use agroassure.Escalation.Effects.{
  touch_all, with_findings, act_all-touch, touch_all-append, touch_all-id,
}
use agroassure.Escalation.Rows.{
  of_row, of_rows, sweep-of_rows, other_row, after, own_actions, settled_row,
}

abbrev pub row_id : FindingRow → Text
row_id f = f.id

module _ (supervisor_of : Text → Option Text) (now : ℕ) where
  abbrev settle : FindingRow → FindingRow
  settle f = touch_all (of_row supervisor_of now f) f

  -- What becomes of a row: it is escalated where it is past its grace, marked overdue where it is
  -- only due, and left alone otherwise.
  abbrev pub outcome : FindingRow → FindingRow
  outcome f =
      if is_due now f
      then after (should_escalate (as_check (due_finding supervisor_of f)) now default_sla) now
          (codes "desk_supervisor") f
      else f

  settle-outcome : (f : FindingRow) → settle f ≡ outcome f
  unfolding sweep_finding
  settle-outcome f = elim (Bool-cases (is_due now f)) [
    | inr idle ↦ rw idle refl
    | inl due ↦ rw due (
        own_actions (status_eq f.status open_status)
          (should_escalate (as_check (due_finding supervisor_of f)) now default_sla)
          (supervisor_of f.inspection_id) (due_finding supervisor_of f) f now _ _
          (text_eq_refl f.id) refl (ground (arith, due)))
  ]

  map-outcome : (l : List FindingRow) → map settle l ≡ map outcome l
  map-outcome [] = refl
  map-outcome (f ∷ l) = ap₂ (λ x m. x ∷ m) (settle-outcome f) (map-outcome l)

  other_rows :
      (l : List FindingRow) (f : FindingRow)
      → holds_key row_id f.id l ≡ false
      → touch_all (of_rows supervisor_of now l) f ≡ f
  other_rows [] f h = refl
  other_rows (g ∷ l) f h =
      touch_all-append (of_row supervisor_of now g) (of_rows supervisor_of now l) f
      ∙ (ap (touch_all (of_rows supervisor_of now l)) (
            other_row supervisor_of now g f
              (ground (arith, text_eq_iff f.id g.id, text_eq_iff g.id f.id)))
          ∙ other_rows l f (ground arith))

  skip_row :
      (g : FindingRow) (actions : List Action) (l : List FindingRow)
      → holds_key row_id g.id l ≡ false
      → map (touch_all (of_row supervisor_of now g ++ actions)) l ≡ map (touch_all actions) l
  skip_row g actions [] h = refl
  skip_row g actions (f ∷ l) h =
      ap₂ (λ x m. x ∷ m)
        (touch_all-append (of_row supervisor_of now g) actions f
          ∙ ap (touch_all actions) (other_row supervisor_of now g f (ground arith)))
        (skip_row g actions l (ground arith))

  settled_rows :
      (l : List FindingRow)
      → Distinct row_id l
      → map (touch_all (of_rows supervisor_of now l)) l ≡ map settle l
  settled_rows [] h = refl
  settled_rows (g ∷ l) h =
      ap₂ (λ x m. x ∷ m)
        (touch_all-append (of_row supervisor_of now g) (of_rows supervisor_of now l) g
          ∙ other_rows l (settle g) (
              ap (λ (k : Text). holds_key row_id k l) (touch_all-id (of_row supervisor_of now g) g)
              ∙ h.0))
        (skip_row g (of_rows supervisor_of now l) l h.0 ∙ settled_rows l h.1)

  nothing_left : (l : List FindingRow) → of_rows supervisor_of now (map settle l) ≡ []
  nothing_left [] = refl
  nothing_left (f ∷ l) = rw (settled_row supervisor_of now f) (nothing_left l)

swept :
    (supervisor_of : Text → Option Text) (now : ℕ) (t : Tables)
    → Distinct row_id t.findings
    → act_all (sweep now (due_findings supervisor_of now t)).0 t
      ≡ with_findings t (map (settle supervisor_of now) t.findings)
unfolding due_findings
swept supervisor_of now t h =
    ap (λ (actions : List Action). act_all actions t) (sweep-of_rows supervisor_of now t.findings)
    ∙ (act_all-touch (of_rows supervisor_of now t.findings) t
        ∙ ap (with_findings t) (settled_rows supervisor_of now t.findings h))

-- A sweep settles the findings: once its actions are carried out, in their order, every finding that
-- was due is escalated to the desk supervisor where it is past its grace and marked overdue where it
-- is not, every other one is as it was, and another sweep at the same time finds nothing to mark, to
-- escalate or to notify. The ids of the findings are distinct.
pub sweep_settles :
    (supervisor_of : Text → Option Text) (now : ℕ) (t : Tables)
    → Distinct row_id t.findings
    → ((act_all (sweep now (due_findings supervisor_of now t)).0 t).findings
        ≡ map (outcome supervisor_of now) t.findings)
      × ((sweep now (
            due_findings supervisor_of now
              (act_all (sweep now (due_findings supervisor_of now t)).0 t))).0
          ≡ [])
unfolding due_findings
sweep_settles supervisor_of now t h = (
  ap (λ (u : Tables). u.findings) (swept supervisor_of now t h)
      ∙ map-outcome supervisor_of now t.findings,
  ap
        (λ (u : Tables).
          (sweep now (map (due_finding supervisor_of) (filter (is_due now) u.findings))).0)
        (swept supervisor_of now t h)
      ∙ (sweep-of_rows supervisor_of now (map (settle supervisor_of now) t.findings)
          ∙ nothing_left supervisor_of now t.findings),
)
