-- ===== src/Escalation/Rows.antt =====
-- What a sweep does for one finding.
use agroassure.Prelude.{
  ℕ, ◌*◌, ◌/◌, Bool, true, false, Option, none, some, List, [], ◌∷◌, ◌++◌, map, filter, ltb,
  if◌then◌else◌, Text, text_eq, text_eq_refl, ◌≡◌, refl, ap, sym, ◌∙◌, arith, Bool-cases, inl, inr,
}
use agroassure.Types.{
  FindingSeverity, FindingStatus, open_status, overdue, escalated, awaiting_verification, closed,
  status_eq,
}
use agroassure.FindingState.{default_sla, day_ms, should_escalate}
use agroassure.Projection.{FindingRow}
use agroassure.Projection.FindingRows.{is_unanswered}
use agroassure.Escalation.{
  DueFinding, due_finding, is_due, Action, append_overdue, append_escalated, as_check, notification,
  sweep_finding, sweep,
}
use agroassure.Escalation.Effects.{touch_all}

-- The actions of the sweep for one row, if it is due.
abbrev pub of_row : (Text → Option Text) → ℕ → FindingRow → List Action
of_row supervisor_of now f =
    if is_due now f then sweep_finding now (due_finding supervisor_of f) else []

abbrev pub of_rows : (Text → Option Text) → ℕ → List FindingRow → List Action
of_rows supervisor_of now [] = []
of_rows supervisor_of now (f ∷ l) = of_row supervisor_of now f ++ of_rows supervisor_of now l

pub sweep-of_rows :
    (supervisor_of : Text → Option Text) (now : ℕ) (l : List FindingRow)
    → (sweep now (map (due_finding supervisor_of) (filter (is_due now) l))).0
      ≡ of_rows supervisor_of now l
unfolding sweep
sweep-of_rows supervisor_of now [] = refl
sweep-of_rows supervisor_of now (f ∷ l) = elim (Bool-cases (is_due now f)) [
  | inl due ↦ rw due (
      ap (λ x. sweep_finding now (due_finding supervisor_of f) ++ x)
        (sweep-of_rows supervisor_of now l))
  | inr idle ↦ rw idle (sweep-of_rows supervisor_of now l)
]

-- Actions about other findings leave a row alone.
other_actions :
    (is_open past : Bool) (o : Option Text) (g : DueFinding) (f : FindingRow) (now : ℕ)
    (to reason : Text)
    → text_eq f.id g.id ≡ false
    → touch_all
        ((if is_open then append_overdue g.id now ∷ [] else [])
          ++ (if past then append_escalated g.id now to reason ∷ notification o g reason else []))
        f
      ≡ f
other_actions false false o g f now to reason h = refl
other_actions true false o g f now to reason h = rw h refl
other_actions false true none g f now to reason h = rw h refl
other_actions false true (some u) g f now to reason h = rw h refl
other_actions true true none g f now to reason h = rw (h, h) refl
other_actions true true (some u) g f now to reason h = rw (h, h) refl

pub other_row :
    (supervisor_of : Text → Option Text) (now : ℕ) (g f : FindingRow)
    → text_eq f.id g.id ≡ false
    → touch_all (of_row supervisor_of now g) f ≡ f
unfolding sweep_finding
other_row supervisor_of now g f h = elim (Bool-cases (is_due now g)) [
  | inl due ↦ rw due (
      other_actions (status_eq g.status open_status)
        (should_escalate (as_check (due_finding supervisor_of g)) now default_sla)
        (supervisor_of g.inspection_id) (due_finding supervisor_of g) f now _ _ h)
  | inr idle ↦ rw idle refl
]

overdue_of :
    (st : FindingStatus) → status_eq st open_status ≡ false → is_unanswered st ≡ true → st ≡ overdue
overdue_of open_status h k = absurd (cc h)
overdue_of overdue h k = refl
overdue_of awaiting_verification h k = absurd (cc k)
overdue_of escalated h k = absurd (cc k)
overdue_of closed h k = absurd (cc k)

-- The row after the actions for it.
abbrev pub after : Bool → ℕ → Text → FindingRow → FindingRow
after past now to f =
    if past
    then record f { status = escalated; escalated_to = some to; escalated_at = some now }
    else record f { status = overdue }

pub own_actions :
    (is_open past : Bool) (o : Option Text) (g : DueFinding) (f : FindingRow) (now : ℕ)
    (to reason : Text)
    → text_eq f.id g.id ≡ true
    → status_eq f.status open_status ≡ is_open
    → is_unanswered f.status ≡ true
    → touch_all
        ((if is_open then append_overdue g.id now ∷ [] else [])
          ++ (if past then append_escalated g.id now to reason ∷ notification o g reason else []))
        f
      ≡ after past now to f
own_actions false false o g f now to reason h k u =
    ap (λ (st : FindingStatus). record f { status = st }) (overdue_of f.status k u)
own_actions true false o g f now to reason h k u = rw (h, k) refl
own_actions false true none g f now to reason h k u = rw (h, u) refl
own_actions false true (some user) g f now to reason h k u = rw (h, u) refl
own_actions true true none g f now to reason h k u = rw (h, k, h) refl
own_actions true true (some user) g f now to reason h k u = rw (h, k, h) refl

-- Whether a finding is past its grace does not depend on which of the two statuses it has.
same_past :
    (st : FindingStatus) (severity : FindingSeverity) (due_date now : ℕ)
    → is_unanswered st ≡ true
    → should_escalate
        (record { status = st; severity = severity; due_date = due_date })
        now
        default_sla
      ≡ should_escalate
          (record { status = overdue; severity = severity; due_date = due_date })
          now
          default_sla
unfolding should_escalate
same_past open_status severity due_date now u = refl
same_past overdue severity due_date now u = refl
same_past awaiting_verification severity due_date now u = absurd (cc u)
same_past escalated severity due_date now u = absurd (cc u)
same_past closed severity due_date now u = absurd (cc u)

-- A row that the actions for it have settled has nothing to do.
settled_after :
    (supervisor_of : Text → Option Text) (now : ℕ) (to : Text) (f : FindingRow) (past : Bool)
    → ltb f.due_date (now / day_ms) ≡ true
    → should_escalate
        (record { status = overdue; severity = f.severity; due_date = f.due_date * day_ms })
        now
        default_sla
      ≡ past
    → of_row supervisor_of now (after past now to f) ≡ []
unfolding sweep_finding
settled_after supervisor_of now to f true due h = refl
settled_after supervisor_of now to f false due h = rw (due, h) refl

pub settled_row :
    (supervisor_of : Text → Option Text) (now : ℕ) (f : FindingRow)
    → of_row supervisor_of now (touch_all (of_row supervisor_of now f) f) ≡ []
unfolding sweep_finding
settled_row supervisor_of now f = elim (Bool-cases (is_due now f)) [
  | inr idle ↦ rw (idle, idle) refl
  | inl due ↦
      let past = should_escalate (as_check (due_finding supervisor_of f)) now default_sla in
      rw due (
        ap (of_row supervisor_of now) (
          own_actions (status_eq f.status open_status) past (supervisor_of f.inspection_id)
            (due_finding supervisor_of f) f now _ _ (text_eq_refl f.id) refl (ground (arith, due)))
        ∙ settled_after supervisor_of now _ f past (ground (arith, due))
            (sym (same_past f.status f.severity (f.due_date * day_ms) now (ground (arith, due)))))
]
