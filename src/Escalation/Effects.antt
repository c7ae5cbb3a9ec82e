-- ===== src/Escalation/Effects.antt =====
-- The actions of a sweep, row by row.
use agroassure.Prelude.{
  Bool, ◌&&◌, some, List, [], ◌∷◌, ◌++◌, map, if◌then◌else◌, ◌≡◌, refl, ap, sym, ◌∙◌, Bool-cases,
  inl, inr,
}
use agroassure.Types.{open_status, overdue, escalated, status_eq}
use agroassure.Projection.{FindingRow, Tables}
use agroassure.Projection.Rows.{update_where, is_finding}
use agroassure.Projection.FindingRows.{finding_became_overdue, finding_escalated, is_unanswered}
use agroassure.Escalation.{Action, append_overdue, append_escalated, notify, act, act_all}

-- What an action does to one row.
abbrev touch : Action → FindingRow → FindingRow
touch (append_overdue id at_time) f =
    if is_finding id f && status_eq f.status open_status then record f { status = overdue } else f
touch (append_escalated id at_time to reason) f =
    if is_finding id f && is_unanswered f.status
    then record f { status = escalated; escalated_to = some to; escalated_at = some at_time }
    else f
touch (notify user_id g reason) f = f

abbrev pub touch_all : List Action → FindingRow → FindingRow
touch_all [] f = f
touch_all (a ∷ actions) f = touch_all actions (touch a f)

abbrev pub with_findings : Tables → List FindingRow → Tables
with_findings t l = record t { findings = l }

update_where-map :
    (p : FindingRow → Bool) (c : FindingRow → FindingRow) (l : List FindingRow)
    → update_where p c l ≡ map (λ (f : FindingRow). if p f then c f else f) l
update_where-map p c [] = refl
update_where-map p c (f ∷ l) = ap (λ m. (if p f then c f else f) ∷ m) (update_where-map p c l)

map-id : (l : List FindingRow) → map (λ (f : FindingRow). f) l ≡ l
map-id [] = refl
map-id (f ∷ l) = ap (λ m. f ∷ m) (map-id l)

map-touch :
    (actions : List Action) (a : Action) (l : List FindingRow)
    → map (touch_all actions) (map (touch a) l) ≡ map (touch_all (a ∷ actions)) l
map-touch actions a [] = refl
map-touch actions a (f ∷ l) = ap (λ m. touch_all (a ∷ actions) f ∷ m) (map-touch actions a l)

act-touch : (a : Action) (t : Tables) → act a t ≡ with_findings t (map (touch a) t.findings)
unfolding act finding_became_overdue finding_escalated
act-touch (append_overdue id at_time) t = ap (with_findings t) (
    update_where-map (λ (f : FindingRow). is_finding id f && status_eq f.status open_status)
      (λ (f : FindingRow). record f { status = overdue }) t.findings)
act-touch (append_escalated id at_time to reason) t = ap (with_findings t) (
    update_where-map (λ (f : FindingRow). is_finding id f && is_unanswered f.status)
      (λ (f : FindingRow). record f {
        status = escalated;
        escalated_to = some to;
        escalated_at = some at_time;
      })
      t.findings)
act-touch (notify user_id g reason) t = ap (with_findings t) (sym (map-id t.findings))

pub act_all-touch :
    (actions : List Action) (t : Tables)
    → act_all actions t ≡ with_findings t (map (touch_all actions) t.findings)
unfolding act_all
act_all-touch [] t = ap (with_findings t) (sym (map-id t.findings))
act_all-touch (a ∷ actions) t =
    act_all-touch actions (act a t)
    ∙ (ap (λ (u : Tables). with_findings u (map (touch_all actions) u.findings)) (act-touch a t)
        ∙ ap (with_findings t) (map-touch actions a t.findings))

pub touch_all-append :
    (xs ys : List Action) (f : FindingRow) → touch_all (xs ++ ys) f ≡ touch_all ys (touch_all xs f)
touch_all-append [] ys f = refl
touch_all-append (a ∷ xs) ys f = touch_all-append xs ys (touch a f)

touch-id : (a : Action) (f : FindingRow) → (touch a f).id ≡ f.id
touch-id (append_overdue id at_time) f =
    elim (Bool-cases (is_finding id f && status_eq f.status open_status)) [
      | inl hit ↦ rw hit refl
      | inr miss ↦ rw miss refl
    ]
touch-id (append_escalated id at_time to reason) f =
    elim (Bool-cases (is_finding id f && is_unanswered f.status)) [
      | inl hit ↦ rw hit refl
      | inr miss ↦ rw miss refl
    ]
touch-id (notify user_id g reason) f = refl

pub touch_all-id : (actions : List Action) (f : FindingRow) → (touch_all actions f).id ≡ f.id
touch_all-id [] f = refl
touch_all-id (a ∷ actions) f = touch_all-id actions (touch a f) ∙ touch-id a f
