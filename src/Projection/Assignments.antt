-- ===== src/Projection/Assignments.antt =====
-- projector.service.ts: the assignment that a visit fulfils.
use agroassure.Prelude.{
  ℕ, Bool, true, false, not, ◌&&◌, ◌||◌, Option, none, some, List, [], ◌∷◌, filter, ltb,
  if◌then◌else◌, Text, text_eq,
}
use agroassure.Projection.{AssignmentStatus, planned, completed, AssignmentRow}
use agroassure.Projection.Rows.{update_where}

-- The assignment that a visit fulfils.
abbrev pub is_planned : AssignmentStatus → Bool
is_planned planned = true
is_planned _ = false

abbrev pub is_completed : AssignmentStatus → Bool
is_completed completed = true
is_completed _ = false

abbrev for_actor : Option Text → AssignmentRow → Bool
for_actor none a = true
for_actor (some user) a = text_eq a.assigned_to_user_id user

abbrev pub unclaimed : AssignmentRow → Bool
unclaimed a = elim a.inspection_id [ none ↦ true | some id ↦ false ]

abbrev pub claimable : Text → Option Text → AssignmentRow → Bool
claimable facility_id actor a =
    text_eq a.facility_id facility_id && unclaimed a && is_planned a.status && for_actor actor a

-- ORDER BY due_by NULLS LAST, created_at
abbrev due_before : Option ℕ → Option ℕ → Bool
due_before none d = false
due_before (some a) none = true
due_before (some a) (some b) = ltb a b

abbrev sooner : AssignmentRow → AssignmentRow → Bool
sooner a b =
    due_before a.due_by b.due_by
    || (not (due_before b.due_by a.due_by) && ltb a.created_at b.created_at)

-- LIMIT 1
abbrev pub first_of : List AssignmentRow → Option AssignmentRow
first_of [] = none
first_of (a ∷ l) = elim (first_of l) [
  | none ↦ some a
  | some b ↦ if sooner b a then some b else some a
]

abbrev pub is_assignment : Text → AssignmentRow → Bool
is_assignment id a = text_eq a.id id

abbrev pub claimed_by : Text → AssignmentRow → AssignmentRow
claimed_by inspection_id a = record a { inspection_id = some inspection_id }

unfoldable pub claim : Text → Text → Option Text → List AssignmentRow → List AssignmentRow
claim inspection_id facility_id actor assignments =
    elim (first_of (filter (claimable facility_id actor) assignments)) [
      | none ↦ assignments
      | some a ↦ update_where (is_assignment a.id) (claimed_by inspection_id) assignments
    ]

abbrev pub fulfils : Text → AssignmentRow → Bool
fulfils id a = elim a.inspection_id [ none ↦ false | some other ↦ text_eq other id ]

abbrev pub complete : Text → List AssignmentRow → List AssignmentRow
complete id =
    update_where (λ (a : AssignmentRow). fulfils id a && not (is_completed a.status))
      (λ (a : AssignmentRow). record a { status = completed })
