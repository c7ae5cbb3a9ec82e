-- ===== src/Projection/Replay.antt =====
-- What it does to the assignments to project the start of an inspection a second time.
use mathlib.Core.Path.{subst}
use agroassure.Prelude.{
  unsome, ℕ, ◌≤◌, ◌<◌, Bool, true, false, ◌&&◌, Option, none, some, List, [], ◌∷◌, ◌≡◌, refl, sym,
  ap, ◌∙◌, arith, any, any-append, filter, length, Option-cases, inl, inr, Text, text_eq_refl,
}
use agroassure.Projection.{References, AssignmentRow, Tables}
use agroassure.Projection.Payloads.{InspectionStartedPayload}
use agroassure.Projection.Rows.{update_where, is_inspection}
use agroassure.Projection.Assignments.{
  claimable, first_of, is_assignment, claimed_by, claim, fulfils,
}
use agroassure.Projection.Inspections.{started_row, insert_started, inspection_started}

-- How many assignments an inspection holds.
abbrev pub holdings : Text → List AssignmentRow → ℕ
holdings id l = length (filter (fulfils id) l)

first_of-any :
    (r : AssignmentRow → Bool) (l : List AssignmentRow) (a : AssignmentRow)
    → first_of l ≡ some a
    → r a ≡ true
    → any r l ≡ true
first_of-any r [] a h k = cc
first_of-any r (b ∷ l) a h k = elim (Option-cases (first_of l)) [
  | inl empty ↦ ground arith
  | inr (c, found) ↦ ground (arith, first_of-any r l c found)
]

any-filter :
    (q r : AssignmentRow → Bool) (l : List AssignmentRow)
    → any r (filter q l) ≡ true
    → any (λ a. q a && r a) l ≡ true
any-filter q r [] h = cc
any-filter q r (a ∷ l) h = ground (arith, any-filter q r l)

first_of-none :
    (q : AssignmentRow → Bool) (l : List AssignmentRow)
    → first_of (filter q l) ≡ none
    → any q l ≡ false
first_of-none q [] h = refl
first_of-none q (a ∷ l) h = ground (arith, first_of-none q l)

module _ (id : Text) where
  holdings_mono :
      (a : Text) (l : List AssignmentRow)
      → holdings id l ≤ holdings id (update_where (is_assignment a) (claimed_by id) l)
  holdings_mono a [] = omega arith
  holdings_mono a (b ∷ l) = let same = text_eq_refl id in ground (arith, holdings_mono a l)

  holdings_more :
      (a facility_id : Text) (actor : Option Text) (l : List AssignmentRow)
      → any (λ b. claimable facility_id actor b && is_assignment a b) l ≡ true
      → holdings id l < holdings id (update_where (is_assignment a) (claimed_by id) l)
  holdings_more a facility_id actor [] h = cc
  holdings_more a facility_id actor (b ∷ l) h =
      let same = text_eq_refl id in
      ground (arith, holdings_more a facility_id actor l, holdings_mono a l)

  claim-holdings :
      (facility_id : Text) (actor : Option Text) (l : List AssignmentRow)
      → any (claimable facility_id actor) l ≡ true
      → holdings id l < holdings id (claim id facility_id actor l)
  unfolding claim
  claim-holdings facility_id actor l free =
      elim (Option-cases (first_of (filter (claimable facility_id actor) l))) [
        | inl empty ↦ absurd (let n = first_of-none (claimable facility_id actor) l empty in cc)
        | inr (a, found) ↦
            subst (λ l'. holdings id l < holdings id l')
              (sym (claim_first facility_id actor l a found))
              (holdings_more a.id facility_id actor l (
                any-filter (claimable facility_id actor) (is_assignment a.id) l (
                  first_of-any (is_assignment a.id) (filter (claimable facility_id actor) l) a found
                    (text_eq_refl a.id))))
      ]
    where
      claim_first :
          (facility_id : Text) (actor : Option Text) (l : List AssignmentRow) (a : AssignmentRow)
          → first_of (filter (claimable facility_id actor) l) ≡ some a
          → claim id facility_id actor l ≡ update_where (is_assignment a.id) (claimed_by id) l
      claim_first facility_id actor l a found = rw (claim, found)

  -- Once the inspection is in its table, projecting its start again only claims.
  insert_started_known :
      (refs : References) (actor device : Option Text) (p : InspectionStartedPayload)
      (t t' : Tables)
      → insert_started refs id actor device p t ≡ some t'
      → any (is_inspection id) t'.inspections ≡ true
  unfolding insert_started
  insert_started_known refs actor device p t t' h =
      let it = text_eq_refl id in
      let added =
        any-append (is_inspection id) t.inspections (started_row refs id actor device p ∷ []) in
      ground arith

  insert_started_again :
      (refs : References) (actor device : Option Text) (p : InspectionStartedPayload)
      (t t' : Tables) (claimed : List AssignmentRow)
      → insert_started refs id actor device p t ≡ some t'
      → insert_started refs id actor device p (record t' { assignments = claimed })
        ≡ some (record t' { assignments = claimed })
  unfolding insert_started
  insert_started_again refs actor device p t t' claimed h =
      ground (arith, insert_started_known refs actor device p t t' h)

  filter_none :
      (q : AssignmentRow → Bool) (l : List AssignmentRow) → any q l ≡ false → filter q l ≡ []
  filter_none q [] h = refl
  filter_none q (a ∷ l) h = ground (arith, filter_none q l)

  claim_nothing :
      (facility_id : Text) (actor : Option Text) (l : List AssignmentRow)
      → any (claimable facility_id actor) l ≡ false
      → claim id facility_id actor l ≡ l
  unfolding claim
  claim_nothing facility_id actor l h = rw (claim, filter_none (claimable facility_id actor) l h)

  -- The assignments are claimed after the insert, which leaves them alone.
  inspection_started_lem :
      (refs : References) (actor device : Option Text) (p : InspectionStartedPayload)
      (t t' : Tables)
      → insert_started refs id actor device p t ≡ some t'
      → inspection_started refs id actor device p t
        ≡ some (record t' { assignments = claim id p.facility_id actor t'.assignments })
  unfolding inspection_started
  inspection_started_lem refs actor device p t t' h = rw (inspection_started, h)

abbrev pub Replays :
    References → Text → Option Text → Option Text → InspectionStartedPayload → Tables → Type 0
Replays refs id actor device p t' =
    (t'' : Tables) × (inspection_started refs id actor device p t' ≡ some t'')
    × (any (claimable p.facility_id actor) t'.assignments ≡ true
        → holdings id t'.assignments < holdings id t''.assignments)
    × (any (claimable p.facility_id actor) t'.assignments ≡ false → t'' ≡ t')

-- Projecting the start of an inspection a second time, to the tables as the first time left them,
-- gives the inspection at least one assignment more wherever the facility has another that is planned,
-- unclaimed and open to the inspector; where it has none, the second time changes nothing.
pub replay_claims :
    (refs : References) (id : Text) (actor device : Option Text) (p : InspectionStartedPayload)
    (t t' : Tables)
    → inspection_started refs id actor device p t ≡ some t'
    → Replays refs id actor device p t'
replay_claims refs id actor device p t t' h =
    elim (Option-cases (insert_started refs id actor device p t)) [
      | inl refused ↦ absurd (refuted refused)
      | inr (u, inserted) ↦
          subst (Replays refs id actor device p)
            (unsome (sym (inspection_started_lem id refs actor device p t u inserted) ∙ h))
            (again u inserted)
    ]
  where
    refuted : insert_started refs id actor device p t ≡ none → ⊥
    refuted refused = unfold inspection_started in ground arith

    again :
        (u : Tables)
        → insert_started refs id actor device p t ≡ some u
        → Replays refs id actor device p
            (record u { assignments = claim id p.facility_id actor u.assignments })
    again u inserted =
        let claimed = claim id p.facility_id actor u.assignments in
        (
          record u { assignments = claim id p.facility_id actor claimed },
          inspection_started_lem id refs actor device p (record u { assignments = claimed })
              (record u { assignments = claimed })
              (insert_started_again id refs actor device p t u claimed inserted),
          claim-holdings id p.facility_id actor claimed,
          λ free.
              ap (λ l. record u { assignments = l })
                (claim_nothing id p.facility_id actor claimed free),
        )
