-- ===== src/FieldInspection/Submission.antt =====
-- What submit does to the store, on success and on every error.
use mathlib.Core.Path.{subst}
use agroassure.Prelude.{
  ℕ, true, false, Option, none, some, List, [], ◌∷◌, ◌++◌, find, length, ◌≡◌, refl, ap, ◌∙◌, arith,
  sym, Text, codes,
}
use agroassure.Scoring.{RatingResult}
use agroassure.Events.{DeviceEvent}
use agroassure.FieldStore.{LocalInspection, FieldStore}
use agroassure.FieldStore.Visits.{
  is_inspection, inspection, SignOff, sign_off, submitted_at_id, mark_submitted,
}
use agroassure.FieldInspection.{
  Kit, Tick, SubmitInput, ProvisionalFinding, unknown_inspection, already_submitted, Result, ok,
  raised, Visit,
}
use agroassure.FieldInspection.Checklist.{or_raise, unanswered, provisional_findings, rating}
use agroassure.FieldInspection.Actions.{
  ◌>>=◌, pure, read, raise_if, modify, check_submission, submit, sign_off_of, unless_empty,
  raise_findings, authored_as,
}
use agroassure.FieldInspection.Payloads.{submitted_json}
use agroassure.FieldInspection.Rules.{bind-post, read-post, raise_if-passed}
use agroassure.FieldInspection.Frames.{
  Adds, Adds-refl, Adds-trans, Added, authored_as-Added, raised_types, raise_findings-Added,
}

-- An inspection may be submitted: it is known and open, and every checkpoint is answered.
pub record Ready (id : Text) (s : FieldStore) (i : LocalInspection) : Type 0 where
  pub known : inspection id s ≡ some i
  pub not_submitted : i.is_submitted ≡ false
  pub complete : unanswered id s ≡ ok []

abbrev Checked : Text → FieldStore → Result LocalInspection × FieldStore → Type 0
Checked id s (ok i, t) = (t ≡ s) × Ready id s i
Checked id s (raised e, t) = t ≡ s

known_of :
    (o : Option LocalInspection) (i : LocalInspection)
    → or_raise o unknown_inspection ≡ ok i
    → o ≡ some i
known_of none i h = absurd (cc h)
known_of (some j) i h = ground (arith, h)

module _ (id : Text) where
  abbrev pub finish_check : LocalInspection → List Text → Visit LocalInspection
  finish_check i missing = unless_empty missing >>= λ _. pure i

  abbrev pub check_answers : LocalInspection → Unit {0} → Visit LocalInspection
  check_answers i _ = read (unanswered id) >>= finish_check i

  abbrev pub check_row : LocalInspection → Visit LocalInspection
  check_row i = raise_if i.is_submitted already_submitted >>= check_answers i

  finish_check-Checked :
      (s : FieldStore) (i : LocalInspection)
      → inspection id s ≡ some i
      → i.is_submitted ≡ false
      → (missing : List Text) → unanswered id s ≡ ok missing
      → Checked id s (finish_check i missing s)
  finish_check-Checked s i known still_open [] complete =
      (refl, record { known = known; not_submitted = still_open; complete = complete })
  finish_check-Checked s i known still_open (ref ∷ refs) complete = refl

  check_submission-Checked : (s : FieldStore) → Checked id s (check_submission id s)
  unfolding check_submission
  check_submission-Checked s =
      read-post check_row (Checked id s) s _ _ refl
        (λ i known.
          read-post (check_answers i) (Checked id s) s _ _ refl
            (λ _ still_open.
              read-post (finish_check i) (Checked id s) s _ _ refl
                (finish_check-Checked s i (known_of _ i known)
                  (raise_if-passed _ i.is_submitted still_open))
                (λ e. refl))
            (λ e. refl))
        (λ e. refl)

find-submitted :
    (id : Text) (o : SignOff) (is : List LocalInspection) (i : LocalInspection)
    → find (is_inspection id) is ≡ some i
    → find (is_inspection id) (submitted_at_id id o is) ≡ some (sign_off o i)
find-submitted id o (j ∷ is) i h = ground (arith, find-submitted id o is i)
find-submitted id o [] i h = absurd (cc h)

inspection-mark_submitted :
    (id : Text) (o : SignOff) (s : FieldStore) (i : LocalInspection)
    → inspection id s ≡ some i
    → inspection id (mark_submitted id o s) ≡ some (sign_off o i)
unfolding inspection mark_submitted
inspection-mark_submitted id o s i h = find-submitted id o s.inspections i h

-- What a submission that returned this rating did.
pub record Submitted (kit : Kit) (id : Text) (input : SubmitInput) (s : FieldStore)
    (r : RatingResult) (s' : FieldStore) : Type 0 where
  pub row : LocalInspection
  pub ready : Ready id s row
  pub findings : List ProvisionalFinding
  pub found : provisional_findings kit.platform id s ≡ ok findings
  pub rated : rating kit.platform id s ≡ ok r
  pub authored_into : FieldStore
  pub adds :
      Adds s (raised_types (length findings) ++ codes "InspectionSubmitted" ∷ []) authored_into
  pub signed : s' ≡ mark_submitted id (sign_off_of r input) authored_into
  pub shown : inspection id s' ≡ some (sign_off (sign_off_of r input) row)
  pub once :
      (kit' : Kit) (input' : SubmitInput) (ticks' : ℕ → Tick)
      → submit kit' id input' ticks' s' ≡ (raised already_submitted, s')

abbrev pub SubmitPost :
    Kit → Text → SubmitInput → FieldStore → Result RatingResult × FieldStore → Type 0
SubmitPost kit id input s (ok r, s') = Submitted kit id input s r s'
SubmitPost kit id input s (raised e, s') = (types : List Text) × Adds s types s'

submit_again :
    (kit : Kit) (id : Text) (input : SubmitInput) (ticks : ℕ → Tick) (s : FieldStore)
    (i : LocalInspection)
    → inspection id s ≡ some i
    → i.is_submitted ≡ true
    → submit kit id input ticks s ≡ (raised already_submitted, s)
unfolding submit check_submission
submit_again kit id input ticks s i h k = ground arith

pub inspection-Adds :
    (id : Text) {s t : FieldStore} {types : List Text}
    → Adds s types t
    → inspection id t ≡ inspection id s
unfolding inspection
inspection-Adds id h = ap (λ (x : FieldStore). find (is_inspection id) x.inspections) h.same_else

module _ (kit : Kit) (id : Text) (input : SubmitInput) (ticks : ℕ → Tick) where
  abbrev pub sign_row : RatingResult → List ProvisionalFinding → DeviceEvent → Visit RatingResult
  sign_row r findings event = modify (mark_submitted id (sign_off_of r input)) >>= λ _. pure r

  abbrev pub author_submission :
      RatingResult → List ProvisionalFinding → Unit {0} → Visit RatingResult
  author_submission r findings _ =
      authored_as kit (codes "inspection") id (codes "InspectionSubmitted")
        (submitted_json r (length findings) input) (ticks (length findings))
      >>= sign_row r findings

  abbrev pub author_findings :
      LocalInspection → RatingResult → List ProvisionalFinding → Visit RatingResult
  author_findings i r findings =
      raise_findings kit i (kit.runtime.parse_date input.inspector_signed_at) ticks 0 findings
      >>= author_submission r findings

  abbrev pub derive_findings : LocalInspection → RatingResult → Visit RatingResult
  derive_findings i r = read (provisional_findings kit.platform id) >>= author_findings i r

  abbrev pub derive_rating : LocalInspection → Visit RatingResult
  derive_rating i = read (rating kit.platform id) >>= derive_findings i

  module _ (s : FieldStore) where
    abbrev Q : Result RatingResult × FieldStore → Type 0
    Q = SubmitPost kit id input s

    signed_off :
        (i : LocalInspection) (r : RatingResult) (findings : List ProvisionalFinding)
        → Ready id s i
        → rating kit.platform id s ≡ ok r
        → provisional_findings kit.platform id s ≡ ok findings
        → (t : FieldStore)
        → Adds s (raised_types (length findings) ++ codes "InspectionSubmitted" ∷ []) t
        → Submitted kit id input s r (mark_submitted id (sign_off_of r input) t)
    signed_off i r findings ready rated found t adds =
        let shown =
          inspection-mark_submitted id (sign_off_of r input) t i
            (inspection-Adds id adds ∙ ready.known) in
        record {
          row = i;
          ready = ready;
          findings = findings;
          found = found;
          rated = rated;
          authored_into = t;
          adds = adds;
          signed = refl;
          shown = shown;
          once = λ kit' input' ticks'. submit_again kit' id input' ticks' _ _ shown refl;
        }

    authors :
        (i : LocalInspection) (r : RatingResult) (findings : List ProvisionalFinding)
        → Ready id s i
        → rating kit.platform id s ≡ ok r
        → provisional_findings kit.platform id s ≡ ok findings
        → Q (author_findings i r findings s)
    authors i r findings ready rated found =
        bind-post (author_submission r findings) Q (Added s (raised_types (length findings))) _
          (raise_findings-Added kit i (kit.runtime.parse_date input.inspector_signed_at) ticks 0
            findings s)
          (λ _ t raised_all.
            bind-post (sign_row r findings) Q (Added t (codes "InspectionSubmitted" ∷ [])) _
              (authored_as-Added kit (codes "inspection") id (codes "InspectionSubmitted")
                (submitted_json r (length findings) input) (ticks (length findings)) t)
              (λ e u one. signed_off i r findings ready rated found u (Adds-trans raised_all one))
              (λ e u some_rows. (_, Adds-trans raised_all some_rows.1)))
          (λ e t some_rows. some_rows)

    derives : (i : LocalInspection) → Ready id s i → Q (derive_rating i s)
    derives i ready =
        read-post (derive_findings i) Q s _ _ refl
          (λ r rated.
            read-post (author_findings i r) Q s _ _ refl
              (λ findings found. authors i r findings ready rated found) (λ e. ([], Adds-refl s)))
          (λ e. ([], Adds-refl s))

-- A submission that returns a rating had every checkpoint answered and was not submitted before. The
-- rating is the running one, one event is authored for each provisional finding and then the
-- submission, nothing else but the inspection's row changes, and submitting again is refused,
-- whatever is given. One that throws has added rows to the outbox at most.
pub submit_lem :
    (kit : Kit) (id : Text) (input : SubmitInput) (ticks : ℕ → Tick) (s : FieldStore)
    → SubmitPost kit id input s (submit kit id input ticks s)
unfolding submit check_submission
submit_lem kit id input ticks s =
    bind-post (derive_rating kit id input ticks) Post (Checked id s) _
      (check_submission-Checked id s)
      (λ i t (same, ready).
        subst (λ x. Post (derive_rating kit id input ticks i x)) (sym same)
          (derives kit id input ticks s i ready))
      (λ e t same. ([], subst (Adds s []) (sym same) (Adds-refl s)))
  where
    Post : Result RatingResult × FieldStore → Type 0
    Post = SubmitPost kit id input s
