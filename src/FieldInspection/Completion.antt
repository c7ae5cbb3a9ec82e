-- ===== src/FieldInspection/Completion.antt =====
-- A submission that is due goes through.
use mathlib.Core.Path.{subst}
use agroassure.Prelude.{
  ℕ, suc, ◌+◌, ◌^◌, ◌≤◌, Bool, true, false, ◌&&◌, Option, none, some, List, [], ◌∷◌, map, filter,
  any, length, ◌≡◌, refl, ap, ◌∙◌, arith, Text, Option-cases, inl, inr,
}
use agroassure.Sort.Laws.{sort-permᴰ, any-permᴰ}
use agroassure.Hlc.{HlcState}
use agroassure.Scoring.{RatingResult, score_inspection}
use agroassure.Hashing.{Platform}
use agroassure.Outbox.Links.{Chained}
use agroassure.Outbox.Chain.{holds_event}
use agroassure.FieldStore.{LocalVersion, LocalInspection, LocalResponse, FieldStore}
use agroassure.FieldStore.Visits.{responses_of}
use agroassure.FieldInspection.{Kit, Tick, SubmitInput, ProvisionalFinding, Result, ok}
use agroassure.FieldInspection.Checklist.{
  version, find_checkpoint, is_adverse, checkpoint, findings_of, adverse, provisional_findings,
  compare_refs, or_prompt, rating, scored, still_open, bands_of,
}
use agroassure.FieldInspection.Actions.{check_submission, submit}
use agroassure.FieldInspection.Rules.{read-ok}
use agroassure.FieldInspection.Submission.{
  Ready, derive_rating, derive_findings, sign_row, author_submission, author_findings, Submitted,
  SubmitPost, submit_lem,
}
use agroassure.FieldInspection.Authoring.{
  Draws, HasRoom, bind-ok, raise_findings-goes, author_submission-goes,
}

-- An answer No to a checkpoint that the version does not have.
abbrev pub is_lost : Platform → LocalVersion → LocalResponse → Bool
is_lost p v r = elim (find_checkpoint p.other_number v.sections r.checkpoint_ref) [
  | none ↦ true
  | some c ↦ false
]

abbrev pub is_lost_no : Platform → LocalVersion → LocalResponse → Bool
is_lost_no p v r = is_adverse r && is_lost p v r

any-filter :
    (q r : LocalResponse → Bool) (l : List LocalResponse)
    → any q (filter r l) ≡ any (λ x. r x && q x) l
any-filter q r [] = refl
any-filter q r (x ∷ l) = ground (arith, any-filter q r l)

module _ (p : Platform) (id : Text) (s : FieldStore) (v : LocalVersion)
    (bound : version id s ≡ ok v) where
  -- One finding for each answer, where their checkpoints are on the version.
  findings_of-found :
      (rs : List LocalResponse)
      → any (is_lost p v) rs ≡ false
      → (fs : List ProvisionalFinding) × (findings_of p id s rs ≡ ok fs) × (length fs ≡ length rs)
  unfolding findings_of checkpoint
  findings_of-found [] h = ([], refl, refl)
  findings_of-found (r ∷ rs) h =
      elim (Option-cases (find_checkpoint p.other_number v.sections r.checkpoint_ref)) [
        | inl lost ↦ absurd (let l = lost in let b = h in ground arith)
        | inr (spec, on) ↦
            let (fs, ran, count) = findings_of-found rs (let l = on in let b = h in ground arith) in
            (
              record {
                checkpoint_ref = r.checkpoint_ref;
                severity = spec.severity_on_fail;
                summary = or_prompt r.remark spec.prompt_en;
              }
                  ∷ fs,
              rw (findings_of, checkpoint, bound, on, ran),
              ap suc count,
            )
      ]

  provisional_findings-found :
      any (is_lost_no p v) (responses_of id s) ≡ false
      → (fs : List ProvisionalFinding) × (provisional_findings p id s ≡ ok fs)
        × (length fs ≡ length (adverse p id s))
  unfolding provisional_findings adverse
  provisional_findings-found h = findings_of-found (adverse p id s) (
      any-permᴰ (is_lost p v) (
        sort-permᴰ
          (λ (a b : LocalResponse). compare_refs p.other_number a.checkpoint_ref b.checkpoint_ref)
          (filter is_adverse (responses_of id s)))
      ∙ (any-filter (is_lost p v) is_adverse (responses_of id s) ∙ h))

  -- The score of the answers and the findings, by the bands of the version.
  abbrev pub score_of : List ProvisionalFinding → RatingResult
  score_of fs = score_inspection (map scored (responses_of id s)) (map still_open fs) (bands_of v)

  rating-found :
      (fs : List ProvisionalFinding)
      → provisional_findings p id s ≡ ok fs
      → rating p id s ≡ ok (score_of fs)
  unfolding rating
  rating-found fs h = rw (rating, bound, h) refl

-- The outcome is this value, and no error.
abbrev pub Completes : {A : Type 0} → A → Result A × FieldStore → Type 0
Completes a x = (t : FieldStore) × (x ≡ (ok a, t))

check_submission-Ready :
    (id : Text) (s : FieldStore) (i : LocalInspection)
    → Ready id s i
    → check_submission id s ≡ (ok i, s)
unfolding check_submission
check_submission-Ready id s i ready =
    ground (arith, ready.known, ready.not_submitted, ready.complete)

module _ (kit : Kit) (id : Text) (input : SubmitInput) (ticks : ℕ → Tick) (draws : Draws ticks)
    (s : FieldStore) (i : LocalInspection) (d : ℕ)
    (dated : kit.runtime.parse_date input.inspector_signed_at ≡ some d) where
  authors_complete :
      (r : RatingResult) (findings : List ProvisionalFinding)
      → HasRoom kit ticks 0 (suc (length findings)) s
      → Completes r (author_findings kit id input ticks i r findings s)
  authors_complete r findings room =
      let (t, ran, room') =
        raise_findings-goes kit ticks draws i d 0 (length findings) findings s room (omega arith) in
      let (e, u, authored_it) =
        author_submission-goes kit ticks draws id r (length findings) (length findings) input t
          room' in
      rw dated (
        bind-ok (author_submission kit id input ticks r findings) (Completes r) _ tt t ran (
          bind-ok (sign_row kit id input ticks r findings) (Completes r) _ e u authored_it
            (_, refl)))

  submit_goes :
      (r : RatingResult) (findings : List ProvisionalFinding)
      → Ready id s i
      → rating kit.platform id s ≡ ok r
      → provisional_findings kit.platform id s ≡ ok findings
      → HasRoom kit ticks 0 (suc (length findings)) s
      → Completes r (submit kit id input ticks s)
  unfolding submit
  submit_goes r findings ready rated found room =
      bind-ok (derive_rating kit id input ticks) (Completes r) _ i s
        (check_submission-Ready id s i ready)
        (read-ok (derive_findings kit id input ticks i) (Completes r) s _ r rated (
          read-ok (author_findings kit id input ticks i r) (Completes r) s _ findings found
            (authors_complete r findings room)))

-- A submission goes through: where the inspection is known and open, its version is on the phone,
-- every checkpoint is answered, no answer No is to a checkpoint that the version lacks, the
-- inspector's date of signing is a date, the outbox is one signed chain with room for an event per
-- answer No and one more, and the events get new ids of their own before the year 33658, submit
-- returns without an error. It returns the score of the answers and of one finding for each answer
-- No, by the bands of the version, and it did what a submission does: the events are in the outbox,
-- the inspection shows the sign-off, and a second submission is refused.
pub submit-Completes :
    (kit : Kit) (id : Text) (input : SubmitInput) (ticks : ℕ → Tick) (s : FieldStore)
    (i : LocalInspection) (v : LocalVersion) (d n : ℕ) (clock : HlcState) (head : Option Text)
    → Ready id s i
    → version id s ≡ ok v
    → any (is_lost_no kit.platform v) (responses_of id s) ≡ false
    → kit.runtime.parse_date input.inspector_signed_at ≡ some d
    → Chained kit.platform kit.signer s.outbox n clock head
    → n + suc (length (adverse kit.platform id s)) ≤ 10 ^ 15
    → Draws ticks
    → ((k : ℕ) → holds_event (ticks k).event_id s.outbox ≡ false)
    → (findings : List ProvisionalFinding) × (s' : FieldStore) × (length findings
        ≡ length (adverse kit.platform id s))
      × (let r =
            score_inspection
              (map scored (responses_of id s))
              (map still_open findings)
              (bands_of v) in
          (submit kit id input ticks s ≡ (ok r, s')) × Submitted kit id input s r s')
submit-Completes kit id input ticks s i v d n clock head ready bound on dated chain room draws new =
    let (findings, found, count) = provisional_findings-found kit.platform id s v bound on in
    let (s', ran) =
      submit_goes kit id input ticks draws s i d dated (score_of kit.platform id s v bound findings)
        findings ready (rating-found kit.platform id s v bound findings found) found
        (record {
          size = n;
          clock = clock;
          head = head;
          chain = chain;
          short = omega (arith, room, count);
          unused = λ k h. new k;
        }) in
    (
      findings,
      s',
      count,
      (ran, subst (SubmitPost kit id input s) ran (submit_lem kit id input ticks s)),
    )
