-- ===== src/FieldInspection/Recording.antt =====
-- What recordResponse stores, and that it does so after the sign-off too.
use agroassure.Prelude.{
  true, false, ◌&&◌, Option, some, List, [], ◌∷◌, find, ◌≡◌, refl, ap, ◌∙◌, arith, Text, codes,
  text_eq, text_eq_iff, text_eq_refl, Bool-cases, inl, inr,
}
use agroassure.Outbox.{Request, AuthorError, failed, author}
use agroassure.Events.{DeviceEvent}
use agroassure.FieldStore.{Checkpoint, LocalInspection, LocalResponse, FieldStore}
use agroassure.FieldStore.Visits.{
  is_inspection, inspection, answers, corrected_by, put_response, upsert_response,
}
use agroassure.FieldInspection.{
  Kit, Tick, RecordResponseInput, na_not_accepted, remark_needed, not_authored, Result, ok, raised,
  Visit,
}
use agroassure.FieldInspection.Checklist.{checkpoint}
use agroassure.FieldInspection.Actions.{
  ◌>>=◌, modify, raise_if, authored_as, record_response, trimmed, breaks_na, lacks_remark,
}
use agroassure.FieldInspection.Payloads.{response_json}
use agroassure.FieldInspection.Frames.{Adds, Authors, asked_of, authored_as-Authors}
use agroassure.FieldInspection.Rules.{bind-post, read-post, read-ok, raise_if-passed, raise_if-pass}
use agroassure.FieldInspection.Submission.{inspection-Adds}

-- The answer to a checkpoint, as the store shows it.
abbrev pub answer : Text → Text → FieldStore → Option LocalResponse
answer id ref s = find (answers id ref) s.responses

-- The new answer reads back, with the id and the weight of the first one where there was one.
find-put_response_same :
    (new : LocalResponse) (rs : List LocalResponse)
    → (r : LocalResponse) × (find
          (answers new.inspection_id new.checkpoint_ref)
          (put_response new rs)
        ≡ some r)
      × (r.response ≡ new.response)
      × (r.remark ≡ new.remark)
find-put_response_same new [] =
    (new, rw (text_eq_refl new.inspection_id, text_eq_refl new.checkpoint_ref) refl, refl, refl)
find-put_response_same new (r ∷ rs) =
    elim (Bool-cases (answers new.inspection_id new.checkpoint_ref r)) [
      | inl same_key ↦ (corrected_by new r, rw (same_key, same_key) refl, refl, refl)
      | inr differs ↦
          let (q, found, response, remark) = find-put_response_same new rs in
          (q, rw (differs, differs) found, response, remark)
    ]

find-put_response_other :
    (new : LocalResponse) (id ref : Text) (rs : List LocalResponse)
    → text_eq new.inspection_id id && text_eq new.checkpoint_ref ref ≡ false
    → find (answers id ref) (put_response new rs) ≡ find (answers id ref) rs
find-put_response_other new id ref [] h = rw h refl
find-put_response_other new id ref (r ∷ rs) h = ground (
  arith,
  text_eq_iff r.inspection_id new.inspection_id,
  text_eq_iff r.checkpoint_ref new.checkpoint_ref,
  find-put_response_other new id ref rs h,
)

-- The row that recording an answer writes.
abbrev pub row_for : Kit → Text → RecordResponseInput → Checkpoint → DeviceEvent → LocalResponse
row_for kit id input spec event = record {
  id = event.event_id;
  inspection_id = id;
  checkpoint_ref = input.checkpoint_ref;
  response = input.response;
  remark = trimmed kit.runtime input.remark;
  weight = spec.weight;
  recorded_hlc = event.hlc;
}

pub record Recorded (kit : Kit) (id : Text) (input : RecordResponseInput) (s s' : FieldStore)
    : Type 0 where
  pub spec : Checkpoint
  pub on_instrument : checkpoint kit.platform id input.checkpoint_ref s ≡ ok spec
  pub allowed : breaks_na input.response spec ≡ false
  pub explained : lacks_remark input.response (trimmed kit.runtime input.remark) ≡ false
  pub authored_into : FieldStore
  pub adds : Adds s (codes "ResponseRecorded" ∷ []) authored_into
  pub stored : LocalResponse
  pub shown : answer id input.checkpoint_ref s' ≡ some stored
  pub answered :
      (stored.response ≡ input.response) × (stored.remark ≡ trimmed kit.runtime input.remark)
  pub others :
      (id' ref' : Text)
      → text_eq id id' && text_eq input.checkpoint_ref ref' ≡ false
      → answer id' ref' s' ≡ answer id' ref' s
  pub same_else : s' ≡ record authored_into { responses = s'.responses }

abbrev pub RecordPost :
    Kit → Text → RecordResponseInput → FieldStore → Result (Unit {0}) × FieldStore → Type 0
RecordPost kit id input s (ok _, s') = Recorded kit id input s s'
RecordPost kit id input s (raised e, s') = s' ≡ s

module _ (kit : Kit) (id : Text) (input : RecordResponseInput) (tick : Tick) where
  abbrev store_answer : Checkpoint → DeviceEvent → Visit (Unit {0})
  store_answer spec event = modify (upsert_response (row_for kit id input spec event))

  recorded :
      (s t : FieldStore) (spec : Checkpoint) (e : DeviceEvent)
      → checkpoint kit.platform id input.checkpoint_ref s ≡ ok spec
      → breaks_na input.response spec ≡ false
      → lacks_remark input.response (trimmed kit.runtime input.remark) ≡ false
      → Adds s (codes "ResponseRecorded" ∷ []) t
      → Recorded kit id input s (upsert_response (row_for kit id input spec e) t)
  unfolding upsert_response
  recorded s t spec e found allowed explained adds =
      let (stored, shown, response, remark) =
        find-put_response_same (row_for kit id input spec e) t.responses in
      record {
        spec = spec;
        on_instrument = found;
        allowed = allowed;
        explained = explained;
        authored_into = t;
        adds = adds;
        stored = stored;
        shown = shown;
        answered = (response, remark);
        others = λ id' ref' other.
            find-put_response_other (row_for kit id input spec e) id' ref' t.responses other
            ∙ ap (answer id' ref') adds.same_else;
        same_else = refl;
      }

  abbrev author_answer : Checkpoint → Unit {0} → Visit (Unit {0})
  author_answer spec _ =
      authored_as kit (codes "inspection") id (codes "ResponseRecorded")
        (response_json input (trimmed kit.runtime input.remark)) tick
      >>= store_answer spec

  abbrev check_remark : Checkpoint → Unit {0} → Visit (Unit {0})
  check_remark spec _ =
      raise_if (lacks_remark input.response (trimmed kit.runtime input.remark)) remark_needed
      >>= author_answer spec

  abbrev check_na : Checkpoint → Visit (Unit {0})
  check_na spec = raise_if (breaks_na input.response spec) na_not_accepted >>= check_remark spec

  -- What is asked of author for the answer.
  abbrev pub asked_answer : Request
  asked_answer =
      asked_of (codes "inspection") id (codes "ResponseRecorded")
        (response_json input (trimmed kit.runtime input.remark)) tick

  authored_answer :
      (s : FieldStore)
      → Authors kit asked_answer s (
          authored_as kit
            (codes "inspection")
            id
            (codes "ResponseRecorded")
            (response_json input (trimmed kit.runtime input.remark))
            tick
            s)
  authored_answer s =
      authored_as-Authors kit (codes "inspection") id (codes "ResponseRecorded") _ tick s

  -- An answer that is returned without an error is on the instrument, is not an N/A where none is
  -- accepted and has a remark where it is adverse; one event is authored for it, it is the answer
  -- that the store shows for its checkpoint, whatever stood there before, every other answer is the
  -- one from before, and only the outbox and the answers change. An error changes nothing.
  pub record_response_lem :
      (s : FieldStore) → RecordPost kit id input s (record_response kit id input tick s)
  unfolding record_response
  record_response_lem s =
      read-post check_na Q s _ _ refl
        (λ spec found.
          read-post (check_remark spec) Q s _ _ refl
            (λ _ allowed.
              read-post (author_answer spec) Q s _ _ refl
                (λ _ explained.
                  bind-post (store_answer spec) Q (Authors kit asked_answer s) _ (authored_answer s)
                    (λ e t adds.
                      recorded s t spec e found
                        (raise_if-passed _ (breaks_na input.response spec) allowed)
                        (raise_if-passed _
                          (lacks_remark input.response (trimmed kit.runtime input.remark))
                          explained)
                        adds)
                    (λ e t same. same.0))
                (λ e. refl))
            (λ e. refl))
        (λ e. refl)
    where
      Q : Result (Unit {0}) × FieldStore → Type 0
      Q = RecordPost kit id input s

  -- The outcome of an answer to an inspection with this row.
  abbrev pub LatePost : FieldStore → LocalInspection → Result (Unit {0}) × FieldStore → Type 0
  LatePost s i (ok _, s') =
      (inspection id s' ≡ some i)
      × (r : LocalResponse) × (answer id input.checkpoint_ref s' ≡ some r)
      × (r.response ≡ input.response)
  LatePost s i (raised e, s') =
      (why : AuthorError) × (e ≡ not_authored why)
      × (author kit.platform kit.signer kit.actor_user_id asked_answer s ≡ failed why)

  late_of :
      (i : LocalInspection) (s s' : FieldStore)
      → inspection id s ≡ some i
      → Recorded kit id input s s'
      → LatePost s i (ok tt, s')
  unfolding inspection
  late_of i s s' known done = (
    ap (λ (x : FieldStore). find (is_inspection id) x.inspections) done.same_else
        ∙ (inspection-Adds id done.adds ∙ known),
    done.stored,
    done.shown,
    done.answered.0,
  )

  -- The sign-off does not stop an answer: to an inspection that is submitted already, an answer to a
  -- checkpoint of its instrument that passes the two guards is recorded like any other, unless author
  -- throws for its event. The store then shows the new answer, and the row of the inspection is as it was.
  pub record_response_late :
      (s : FieldStore) (i : LocalInspection) (spec : Checkpoint)
      → inspection id s ≡ some i
      → i.is_submitted ≡ true
      → checkpoint kit.platform id input.checkpoint_ref s ≡ ok spec
      → breaks_na input.response spec ≡ false
      → lacks_remark input.response (trimmed kit.runtime input.remark) ≡ false
      → LatePost s i (record_response kit id input tick s)
  unfolding record_response
  record_response_late s i spec known submitted found allowed explained =
      read-ok check_na (LatePost s i) s _ spec found (
        read-ok (check_remark spec) (LatePost s i) s _ tt (raise_if-pass _ _ allowed) (
          read-ok (author_answer spec) (LatePost s i) s _ tt (raise_if-pass _ _ explained) (
            bind-post (store_answer spec) (LatePost s i) (Authors kit asked_answer s) _
              (authored_answer s)
              (λ e t adds. late_of i s _ known (recorded s t spec e found allowed explained adds))
              (λ e t (same, why, named, threw). (why, named, threw)))))
