-- ===== src/Projection/Answers.antt =====
-- projector.service.ts: responseRecorded.
use agroassure.Prelude.{
  ℕ, Bool, true, false, not, ◌&&◌, ◌||◌, Option, none, some, List, [], ◌∷◌, ◌++◌, any, find, ◌==◌,
  if◌then◌else◌, Text, text_eq, split_on,
}
use agroassure.Projection.{CheckpointSpec, InstrumentVersion, References, ResponseRow, Tables}
use agroassure.Projection.Payloads.{ResponseRecordedPayload}
use agroassure.Projection.Rows.{checked, is_inspection, is_version}
use agroassure.Projection.FindingRows.{answers_checkpoint}

-- What PostgreSQL makes of a text cast to an integer.
pub data Cast : Type 0 where
  number : ℕ → Cast
  below_zero refused : Cast

-- split_part(ref, '.', 1) and split_part(ref, '.', 2), which are empty where there is none.
abbrev pub first_part : List Text → Text
first_part [] = []
first_part (a ∷ l) = a

abbrev pub second_part : List Text → Text
second_part [] = []
second_part (a ∷ l) = first_part l

abbrev cast_is : Cast → ℕ → Bool
cast_is (number n) m = n == m
cast_is below_zero m = false
cast_is refused m = false

abbrev is_checkpoint : Cast → Cast → CheckpointSpec → Bool
is_checkpoint section ordinal c = cast_is section c.section_ordinal && cast_is ordinal c.ordinal

-- coalesce(cp.weight, 1) over the LEFT JOINs
abbrev pub weight_in : Cast → Cast → Text → List InstrumentVersion → ℕ
weight_in section ordinal version_id versions = elim (find (is_version version_id) versions) [
  | none ↦ 1
  | some v ↦ elim (find (is_checkpoint section ordinal) v.checkpoints) [
    | none ↦ 1
    | some c ↦ c.weight
  ]
]

abbrev is_refused : Cast → Bool
is_refused refused = true
is_refused _ = false

abbrev pub response_of : Text → Text → Text → ResponseRecordedPayload → ℕ → ResponseRow
response_of event_id inspection_id hlc p weight = record {
  id = event_id;
  inspection_id = inspection_id;
  checkpoint_ref = p.checkpoint_ref;
  response = p.response;
  remark = p.remark;
  weight = weight;
  recorded_hlc = hlc;
}

-- The casts are constants of the statement, and raise their error whatever it joins.
unfoldable pub response_recorded :
    (Text → Cast)
    → References
    → Text
    → Text
    → Text
    → ResponseRecordedPayload
    → Tables
    → Option Tables
response_recorded to_int refs event_id inspection_id hlc p t =
    let parts = split_on 46 p.checkpoint_ref in
    let section = to_int (first_part parts) in
    let ordinal = to_int (second_part parts) in
    if is_refused section || is_refused ordinal
    then none
    else elim (find (is_inspection inspection_id) t.inspections) [
      | none ↦ some t
      | some i ↦
          if any (answers_checkpoint inspection_id p.checkpoint_ref) t.responses
          then some t
          else checked (not (any (λ (r : ResponseRow). text_eq r.id event_id) t.responses))
              (record t {
                responses =
                    t.responses
                    ++ response_of event_id inspection_id hlc p
                        (weight_in section ordinal i.instrument_version_id refs.versions)
                      ∷ [];
              })
    ]
