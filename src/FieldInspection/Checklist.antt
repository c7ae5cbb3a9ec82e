-- ===== src/FieldInspection/Checklist.antt =====
-- packages/field-core/src/inspection.ts: what a visit reads off the store.
use Prim.Native.Nat.{compare, Ordering}
use agroassure.Prelude.{
  ℕ, Bool, true, false, Option, none, some, List, [], ◌∷◌, ◌++◌, map, filter, find, any, ◌==◌,
  if◌then◌else◌, Text, codes, text_eq, decimal, to_number, split_on,
}
use agroassure.Sort.{sort}
use agroassure.Types.{no_response}
use agroassure.Scoring.{ScoredCheckpoint, FindingLike, RatingBands, RatingResult, score_inspection}
use agroassure.Hashing.{Platform}
use agroassure.FieldStore.{Section, Checkpoint, LocalVersion, LocalResponse, FieldStore}
use agroassure.FieldStore.Visits.{inspection, instrument_version, responses_of}
use agroassure.FieldInspection.{
  ProvisionalFinding, InspectionError, unknown_inspection, no_bound_version, not_on_instrument,
  Result, ok, raised,
}

infixl 5 ◌>>=◌
abbrev pub ◌>>=◌ {ℓ κ} : {A : Type ℓ} {B : Type κ} → Result A → (A → Result B) → Result B
ok a >>= f = f a
raised e >>= f = raised e

abbrev pub or_raise {ℓ} : {A : Type ℓ} → Option A → InspectionError → Result A
or_raise none e = raised e
or_raise (some a) e = ok a

abbrev checkpoint_at : Option ℕ → Option ℕ → List Section → Option Checkpoint
checkpoint_at (some i) (some j) sections = elim (find (λ (s : Section). s.ordinal == i) sections) [
  | none ↦ none
  | some s ↦ find (λ (c : Checkpoint). c.ordinal == j) s.checkpoints
]
checkpoint_at _ _ sections = none

-- Ordinals are natural numbers, so a number that is negative or a fraction finds none, as `none` does.
unfoldable pub find_checkpoint : (Text → Option ℕ) → List Section → Text → Option Checkpoint
find_checkpoint other sections ref = elim (split_on 46 ref) [
  | section_part ∷ checkpoint_part ∷ rest ↦
      checkpoint_at (to_number other section_part) (to_number other checkpoint_part) sections
  | _ ↦ none
]

unfoldable pub version : Text → FieldStore → Result LocalVersion
version inspection_id s = do
  let i = (← or_raise (inspection inspection_id s) unknown_inspection)
  or_raise (instrument_version i.instrument_version_id s) no_bound_version

unfoldable pub checkpoint : Platform → Text → Text → FieldStore → Result Checkpoint
checkpoint p inspection_id ref s = do
  let v = (← version inspection_id s)
  or_raise (find_checkpoint p.other_number v.sections ref) not_on_instrument

-- Number(a) - Number(b): NaN is no difference, for || and for sort.
abbrev difference : Option ℕ → Option ℕ → Ordering
difference (some a) (some b) = compare a b
difference _ _ = Ordering.eq

abbrev first_part : List Text → Text
first_part [] = codes "0"
first_part (a ∷ parts) = a

abbrev second_part : List Text → Text
second_part (a ∷ b ∷ parts) = b
second_part _ = codes "0"

-- A ref that was recorded is two ordinals.
unfoldable pub compare_refs : (Text → Option ℕ) → Text → Text → Ordering
compare_refs other a b =
    let sections =
      difference (to_number other (first_part (split_on 46 a)))
        (to_number other (first_part (split_on 46 b))) in
    elim sections [
      | Ordering.eq ↦
          difference (to_number other (second_part (split_on 46 a)))
            (to_number other (second_part (split_on 46 b)))
      | o ↦ o
    ]

abbrev pub is_adverse : LocalResponse → Bool
is_adverse r = elim r.response [ no_response ↦ true | _ ↦ false ]

abbrev pub or_prompt : Option Text → Text → Text
or_prompt none prompt = prompt
or_prompt (some remark) prompt = remark

unfoldable pub findings_of :
    Platform → Text → FieldStore → List LocalResponse → Result (List ProvisionalFinding)
findings_of p inspection_id s [] = ok []
findings_of p inspection_id s (r ∷ rs) = do
  let spec = (← checkpoint p inspection_id r.checkpoint_ref s)
  let rest = (← findings_of p inspection_id s rs)
  ok (
      record {
        checkpoint_ref = r.checkpoint_ref;
        severity = spec.severity_on_fail;
        summary = or_prompt r.remark spec.prompt_en;
      }
      ∷ rest)

unfoldable pub adverse : Platform → Text → FieldStore → List LocalResponse
adverse p inspection_id s =
    sort (λ (a b : LocalResponse). compare_refs p.other_number a.checkpoint_ref b.checkpoint_ref)
      (filter is_adverse (responses_of inspection_id s))

unfoldable pub provisional_findings :
    Platform → Text → FieldStore → Result (List ProvisionalFinding)
provisional_findings p inspection_id s = findings_of p inspection_id s (adverse p inspection_id s)

abbrev pub scored : LocalResponse → ScoredCheckpoint
scored r = record { weight = r.weight; response = r.response }

abbrev pub still_open : ProvisionalFinding → FindingLike
still_open f = record { severity = f.severity; is_open = true }

abbrev pub bands_of : LocalVersion → RatingBands
bands_of v = record {
  satisfactory_min = v.satisfactory_min;
  needs_improvement_min = v.needs_improvement_min;
}

unfoldable pub rating : Platform → Text → FieldStore → Result RatingResult
rating p inspection_id s = do
  let v = (← version inspection_id s)
  let findings = (← provisional_findings p inspection_id s)
  ok (
      score_inspection (map scored (responses_of inspection_id s)) (map still_open findings)
        (bands_of v))

abbrev pub ref_of : ℕ → ℕ → Text
ref_of section_ordinal ordinal = decimal section_ordinal ++ (46 ∷ decimal ordinal)

abbrev pub is_answered : List LocalResponse → Text → Bool
is_answered rs ref = any (λ (r : LocalResponse). text_eq r.checkpoint_ref ref) rs

abbrev pub missing_in : List LocalResponse → ℕ → List Checkpoint → List Text
missing_in rs section_ordinal [] = []
missing_in rs section_ordinal (c ∷ cs) =
    if is_answered rs (ref_of section_ordinal c.ordinal)
    then missing_in rs section_ordinal cs
    else ref_of section_ordinal c.ordinal ∷ missing_in rs section_ordinal cs

abbrev pub missing_from : List LocalResponse → List Section → List Text
missing_from rs [] = []
missing_from rs (section ∷ sections) =
    missing_in rs section.ordinal section.checkpoints ++ missing_from rs sections

unfoldable pub unanswered : Text → FieldStore → Result (List Text)
unanswered inspection_id s = do
  let v = (← version inspection_id s)
  ok (missing_from (responses_of inspection_id s) v.sections)
