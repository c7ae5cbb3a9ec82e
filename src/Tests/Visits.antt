-- ===== src/Tests/Visits.antt =====
-- A visit with one section of two checkpoints, one of them answered No.
use agroassure.Prelude.{
  ◌≡◌, refl, true, false, none, some, codes, [], ◌∷◌, ℕ, zero, suc, ◌+◌, ◌<◌, ◌≤◌, ◌^◌, ◌++◌, List,
  length, map, any, replicate, arith,
}
use agroassure.Types.{major, yes_response, no_response}
use agroassure.Sort.{sort, insert}
use agroassure.Scoring.{score_inspection}
use agroassure.FieldStore.{
  AssignedFacility, Checkpoint, LocalVersion, LocalInspection, LocalResponse, FieldStore,
}
use agroassure.FieldStore.Visits.{inspection, instrument_version, responses_of}
use agroassure.FieldStore.Bundle.{BootstrapBundle, filled, apply_bootstrap, put_facilities}
use agroassure.FieldStore.Refresh.{apply_bootstrap_lem}
use agroassure.FieldInspection.{Kit, Tick, SubmitInput, RecordResponseInput, ProvisionalFinding, ok}
use agroassure.FieldInspection.Checklist.{
  find_checkpoint, version, checkpoint, compare_refs, adverse, unanswered, scored, still_open,
  bands_of,
}
use agroassure.FieldInspection.Actions.{submit, record_response}
use agroassure.FieldInspection.Submission.{Submitted, SubmitPost, submit_lem}
use agroassure.FieldInspection.Authoring.{Draws}
use agroassure.FieldInspection.Completion.{is_lost_no, submit-Completes}
use agroassure.Outbox.Links.{start}
use agroassure.Hlc.{hlc_init}
use agroassure.FieldInspection.Refresh.{Blocked, bootstrap_blocks}
use agroassure.FieldInspection.Recording.{
  RecordPost, LatePost, record_response_lem, record_response_late,
}
use agroassure.Prelude.{text_eq, split_on, to_number, decimal}
use agroassure.Tests.Device.{platform, signer}

abbrev kit : Kit
kit = record {
  platform = platform;
  runtime = record {
    to_upper = λ t. t;
    trim = λ t. t;
    parse_date = λ t. some 1700000000000;
    iso_date = λ n. codes "2023-11-17";
    distance = λ a b. 12;
  };
  signer = signer;
  actor_user_id = codes "ann";
}

abbrev ticks : ℕ → Tick
ticks n = record {
  fresh_id = codes "f" ++ decimal n;
  event_id = codes "e" ++ replicate n 49;
  now = 1700000000000;
  created_at = 1700000000000;
}

abbrev seal : Checkpoint
seal = record {
  ordinal = 1;
  prompt_en = codes "Seal intact";
  weight = 3;
  severity_on_fail = major;
  allows_na = false;
}

abbrev label : Checkpoint
label = record seal { ordinal = 2; weight = 2; allows_na = true }

abbrev first_version : LocalVersion
first_version = record {
  id = codes "v1";
  instrument_id = codes "n";
  facility_type = codes "mill";
  version_label = codes "1";
  satisfactory_min = 8000;
  needs_improvement_min = 6000;
  structure_hash = codes "h1";
  sections = record { ordinal = 1; checkpoints = seal ∷ label ∷ [] } ∷ [];
}

abbrev visit : LocalInspection
visit = record {
  id = codes "i";
  reference = codes "INS-KT-1";
  facility_id = codes "f";
  instrument_version_id = codes "v1";
  structure_hash = codes "h1";
  checkin_lat = codes "1";
  checkin_lng = codes "2";
  checkin_accuracy_m = none;
  checkin_distance_m = 0;
  checkin_flagged = false;
  is_submitted = false;
  rating = none;
  inspector_signed_at = none;
  facility_signed_at = none;
  facility_rep_name = none;
  submitted_at = none;
}

abbrev broken_seal : LocalResponse
broken_seal = record {
  id = codes "r1";
  inspection_id = codes "i";
  checkpoint_ref = codes "1.1";
  response = no_response;
  remark = some (codes "torn");
  weight = 3;
  recorded_hlc = codes "0";
}

abbrev good_label : LocalResponse
good_label = record broken_seal {
  id = codes "r2";
  checkpoint_ref = codes "1.2";
  response = yes_response;
  remark = none;
  weight = 2;
}

abbrev store : FieldStore
store = record {
  outbox = [];
  evidence = [];
  prior_findings = [];
  pull_cursors = [];
  facilities = [];
  versions = first_version ∷ [];
  inspections = visit ∷ [];
  responses = broken_seal ∷ good_label ∷ [];
  jurisdiction_code = none;
}

abbrev sign_input : SubmitInput
sign_input = record {
  inspector_user_id = codes "ann";
  inspector_signed_at = codes "2023-11-14";
  rep_name = codes "Bala";
  rep_role = codes "owner";
  rep_signed_at = codes "2023-11-14";
}

submit_lem_example :
    SubmitPost kit (codes "i") sign_input store (submit kit (codes "i") sign_input ticks store)
submit_lem_example = submit_lem kit (codes "i") sign_input ticks store

known : inspection (codes "i") store ≡ some visit
unfolding inspection text_eq
known = refl

listed : unanswered (codes "i") store ≡ ok []
unfolding unanswered version inspection instrument_version responses_of text_eq decimal
listed = refl

longer :
    (i j : ℕ) → i < j → text_eq (codes "e" ++ replicate j 49) (codes "e" ++ replicate i 49) ≡ false
unfolding text_eq
longer i zero h = absurd (omega (arith, h))
longer zero (suc j) h = refl
longer (suc i) (suc j) h = longer i j (omega arith)

draws : Draws ticks
draws = record { apart = longer; in_time = λ i. omega arith }

one_no : adverse platform (codes "i") store ≡ broken_seal ∷ []
unfolding adverse sort insert responses_of compare_refs text_eq
one_no = refl

room : 0 + suc (length (adverse platform (codes "i") store)) ≤ 10 ^ 15
room = rw one_no (omega arith)

bound : version (codes "i") store ≡ ok first_version
unfolding version inspection instrument_version text_eq
bound = refl

on_version : any (is_lost_no platform first_version) (responses_of (codes "i") store) ≡ false
unfolding responses_of find_checkpoint split_on to_number text_eq
on_version = refl

submit-Completes_example :
    (findings : List ProvisionalFinding) × (s' : FieldStore) × (length findings
      ≡ length (adverse platform (codes "i") store))
    × (let r =
          score_inspection
            (map scored (responses_of (codes "i") store))
            (map still_open findings)
            (bands_of first_version) in
        (submit kit (codes "i") sign_input ticks store ≡ (ok r, s'))
        × Submitted kit (codes "i") sign_input store r s')
submit-Completes_example =
    submit-Completes kit (codes "i") sign_input ticks store visit first_version 1700000000000 0
      (hlc_init (codes "dev")) none
      (record { known = known; not_submitted = refl; complete = listed }) bound on_version refl
      start room draws (λ k. refl)

abbrev second_version : LocalVersion
second_version = record first_version { id = codes "v2"; version_label = codes "2" }

abbrev shop : AssignedFacility
shop = record {
  id = codes "f";
  licence_number = codes "L1";
  facility_type = codes "mill";
  name = codes "Mill";
  lga = none;
  reg_lat = none;
  reg_lng = none;
  reg_accuracy_m = none;
  assignment_reason = none;
  assignment_kind = none;
  due_by = none;
}

abbrev bundle : BootstrapBundle
bundle = record {
  jurisdiction_code = codes "KT";
  facilities = shop ∷ [];
  instrument_versions = second_version ∷ [];
  prior_findings = [];
}

abbrev refreshed : FieldStore
refreshed = record store {
  jurisdiction_code = some (codes "KT");
  facilities = shop ∷ [];
  versions = second_version ∷ [];
}

apply_bootstrap_lem_example : apply_bootstrap (λ t. t) bundle store ≡ filled refreshed
unfolding put_facilities text_eq
apply_bootstrap_lem_example = apply_bootstrap_lem (λ t. t) bundle store (refl, tt) (refl, tt) tt

bootstrap_blocks_example : Blocked (codes "i") refreshed
unfolding text_eq
bootstrap_blocks_example =
    bootstrap_blocks (λ t. t) bundle store refreshed (codes "i") visit (refl, tt) tt known refl refl
      apply_bootstrap_lem_example

abbrev mended : RecordResponseInput
mended = record {
  checkpoint_ref = codes "1.1";
  response = yes_response;
  remark = none;
  evidence_ids = [];
}

record_response_lem_example :
    RecordPost kit (codes "i") mended store (record_response kit (codes "i") mended (ticks 0) store)
record_response_lem_example = record_response_lem kit (codes "i") mended (ticks 0) store

abbrev closed_visit : LocalInspection
closed_visit = record visit { is_submitted = true }

abbrev closed_store : FieldStore
closed_store = record store { inspections = closed_visit ∷ [] }

closed_known : inspection (codes "i") closed_store ≡ some closed_visit
unfolding inspection text_eq
closed_known = refl

seal_found : checkpoint platform (codes "i") (codes "1.1") closed_store ≡ ok seal
unfolding checkpoint version inspection instrument_version find_checkpoint split_on to_number
    text_eq
seal_found = refl

record_response_late_example :
    LatePost kit
      (codes "i")
      mended
      (ticks 0)
      closed_store
      closed_visit
      (record_response kit (codes "i") mended (ticks 0) closed_store)
record_response_late_example =
    record_response_late kit (codes "i") mended (ticks 0) closed_store closed_visit seal
      closed_known refl seal_found refl refl
