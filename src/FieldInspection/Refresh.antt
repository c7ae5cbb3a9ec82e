-- ===== src/FieldInspection/Refresh.antt =====
-- An open inspection after a bundle that no longer carries the version it is bound to.
use mathlib.Core.Path.{subst}
use agroassure.Prelude.{
  sym, ◌∙◌, ℕ, false, some, none, List, [], ◌∷◌, find, ◌≡◌, refl, arith, Text, text_eq,
}
use agroassure.FieldStore.{LocalVersion, LocalInspection, PriorFinding, FieldStore}
use agroassure.FieldStore.Visits.{inspection, instrument_version}
use agroassure.FieldStore.Bundle.{BootstrapBundle, filled, apply_bootstrap}
use agroassure.FieldStore.Refresh.{Distinct, holds_key, apply_bootstrap_put}
use agroassure.FieldInspection.{
  Kit, Tick, SubmitInput, RecordResponseInput, CaptureEvidenceInput, no_bound_version, raised,
}
use agroassure.FieldInspection.Checklist.{version, checkpoint, unanswered}
use agroassure.FieldInspection.Actions.{check_submission, submit, record_response, capture_evidence}

-- No operation of a visit gets further than the missing version.
pub record Blocked (id : Text) (s : FieldStore) : Type 0 where
  pub recording :
      (kit : Kit) (input : RecordResponseInput) (tick : Tick)
      → record_response kit id input tick s ≡ (raised no_bound_version, s)
  pub capturing :
      (kit : Kit) (input : CaptureEvidenceInput) (tick : Tick)
      → capture_evidence kit id input tick s ≡ (raised no_bound_version, s)
  pub submitting :
      (kit : Kit) (input : SubmitInput) (ticks : ℕ → Tick)
      → submit kit id input ticks s ≡ (raised no_bound_version, s)

find-none :
    (k : Text) (vs : List LocalVersion)
    → holds_key (λ (v : LocalVersion). v.id) k vs ≡ false
    → find (λ (v : LocalVersion). text_eq v.id k) vs ≡ none
find-none k [] h = refl
find-none k (v ∷ vs) h = ground (arith, find-none k vs)

blocked :
    (id : Text) (s : FieldStore) (i : LocalInspection)
    → inspection id s ≡ some i
    → i.is_submitted ≡ false
    → instrument_version i.instrument_version_id s ≡ none
    → Blocked id s
unfolding version checkpoint unanswered check_submission submit record_response capture_evidence
blocked id s i known still_open gone = record {
  recording = λ kit input tick. ground arith;
  capturing = λ kit input tick. ground arith;
  submitting = λ kit input ticks. ground arith;
}

-- A bundle without the version that an open inspection is bound to ends it: once the bundle is
-- applied, no answer and no exhibit can be recorded and the inspection cannot be submitted.
pub bootstrap_blocks :
    (to_upper : Text → Text) (bundle : BootstrapBundle) (s s' : FieldStore) (id : Text)
    (i : LocalInspection)
    → Distinct (λ (v : LocalVersion). v.id) bundle.instrument_versions
    → Distinct (λ (f : PriorFinding). f.id) bundle.prior_findings
    → inspection id s ≡ some i
    → i.is_submitted ≡ false
    → holds_key (λ (v : LocalVersion). v.id) i.instrument_version_id bundle.instrument_versions
      ≡ false
    → apply_bootstrap to_upper bundle s ≡ filled s'
    → Blocked id s'
unfolding inspection instrument_version
bootstrap_blocks to_upper bundle s s' id i h k known still_open gone applied =
    subst (Blocked id) (filled_same (sym (apply_bootstrap_put to_upper bundle s h k) ∙ applied))
      (blocked id _ i known still_open (find-none i.instrument_version_id _ gone))
  where
    filled_same : {a b : FieldStore} → filled a ≡ filled b → a ≡ b
    filled_same e = cc e
