-- ===== src/Tests/Domain.antt =====
-- The shared domain: scoring, findings, the clock and the canonical text.
use agroassure.Prelude.{
  ℕ, ◌*◌, ◌≤◌, ◌<◌, decimal, ◌≡◌, refl, arith, true, some, none, List, [], ◌∷◌, codes, inl, inr,
  text_eq, text_eq_iff,
}
use agroassure.Types.{
  yes_response, no_response, na, critical, major, minor, satisfactory, open_status, overdue,
  awaiting_verification, closed,
}
use agroassure.Scoring.{ScoredCheckpoint, FindingLike, default_bands, score_inspection}
use agroassure.Scoring.Bounds.{score_inspection_lem, yes_weight, answered_weight, IsNearest}
use agroassure.Scoring.Order.{score_inspection_mono, rank}
use agroassure.FindingState.{can_transition, day_ms, escalation_reason, EscalationCheck}
use agroassure.FindingState.Machine.{History, here, next, Visits, closed-Visits}
use agroassure.Sort.{sort}
use agroassure.Hlc.{text_compare, HlcState, encode, decode, hlc_compare}
use Prim.Native.Nat.{Ordering}
use agroassure.Hlc.Codec.{decode-encode}
use agroassure.Hlc.Compare.{StampBefore, Says, hlc_compare-encode}
use agroassure.Json.{Json, text, object, undefined, end, field}
use agroassure.Json.Copy.{json_copy}
use agroassure.Hashing.{canonicalize, quote, braced, join_comma}
use agroassure.Hashing.Canonical.{objects, swapped, canonicalize-Alike, canonicalize-json_copy}
use agroassure.Hashing.Base64.{bytes_to_base64, base64_to_bytes, b64_char}
use agroassure.Hashing.Base64.RoundTrip.{base64_to_bytes-bytes_to_base64}

abbrev answers : List ScoredCheckpoint
answers =
    record { weight = 32; response = yes_response }
    ∷ record { weight = 5; response = no_response }
    ∷ record { weight = 4; response = na }
    ∷ []

abbrev improved : List ScoredCheckpoint
improved =
    record { weight = 32; response = yes_response }
    ∷ record { weight = 5; response = yes_response }
    ∷ record { weight = 4; response = na }
    ∷ []

abbrev reordered : List ScoredCheckpoint
reordered =
    record { weight = 5; response = no_response }
    ∷ record { weight = 32; response = yes_response }
    ∷ record { weight = 4; response = na }
    ∷ []

abbrev minor_open : List FindingLike
minor_open = record { severity = minor; is_open = true } ∷ []

-- The worked example of the source: 32 Yes, 5 No, 4 N/A.
concept_note :
    ((score_inspection answers [] default_bands).rating_percent ≡ 8649)
    × ((score_inspection answers [] default_bands).display_percent ≡ 86)
    × ((score_inspection answers [] default_bands).band ≡ satisfactory)
unfolding score_inspection
concept_note = (refl, refl, refl)

score_inspection_lem_example :
    let r = score_inspection answers minor_open default_bands in
    (r.weighted_yes ≡ yes_weight answers)
    × (r.weighted_answered ≡ answered_weight answers)
    × (r.rating_percent ≤ 10000)
    × (r.weighted_answered ≡ 0 → r.rating_percent ≡ 0)
    × (0 < r.weighted_answered
        → IsNearest r.rating_percent (10000 * yes_weight answers) (answered_weight answers))
    × IsNearest r.display_percent r.rating_percent 100
    × (r.display_percent ≤ 100)
score_inspection_lem_example = score_inspection_lem answers minor_open default_bands

score_inspection_mono_example :
    ((score_inspection answers [] default_bands).rating_percent
      ≤ (score_inspection improved [] default_bands).rating_percent)
    × ((score_inspection answers [] default_bands).display_percent
        ≤ (score_inspection improved [] default_bands).display_percent)
    × (rank (score_inspection answers [] default_bands).band
        ≤ rank (score_inspection improved [] default_bands).band)
score_inspection_mono_example =
    score_inspection_mono answers improved [] default_bands
      (refl, inl refl, (refl, inr (refl, refl), (refl, inl refl, tt)))

abbrev handled : History open_status closed
handled = unfold can_transition in next {t = awaiting_verification} (next here refl) refl

closed-Visits_example : Visits awaiting_verification handled
closed-Visits_example = closed-Visits handled (λ e. cc) refl

abbrev late : EscalationCheck
late = record { status = overdue; severity = critical; due_date = 0 }

reason : escalation_reason major 0 (2 * day_ms) ≡ codes "Major finding overdue by 2 days"
unfolding escalation_reason decimal
reason = refl

abbrev clock : HlcState
clock = record { physical = 1700; counter = 4; node_id = codes "a:b" }

abbrev later : HlcState
later = record { physical = 1700; counter = 5; node_id = codes "a:b" }

stamp : encode clock ≡ codes "000000000001700:00004:a:b"
unfolding encode decimal
stamp = refl

decode-encode_example : decode (λ t. none) (encode clock) ≡ some clock
decode-encode_example = decode-encode (λ t. none) clock (omega arith) (omega arith)

hlc_compare-encode_example :
    (o : Ordering) × (hlc_compare (λ t. none) (encode clock) (encode later) ≡ some o)
    × Says StampBefore o clock later
hlc_compare-encode_example = hlc_compare-encode (λ t. none) clock later (omega arith) (omega arith)

abbrev remark : Json
remark = object (field (codes "b") (text (codes "x\"y")) (field (codes "a") undefined end))

canonical_text : canonicalize remark ≡ some (codes "{\"b\":\"x\\\"y\"}")
unfolding canonicalize quote braced join_comma sort text_compare
canonical_text = refl

canonicalize-Alike_example :
    canonicalize remark
    ≡ canonicalize
        (object (field (codes "a") undefined (field (codes "b") (text (codes "x\"y")) end)))
canonicalize-Alike_example = canonicalize-Alike (
    objects (
      swapped (codes "b") (codes "a") (text (codes "x\"y")) undefined end
        (λ e. apart ((text_eq_iff (codes "b") (codes "a")).1 e))))
  where
    apart : ¬ (text_eq (codes "b") (codes "a") ≡ true)
    apart e = unfold text_eq in cc

canonicalize-json_copy_example : canonicalize (json_copy remark) ≡ some (codes "{\"b\":\"x\\\"y\"}")
canonicalize-json_copy_example =
    canonicalize-json_copy remark (codes "{\"b\":\"x\\\"y\"}") canonical_text

abbrev bytes : List ℕ
bytes = 77 ∷ 97 ∷ 110 ∷ 255 ∷ []

encoded : bytes_to_base64 bytes ≡ codes "TWFu/w=="
unfolding bytes_to_base64 b64_char
encoded = refl

base64_to_bytes-bytes_to_base64_example : base64_to_bytes (bytes_to_base64 bytes) ≡ bytes
base64_to_bytes-bytes_to_base64_example = base64_to_bytes-bytes_to_base64 bytes (omega arith)
