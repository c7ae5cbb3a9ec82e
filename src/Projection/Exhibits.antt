-- ===== src/Projection/Exhibits.antt =====
-- projector.service.ts: evidenceCaptured, with evidenceObjectKey of sync/object-key.ts.
use agroassure.Prelude.{
  ℕ, ◌+◌, ◌%◌, Bool, true, false, not, ◌&&◌, ◌||◌, Option, none, some, [], ◌∷◌, ◌++◌, map, any,
  take, length, leb, ◌==◌, if◌then◌else◌, Text, text_eq,
}
use agroassure.Projection.{ExhibitRow, Tables}
use agroassure.Projection.Payloads.{EvidenceCapturedPayload}
use agroassure.Projection.Rows.{checked, is_inspection}

abbrev pub is_hex : ℕ → Bool
is_hex c = leb 48 c && leb c 57 || leb 65 c && leb c 70 || leb 97 c && leb c 102

abbrev pub all_hex : Text → Bool
all_hex [] = true
all_hex (c ∷ t) = is_hex c && all_hex t

-- decode(…, 'hex') raises an error on anything else.
abbrev pub decodes : Text → Bool
decodes t = all_hex t && length t % 2 == 0

abbrev lower_unit : ℕ → ℕ
lower_unit c = if leb 65 c && leb c 90 then c + 32 else c

-- toLowerCase, on ASCII; what is not hexadecimal is refused by the same statement.
abbrev pub lower_hex : Text → Text
lower_hex = map lower_unit

unfoldable pub evidence_object_key : Text → Text
evidence_object_key sha256 = let h = lower_hex sha256 in take 2 h ++ 47 ∷ h

abbrev same_exhibit : Text → Text → ExhibitRow → Bool
same_exhibit inspection_id sha256 e =
    text_eq e.inspection_id inspection_id && text_eq e.sha256 (lower_hex sha256)

unfoldable pub evidence_captured : Text → EvidenceCapturedPayload → Tables → Option Tables
evidence_captured inspection_id p t =
    if not (decodes p.sha256)
    then none
    else if any (same_exhibit inspection_id p.sha256) t.exhibits
    then some t
    else checked
        (any (is_inspection inspection_id) t.inspections
          && not (any (λ (e : ExhibitRow). text_eq e.id p.evidence_id) t.exhibits))
        (record t {
          exhibits =
              t.exhibits
              ++ record {
                id = p.evidence_id;
                inspection_id = inspection_id;
                checkpoint_ref = p.checkpoint_ref;
                sha256 = lower_hex p.sha256;
                object_key = evidence_object_key p.sha256;
                mime = p.mime;
                captured_at = p.captured_at;
                point = p.point;
                locked = false;
              }
                ∷ [];
        })
