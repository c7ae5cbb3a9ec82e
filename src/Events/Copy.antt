-- ===== src/Events/Copy.antt =====
-- The hash of an event whose payload went through JSON text.
use agroassure.Prelude.{none, some, ◌≡◌, sym, ap, ◌∙◌, false, Text, Option-cases, inl, inr}
use agroassure.Json.{Json}
use agroassure.Json.Copy.{json_copy}
use agroassure.Hashing.{Platform, canonicalize, option_map, is_undefined}
use agroassure.Hashing.Canonical.{
  Alike, same, objects, ends, fields, canonicalize-Alike, copy-Alike,
}
use agroassure.Events.{EventSignable, signable_part, compute_event_hash}

signable_part-Alike :
    (e : EventSignable) (v : Json)
    → Alike e.payload v
    → Alike (signable_part e) (signable_part (record e { payload = v }))
unfolding signable_part
signable_part-Alike e v h = objects (
    fields _ (same _) (
      fields _ (same _) (
        fields _ (same _) (
          fields _ (same _) (
            fields _ (same _) (
              fields _ h (
                fields _ (same _)
                  (fields _ (same _) (fields _ (same _) (fields _ (same _) ends))))))))))

refused_payload :
    (p : Platform) (e : EventSignable)
    → is_undefined e.payload ≡ false
    → canonicalize e.payload ≡ none
    → compute_event_hash p e ≡ none
unfolding compute_event_hash signable_part canonicalize
refused_payload p e defined refused = rw (defined, refused)

-- An event whose payload is not undefined keeps its hash when the payload is written to JSON and
-- read back.
pub compute_event_hash-json_copy :
    (p : Platform) (e : EventSignable) (h : Text)
    → is_undefined e.payload ≡ false
    → compute_event_hash p e ≡ some h
    → compute_event_hash p (record e { payload = json_copy e.payload }) ≡ some h
unfolding compute_event_hash
compute_event_hash-json_copy p e h defined hashed = elim (Option-cases (canonicalize e.payload)) [
  | inl refused ↦ absurd (let n = refused_payload p e defined refused in cc)
  | inr (t, found) ↦
      ap (option_map p.sha256_hex)
        (sym (canonicalize-Alike (signable_part-Alike e _ (copy-Alike e.payload found))))
      ∙ hashed
]
