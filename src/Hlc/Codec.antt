-- ===== src/Hlc/Codec.antt =====
-- A stamp reads back as the clock that wrote it.
use agroassure.Prelude.{
  ℕ, ◌^◌, ◌<◌, ◌≡◌, refl, ap, ◌∙◌, arith, true, Option, some, List, [], ◌∷◌, ◌++◌, Text, decimal,
  pad_start, all_digits, all_digits-pad_start-decimal, to_number-pad_start-decimal, ◌≢◌,
}
use agroassure.Hlc.{
  HlcState, phys_width, ctr_width, colon, encode, split_step, split_colon, join_colon, decode_parts,
  decode,
}

-- split never gives an empty array.
split_colon-ne-nil : (s : Text) → split_colon s ≢ []
unfolding split_colon
split_colon-ne-nil [] h = cc
split_colon-ne-nil (c ∷ s) h = split_step-ne-nil c (split_colon s) h
  where
    split_step-ne-nil : (c : ℕ) (parts : List Text) → split_step c parts ≢ []
    split_step-ne-nil c [] h = cc
    split_step-ne-nil c (part ∷ parts) h = ground arith

split_step-colon : (parts : List Text) → parts ≢ [] → split_step colon parts ≡ [] ∷ parts
unfolding split_step
split_step-colon [] h = absurd (h refl)
split_step-colon (part ∷ parts) h = refl

split_step_digit :
    (c : ℕ) (part : Text) (parts : List Text)
    → c ≢ colon
    → split_step c (part ∷ parts) ≡ (c ∷ part) ∷ parts
unfolding split_step
split_step_digit c part parts h = ground arith

split_colon-append :
    (t s : Text) → all_digits t ≡ true → split_colon (t ++ colon ∷ s) ≡ t ∷ split_colon s
unfolding split_colon
split_colon-append [] s d = split_step-colon (split_colon s) (split_colon-ne-nil s)
split_colon-append (c ∷ t) s d =
    rw (split_colon-append t s (ground arith)) (split_step_digit c t (split_colon s) (ground arith))

join_colon-split_step :
    (c : ℕ) (parts : List Text)
    → parts ≢ []
    → join_colon (split_step c parts) ≡ c ∷ join_colon parts
unfolding split_step join_colon
join_colon-split_step c [] h = absurd (h refl)
join_colon-split_step c (part ∷ []) h = ground arith
join_colon-split_step c (part ∷ next ∷ parts) h = ground arith

-- Splitting at the colons and joining with them again gives the text back.
join_colon-split_colon : (s : Text) → join_colon (split_colon s) ≡ s
unfolding split_colon
join_colon-split_colon [] = unfold join_colon in refl
join_colon-split_colon (c ∷ s) =
    join_colon-split_step c (split_colon s) (split_colon-ne-nil s)
    ∙ ap (◌∷◌ c) (join_colon-split_colon s)

decode_parts_lem :
    (other : Text → Option ℕ) (s : HlcState) (parts : List Text)
    → parts ≢ []
    → s.physical < 10 ^ 15
    → s.counter < 10 ^ 15
    → decode_parts other (
        pad_start phys_width (decimal s.physical) ∷ pad_start ctr_width (decimal s.counter) ∷ parts)
      ≡ some (record { physical = s.physical; counter = s.counter; node_id = join_colon parts })
unfolding decode_parts
decode_parts_lem other s [] ne hp hc = absurd (ne refl)
decode_parts_lem other s (node ∷ nodes) ne hp hc = rw (
  decode_parts,
  to_number-pad_start-decimal other phys_width s.physical hp (omega arith),
  to_number-pad_start-decimal other ctr_width s.counter hc (omega arith),
)

-- A clock whose time and counter stay below 10^15 (about the year 33658) decodes from its own
-- stamp to itself, whatever colons its node id has.
pub decode-encode :
    (other : Text → Option ℕ) (s : HlcState)
    → s.physical < 10 ^ 15
    → s.counter < 10 ^ 15
    → decode other (encode s) ≡ some s
unfolding decode encode
decode-encode other s hp hc = rw (
  split_colon-append (pad_start phys_width (decimal s.physical))
      (pad_start ctr_width (decimal s.counter) ++ colon ∷ s.node_id)
      (all_digits-pad_start-decimal phys_width s.physical),
  split_colon-append (pad_start ctr_width (decimal s.counter)) s.node_id
      (all_digits-pad_start-decimal ctr_width s.counter),
  decode_parts_lem other s (split_colon s.node_id) (split_colon-ne-nil s.node_id) hp hc,
  join_colon-split_colon s.node_id,
)
