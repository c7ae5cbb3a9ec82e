-- ===== src/Hlc.antt =====
-- packages/domain/src/hlc.ts: the hybrid logical clock and its text form. Times are whole
-- milliseconds since the epoch. `other` is what JavaScript's Number gives on text that is no run of
-- 1 to 15 digits (see Prelude/Decimal).
pub mod Clock
pub mod Codec
pub mod Order
pub mod Compare
use Prim.Native.Nat.{compare, Ordering}
use agroassure.Prelude.{
  ℕ, ◌+◌, max, Bool, true, false, ◌&&◌, Option, none, some, List, [], ◌∷◌, ◌++◌, ltb, ◌==◌,
  if◌then◌else◌, Text, decimal, pad_start, to_number,
}

pub record HlcState : Type 0 where
  pub physical : ℕ
  pub counter : ℕ
  pub node_id : Text

abbrev pub phys_width : ℕ
phys_width = 15

abbrev pub ctr_width : ℕ
ctr_width = 5

abbrev pub colon : ℕ
colon = 58

unfoldable pub hlc_init : Text → HlcState
hlc_init node_id = record { physical = 0; counter = 0; node_id = node_id }

-- The state after a local event; the code's stamp is `encode` of it.
unfoldable pub hlc_next : HlcState → ℕ → HlcState
hlc_next state now =
    let physical = max state.physical now in
    record {
      physical = physical;
      counter = if physical == state.physical then state.counter + 1 else 0;
      node_id = state.node_id;
    }

unfoldable pub encode : HlcState → Text
encode state =
    pad_start phys_width (decimal state.physical)
    ++ colon ∷ (pad_start ctr_width (decimal state.counter) ++ colon ∷ state.node_id)

unfoldable pub hlc_send : HlcState → ℕ → HlcState × Text
unfolding hlc_next encode
hlc_send state now = let next = hlc_next state now in (next, encode next)

-- One more character in front of a text that is split already.
unfoldable pub split_step : ℕ → List Text → List Text
split_step c [] = (c ∷ []) ∷ []
split_step c (part ∷ parts) = if c == colon then [] ∷ part ∷ parts else (c ∷ part) ∷ parts

-- s.split(":")
unfoldable pub split_colon : Text → List Text
unfolding split_step
split_colon [] = [] ∷ []
split_colon (c ∷ s) = split_step c (split_colon s)

-- parts.join(":")
unfoldable pub join_colon : List Text → Text
join_colon [] = []
join_colon (part ∷ []) = part
join_colon (part ∷ next ∷ parts) = part ++ colon ∷ join_colon (next ∷ parts)

-- With `none` for the thrown Error.
decode_parts : (Text → Option ℕ) → List Text → Option HlcState
decode_parts other (physical ∷ counter ∷ node ∷ nodes) = elim (to_number other physical) [
  | none ↦ none
  | some p ↦ elim (to_number other counter) [
    | none ↦ none
    | some c ↦ some (record { physical = p; counter = c; node_id = join_colon (node ∷ nodes) })
  ]
]
decode_parts other _ = none

unfoldable pub decode : (Text → Option ℕ) → Text → Option HlcState
unfolding decode_parts
decode other stamp = decode_parts other (split_colon stamp)

-- s < t on strings, by UTF-16 code units.
unfoldable pub text_compare : Text → Text → Ordering
text_compare [] [] = Ordering.eq
text_compare [] (b ∷ t) = Ordering.lt
text_compare (a ∷ s) [] = Ordering.gt
text_compare (a ∷ s) (b ∷ t) = elim (compare a b) [
  | Ordering.eq ↦ text_compare s t
  | Ordering.lt ↦ Ordering.lt
  | Ordering.gt ↦ Ordering.gt
]

-- The sign that hlcCompare returns on two decoded stamps.
unfoldable pub compare_state : HlcState → HlcState → Ordering
compare_state a b = elim (compare a.physical b.physical) [
  | Ordering.eq ↦ elim (compare a.counter b.counter) [
    | Ordering.eq ↦ text_compare a.node_id b.node_id
    | Ordering.lt ↦ Ordering.lt
    | Ordering.gt ↦ Ordering.gt
  ]
  | Ordering.lt ↦ Ordering.lt
  | Ordering.gt ↦ Ordering.gt
]

-- `none` where one of the stamps does not decode, and hlcCompare throws.
unfoldable pub hlc_compare : (Text → Option ℕ) → Text → Text → Option Ordering
hlc_compare other a b = elim (decode other a) [
  | none ↦ none
  | some da ↦ elim (decode other b) [ none ↦ none | some db ↦ some (compare_state da db) ]
]

-- Merging a remote stamp, once decoded.
unfoldable pub hlc_merge : HlcState → HlcState → ℕ → HlcState
hlc_merge state remote now =
    let physical = max (max state.physical remote.physical) now in
    record {
      physical = physical;
      counter =
          if physical == state.physical && physical == remote.physical
          then max state.counter remote.counter + 1
          else if physical == state.physical
          then state.counter + 1
          else if physical == remote.physical
          then remote.counter + 1
          else 0;
      node_id = state.node_id;
    }

unfoldable pub hlc_receive : (Text → Option ℕ) → HlcState → Text → ℕ → Option HlcState
hlc_receive other state remote_stamp now = elim (decode other remote_stamp) [
  | none ↦ none
  | some remote ↦ some (hlc_merge state remote now)
]
