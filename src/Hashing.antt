-- ===== src/Hashing.antt =====
-- packages/domain/src/hashing.ts: the canonical text of an event and its hash.
pub mod Canonical
pub mod Base64
use Prim.Native.Nat.{Ordering}
use agroassure.Prelude.{
  ℕ, ◌+◌, ◌-◌, ◌/◌, ◌%◌, Bool, true, false, not, map, ◌&&◌, ◌||◌, Option, none, some, List, [], ◌∷◌,
  ◌++◌, ltb, leb, ◌==◌, if◌then◌else◌, Text, codes, decimal,
}
use agroassure.Hlc.{text_compare}
use agroassure.Sort.{sort}
use agroassure.Json.{
  Json, Items, Fields, null, boolean, number, non_finite, text, array, object, undefined, foreign,
  nil, cons, end, field,
}

-- What the code takes from @noble/hashes, @noble/ed25519 and the JavaScript Number constructor: the
-- hex SHA-256 of a text's UTF-8 bytes, the check of a base64 signature over a hex hash by a public
-- key, and Number on text that is no run of 1 to 15 digits.
pub record Platform : Type 0 where
  pub sha256_hex : Text → Text
  pub verify_signature : Text → Text → Text → Bool
  pub other_number : Text → Option ℕ

-- JSON.stringify of a string.
abbrev hex_digit : ℕ → ℕ
hex_digit n = if ltb n 10 then 48 + n else 87 + n

abbrev unicode_escape : ℕ → Text
unicode_escape c =
    92
    ∷ b'u'
    ∷ hex_digit (c / 4096)
    ∷ hex_digit (c / 256 % 16)
    ∷ hex_digit (c / 16 % 16)
    ∷ hex_digit (c % 16)
    ∷ []

abbrev is_high_surrogate : ℕ → Bool
is_high_surrogate c = leb 0xd800 c && ltb c 0xdc00

abbrev is_low_surrogate : ℕ → Bool
is_low_surrogate c = leb 0xdc00 c && ltb c 0xe000

-- One code unit; `paired` says that it belongs to a surrogate pair.
quote_unit : Bool → ℕ → Text
quote_unit paired c =
    if c == 34
    then 92 ∷ 34 ∷ []
    else if c == 92
    then 92 ∷ 92 ∷ []
    else if c == 8
    then 92 ∷ b'b' ∷ []
    else if c == 12
    then 92 ∷ b'f' ∷ []
    else if c == 10
    then 92 ∷ b'n' ∷ []
    else if c == 13
    then 92 ∷ b'r' ∷ []
    else if c == 9
    then 92 ∷ b't' ∷ []
    else if ltb c 32
    then unicode_escape c
    else if is_high_surrogate c && not paired
    then unicode_escape c
    else if is_low_surrogate c && not paired
    then unicode_escape c
    else c ∷ []

abbrev starts_low : Text → Bool
starts_low [] = false
starts_low (c ∷ t) = is_low_surrogate c

-- `after_high`: the unit before this one is a high surrogate.
quote_units : Bool → Text → Text
quote_units after_high [] = []
quote_units after_high (c ∷ t) =
    quote_unit ((is_high_surrogate c && starts_low t) || (is_low_surrogate c && after_high)) c
    ++ quote_units (is_high_surrogate c) t

unfoldable pub quote : Text → Text
unfolding quote_units quote_unit
quote t = 34 ∷ (quote_units false t ++ 34 ∷ [])

-- parts.join(",")
unfoldable pub join_comma : List Text → Text
join_comma [] = []
join_comma (part ∷ []) = part
join_comma (part ∷ next ∷ parts) = part ++ 44 ∷ join_comma (next ∷ parts)

abbrev pub compare_key : Text × Text → Text × Text → Ordering
compare_key a b = text_compare a.0 b.0

abbrev pub member : Text × Text → Text
member m = quote m.0 ++ 58 ∷ m.1

-- The members of an object in the order of their keys, "{" and "}" around them.
unfoldable pub braced : List (Text × Text) → Text
braced members = 123 ∷ (join_comma (map member (sort compare_key members)) ++ 125 ∷ [])

abbrev pub bracketed : List Text → Text
bracketed parts = 91 ∷ (join_comma parts ++ 93 ∷ [])

-- Both parts of a fallible pair of steps.
abbrev pub push {ℓ} : {A : Type ℓ} → Option A → Option (List A) → Option (List A)
push none rest = none
push (some a) none = none
push (some a) (some l) = some (a ∷ l)

abbrev pub keyed : Text → Option Text → Option (Text × Text)
keyed k none = none
keyed k (some t) = some (k, t)

abbrev pub option_map {ℓ κ} : {A : Type ℓ} {B : Type κ} → (A → B) → Option A → Option B
option_map f none = none
option_map f (some a) = some (f a)

abbrev pub is_undefined : Json → Bool
is_undefined undefined = true
is_undefined _ = false

-- `none` where canonicalize throws. The members of an object are sorted once all are there: the
-- keys that are undefined are left out before.
unfoldable mutual
  pub canonicalize : Json → Option Text
  canonicalize null = some (codes "null")
  canonicalize (boolean true) = some (codes "true")
  canonicalize (boolean false) = some (codes "false")
  canonicalize (number t) = some t
  canonicalize non_finite = none
  canonicalize (text t) = some (quote t)
  canonicalize (array xs) = option_map bracketed (canonical_items xs)
  canonicalize (object fs) = option_map braced (canonical_fields fs)
  canonicalize undefined = none
  canonicalize foreign = none

  pub canonical_items : Items → Option (List Text)
  canonical_items nil = some []
  canonical_items (cons v xs) = push (canonicalize v) (canonical_items xs)

  pub canonical_fields : Fields → Option (List (Text × Text))
  canonical_fields end = some []
  canonical_fields (field k v fs) =
      let rest = canonical_fields fs in
      if is_undefined v then rest else push (keyed k (canonicalize v)) rest
