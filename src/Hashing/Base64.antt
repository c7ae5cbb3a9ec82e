-- ===== src/Hashing/Base64.antt =====
-- packages/domain/src/hashing.ts: the base64 helpers, over bytes and code units. Shifts and masks of
-- numbers below 2^24 are written as products, quotients and remainders.
pub mod RoundTrip
use agroassure.Prelude.{
  ℕ, zero, suc, ◌+◌, ◌-◌, ◌*◌, ◌/◌, ◌%◌, Bool, true, false, ◌||◌, ◌&&◌, List, [], ◌∷◌, ◌++◌, leb,
  ◌==◌, if◌then◌else◌, filter, length, take, Text, codes, ltb,
}

abbrev pub b64_chars : Text
b64_chars = codes "ABCDEFGHIJKLMNOPQRSTUVWXYZabcdefghijklmnopqrstuvwxyz0123456789+/"

abbrev char_at : Text → ℕ → ℕ
char_at [] i = 0
char_at (c ∷ t) zero = c
char_at (c ∷ t) (suc i) = char_at t i

-- B64_CHARS[i]
unfoldable pub b64_char : ℕ → ℕ
b64_char i = char_at b64_chars i

-- The position of a character of the alphabet; B64_LOOKUP has it at the character's code.
abbrev position_from : ℕ → Text → ℕ → ℕ
position_from i [] c = 0
position_from i (d ∷ t) c = if d == c then i else position_from (suc i) t c

unfoldable pub b64_lookup : ℕ → ℕ
b64_lookup c = position_from 0 b64_chars c

abbrev pub equals_sign : ℕ
equals_sign = 61

abbrev pub triple : ℕ → ℕ → ℕ → ℕ
triple b0 b1 b2 = b0 * 65536 + b1 * 256 + b2

-- The loop over the bytes, three at a time, with its two short last rounds.
unfoldable pub bytes_to_base64 : List ℕ → Text
bytes_to_base64 [] = []
bytes_to_base64 (b0 ∷ []) =
    b64_char (triple b0 0 0 / 262144 % 64)
    ∷ b64_char (triple b0 0 0 / 4096 % 64)
    ∷ equals_sign
    ∷ equals_sign
    ∷ []
bytes_to_base64 (b0 ∷ b1 ∷ []) =
    b64_char (triple b0 b1 0 / 262144 % 64)
    ∷ b64_char (triple b0 b1 0 / 4096 % 64)
    ∷ b64_char (triple b0 b1 0 / 64 % 64)
    ∷ equals_sign
    ∷ []
bytes_to_base64 (b0 ∷ b1 ∷ b2 ∷ bytes) =
    b64_char (triple b0 b1 b2 / 262144 % 64)
    ∷ b64_char (triple b0 b1 b2 / 4096 % 64)
    ∷ b64_char (triple b0 b1 b2 / 64 % 64)
    ∷ b64_char (triple b0 b1 b2 % 64)
    ∷ bytes_to_base64 bytes

-- [A-Za-z0-9+/]
unfoldable pub is_b64 : ℕ → Bool
is_b64 c =
    (leb 65 c && leb c 90)
    || (leb 97 c && leb c 122)
    || (leb 48 c && leb c 57)
    || c == 43
    || c == 47

-- The three bytes of a round, as far as there is room for them in the output.
abbrev pub emit : ℕ → ℕ → ℕ → ℕ → ℕ → List ℕ
emit room c0 c1 c2 c3 =
    let t = c0 * 262144 + c1 * 4096 + c2 * 64 + c3 in
    take room (t / 65536 % 256 ∷ t / 256 % 256 ∷ t % 256 ∷ [])

-- The loop over the clean characters, four at a time; what is missing of the last round counts as 0.
unfoldable pub decode_from : Text → ℕ → List ℕ
decode_from [] room = []
decode_from (a ∷ []) room = emit room (b64_lookup a) 0 0 0
decode_from (a ∷ b ∷ []) room = emit room (b64_lookup a) (b64_lookup b) 0 0
decode_from (a ∷ b ∷ c ∷ []) room = emit room (b64_lookup a) (b64_lookup b) (b64_lookup c) 0
decode_from (a ∷ b ∷ c ∷ d ∷ t) room =
    emit room (b64_lookup a) (b64_lookup b) (b64_lookup c) (b64_lookup d)
    ++ decode_from t (room - 3)

unfoldable pub base64_to_bytes : Text → List ℕ
base64_to_bytes b64 = let clean = filter is_b64 b64 in decode_from clean (length clean * 3 / 4)
