-- ===== src/Hashing/Base64/RoundTrip.antt =====
-- Base64 text decodes to the bytes that it was made from.
use mathlib.Core.Path.{ap₂}
use agroassure.Prelude.{
  false, All-append, ℕ, zero, suc, ◌+◌, ◌-◌, ◌*◌, ◌/◌, ◌%◌, ◌≤◌, ◌<◌, ◌≡◌, refl, ap, ◌∙◌, arith,
  Bool, true, Bool-cases, inl, inr, if◌then◌else◌, ◌&&◌, List, [], ◌∷◌, ◌++◌, ◌==◌, filter, length,
  take, All, Text, length-append, min,
}
use agroassure.Hashing.Base64.{
  b64_char, b64_lookup, triple, bytes_to_base64, is_b64, emit, decode_from, base64_to_bytes,
  equals_sign,
}

-- A digit and its character name each other.
abbrev digit_ok : ℕ → Bool
digit_ok n = is_b64 (b64_char n) && b64_lookup (b64_char n) == n

-- From `start` on, the next `room` digits are in order.
digits_ok : ℕ → ℕ → Bool
digits_ok start zero = true
digits_ok start (suc room) = if digit_ok start then digits_ok (suc start) room else false

digit_ok_within :
    (room start n : ℕ)
    → digits_ok start room ≡ true
    → start ≤ n
    → n < start + room
    → digit_ok n ≡ true
unfolding digits_ok
digit_ok_within zero start n ok low high = absurd (omega (arith, low, high))
digit_ok_within (suc room) start n ok low high = elim (Bool-cases (digit_ok start)) [
  | inr bad ↦ absurd (let wrong = rw bad at ok in cc)
  | inl good ↦ elim (Bool-cases (start == n)) [
    | inl same ↦ ground arith
    | inr other ↦ digit_ok_within room (suc start) n (rw good at ok) (ground arith) (omega arith)
  ]
]

all_digits_ok : digits_ok 0 64 ≡ true
unfolding digits_ok b64_lookup b64_char is_b64
all_digits_ok = refl

b64_lookup-b64_char :
    (n : ℕ) → n < 64 → (b64_lookup (b64_char n) ≡ n) × (is_b64 (b64_char n) ≡ true)
b64_lookup-b64_char n h = ground (arith, digit_ok_within 64 0 n all_digits_ok (omega arith) h)

filter-b64_char :
    (n : ℕ) (t : Text) → n < 64 → filter is_b64 (b64_char n ∷ t) ≡ b64_char n ∷ filter is_b64 t
filter-b64_char n t h = rw ((b64_lookup-b64_char n h).1)

abbrev pub IsByte : ℕ → Type 0
IsByte b = b < 256

-- The digits of a triple give its bytes again.
three_bytes :
    (b0 b1 b2 : ℕ)
    → b0 < 256
    → b1 < 256
    → b2 < 256
    → let t = triple b0 b1 b2 in
      let u = t / 262144 % 64 * 262144 + t / 4096 % 64 * 4096 + t / 64 % 64 * 64 + t % 64 in
      (u / 65536 % 256 ≡ b0) × (u / 256 % 256 ≡ b1) × (u % 256 ≡ b2)
three_bytes b0 b1 b2 h0 h1 h2 = omega arith

-- What a text of base64 characters decodes to, whatever stands between them.
abbrev decode_clean : Text → List ℕ
decode_clean t = decode_from t (length t * 3 / 4)

take_nil : (n : ℕ) → take {A = ℕ} n [] ≡ []
take_nil zero = refl
take_nil (suc n) = refl

is_b64-b64_char : (n : ℕ) → n < 64 → is_b64 (b64_char n) ≡ true
is_b64-b64_char n h = (b64_lookup-b64_char n h).1

equals_sign_dropped : is_b64 equals_sign ≡ false
unfolding is_b64
equals_sign_dropped = refl

module _ (n0 n1 : ℕ) (h0 : n0 < 64) (h1 : n1 < 64) where
  decode_two : decode_clean (b64_char n0 ∷ b64_char n1 ∷ []) ≡ emit 1 n0 n1 0 0
  unfolding decode_from
  decode_two = rw ((b64_lookup-b64_char n0 h0).0, (b64_lookup-b64_char n1 h1).0)

  decode_three :
      (n2 : ℕ)
      → n2 < 64
      → decode_clean (b64_char n0 ∷ b64_char n1 ∷ b64_char n2 ∷ []) ≡ emit 2 n0 n1 n2 0
  unfolding decode_from
  decode_three n2 h2 =
      rw (
        (b64_lookup-b64_char n0 h0).0,
        (b64_lookup-b64_char n1 h1).0,
        (b64_lookup-b64_char n2 h2).0,
      )

  decode_four :
      (n2 n3 : ℕ) (t : Text)
      → n2 < 64
      → n3 < 64
      → decode_clean (b64_char n0 ∷ b64_char n1 ∷ b64_char n2 ∷ b64_char n3 ∷ t)
        ≡ emit 3 n0 n1 n2 n3 ++ decode_clean t
  unfolding decode_from
  decode_four n2 n3 t h2 h3 =
      let room : suc (suc (suc (suc (length t)))) * 3 / 4 ≡ suc (suc (suc (length t * 3 / 4))) =
        omega arith in
      let left : suc (suc (suc (length t * 3 / 4))) - 3 ≡ length t * 3 / 4 = omega arith in
      rw (
        room,
        left,
        take_nil (length t * 3 / 4),
        (b64_lookup-b64_char n0 h0).0,
        (b64_lookup-b64_char n1 h1).0,
        (b64_lookup-b64_char n2 h2).0,
        (b64_lookup-b64_char n3 h3).0,
      )

-- The lemma's digits are those of a triple, which are below 64.
digit_0 : (t : ℕ) → t / 262144 % 64 < 64
digit_0 t = omega arith

digit_1 : (t : ℕ) → t / 4096 % 64 < 64
digit_1 t = omega arith

digit_2 : (t : ℕ) → t / 64 % 64 < 64
digit_2 t = omega arith

digit_3 : (t : ℕ) → t % 64 < 64
digit_3 t = omega arith

round_trip :
    (bytes : List ℕ)
    → All IsByte bytes
    → decode_clean (filter is_b64 (bytes_to_base64 bytes)) ≡ bytes
unfolding bytes_to_base64
round_trip [] h = unfold decode_from in refl
round_trip (b0 ∷ []) h =
    let t = triple b0 0 0 in
    rw (is_b64-b64_char _ (digit_0 t), is_b64-b64_char _ (digit_1 t), equals_sign_dropped)
      (decode_two _ _ (digit_0 t) (digit_1 t) ∙ ap (λ (b : ℕ). b ∷ []) (omega arith))
round_trip (b0 ∷ b1 ∷ []) h =
    let t = triple b0 b1 0 in
    rw
      (
        is_b64-b64_char _ (digit_0 t),
        is_b64-b64_char _ (digit_1 t),
        is_b64-b64_char _ (digit_2 t),
        equals_sign_dropped,
      )
      (decode_three _ _ (digit_0 t) (digit_1 t) _ (digit_2 t)
        ∙ ap₂ (λ (b c : ℕ). b ∷ c ∷ []) (omega arith) (omega arith))
round_trip (b0 ∷ b1 ∷ b2 ∷ bytes) h =
    let t = triple b0 b1 b2 in
    let (e0, e1, e2) = three_bytes b0 b1 b2 h.0 h.1.0 h.1.1.0 in
    rw
      (
        is_b64-b64_char _ (digit_0 t),
        is_b64-b64_char _ (digit_1 t),
        is_b64-b64_char _ (digit_2 t),
        is_b64-b64_char _ (digit_3 t),
      )
      (decode_four _ _ (digit_0 t) (digit_1 t) _ _ _ (digit_2 t) (digit_3 t)
        ∙ cc (e0, e1, e2, round_trip bytes h.1.1.1))

-- Base64 text of bytes decodes to those bytes, whatever their number.
pub base64_to_bytes-bytes_to_base64 :
    (bytes : List ℕ) → All IsByte bytes → base64_to_bytes (bytes_to_base64 bytes) ≡ bytes
unfolding base64_to_bytes
base64_to_bytes-bytes_to_base64 bytes h = round_trip bytes h

length-take_three : (room x y z : ℕ) → length (take room (x ∷ y ∷ z ∷ [])) ≡ min room 3
length-take_three zero x y z = omega arith
length-take_three (suc zero) x y z = omega arith
length-take_three (suc (suc zero)) x y z = omega arith
length-take_three (suc (suc (suc r))) x y z = omega (arith, ap (length {A = ℕ}) (take_nil r))

take_three-IsByte : (room x y z : ℕ) → All IsByte (take room (x % 256 ∷ y % 256 ∷ z % 256 ∷ []))
take_three-IsByte zero x y z = tt
take_three-IsByte (suc zero) x y z = omega arith
take_three-IsByte (suc (suc zero)) x y z = omega arith
take_three-IsByte (suc (suc (suc r))) x y z = rw take_nil (omega arith)

length-decode_from :
    (t : Text) (room : ℕ) → room ≤ (length t + 3) / 4 * 3 → length (decode_from t room) ≡ room
unfolding decode_from
length-decode_from [] room h = omega arith
length-decode_from (a ∷ []) room h = omega (arith, length-take_three room _ _ _)
length-decode_from (a ∷ b ∷ []) room h = omega (arith, length-take_three room _ _ _)
length-decode_from (a ∷ b ∷ c ∷ []) room h = omega (arith, length-take_three room _ _ _)
length-decode_from (a ∷ b ∷ c ∷ d ∷ t) room h =
    length-append _ (decode_from t (room - 3))
    ∙ omega (arith, length-take_three room _ _ _, length-decode_from t (room - 3) (omega arith))

decode_from-IsByte : (t : Text) (room : ℕ) → All IsByte (decode_from t room)
unfolding decode_from
decode_from-IsByte [] room = tt
decode_from-IsByte (a ∷ []) room = take_three-IsByte room _ _ _
decode_from-IsByte (a ∷ b ∷ []) room = take_three-IsByte room _ _ _
decode_from-IsByte (a ∷ b ∷ c ∷ []) room = take_three-IsByte room _ _ _
decode_from-IsByte (a ∷ b ∷ c ∷ d ∷ t) room =
    All-append IsByte _ (decode_from t (room - 3)) (take_three-IsByte room _ _ _)
      (decode_from-IsByte t (room - 3))

-- Any text decodes to bytes, three for every four of its base64 characters, rounded down.
base64_to_bytes_total :
    (t : Text)
    → All IsByte (base64_to_bytes t)
      × (length (base64_to_bytes t) ≡ length (filter is_b64 t) * 3 / 4)
unfolding base64_to_bytes
base64_to_bytes_total t =
    let clean = filter is_b64 t in
    let room = length clean * 3 / 4 in
    (decode_from-IsByte clean room, length-decode_from clean room (omega arith))
