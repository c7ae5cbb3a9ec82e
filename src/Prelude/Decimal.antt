-- ===== src/Prelude/Decimal.antt =====
-- Decimal text: String(n), padStart and Number on runs of digits.
use Prim.Native.Nat.{ℕ, zero, suc, ◌+◌, ◌-◌, ◌*◌, ◌/◌, ◌%◌, ◌^◌, ◌≤◌, ◌<◌}
use mathlib.Core.Path.{◌≡◌, refl, ◌∙◌, ap}
use mathlib.Core.Logic.{inl, inr}
use mathlib.Core.Bool.{Bool, true, ◌&&◌}
use mathlib.Core.Option.{Option, some}
use mathlib.Core.List.{[], ◌∷◌, ◌++◌}
use native.Mathlib.Nat.{pow-suc}
use native.Mathlib.Omega.{arith}
use agroassure.Prelude.Tests.{lt→ltb, ltb, leb, if◌then◌else◌, Bool-cases}
use agroassure.Prelude.Lists.{length, replicate, length-append}
use agroassure.Prelude.Texts.{Text, codes}

-- The digits of n before those of `acc`; n + 1 rounds are more than enough.
decimal_from : ℕ → ℕ → Text → Text
decimal_from zero n acc = acc
decimal_from (suc fuel) n acc =
    let more = decimal_from fuel (n / 10) ((48 + n % 10) ∷ acc) in
    if ltb n 10 then (48 + n) ∷ acc else more

-- String(n) of a whole number n < 10^21.
unfoldable pub decimal : ℕ → Text
unfolding decimal_from
decimal n = decimal_from (suc n) n []

-- t.padStart(width, "0")
abbrev pub pad_start : ℕ → Text → Text
pad_start width t = replicate (width - length t) 48 ++ t

abbrev pub is_digit : ℕ → Bool
is_digit c = leb 48 c && leb c 57

abbrev pub all_digits : Text → Bool
all_digits [] = true
all_digits (c ∷ t) = is_digit c && all_digits t

abbrev pub value_from : ℕ → Text → ℕ
value_from v [] = v
value_from v (c ∷ t) = value_from (v * 10 + (c - 48)) t

-- Number(t): a run of 1 to 15 digits is its value, exactly. `other` says what Number gives on any
-- other text, with `none` for what is not finite.
unfoldable pub to_number : (Text → Option ℕ) → Text → Option ℕ
to_number other [] = other []
to_number other (c ∷ t) =
    if all_digits (c ∷ t) && leb (length (c ∷ t)) 15
    then some (value_from 0 (c ∷ t))
    else other (c ∷ t)

decimal_test : decimal 1740 ≡ codes "1740"
unfolding decimal
decimal_test = refl

value-decimal_from :
    (fuel n : ℕ) (acc : Text) → n < fuel → value_from 0 (decimal_from fuel n acc) ≡ value_from n acc
unfolding decimal_from
value-decimal_from zero n acc h = elim h [ ]
value-decimal_from (suc fuel) n acc h = elim (Bool-cases (ltb n 10)) [
  | inl small ↦ rw small (ap (λ (v : ℕ). value_from v acc) (omega arith))
  | inr big ↦ rw big (
      value-decimal_from fuel (n / 10) ((48 + n % 10) ∷ acc) (ground arith)
      ∙ ap (λ (v : ℕ). value_from v acc) (omega arith))
]

all_digits-decimal_from :
    (fuel n : ℕ) (acc : Text) → n < fuel → all_digits (decimal_from fuel n acc) ≡ all_digits acc
unfolding decimal_from
all_digits-decimal_from zero n acc h = elim h [ ]
all_digits-decimal_from (suc fuel) n acc h =
    ground (arith, all_digits-decimal_from fuel (n / 10) ((48 + n % 10) ∷ acc))

pow_ten : (k : ℕ) → 10 ^ suc k ≡ 10 * 10 ^ k
pow_ten k = omega (arith, pow-suc 10 k)

length-decimal_from :
    (k fuel n : ℕ) (acc : Text)
    → n < fuel
    → n < 10 * 10 ^ k
    → length (decimal_from fuel n acc) ≤ suc k + length acc
unfolding decimal_from
length-decimal_from k zero n acc h b = elim h [ ]
length-decimal_from zero (suc fuel) n acc h b = ground (arith, lt→ltb n 10)
length-decimal_from (suc k) (suc fuel) n acc h b =
    let bound : n < 10 * (10 * 10 ^ k) = rw pow_ten at b in
    ground (arith, length-decimal_from k fuel (n / 10) ((48 + n % 10) ∷ acc))

decimal_nonempty : (fuel n : ℕ) (acc : Text) → n < fuel → 0 < length (decimal_from fuel n acc)
unfolding decimal_from
decimal_nonempty zero n acc h = elim h [ ]
decimal_nonempty (suc fuel) n acc h =
    ground (arith, decimal_nonempty fuel (n / 10) ((48 + n % 10) ∷ acc))

value-zeros : (k : ℕ) (t : Text) → value_from 0 (replicate k 48 ++ t) ≡ value_from 0 t
value-zeros zero t = refl
value-zeros (suc k) t = value-zeros k t

all_digits-zeros : (k : ℕ) (t : Text) → all_digits (replicate k 48 ++ t) ≡ all_digits t
all_digits-zeros zero t = refl
all_digits-zeros (suc k) t = all_digits-zeros k t

length-replicate : (k : ℕ) → length (replicate {A = ℕ} k 48) ≡ k
length-replicate zero = refl
length-replicate (suc k) = ap suc (length-replicate k)

pub all_digits-decimal : (n : ℕ) → all_digits (decimal n) ≡ true
unfolding decimal
all_digits-decimal n = all_digits-decimal_from (suc n) n [] (omega arith)

pub all_digits-pad_start-decimal : (w n : ℕ) → all_digits (pad_start w (decimal n)) ≡ true
all_digits-pad_start-decimal w n =
    all_digits-zeros (w - length (decimal n)) (decimal n) ∙ all_digits-decimal n

to_number_digits :
    (other : Text → Option ℕ) (t : Text)
    → all_digits t ≡ true
    → 0 < length t
    → length t ≤ 15
    → to_number other t ≡ some (value_from 0 t)
unfolding to_number
to_number_digits other [] d pos short = absurd (omega arith)
to_number_digits other (c ∷ t) d pos short = ground arith

length-pad_start :
    (w n : ℕ)
    → n < 10 ^ 15
    → w ≤ 15
    → (0 < length (pad_start w (decimal n))) × (length (pad_start w (decimal n)) ≤ 15)
unfolding decimal
length-pad_start w n h k = omega (
  arith,
  length-append {0} (replicate (w - length (decimal n)) 48) (decimal n),
  length-replicate (w - length (decimal n)),
  length-decimal_from 14 (suc n) n [] (omega arith) h,
  decimal_nonempty (suc n) n [] (omega arith),
)

-- Number reads back what String and padStart wrote.
pub to_number-pad_start-decimal :
    (other : Text → Option ℕ) (w n : ℕ)
    → n < 10 ^ 15
    → w ≤ 15
    → to_number other (pad_start w (decimal n)) ≡ some n
to_number-pad_start-decimal other w n h k =
    to_number_digits other (pad_start w (decimal n)) (all_digits-pad_start-decimal w n)
      (length-pad_start w n h k).0 (length-pad_start w n h k).1
    ∙ ap some (value-zeros (w - length (decimal n)) (decimal n) ∙ value-decimal n)
  where
    value-decimal : (n : ℕ) → value_from 0 (decimal n) ≡ n
    value-decimal n = unfold decimal in value-decimal_from (suc n) n [] (omega arith)
