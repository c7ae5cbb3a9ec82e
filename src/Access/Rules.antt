-- ===== src/Access/Rules.antt =====
-- Rules for what a call leaves when it is not refused, from its parts.
use mathlib.Core.Path.{subst}
use agroassure.Prelude.{Bool, true, false, Option, none, some, if◌then◌else◌, ◌≡◌, refl}
use agroassure.Access.{Refusal, Result, ok, refused, ◌>>=◌, ◌>>◌, refuse_if, or_refuse}

-- What holds of the value of a call that is not refused.
pub record Post {ℓ} {B : Type ℓ} (Q : B → Type 0) (m : Result B) : Type ℓ where
  pub at_ok : (b : B) → m ≡ ok b → Q b

pub ok-inj {ℓ} : {B : Type ℓ} {a b : B} → ok a ≡ ok b → a ≡ b
ok-inj h = cc

pub ok-Post {ℓ} : {B : Type ℓ} (Q : B → Type 0) (b : B) → Q b → Post Q (ok b)
ok-Post Q b q = record { at_ok = λ c h. subst Q (ok-inj h) q }

pub refused-Post {ℓ} : {B : Type ℓ} (Q : B → Type 0) (e : Refusal) → Post Q (refused e)
refused-Post Q e = record { at_ok = λ c h. absurd (cc h) }

module _ {ℓ κ} {A : Type ℓ} {B : Type κ} {Q : B → Type 0} where
  pub bind-Post :
      (m : Result A) (f : A → Result B) → ((a : A) → m ≡ ok a → Post Q (f a)) → Post Q (m >>= f)
  bind-Post (ok a) f k = k a refl
  bind-Post (refused e) f k = refused-Post Q e

  pub read-Post :
      (o : Option A) (e : Refusal) (f : A → Result B)
      → ((a : A) → o ≡ some a → Post Q (f a))
      → Post Q (or_refuse o e >>= f)
  read-Post (some a) e f k = k a refl
  read-Post none e f k = refused-Post Q e

  pub option-Post :
      (o : Option A) (x : Result B) (f : A → Result B)
      → (o ≡ none → Post Q x)
      → ((a : A) → o ≡ some a → Post Q (f a))
      → Post Q (elim o [ none ↦ x | some a ↦ f a ])
  option-Post none x f h k = h refl
  option-Post (some a) x f h k = k a refl

module _ {κ} {B : Type κ} {Q : B → Type 0} where
  pub guard-Post :
      (b : Bool) (e : Refusal) (k : Result B) → (b ≡ false → Post Q k) → Post Q (refuse_if b e >> k)
  guard-Post true e k h = refused-Post Q e
  guard-Post false e k h = h refl

  pub then-Post : (m : Result (Unit {0})) (k : Result B) → (m ≡ ok tt → Post Q k) → Post Q (m >> k)
  then-Post (ok a) k h = h refl
  then-Post (refused e) k h = refused-Post Q e

  pub if-Post :
      (b : Bool) (x y : Result B)
      → (b ≡ true → Post Q x)
      → (b ≡ false → Post Q y)
      → Post Q (if b then x else y)
  if-Post true x y h k = h refl
  if-Post false x y h k = k refl

pub refuse_if-ok : (b : Bool) (e : Refusal) → refuse_if b e ≡ ok tt → b ≡ false
refuse_if-ok true e h = absurd (cc h)
refuse_if-ok false e h = refl

-- A statement that is refused on a test.
pub unless-ok {ℓ} :
    {B : Type ℓ} (b : Bool) (e : Refusal) (x y : B)
    → (if b then refused e else ok x) ≡ ok y
    → (b ≡ false) × (x ≡ y)
unless-ok true e x y h = absurd (cc h)
unless-ok false e x y h = (refl, ok-inj h)

pub when-ok {ℓ} :
    {B : Type ℓ} (b : Bool) (e : Refusal) (x y : B)
    → (if b then ok x else refused e) ≡ ok y
    → (b ≡ true) × (x ≡ y)
when-ok true e x y h = (refl, ok-inj h)
when-ok false e x y h = absurd (cc h)

-- A guard with others after it.
pub guard-ok :
    (b : Bool) (e : Refusal) (k : Result (Unit {0}))
    → refuse_if b e >> k ≡ ok tt
    → (b ≡ false) × (k ≡ ok tt)
guard-ok true e k h = absurd (cc h)
guard-ok false e k h = (refl, h)

pub or_refuse-ok {ℓ} :
    {A : Type ℓ} (o : Option A) (e : Refusal) (a : A) → or_refuse o e ≡ ok a → o ≡ some a
or_refuse-ok none e a h = absurd (cc h)
or_refuse-ok (some b) e a h = cc
