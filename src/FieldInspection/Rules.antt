-- ===== src/FieldInspection/Rules.antt =====
-- Rules for an operation of a visit, from its parts.
use mathlib.Core.Path.{subst}
use agroassure.Prelude.{Bool, true, false, if◌then◌else◌, ◌≡◌, refl, sym}
use agroassure.FieldStore.{FieldStore}
use agroassure.FieldInspection.{InspectionError, Result, ok, raised, Visit}

-- Rules for the outcome of a step and what follows it.
module _ {ℓ κ} {A : Type ℓ} {B : Type κ} (f : A → Visit B)
    (Q : Result B × FieldStore → Type 0) where
  pub bind-post :
      (P : Result A × FieldStore → Type 0) (x : Result A × FieldStore)
      → P x
      → ((a : A) (t : FieldStore) → P (ok a, t) → Q (f a t))
      → ((e : InspectionError) (t : FieldStore) → P (raised e, t) → Q (raised e, t))
      → Q (let (r, t) = x in elim r [ ok a ↦ f a t | raised e ↦ (raised e, t) ])
  bind-post P (ok a, t) p k h = k a t p
  bind-post P (raised e, t) p k h = h e t p

  pub read-post :
      (s : FieldStore) (r r' : Result A)
      → r ≡ r'
      → ((a : A) → r ≡ ok a → Q (f a s))
      → ((e : InspectionError) → Q (raised e, s))
      → Q (elim r' [ ok a ↦ f a s | raised e ↦ (raised e, s) ])
  read-post s r (ok a) same k h = k a same
  read-post s r (raised e) same k h = h e

  pub read-ok :
      (s : FieldStore) (r : Result A) (a : A)
      → r ≡ ok a
      → Q (f a s)
      → Q (elim r [ ok b ↦ f b s | raised e ↦ (raised e, s) ])
  read-ok s r a same q =
      subst (λ x. Q (elim x [ ok b ↦ f b s | raised e ↦ (raised e, s) ])) (sym same) q

-- What lets a guard pass.
pub raise_if-passed :
    (e : InspectionError) (b : Bool)
    → if◌then◌else◌ {A = Result (Unit {0})} b (raised e) (ok tt) ≡ ok tt
    → b ≡ false
raise_if-passed e true h = absurd (cc h)
raise_if-passed e false h = refl

pub raise_if-pass :
    (e : InspectionError) (b : Bool)
    → b ≡ false
    → if◌then◌else◌ {A = Result (Unit {0})} b (raised e) (ok tt) ≡ ok tt
raise_if-pass e b h = rw h refl
