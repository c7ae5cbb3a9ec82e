-- ===== src/Hashing/Canonical.antt =====
-- What the canonical text of a value does not depend on.
use mathlib.Core.Path.{ap₂}
use agroassure.Prelude.{
  sym, map, ◌++◌, inl, inr, Option-cases, Option, none, some, List, [], ◌∷◌, ◌≡◌, ◌≢◌, refl, ap,
  ◌∙◌, arith, Text, if◌then◌else◌,
}
use agroassure.Sort.{insert, sort}
use agroassure.Sort.Laws.{insert_comm, IsOrder, IsOrder-on}
use agroassure.Hlc.Order.{text_compare-IsOrder, text_compare_eq}
use agroassure.Json.{
  Json, Items, Fields, null, boolean, number, non_finite, text, array, object, undefined, foreign,
  nil, cons, end, field,
}
use agroassure.Json.Copy.{json_copy, items_copy, fields_copy}
use agroassure.Hashing.{
  canonicalize, canonical_items, canonical_fields, braced, bracketed, join_comma, member,
  compare_key, push, keyed, option_map, is_undefined,
}

-- One value written in two ways: at any depth the keys of an object may stand in another order, and
-- a key may be left out where its value is undefined.
mutual
  pub data Alike : Json → Json → Type 0 where
    same : (v : Json) → Alike v v
    arrays : {xs ys : Items} → AlikeItems xs ys → Alike (array xs) (array ys)
    objects : {fs gs : Fields} → AlikeFields fs gs → Alike (object fs) (object gs)

  pub data AlikeItems : Items → Items → Type 0 where
    nils : AlikeItems nil nil
    conses :
        {v w : Json} {xs ys : Items}
        → Alike v w
        → AlikeItems xs ys
        → AlikeItems (cons v xs) (cons w ys)

  pub data AlikeFields : Fields → Fields → Type 0 where
    ends : AlikeFields end end
    fields :
        (k : Text) {v w : Json} {fs gs : Fields}
        → Alike v w
        → AlikeFields fs gs
        → AlikeFields (field k v fs) (field k w gs)
    swapped :
        (k j : Text) (v w : Json) (fs : Fields)
        → k ≢ j
        → AlikeFields (field k v (field j w fs)) (field j w (field k v fs))
    dropped : (k : Text) (fs : Fields) → AlikeFields (field k undefined fs) fs
    in_turn : {fs gs hs : Fields} → AlikeFields fs gs → AlikeFields gs hs → AlikeFields fs hs

-- The members of an object as they come out of the sort.
sorted_fields : Fields → Option (List (Text × Text))
sorted_fields fs = option_map (sort compare_key) (canonical_fields fs)

abbrev place : Option (Text × Text) → Option (List (Text × Text)) → Option (List (Text × Text))
place none l = none
place (some m) none = none
place (some m) (some l) = some (insert compare_key m l)

sort-push :
    (m : Option (Text × Text)) (l : Option (List (Text × Text)))
    → option_map (sort compare_key) (push m l) ≡ place m (option_map (sort compare_key) l)
unfolding sort
sort-push none l = refl
sort-push (some m) none = refl
sort-push (some m) (some l) = refl

sorted_fields-field :
    (k : Text) (v : Json) (fs : Fields)
    → sorted_fields (field k v fs) ≡ (
        if is_undefined v
        then sorted_fields fs
        else place (keyed k (canonicalize v)) (sorted_fields fs))
unfolding sorted_fields canonical_fields
sorted_fields-field k v fs =
    ground (arith, sort-push (keyed k (canonicalize v)) (canonical_fields fs))

compare_key-IsOrder : IsOrder compare_key
compare_key-IsOrder = IsOrder-on (λ m. m.0) text_compare-IsOrder

place_comm :
    (k j : Text) (s t : Option Text) (l : Option (List (Text × Text)))
    → k ≢ j
    → place (keyed k s) (place (keyed j t) l) ≡ place (keyed j t) (place (keyed k s) l)
place_comm k j none none l ne = refl
place_comm k j none (some t) none ne = refl
place_comm k j none (some t) (some l) ne = refl
place_comm k j (some s) none l ne = refl
place_comm k j (some s) (some t) none ne = refl
place_comm k j (some s) (some t) (some l) ne = ap some (
    insert_comm compare_key compare_key-IsOrder (k, s) (j, t) l
      (λ e. absurd (ne (text_compare_eq k j e))))

sorted_fields-swapped :
    (k j : Text) (v w : Json) (fs : Fields)
    → k ≢ j
    → sorted_fields (field k v (field j w fs)) ≡ sorted_fields (field j w (field k v fs))
sorted_fields-swapped k j v w fs ne = ground (
  arith,
  sorted_fields-field k v (field j w fs),
  sorted_fields-field j w (field k v fs),
  sorted_fields-field j w fs,
  sorted_fields-field k v fs,
  place_comm k j (canonicalize v) (canonicalize w) (sorted_fields fs) ne,
)

abbrev braces : Option (List (Text × Text)) → Option Text
braces = option_map (λ sorted. 123 ∷ (join_comma (map member sorted) ++ 125 ∷ []))

canonicalize-object : (fs : Fields) → canonicalize (object fs) ≡ braces (sorted_fields fs)
unfolding canonicalize sorted_fields braced
canonicalize-object fs = elim (Option-cases (canonical_fields fs)) [
  | inl e ↦ rw e
  | inr (ms, e) ↦ rw e
]

is_undefined-Alike : {v w : Json} → Alike v w → is_undefined v ≡ is_undefined w
is_undefined-Alike (same v) = refl
is_undefined-Alike (arrays h) = refl
is_undefined-Alike (objects h) = refl

mutual
  unfolding canonicalize

  same_text : {v w : Json} → Alike v w → canonicalize v ≡ canonicalize w
  same_text (same v) = refl
  same_text (arrays h) = ap (option_map bracketed) (same_items h)
  same_text (objects {fs} {gs} h) =
      canonicalize-object fs ∙ ap braces (same_fields h) ∙ sym (canonicalize-object gs)

  same_items : {xs ys : Items} → AlikeItems xs ys → canonical_items xs ≡ canonical_items ys
  same_items nils = refl
  same_items (conses h t) = ap₂ push (same_text h) (same_items t)

  same_fields : {fs gs : Fields} → AlikeFields fs gs → sorted_fields fs ≡ sorted_fields gs
  same_fields ends = refl
  same_fields (fields k {v} {w} {fs} {gs} h t) =
      let e = same_text h in
      let r = same_fields t in
      cc (e, r, is_undefined-Alike h, sorted_fields-field k v fs, sorted_fields-field k w gs)
  same_fields (swapped k j v w fs ne) = sorted_fields-swapped k j v w fs ne
  same_fields (dropped k fs) = sorted_fields-field k undefined fs
  same_fields (in_turn h g) = same_fields h ∙ same_fields g

-- Two ways of writing one value have the same canonical text, and where one is refused so is the
-- other: at no depth does the order of an object's keys matter, nor a key whose value is undefined.
pub canonicalize-Alike : {v w : Json} → Alike v w → canonicalize v ≡ canonicalize w
canonicalize-Alike h = same_text h

item_texts :
    (o : Option Text) (p : Option (List Text)) {l : List Text}
    → push o p ≡ some l
    → ((t : Text) × (o ≡ some t)) × ((r : List Text) × (p ≡ some r))
item_texts none p h = cc
item_texts (some t) none h = cc
item_texts (some t) (some r) h = ((t, refl), (r, refl))

field_texts :
    (k : Text) (o : Option Text) (p : Option (List (Text × Text))) {l : List (Text × Text)}
    → push (keyed k o) p ≡ some l
    → ((t : Text) × (o ≡ some t)) × ((r : List (Text × Text)) × (p ≡ some r))
field_texts k none p h = cc
field_texts k (some t) none h = cc
field_texts k (some t) (some r) h = ((t, refl), (r, refl))

mapped {ℓ κ} :
    {A : Type ℓ} {B : Type κ} (f : A → B) (o : Option A) {b : B}
    → option_map f o ≡ some b
    → (a : A) × (o ≡ some a)
mapped f none h = cc
mapped f (some a) h = (a, refl)

mutual
  unfolding canonicalize json_copy

  pub copy-Alike : (v : Json) {t : Text} → canonicalize v ≡ some t → Alike v (json_copy v)
  copy-Alike null h = same null
  copy-Alike (boolean b) h = same (boolean b)
  copy-Alike (number t) h = same (number t)
  copy-Alike non_finite h = cc
  copy-Alike (text t) h = same (text t)
  copy-Alike (array xs) h =
      let (l, e) = mapped bracketed (canonical_items xs) h in arrays (copy_items xs e)
  copy-Alike (object fs) h =
      let (l, e) = mapped braced (canonical_fields fs) h in objects (copy_fields fs e)
  copy-Alike undefined h = cc
  copy-Alike foreign h = cc

  copy_items :
      (xs : Items) {l : List Text} → canonical_items xs ≡ some l → AlikeItems xs (items_copy xs)
  copy_items nil h = nils
  copy_items (cons v xs) h =
      let ((t, e), (r, d)) = item_texts (canonicalize v) (canonical_items xs) h in
      conses (copy-Alike v e) (copy_items xs d)

  copy_fields :
      (fs : Fields) {l : List (Text × Text)}
      → canonical_fields fs ≡ some l
      → AlikeFields fs (fields_copy fs)
  copy_fields end h = ends
  copy_fields (field k undefined fs) h = in_turn (dropped k fs) (copy_fields fs h)
  copy_fields (field k foreign fs) h = cc
  copy_fields (field k v fs) h =
      let ((t, e), (r, d)) = field_texts k (canonicalize v) (canonical_fields fs) h in
      fields k (copy-Alike v e) (copy_fields fs d)

-- A value that has a canonical text keeps it through JSON.stringify and JSON.parse, which is how a
-- payload reaches the outbox row, the wire and the server.
pub canonicalize-json_copy :
    (v : Json) (t : Text) → canonicalize v ≡ some t → canonicalize (json_copy v) ≡ some t
canonicalize-json_copy v t h = sym (canonicalize-Alike (copy-Alike v h)) ∙ h
