-- ===== src/Projection/Places.antt =====
-- The places of the events in the store, and what is pending behind a cursor.
use Prim.Native.Nat.{Ordering}
use mathlib.Core.Path.{subst}
use agroassure.Prelude.{
  Bool, true, false, Option, none, some, List, [], ◌∷◌, ◌++◌, ◌≡◌, refl, sym, ap, ◌∙◌, arith, All,
  filter,
}
use agroassure.Hlc.Order.{text_compare-IsOrder}
use agroassure.Projection.Payloads.{StoredEvent}
use agroassure.Projection.Apply.{Place, place_of, compare_place, is_after}

compare_place_same : (a : Place) → compare_place a a ≡ Ordering.eq
unfolding compare_place
compare_place_same a = ground (arith, text_compare-IsOrder.same a.1)

compare_place_flip :
    (a b : Place) → compare_place a b ≡ Ordering.lt → compare_place b a ≡ Ordering.gt
unfolding compare_place
compare_place_flip a b h = ground (arith, text_compare-IsOrder.flip_lt a.1 b.1)

compare_place_trans :
    (a b c : Place)
    → compare_place a b ≡ Ordering.lt
    → compare_place b c ≡ Ordering.lt
    → compare_place a c ≡ Ordering.lt
unfolding compare_place
compare_place_trans a b c h k = ground (arith, text_compare-IsOrder.trans a.1 b.1 c.1)

abbrev pub Precedes : StoredEvent → StoredEvent → Type 0
Precedes e f = compare_place (place_of e) (place_of f) ≡ Ordering.lt

-- Each row is in front of all that follow it.
abbrev pub InPlace : List StoredEvent → Type 0
InPlace [] = Unit
InPlace (e ∷ es) = All (Precedes e) es × InPlace es

after_later : (e f : StoredEvent) → Precedes e f → is_after (some (place_of e)) f ≡ true
after_later e f h = rw h refl

not_after_self : (e : StoredEvent) → is_after (some (place_of e)) e ≡ false
not_after_self e = rw (compare_place_same (place_of e)) refl

not_after_earlier : (e f : StoredEvent) → Precedes e f → is_after (some (place_of f)) e ≡ false
not_after_earlier e f h = rw (compare_place_flip (place_of e) (place_of f) h) refl

Precedes-of_after : (e f : StoredEvent) → is_after (some (place_of e)) f ≡ true → Precedes e f
Precedes-of_after e f h = ground arith

-- Past a later cursor means past an earlier one.
pub after_trans :
    (c : Option Place) (e f : StoredEvent)
    → is_after c e ≡ true
    → is_after (some (place_of e)) f ≡ true
    → is_after c f ≡ true
after_trans none e f h k = refl
after_trans (some c) e f h k =
    rw (compare_place_trans c (place_of e) (place_of f) (ground arith) (ground arith)) refl

filter_twice :
    (c : Option Place) (e : StoredEvent) (l : List StoredEvent)
    → is_after c e ≡ true
    → filter (is_after (some (place_of e))) (filter (is_after c) l)
      ≡ filter (is_after (some (place_of e))) l
filter_twice c e [] h = refl
filter_twice c e (f ∷ l) h = ground (arith, filter_twice c e l h, after_trans c e f h)

filter_later :
    (e : StoredEvent) (l : List StoredEvent)
    → All (Precedes e) l
    → filter (is_after (some (place_of e))) l ≡ l
filter_later e [] h = refl
filter_later e (f ∷ l) h = ground (arith, after_later e f h.0, filter_later e l h.1)

All-filter :
    (e : StoredEvent) (p : StoredEvent → Bool) (l : List StoredEvent)
    → All (Precedes e) l
    → All (Precedes e) (filter p l)
All-filter e p [] h = tt
All-filter e p (f ∷ l) h = ground (arith, All-filter e p l h.1)

filter-InPlace : (p : StoredEvent → Bool) (l : List StoredEvent) → InPlace l → InPlace (filter p l)
filter-InPlace p [] h = tt
filter-InPlace p (f ∷ l) h = ground (arith, filter-InPlace p l h.1, All-filter f p l h.0)

pub filter-true :
    (p : StoredEvent → Bool) (l : List StoredEvent) → All (λ f. p f ≡ true) (filter p l)
filter-true p [] = tt
filter-true p (f ∷ l) = ground (arith, filter-true p l)

-- Once the cursor is at the first pending event, the others are pending.
pending_rest :
    (c : Option Place) (events : List StoredEvent) (e : StoredEvent) (rest : List StoredEvent)
    → InPlace events
    → filter (is_after c) events ≡ e ∷ rest
    → filter (is_after (some (place_of e))) events ≡ rest
pending_rest c events e rest sorted found =
    let placed = subst InPlace found (filter-InPlace (is_after c) events sorted) in
    let past = subst (All (λ f. is_after c f ≡ true)) found (filter-true (is_after c) events) in
    sym (filter_twice c e events past.0)
    ∙ ap (filter (is_after (some (place_of e)))) found
    ∙ first_left placed
  where
    first_left : InPlace (e ∷ rest) → filter (is_after (some (place_of e))) (e ∷ rest) ≡ rest
    first_left placed = rw (not_after_self e) (filter_later e rest placed.0)

abbrev pub last_place : Option Place → List StoredEvent → Option Place
last_place c [] = c
last_place c (e ∷ es) = last_place (some (place_of e)) es

pub pending_after :
    (c : Option Place) (events xs ys : List StoredEvent)
    → InPlace events
    → filter (is_after c) events ≡ xs ++ ys
    → filter (is_after (last_place c xs)) events ≡ ys
pending_after c events [] ys sorted found = found
pending_after c events (e ∷ xs) ys sorted found =
    pending_after (some (place_of e)) events xs ys sorted
      (pending_rest c events e (xs ++ ys) sorted found)
