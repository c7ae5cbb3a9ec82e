-- ===== src/FieldSync/Acks.antt =====
-- An acknowledgement takes its rows out of the pending ones and changes nothing else.
use agroassure.Prelude.{
  ℕ, ◌+◌, ◌≤◌, Bool, true, not, List, [], ◌∷◌, ◌++◌, map, ◌≡◌, refl, ap, ◌∙◌, arith, any, filter,
  take, drop, length, length-append, take-drop, All, Text, text_eq,
}
use agroassure.FieldStore.{
  OutboxRow, acked, is_pending, FieldStore, pending_events, ack_row, mark_acked, pending_count,
  set_cursor,
}
use agroassure.FieldSync.{PushAck, after_ack}

abbrev pub holds : List Text → Text → Bool
holds ids id = any (text_eq id) ids

abbrev other : Text → OutboxRow → Bool
other id r = not (text_eq r.event_id id)

abbrev without : List Text → List OutboxRow → List OutboxRow
without [] rows = rows
without (id ∷ ids) rows = without ids (filter (other id) rows)

-- A row, but for whether it is acknowledged.
abbrev pub settled : OutboxRow → OutboxRow
settled r = record r { sync_state = acked }

filter-ack_row :
    (id : Text) (rows : List OutboxRow)
    → filter is_pending (map (ack_row id) rows) ≡ filter (other id) (filter is_pending rows)
filter-ack_row id [] = refl
filter-ack_row id (r ∷ rows) = ground (arith, filter-ack_row id rows)

settled-ack_row :
    (id : Text) (rows : List OutboxRow) → map settled (map (ack_row id) rows) ≡ map settled rows
settled-ack_row id [] = refl
settled-ack_row id (r ∷ rows) = ground (arith, settled-ack_row id rows)

filter-mark_acked :
    (ids : List Text) (s : FieldStore)
    → filter is_pending (mark_acked ids s).outbox ≡ without ids (filter is_pending s.outbox)
unfolding mark_acked
filter-mark_acked [] s = refl
filter-mark_acked (id ∷ ids) s =
    filter-mark_acked ids (record s { outbox = map (ack_row id) s.outbox })
    ∙ ap (without ids) (filter-ack_row id s.outbox)

settled-mark_acked :
    (ids : List Text) (s : FieldStore)
    → map settled (mark_acked ids s).outbox ≡ map settled s.outbox
unfolding mark_acked
settled-mark_acked [] s = refl
settled-mark_acked (id ∷ ids) s =
    settled-mark_acked ids (record s { outbox = map (ack_row id) s.outbox })
    ∙ settled-ack_row id s.outbox

filter-append :
    (p : OutboxRow → Bool) (xs ys : List OutboxRow)
    → filter p (xs ++ ys) ≡ filter p xs ++ filter p ys
filter-append p [] ys = refl
filter-append p (x ∷ xs) ys = ground (arith, filter-append p xs ys)

length-filter : (p : OutboxRow → Bool) (xs : List OutboxRow) → length (filter p xs) ≤ length xs
length-filter p [] = omega arith
length-filter p (x ∷ xs) = ground (arith, length-filter p xs)

without-append :
    (ids : List Text) (xs ys : List OutboxRow)
    → without ids (xs ++ ys) ≡ without ids xs ++ without ids ys
without-append [] xs ys = refl
without-append (id ∷ ids) xs ys =
    ap (without ids) (filter-append (other id) xs ys)
    ∙ without-append ids (filter (other id) xs) (filter (other id) ys)

length-without : (ids : List Text) (xs : List OutboxRow) → length (without ids xs) ≤ length xs
length-without [] xs = omega arith
length-without (id ∷ ids) xs =
    omega (arith, length-without ids (filter (other id) xs), length-filter (other id) xs)

abbrev Covered : List Text → List OutboxRow → Type 0
Covered ids = All (λ r. holds ids r.event_id ≡ true)

Covered-other :
    (id : Text) (ids : List Text) (xs : List OutboxRow)
    → Covered (id ∷ ids) xs
    → Covered ids (filter (other id) xs)
Covered-other id ids [] h = tt
Covered-other id ids (x ∷ xs) h = ground (arith, Covered-other id ids xs h.1)

without-Covered : (ids : List Text) (xs : List OutboxRow) → Covered ids xs → without ids xs ≡ []
without-Covered [] [] h = refl
without-Covered [] (x ∷ xs) h = absurd (let wrong = h.0 in cc)
without-Covered (id ∷ ids) xs h =
    without-Covered ids (filter (other id) xs) (Covered-other id ids xs h)

-- Whatever is acknowledged with it, an acknowledged batch is no longer pending.
length-without-Covered :
    (ids : List Text) (n : ℕ) (xs : List OutboxRow)
    → Covered ids (take n xs)
    → length (without ids xs) + length (take n xs) ≤ length xs
length-without-Covered ids n xs h =
    let front = ap length (without-Covered ids (take n xs) h) in
    let split = ap (λ l. length (without ids l)) (take-drop n xs) in
    let parts = ap length (without-append ids (take n xs) (drop n xs)) in
    let whole = ap length (take-drop n xs) in
    omega (
      arith,
      front,
      split,
      parts,
      whole,
      length-append (without ids (take n xs)) (without ids (drop n xs)),
      length-append (take n xs) (drop n xs),
      length-without ids (drop n xs),
    )

pub settled-after_ack :
    (ack : PushAck) (s : FieldStore) → map settled (after_ack ack s).outbox ≡ map settled s.outbox
unfolding after_ack set_cursor
settled-after_ack ack s = settled-mark_acked ack.acked s

pub pending_count-after_ack :
    (ack : PushAck) (n : ℕ) (s : FieldStore)
    → All (λ r. holds ack.acked r.event_id ≡ true) (pending_events n s)
    → pending_count (after_ack ack s) + length (pending_events n s) ≤ pending_count s
unfolding after_ack set_cursor pending_count pending_events
pending_count-after_ack ack n s h =
    let kept = ap length (filter-mark_acked ack.acked s) in
    omega (arith, kept, length-without-Covered ack.acked n (filter is_pending s.outbox) h)
