-- ===== src/Projection/Pending.antt =====
-- applyPending works off every pending event once, in order, whatever the size of a batch.
use mathlib.Core.Path.{subst}
use agroassure.Prelude.{
  ℕ, zero, suc, ◌+◌, ◌<◌, min, true, false, none, some, List, [], ◌∷◌, ◌++◌, ◌≡◌, refl, sym, ap,
  ◌∙◌, arith, filter, take, drop, length, length-append, take-drop, length-take, ltb, Bool-cases,
  Option-cases, inl, inr,
}
use agroassure.Projection.Payloads.{StoredEvent}
use agroassure.Projection.Apply.{
  Setting, apply, is_after, Database, lag, next_batch, Run, applied, stopped, apply_one,
  apply_batch, apply_pending, emptied, rebuild,
}
use agroassure.Projection.Places.{InPlace}
use agroassure.Projection.Batches.{
  continue, pending, Leaves, apply_batch-append, batch_stopped, batch_moved, apply_one_lem,
  apply_batch-Leaves, pending-Leaves,
}

module _ (x : Setting) (now : ℕ) where
  -- The whole of what is pending, seen from its first batch.
  whole :
      (b n : ℕ) (db : Database) (batch : List StoredEvent)
      → take b (pending db) ≡ batch
      → apply_batch x now (pending db) n db
        ≡ continue x now (drop b (pending db)) (apply_batch x now batch n db)
  whole b n db batch found =
      ap (λ l. apply_batch x now l n db) (sym (take-drop b (pending db)))
      ∙ apply_batch-append x now (take b (pending db)) (drop b (pending db)) n db
      ∙ ap (λ l. continue x now (drop b (pending db)) (apply_batch x now l n db)) found

  counts :
      (b : ℕ) (db : Database) (batch : List StoredEvent)
      → take b (pending db) ≡ batch
      → (length batch ≡ min b (length (pending db)))
        × (length batch + length (drop b (pending db)) ≡ length (pending db))
  counts b db batch found =
      let size = ap length found in
      let split = ap length (take-drop b (pending db)) in
      omega (
        arith,
        size,
        split,
        length-take b (pending db),
        length-append (take b (pending db)) (drop b (pending db)),
      )

  nothing : {A : Type 0} (l : List A) → length l ≡ 0 → l ≡ []
  nothing [] h = refl
  nothing (a ∷ l) h = absurd (omega (arith, h))

  module _ (b fuel : ℕ) (positive : 0 < b)
      (later : (n : ℕ) (db : Database)
        → InPlace db.events
        → length (pending db) < fuel
        → apply_pending x now b fuel n db ≡ some (apply_batch x now (pending db) n db)) where
    loop_last :
        (n : ℕ) (db : Database) (e : StoredEvent) (es : List StoredEvent) (n' : ℕ) (db' : Database)
        → take b (pending db) ≡ e ∷ es
        → apply_batch x now (e ∷ es) n db ≡ applied n' db'
        → ltb (length (e ∷ es)) b ≡ true
        → apply_pending x now b (suc fuel) n db ≡ some (apply_batch x now [] n' db')
    unfolding apply_pending next_batch apply_batch
    loop_last n db e es n' db' found ran short = rw (apply_pending, found, ran, short)

    loop_more :
        (n : ℕ) (db : Database) (e : StoredEvent) (es : List StoredEvent) (n' : ℕ) (db' : Database)
        → take b (pending db) ≡ e ∷ es
        → apply_batch x now (e ∷ es) n db ≡ applied n' db'
        → ltb (length (e ∷ es)) b ≡ false
        → apply_pending x now b (suc fuel) n db ≡ apply_pending x now b fuel n' db'
    unfolding apply_pending next_batch
    loop_more n db e es n' db' found ran full = rw (apply_pending, found, ran, full)

    loop_none :
        (n : ℕ) (db : Database)
        → take b (pending db) ≡ []
        → apply_pending x now b (suc fuel) n db ≡ some (applied n db)
    unfolding apply_pending next_batch
    loop_none n db found = rw (apply_pending, found)

    after_run :
        (n : ℕ) (db : Database) (e : StoredEvent) (es : List StoredEvent) (r : Run)
        → InPlace db.events
        → take b (pending db) ≡ e ∷ es
        → length (pending db) < suc fuel
        → apply_batch x now (e ∷ es) n db ≡ r
        → apply_pending x now b (suc fuel) n db ≡ some (continue x now (drop b (pending db)) r)
    unfolding apply_pending next_batch
    after_run n db e es (stopped e' db') sorted found enough ran = rw (apply_pending, found, ran)
    after_run n db e es (applied n' db') sorted found enough ran =
        let (size, split) = counts b db (e ∷ es) found in
        elim (Bool-cases (ltb (length (e ∷ es)) b)) [
          | inl short ↦
              loop_last n db e es n' db' found ran short
              ∙ ap (λ l. some (continue x now l (applied n' db')))
                  (sym (nothing (drop b (pending db)) (let s = short in ground arith)))
          | inr full ↦
              let left =
                pending-Leaves x now db db' n' (e ∷ es) (drop b (pending db)) sorted
                  (sym (take-drop b (pending db)) ∙ ap (λ l. l ++ drop b (pending db)) found)
                  (subst (Leaves x now db (e ∷ es)) ran (apply_batch-Leaves x now (e ∷ es) n db)) in
              loop_more n db e es n' db' found ran full
              ∙ later n' db' left.1 (let s = ap length left.0 in omega arith)
              ∙ ap (λ l. some (apply_batch x now l n' db')) left.0
        ]

    round :
        (n : ℕ) (db : Database) (batch : List StoredEvent)
        → InPlace db.events
        → take b (pending db) ≡ batch
        → length (pending db) < suc fuel
        → apply_pending x now b (suc fuel) n db ≡ some (apply_batch x now (pending db) n db)
    unfolding apply_batch
    round n db [] sorted found enough =
        let (size, split) = counts b db [] found in
        loop_none n db found
        ∙ ap (λ l. some (apply_batch x now l n db)) (sym (nothing (pending db) (ground arith)))
    round n db (e ∷ es) sorted found enough =
        after_run n db e es _ sorted found enough refl ∙ ap some (sym (whole b n db (e ∷ es) found))

  batches :
      (b : ℕ)
      → 0 < b
      → (fuel n : ℕ) (db : Database) → InPlace db.events
      → length (pending db) < fuel
      → apply_pending x now b fuel n db ≡ some (apply_batch x now (pending db) n db)
  batches b positive zero n db sorted enough = absurd (omega (arith, enough))
  batches b positive (suc fuel) n db sorted enough =
      round b fuel positive (batches b positive fuel) n db _ sorted refl enough

  -- At its end a run has applied all that was pending, or stands in front of an event that the
  -- database refuses.
  abbrev pub Settled : ℕ → Database → Run → Type 0
  Settled n db (applied n' db') = (lag db' ≡ 0) × (n' ≡ n + lag db)
  Settled n db (stopped e db') =
      (apply x now e db'.tables ≡ none)
      × ((rest : List StoredEvent) × (filter (is_after db'.cursor) db'.events ≡ e ∷ rest))

  Settled-from :
      (n : ℕ) (db db' : Database) (r : Run)
      → lag db ≡ suc (lag db')
      → Settled (n + 1) db' r
      → Settled n db r
  Settled-from n db db' (applied n' db'') one h = (h.0, omega (arith, h.1, one))
  Settled-from n db db' (stopped e db'') one h = h

  apply_one-refused :
      (e : StoredEvent) (db : Database)
      → apply_one x now e db ≡ none
      → apply x now e db.tables ≡ none
  unfolding apply_one
  apply_one-refused e db h = ground arith

  apply_batch-Settled :
      (xs : List StoredEvent) (n : ℕ) (db : Database)
      → InPlace db.events
      → pending db ≡ xs
      → Settled n db (apply_batch x now xs n db)
  unfolding apply_batch lag
  apply_batch-Settled [] n db sorted found =
      let none_left = ap length found in (none_left, omega (arith, none_left))
  apply_batch-Settled (e ∷ xs) n db sorted found = elim (Option-cases (apply_one x now e db)) [
    | inl refused ↦
        subst (Settled n db) (sym (batch_stopped x now e xs n db refused))
          (apply_one-refused e db refused, (xs, found))
    | inr (db', moved) ↦
        let left =
          pending-Leaves x now db db' n (e ∷ []) xs sorted found
            (apply_one_lem x now e db db' moved) in
        subst (Settled n db) (sym (batch_moved x now e xs n db db' moved)) (
          Settled-from n db db' _
            (let s = ap length found in let r = ap length left.0 in omega arith)
            (apply_batch-Settled xs (n + 1) db' left.1 left.0))
  ]

-- For an event store in the order of its places, any batch size above 0 and more fuel than there are
-- pending events: applyPending ends, with the result of applying all pending events in one pass in
-- their order. It counts them all and leaves no lag, or stops in front of an event that the
-- database refuses, which is then the first that is pending.
pub apply_pending_lem :
    (x : Setting) (now b fuel n : ℕ) (db : Database)
    → InPlace db.events
    → 0 < b
    → lag db < fuel
    → (apply_pending x now b fuel n db
        ≡ some (apply_batch x now (filter (is_after db.cursor) db.events) n db))
      × Settled x now n db (apply_batch x now (filter (is_after db.cursor) db.events) n db)
unfolding lag
apply_pending_lem x now b fuel n db sorted positive enough = (
  batches x now b positive fuel n db sorted enough,
  apply_batch-Settled x now (filter (is_after db.cursor) db.events) n db sorted refl,
)

-- The database that a rebuild starts from.
abbrev pub cleared : Database → Database
cleared db = record {
  tables = record {
    facilities = [];
    inspections = [];
    responses = [];
    exhibits = [];
    findings = [];
    decisions = [];
    certificates = [];
    assignments = db.tables.assignments;
  };
  cursor = none;
  events = db.events;
}

-- The end of a rebuild: every event has been counted, or one is refused.
abbrev pub Rebuilt : Setting → ℕ → Database → Run → Type 0
Rebuilt x now db (applied n' db') = (lag db' ≡ 0) × (n' ≡ length db.events)
Rebuilt x now db (stopped e db') =
    (apply x now e db'.tables ≡ none)
    × ((rest : List StoredEvent) × (filter (is_after db'.cursor) db'.events ≡ e ∷ rest))

Rebuilt-of_Settled :
    (x : Setting) (now : ℕ) (db : Database) (r : Run)
    → lag (cleared db) ≡ length db.events
    → Settled x now 0 (cleared db) r
    → Rebuilt x now db r
Rebuilt-of_Settled x now db (applied n' db') all h = (h.0, omega (arith, h.1, all))
Rebuilt-of_Settled x now db (stopped e db') all h = h

-- For an event store in the order of its places, any batch size above 0 and more fuel than there are
-- events, a rebuild ends. Its result is that of applying every stored event in one pass, from tables
-- that are empty but for the assignments, and without a cursor: nothing else that was projected
-- before has a part in it. It counts every stored event and leaves no lag, or stops in front of an
-- event that the database refuses.
pub rebuild_lem :
    (x : Setting) (now b fuel : ℕ) (db : Database)
    → InPlace db.events
    → 0 < b
    → length db.events < fuel
    → (rebuild x now b fuel db ≡ some (apply_batch x now db.events 0 (cleared db)))
      × Rebuilt x now db (apply_batch x now db.events 0 (cleared db))
unfolding rebuild emptied lag
rebuild_lem x now b fuel db sorted positive enough =
    let all = filter_everything db.events in
    (
      batches x now b positive fuel 0 (emptied db) sorted (let s = ap length all in omega arith)
          ∙ ap (λ l. some (apply_batch x now l 0 (emptied db))) all,
      Rebuilt-of_Settled x now db _ (ap length all)
          (apply_batch-Settled x now db.events 0 (cleared db) sorted all),
    )
  where
    filter_everything : (l : List StoredEvent) → filter (is_after none) l ≡ l
    filter_everything [] = refl
    filter_everything (e ∷ l) = ap (λ r. e ∷ r) (filter_everything l)
