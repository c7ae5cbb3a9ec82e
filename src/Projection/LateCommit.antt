-- ===== src/Projection/LateCommit.antt =====
-- An event whose transaction began before the one of an event that is projected, and ends after it.
use mathlib.Core.Path.{subst}
use agroassure.Prelude.{
  ℕ, zero, suc, ◌+◌, true, false, Option, none, some, List, [], ◌∷◌, ◌++◌, ◌≡◌, refl, sym, ap, ◌∙◌,
  arith, All, filter, take, length, ltb, Bool-cases, Option-cases, inl, inr, differ,
}
use agroassure.Projection.Payloads.{StoredEvent}
use agroassure.Projection.Apply.{
  Setting, place_of, is_after, Database, apply, lag, next_batch, Run, applied, stopped, apply_one,
  apply_batch, apply_pending,
}
use agroassure.Projection.Batches.{Leaves, apply_batch-Leaves}
use agroassure.Projection.Places.{after_trans, filter-true}

-- The database with other rows in its event store.
abbrev holding : List StoredEvent → Database → Database
holding l db = record db { events = l }

abbrev run_holding : List StoredEvent → Run → Run
run_holding l (applied n db) = applied n (holding l db)
run_holding l (stopped e db) = stopped e (holding l db)

abbrev pub result_holding : List StoredEvent → Option Run → Option Run
result_holding l none = none
result_holding l (some r) = some (run_holding l r)

-- The event is behind the cursor.
abbrev Behind : StoredEvent → Database → Type 0
Behind e db = is_after db.cursor e ≡ false

abbrev RunBehind : StoredEvent → Run → Type 0
RunBehind e (applied n db) = Behind e db
RunBehind e (stopped f db) = Behind e db

abbrev pub StaysBehind : StoredEvent → Option Run → Type 0
StaysBehind e none = Unit
StaysBehind e (some r) = RunBehind e r

not_pending :
    (e : StoredEvent) (db : Database) (xs ys : List StoredEvent)
    → Behind e db
    → filter (is_after db.cursor) (xs ++ e ∷ ys) ≡ filter (is_after db.cursor) (xs ++ ys)
not_pending e db [] ys h = rw h refl
not_pending e db (f ∷ xs) ys h = ground (arith, not_pending e db xs ys h)

-- The cursor moves to an event that is pending, and the late one is behind that too.
pending-Behind :
    (e f : StoredEvent) (db : Database)
    → Behind e db
    → is_after db.cursor f ≡ true
    → is_after (some (place_of f)) e ≡ false
pending-Behind e f db behind h = elim (Bool-cases (is_after (some (place_of f)) e)) [
  | inr k ↦ k
  | inl k ↦ absurd (differ (is_after db.cursor e) (after_trans db.cursor f e h k) behind)
]

take-All :
    (e : StoredEvent) (b : ℕ) (fs : List StoredEvent)
    → All (λ f. is_after (some (place_of f)) e ≡ false) fs
    → All (λ f. is_after (some (place_of f)) e ≡ false) (take b fs)
take-All e zero fs h = tt
take-All e (suc b) [] h = tt
take-All e (suc b) (f ∷ fs) h = (h.0, take-All e b fs h.1)

All-Behind :
    (e : StoredEvent) (db : Database) (fs : List StoredEvent)
    → Behind e db
    → All (λ f. is_after db.cursor f ≡ true) fs
    → All (λ f. is_after (some (place_of f)) e ≡ false) fs
All-Behind e db [] h k = tt
All-Behind e db (f ∷ fs) h k = (pending-Behind e f db h k.0, All-Behind e db fs h k.1)

module _ (x : Setting) (now : ℕ) where
  batch_same :
      (l fs : List StoredEvent) (n : ℕ) (db : Database)
      → apply_batch x now fs n (holding l db) ≡ run_holding l (apply_batch x now fs n db)
  unfolding apply_batch apply_one
  batch_same l [] n db = refl
  batch_same l (f ∷ fs) n db = elim (Option-cases (apply x now f db.tables)) [
    | inl h ↦ rw (apply_batch, apply_one, h) refl
    | inr (t, h) ↦
        rw (apply_batch, apply_one, h)
          (batch_same l fs (n + 1) (record db { tables = t; cursor = some (place_of f) }))
  ]

  batch-Behind :
      (e : StoredEvent) (fs : List StoredEvent) (n : ℕ) (db : Database)
      → Behind e db
      → All (λ f. is_after (some (place_of f)) e ≡ false) fs
      → RunBehind e (apply_batch x now fs n db)
  unfolding apply_batch apply_one
  batch-Behind e [] n db h k = h
  batch-Behind e (f ∷ fs) n db h k = elim (Option-cases (apply x now f db.tables)) [
    | inl fails ↦ rw (apply_batch, apply_one, fails) h
    | inr (t, goes) ↦
        rw (apply_batch, apply_one, goes)
          (batch-Behind e fs (n + 1) (record db { tables = t; cursor = some (place_of f) }) k.0 k.1)
  ]

module _ (x : Setting) (now b : ℕ) (e : StoredEvent) (xs ys : List StoredEvent) where
  abbrev Missed : ℕ → ℕ → Database → Type 0
  Missed fuel n db =
      (apply_pending x now b fuel n (holding (xs ++ e ∷ ys) db)
        ≡ result_holding (xs ++ e ∷ ys) (apply_pending x now b fuel n db))
      × StaysBehind e (apply_pending x now b fuel n db)

  batch_found :
      (db : Database)
      → db.events ≡ xs ++ ys
      → Behind e db
      → next_batch b (holding (xs ++ e ∷ ys) db) ≡ next_batch b db
  unfolding next_batch
  batch_found db rows h =
      ap (take b) (not_pending e db xs ys h ∙ ap (filter (is_after db.cursor)) (sym rows))

  batch_after :
      (db : Database)
      → Behind e db
      → All (λ f. is_after (some (place_of f)) e ≡ false) (next_batch b db)
  unfolding next_batch
  batch_after db h = take-All e b (filter (is_after db.cursor) db.events) (
      All-Behind e db (filter (is_after db.cursor) db.events) h
        (filter-true (is_after db.cursor) db.events))

  module _ (fuel : ℕ)
      (later : (n : ℕ) (db : Database)
        → db.events ≡ xs ++ ys
        → Behind e db
        → Missed fuel n db) where
    after_run :
        (n : ℕ) (db : Database) (f : StoredEvent) (fs : List StoredEvent) (r : Run)
        → next_batch b db ≡ f ∷ fs
        → next_batch b (holding (xs ++ e ∷ ys) db) ≡ f ∷ fs
        → apply_batch x now (f ∷ fs) n db ≡ r
        → apply_batch x now (f ∷ fs) n (holding (xs ++ e ∷ ys) db) ≡ run_holding (xs ++ e ∷ ys) r
        → RunBehind e r
        → Leaves x now db (f ∷ fs) r
        → db.events ≡ xs ++ ys
        → Missed (suc fuel) n db
    unfolding apply_pending
    after_run n db f fs (stopped g db') found found' ran ran' behind left rows =
        rw (apply_pending, found, found', ran, ran') (refl, behind)
    after_run n db f fs (applied n' db') found found' ran ran' behind left rows =
        elim (Bool-cases (ltb (length (f ∷ fs)) b)) [
          | inl short ↦ rw (apply_pending, found, found', ran, ran', short) (refl, behind)
          | inr full ↦
              rw (apply_pending, found, found', ran, ran', full)
                (later n' db' (left.0 ∙ rows) behind)
        ]

    round :
        (n : ℕ) (db : Database) (batch : List StoredEvent)
        → next_batch b db ≡ batch
        → db.events ≡ xs ++ ys
        → Behind e db
        → Missed (suc fuel) n db
    unfolding apply_pending
    round n db [] found rows h = rw (apply_pending, found, batch_found db rows h ∙ found) (refl, h)
    round n db (f ∷ fs) found rows h =
        after_run n db f fs (apply_batch x now (f ∷ fs) n db) found (batch_found db rows h ∙ found)
          refl (batch_same x now (xs ++ e ∷ ys) (f ∷ fs) n db)
          (batch-Behind x now e (f ∷ fs) n db h
            (subst (All (λ g. is_after (some (place_of g)) e ≡ false)) found (batch_after db h)))
          (apply_batch-Leaves x now (f ∷ fs) n db) rows

  missed : (fuel n : ℕ) (db : Database) → db.events ≡ xs ++ ys → Behind e db → Missed fuel n db
  unfolding apply_pending
  missed zero n db rows h = (refl, tt)
  missed (suc fuel) n db rows h = round fuel (missed fuel) n db _ refl rows h

-- An event that enters the store behind the cursor is passed over: applyPending does what it does
-- without the event, whatever else is pending, and leaves the event behind the cursor, where the next
-- run passes it over too. The lag does not count it.
pub apply_pending-Misses :
    (x : Setting) (now b fuel n : ℕ) (e : StoredEvent) (xs ys : List StoredEvent) (db : Database)
    → db.events ≡ xs ++ ys
    → is_after db.cursor e ≡ false
    → (apply_pending x now b fuel n (record db { events = xs ++ e ∷ ys })
        ≡ result_holding (xs ++ e ∷ ys) (apply_pending x now b fuel n db))
      × StaysBehind e (apply_pending x now b fuel n db)
      × (lag (record db { events = xs ++ e ∷ ys }) ≡ lag db)
unfolding lag
apply_pending-Misses x now b fuel n e xs ys db rows h =
    let (same, behind) = missed x now b e xs ys fuel n db rows h in
    (
      same,
      behind,
      ap length (not_pending e db xs ys h ∙ ap (filter (is_after db.cursor)) (sym rows)),
    )
