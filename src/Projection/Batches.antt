-- ===== src/Projection/Batches.antt =====
-- Applying a list of events: in parts, and where it leaves the cursor.
use mathlib.Core.Path.{subst}
use agroassure.Prelude.{
  ℕ, ◌+◌, none, some, List, [], ◌∷◌, ◌++◌, ◌≡◌, refl, sym, ap, ◌∙◌, arith, filter, Option-cases,
  inl, inr,
}
use agroassure.Projection.Payloads.{StoredEvent}
use agroassure.Projection.Apply.{
  Setting, place_of, is_after, Database, Run, applied, stopped, apply_one, apply_batch,
}
use agroassure.Projection.Places.{InPlace, last_place, pending_after}

abbrev pub pending : Database → List StoredEvent
pending db = filter (is_after db.cursor) db.events

-- Going on with more events from where a run has come to.
abbrev pub continue : Setting → ℕ → List StoredEvent → Run → Run
continue x now ys (stopped e db) = stopped e db
continue x now ys (applied n db) = apply_batch x now ys n db

module _ (x : Setting) (now : ℕ) where
  pub batch_stopped :
      (e : StoredEvent) (xs : List StoredEvent) (n : ℕ) (db : Database)
      → apply_one x now e db ≡ none
      → apply_batch x now (e ∷ xs) n db ≡ stopped e db
  unfolding apply_batch
  batch_stopped e xs n db h = rw (apply_batch, h)

  pub batch_moved :
      (e : StoredEvent) (xs : List StoredEvent) (n : ℕ) (db db' : Database)
      → apply_one x now e db ≡ some db'
      → apply_batch x now (e ∷ xs) n db ≡ apply_batch x now xs (n + 1) db'
  unfolding apply_batch
  batch_moved e xs n db db' h = rw (apply_batch, h)

  pub apply_batch-append :
      (xs ys : List StoredEvent) (n : ℕ) (db : Database)
      → apply_batch x now (xs ++ ys) n db ≡ continue x now ys (apply_batch x now xs n db)
  unfolding apply_batch
  apply_batch-append [] ys n db = refl
  apply_batch-append (e ∷ xs) ys n db = elim (Option-cases (apply_one x now e db)) [
    | inl refused ↦
        batch_stopped e (xs ++ ys) n db refused
        ∙ ap (continue x now ys) (sym (batch_stopped e xs n db refused))
    | inr (db', moved) ↦
        batch_moved e (xs ++ ys) n db db' moved
        ∙ apply_batch-append xs ys (n + 1) db'
        ∙ ap (continue x now ys) (sym (batch_moved e xs n db db' moved))
  ]

  -- Where a run that was not stopped leaves the store and the cursor.
  abbrev pub Leaves : Database → List StoredEvent → Run → Type 0
  Leaves db xs (stopped e db') = Unit
  Leaves db xs (applied n db') = (db'.events ≡ db.events) × (db'.cursor ≡ last_place db.cursor xs)

  pub apply_one_lem :
      (e : StoredEvent) (db db' : Database)
      → apply_one x now e db ≡ some db'
      → (db'.events ≡ db.events) × (db'.cursor ≡ some (place_of e))
  unfolding apply_one
  apply_one_lem e db db' h = ground arith

  Leaves-from :
      (e : StoredEvent) (xs : List StoredEvent) (db db' : Database) (r : Run)
      → apply_one x now e db ≡ some db'
      → Leaves db' xs r
      → Leaves db (e ∷ xs) r
  Leaves-from e xs db db' (stopped f db'') moved h = tt
  Leaves-from e xs db db' (applied n db'') moved h =
      let (same, at) = apply_one_lem e db db' moved in
      (h.0 ∙ same, h.1 ∙ ap (λ c. last_place c xs) at)

  pub apply_batch-Leaves :
      (xs : List StoredEvent) (n : ℕ) (db : Database) → Leaves db xs (apply_batch x now xs n db)
  unfolding apply_batch
  apply_batch-Leaves [] n db = (refl, refl)
  apply_batch-Leaves (e ∷ xs) n db = elim (Option-cases (apply_one x now e db)) [
    | inl refused ↦ subst (Leaves db (e ∷ xs)) (sym (batch_stopped e xs n db refused)) tt
    | inr (db', moved) ↦
        subst (Leaves db (e ∷ xs)) (sym (batch_moved e xs n db db' moved))
          (Leaves-from e xs db db' _ moved (apply_batch-Leaves xs (n + 1) db'))
  ]

  pub pending-Leaves :
      (db db' : Database) (n : ℕ) (xs ys : List StoredEvent)
      → InPlace db.events
      → pending db ≡ xs ++ ys
      → Leaves db xs (applied n db')
      → (pending db' ≡ ys) × InPlace db'.events
  pending-Leaves db db' n xs ys sorted found (same, at) = (
    rw (same, at) (pending_after db.cursor db.events xs ys sorted found),
    subst InPlace (sym same) sorted,
  )
