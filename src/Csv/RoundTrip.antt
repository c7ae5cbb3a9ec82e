-- ===== src/Csv/RoundTrip.antt =====
-- What to_csv writes, parse_csv_records reads.
use mathlib.Core.List.{append_assoc, append-nil}
use agroassure.Prelude.{
  ℕ, Bool, true, false, Option, List, [], ◌∷◌, ◌++◌, map, any, ◌==◌, Text, text_eq, join_with, All,
  ◌≡◌, refl, ap, sym, ◌∙◌, arith, ==_iff, Bool-cases, inl, inr, ◌⊎◌,
}
use agroassure.Csv.{
  Reader, read_unit, next_of, read_units, fresh_reader, is_special, doubled, quote, csv_row,
}

-- The reader inside a record, with this much of a field.
abbrev within : List (List Text) → List Text → Text → Bool → Reader
within records fields field quoted = record {
  records = records;
  fields = fields;
  field = field;
  quoted = quoted;
  skip = false;
}

-- A text that goes on behind a field: with a comma or a line break.
abbrev Ends : Text → Type 0
Ends [] = ⊥
Ends (c ∷ t) = (c ≡ 44) ⊎ (c ≡ 13)

module _ (records : List (List Text)) (fields : List Text) where
  -- The field behind one more unit.
  grown :
      (c : ℕ) (v field t : Text) (quoted : Bool)
      → read_units 44 t (within records fields (field ++ c ∷ [] ++ v) quoted)
        ≡ read_units 44 t (within records fields (field ++ c ∷ v) quoted)
  grown c v field t quoted =
      ap (λ (f : Text). read_units 44 t (within records fields f quoted))
        (append_assoc field (c ∷ []) v)

  plain_unit :
      (c : ℕ) (field : Text) (next : Option ℕ)
      → is_special c ≡ false
      → read_unit 44 c next (within records fields field false)
        ≡ within records fields (field ++ c ∷ []) false
  unfolding read_unit
  plain_unit c field next h = ground arith

  quoted_unit :
      (c : ℕ) (field : Text) (next : Option ℕ)
      → c == 34 ≡ false
      → read_unit 44 c next (within records fields field true)
        ≡ within records fields (field ++ c ∷ []) true
  unfolding read_unit
  quoted_unit c field next h = rw (read_unit, h) refl

  closing_unit :
      (field t : Text)
      → Ends t
      → read_unit 44 34 (next_of t) (within records fields field true)
        ≡ within records fields field false
  unfolding read_unit
  closing_unit field [] h = elim h [ ]
  closing_unit field (e ∷ t) (inl h) = rw (read_unit, h) refl
  closing_unit field (e ∷ t) (inr h) = rw (read_unit, h) refl

  read-doubled :
      (v field t : Text)
      → Ends t
      → read_units 44 (doubled v ++ 34 ∷ t) (within records fields field true)
        ≡ read_units 44 t (within records fields (field ++ v) false)
  unfolding read_units read_unit
  read-doubled [] field t h =
      ap (read_units 44 t) (closing_unit field t h)
      ∙ ap (λ (f : Text). read_units 44 t (within records fields f false)) (sym (append-nil field))
  read-doubled (c ∷ v) field t h = elim (Bool-cases (c == 34)) [
    | inl is_quote ↦
        rw (is_quote, (==_iff c 34).0 is_quote)
          (read-doubled v (field ++ 34 ∷ []) t h ∙ grown 34 v field t false)
    | inr other ↦ rw other (
        ap (read_units 44 (doubled v ++ 34 ∷ t))
          (quoted_unit c field (next_of (doubled v ++ 34 ∷ t)) other)
        ∙ (read-doubled v (field ++ c ∷ []) t h ∙ grown c v field t false))
  ]

  read-plain :
      (v field t : Text)
      → any is_special v ≡ false
      → read_units 44 (v ++ t) (within records fields field false)
        ≡ read_units 44 t (within records fields (field ++ v) false)
  unfolding read_units
  read-plain [] field t h =
      ap (λ (f : Text). read_units 44 t (within records fields f false)) (sym (append-nil field))
  read-plain (c ∷ v) field t h =
      ap (read_units 44 (v ++ t)) (plain_unit c field (next_of (v ++ t)) (ground arith))
      ∙ (read-plain v (field ++ c ∷ []) t (ground arith) ∙ grown c v field t false)

  -- One field as it is written, read from the start of a field.
  read-quote :
      (v t : Text)
      → Ends t
      → read_units 44 (quote v ++ t) (fresh_reader records fields)
        ≡ read_units 44 t (within records fields v false)
  unfolding read_units read_unit text_eq
  read-quote v t h = elim (Bool-cases (any is_special v)) [
    | inl special ↦ rw special (
        ap (λ (x : Text). read_units 44 x (within records fields [] true))
          (append_assoc (doubled v) (34 ∷ []) t)
        ∙ read-doubled v [] t h)
    | inr plain ↦ rw plain (read-plain v [] t plain)
  ]

-- A row has a field at least.
abbrev pub IsRow : List Text → Type 0
IsRow [] = ⊥
IsRow (v ∷ vs) = Unit

read-csv_row :
    (records : List (List Text)) (fields : List Text) (v : Text) (vs : List Text) (t : Text)
    → read_units 44 (csv_row (v ∷ vs) ++ 13 ∷ 10 ∷ t) (fresh_reader records fields)
      ≡ read_units 44 t (fresh_reader (records ++ (fields ++ v ∷ vs) ∷ []) [])
unfolding read_units read_unit join_with
read-csv_row records fields v [] t = read-quote records fields v (13 ∷ 10 ∷ t) (inr refl)
read-csv_row records fields v (w ∷ vs) t =
    ap (λ (x : Text). read_units 44 x (fresh_reader records fields))
      (append_assoc (quote v) (44 ∷ csv_row (w ∷ vs)) (13 ∷ 10 ∷ t))
    ∙ (read-quote records fields v (44 ∷ (csv_row (w ∷ vs) ++ 13 ∷ 10 ∷ t)) (inl refl)
        ∙ (read-csv_row records (fields ++ v ∷ []) w vs t
            ∙ ap (λ (l : List Text). read_units 44 t (fresh_reader (records ++ l ∷ []) []))
                (append_assoc fields (v ∷ []) (w ∷ vs))))

pub read-csv_rows :
    (records : List (List Text)) (r : List Text) (rows : List (List Text))
    → All IsRow (r ∷ rows)
    → read_units 44
        (join_with (13 ∷ 10 ∷ []) (map csv_row (r ∷ rows)) ++ 13 ∷ 10 ∷ [])
        (fresh_reader records [])
      ≡ fresh_reader (records ++ r ∷ rows) []
unfolding read_units join_with
read-csv_rows records (v ∷ vs) [] h = read-csv_row records [] v vs []
read-csv_rows records (v ∷ vs) (q ∷ rows) h =
    ap (λ (x : Text). read_units 44 x (fresh_reader records []))
      (append_assoc (csv_row (v ∷ vs)) (13 ∷ 10 ∷ join_with (13 ∷ 10 ∷ []) (map csv_row (q ∷ rows)))
        (13 ∷ 10 ∷ []))
    ∙ (read-csv_row records [] v vs
          (join_with (13 ∷ 10 ∷ []) (map csv_row (q ∷ rows)) ++ 13 ∷ 10 ∷ [])
        ∙ (read-csv_rows (records ++ (v ∷ vs) ∷ []) q rows h.1
            ∙ ap (λ (l : List (List Text)). fresh_reader l [])
                (append_assoc records ((v ∷ vs) ∷ []) (q ∷ rows))))
read-csv_rows records [] rows h = absurd h.0
