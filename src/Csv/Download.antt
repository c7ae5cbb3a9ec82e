-- ===== src/Csv/Download.antt =====
-- A downloaded sheet reads back, and no cell of it begins like a formula.
use agroassure.Prelude.{
  Bool, false, Option, none, some, List, [], ◌∷◌, ◌++◌, map, filter, Text, text_eq, join_with, All,
  ◌≡◌, refl, ap, sym, Bool-cases, inl, inr, arith,
}
use mathlib.Core.Path.{subst, ap₂}
use agroassure.Csv.{
  bom, has_content, parse_csv_records, starts_formula, guarded, cell_text, csv_row, download_row,
  to_csv, to_download_csv, quote,
}
use agroassure.Csv.RoundTrip.{IsRow}
use agroassure.Csv.Delimiter.{IsPlain, detect-to_csv, read-to_csv}

-- No spreadsheet runs the cell as a formula.
abbrev pub IsInert : Text → Type 0
IsInert [] = Unit
IsInert (c ∷ t) = starts_formula c ≡ false

cell_text-IsInert : (o : Option Text) → IsInert (cell_text o)
cell_text-IsInert none = tt
cell_text-IsInert (some []) = tt
cell_text-IsInert (some (c ∷ t)) = elim (Bool-cases (starts_formula c)) [
  | inl formula ↦ rw formula refl
  | inr inert ↦ rw inert inert
]

cells-IsInert : (r : List (Option Text)) → All IsInert (map cell_text r)
cells-IsInert [] = tt
cells-IsInert (o ∷ r) = (cell_text-IsInert o, cells-IsInert r)

rows-IsInert : (rows : List (List (Option Text))) → All (All IsInert) (map (map cell_text) rows)
rows-IsInert [] = tt
rows-IsInert (r ∷ rows) = (cells-IsInert r, rows-IsInert rows)

All-filter :
    (P : List Text → Type 0) (p : List Text → Bool) (l : List (List Text))
    → All P l
    → All P (filter p l)
All-filter P p [] h = tt
All-filter P p (x ∷ l) h = elim (Bool-cases (p x)) [
  | inl kept ↦ rw kept (h.0, All-filter P p l h.1)
  | inr dropped ↦ rw dropped (All-filter P p l h.1)
]

row_same : (r : List (Option Text)) → download_row r ≡ csv_row (map cell_text r)
row_same r = ap (join_with (44 ∷ [])) (map_same r)
  where
    map_same :
        (r : List (Option Text))
        → map (λ (o : Option Text). quote (cell_text o)) r ≡ map quote (map cell_text r)
    map_same [] = refl
    map_same (o ∷ r) = ap (λ l. quote (cell_text o) ∷ l) (map_same r)

rows_same :
    (rows : List (List (Option Text)))
    → map download_row rows ≡ map csv_row (map (map cell_text) rows)
rows_same [] = refl
rows_same (r ∷ rows) = ap₂ (λ t l. t ∷ l) (row_same r) (rows_same rows)

download_lem :
    (headers : List Text) (rows : List (List (Option Text)))
    → to_download_csv headers rows
      ≡ bom ∷ to_csv (map cell_text (map some headers)) (map (map cell_text) rows)
unfolding to_download_csv to_csv
download_lem headers rows =
    ap (λ (l : List Text). bom ∷ (join_with (13 ∷ 10 ∷ []) l ++ 13 ∷ 10 ∷ []))
      (rows_same (map some headers ∷ rows))

guarded-IsPlain : (t : Text) → IsPlain t → IsPlain (guarded t)
guarded-IsPlain [] h = refl
guarded-IsPlain (c ∷ t) h = ground arith

headers-IsPlain :
    (headers : List Text) → All IsPlain headers → All IsPlain (map cell_text (map some headers))
headers-IsPlain [] h = tt
headers-IsPlain (t ∷ headers) h = (guarded-IsPlain t h.0, headers-IsPlain headers h.1)

abbrev pub HasCells : List (Option Text) → Type 0
HasCells [] = ⊥
HasCells (o ∷ r) = Unit

cells-IsRow :
    (rows : List (List (Option Text))) → All HasCells rows → All IsRow (map (map cell_text) rows)
cells-IsRow [] h = tt
cells-IsRow ((o ∷ r) ∷ rows) h = (tt, cells-IsRow rows h.1)
cells-IsRow ([] ∷ rows) h = absurd h.0

read_back :
    (trim : Text → Text) (headers : List Text) (rows : List (List (Option Text)))
    → All HasCells (map some headers ∷ rows)
    → All IsPlain headers
    → parse_csv_records trim (to_download_csv headers rows)
      ≡ filter (has_content trim) (map (map cell_text) (map some headers ∷ rows))
unfolding parse_csv_records text_eq
read_back trim headers rows h plain =
    rw
      (
        parse_csv_records,
        download_lem headers rows,
        detect-to_csv (map cell_text (map some headers)) (map (map cell_text) rows)
            (headers-IsPlain headers plain),
        read-to_csv (map cell_text (map some headers)) (map (map cell_text) rows)
            (cells-IsRow (map some headers ∷ rows) h),
      )
      refl

-- A download reads back as its headings and rows, each cell behind an apostrophe where it would run
-- as a formula, without the rows that are blank; and no cell that is read begins like a formula.
-- Every row has a cell at least, and no heading holds a semicolon, a tab or a byte-order mark.
parse_csv_records-to_download_csv :
    (trim : Text → Text) (headers : List Text) (rows : List (List (Option Text)))
    → All HasCells (map some headers ∷ rows)
    → All IsPlain headers
    → (parse_csv_records trim (to_download_csv headers rows)
        ≡ filter (has_content trim) (map (map cell_text) (map some headers ∷ rows)))
      × All (All IsInert) (parse_csv_records trim (to_download_csv headers rows))
parse_csv_records-to_download_csv trim headers rows h plain =
    let same = read_back trim headers rows h plain in
    (
      same,
      subst (All (All IsInert)) (sym same) (
          All-filter (All IsInert) (has_content trim)
            (map (map cell_text) (map some headers ∷ rows))
            (rows-IsInert (map some headers ∷ rows))),
    )
