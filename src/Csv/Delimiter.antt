-- ===== src/Csv/Delimiter.antt =====
-- The delimiter of what to_csv writes is found to be the comma, and so it reads back.
use mathlib.Core.List.{append_assoc}
use agroassure.Prelude.{
  ℕ, Bool, false, not, ◌||◌, List, [], ◌∷◌, ◌++◌, map, filter, any, ◌==◌, if◌then◌else◌, Text,
  text_eq, join_with, All, ◌≡◌, refl, ap, sym, ◌∙◌, arith, any-append,
}
use agroassure.Csv.{
  Counts, count_unit, count_separators, detect_delimiter, first_line, read_units, fresh_reader, bom,
  strip_bom, has_content, parse_csv_records, doubled, quote, csv_row, to_csv,
}
use agroassure.Csv.RoundTrip.{IsRow, read-csv_rows}

-- A semicolon, a tab or a byte-order mark, which to_csv writes without quotes.
abbrev pub misreads : ℕ → Bool
misreads c = c == 59 || (c == 9 || c == bom)

abbrev pub IsPlain : Text → Type 0
IsPlain t = any misreads t ≡ false

abbrev counted : ℕ → Bool → Counts → Counts
counted c quoted n = if c == 34 then n else if quoted then n else count_unit c n

counted-IsPlain :
    (c : ℕ) (quoted : Bool) (n : Counts)
    → misreads c ≡ false
    → ((counted c quoted n).semicolons ≡ n.semicolons) × ((counted c quoted n).tabs ≡ n.tabs)
counted-IsPlain c quoted n h = ground arith

count-IsPlain :
    (t : Text) (quoted : Bool) (n : Counts)
    → IsPlain t
    → ((count_separators t quoted n).semicolons ≡ n.semicolons)
      × ((count_separators t quoted n).tabs ≡ n.tabs)
unfolding count_separators
count-IsPlain [] quoted n h = (refl, refl)
count-IsPlain (c ∷ t) quoted n h =
    let (semicolons, tabs) =
      count-IsPlain t (if c == 34 then not quoted else quoted) (counted c quoted n)
        (ground arith) in
    let (same_semicolons, same_tabs) = counted-IsPlain c quoted n (ground arith) in
    (semicolons ∙ same_semicolons, tabs ∙ same_tabs)

detect_delimiter-IsPlain : (t : Text) → IsPlain t → detect_delimiter t ≡ 44
unfolding detect_delimiter
detect_delimiter-IsPlain t h =
    let (semicolons, tabs) =
      count-IsPlain t false (record { commas = 0; semicolons = 0; tabs = 0 }) h in
    ground arith

doubled-IsPlain : (v : Text) → IsPlain v → IsPlain (doubled v)
doubled-IsPlain [] h = refl
doubled-IsPlain (c ∷ v) h = ground (arith, doubled-IsPlain v)

quote-IsPlain : (v : Text) → IsPlain v → IsPlain (quote v)
quote-IsPlain v h = ground (arith, doubled-IsPlain v h, any-append misreads (doubled v) (34 ∷ []))

csv_row-IsPlain : (r : List Text) → All IsPlain r → IsPlain (csv_row r)
unfolding join_with
csv_row-IsPlain [] h = refl
csv_row-IsPlain (v ∷ []) h = quote-IsPlain v h.0
csv_row-IsPlain (v ∷ w ∷ vs) h =
    any-append misreads (quote v) (44 ∷ csv_row (w ∷ vs))
    ∙ rw (quote-IsPlain v h.0) (csv_row-IsPlain (w ∷ vs) h.1)

first_line-IsPlain : (p t : Text) → IsPlain p → IsPlain (first_line (p ++ 13 ∷ 10 ∷ t))
unfolding first_line
first_line-IsPlain [] t h = refl
first_line-IsPlain (c ∷ []) t h = ground arith
first_line-IsPlain (c ∷ e ∷ p) t h = ground (arith, first_line-IsPlain (e ∷ p) t)

strip_bom-IsPlain : (p t : Text) → IsPlain p → strip_bom (p ++ 13 ∷ 10 ∷ t) ≡ p ++ 13 ∷ 10 ∷ t
strip_bom-IsPlain [] t h = refl
strip_bom-IsPlain (c ∷ p) t h = ground arith

to_csv_first :
    (headers : List Text) (rows : List (List Text))
    → (t : Text) × (to_csv headers rows ≡ csv_row headers ++ 13 ∷ 10 ∷ t)
unfolding to_csv join_with
to_csv_first headers [] = ([], refl)
to_csv_first headers (r ∷ rows) = (
  join_with (13 ∷ 10 ∷ []) (map csv_row (r ∷ rows)) ++ 13 ∷ 10 ∷ [],
  append_assoc (csv_row headers) (13 ∷ 10 ∷ join_with (13 ∷ 10 ∷ []) (map csv_row (r ∷ rows)))
      (13 ∷ 10 ∷ []),
)

pub read-to_csv :
    (headers : List Text) (rows : List (List Text))
    → All IsRow (headers ∷ rows)
    → read_units 44 (to_csv headers rows) (fresh_reader [] []) ≡ fresh_reader (headers ∷ rows) []
unfolding to_csv
read-to_csv headers rows h = read-csv_rows [] headers rows h

module _ (headers : List Text) (rows : List (List Text)) (plain : All IsPlain headers) where
  strip_bom-to_csv : strip_bom (to_csv headers rows) ≡ to_csv headers rows
  strip_bom-to_csv =
      let (t, shape) = to_csv_first headers rows in
      ap strip_bom shape
      ∙ (strip_bom-IsPlain (csv_row headers) t (csv_row-IsPlain headers plain) ∙ sym shape)

  pub detect-to_csv : detect_delimiter (first_line (to_csv headers rows)) ≡ 44
  detect-to_csv =
      let (t, shape) = to_csv_first headers rows in
      ap (λ (x : Text). detect_delimiter (first_line x)) shape
      ∙ detect_delimiter-IsPlain _
          (first_line-IsPlain (csv_row headers) t (csv_row-IsPlain headers plain))

-- What to_csv writes reads back: parsing gives the headings and then the rows, without those whose
-- fields are all blank. Every row has a field at least, and no heading holds a semicolon, a tab or a
-- byte-order mark; the fields may hold any text, quotes, commas and line breaks too.
pub parse_csv_records-to_csv :
    (trim : Text → Text) (headers : List Text) (rows : List (List Text))
    → All IsRow (headers ∷ rows)
    → All IsPlain headers
    → parse_csv_records trim (to_csv headers rows) ≡ filter (has_content trim) (headers ∷ rows)
unfolding parse_csv_records text_eq
parse_csv_records-to_csv trim headers rows h plain =
    rw
      (
        parse_csv_records,
        strip_bom-to_csv headers rows plain,
        detect-to_csv headers rows plain,
        read-to_csv headers rows h,
      )
      refl
