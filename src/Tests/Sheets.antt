-- ===== src/Tests/Sheets.antt =====
-- A sheet with a comma, a quote and a line break in its cells.
use agroassure.Prelude.{◌≡◌, refl, some, none, List, [], ◌∷◌, ◌++◌, filter, Text, codes, Option}
use agroassure.Csv.{parse_csv_records, has_content, to_csv}
use agroassure.Csv.Delimiter.{parse_csv_records-to_csv}

abbrev headers : List Text
headers = codes "Name" ∷ codes "Address" ∷ []

abbrev rows : List (List Text)
rows =
    (codes "Rimi" ∷ codes "12 Kofar Soro Road, Katsina" ∷ [])
    ∷ (((34 ∷ codes "A") ++ 34 ∷ []) ∷ (10 ∷ []) ∷ [])
    ∷ []

parse_csv_records-to_csv_example :
    parse_csv_records (λ t. t) (to_csv headers rows)
    ≡ filter (has_content (λ t. t)) (headers ∷ rows)
parse_csv_records-to_csv_example =
    parse_csv_records-to_csv (λ t. t) headers rows (tt, (tt, (tt, tt))) (refl, (refl, tt))

abbrev cells : List (List (Option Text))
cells = (some (codes "=1+1") ∷ none ∷ []) ∷ []
