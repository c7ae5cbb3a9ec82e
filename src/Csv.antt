-- ===== src/Csv.antt =====
-- apps/console/lib/csv.ts: reading and writing a spreadsheet as CSV.
pub mod RoundTrip
pub mod Delimiter
pub mod Download
use agroassure.Prelude.{
  ℕ, ◌+◌, Bool, true, false, not, ◌&&◌, ◌||◌, Option, none, some, List, [], ◌∷◌, ◌++◌, map, filter,
  any, ltb, leb, ◌==◌, if◌then◌else◌, Text, codes, text_eq, join_with,
}

-- The counts of the separators outside quotes.
pub record Counts : Type 0 where
  pub commas : ℕ
  pub semicolons : ℕ
  pub tabs : ℕ

abbrev pub count_unit : ℕ → Counts → Counts
count_unit c n =
    if c == 44
    then record n { commas = n.commas + 1 }
    else if c == 59
    then record n { semicolons = n.semicolons + 1 }
    else if c == 9
    then record n { tabs = n.tabs + 1 }
    else n

-- The loop over the line, with its flag.
unfoldable pub count_separators : Text → Bool → Counts → Counts
count_separators [] quoted n = n
count_separators (c ∷ t) quoted n =
    count_separators t (if c == 34 then not quoted else quoted)
      (if c == 34 then n else if quoted then n else count_unit c n)

unfoldable pub detect_delimiter : Text → ℕ
unfolding count_separators
detect_delimiter first_line =
    let n : Counts =
      count_separators first_line false (record { commas = 0; semicolons = 0; tabs = 0 }) in
    if ltb n.commas n.tabs && leb n.semicolons n.tabs
    then 9
    else if ltb n.commas n.semicolons
    then 59
    else 44

-- The part in front of the first match of /\r?\n/.
unfoldable pub first_line : Text → Text
first_line [] = []
first_line (c ∷ []) = if c == 10 then [] else c ∷ []
first_line (c ∷ e ∷ t) =
    let rest = first_line (e ∷ t) in if c == 10 || (c == 13 && e == 10) then [] else c ∷ rest

-- The variables of the loop; `skip` is an i++ that jumps over the next unit.
pub record Reader : Type 0 where
  pub records : List (List Text)
  pub fields : List Text
  pub field : Text
  pub quoted : Bool
  pub skip : Bool

abbrev is_unit : ℕ → Option ℕ → Bool
is_unit c none = false
is_unit c (some e) = e == c

unfoldable pub read_unit : ℕ → ℕ → Option ℕ → Reader → Reader
read_unit delimiter c next st =
    if st.skip
    then record st { skip = false }
    else if st.quoted
    then (if c == 34
        then (if is_unit 34 next
            then record st { field = st.field ++ 34 ∷ []; skip = true }
            else record st { quoted = false })
        else record st { field = st.field ++ c ∷ [] })
    else if c == 34 && text_eq st.field []
    then record st { quoted = true }
    else if c == delimiter
    then record st { fields = st.fields ++ st.field ∷ []; field = [] }
    else if c == 10 || c == 13
    then record st {
      records = st.records ++ (st.fields ++ st.field ∷ []) ∷ [];
      fields = [];
      field = [];
      skip = c == 13 && is_unit 10 next;
    }
    else record st { field = st.field ++ c ∷ [] }

abbrev pub next_of : Text → Option ℕ
next_of [] = none
next_of (c ∷ t) = some c

unfoldable pub read_units : ℕ → Text → Reader → Reader
read_units delimiter [] st = st
read_units delimiter (c ∷ t) st = read_units delimiter t (read_unit delimiter c (next_of t) st)

abbrev pub fresh_reader : List (List Text) → List Text → Reader
fresh_reader records fields = record {
  records = records;
  fields = fields;
  field = [];
  quoted = false;
  skip = false;
}

abbrev pub finish : Reader → List (List Text)
finish st = elim st.fields [
  | f ∷ fs ↦ st.records ++ (st.fields ++ st.field ∷ []) ∷ []
  | [] ↦ if text_eq st.field [] then st.records else st.records ++ (st.field ∷ []) ∷ []
]

abbrev pub bom : ℕ
bom = 0xfeff

abbrev pub strip_bom : Text → Text
strip_bom [] = []
strip_bom (c ∷ t) = if c == bom then t else c ∷ t

-- `trim` is String.prototype.trim.
abbrev pub has_content : (Text → Text) → List Text → Bool
has_content trim r = any (λ (f : Text). not (text_eq (trim f) [])) r

unfoldable pub parse_csv_records : (Text → Text) → Text → List (List Text)
parse_csv_records trim t =
    let input = strip_bom t in
    filter (has_content trim)
      (finish (read_units (detect_delimiter (first_line input)) input (fresh_reader [] [])))

-- [",\r\n]
abbrev pub is_special : ℕ → Bool
is_special c = c == 34 || (c == 44 || (c == 13 || c == 10))

abbrev pub doubled : Text → Text
doubled [] = []
doubled (c ∷ t) = if c == 34 then 34 ∷ 34 ∷ doubled t else c ∷ doubled t

abbrev pub quote : Text → Text
quote value = if any is_special value then 34 ∷ (doubled value ++ 34 ∷ []) else value

abbrev pub csv_row : List Text → Text
csv_row r = join_with (codes ",") (map quote r)

unfoldable pub to_csv : List Text → List (List Text) → Text
to_csv headers rows = join_with (13 ∷ 10 ∷ []) (map csv_row (headers ∷ rows)) ++ 13 ∷ 10 ∷ []

pub record ParsedSheet : Type 0 where
  pub headers : List Text
  pub rows : List (List (Text × Text))

-- row[h] = value: a name that is set already keeps its place and takes the new value.
abbrev pub put_cell : Text → Text → List (Text × Text) → List (Text × Text)
put_cell h v [] = (h, v) ∷ []
put_cell h v ((k, w) ∷ row) = if text_eq k h then (k, v) ∷ row else (k, w) ∷ put_cell h v row

abbrev field_or_empty : List Text → Text
field_or_empty [] = []
field_or_empty (f ∷ fs) = f

abbrev tail : List Text → List Text
tail [] = []
tail (f ∷ fs) = fs

-- The loop over the headings, with the row so far.
abbrev pub cells_from :
    (Text → Text) → List Text → List Text → List (Text × Text) → List (Text × Text)
cells_from trim [] fields row = row
cells_from trim (h ∷ headers) fields row =
    cells_from trim headers (tail fields)
      (if text_eq h [] then row else put_cell h (trim (field_or_empty fields)) row)

unfoldable pub parse_sheet : (Text → Text) → Text → ParsedSheet
parse_sheet trim t = elim (parse_csv_records trim t) [
  | [] ↦ record { headers = []; rows = [] }
  | head ∷ body ↦
      let headers = map trim head in
      record {
        headers = headers;
        rows = map (λ (fields : List Text). cells_from trim headers fields []) body;
      }
]

-- [=+\-@\t\r]
abbrev pub starts_formula : ℕ → Bool
starts_formula c = c == 61 || (c == 43 || (c == 45 || (c == 64 || (c == 9 || c == 13))))

abbrev pub guarded : Text → Text
guarded [] = []
guarded (c ∷ t) = if starts_formula c then 39 ∷ c ∷ t else c ∷ t

-- A cell is the text of its value, if it has one.
abbrev pub cell_text : Option Text → Text
cell_text none = []
cell_text (some t) = guarded t

abbrev pub download_row : List (Option Text) → Text
download_row r = join_with (codes ",") (map (λ (o : Option Text). quote (cell_text o)) r)

unfoldable pub to_download_csv : List Text → List (List (Option Text)) → Text
to_download_csv headers rows =
    bom ∷ (join_with (13 ∷ 10 ∷ []) (map download_row (map some headers ∷ rows)) ++ 13 ∷ 10 ∷ [])
