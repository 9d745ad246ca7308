-- ===== src/Tabular/Profile.antt =====
-- app/ingestion/tabular_profiler.py: the schema of a table and the text of its summary. The CSV reader, openpyxl, the
-- decoding of UTF-8, the digits of `\d` and the spelling of numbers are functions in `ProfilerServices`.
pub mod Schema
use knowledgebase.Prelude.{
  ℕ, zero, suc, Bool, true, false, not, ◌&&◌, ◌||◌, Option, none, some, List, [], ◌∷◌, ◌++◌, map,
  length, take, get_elem?, ◌==◌, if◌then◌else◌,
}
use knowledgebase.Prelude.Text.{
  Text, codes, one_of, strip, strip_left, strip_right, until, extension, join_with, split_words,
  pieces, filled,
}
use knowledgebase.Prelude.Attempt.{Fetched, got, raised, and_then}
use knowledgebase.Prelude.Table.{select}
use knowledgebase.Models.{Column, TableSchema}

pub record ProfilerServices : Type 0 where
  pub lower : Text → Text
  pub is_digit : ℕ → Bool
  pub number_text : ℕ → Text
  pub decode : List ℕ → Text
  pub csv_reader : Text → Fetched (List (List Text))
  pub xlsx_to_csv : List ℕ → Fetched (List ℕ × Text)

-- A schema with the text of the summary chunk and the number of its words.
pub record Profile : Type 0 where
  pub schema : TableSchema
  pub summary_text : Text
  pub word_count : ℕ

abbrev xlsx_mimes : List Text
xlsx_mimes =
    codes "application/vnd.ms-excel"
    ∷ codes "application/vnd.openxmlformats-officedocument.spreadsheetml.sheet"
    ∷ []

abbrev pub is_filled : Text → Bool
is_filled s = elim (strip s) [ [] ↦ false | ◌∷◌ c t ↦ true ]

abbrev drop_sign : Bool → Text → Text
drop_sign plus [] = []
drop_sign plus (c ∷ s) = if c == b'-' || plus && (c == b'+') then s else c ∷ s

module _ (services : ProfilerServices) where
  unfoldable pub skip_digits : Text → Text
  skip_digits [] = []
  skip_digits (c ∷ s) = let rest = skip_digits s in if services.is_digit c then rest else c ∷ s

  abbrev digit_first : Text → Bool
  digit_first [] = false
  digit_first (c ∷ s) = services.is_digit c

  -- `\d+$`
  abbrev all_digits : Text → Bool
  all_digits s = digit_first s && elim (skip_digits s) [ [] ↦ true | ◌∷◌ c t ↦ false ]

  -- `^-?\d+$`
  unfoldable pub is_int : Text → Bool
  unfolding skip_digits
  is_int s = all_digits (drop_sign false s)

  -- `([eE][+-]?\d+)?$`
  abbrev exponent : Text → Bool
  exponent [] = true
  exponent (c ∷ s) = (c == b'e' || c == b'E') && all_digits (drop_sign true s)

  abbrev after_digits : Text → Text → Bool
  after_digits s [] = digit_first s
  after_digits s (c ∷ rest) =
      if c == b'.'
      then digit_first rest && exponent (skip_digits rest)
      else digit_first s && exponent (c ∷ rest)

  -- `^-?\d*\.?\d+([eE][+-]?\d+)?$`
  unfoldable pub is_float : Text → Bool
  unfolding skip_digits
  is_float s = after_digits (drop_sign false s) (skip_digits (drop_sign false s))

  unfoldable pub all_match : (Text → Bool) → List Text → Bool
  unfolding strip_left strip_right
  all_match test [] = true
  all_match test (s ∷ samples) = test (strip s) && all_match test samples

  abbrev pub type_of : List Text → Text
  type_of [] = codes "VARCHAR"
  type_of (s ∷ samples) =
      if all_match is_int (s ∷ samples)
      then codes "BIGINT"
      else if all_match is_float (s ∷ samples)
      then codes "DOUBLE"
      else codes "VARCHAR"

  unfoldable pub infer_type : List Text → Text
  unfolding strip_left strip_right select all_match is_int is_float
  infer_type samples = type_of (select is_filled samples)

  abbrev pub cell_of : Option Text → List Text → List Text
  cell_of none rest = rest
  cell_of (some s) rest = if is_filled s then s ∷ rest else rest

  -- The cells of a column that are not blank.
  unfoldable pub samples_of : ℕ → List (List Text) → List Text
  unfolding strip_left strip_right
  samples_of i [] = []
  samples_of i (row ∷ rows) = cell_of (get_elem? row i) (samples_of i rows)

  unfoldable pub columns_from : ℕ → List Text → List (List Text) → List Column
  unfolding samples_of infer_type
  columns_from i [] rows = []
  columns_from i (h ∷ headers) rows =
      record {
        name = h;
        type_name = infer_type (take 5 (samples_of i rows));
        sample = take 5 (samples_of i rows);
      }
      ∷ columns_from (suc i) headers rows

  -- The schema of the rows of the file, the first of which is the header.
  unfoldable pub profile_rows : Option Text → List (List Text) → TableSchema
  unfolding columns_from
  profile_rows sheet_name [] = record { columns = []; row_count = 0; sheet_name = sheet_name }
  profile_rows sheet_name (headers ∷ rows) = record {
    columns = columns_from 0 headers (take 5 rows);
    row_count = length rows;
    sheet_name = sheet_name;
  }

  abbrev read_csv : List ℕ → Option Text → Fetched (TableSchema × List ℕ)
  read_csv csv_bytes sheet_name =
      and_then (services.csv_reader (services.decode csv_bytes))
        (λ rows. got (profile_rows sheet_name rows, csv_bytes))

  -- The schema, and the bytes for MindsDB.
  unfoldable pub profile_sync : Text → List ℕ → Text → Fetched (TableSchema × List ℕ)
  unfolding profile_rows one_of strip_left strip_right until extension
  profile_sync filename bytes mime_type =
      if one_of (strip (until b';' (services.lower mime_type))) xlsx_mimes
        || one_of (extension (services.lower filename)) (codes ".xlsx" ∷ codes ".xls" ∷ [])
      then and_then (services.xlsx_to_csv bytes) (λ c. read_csv c.0 (some c.1))
      else read_csv bytes none

  abbrev described_column : Column → Text
  described_column c = c.name ++ (codes " (" ++ (c.type_name ++ codes ")"))

  abbrev sample_line : Text → List Text → List Text → List Text
  sample_line name [] rest = rest
  sample_line name (s ∷ samples) rest =
      (codes "  • " ++ (name ++ (codes ": " ++ join_with (codes ", ") (take 3 (s ∷ samples)))))
      ∷ rest

  unfoldable pub sample_lines : List Column → List Text
  sample_lines [] = []
  sample_lines (c ∷ columns) = sample_line c.name c.sample (sample_lines columns)

  abbrev sample_text : List Text → Text
  sample_text [] = []
  sample_text (l ∷ lines) =
      b'\n' ∷ (codes "Sample values:" ++ (b'\n' ∷ join_with (b'\n' ∷ []) (l ∷ lines)))

  abbrev sheet_info : Option Text → Text
  sheet_info none = []
  sheet_info (some []) = []
  sheet_info (some (c ∷ s)) = codes " Sheet: " ++ (c ∷ s ++ codes ".")

  unfoldable pub build_summary_chunk : Text → TableSchema → Text
  unfolding sample_lines
  build_summary_chunk filename schema = join_with [] (
      codes "Tabular data file: "
      ∷ filename
      ∷ codes "."
      ∷ sheet_info schema.sheet_name
      ∷ codes " Contains "
      ∷ services.number_text schema.row_count
      ∷ codes " rows with "
      ∷ services.number_text (length schema.columns)
      ∷ codes " columns."
      ∷ (b'\n' ∷ [])
      ∷ codes "Columns: "
      ∷ join_with (codes ", ") (map described_column (take 30 schema.columns))
      ∷ codes "."
      ∷ sample_text (sample_lines (take 5 schema.columns))
      ∷ (b'\n' ∷ [])
      ∷ codes "This file supports analytics queries such as aggregations, filtering, "
      ∷ codes "grouping, trends, comparisons, totals, averages, and counts."
      ∷ [])

  abbrev summarised : Text → TableSchema × List ℕ → Fetched Profile
  summarised filename (schema, csv_bytes) =
      let text = build_summary_chunk filename schema in
      got (record { schema = schema; summary_text = text; word_count = length (split_words text) })

  -- The profile of a file with its summary.
  unfoldable pub profile_tabular : Text → List ℕ → Text → Fetched Profile
  unfolding profile_sync build_summary_chunk pieces filled
  profile_tabular filename bytes mime_type =
      and_then (profile_sync filename bytes mime_type) (summarised filename)
