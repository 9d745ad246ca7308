-- ===== src/Tabular/Examples.antt =====
-- Questions about a table of one column, and a statement that the check of the SQL does not see through.
use knowledgebase.Prelude.{
  ◌+◌, List, ℕ, zero, suc, ◌≡◌, ◌++◌, ◌≤◌, refl, true, ◌&&◌, ◌||◌, none, some, [], ◌∷◌, map, length,
  take, leb, ◌==◌, All, ◌-◌, if◌then◌else◌,
}
use knowledgebase.Prelude.Text.{Text, codes, same_text}
use knowledgebase.Prelude.Attempt.{got, raised}
use knowledgebase.Models.{TableSchema}
use knowledgebase.Tabular.Profile.{ProfilerServices, profile_sync, profile_rows}
use knowledgebase.Tabular.Profile.Schema.{AreSampled, profile_rows-IsSampled}
use knowledgebase.Tabular.Sql.{Characters, validate_sql}
use knowledgebase.Tabular.{TabularServices, Cell, SqlReply, execute, query_tabular, Answered}
use knowledgebase.Tabular.Safety.{IsReadOnly, IsReported, query_tabular-IsSafe, execute_lem}

abbrev upper_letter : ℕ → ℕ
upper_letter c = if leb b'a' c && leb c b'z' then c - 32 else c

-- ASCII.
abbrev ascii : Characters
ascii = record {
  upper = map upper_letter;
  repr = λ s. s;
  same_letter = λ a b. upper_letter a == upper_letter b;
  is_word = λ c.
      leb b'0' c && leb c b'9'
      || leb b'A' (upper_letter c) && leb (upper_letter c) b'Z'
      || c == b'_';
}

-- The first statement fails, the next one does not.
abbrev services : TabularServices ℕ
services = record {
  characters = ascii;
  complete = λ call prompt. got (some (codes "```sql SELECT 1;```"));
  http_status = λ e. none;
  sql_request = λ call sql. elim call [
    | zero ↦ raised (codes "busy")
    | suc n ↦ got (SqlReply.sql_table (codes "n" ∷ []) ((Cell.other (codes "1") ∷ []) ∷ []))
  ];
  number_text = λ n. n ∷ [];
  below_1e12 = λ f. true;
  fixed_text = λ f. [];
  exponent_text = λ f. [];
  max_result_rows = 100;
}

abbrev schema : TableSchema
schema = record { columns = []; row_count = 0; sheet_name = none }

abbrev outcome : Answered
outcome = query_tabular services (codes "how many?") (codes "4-2") schema (codes "a.csv")

asked : outcome ≡ record {
  sql_text = codes "SELECT 1";
  markdown = codes "| n |" ++ (b'\n' ∷ (codes "| --- |" ++ (b'\n' ∷ codes "| 1 |")));
  executed = codes "SELECT 1" ∷ codes "SELECT 1" ∷ [];
}
unfolding query_tabular
asked = refl

query_tabular-IsSafe_example :
    All (IsReadOnly ascii) outcome.executed × (length outcome.executed ≤ 3)
query_tabular-IsSafe_example =
    query_tabular-IsSafe services (codes "how many?") (codes "4-2") schema (codes "a.csv")

execute_lem_example :
    IsReported services 2 0
      (execute services 2 0 (codes "SELECT n") schema (codes "a.csv") (codes "files.doc_4"))
execute_lem_example =
    execute_lem services 2 0 (codes "SELECT n") schema (codes "a.csv") (codes "files.doc_4")

update_refused :
    validate_sql ascii (codes "select 1; Update t set n = 2")
    ≡ raised (codes "Generated SQL contains a disallowed operation: select 1; Update t set n = 2")
unfolding validate_sql
update_refused = refl

quoted_allowed : validate_sql ascii (codes "SELECT 'drop table', updated FROM t") ≡ got tt
unfolding validate_sql
quoted_allowed = refl

-- Between the quote of one comment and the quote of the next the check sees a literal, MySQL two lines of SQL.
commented_drop_allowed :
    validate_sql ascii (codes "SELECT 1 -- '" ++ b'\n' ∷ codes "; DROP TABLE t -- '") ≡ got tt
unfolding validate_sql
commented_drop_allowed = refl

-- ASCII digits, and a file of two columns.
abbrev profiler : ProfilerServices
profiler = record {
  lower = λ s. s;
  is_digit = λ c. leb b'0' c && leb c b'9';
  number_text = λ n. (n + 48) ∷ [];
  decode = λ bytes. bytes;
  csv_reader = λ s. got (
      (codes "n" ∷ codes "name" ∷ [])
      ∷ (codes "1" ∷ codes "a" ∷ [])
      ∷ (codes "-2.5e3" ∷ [])
      ∷ (codes " " ∷ codes "b" ∷ [])
      ∷ []);
  xlsx_to_csv = λ bytes. raised (codes "not a workbook");
}

abbrev found_rows : List (List Text)
found_rows =
    (codes "1" ∷ codes "a" ∷ []) ∷ (codes "-2.5e3" ∷ []) ∷ (codes " " ∷ codes "b" ∷ []) ∷ []

abbrev found_schema : TableSchema
found_schema = record {
  columns =
      record {
        name = codes "n";
        type_name = codes "DOUBLE";
        sample = codes "1" ∷ codes "-2.5e3" ∷ [];
      }
      ∷ record {
        name = codes "name";
        type_name = codes "VARCHAR";
        sample = codes "a" ∷ codes "b" ∷ [];
      }
      ∷ [];
  row_count = 3;
  sheet_name = none;
}

profiled : profile_sync profiler (codes "a.csv") [] (codes "text/csv") ≡ got (found_schema, [])
unfolding profile_sync same_text
profiled = refl

profile_rows-IsSampled_example :
    ((profile_rows profiler none ((codes "n" ∷ codes "name" ∷ []) ∷ found_rows)).row_count ≡ 3)
    × AreSampled profiler 0
        (take 5 found_rows)
        (codes "n" ∷ codes "name" ∷ [])
        (profile_rows profiler none ((codes "n" ∷ codes "name" ∷ []) ∷ found_rows)).columns
profile_rows-IsSampled_example =
    profile_rows-IsSampled profiler none (codes "n" ∷ codes "name" ∷ []) found_rows
