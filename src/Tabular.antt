-- ===== src/Tabular.antt =====
-- app/search/tabular_engine.py with the SQL call of app/storage/mindsdb_client.py: a question about a table is made into SQL by a language model,
-- checked, run by MindsDB with two corrections at most, and its rows are written as a table.
-- The model and MindsDB are functions in `TabularServices`, of the number of the call too, since an answer need not
-- come twice; `http_status` is the status of an exception that is an HTTPStatusError. A prompt is the parts that its text is made from. What the SQL was run is kept in a log.
pub mod Sql
pub mod Profile
pub mod Safety
mod Examples
use knowledgebase.Prelude.{
  ℕ, zero, suc, ◌+◌, Bool, true, false, Option, none, some, List, [], ◌∷◌, ◌++◌, map, length, take,
  ltb, ◌==◌, if◌then◌else◌,
}
use knowledgebase.Prelude.Text.{Text, codes, join_with}
use knowledgebase.Prelude.Attempt.{Fetched, got, raised, and_then}
use knowledgebase.Models.{TableSchema}
use knowledgebase.Tabular.Sql.{Characters, validate_sql, clean_reply}

-- The user messages of `_generate_sql` and `_fix_sql`.
pub data Prompt : Type 0 where
  generate_prompt simple_prompt :
      (query : Text) (schema : TableSchema) (filename table_ref : Text) → Prompt
  fix_prompt :
      (original_sql error_msg : Text) (schema : TableSchema) (filename table_ref : Text) → Prompt

-- A cell of a result: null, a float, or the text of anything else.
pub data Cell (F : Type 0) : Type 0 where
  null : Cell F
  float : F → Cell F
  other : Text → Cell F

-- What MindsDB answers.
pub data SqlReply (F : Type 0) : Type 0 where
  sql_error : (error_message : Text) → SqlReply F
  sql_table : (column_names : List Text) (rows : List (List (Cell F))) → SqlReply F

pub record TabularServices (F : Type 0) : Type 0 where
  pub characters : Characters
  pub complete : ℕ → Prompt → Fetched (Option Text)
  pub http_status : Text → Option Text
  pub sql_request : ℕ → Text → Fetched (SqlReply F)
  pub number_text : ℕ → Text
  pub below_1e12 : F → Bool
  pub fixed_text : F → Text
  pub exponent_text : F → Text
  pub max_result_rows : ℕ

-- A table: its headers, its rows and the number of rows that there are.
pub record Table (F : Type 0) : Type 0 where
  pub headers : List Text
  pub rows : List (List (Cell F))
  pub total : ℕ

-- The SQL that was run last, its result, and all the SQL that was run, in order.
pub record Execution (F : Type 0) : Type 0 where
  pub sql : Text
  pub result : Fetched (Table F)
  pub executed : List Text

-- What `query_tabular` returns, with the log.
pub record Answered : Type 0 where
  pub sql_text : Text
  pub markdown : Text
  pub executed : List Text

-- `doc_` and the document's id with underscores; an id is spelled by its argument.
abbrev dashes_to_underscores : Text → Text
dashes_to_underscores s = map (λ c. if c == b'-' then b'_' else c) s

unfoldable pub mindsdb_name : Text → Text
mindsdb_name document_id = codes "doc_" ++ dashes_to_underscores document_id

module _ (c : ℕ) where
  -- s.rstrip(c)
  unfoldable pub strip_trailing : Text → Text
  strip_trailing [] = []
  strip_trailing (d ∷ s) = elim (strip_trailing s) [
    | [] ↦ if d == c then [] else d ∷ []
    | ◌∷◌ e t ↦ d ∷ e ∷ t
  ]

unfoldable pub escape_bars : Text → Text
escape_bars [] = []
escape_bars (c ∷ s) = let rest = escape_bars s in if c == b'|' then b'\\' ∷ c ∷ rest else c ∷ rest

module _ {F : Type 0} (services : TabularServices F) where
  abbrev cleaned : Option Text → Text
  cleaned none = []
  cleaned (some content) = content

  -- `none` content counts as empty.
  unfoldable pub call_llm : ℕ → Prompt → Fetched Text
  unfolding clean_reply
  call_llm call prompt =
      and_then (services.complete call prompt)
        (λ content. got (clean_reply services.characters (cleaned content)))

  -- The message where the first call fails.
  abbrev call_failed : Text → Option Text → Text
  call_failed e none = codes "SQL generation call failed: " ++ e
  call_failed e (some status) =
      codes "SQL provider returned HTTP "
      ++ (status ++ codes " — check TABULAR_SQL_BASE_URL / TABULAR_SQL_API_KEY / TABULAR_SQL_MODEL")

  abbrev first_call : Fetched Text → Fetched Text
  first_call (got raw) = got raw
  first_call (raised e) = raised (call_failed e (services.http_status e))

  abbrev failed_with : Text → Fetched Text → Fetched Text
  failed_with note (got raw) = got raw
  failed_with note (raised e) = raised (note ++ e)

  abbrev not_empty : Text → Fetched Text → Fetched Text
  not_empty note (got []) = raised note
  not_empty note (got (c ∷ raw)) = got (c ∷ raw)
  not_empty note (raised e) = raised e

  abbrev or_retry : Fetched Text → Fetched Text → Fetched Text
  or_retry (raised e) retried = raised e
  or_retry (got (c ∷ raw)) retried = got (c ∷ raw)
  or_retry (got []) retried = retried

  unfoldable pub generate_sql : Text → TableSchema → Text → Text → Fetched Text
  unfolding call_llm
  generate_sql query schema filename table_ref =
      not_empty (codes "SQL provider returned an empty response") (
        or_retry (first_call (call_llm 0 (generate_prompt query schema filename table_ref))) (
          failed_with (codes "SQL generation retry failed: ")
            (call_llm 1 (simple_prompt query schema filename table_ref))))

  unfoldable pub fix_sql : ℕ → Text → Text → TableSchema → Text → Text → Fetched Text
  unfolding call_llm
  fix_sql call original_sql error_msg schema filename table_ref =
      not_empty (codes "LLM returned empty fix")
        (call_llm call (fix_prompt original_sql error_msg schema filename table_ref))

  abbrev reply_table : SqlReply F → Fetched (Table F)
  reply_table (sql_error e) = raised e
  reply_table (sql_table headers rows) =
      got (record { headers = headers; rows = rows; total = length rows })

  unfoldable pub sql_query : ℕ → Text → Fetched (Table F)
  sql_query call sql = and_then (services.sql_request call sql) reply_table

  abbrev pub once : Text → Fetched (Table F) → Execution F
  once sql result = record { sql = sql; result = result; executed = sql ∷ [] }

  abbrev pub before : Text → Execution F → Execution F
  before sql e = record e { executed = sql ∷ e.executed }

  -- A corrected statement that passes the check.
  abbrev pub checked : Fetched Text → Fetched Text
  checked fixed =
      and_then fixed (λ sql. and_then (validate_sql services.characters sql) (λ _. got sql))

  -- A failed statement ends the loop if it is not corrected.
  abbrev pub corrected : Text → Text → Fetched Text → (Text → Execution F) → Execution F
  corrected sql error (raised e) rerun = once sql (raised error)
  corrected sql error (got fixed) rerun = before sql (rerun fixed)

  abbrev pub tried : Text → Fetched (Table F) → (Text → Execution F) → Execution F
  tried sql (got table) repair = once sql (got table)
  tried sql (raised error) repair = repair error

  -- The loop over the attempts, `retries` of which are left.
  unfoldable pub execute : ℕ → ℕ → Text → TableSchema → Text → Text → Execution F
  unfolding sql_query fix_sql validate_sql
  execute zero attempt sql schema filename table_ref = once sql (sql_query attempt sql)
  execute (suc retries) attempt sql schema filename table_ref =
      tried sql (sql_query attempt sql) (λ error.
        corrected sql error
          (checked (fix_sql (suc (suc attempt)) sql error schema filename table_ref))
          (λ fixed. execute retries (suc attempt) fixed schema filename table_ref))

  abbrev max_retries : ℕ
  max_retries = 2

  unfoldable pub fmt_cell : Cell F → Text
  unfolding strip_trailing escape_bars
  fmt_cell null = []
  fmt_cell (float v) =
      if services.below_1e12 v
      then strip_trailing b'.' (strip_trailing b'0' (services.fixed_text v))
      else services.exponent_text v
  fmt_cell (other s) = escape_bars s

  abbrev line : List Text → Text
  line cells = codes "| " ++ (join_with (codes " | ") cells ++ codes " |")

  abbrev counted : ℕ → ℕ → Text
  counted shown total =
      if ltb shown total
      then b'\n'
        ∷ b'\n'
        ∷ (codes "_Showing "
            ++ (services.number_text shown
                ++ (codes " of " ++ (services.number_text total ++ codes " matching rows._"))))
      else []

  unfoldable pub format_markdown : Table F → Text
  unfolding fmt_cell
  format_markdown t = elim t.rows [
    | [] ↦ codes "_Query returned no results._"
    | ◌∷◌ row rows ↦
        join_with (b'\n' ∷ []) (
          line t.headers
          ∷ line (map (λ _. codes "---") t.headers)
          ∷ map (λ r. line (map fmt_cell r)) (row ∷ rows))
        ++ counted (length (row ∷ rows)) t.total
  ]

  abbrev capped : Table F → Table F
  capped t =
      if ltb services.max_result_rows (length t.rows)
      then record t { total = length t.rows; rows = take services.max_result_rows t.rows }
      else t

  abbrev pub report : Execution F → Answered
  report e = record {
    sql_text = e.sql;
    markdown = elim e.result [
      | got table ↦ format_markdown (capped table)
      | raised error ↦
          codes "_SQL execution failed after 2 retries: "
          ++ (error
              ++ (b'_'
                  ∷ b'\n'
                  ∷ b'\n'
                  ∷ (codes "**Last SQL attempted:**"
                      ++ (b'\n' ∷ (codes "```sql" ++ (b'\n' ∷ (e.sql ++ (b'\n' ∷ codes "```"))))))))
    ];
    executed = e.executed;
  }

  abbrev pub answer_sql : Text → Fetched (Unit {0}) → Answered → Answered
  answer_sql sql (raised e) run = record {
    sql_text = sql;
    markdown = codes "_Generated SQL was rejected (safety check): " ++ (e ++ codes "_");
    executed = [];
  }
  answer_sql sql (got t) run = run

  abbrev pub answer_generated : Fetched Text → TableSchema → Text → Text → Answered
  answer_generated (raised e) schema filename table_ref = record {
    sql_text = [];
    markdown = codes "_Could not generate SQL for this query: " ++ (e ++ codes "_");
    executed = [];
  }
  answer_generated (got sql) schema filename table_ref =
      answer_sql sql (validate_sql services.characters sql)
        (report (execute max_retries 0 sql schema filename table_ref))

  unfoldable pub query_tabular : Text → Text → TableSchema → Text → Answered
  unfolding mindsdb_name generate_sql validate_sql execute format_markdown
  query_tabular query document_id schema filename =
      let table_ref = codes "files.`" ++ (mindsdb_name document_id ++ codes "`") in
      answer_generated (generate_sql query schema filename table_ref) schema filename table_ref
