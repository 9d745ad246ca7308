-- ===== src/Tabular/Safety.antt =====
-- Which SQL app/search/tabular_engine.py runs, and what it reports of it.
use knowledgebase.Prelude.{
  ℕ, zero, suc, ◌≤◌, ◌≡◌, refl, ap, subst, true, false, List, [], ◌∷◌, ◌++◌, length, arith, All,
  inl, inr, ◌⊎◌, Bool-cases,
}
use knowledgebase.Prelude.Text.{Text, codes, strip, starts_with}
use knowledgebase.Prelude.Attempt.{Fetched, got, raised, and_then}
use knowledgebase.Models.{TableSchema}
use knowledgebase.Tabular.Sql.{Characters, validate_sql, has_write_op, strip_literals}
use knowledgebase.Tabular.{
  TabularServices, Table, Execution, sql_query, fix_sql, execute, corrected, tried, checked, report,
  answer_sql, answer_generated, query_tabular,
}

-- The statement begins with SELECT or WITH, and outside quotes it has none of the words of the list.
abbrev pub IsReadOnly : Characters → Text → Type 0
IsReadOnly characters sql =
    ((starts_with (codes "SELECT") (characters.upper (strip sql)) ≡ true)
      ⊎ (starts_with (codes "WITH") (characters.upper (strip sql)) ≡ true))
    × (has_write_op characters false (strip_literals (strip sql)) ≡ false)

validate_sql-IsReadOnly :
    (characters : Characters) (sql : Text)
    → validate_sql characters sql ≡ got tt
    → IsReadOnly characters sql
unfolding validate_sql
validate_sql-IsReadOnly characters sql h =
    elim (Bool-cases (has_write_op characters false (strip_literals (strip sql)))) [
      | inl w ↦ elim (Bool-cases (starts_with (codes "SELECT") (characters.upper (strip sql)))) [
        | inl s ↦ absurd (let g = rw (w, s) at h in cc)
        | inr s ↦ elim (Bool-cases (starts_with (codes "WITH") (characters.upper (strip sql)))) [
          | inl t ↦ absurd (let g = rw (w, s, t) at h in cc)
          | inr t ↦ absurd (let g = rw (w, s, t) at h in cc)
        ]
      ]
      | inr w ↦ elim (Bool-cases (starts_with (codes "SELECT") (characters.upper (strip sql)))) [
        | inl s ↦ (inl s, w)
        | inr s ↦ elim (Bool-cases (starts_with (codes "WITH") (characters.upper (strip sql)))) [
          | inl t ↦ (inr t, w)
          | inr t ↦ absurd (let g = rw (w, s, t) at h in cc)
        ]
      ]
    ]

module _ {F : Type 0} (services : TabularServices F) where
  abbrev IsSafe : ℕ → List Text → Type 0
  IsSafe n executed = All (IsReadOnly services.characters) executed × (length executed ≤ n)

  checked-IsReadOnly :
      (fixed : Fetched Text) (sql : Text)
      → checked services fixed ≡ got sql
      → IsReadOnly services.characters sql
  checked-IsReadOnly (raised e) sql h = absurd (cc)
  checked-IsReadOnly (got text) sql h = from (validate_sql services.characters text) refl h
    where
      from :
          (v : Fetched Unit)
          → validate_sql services.characters text ≡ v
          → and_then v (λ _. got text) ≡ got sql
          → IsReadOnly services.characters sql
      from (raised e) q h = absurd (cc)
      from (got tt) q h =
          let same : text ≡ sql = ground arith in
          subst (IsReadOnly services.characters) same
            (validate_sql-IsReadOnly services.characters text q)

  corrected-IsSafe :
      (n : ℕ) (sql error : Text) (fixed : Fetched Text) (rerun : Text → Execution F)
      → IsReadOnly services.characters sql
      → ((text : Text) → fixed ≡ got text → IsSafe n (rerun text).executed)
      → IsSafe (suc n) (corrected services sql error fixed rerun).executed
  corrected-IsSafe n sql error (raised e) rerun h k = ((h, tt), omega arith)
  corrected-IsSafe n sql error (got text) rerun h k =
      let (safe, few) = k text refl in ((h, safe), omega (arith, few))

  tried-IsSafe :
      (n : ℕ) (sql : Text) (result : Fetched (Table F)) (repair : Text → Execution F)
      → IsReadOnly services.characters sql
      → ((error : Text) → IsSafe (suc n) (repair error).executed)
      → IsSafe (suc n) (tried services sql result repair).executed
  tried-IsSafe n sql (got table) repair h k = ((h, tt), omega arith)
  tried-IsSafe n sql (raised error) repair h k = k error

  -- The statements that are run while some retries are left.
  execute-IsSafe :
      (retries attempt : ℕ) (sql : Text) (schema : TableSchema) (filename table_ref : Text)
      → IsReadOnly services.characters sql
      → IsSafe
          (suc retries)
          (execute services retries attempt sql schema filename table_ref).executed
  unfolding execute
  execute-IsSafe zero attempt sql schema filename table_ref h = ((h, tt), omega arith)
  execute-IsSafe (suc retries) attempt sql schema filename table_ref h =
      tried-IsSafe (suc retries) sql (sql_query services attempt sql) _ h (λ error.
        corrected-IsSafe (suc retries) sql error
          (checked services
            (fix_sql services (suc (suc attempt)) sql error schema filename table_ref))
          (λ fixed. execute services retries (suc attempt) fixed schema filename table_ref) h
          (λ text q.
            execute-IsSafe retries (suc attempt) text schema filename table_ref
              (checked-IsReadOnly _ text q)))

  answer_sql-IsSafe :
      (sql : Text) (schema : TableSchema) (filename table_ref : Text) (v : Fetched Unit)
      → validate_sql services.characters sql ≡ v
      → IsSafe 3
          (answer_sql services sql v
            (report services (execute services 2 0 sql schema filename table_ref))).executed
  answer_sql-IsSafe sql schema filename table_ref (raised e) q = (tt, omega arith)
  answer_sql-IsSafe sql schema filename table_ref (got tt) q =
      execute-IsSafe 2 0 sql schema filename table_ref
        (validate_sql-IsReadOnly services.characters sql q)

  answer_generated-IsSafe :
      (generated : Fetched Text) (schema : TableSchema) (filename table_ref : Text)
      → IsSafe 3 (answer_generated services generated schema filename table_ref).executed
  answer_generated-IsSafe (raised e) schema filename table_ref = (tt, omega arith)
  answer_generated-IsSafe (got sql) schema filename table_ref =
      answer_sql-IsSafe sql schema filename table_ref (validate_sql services.characters sql) refl

  -- Whatever the language model answers and MindsDB does, a question about a table runs at most three statements, and each of them begins with SELECT or WITH
  -- and has, once its quoted parts are taken out, none of the words of the list of writes.
  pub query_tabular-IsSafe :
      (query document_id : Text) (schema : TableSchema) (filename : Text)
      → All
          (IsReadOnly services.characters)
          (query_tabular services query document_id schema filename).executed
        × (length (query_tabular services query document_id schema filename).executed ≤ 3)
  unfolding query_tabular
  query_tabular-IsSafe query document_id schema filename =
      answer_generated-IsSafe _ schema filename _

  -- Every statement of the list failed, the first as call number `attempt`.
  abbrev pub AllFailed : ℕ → List Text → Type 0
  AllFailed attempt [] = Unit
  AllFailed attempt (s ∷ ss) =
      ((error : Text) × (sql_query services attempt s ≡ raised error)) × AllFailed (suc attempt) ss

  -- The number of the call after these.
  abbrev pub next_call : ℕ → List Text → ℕ
  next_call attempt [] = attempt
  next_call attempt (s ∷ ss) = next_call (suc attempt) ss

  abbrev pub IsReported : ℕ → ℕ → Execution F → Type 0
  IsReported retries attempt e =
      (failures : List Text) × (e.executed ≡ failures ++ e.sql ∷ [])
      × (length failures ≤ retries)
      × AllFailed attempt failures
      × (sql_query services (next_call attempt failures) e.sql ≡ e.result)

  corrected-IsReported :
      (n attempt : ℕ) (sql error : Text) (fixed : Fetched Text) (rerun : Text → Execution F)
      → sql_query services attempt sql ≡ raised error
      → ((text : Text) → IsReported n (suc attempt) (rerun text))
      → IsReported (suc n) attempt (corrected services sql error fixed rerun)
  corrected-IsReported n attempt sql error (raised e) rerun q k = ([], refl, omega arith, tt, q)
  corrected-IsReported n attempt sql error (got text) rerun q k =
      let (failures, log, few, all, last) = k text in
      (sql ∷ failures, ap (λ l. sql ∷ l) log, omega (arith, few), ((error, q), all), last)

  tried-IsReported :
      (n attempt : ℕ) (sql : Text) (result : Fetched (Table F)) (repair : Text → Execution F)
      → sql_query services attempt sql ≡ result
      → ((error : Text)
          → sql_query services attempt sql ≡ raised error
          → IsReported n attempt (repair error))
      → IsReported n attempt (tried services sql result repair)
  tried-IsReported n attempt sql (got table) repair q k = ([], refl, omega arith, tt, q)
  tried-IsReported n attempt sql (raised error) repair q k = k error q

  -- The statement that is reported is the last one that was run, after at most the allowed number of others, each of which failed, and the result that is reported
  -- is what MindsDB answered to it.
  pub execute_lem :
      (retries attempt : ℕ) (sql : Text) (schema : TableSchema) (filename table_ref : Text)
      → IsReported retries attempt (execute services retries attempt sql schema filename table_ref)
  unfolding execute
  execute_lem zero attempt sql schema filename table_ref = ([], refl, omega arith, tt, refl)
  execute_lem (suc retries) attempt sql schema filename table_ref =
      tried-IsReported (suc retries) attempt sql (sql_query services attempt sql) _ refl (λ error q.
        corrected-IsReported retries attempt sql error
          (checked services
            (fix_sql services (suc (suc attempt)) sql error schema filename table_ref))
          (λ fixed. execute services retries (suc attempt) fixed schema filename table_ref) q
          (λ text. execute_lem retries (suc attempt) text schema filename table_ref))
