-- ===== src/Search/Engine/Results.antt =====
-- What a search of app/search/engine.py reads and returns: the services that it calls, the joined rows, and the results made of them.
-- The vector store and the matching and ranking of PostgreSQL are functions in `SearchServices`. Scores are of a type of their own, whose arithmetic, order, weights and rounding
-- are functions in `Scores`: no law of them is assumed here.
use knowledgebase.Prelude.{
  ℕ, Bool, true, false, Option, none, some, List, [], ◌∷◌, ◌++◌, map, ◌==◌, if◌then◌else◌,
}
use knowledgebase.Prelude.Text.{Text, codes}
use knowledgebase.Prelude.Attempt.{Fetched, got, and_then}
use knowledgebase.Prelude.Table.{select}
use knowledgebase.Prelude.Dict.{Dict}
use knowledgebase.Models.{Uuid, TableSchema, Document, Chunk}
use knowledgebase.Embedding.{Embedder}
use knowledgebase.Tabular.{TabularServices}

pub record Scores (S : Type 0) : Type 0 where
  pub nought : S
  pub plus : S → S → S
  pub at_least : S → S → Bool
  pub vector_weighted : S → S
  pub lexical_weighted : S → S
  pub rounded : S → S

pub record Hit (S : Type 0) : Type 0 where
  pub point_id : Uuid
  pub score : S

pub record SearchResultItem (S : Type 0) : Type 0 where
  pub chunk_id : Uuid
  pub document_id : Uuid
  pub text : Text
  pub score : S
  pub page_number : Option ℕ
  pub file_path : Text
  pub filename : Text
  pub result_type : Text
  pub sql_query : Option Text
  pub table_schema : Option TableSchema

-- The fields of SearchResponse but for the query and the duration.
pub record SearchResponse (S : Type 0) : Type 0 where
  pub results : List (SearchResultItem S)
  pub total : ℕ
  pub search_mode_used : Text

pub record SearchServices (S V F : Type 0) : Type 0 where
  pub scores : Scores S
  pub lower : Text → Text
  pub embedder : Embedder V
  pub vector_search : V → Uuid → ℕ → Option Text → Fetched (List (Hit S))
  pub as_uuid : Text → Fetched Uuid
  pub fts_matches : Text → Option Text → Bool
  pub ts_rank : Text → Option Text → S
  pub ilike : Text → Text → Bool
  pub str_uuid : Uuid → Text
  pub tabular : TabularServices F
  pub search_mode : Text

-- A chunk with its document.
abbrev pub Row : Type 0
Row = Chunk × Document

-- chunks JOIN documents
unfoldable pub join : List Chunk → List Document → List Row
unfolding select
join [] documents = []
join (c ∷ cs) documents =
    map (λ d. (c, d)) (select (λ d. d.id == c.document_id) documents) ++ join cs documents

-- `if document_id:`, and the text as a value of the UUID column, which raises where it is not one.
abbrev pub scope_of : (Text → Fetched Uuid) → Option Text → Fetched (Option Uuid)
scope_of as_uuid none = got none
scope_of as_uuid (some []) = got none
scope_of as_uuid (some (c ∷ s)) = and_then (as_uuid (c ∷ s)) (λ id. got (some id))

abbrev pub in_scope : Option Uuid → Row → Bool
in_scope none row = true
in_scope (some id) row = row.0.document_id == id

abbrev result_type : Bool → Text
result_type is_tab = if is_tab then codes "tabular" else codes "text"

abbrev shown_schema : Bool → Option TableSchema → Option TableSchema
shown_schema is_tab schema = if is_tab then schema else none

abbrev pub item : {S : Type 0} → Row → S → SearchResultItem S
item (c, d) score = record {
  chunk_id = c.id;
  document_id = c.document_id;
  text = c.chunk_text;
  score = score;
  page_number = c.page_number;
  file_path = d.minio_path;
  filename = d.filename;
  result_type = result_type d.is_tabular;
  sql_query = none;
  table_schema = shown_schema d.is_tabular d.table_schema;
}

-- `Chunk.id.in_(ids)`
unfoldable pub is_among : {S : Type 0} → Dict S → Uuid → Bool
is_among [] id = false
is_among ((k, s) ∷ ids) id = let rest = is_among ids id in if k == id then true else rest

-- `chunk_map.get(cid)`: of two rows with one id, the dict keeps the last.
unfoldable pub chunk_of : Uuid → List Row → Option Row
chunk_of id [] = none
chunk_of id (row ∷ rows) = elim (chunk_of id rows) [
  | some later ↦ some later
  | none ↦ if row.0.id == id then some row else none
]

module _ {A : Type 0} where
  -- The next pass is run if the one before found nothing.
  abbrev pub or_else : List A → List A → List A
  or_else [] next = next
  or_else (row ∷ rows) next = row ∷ rows
