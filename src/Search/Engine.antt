-- ===== src/Search/Engine.antt =====
-- What a search of app/search/engine.py returns without the cache: `_hybrid_search`, `_vector_search`, `_fts_search`,
-- `_keyword_search` with their helpers, the threshold and the enrichment of tables.
pub mod Terms
pub mod Results
use knowledgebase.Prelude.{
  ℕ, ◌*◌, Bool, true, false, ◌&&◌, Option, none, some, List, [], ◌∷◌, ◌++◌, map, length, take, ◌==◌,
  if◌then◌else◌,
}
use knowledgebase.Prelude.Text.{Text, codes, same_text}
use knowledgebase.Prelude.Attempt.{Fetched, got, raised, and_then}
use knowledgebase.Prelude.Table.{select}
use knowledgebase.Prelude.Dict.{Dict, dict_get, dict_set, sort_desc}
use knowledgebase.Models.{Uuid, TableSchema, Document, Chunk, Db}
use knowledgebase.Search.{Query}
use knowledgebase.Embedding.{Embedder, embed_single}
use knowledgebase.Tabular.{TabularServices, Answered, query_tabular}
use knowledgebase.Search.Engine.Terms.{clean_fts_query, or_fts_query}
pub use knowledgebase.Search.Engine.Results.{
  Scores, Hit, SearchResultItem, SearchResponse, SearchServices, Row, scope_of, in_scope, item,
  or_else,
}
unfoldable pub use knowledgebase.Search.Engine.Results.{join, is_among, chunk_of}

module _ {S V F : Type 0} (services : SearchServices S V F) where
  -- The rows of the chunks with these ids.
  abbrev pub fetch_chunks_by_ids : Dict S → Uuid → Db → List Row
  fetch_chunks_by_ids ids tenant_id db =
      select (λ row. is_among ids row.0.id && (row.0.tenant_id == tenant_id))
        (join db.chunks db.documents)

  -- The results in the order of the ids, without the ids that have no chunk.
  unfoldable pub collect : Dict S → List Row → List (SearchResultItem S)
  unfolding chunk_of
  collect [] rows = []
  collect ((id, score) ∷ ids) rows =
      let rest = collect ids rows in
      elim (chunk_of id rows) [
        | none ↦ rest
        | some row ↦ item row (services.scores.rounded score) ∷ rest
      ]

  -- One pass of the full-text search.
  abbrev pub exec_fts : Text → Uuid → ℕ → Option Uuid → Db → List Row
  exec_fts q tenant_id top_k document_id db = take top_k (
      sort_desc
        (λ x y.
          services.scores.at_least (services.ts_rank q x.0.fts_vector)
            (services.ts_rank q y.0.fts_vector))
        (select
          (λ row.
            services.fts_matches q row.0.fts_vector
            && (row.0.tenant_id == tenant_id)
            && in_scope document_id row)
          (join db.chunks db.documents)))

  abbrev pub ranked : Text → List Row → List (Row × S)
  ranked q rows = map (λ row. (row, services.ts_rank q row.0.fts_vector)) rows

  -- The rows with their ranks.
  unfoldable pub run_fts : Text → Uuid → ℕ → Option Uuid → Db → List (Row × S)
  unfolding join select sort_desc
  run_fts query tenant_id top_k document_id db =
      let cleaned = clean_fts_query services.lower query in
      let either = or_fts_query services.lower query in
      or_else (ranked cleaned (exec_fts cleaned tenant_id top_k document_id db)) (
        or_else (ranked query (exec_fts query tenant_id top_k document_id db))
          (ranked either (exec_fts either tenant_id top_k document_id db)))

  -- `scores[hit.point_id] = …`
  unfoldable pub add_hits : List (Hit S) → Dict S → Dict S
  unfolding dict_set
  add_hits [] scores = scores
  add_hits (h ∷ hits) scores =
      add_hits hits (dict_set h.point_id (services.scores.vector_weighted h.score) scores)

  abbrev pub or_nought : Option S → S
  or_nought none = services.scores.nought
  or_nought (some s) = s

  -- `scores[cid] = scores.get(cid, 0.0) + lexical`
  unfoldable pub add_rows : List (Row × S) → Dict S → Dict S
  unfolding dict_get dict_set
  add_rows [] scores = scores
  add_rows ((row, rank) ∷ rows) scores = add_rows rows (
      dict_set row.0.id
        (services.scores.plus (or_nought (dict_get row.0.id scores))
          (services.scores.lexical_weighted rank))
        scores)

  -- The scores of the hybrid search.
  abbrev pub fuse : List (Hit S) → List (Row × S) → Dict S
  fuse hits rows = add_rows rows (add_hits hits [])

  abbrev pub ranking : Dict S → Dict S
  ranking scores = sort_desc (λ x y. services.scores.at_least x.1 y.1) scores

  -- The results of a search by mode, with the mode that was used.
  abbrev pub Found : Type 0
  Found = List (SearchResultItem S) × Text

  unfoldable pub hybrid_search : Text → Uuid → ℕ → Option Text → Db → Fetched Found
  unfolding run_fts add_hits add_rows sort_desc collect is_among join select
  hybrid_search query tenant_id top_k document_id db =
      and_then (embed_single services.embedder query) (λ vector.
        and_then (scope_of services.as_uuid document_id) (λ scope.
          and_then (services.vector_search vector tenant_id (top_k * 2) document_id) (λ hits.
            let rows = run_fts query tenant_id (top_k * 2) scope db in
            let sorted_ids = take top_k (ranking (fuse hits rows)) in
            got
              (collect sorted_ids (fetch_chunks_by_ids sorted_ids tenant_id db), codes "hybrid"))))

  -- `score_map`
  unfoldable pub score_map : List (Hit S) → Dict S → Dict S
  unfolding dict_set
  score_map [] scores = scores
  score_map (h ∷ hits) scores = score_map hits (dict_set h.point_id h.score scores)

  -- Every id of a hit with its score in the map.
  abbrev pub scored_ids : List (Hit S) → Dict S
  scored_ids hits =
      map (λ h. (h.point_id, or_nought (dict_get h.point_id (score_map hits [])))) hits

  unfoldable pub vector_search : Text → Uuid → ℕ → Option Text → Db → Fetched Found
  unfolding score_map dict_get collect is_among join select
  vector_search query tenant_id top_k document_id db =
      and_then (embed_single services.embedder query) (λ vector.
        and_then (services.vector_search vector tenant_id top_k document_id) (λ hits.
          let ids = scored_ids hits in
          got (collect ids (fetch_chunks_by_ids ids tenant_id db), codes "vector_only")))

  unfoldable pub fts_search : Text → Uuid → ℕ → Option Text → Db → Fetched Found
  unfolding run_fts
  fts_search query tenant_id top_k document_id db =
      and_then (scope_of services.as_uuid document_id) (λ scope. got (
        map (λ r. item r.0 (services.scores.rounded r.1)) (run_fts query tenant_id top_k scope db),
        codes "lexical_only",
      ))

  unfoldable pub keyword_search : Text → Uuid → ℕ → Option Text → Db → Fetched Found
  unfolding join select
  keyword_search query tenant_id top_k document_id db =
      let pattern = b'%' ∷ (query ++ b'%' ∷ []) in
      and_then (scope_of services.as_uuid document_id) (λ scope. got (
        map (λ row. item row services.scores.nought)
            (take top_k (
              select
                (λ row.
                  services.ilike pattern row.0.chunk_text
                  && (row.0.tenant_id == tenant_id)
                  && in_scope scope row)
                (join db.chunks db.documents))),
        codes "keyword_fallback",
      ))

  unfoldable pub resolve_mode : Text → Text
  unfolding same_text
  resolve_mode requested =
      if same_text services.search_mode (codes "fts_only") then codes "lexical_only" else requested

  unfoldable pub search_by_mode : Text → Query → Db → Fetched Found
  unfolding hybrid_search vector_search fts_search keyword_search
  search_by_mode mode q db =
      if same_text mode (codes "hybrid")
      then hybrid_search q.query q.tenant_id q.top_k q.document_id db
      else if same_text mode (codes "vector_only")
      then vector_search q.query q.tenant_id q.top_k q.document_id db
      else if same_text mode (codes "lexical_only")
      then fts_search q.query q.tenant_id q.top_k q.document_id db
      else keyword_search q.query q.tenant_id q.top_k q.document_id db

  -- The filter is left out where the threshold is not above 0.
  unfoldable pub above : S → List (SearchResultItem S) → List (SearchResultItem S)
  unfolding select
  above min_score results =
      if services.scores.at_least services.scores.nought min_score
      then results
      else select (λ r. services.scores.at_least r.score min_score) results

  abbrev pub answered : SearchResultItem S → Fetched (Text × Text) → SearchResultItem S
  answered r (got (sql, md)) = record r {
    text = md;
    result_type = codes "tabular";
    sql_query = some sql;
  }
  answered r (raised e) = r

  -- The pair that `query_tabular` returns.
  abbrev pub tabular_pair : Answered → Fetched (Text × Text)
  tabular_pair a = got (a.sql_text, a.markdown)

  abbrev pub enrich_one : Text → SearchResultItem S → SearchResultItem S
  enrich_one query r = elim r.table_schema [
    | none ↦ r
    | some schema ↦ answered r (
        tabular_pair (
          query_tabular services.tabular query (services.str_uuid r.document_id) schema r.filename))
  ]

  unfoldable pub enrich_tabular_results :
      Text → List (SearchResultItem S) → List (SearchResultItem S)
  enrich_tabular_results query [] = []
  enrich_tabular_results query (r ∷ results) =
      enrich_one query r ∷ enrich_tabular_results query results

  abbrev pub respond : Text → S → Found → SearchResponse S
  respond query min_score (found, used_mode) =
      let results = enrich_tabular_results query (above min_score found) in
      record { results = results; total = length results; search_mode_used = used_mode }

  -- `search` where the cache has no entry.
  unfoldable pub run_search : Query → S → Db → Fetched (SearchResponse S)
  unfolding resolve_mode search_by_mode above enrich_tabular_results
  run_search q min_score db =
      and_then (search_by_mode (resolve_mode q.mode) q db) (λ f. got (respond q.query min_score f))
