-- ===== src/Search/Isolation.antt =====
-- Whose chunks a search of app/search/engine.py returns.
pub mod Rows
use knowledgebase.Prelude.{
  ℕ, ◌*◌, ◌≡◌, ◌⊎◌, inl, inr, refl, sym, subst, Bool, true, false, Option, none, some, List, [],
  ◌∷◌, map, take, arith, ==_iff, ◌==◌, All, All-append, All-mono, All_intro, All-take, All-select,
  All-select_with, In, Bool-cases, Option-cases,
}
use knowledgebase.Prelude.Attempt.{Fetched, got, raised, and_then}
use knowledgebase.Prelude.Text.{Text, codes, same_text}
use knowledgebase.Prelude.Table.{select, select-In}
use knowledgebase.Prelude.Dict.{Dict}
use knowledgebase.Prelude.Sorting.{All-sort_desc}
use knowledgebase.Models.{Uuid, Document, Chunk, Db}
use knowledgebase.Search.{Query}
use knowledgebase.Embedding.{embed_single}
use knowledgebase.Tabular.{query_tabular}
use knowledgebase.Search.Engine.{
  SearchServices, SearchResultItem, SearchResponse, Row, join, item, chunk_of, collect, run_fts,
  scope_of, exec_fts, or_else, ranked, hybrid_search, vector_search, fts_search, keyword_search,
  search_by_mode, resolve_mode, above, enrich_tabular_results, enrich_one, run_search, ranking,
  fuse, scored_ids, answered, respond, tabular_pair, Found, fetch_chunks_by_ids,
}
use knowledgebase.Search.Isolation.Rows.{
  IsOwn, IsShown, selected, item-IsShown, chunk_of-IsOwn, All-or_else,
}

module _ {S V F : Type 0} (services : SearchServices S V F) (tenant_id : Uuid) (db : Db) where
  collect-IsShown :
      (ids : Dict S) (rows : List Row)
      → All (IsOwn tenant_id db) rows
      → All (IsShown tenant_id db) (collect services ids rows)
  unfolding collect
  collect-IsShown [] rows h = tt
  collect-IsShown ((id, score) ∷ ids) rows h = elim (Option-cases (chunk_of id rows)) [
    | inl e ↦ rw (e, collect) (collect-IsShown ids rows h)
    | inr (row, e) ↦
        rw (e, collect)
          (
            item-IsShown tenant_id db row (services.scores.rounded score)
                (chunk_of-IsOwn tenant_id db id rows row h e),
            collect-IsShown ids rows h,
          )
  ]

  fetched-IsShown :
      (ids : Dict S)
      → All
          (IsShown tenant_id db)
          (collect services ids (fetch_chunks_by_ids services ids tenant_id db))
  fetched-IsShown ids = collect-IsShown ids _ (selected tenant_id db _ (λ row e. ground (arith, e)))

  exec_fts-IsOwn :
      (q : Text) (top_k : ℕ) (document_id : Option Uuid)
      → All (IsOwn tenant_id db) (exec_fts services q tenant_id top_k document_id db)
  exec_fts-IsOwn q top_k document_id = All-take (IsOwn tenant_id db) top_k _ (
      All-sort_desc (IsOwn tenant_id db) _ _ (selected tenant_id db _ (λ row e. ground (arith, e))))

  abbrev OwnRow : Row × S → Type 0
  OwnRow r = IsOwn tenant_id db r.0

  pairs :
      (f : Row → S) (rows : List Row)
      → All (IsOwn tenant_id db) rows
      → All OwnRow (map (λ row. (row, f row)) rows)
  pairs f [] h = tt
  pairs f (row ∷ rows) h = (h.0, pairs f rows h.1)

  shown :
      {A : Type 0} (f : A → Row) (score : A → S) (xs : List A)
      → All (λ a. IsOwn tenant_id db (f a)) xs
      → All (IsShown tenant_id db) (map (λ a. item (f a) (score a)) xs)
  shown f score [] h = tt
  shown f score (a ∷ xs) h = (item-IsShown tenant_id db (f a) (score a) h.0, shown f score xs h.1)

  run_fts-IsOwn :
      (query : Text) (top_k : ℕ) (document_id : Option Uuid)
      → All OwnRow (run_fts services query tenant_id top_k document_id db)
  unfolding run_fts
  run_fts-IsOwn query top_k document_id =
      All-or_else OwnRow _ _ (pass _) (All-or_else OwnRow _ _ (pass _) (pass _))
    where
      pass :
          (q : Text)
          → All OwnRow (ranked services q (exec_fts services q tenant_id top_k document_id db))
      pass q =
          pairs (λ row. services.ts_rank q row.0.fts_vector) _ (exec_fts-IsOwn q top_k document_id)

  -- What a search by any mode returns, where it returns.
  abbrev Shown : Fetched (Found services) → Type 0
  Shown f =
      (results : List (SearchResultItem S)) (used : Text)
      → f ≡ got (results, used)
      → All (IsShown tenant_id db) results

  got-Shown :
      (results : List (SearchResultItem S)) (used : Text)
      → All (IsShown tenant_id db) results
      → Shown (got (results, used))
  got-Shown results used h found _ e =
      let same : results ≡ found = ground arith in subst (All (IsShown tenant_id db)) same h

  -- A step that returns only if the one before it did.
  and_then-Shown :
      {A : Type 0} (x : Fetched A) (f : A → Fetched (Found services))
      → ((a : A) → Shown (f a))
      → Shown (and_then x f)
  and_then-Shown (got a) f h = h a
  and_then-Shown (raised e) f h = λ results used q. absurd (cc)

  hybrid_search-Shown :
      (query : Text) (top_k : ℕ) (document_id : Option Text)
      → Shown (hybrid_search services query tenant_id top_k document_id db)
  unfolding hybrid_search
  hybrid_search-Shown query top_k document_id =
      and_then-Shown (embed_single services.embedder query) _ (λ v.
        and_then-Shown (scope_of services.as_uuid document_id) _ (λ scope.
          and_then-Shown (services.vector_search v tenant_id (top_k * 2) document_id) _ (λ hits.
            let rows = run_fts services query tenant_id (top_k * 2) scope db in
            let ids = take top_k (ranking services (fuse services hits rows)) in
            got-Shown (collect services ids (fetch_chunks_by_ids services ids tenant_id db))
              (codes "hybrid") (fetched-IsShown ids))))

  vector_search-Shown :
      (query : Text) (top_k : ℕ) (document_id : Option Text)
      → Shown (vector_search services query tenant_id top_k document_id db)
  unfolding vector_search
  vector_search-Shown query top_k document_id =
      and_then-Shown (embed_single services.embedder query) _ (λ v.
        and_then-Shown (services.vector_search v tenant_id top_k document_id) _ (λ hits.
          let ids = scored_ids services hits in
          got-Shown (collect services ids (fetch_chunks_by_ids services ids tenant_id db))
            (codes "vector_only") (fetched-IsShown ids)))

  fts_search-Shown :
      (query : Text) (top_k : ℕ) (document_id : Option Text)
      → Shown (fts_search services query tenant_id top_k document_id db)
  unfolding fts_search
  fts_search-Shown query top_k document_id =
      and_then-Shown (scope_of services.as_uuid document_id) _ (λ scope.
        got-Shown _ _
          (shown (λ r. r.0) (λ r. services.scores.rounded r.1) _ (run_fts-IsOwn query top_k scope)))

  keyword_search-Shown :
      (query : Text) (top_k : ℕ) (document_id : Option Text)
      → Shown (keyword_search services query tenant_id top_k document_id db)
  unfolding keyword_search
  keyword_search-Shown query top_k document_id =
      and_then-Shown (scope_of services.as_uuid document_id) _ (λ scope. got-Shown _ _ (
        shown (λ row. row) (λ _. services.scores.nought) _
          (All-take (IsOwn tenant_id db) top_k _
            (selected tenant_id db _ (λ row e. ground (arith, e))))))

  answered-IsShown :
      (r : SearchResultItem S) (x : Fetched (Text × Text))
      → ((row : Row) × IsOwn tenant_id db row
          × (r.chunk_id ≡ row.0.id)
          × (r.document_id ≡ row.1.id)
          × (row.1.is_tabular ≡ true))
      → IsShown tenant_id db r
      → IsShown tenant_id db (answered services r x)
  answered-IsShown r (got (sql, md)) (row, own, c, d, tab) h = (row, own, c, d, inr tab, inr tab)
  answered-IsShown r (raised e) k h = h

  enrich_one-IsShown :
      (query : Text) (r : SearchResultItem S)
      → IsShown tenant_id db r
      → IsShown tenant_id db (enrich_one services query r)
  enrich_one-IsShown query r (row, own, c, d, text, schema) = elim (Option-cases r.table_schema) [
    | inl e ↦ rw (e, enrich_one) (row, own, c, d, text, schema)
    | inr (t, e) ↦
        let tab : row.1.is_tabular ≡ true = elim schema [ inl n ↦ absurd (cc) | inr b ↦ b ] in
        rw (e, enrich_one)
          (answered-IsShown r
            (tabular_pair services
              (query_tabular services.tabular query (services.str_uuid r.document_id) t r.filename))
            (row, own, c, d, tab) (row, own, c, d, text, schema))
  ]

  enrich-IsShown :
      (query : Text) (results : List (SearchResultItem S))
      → All (IsShown tenant_id db) results
      → All (IsShown tenant_id db) (enrich_tabular_results services query results)
  unfolding enrich_tabular_results
  enrich-IsShown query [] h = tt
  enrich-IsShown query (r ∷ results) h =
      (enrich_one-IsShown query r h.0, enrich-IsShown query results h.1)

  above-IsShown :
      (min_score : S) (results : List (SearchResultItem S))
      → All (IsShown tenant_id db) results
      → All (IsShown tenant_id db) (above services min_score results)
  unfolding above
  above-IsShown min_score results h =
      elim (Bool-cases (services.scores.at_least services.scores.nought min_score)) [
        | inl e ↦ rw e h
        | inr e ↦ rw e (All-select (IsShown tenant_id db) _ results h)
      ]

  search_by_mode-Shown :
      (mode : Text) (q : Query)
      → q.tenant_id ≡ tenant_id
      → Shown (search_by_mode services mode q db)
  unfolding search_by_mode
  search_by_mode-Shown mode q own = elim (Bool-cases (same_text mode (codes "hybrid"))) [
    | inl e ↦ rw (e, own) (hybrid_search-Shown q.query q.top_k q.document_id)
    | inr e ↦ elim (Bool-cases (same_text mode (codes "vector_only"))) [
      | inl f ↦ rw (e, f, own) (vector_search-Shown q.query q.top_k q.document_id)
      | inr f ↦ elim (Bool-cases (same_text mode (codes "lexical_only"))) [
        | inl g ↦ rw (e, f, g, own) (fts_search-Shown q.query q.top_k q.document_id)
        | inr g ↦ rw (e, f, g, own) (keyword_search-Shown q.query q.top_k q.document_id)
      ]
    ]
  ]

  respond-IsShown :
      (q : Query) (min_score : S) (x : Fetched (Found services)) (response : SearchResponse S)
      → Shown x
      → and_then x (λ f. got (respond services q.query min_score f)) ≡ got response
      → All (IsShown tenant_id db) response.results
  respond-IsShown q min_score (raised e) response h k = absurd (cc)
  respond-IsShown q min_score (got (results, used)) response h k =
      let same : respond services q.query min_score (results, used) ≡ response = ground arith in
      subst (λ (r : SearchResponse S). All (IsShown tenant_id db) r.results) same
        (enrich-IsShown q.query _ (above-IsShown min_score results (h results used refl)))

module _ {S V F : Type 0} (services : SearchServices S V F) where
  -- Whatever the mode is and whatever the vector store returns, each result of a search that returns shows a chunk of the tenant that
  -- asked, with its id, the document of the database that it belongs to and, unless that is a table, its own text.
  pub run_search-IsShown :
      (q : Query) (min_score : S) (db : Db) (response : SearchResponse S)
      → run_search services q min_score db ≡ got response
      → All (IsShown q.tenant_id db) response.results
  unfolding run_search
  run_search-IsShown q min_score db response h =
      respond-IsShown services q.tenant_id db q min_score
        (search_by_mode services (resolve_mode services q.mode) q db) response
        (search_by_mode-Shown services q.tenant_id db (resolve_mode services q.mode) q refl) h
