-- ===== src/Search/Ranking.antt =====
-- Which results the hybrid search of app/search/engine.py returns, and in which order.
use knowledgebase.Prelude.{
  ℕ, ◌*◌, ◌≤◌, ◌≡◌, ◌⊎◌, inl, inr, refl, sym, ap, subst, Bool, true, ◌&&◌, Option, some, List, [],
  ◌∷◌, length, length-take, take, arith, ==_refl, ◌==◌, All, All-mono, In, Option-cases,
}
use knowledgebase.Prelude.Attempt.{got}
use knowledgebase.Prelude.Text.{Text, codes}
use knowledgebase.Prelude.Table.{In-select}
use knowledgebase.Prelude.Dict.{Dict, dict_get, dict_get-In}
use knowledgebase.Prelude.Sorting.{
  IsOrder, Sorted, sort_desc-Sorted, In-sort_desc, Sorted-take, Sorted-top,
}
use knowledgebase.Models.{Uuid, Document, Chunk, Db}
use knowledgebase.Search.Rows.{In-join, chunk_of-In, is_among-In}
use knowledgebase.Embedding.{embed_single}
use knowledgebase.Search.Engine.{
  SearchServices, SearchResultItem, Row, Hit, join, item, is_among, chunk_of, collect, run_fts,
  scope_of, fetch_chunks_by_ids, hybrid_search, ranking, fuse,
}

module _ {S V F : Type 0} (services : SearchServices S V F) where
  abbrev pub no_less : SearchResultItem S → SearchResultItem S → Bool
  no_less r q = services.scores.at_least r.score q.score

  abbrev by_score : ℕ × S → ℕ × S → Bool
  by_score x y = services.scores.at_least x.1 y.1

  -- Rounding keeps the order.
  abbrev pub IsMonotone : Type 0
  IsMonotone =
      (x y : S)
      → services.scores.at_least x y ≡ true
      → services.scores.at_least (services.scores.rounded x) (services.scores.rounded y) ≡ true

  length-collect_le :
      (ids : Dict S) (rows : List Row) → length (collect services ids rows) ≤ length ids
  unfolding collect
  length-collect_le [] rows = omega arith
  length-collect_le ((id, s) ∷ ids) rows =
      let rest = length-collect_le ids rows in
      elim (Option-cases (chunk_of id rows)) [
        | inl e ↦ rw (e, collect) (omega arith)
        | inr (row, e) ↦ rw (e, collect) (omega arith)
      ]

  -- What holds of the rounded scores of the ids holds of the scores of the results.
  All-collect :
      (P : S → Type 0) (ids : Dict S) (rows : List Row)
      → All (λ e. P (services.scores.rounded e.1)) ids
      → All (λ r. P r.score) (collect services ids rows)
  unfolding collect
  All-collect P [] rows h = tt
  All-collect P ((id, s) ∷ ids) rows h = elim (Option-cases (chunk_of id rows)) [
    | inl e ↦ rw (e, collect) (All-collect P ids rows h.1)
    | inr (row, e) ↦ rw (e, collect) (h.0, All-collect P ids rows h.1)
  ]

  collect-Sorted :
      (ids : Dict S) (rows : List Row)
      → IsMonotone
      → Sorted by_score ids
      → Sorted no_less (collect services ids rows)
  unfolding collect
  collect-Sorted [] rows mono h = tt
  collect-Sorted ((id, s) ∷ ids) rows mono h = elim (Option-cases (chunk_of id rows)) [
    | inl e ↦ rw (e, collect) (collect-Sorted ids rows mono h.1)
    | inr (row, e) ↦
        rw (e, collect)
          (
            All-collect (λ t. services.scores.at_least (services.scores.rounded s) t ≡ true) ids
                rows
                (All-mono (λ e. services.scores.at_least s e.1 ≡ true) _ ids (λ e k. mono s e.1 k)
                  h.0),
            collect-Sorted ids rows mono h.1,
          )
  ]

  ranking-Sorted :
      (k : ℕ) (scores : Dict S)
      → IsOrder services.scores.at_least
      → Sorted by_score (take k (ranking services scores))
  ranking-Sorted k scores laws = Sorted-take by_score k _ (
      sort_desc-Sorted by_score scores
        ((λ x y e. laws.0 x.1 y.1 e), (λ x y z e f. laws.1 x.1 y.1 z.1 e f)))

module _ {S V F : Type 0} (services : SearchServices S V F) where
  -- The id with its score is among the results.
  abbrev pub IsReturned : Uuid → S → List (SearchResultItem S) → Type 0
  IsReturned id s results =
      (r : SearchResultItem S) × In r results
      × (r.chunk_id ≡ id)
      × (r.score ≡ services.scores.rounded s)

  In-collect :
      (id : Uuid) (s : S) (ids : Dict S) (rows : List Row) (row : Row)
      → chunk_of id rows ≡ some row
      → row.0.id ≡ id
      → In {A = ℕ × S} (id, s) ids
      → IsReturned id s (collect services ids rows)
  unfolding collect
  In-collect id s [] rows row e same m = absurd m
  In-collect id s ((k, t) ∷ ids) rows row e same (inl q) =
      let key : k ≡ id = sym (ap (λ x. x.0) q) in
      let value : t ≡ s = sym (ap (λ x. x.1) q) in
      let found : chunk_of k rows ≡ some row =
        subst (λ x. chunk_of x rows ≡ some row) (sym key) e in
      (item row (services.scores.rounded s), rw (found, collect, value) (inl refl), same, refl)
  In-collect id s ((k, t) ∷ ids) rows row e same (inr m) =
      let (r, there, i, v) = In-collect id s ids rows row e same m in
      elim (Option-cases (chunk_of k rows)) [
        | inl f ↦ (r, rw (f, collect) there, i, v)
        | inr (x, f) ↦ (r, rw (f, collect) (inr there), i, v)
      ]

  module _ (query : Text) (tenant_id : Uuid) (top_k : ℕ) (document_id : Option Text)
      (scope : Option Uuid) (db : Db) (hits : List (Hit S)) where
    -- The fused scores of a query.
    abbrev pub query_scores : Dict S
    query_scores = fuse services hits (run_fts services query tenant_id (top_k * 2) scope db)

    abbrev sorted_ids : Dict S
    sorted_ids = take top_k (ranking services query_scores)

    abbrev hybrid_results : List (SearchResultItem S)
    hybrid_results =
        collect services sorted_ids (fetch_chunks_by_ids services sorted_ids tenant_id db)

    -- No chunk of the tenant that has a score is left out for a result with a lower one.
    best :
        (c : Chunk) (d : Document) (s : S)
        → IsOrder services.scores.at_least
        → IsMonotone services
        → In c db.chunks
        → In d db.documents
        → d.id ≡ c.document_id
        → c.tenant_id ≡ tenant_id
        → dict_get c.id query_scores ≡ some s
        → IsReturned c.id s hybrid_results
          ⊎ All
              (λ r. services.scores.at_least r.score (services.scores.rounded s) ≡ true)
              hybrid_results
    best c d s laws mono in_chunks in_documents own tenant scored =
        elim (Sorted-top (by_score services) top_k (ranking services query_scores) (c.id, s)
          (sorted laws)
          (In-sort_desc (by_score services) (c.id, s) query_scores
            (dict_get-In c.id query_scores s scored))) [
              | inl m ↦
                  let asked = is_among-In sorted_ids c.id s m in
                  let joined = In-join c d db.chunks db.documents in_chunks in_documents own in
                  let (row, found, same) =
                    chunk_of-In (fetch_chunks_by_ids services sorted_ids tenant_id db) (c, d)
                      (In-select
                        (λ row. is_among sorted_ids row.0.id && (row.0.tenant_id == tenant_id))
                        (join db.chunks db.documents) (c, d) joined
                        (ground (arith, asked, tenant, ==_refl tenant_id))) in
                  inl (In-collect c.id s sorted_ids _ row found same m)
              | inr h ↦ inr (
                  All-collect services
                    (λ t. services.scores.at_least t (services.scores.rounded s) ≡ true) sorted_ids
                    _
                    (All-mono (λ x. by_score services x (c.id, s) ≡ true) _ sorted_ids
                      (λ x k. mono x.1 s k) h))
            ]
      where
        sorted :
            IsOrder services.scores.at_least
            → Sorted (by_score services) (ranking services query_scores)
        sorted laws =
            sort_desc-Sorted (by_score services) query_scores
              ((λ x y e. laws.0 x.1 y.1 e), (λ x y z e f. laws.1 x.1 y.1 z.1 e f))

    -- If the query is embedded, the vector store answers and the document id, where there is one, is the text of a UUID, the hybrid search returns at most top_k results, none after one with a lower score; and a chunk
    -- of the tenant that has a score and a document is among them with that score, rounded, or none of them has a lower score than it. This is so where scores are ordered and
    -- rounding keeps the order.
    pub hybrid_search_best :
        (vector : V) (c : Chunk) (d : Document) (s : S)
        → IsOrder services.scores.at_least
        → IsMonotone services
        → embed_single services.embedder query ≡ got vector
        → scope_of services.as_uuid document_id ≡ got scope
        → services.vector_search vector tenant_id (top_k * 2) document_id ≡ got hits
        → In c db.chunks
        → In d db.documents
        → d.id ≡ c.document_id
        → c.tenant_id ≡ tenant_id
        → dict_get c.id query_scores ≡ some s
        → (results : List (SearchResultItem S)) × (hybrid_search services query tenant_id top_k
              document_id db
            ≡ got (results, codes "hybrid"))
          × (length results ≤ top_k)
          × (Sorted (no_less services) results)
          × (IsReturned c.id s results
              ⊎ All
                  (λ r. services.scores.at_least r.score (services.scores.rounded s) ≡ true)
                  results)
    unfolding hybrid_search
    hybrid_search_best vector c d s laws mono embedded scoped answered in_chunks in_documents own
          tenant scored =
        (
          hybrid_results,
          rw (embedded, scoped, answered) refl,
          omega (
            arith,
            length-collect_le services sorted_ids
                (fetch_chunks_by_ids services sorted_ids tenant_id db),
            length-take top_k (ranking services query_scores),
          ),
          collect-Sorted services sorted_ids _ mono
              (ranking-Sorted services top_k query_scores laws),
          best c d s laws mono in_chunks in_documents own tenant scored,
        )
