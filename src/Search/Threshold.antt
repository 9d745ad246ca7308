-- ===== src/Search/Threshold.antt =====
-- What app/search/engine.py does to the results of a mode: the threshold, the enrichment and the count.
use knowledgebase.Prelude.{
  ◌≡◌, ◌⊎◌, inl, inr, refl, subst, true, false, List, [], ◌∷◌, length, map, arith, Bool-cases,
  Option-cases,
}
use knowledgebase.Prelude.Attempt.{Fetched, got, raised, and_then}
use knowledgebase.Prelude.Text.{Text}
use knowledgebase.Prelude.Table.{select}
use knowledgebase.Models.{Uuid, Db}
use knowledgebase.Search.{Query}
use knowledgebase.Search.Engine.{
  SearchServices, SearchResultItem, SearchResponse, Found, above, answered, enrich_one,
  enrich_tabular_results, respond, run_search, resolve_mode, search_by_mode,
}

module _ {S V F : Type 0} (services : SearchServices S V F) where
  -- The id and the score of a result.
  abbrev mark : SearchResultItem S → Uuid × S
  mark r = (r.chunk_id, r.score)

  mark-answered :
      (r : SearchResultItem S) (x : Fetched (Text × Text)) → mark (answered services r x) ≡ mark r
  mark-answered r (got (sql, md)) = refl
  mark-answered r (raised e) = refl

  mark-enrich_one :
      (query : Text) (r : SearchResultItem S) → mark (enrich_one services query r) ≡ mark r
  mark-enrich_one query r = elim (Option-cases r.table_schema) [
    | inl e ↦ rw (e, enrich_one) refl
    | inr (t, e) ↦ rw (e, enrich_one) refl
  ]

  marks-enrich :
      (query : Text) (results : List (SearchResultItem S))
      → map mark (enrich_tabular_results services query results) ≡ map mark results
  unfolding enrich_tabular_results
  marks-enrich query [] = refl
  marks-enrich query (r ∷ results) = rw (mark-enrich_one query r, marks-enrich query results) refl

  -- With a threshold above 0, the results are those of the mode with at least this score, in their order; otherwise they are all of them.
  abbrev IsFiltered : S → List (SearchResultItem S) → List (SearchResultItem S) → Type 0
  IsFiltered min_score found results =
      ((services.scores.at_least services.scores.nought min_score ≡ true)
        × (map mark results ≡ map mark found))
      ⊎ ((services.scores.at_least services.scores.nought min_score ≡ false)
          × (map mark results
              ≡ map mark (select (λ r. services.scores.at_least r.score min_score) found)))

  enriched-IsFiltered :
      (query : Text) (min_score : S) (found : List (SearchResultItem S))
      → IsFiltered min_score found
          (enrich_tabular_results services query (above services min_score found))
  unfolding above
  enriched-IsFiltered query min_score found =
      elim (Bool-cases (services.scores.at_least services.scores.nought min_score)) [
        | inl e ↦ inl (e, rw e (marks-enrich query found))
        | inr e ↦ inr (e, rw e (marks-enrich query _))
      ]

  respond_lem :
      (q : Query) (min_score : S) (x : Fetched (Found services)) (response : SearchResponse S)
      → and_then x (λ f. got (respond services q.query min_score f)) ≡ got response
      → (found : List (SearchResultItem S)) × (used : Text) × (x ≡ got (found, used))
        × (response.search_mode_used ≡ used)
        × (response.total ≡ length response.results)
        × IsFiltered min_score found response.results
  respond_lem q min_score (raised e) response h = absurd (cc)
  respond_lem q min_score (got (found, used)) response h =
      let same : respond services q.query min_score (found, used) ≡ response = ground arith in
      (
        found,
        used,
        refl,
        subst (λ (r : SearchResponse S). r.search_mode_used ≡ used) same refl,
        subst (λ (r : SearchResponse S). r.total ≡ length r.results) same refl,
        subst (λ (r : SearchResponse S). IsFiltered min_score found r.results) same
            (enriched-IsFiltered q.query min_score found),
      )

  -- The response of a mode's results: the mode, the count and what passes the threshold.
  abbrev pub IsResponse : Query → S → Db → SearchResponse S → Type 0
  IsResponse q min_score db response =
      (found : List (SearchResultItem S)) × (used : Text) × (search_by_mode services
          (resolve_mode services q.mode) q db
        ≡ got (found, used))
      × (response.search_mode_used ≡ used)
      × (response.total ≡ length response.results)
      × IsFiltered min_score found response.results

  -- A search that returns has run its mode, reports the mode that was used and counts its results; these have, in this order, the ids and the scores of all
  -- results of the mode if the threshold is not above 0, and otherwise of those results of the mode whose score is at least the threshold.
  pub run_search-IsResponse :
      (q : Query) (min_score : S) (db : Db) (response : SearchResponse S)
      → run_search services q min_score db ≡ got response
      → IsResponse q min_score db response
  unfolding run_search
  run_search-IsResponse q min_score db response h =
      respond_lem q min_score (search_by_mode services (resolve_mode services q.mode) q db) response
        h
