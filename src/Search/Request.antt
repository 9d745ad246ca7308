-- ===== src/Search/Request.antt =====
-- `search` of app/search/engine.py as a whole: the cache around a run. A moment (of the type W) is what the run
-- reads: the database, and the vector store, the models and the registry with it.
use knowledgebase.Prelude.{
  ℕ, ◌+◌, ◌≤◌, ◌≡◌, ◌≢◌, refl, sym, ap, true, Option, none, some, List, [], ◌∷◌, ◌++◌, arith, ltb,
  All,
}
use knowledgebase.Prelude.Attempt.{Fetched, got, raised}
use knowledgebase.Prelude.Text.{Text}
use knowledgebase.Prelude.Table.{first}
use knowledgebase.Models.{Time, Db}
use knowledgebase.Search.{Query, Entry, cache_key, has_key, search, or_blank}
use knowledgebase.Search.Cache.{search_again}
use knowledgebase.Search.Engine.{SearchServices, SearchResponse, run_search}

abbrev pub response_of : {R : Type 0} → Fetched R → Option R
response_of (got r) = some r
response_of (raised e) = none

module _ {S V F W : Type 0} (services : W → SearchServices S V F) (database : W → Db)
    (ttl max_entries : ℕ) (str_uuid str_int : ℕ → Text) where
  -- A search begins at `now` in the moment `w`, and its result is stored at `done`.
  unfoldable pub search_request :
      Query
      → S
      → W
      → Time
      → Time
      → List (Entry (SearchResponse S))
      → Option (SearchResponse S × List (Entry (SearchResponse S)))
  unfolding search cache_key run_search
  search_request q min_score w now done cache =
      search ttl max_entries (cache_key str_uuid str_int q)
        (response_of (run_search (services w) q min_score (database w))) now done cache

  -- A search of a query that is not in the cache stores its response, and until that is older than the limit the next search of the same query
  -- gets it again, with whatever threshold, and whatever the database and the vector store hold by then: the threshold is not a part of the key,
  -- and no deletion clears the cache.
  pub search_ignores_min_score :
      (q : Query) (min_score other : S) (w changed : W) (now done later finished : Time)
      (cache after : List (Entry (SearchResponse S))) (r : SearchResponse S)
      → 1 ≤ ttl
      → first (has_key ttl max_entries (cache_key str_uuid str_int q)) cache ≡ none
      → search_request q min_score w now done cache ≡ some (r, after)
      → ltb later (done + ttl) ≡ true
      → search_request q other changed later finished after ≡ some (r, after)
  unfolding search_request
  search_ignores_min_score q min_score other w changed now done later finished cache after r pos
        absent h soon =
      search_again ttl max_entries (cache_key str_uuid str_int q) _ _ now done later finished cache
        after r pos absent h soon

-- No colon is among the characters.
abbrev pub IsColonFree : Text → Type 0
IsColonFree s = All (λ c. c ≢ b':') s

-- Different numbers are spelled differently and without colons.
abbrev pub IsSpelling : (ℕ → Text) → Type 0
IsSpelling str = ((n : ℕ) → IsColonFree (str n)) × ((m n : ℕ) → str m ≡ str n → m ≡ n)

uncons : (x y : ℕ) (xs ys : Text) → Path Text (x ∷ xs) (y ∷ ys) → (x ≡ y) × (xs ≡ ys)
uncons x y xs ys h = (ground arith, ground arith)

-- Texts up to the first colon, and after it.
colon_split :
    (a b rest others : Text)
    → IsColonFree a
    → IsColonFree b
    → (a ++ b':' ∷ rest) ≡ (b ++ b':' ∷ others)
    → (a ≡ b) × (rest ≡ others)
colon_split [] [] rest others h k e = (refl, (uncons _ _ _ _ e).1)
colon_split [] (y ∷ b) rest others h k e = absurd (k.0 (sym (uncons _ _ _ _ e).0))
colon_split (x ∷ a) [] rest others h k e = absurd (h.0 (uncons _ _ _ _ e).0)
colon_split (x ∷ a) (y ∷ b) rest others h k e =
    let (same, tails) = uncons x y _ _ e in
    let (heads, lasts) = colon_split a b rest others h.1 k.1 tails in (rw (same, heads) refl, lasts)

-- A document id of a request that is not blank and has no colon, as the text of a UUID is, or none.
abbrev pub IsScope : Option Text → Type 0
IsScope none = Unit
IsScope (some s) = IsColonFree s × (s ≢ [])

same_scope : (d e : Option Text) → IsScope d → IsScope e → or_blank d ≡ or_blank e → d ≡ e
same_scope none none k l h = refl
same_scope none (some e) k l h = absurd (l.1 (sym h))
same_scope (some d) none k l h = absurd (k.1 h)
same_scope (some d) (some e) k l h = ap some h

scope-IsColonFree : (d : Option Text) → IsScope d → IsColonFree (or_blank d)
scope-IsColonFree none k = tt
scope-IsColonFree (some d) k = k.0

module _ (str_uuid str_int : ℕ → Text) where
  -- Two queries have one key in the cache only if they agree in the tenant, the mode, the limit, the document and the text, if the ids of tenants and numbers are spelled
  -- differently and without a colon, no mode has a colon, and no document id is blank or has a colon.
  pub cache_key_injective :
      (q r : Query)
      → IsSpelling str_uuid
      → IsSpelling str_int
      → IsColonFree q.mode
      → IsColonFree r.mode
      → IsScope q.document_id
      → IsScope r.document_id
      → cache_key str_uuid str_int q ≡ cache_key str_uuid str_int r
      → q ≡ r
  unfolding cache_key
  cache_key_injective q r ids numbers q_mode r_mode q_scope r_scope h =
      let (tenant, h1) = colon_split _ _ _ _ (ids.0 q.tenant_id) (ids.0 r.tenant_id) h in
      let (mode, h2) = colon_split _ _ _ _ q_mode r_mode h1 in
      let (limit, h3) = colon_split _ _ _ _ (numbers.0 q.top_k) (numbers.0 r.top_k) h2 in
      let (scope, text) =
        colon_split _ _ _ _ (scope-IsColonFree q.document_id q_scope)
          (scope-IsColonFree r.document_id r_scope) h3 in
      let same_tenant = ids.1 q.tenant_id r.tenant_id tenant in
      let same_limit = numbers.1 q.top_k r.top_k limit in
      let same_document = same_scope q.document_id r.document_id q_scope r_scope scope in
      λ i. record {
        query = text i;
        tenant_id = same_tenant i;
        mode = mode i;
        top_k = same_limit i;
        document_id = same_document i;
      }
