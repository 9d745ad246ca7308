-- ===== src/Search/Served.antt =====
-- That the cache of app/search/engine.py gives a query only what a run of this query returned.
use knowledgebase.Prelude.{
  ℕ, zero, suc, ◌+◌, ◌≡◌, inl, inr, refl, sym, ap, subst, Option, none, some, List, arith, leb, ltb,
  All, All-append, All-in, All-update, All-delete, Bool-cases, length,
}
use knowledgebase.Prelude.Attempt.{Fetched, got, raised}
use knowledgebase.Prelude.Text.{Text, same_text→eq}
use knowledgebase.Prelude.Table.{first, first-In, exists}
use knowledgebase.Models.{Time, Db}
use knowledgebase.Search.{
  Query, Entry, cache_key, has_key, cache_get, cache_set, make_room, put_entry, search,
  fresh_or_dropped, put_into, answer, without,
}
use knowledgebase.Search.Engine.{SearchServices, SearchResponse, run_search}
use knowledgebase.Search.Isolation.{run_search-IsShown}
use knowledgebase.Search.Isolation.Rows.{IsShown}
use knowledgebase.Search.Request.{
  IsSpelling, IsColonFree, IsScope, response_of, search_request, cache_key_injective,
}

-- `Q` relates keys to responses.
module _ {R : Type 0} (ttl max_entries : ℕ) (Q : Text → R → Type 0) where
  abbrev IsKept : Entry R → Type 0
  IsKept e = Q e.key e.response

  abbrev IsRead : Text → Option R × List (Entry R) → Type 0
  IsRead k (none, cache) = All IsKept cache
  IsRead k (some r, cache) = Q k r × All IsKept cache

  fresh_or_dropped-IsRead :
      (k : Text) (now : Time) (o : Option (Entry R)) (cache : List (Entry R))
      → ((e : Entry R) → o ≡ some e → Q k e.response)
      → All IsKept cache
      → IsRead k (fresh_or_dropped ttl max_entries k now o cache)
  fresh_or_dropped-IsRead k now none cache found h = h
  fresh_or_dropped-IsRead k now (some e) cache found h =
      elim (Bool-cases (ltb now (e.stored_at + ttl))) [
        | inl b ↦ rw (b, IsRead) (found e refl, h)
        | inr b ↦ rw (b, IsRead) (All-delete IsKept _ cache h)
      ]

  cache_get-IsRead :
      (k : Text) (now : Time) (cache : List (Entry R))
      → All IsKept cache
      → IsRead k (cache_get ttl max_entries k now cache)
  unfolding cache_get
  cache_get-IsRead k now cache h = by_ttl ttl
    where
      of_key : (e : Entry R) → first (has_key ttl max_entries k) cache ≡ some e → Q k e.response
      of_key e found =
          let (there, same) = first-In (has_key ttl max_entries k) cache found in
          subst (λ key. Q key e.response) (same_text→eq e.key k same)
            (All-in IsKept cache e h there)

      by_ttl :
          (t : ℕ)
          → IsRead k (elim t as (λ _. Option R × List (Entry R)) [
            | zero ↦ (none, cache)
            | suc n ↦
                fresh_or_dropped ttl max_entries k now
                  (first (has_key ttl max_entries k) cache)
                  cache
          ])
      by_ttl zero = h
      by_ttl (suc n) = fresh_or_dropped-IsRead k now _ cache of_key h

  -- What a step leaves, if it does not raise.
  abbrev IsLeft : Option (List (Entry R)) → Type 0
  IsLeft none = Unit
  IsLeft (some cache) = All IsKept cache

  put_entry-IsKept :
      (k : Text) (now : Time) (r : R) (cache : List (Entry R))
      → Q k r
      → All IsKept cache
      → All IsKept (put_entry ttl max_entries k now r cache)
  unfolding put_entry
  put_entry-IsKept k now r cache new h =
      elim (Bool-cases (exists (has_key ttl max_entries k) cache)) [
        | inl e ↦ rw e (
            All-update IsKept (has_key ttl max_entries k) _ cache
              (λ x same old. subst (λ key. Q key r) (sym (same_text→eq x.key k same)) new) h)
        | inr e ↦ rw e (All-append IsKept cache _ h (new, tt))
      ]

  without-IsLeft :
      (o : Option (Entry R)) (cache : List (Entry R))
      → All IsKept cache
      → IsLeft (without ttl max_entries o cache)
  without-IsLeft none cache h = tt
  without-IsLeft (some oldest) cache h = All-delete IsKept _ cache h

  make_room-IsLeft :
      (cache : List (Entry R)) → All IsKept cache → IsLeft (make_room ttl max_entries cache)
  unfolding make_room
  make_room-IsLeft cache h = elim (Bool-cases (leb max_entries (length cache))) [
    | inl e ↦ rw e (without-IsLeft _ cache h)
    | inr e ↦ rw e h
  ]

  cache_set-IsLeft :
      (k : Text) (now : Time) (r : R) (cache : List (Entry R))
      → Q k r
      → All IsKept cache
      → IsLeft (cache_set ttl max_entries k now r cache)
  unfolding cache_set
  cache_set-IsLeft k now r cache new h = by_ttl ttl
    where
      put : (o : Option (List (Entry R))) → IsLeft o → IsLeft (put_into ttl max_entries k now r o)
      put none h = tt
      put (some room) h = put_entry-IsKept k now r room new h

      by_ttl :
          (t : ℕ)
          → IsLeft (elim t as (λ _. Option (List (Entry R))) [
            | zero ↦ some cache
            | suc n ↦ put_into ttl max_entries k now r (make_room ttl max_entries cache)
          ])
      by_ttl zero = h
      by_ttl (suc n) = put _ (make_room-IsLeft cache h)

  -- A search answers its key with what may stand under it, and leaves such entries, if its own response may stand under its key.
  search-IsKept :
      (k : Text) (response : Option R) (now done : Time) (cache after : List (Entry R)) (r : R)
      → All IsKept cache
      → ((x : R) → response ≡ some x → Q k x)
      → search ttl max_entries k response now done cache ≡ some (r, after)
      → Q k r × All IsKept after
  unfolding search
  search-IsKept k response now done cache after r h own e =
      from (cache_get ttl max_entries k now cache) (cache_get-IsRead k now cache h) response own e
    where
      stored :
          (x : R) (o : Option (List (Entry R)))
          → Q k x
          → IsLeft o
          → elim o as (λ _. Option (R × List (Entry R))) [
            | none ↦ none
            | some left ↦ some (x, left)
          ]
            ≡ some (r, after)
          → Q k r × All IsKept after
      stored x none new l e = absurd (cc)
      stored x (some left) new l e =
          let same : x ≡ r = ground arith in
          let rest : left ≡ after = ground arith in
          (subst (Q k) same new, subst (All IsKept) rest l)

      from :
          (g : Option R × List (Entry R))
          → IsRead k g
          → (response : Option R) → ((x : R) → response ≡ some x → Q k x)
          → answer ttl max_entries k done response g ≡ some (r, after)
          → Q k r × All IsKept after
      from (some cached, left) (new, l) response own e =
          let same : cached ≡ r = ground arith in
          let rest : left ≡ after = ground arith in
          (subst (Q k) same new, subst (All IsKept) rest l)
      from (none, left) l none own e = absurd (cc)
      from (none, left) l (some x) own e =
          stored x (cache_set ttl max_entries k done x left) (own x refl)
            (cache_set-IsLeft k done x left (own x refl) l) e

module _ {S V F W : Type 0} (services : W → SearchServices S V F) (database : W → Db)
    (str_uuid str_int : ℕ → Text) where
  -- A run of the query with some threshold, in some moment, returned the response, and all its results are chunks of the tenant
  -- in the database of the moment.
  abbrev pub IsServed : Query → SearchResponse S → Type 0
  IsServed q r =
      (w : W) × (min_score : S) × (run_search (services w) q min_score (database w) ≡ got r)
      × All (IsShown q.tenant_id (database w)) r.results

  abbrev pub IsCached : Text → SearchResponse S → Type 0
  IsCached k r =
      (q : Query) × IsColonFree q.mode
      × IsScope q.document_id
      × (k ≡ cache_key str_uuid str_int q)
      × IsServed q r

  response_of-got :
      (x : Fetched (SearchResponse S)) (r : SearchResponse S) → response_of x ≡ some r → x ≡ got r
  response_of-got (got y) r e = ap got (ground arith)
  response_of-got (raised y) r e = absurd (cc)

  -- Where each entry of the cache is a response of a query to its key, a search of a query answers with the response of a run of this query,
  -- of the same tenant, mode, limit, document and text (the moment and the threshold may be others), and each entry of the cache that it leaves is such a response again.
  -- This is so if the ids of tenants and numbers are spelled differently and without a colon, the mode has no colon, and no document id, of the
  -- query or of those whose responses are in the cache, is blank or has a colon; the source does not check that of the document id.
  pub search_request-IsServed :
      (ttl max_entries : ℕ) (q : Query) (min_score : S) (w : W) (now done : Time)
      (cache after : List (Entry (SearchResponse S))) (r : SearchResponse S)
      → IsSpelling str_uuid
      → IsSpelling str_int
      → IsColonFree q.mode
      → IsScope q.document_id
      → All (λ e. IsCached e.key e.response) cache
      → search_request services database ttl max_entries str_uuid str_int q min_score w now done
          cache
        ≡ some (r, after)
      → IsServed q r × All (λ e. IsCached e.key e.response) after
  unfolding search_request
  search_request-IsServed ttl max_entries q min_score w now done cache after r ids numbers mode
        scope h e =
      let ((p, p_mode, p_scope, same, served), left) =
        search-IsKept ttl max_entries IsCached (cache_key str_uuid str_int q)
          (response_of (run_search (services w) q min_score (database w))) now done cache after r h
          (λ x f.
            let ran = response_of-got _ x f in
            (
              q,
              mode,
              scope,
              refl,
              (w, min_score, ran, run_search-IsShown (services w) q min_score (database w) x ran),
            ))
          e in
      (
        subst (λ a. IsServed a r)
            (sym
              (cache_key_injective str_uuid str_int q p ids numbers mode p_mode scope p_scope same))
            served,
        left,
      )
