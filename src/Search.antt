-- ===== src/Search.antt =====
-- The cache of app/search/engine.py around a search. What the search without the cache
-- returns is an argument, `response`, which Search/Engine.antt defines; the settings are arguments. A key of the dict is a text, and the
-- dict is the list of its entries in the order of insertion.
pub mod Cache
pub mod Engine
pub mod Isolation
pub mod Fusion
pub mod Rows
pub mod Ranking
pub mod Lexical
pub mod Request
pub mod Served
pub mod Threshold
mod Examples
use knowledgebase.Prelude.{
  ℕ, zero, suc, ◌+◌, Bool, true, false, Option, none, some, List, [], ◌∷◌, ◌++◌, length, ltb, leb,
  if◌then◌else◌,
}
use knowledgebase.Prelude.Text.{Text, same_text}
use knowledgebase.Prelude.Table.{first, delete, update, exists, first_by}
use knowledgebase.Models.{Uuid, Time}

pub record Entry (R : Type 0) : Type 0 where
  pub key : Text
  pub stored_at : Time
  pub response : R

pub record Query : Type 0 where
  pub query : Text
  pub tenant_id : Uuid
  pub mode : Text
  pub top_k : ℕ
  pub document_id : Option Text

-- `document_id or ''`
abbrev pub or_blank : Option Text → Text
or_blank none = []
or_blank (some s) = s

-- The tenant's id and a number are spelled by `str`; the document id is the text of the request, whatever it is.
unfoldable pub cache_key : (str_uuid str_int : ℕ → Text) → Query → Text
cache_key str_uuid str_int q =
    str_uuid q.tenant_id
    ++ b':'
      ∷ (q.mode ++ b':' ∷ (str_int q.top_k ++ b':' ∷ (or_blank q.document_id ++ b':' ∷ q.query)))

module _ {R : Type 0} (ttl max_entries : ℕ) where
  abbrev pub has_key : Text → Entry R → Bool
  has_key k e = same_text e.key k

  abbrev pub fresh_or_dropped :
      Text → Time → Option (Entry R) → List (Entry R) → Option R × List (Entry R)
  fresh_or_dropped k now none cache = (none, cache)
  fresh_or_dropped k now (some e) cache =
      if ltb now (e.stored_at + ttl)
      then (some e.response, cache)
      else (none, delete (has_key k) cache)

  unfoldable pub cache_get : Text → Time → List (Entry R) → Option R × List (Entry R)
  unfolding first delete same_text
  cache_get k now cache = elim ttl [
    | zero ↦ (none, cache)
    | suc n ↦ fresh_or_dropped k now (first (has_key k) cache) cache
  ]

  -- `_cache[key] = …`
  unfoldable pub put_entry : Text → Time → R → List (Entry R) → List (Entry R)
  unfolding exists update same_text
  put_entry k now response cache =
      if exists (has_key k) cache
      then update (has_key k) (λ e. record e { stored_at = now; response = response }) cache
      else cache ++ record { key = k; stored_at = now; response = response } ∷ []

  abbrev pub without : Option (Entry R) → List (Entry R) → Option (List (Entry R))
  without none cache = none
  without (some oldest) cache = some (delete (has_key oldest.key) cache)

  -- `min` of an empty dict raises ValueError.
  unfoldable pub make_room : List (Entry R) → Option (List (Entry R))
  unfolding first_by delete same_text
  make_room cache =
      if leb max_entries (length cache)
      then without (first_by (λ e. e.stored_at) cache) cache
      else some cache

  abbrev pub put_into : Text → Time → R → Option (List (Entry R)) → Option (List (Entry R))
  put_into k now response none = none
  put_into k now response (some cache) = some (put_entry k now response cache)

  unfoldable pub cache_set : Text → Time → R → List (Entry R) → Option (List (Entry R))
  unfolding make_room put_entry
  cache_set k now response cache = elim ttl [
    | zero ↦ some cache
    | suc n ↦ put_into k now response (make_room cache)
  ]

  abbrev pub answer :
      Text → Time → Option R → Option R × List (Entry R) → Option (R × List (Entry R))
  answer k done response (some cached, cache) = some (cached, cache)
  answer k done none (none, cache) = none
  answer k done (some response) (none, cache) = elim (cache_set k done response cache) [
    | none ↦ none
    | some after ↦ some (response, after)
  ]

  -- The search of the query with the key `k` begins at `now`; `response` is what it gives without the cache, which is
  -- stored at `done`. `none` is an exception.
  unfoldable pub search :
      Text → Option R → Time → Time → List (Entry R) → Option (R × List (Entry R))
  unfolding cache_get cache_set
  search k response now done cache = answer k done response (cache_get k now cache)
