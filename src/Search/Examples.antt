-- ===== src/Search/Examples.antt =====
-- A database of two tenants with a chunk each, and searches of the first.
use knowledgebase.Prelude.{
  ℕ, suc, ◌⊎◌, ◌≢◌, ◌+◌, ◌*◌, ◌≤◌, ◌≡◌, refl, true, false, Option, none, some, List, [], ◌∷◌, map,
  length, leb, arith, All, ◌==◌, inl,
}
use knowledgebase.Prelude.Text.{Text, codes}
use knowledgebase.Prelude.Attempt.{got, raised}
use knowledgebase.Prelude.Table.{exists, first}
use knowledgebase.Prelude.Dict.{dict_get}
use knowledgebase.Prelude.Sorting.{IsOrder, Sorted}
use knowledgebase.Models.{Document, Chunk, Db, empty_db}
use knowledgebase.Models.Status.{DocStatus}
use knowledgebase.Embedding.{Embedder, embed_single}
use knowledgebase.Tabular.{TabularServices}
use knowledgebase.Search.Cache.{search_bounded}
use knowledgebase.Search.{search, Entry, Query, cache_key}
use knowledgebase.Search.Engine.{
  SearchServices, SearchResponse, SearchResultItem, Scores, Hit, run_search, run_fts, add_rows,
  add_hits, fuse, hybrid_search, item, join,
}
use knowledgebase.Search.Isolation.{run_search-IsShown}
use knowledgebase.Search.Isolation.Rows.{IsShown}
use knowledgebase.Search.Fusion.{fuse_lem}
use knowledgebase.Search.Ranking.{IsReturned, no_less, hybrid_search_best}
use knowledgebase.Search.Lexical.{IsMatch, IsUnmatched, run_fts_complete}
use knowledgebase.Search.Request.{IsSpelling, IsColonFree, search_request, search_ignores_min_score}
use knowledgebase.Search.Served.{IsServed, IsCached, search_request-IsServed}
use knowledgebase.Search.Threshold.{IsResponse, run_search-IsResponse}

abbrev report : Document
report = record {
  id = 1;
  tenant_id = 9;
  filename = codes "r.txt";
  mime_type = codes "text/plain";
  minio_path = codes "9/1/r.txt";
  file_size = none;
  checksum = 1;
  parse_mode = none;
  status = DocStatus.indexed;
  page_count = none;
  is_tabular = false;
  table_schema = none;
  created_at = 0;
  updated_at = 0;
}

abbrev chunk : ℕ → ℕ → Chunk
chunk id tenant_id = record {
  id = id;
  document_id = 1;
  tenant_id = tenant_id;
  chunk_index = id;
  chunk_text = codes "revenue";
  token_count = 1;
  page_number = none;
  start_char = 0;
  end_char = 7;
  checksum = 1;
  vector_id = none;
  fts_vector = some (codes "revenue");
}

abbrev db : Db
db = record empty_db { documents = report ∷ []; chunks = chunk 5 9 ∷ chunk 6 8 ∷ [] }

abbrev scores : Scores ℕ
scores = record {
  nought = 0;
  plus = λ a b. a + b;
  at_least = λ a b. leb b a;
  vector_weighted = λ a. 6 * a;
  lexical_weighted = λ a. 4 * a;
  rounded = λ a. a;
}

abbrev embedder : Embedder ℕ
embedder = record {
  is_frozen = true;
  embed_backend = codes "ollama";
  embed_batch_size = 64;
  embed_ollama = λ texts. got (map (λ t. length t) texts);
  st_encode = none;
}

abbrev tabular : TabularServices ℕ
tabular = record {
  characters = record {
    upper = λ s. s;
    repr = λ s. s;
    same_letter = λ a b. a == b;
    is_word = λ c. true;
  };
  complete = λ call prompt. raised (codes "no model");
  http_status = λ e. none;
  sql_request = λ call sql. raised (codes "no database");
  number_text = λ n. n ∷ [];
  below_1e12 = λ f. true;
  fixed_text = λ f. [];
  exponent_text = λ f. [];
  max_result_rows = 100;
}

abbrev hits : List (Hit ℕ)
hits = record { point_id = 6; score = 9 } ∷ record { point_id = 5; score = 7 } ∷ []

-- The vector store returns the chunk of the other tenant too.
abbrev services : SearchServices ℕ ℕ ℕ
services = record {
  scores = scores;
  lower = λ s. s;
  embedder = embedder;
  vector_search = λ v tenant k document. got hits;
  fts_matches = λ q vector. true;
  ts_rank = λ q vector. 2;
  ilike = λ pattern text. true;
  str_uuid = λ n. (n + 100) ∷ [];
  as_uuid = λ s. raised (codes "invalid UUID");
  tabular = tabular;
  search_mode = codes "hybrid";
}

abbrev query : Query
query = record {
  query = codes "revenue";
  tenant_id = 9;
  mode = codes "hybrid";
  top_k = 10;
  document_id = none;
}

-- The chunk of the tenant has the score 6 · 7 + 4 · 2.
abbrev response : SearchResponse ℕ
response = record {
  results = item (chunk 5 9, report) 50 ∷ [];
  total = 1;
  search_mode_used = codes "hybrid";
}

ran : run_search services query 0 db ≡ got response
unfolding run_search embed_single
ran = refl

run_search-IsShown_example : All (IsShown 9 db) response.results
run_search-IsShown_example = run_search-IsShown services query 0 db response ran

run_search-IsResponse_example : IsResponse services query 0 db response
run_search-IsResponse_example = run_search-IsResponse services query 0 db response ran

fuse_lem_example : dict_get 5 (fuse services hits (((chunk 5 9, report), 2) ∷ [])) ≡ some 50
fuse_lem_example = fuse_lem services 5 hits (((chunk 5 9, report), 2) ∷ [])

run_fts_complete_example :
    All
      (IsMatch services 9 20 none db (codes "revenue"))
      (run_fts services (codes "revenue") 9 20 none db)
    × ((run_fts services (codes "revenue") 9 20 none db ≢ [])
        ⊎ All (IsUnmatched services 9 20 none db (codes "revenue")) (join db.chunks db.documents))
run_fts_complete_example = run_fts_complete services 9 20 none db (codes "revenue") (omega arith)

scores-IsOrder : IsOrder scores.at_least
scores-IsOrder = (λ x y e. ground arith, λ x y z e f. ground arith)

hybrid_search_best_example :
    (results : List (SearchResultItem ℕ)) × (hybrid_search services (codes "revenue") 9 10 none db
      ≡ got (results, codes "hybrid"))
    × (length results ≤ 10)
    × (Sorted (no_less services) results)
    × (IsReturned services 5 50 results ⊎ All (λ r. leb 50 r.score ≡ true) results)
unfolding embed_single run_fts dict_get add_rows add_hits
hybrid_search_best_example =
    hybrid_search_best services (codes "revenue") 9 10 none none db hits 7 (chunk 5 9) report 50
      scores-IsOrder (λ x y e. e) refl refl refl (inl refl) (inl refl) refl refl refl

abbrev spell : ℕ → Text
spell n = (n + 100) ∷ []

spell-IsSpelling : IsSpelling spell
spell-IsSpelling = ((λ n. ((λ e. omega arith), tt)), (λ m n e. ground arith))

hybrid-IsColonFree : IsColonFree (codes "hybrid")
hybrid-IsColonFree =
    ((λ e. cc), ((λ e. cc), ((λ e. cc), ((λ e. cc), ((λ e. cc), ((λ e. cc), tt))))))

abbrev after : List (Entry (SearchResponse ℕ))
after = record { key = cache_key spell spell query; stored_at = 6; response = response } ∷ []

abbrev outcome :
    ℕ
    → Db
    → ℕ
    → List (Entry (SearchResponse ℕ))
    → Option (SearchResponse ℕ × List (Entry (SearchResponse ℕ)))
outcome min_score db now cache =
    search_request (λ w. services) (λ w. w) 60 2 spell spell query min_score db now (suc now) cache

searched : outcome 0 db 5 [] ≡ some (response, after)
unfolding search_request embed_single exists
searched = refl

-- The database is empty by then, and the threshold is above all scores.
search_ignores_min_score_example : outcome 99 empty_db 20 after ≡ some (response, after)
unfolding first
search_ignores_min_score_example =
    search_ignores_min_score (λ w. services) (λ w. w) 60 2 spell spell query 0 99 db empty_db 5 6 20
      21 [] after response (omega arith) refl searched refl

search_request-IsServed_example :
    IsServed (λ (w : Db). services) (λ w. w) spell spell query response
    × All (λ e. IsCached (λ (w : Db). services) (λ w. w) spell spell e.key e.response) after
search_request-IsServed_example =
    search_request-IsServed (λ w. services) (λ w. w) spell spell 60 2 query 0 db 5 6 [] after
      response spell-IsSpelling spell-IsSpelling hybrid-IsColonFree tt tt searched

searched_in_cache :
    search 60 2 (cache_key spell spell query) (some response) 5 6 [] ≡ some (response, after)
unfolding search exists
searched_in_cache = refl

search_bounded_example : length after ≤ 2
unfolding first
search_bounded_example =
    search_bounded 60 2 (cache_key spell spell query) (some response) 5 6 [] after response
      (omega arith) (omega arith) refl (omega arith) searched_in_cache

-- A colon in a document id moves the border between the id and the text: these two queries have one key in the cache.
abbrev in_document : Text → Text → Query
in_document id text = record query {
  mode = codes "vector_only";
  document_id = some id;
  query = text;
}

one_key :
    cache_key spell spell (in_document (codes "U:x") (codes "y"))
    ≡ cache_key spell spell (in_document (codes "U") (codes "x:y"))
unfolding cache_key
one_key = refl
