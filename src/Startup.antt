-- ===== src/Startup.antt =====
-- app/core/startup.py and app/core/registry.py: the probes that run once before the server accepts requests, and the registry
-- that they fill and freeze. What the services answer is in `Probed`; the collections of a vector
-- store are their names with their dimensions.
pub mod Ready
mod Examples
use knowledgebase.Prelude.{
  ℕ, Bool, true, false, ◌||◌, Option, none, some, List, [], ◌∷◌, ◌++◌, map, length, ◌==◌, ltb,
  if◌then◌else◌,
}
use knowledgebase.Prelude.Text.{Text, codes, same_text, one_of}
use knowledgebase.Prelude.Attempt.{Fetched, got, raised, and_then}
use knowledgebase.Prelude.Table.{first, delete}

pub record ServiceRegistry : Type 0 where
  pub parse_backend : Text
  pub embed_backend : Text
  pub embed_dimension : ℕ
  pub embed_model_name : Text
  pub vector_backend : Text
  pub search_mode : Text
  pub frozen : Bool

abbrev pub new_registry : ServiceRegistry
new_registry = record {
  parse_backend = codes "local_parsers";
  embed_backend = codes "sentence_transformers";
  embed_dimension = 384;
  embed_model_name = codes "all-MiniLM-L6-v2";
  vector_backend = codes "chroma";
  search_mode = codes "fts_only";
  frozen = false;
}

unfoldable pub freeze : ServiceRegistry → ServiceRegistry
freeze registry = record registry { frozen = true }

abbrev pub Collections : Type 0
Collections = List (Text × ℕ)

-- The status and the body of a reply of Ollama: the embeddings are a list of vectors of numbers of the type F.
pub record OllamaReply (F : Type 0) : Type 0 where
  pub status_code : ℕ
  pub embeddings : Option (List (List F))

-- The settings and the answers of the services.
pub record Probed (F : Type 0) : Type 0 where
  pub unstructured_api_url : Text
  pub unstructured_api_status : Fetched ℕ
  pub unstructured_local_url : Text
  pub unstructured_local_status : Fetched ℕ
  pub ollama_embed_model : Text
  pub ollama_reply : Fetched (OllamaReply F)
  pub st_model : Text
  pub st_dimension : Fetched ℕ
  pub qdrant_url : Text
  pub qdrant_collection : Text
  pub qdrant_answers : Fetched (Unit {0})
  pub qdrant_closes : Fetched (Unit {0})
  pub qdrant_deletes : Fetched (Unit {0})
  pub qdrant_creates : Fetched (Unit {0})
  pub chroma_creates : Fetched (Unit {0})

abbrev is_ok : Fetched ℕ → Bool
is_ok (got status) = status == 200
is_ok (raised e) = false

abbrev probe_url : Text → Fetched ℕ → Bool
probe_url [] status = false
probe_url (c ∷ url) status = is_ok status

abbrev has_name : Text → Text × ℕ → Bool
has_name name c = same_text c.0 name

module _ {F : Type 0} (probed : Probed F) where
  unfoldable pub probe_unstructured_api : Bool
  probe_unstructured_api = probe_url probed.unstructured_api_url probed.unstructured_api_status

  unfoldable pub probe_local_unstructured : Bool
  probe_local_unstructured =
      probe_url probed.unstructured_local_url probed.unstructured_local_status

  abbrev dimension_of : Option (List (List F)) → Option ℕ
  dimension_of none = none
  dimension_of (some []) = none
  dimension_of (some (v ∷ vectors)) = if ltb 0 (length v) then some (length v) else none

  -- The dimension, if Ollama is there.
  unfoldable pub probe_ollama : Option ℕ
  probe_ollama = elim probed.ollama_reply [
    | raised e ↦ none
    | got r ↦ if r.status_code == 200 then dimension_of r.embeddings else none
  ]

  -- Whether the calls all returned, and the collections that are left.
  abbrev Outcome : Type 0
  Outcome = Bool × Collections

  abbrev create_collection : ℕ → Collections → Outcome
  create_collection dim stored = elim probed.qdrant_creates [
    | raised e ↦ (false, stored)
    | got t ↦ (true, stored ++ (probed.qdrant_collection, dim) ∷ [])
  ]

  unfoldable pub recreate : ℕ → Collections → Outcome
  unfolding delete same_text
  recreate dim stored = elim probed.qdrant_deletes [
    | raised e ↦ (false, stored)
    | got t ↦ create_collection dim (delete (has_name probed.qdrant_collection) stored)
  ]

  abbrev checked_collection : ℕ → Collections → Option (Text × ℕ) → Outcome
  checked_collection dim stored none = create_collection dim stored
  checked_collection dim stored (some existing) =
      if existing.1 == dim then (true, stored) else recreate dim stored

  abbrev reached : ℕ → Collections → Fetched (Unit {0}) → Outcome
  reached dim stored (raised e) = (false, stored)
  reached dim stored (got t) =
      checked_collection dim stored (first (has_name probed.qdrant_collection) stored)

  -- Closing the client may raise too, when the collection is already there.
  abbrev pub closed : Outcome → Outcome
  closed (false, stored) = (false, stored)
  closed (true, stored) = elim probed.qdrant_closes [
    | raised e ↦ (false, stored)
    | got t ↦ (true, stored)
  ]

  unfoldable pub probe_qdrant : ℕ → Collections → Outcome
  unfolding recreate first same_text
  probe_qdrant dim stored = elim probed.qdrant_url [
    | [] ↦ (false, stored)
    | ◌∷◌ c url ↦ closed (reached dim stored probed.qdrant_answers)
  ]

  abbrev created : ℕ → Collections → Fetched (Unit {0}) → Fetched Collections
  created dim stored (raised e) = raised e
  created dim stored (got t) = got (stored ++ (probed.qdrant_collection, dim) ∷ [])

  unfoldable pub init_chroma : ℕ → Collections → Fetched Collections
  unfolding one_of
  init_chroma dim stored =
      if one_of probed.qdrant_collection (map (λ c. c.0) stored)
      then got stored
      else created dim stored probed.chroma_creates

  abbrev parsing : ServiceRegistry → ServiceRegistry
  parsing registry =
      if probe_unstructured_api
      then record registry { parse_backend = codes "unstructured_api" }
      else if probe_local_unstructured
      then record registry { parse_backend = codes "local_unstructured" }
      else record registry { parse_backend = codes "local_parsers" }

  abbrev transformers : ServiceRegistry → Fetched ℕ → Fetched ServiceRegistry
  transformers registry (raised e) = raised e
  transformers registry (got dim) = got (record registry {
    embed_backend = codes "sentence_transformers";
    embed_dimension = dim;
    embed_model_name = probed.st_model;
  })

  abbrev embedding : ServiceRegistry → Option ℕ → Fetched ServiceRegistry
  embedding registry (some dim) = got (record registry {
    embed_backend = codes "ollama";
    embed_dimension = dim;
    embed_model_name = probed.ollama_embed_model;
  })
  embedding registry none = transformers registry probed.st_dimension

  -- The registry with the collections of Qdrant and of Chroma.
  abbrev pub Started : Type 0
  Started = ServiceRegistry × Collections × Collections

  abbrev fallen_back : ServiceRegistry → Collections → Fetched Collections → Fetched Started
  fallen_back registry qdrant (raised e) = raised e
  fallen_back registry qdrant (got chroma) =
      got (record registry { vector_backend = codes "chroma" }, qdrant, chroma)

  abbrev storing : ServiceRegistry → Collections → Outcome → Fetched Started
  storing registry chroma (true, qdrant) =
      got (record registry { vector_backend = codes "qdrant" }, qdrant, chroma)
  storing registry chroma (false, qdrant) =
      fallen_back registry qdrant (init_chroma registry.embed_dimension chroma)

  abbrev mode_of : Text → Text
  mode_of vector_backend =
      if one_of vector_backend (codes "qdrant" ∷ codes "chroma" ∷ [])
      then codes "hybrid"
      else codes "fts_only"

  abbrev pub finished : Started → Fetched Started
  finished (registry, qdrant, chroma) =
      got
        (freeze (record registry { search_mode = mode_of registry.vector_backend }), qdrant, chroma)

  abbrev pub stored_in : Collections → Collections → ServiceRegistry → Fetched Started
  stored_in qdrant chroma registry =
      storing registry chroma (probe_qdrant registry.embed_dimension qdrant)

  unfoldable pub run_startup_probes : Collections → Collections → Fetched Started
  unfolding probe_unstructured_api probe_local_unstructured probe_ollama probe_qdrant init_chroma
      freeze one_of
  run_startup_probes qdrant chroma =
      and_then (and_then (embedding (parsing new_registry) probe_ollama) (stored_in qdrant chroma))
        finished
