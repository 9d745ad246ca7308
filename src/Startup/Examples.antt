-- ===== src/Startup/Examples.antt =====
-- A start with Ollama, whose model has changed its dimension since the last one, and with Qdrant.
use knowledgebase.Prelude.{ℕ, ◌≡◌, refl, true, some, [], ◌∷◌}
use knowledgebase.Prelude.Text.{codes}
use knowledgebase.Prelude.Attempt.{got, raised}
use knowledgebase.Startup.{Probed, Started, run_startup_probes}
use knowledgebase.Startup.Ready.{IsReady, run_startup_probes-IsReady}

abbrev probed : Probed ℕ
probed = record {
  unstructured_api_url = [];
  unstructured_api_status = raised (codes "no url");
  unstructured_local_url = codes "http://unstructured";
  unstructured_local_status = got 200;
  ollama_embed_model = codes "nomic";
  ollama_reply = got (record { status_code = 200; embeddings = some ((1 ∷ 2 ∷ []) ∷ []) });
  st_model = codes "minilm";
  st_dimension = got 384;
  qdrant_url = codes "http://qdrant";
  qdrant_collection = codes "kb";
  qdrant_answers = got tt;
  qdrant_closes = got tt;
  qdrant_deletes = got tt;
  qdrant_creates = got tt;
  chroma_creates = got tt;
}

abbrev started : Started probed
started = (
  record {
    parse_backend = codes "local_unstructured";
    embed_backend = codes "ollama";
    embed_dimension = 2;
    embed_model_name = codes "nomic";
    vector_backend = codes "qdrant";
    search_mode = codes "hybrid";
    frozen = true;
  },
  (codes "kb", 2) ∷ [],
  [],
)

ran : run_startup_probes probed ((codes "kb", 384) ∷ []) [] ≡ got started
unfolding run_startup_probes
ran = refl

run_startup_probes-IsReady_example : IsReady probed started
run_startup_probes-IsReady_example =
    run_startup_probes-IsReady probed ((codes "kb", 384) ∷ []) [] started ran
