-- ===== src/Workers/Examples.antt =====
-- Jobs of the index and embed workers for the one document of the samples, and the theorems there.
use knowledgebase.Prelude.{
  leb, false, ◌&&◌, ℕ, ◌≡◌, refl, true, none, some, All, List, [], ◌∷◌, ◌+◌, ◌++◌, length, String,
  ◌==◌,
}
use knowledgebase.Prelude.Text.{Text, codes, one_of}
use knowledgebase.Prelude.Table.{select, exists}
use knowledgebase.Models.{Chunk}
use knowledgebase.Models.Status.{DocStatus, Role}
use knowledgebase.Models.Samples.{sample_report, one_document}
use knowledgebase.Pipeline.{System}
use knowledgebase.Access.{answered, AuthContext}
use knowledgebase.Ingest.Mime.{allowed_mime, detect_mime}
use knowledgebase.Ingest.{Services, Fresh, UploadFile, is_duplicate, upload_document}
use knowledgebase.Workers.{Task, writing, EmbedServices, of_task, process_index_job}
use knowledgebase.Chunker.{ok}
use knowledgebase.Prelude.Attempt.{got, raised}
use knowledgebase.Startup.{new_registry}
use knowledgebase.Workers.Ingest.{IngestServices, same_chunk, store_chunks}
use knowledgebase.Workers.Chunks.{IsNew, store_chunks_lem}
use knowledgebase.Workers.Index.{index_complete}
use knowledgebase.Workers.Stuck.{index_failure_unnoticed}

abbrev digits : ℕ → Text
digits n = n ∷ []

abbrev words : Text → Text
words s = s

abbrev task : Task
task = record { job_id = 20; document_id = 1; tenant_id = 9 }

abbrev first_chunk : Chunk
first_chunk = record {
  id = 70;
  document_id = 1;
  tenant_id = 9;
  chunk_index = 0;
  chunk_text = codes "some text";
  token_count = 2;
  page_number = none;
  start_char = 0;
  end_char = 9;
  checksum = 5;
  vector_id = none;
  fts_vector = none;
}

abbrev sys : System
sys = record {
  db = record one_document {
    tenants = record { id = 9; name = codes "team" } ∷ [];
    chunks = first_chunk ∷ [];
  };
  bus = [];
}

index_complete_example :
    All
      (λ d. (d.id == 1) ≡ true → d.status ≡ DocStatus.indexed)
      (process_index_job digits words 50 task none sys).db.documents
    × All
        (λ c. of_task task c ≡ true → c.fts_vector ≡ some c.chunk_text)
        (process_index_job digits words 50 task none sys).db.chunks
index_complete_example = index_complete digits words 50 task sys

-- A stand-in for the digest: 74 more than the length.
abbrev services : Services
services = record {
  sha256 = λ c. 74 + length c;
  lower = λ s. s;
  guess = λ c. none;
  uuid_text = λ id. id ∷ [];
  number_text = digits;
  put_object = λ path content mime. true;
}

abbrev fresh : Fresh
fresh = record { now = 100; document_id = 2; job_id = 21; purge_job_id = 22 }

abbrev editor : AuthContext
editor = record { key_id = 5; tenant_id = 9; role = Role.editor }

abbrev file : UploadFile
file = record {
  content = 1 ∷ 2 ∷ 3 ∷ [];
  filename = some (codes "report.pdf");
  content_type = some (codes "application/pdf");
}

found : select (is_duplicate 77 9) sys.db.documents ≡ sample_report ∷ []
unfolding select is_duplicate
found = refl

mime_allowed :
    one_of
      (detect_mime
        (λ s. s)
        (λ c. none)
        (1 ∷ 2 ∷ 3 ∷ [])
        (codes "application/pdf")
        (codes "report.pdf"))
      allowed_mime
    ≡ true
unfolding one_of detect_mime allowed_mime
mime_allowed = refl

index_failure_unnoticed_example :
    (s : DocStatus) × (m : String) × (upload_document services fresh editor none file
        (process_index_job digits words 50 task (some (writing (codes "timeout"))) sys)
      ≡ (
        answered (record { document_id = 1; status = s; message = m }),
        process_index_job digits words 50 task (some (writing (codes "timeout"))) sys,
      ))
index_failure_unnoticed_example =
    index_failure_unnoticed digits words 50 task (codes "timeout") services fresh editor none file
      sys sample_report found refl refl mime_allowed

-- A model service that does not answer.
abbrev embedder : EmbedServices ℕ
embedder = record {
  embedder = record {
    is_frozen = true;
    embed_backend = codes "ollama";
    embed_batch_size = 64;
    embed_ollama = λ texts. raised (codes "timeout");
    st_encode = none;
  };
  upsert_batch = λ ps. none;
  recreate_collection = none;
  upsert_again = λ ps. none;
  backend = codes "qdrant";
  number_text = digits;
  others = λ s. s;
}

-- A stand-in for the parsers and the stores.
abbrev parsing : IngestServices
parsing = record {
  lower = words;
  number_text = digits;
  sha256 = λ s. length s;
  to_tsvector = words;
  failure_text = λ e. codes "failure";
  missing_document = codes "missing";
  download_file = λ path. got (codes "file");
  parsers = record {
    registry = new_registry;
    pool_ready = false;
    lower = words;
    sha256 = λ s. length s;
    decode = words;
    pdf_texts = λ bytes. raised (codes "no parser");
    docx_paragraphs = λ bytes. raised (codes "no parser");
    html_text = λ tags bytes. raised (codes "no parser");
    unstructured_api = λ name bytes mime strategy. raised (codes "no parser");
    unstructured_local = λ name bytes mime strategy. raised (codes "no parser");
  };
  profiler = record {
    lower = words;
    is_digit = λ c. leb b'0' c && leb c b'9';
    number_text = digits;
    decode = words;
    csv_reader = λ s. raised (codes "no table");
    xlsx_to_csv = λ bytes. raised (codes "no table");
  };
  encode = λ s. ok s;
  token_bytes = digits;
  chunk_size = 64;
  new_id = λ i. 80 + i;
}

-- A new text at the index of the first chunk, and one at the next index.
abbrev new_first : Chunk
new_first = record first_chunk { id = 80; chunk_text = codes "new text" }

abbrev second_chunk : Chunk
second_chunk = record first_chunk { id = 81; chunk_index = 1; chunk_text = codes "more text" }

known_index : exists (same_chunk new_first) sys.db.chunks ≡ true
unfolding exists
known_index = refl

store_chunks_lem_example :
    ((new : List Chunk) × ((store_chunks parsing 50 30 task
          (new_first ∷ second_chunk ∷ [])
          (λ d. d)
          sys).db.chunks
        ≡ sys.db.chunks ++ new)
      × All (IsNew (new_first ∷ second_chunk ∷ []) sys.db.chunks) new)
    × All
        (λ c.
          exists
            (same_chunk c)
            (store_chunks parsing 50 30 task (new_first ∷ second_chunk ∷ []) (λ d. d) sys).db.chunks
          ≡ true)
        (new_first ∷ second_chunk ∷ [])
store_chunks_lem_example =
    store_chunks_lem parsing 50 30 task (new_first ∷ second_chunk ∷ []) (λ d. d) sys
