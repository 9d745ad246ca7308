-- ===== src/Workers/Ingest.antt =====
-- `_process_ingest_job` and `_process_tabular_job` of app/workers/ingest_worker.py. The object store, the
-- tokenizer and sha256 are functions in `IngestServices`; the parsers are those of Parsing.antt, the profile of a table that of
-- Tabular/Profile.
use knowledgebase.Prelude.{
  ℕ, zero, suc, ◌+◌, ◌/◌, Bool, true, ◌&&◌, ◌||◌, Option, none, some, List, [], ◌∷◌, ◌++◌, map,
  length, ◌==◌, if◌then◌else◌,
}
use knowledgebase.Prelude.Text.{
  Text, codes, one_of, strip, strip_left, strip_right, until, extension,
}
use knowledgebase.Prelude.Attempt.{Fetched, got, raised}
use knowledgebase.Prelude.Table.{update, exists}
use knowledgebase.Models.{Uuid, Time, Digest, TableSchema, stage_payload, Document, Chunk, Detail}
use knowledgebase.Models.Status.{DocStatus, JobStage, StageName, StageStatus}
use knowledgebase.Models.Integrity.{has_document}
use knowledgebase.Pipeline.{System, update_stage}
use knowledgebase.Chunker.{ParsedDocument, Failure, Result, ok, err}
use knowledgebase.Chunker.Pages.{chunk_document, is_blank}
use knowledgebase.Parsing.{ParserServices, parse_document}
use knowledgebase.Tabular.Profile.{ProfilerServices, Profile, profile_tabular}
use knowledgebase.Ingest.{mark_document, enqueue_job}
use knowledgebase.Workers.{Task, ack_task, nack_task, stage_of, error_detail}

pub record IngestServices : Type 0 where
  pub lower : Text → Text
  pub number_text : ℕ → Text
  pub sha256 : Text → Digest
  pub to_tsvector : Text → Text
  pub failure_text : Failure → Text
  pub missing_document : Text
  pub download_file : Text → Fetched (List ℕ)
  pub parsers : ParserServices
  pub profiler : ProfilerServices
  pub encode : Text → Result (List ℕ)
  pub token_bytes : ℕ → List ℕ
  pub chunk_size : ℕ
  pub new_id : ℕ → Uuid

-- What the job says of its file.
pub record Source : Type 0 where
  pub filename : Text
  pub mime_type : Text
  pub minio_path : Text
  pub strategy : Text

-- A row for the table of chunks.
abbrev pub same_chunk : Chunk → Chunk → Bool
same_chunk c r = (r.document_id == c.document_id) && (r.chunk_index == c.chunk_index)

-- INSERT … ON CONFLICT (document_id, chunk_index) DO NOTHING
unfoldable pub insert_chunks : List Chunk → List Chunk → List Chunk
unfolding exists
insert_chunks [] rows = rows
insert_chunks (c ∷ cs) rows =
    insert_chunks cs (if exists (same_chunk c) rows then rows else rows ++ c ∷ [])

-- The column values that a job writes with the status.
abbrev pub described : Time → Text → Option ℕ → Document → Document
described now mode pages d = record d {
  status = DocStatus.chunked;
  page_count = pages;
  parse_mode = some mode;
  updated_at = now;
}

abbrev pub described_table : Time → TableSchema → Document → Document
described_table now schema d = record d {
  status = DocStatus.chunked;
  parse_mode = some (codes "tabular");
  is_tabular = true;
  table_schema = some schema;
  updated_at = now;
}

unfoldable pub total : List ℕ → ℕ
total [] = 0
total (n ∷ ns) = n + total ns

abbrev or_none : ℕ → Option ℕ
or_none zero = none
or_none (suc n) = some (suc n)

module _ (services : IngestServices) (now : Time) (next_job : Uuid) (task : Task) where
  abbrev stage : StageName → StageStatus → Option Detail → System → System
  stage = stage_of now task

  abbrev number : ℕ → Text
  number = services.number_text

  -- The handler of all exceptions: the parse stage is marked, whatever stage it was.
  unfoldable pub ingest_failed : Text → System → System
  unfolding update_stage mark_document nack_task
  ingest_failed error sys = nack_task now error task (
      mark_document now DocStatus.error task.document_id
        (stage StageName.parse StageStatus.failed (error_detail error) sys))

  unfoldable pub begin_parse : System → System
  unfolding update_stage mark_document
  begin_parse sys =
      mark_document now DocStatus.parsing task.document_id
        (stage StageName.parse StageStatus.processing none sys)

  -- A file without content: the job is done, and is not tried again.
  unfoldable pub give_up_stage : StageName → DocStatus → Detail → System → System
  unfolding update_stage mark_document ack_task
  give_up_stage at_stage status detail sys = ack_task task (
      mark_document now status task.document_id
        (stage at_stage StageStatus.failed (some detail) sys))

  -- The transaction that stores chunks and describes the document.
  unfoldable pub store_chunks : List Chunk → (Document → Document) → System → System
  unfolding insert_chunks update
  store_chunks rows describe sys = record sys {
    db = record sys.db {
      chunks = insert_chunks rows sys.db.chunks;
      documents = update (λ d. d.id == task.document_id) describe sys.db.documents;
    };
  }

  unfoldable pub hand_on : Detail → System → System
  unfolding update_stage enqueue_job ack_task
  hand_on detail sys = ack_task task (
      enqueue_job next_job now JobStage.embed task.document_id task.tenant_id
        (stage_payload task.document_id task.tenant_id)
        (stage StageName.chunk StageStatus.done (some detail) sys))

  -- Without its document, the insert violates the foreign key.
  unfoldable pub finish_ingest : List Chunk → (Document → Document) → Detail → System → System
  unfolding has_document store_chunks hand_on ingest_failed
  finish_ingest rows describe detail sys =
      if has_document task.document_id sys.db.documents
      then hand_on detail (store_chunks rows describe sys)
      else ingest_failed services.missing_document sys

  abbrev pub chunk_row : knowledgebase.Chunker.Chunk → Chunk
  chunk_row c = record {
    id = services.new_id c.chunk_index;
    document_id = task.document_id;
    tenant_id = task.tenant_id;
    chunk_index = c.chunk_index;
    chunk_text = c.text;
    token_count = c.token_count;
    page_number = c.page_number;
    start_char = c.start_char;
    end_char = c.end_char;
    checksum = c.checksum;
    vector_id = none;
    fts_vector = some (services.to_tsvector c.text);
  }

  abbrev chunk_detail : List knowledgebase.Chunker.Chunk → Detail
  chunk_detail cs =
      (codes "chunk_count", number (length cs))
      ∷ (codes "avg_tokens", number (total (map (λ c. c.token_count) cs) / length cs))
      ∷ []

  unfoldable pub store_result :
      ParsedDocument → Result (List knowledgebase.Chunker.Chunk) → System → System
  unfolding ingest_failed give_up_stage finish_ingest total
  store_result parsed (err e) sys = ingest_failed (services.failure_text e) sys
  store_result parsed (ok []) sys =
      give_up_stage StageName.chunk DocStatus.chunk_failed
        ((codes "error", codes "No chunks produced") ∷ []) sys
  store_result parsed (ok (c ∷ cs)) sys =
      finish_ingest (map chunk_row (c ∷ cs))
        (described now parsed.parse_mode (or_none (length parsed.pages))) (chunk_detail (c ∷ cs))
        sys

  abbrev parse_detail : ParsedDocument → Detail
  parse_detail parsed =
      (codes "parse_mode", parsed.parse_mode)
      ∷ (codes "char_count", number parsed.char_count)
      ∷ (codes "page_count", number (length parsed.pages))
      ∷ []

  unfoldable pub store_parsed : Fetched ParsedDocument → System → System
  unfolding ingest_failed give_up_stage is_blank update_stage chunk_document store_result
  store_parsed (raised error) sys = ingest_failed error sys
  store_parsed (got parsed) sys =
      if is_blank parsed.raw_text
      then give_up_stage StageName.parse DocStatus.parse_failed
          ((codes "error", codes "Empty text after parsing")
            ∷ (codes "parse_mode", parsed.parse_mode)
            ∷ [])
          sys
      else store_result parsed
          (chunk_document services.sha256 services.encode services.token_bytes services.chunk_size
            parsed)
          (stage StageName.chunk StageStatus.processing none
            (stage StageName.parse StageStatus.done (some (parse_detail parsed)) sys))

  abbrev parse_file : Source → Fetched (List ℕ) → Fetched ParsedDocument
  parse_file source (raised error) = raised error
  parse_file source (got bytes) =
      parse_document services.parsers source.filename bytes source.mime_type source.strategy

  abbrev summary : Profile → Chunk
  summary p = record {
    id = services.new_id 0;
    document_id = task.document_id;
    tenant_id = task.tenant_id;
    chunk_index = 0;
    chunk_text = p.summary_text;
    token_count = p.word_count;
    page_number = none;
    start_char = 0;
    end_char = length p.summary_text;
    checksum = services.sha256 p.summary_text;
    vector_id = none;
    fts_vector = some (services.to_tsvector p.summary_text);
  }

  abbrev sheet : TableSchema → Text
  sheet schema = elim schema.sheet_name [ none ↦ [] | some s ↦ s ]

  unfoldable pub store_table : Fetched Profile → System → System
  unfolding ingest_failed update_stage finish_ingest
  store_table (raised error) sys = ingest_failed error sys
  store_table (got p) sys =
      finish_ingest (summary p ∷ []) (described_table now p.schema)
        ((codes "chunk_count", number 1) ∷ (codes "row_count", number p.schema.row_count) ∷ [])
        (stage StageName.chunk StageStatus.processing none (
          stage StageName.parse StageStatus.done
            (some (
              (codes "parse_mode", codes "tabular")
              ∷ (codes "row_count", number p.schema.row_count)
              ∷ (codes "col_count", number (length p.schema.columns))
              ∷ (codes "sheet_name", sheet p.schema)
              ∷ []))
            sys))

  abbrev profile_file : Source → Fetched (List ℕ) → Fetched Profile
  profile_file source (raised error) = raised error
  profile_file source (got bytes) =
      profile_tabular services.profiler source.filename bytes source.mime_type

  -- is_tabular of app/ingestion/tabular_profiler.py
  unfoldable pub is_tabular : Source → Bool
  unfolding one_of strip_left strip_right until extension
  is_tabular source =
      one_of (strip (until b';' (services.lower source.mime_type))) (
        codes "text/csv"
        ∷ codes "text/tab-separated-values"
        ∷ codes "application/csv"
        ∷ codes "application/vnd.ms-excel"
        ∷ codes "application/vnd.openxmlformats-officedocument.spreadsheetml.sheet"
        ∷ [])
      || one_of (extension (services.lower source.filename))
          (codes ".csv" ∷ codes ".tsv" ∷ codes ".xlsx" ∷ codes ".xls" ∷ [])

  unfoldable pub process_ingest_job : Source → System → System
  unfolding is_tabular store_table store_parsed begin_parse
  process_ingest_job source sys =
      if is_tabular source
      then store_table (profile_file source (services.download_file source.minio_path))
          (begin_parse sys)
      else store_parsed (parse_file source (services.download_file source.minio_path))
          (begin_parse sys)
