-- ===== src/Workers.antt =====
-- app/workers/index_worker.py and app/workers/embed_worker.py: what a worker does with one job. The
-- services that a worker calls are a record of functions, whose results are values: `some e` for an
-- exception with the text `e`. A clock reading is an argument.
pub mod Ingest
pub mod Chunks
pub mod Index
pub mod Restart
pub mod Stuck
mod Examples
use knowledgebase.Prelude.{
  ℕ, suc, Bool, true, false, not, ◌&&◌, ◌||◌, Option, none, some, List, [], ◌∷◌, ◌++◌, map, take,
  length, ◌==◌, if◌then◌else◌,
}
use knowledgebase.Prelude.Text.{Text, codes, starts_with}
use knowledgebase.Prelude.Attempt.{Fetched, got, raised}
use knowledgebase.Embedding.{Embedder, embed_batch}
use knowledgebase.Prelude.Table.{select, update, count, exists, order_asc}
use knowledgebase.Models.{Uuid, Time, Digest, stage_payload, Document, Chunk, Db, Detail}
use knowledgebase.Models.Status.{DocStatus, JobStage, StageName, StageStatus, same_doc_status}
use knowledgebase.Queue.{ack, nack}
use knowledgebase.Pipeline.{System, update_stage}
use knowledgebase.Access.{Lookup, nothing, one, many, one_or_none}
use knowledgebase.Ingest.{is_status, mark_document, enqueue_job}

-- The job that a worker holds.
pub record Task : Type 0 where
  pub job_id : Uuid
  pub document_id : Uuid
  pub tenant_id : Uuid

unfoldable pub ack_task : Task → System → System
unfolding ack
ack_task task sys = record sys { db = ack task.job_id sys.db }

unfoldable pub nack_task : Time → Text → Task → System → System
unfolding nack
nack_task now error task sys = record sys { db = nack now task.job_id error sys.db }

abbrev pub stage_of : Time → Task → StageName → StageStatus → Option Detail → System → System
stage_of now task stage status detail sys =
    update_stage now task.document_id task.tenant_id stage status detail sys

abbrev pub error_detail : Text → Option Detail
error_detail error = some ((codes "error", error) ∷ [])

abbrev pub of_task : Task → Chunk → Bool
of_task task c = (c.document_id == task.document_id) && (c.tenant_id == task.tenant_id)

-- The call of `_process_index_job` that raises, with the text of the exception.
pub data IndexFailure : Type 0 where
  starting writing reporting acknowledging : Text → IndexFailure

-- The `except` branch.
unfoldable pub index_failed : Time → Task → Text → System → System
unfolding update_stage nack_task
index_failed now task error sys =
    nack_task now error task
      (stage_of now task StageName.index StageStatus.failed (error_detail error) sys)

module _ (number_text : ℕ → Text) (to_tsvector : Text → Text) where
  -- The transaction that fills the search column and marks the document.
  unfoldable pub index_chunks : Time → Task → System → System
  unfolding update mark_document
  index_chunks now task sys = mark_document now DocStatus.indexed task.document_id (record sys {
    db = record sys.db {
      chunks =
          update (of_task task) (λ c. record c { fts_vector = some (to_tsvector c.chunk_text) })
            sys.db.chunks;
    };
  })

  -- The exception is raised by the first stage update, the transaction, the second stage update or the acknowledgement: what came before it is
  -- kept, and the call that raises writes nothing. The two calls of the `except` branch return.
  unfoldable pub process_index_job : Time → Task → Option IndexFailure → System → System
  unfolding update_stage index_chunks count ack_task nack_task
  process_index_job now task failure sys =
      let started = stage_of now task StageName.index StageStatus.processing none sys in
      let updated = count (of_task task) started.db.chunks in
      let written = index_chunks now task started in
      let reported =
        stage_of now task StageName.index StageStatus.done
          (some ((codes "fts_updated", number_text updated) ∷ [])) written in
      elim failure [
        | none ↦ ack_task task reported
        | some (starting error) ↦ index_failed now task error sys
        | some (writing error) ↦ index_failed now task error started
        | some (reporting error) ↦ index_failed now task error written
        | some (acknowledging error) ↦ index_failed now task error reported
      ]

pub record VectorPoint (V : Type 0) : Type 0 where
  pub point_id : Uuid
  pub vector : V
  pub document_id : Uuid
  pub tenant_id : Uuid
  pub chunk_index : ℕ
  pub page_number : Option ℕ
  pub start_char : ℕ
  pub end_char : ℕ
  pub checksum : Digest
  pub text_preview : Text

-- The two writes to the vector store are the first one and the one after the collection was made
-- again; `others` is what the rest of the system does while the vectors are computed and written.
pub record EmbedServices (V : Type 0) : Type 0 where
  pub embedder : Embedder V
  pub upsert_batch : List (VectorPoint V) → Option Text
  pub recreate_collection : Option Text
  pub upsert_again : List (VectorPoint V) → Option Text
  pub backend : Text
  pub number_text : ℕ → Text
  pub others : System → System

-- `p in s`
unfoldable pub contains : Text → Text → Bool
contains p [] = starts_with p []
contains p (c ∷ s) = starts_with p (c ∷ s) || contains p s

module _ {V : Type 0} (services : EmbedServices V) where
  abbrev pub point : Task → Chunk → V → VectorPoint V
  point task c v = record {
    point_id = c.id;
    vector = v;
    document_id = task.document_id;
    tenant_id = task.tenant_id;
    chunk_index = c.chunk_index;
    page_number = c.page_number;
    start_char = c.start_char;
    end_char = c.end_char;
    checksum = c.checksum;
    text_preview = take 256 c.chunk_text;
  }

  unfoldable pub points : Task → List Chunk → List V → List (VectorPoint V)
  points task (c ∷ cs) (v ∷ vs) = point task c v ∷ points task cs vs
  points task _ _ = []

  abbrev again : List (VectorPoint V) → Option Text → Option Text
  again ps (some error) = some error
  again ps none = services.upsert_again ps

  abbrev handled : List (VectorPoint V) → Option Text → Option Text
  handled ps none = none
  handled ps (some error) =
      if contains (codes "Vector dimension error") error || contains (codes "expected dim") error
      then again ps services.recreate_collection
      else some error

  -- The exception that is left, if any, after a wrong dimension has been mended.
  unfoldable pub store_points : List (VectorPoint V) → Option Text
  unfolding contains
  store_points ps = handled ps (services.upsert_batch ps)

  unfoldable pub embed_failed : Time → Task → Text → System → System
  unfolding update_stage mark_document nack_task
  embed_failed now task error sys = nack_task now error task (
      mark_document now DocStatus.embed_failed task.document_id
        (stage_of now task StageName.embed StageStatus.failed (error_detail error) sys))

  abbrev has_chunk : System → Chunk → Bool
  has_chunk sys c = exists (λ x. x.id == c.id) sys.db.chunks

  abbrev all_there : System → List Chunk → Bool
  all_there sys [] = true
  all_there sys (c ∷ cs) = has_chunk sys c && all_there sys cs

  abbrev link : List Chunk → Chunk → Chunk
  link rows c = if exists (λ r. r.id == c.id) rows then record c { vector_id = some c.id } else c

  -- The chunks get their vector ids. A chunk that is gone raises StaleDataError, and the job is done.
  unfoldable pub embed_finish : Time → Uuid → Task → List Chunk → System → System
  unfolding exists update mark_document update_stage enqueue_job ack_task
  embed_finish now next_job task rows sys =
      if all_there sys rows
      then ack_task task (
          enqueue_job next_job now JobStage.index task.document_id task.tenant_id
            (stage_payload task.document_id task.tenant_id)
            (stage_of now task StageName.embed StageStatus.done
              (some (
                (codes "vector_count", services.number_text (length rows))
                ∷ (codes "backend", services.backend)
                ∷ []))
              (mark_document now DocStatus.embedded task.document_id
                (record sys { db = record sys.db { chunks = map (link rows) sys.db.chunks } }))))
      else ack_task task sys

  abbrev mismatch : ℕ → ℕ → Text
  mismatch given asked =
      codes "Embed count mismatch: "
      ++ services.number_text given
      ++ codes " vs "
      ++ services.number_text asked

  -- The vectors are checked and stored.
  unfoldable pub embed_store : Time → Uuid → Task → List Chunk → Fetched (List V) → System → System
  unfolding store_points points embed_failed embed_finish
  embed_store now next_job task rows (raised error) sys = embed_failed now task error sys
  embed_store now next_job task rows (got vs) sys =
      if not (length vs == length rows)
      then embed_failed now task (mismatch (length vs) (length rows)) sys
      else elim (store_points (points task rows vs)) [
        | some error ↦ embed_failed now task error sys
        | none ↦ embed_finish now next_job task rows sys
      ]

  unfoldable pub embed_rows : Task → System → List Chunk
  unfolding select order_asc
  embed_rows task sys = order_asc (λ c. c.chunk_index) (select (of_task task) sys.db.chunks)

  unfoldable pub no_chunks : Time → Task → System → System
  unfolding update_stage mark_document ack_task
  no_chunks now task sys = ack_task task (
      mark_document now DocStatus.embed_failed task.document_id (
        stage_of now task StageName.embed StageStatus.failed
          (error_detail (codes "No chunks found")) sys))

  unfoldable pub embed_start : Time → Task → System → System
  unfolding update_stage mark_document
  embed_start now task sys =
      mark_document now DocStatus.embedding task.document_id
        (stage_of now task StageName.embed StageStatus.processing none sys)

  -- The rest of the job once its stage has started.
  unfoldable pub embed_found : Time → Uuid → Task → System → System
  unfolding embed_rows no_chunks embed_store
  embed_found now next_job task started = elim (embed_rows task started) [
    | [] ↦ no_chunks now task started
    | ◌∷◌ c cs ↦
        embed_store now next_job task (c ∷ cs)
          (embed_batch services.embedder (map (λ r. r.chunk_text) (c ∷ cs)))
          (services.others started)
  ]

  unfoldable pub process_embed_job : Time → Uuid → Task → System → System
  unfolding exists embed_start embed_found ack_task same_doc_status
  process_embed_job now next_job task sys =
      if exists (λ d. (d.id == task.document_id) && not (is_status DocStatus.deleted d))
        sys.db.documents
      then embed_found now next_job task (embed_start now task sys)
      else ack_task task sys
