-- ===== src/Ingest.antt =====
-- app/api/routes/ingest.py: uploading a document and processing it again. A handler runs as a whole
-- on the system; of its clock readings none is compared with another, so one is enough. What the
-- handlers use and the repository does not hold is a record of functions, `Services`.
pub mod Mime
pub mod Effect
pub mod Unique
pub mod Again
pub mod Uploads
pub mod Reprocess
pub mod Failure
mod Examples
use knowledgebase.Prelude.{
  ℕ, ◌*◌, Bool, true, false, not, ◌&&◌, ◌||◌, String, Option, none, some, List, [], ◌∷◌, ◌++◌,
  length, ltb, ◌==◌, if◌then◌else◌,
}
use knowledgebase.Prelude.Text.{Text, codes, same_text, one_of}
use knowledgebase.Prelude.Table.{select, update, exists}
use knowledgebase.Models.{
  Uuid, Time, Digest, Payload, ingest_payload, purge_payload, Document, AuditAction, AuditLog, Db,
  Detail,
}
use knowledgebase.Models.Status.{DocStatus, JobStage, StageName, StageStatus, same_doc_status}
use knowledgebase.Models.Integrity.{has_document}
use knowledgebase.Queue.{enqueue, default_attempts}
use knowledgebase.Pipeline.{System, update_stage}
use knowledgebase.Access.{
  Answer, answered, http_error, multiple_results, integrity_error, storage_error, Lookup, nothing,
  one, many, one_or_none, AuthContext,
}
use knowledgebase.Ingest.Mime.{allowed_mime, detect_mime}

-- sha256, str.lower, filetype.guess, the spelling of ids and numbers, and whether the object store takes a file.
pub record Services : Type 0 where
  pub sha256 : List ℕ → Digest
  pub lower : Text → Text
  pub guess : List ℕ → Option Text
  pub uuid_text : Uuid → Text
  pub number_text : ℕ → Text
  pub put_object : Text → List ℕ → Text → Bool

-- The clock reading and the new ids of a request.
pub record Fresh : Type 0 where
  pub now : Time
  pub document_id : Uuid
  pub job_id : Uuid
  pub purge_job_id : Uuid

pub record UploadFile : Type 0 where
  pub content : List ℕ
  pub filename : Option Text
  pub content_type : Option Text

pub record IngestResponse : Type 0 where
  pub document_id : Uuid
  pub status : DocStatus
  pub message : String

abbrev pub max_file_size : ℕ
max_file_size = 100 * 1024 * 1024

-- _FAILED_STATUSES
abbrev pub has_failed : DocStatus → Bool
has_failed DocStatus.failed = true
has_failed DocStatus.error = true
has_failed DocStatus.parse_failed = true
has_failed DocStatus.chunk_failed = true
has_failed DocStatus.embed_failed = true
has_failed DocStatus.index_failed = true
has_failed _ = false

abbrev pub upload_name : Option Text → Text
upload_name none = codes "upload"
upload_name (some []) = codes "upload"
upload_name (some (c ∷ s)) = c ∷ s

abbrev pub or_blank : Option Text → Text
or_blank none = []
or_blank (some s) = s

abbrev pub strategy_of : Option Text → Text
strategy_of none = codes "fast"
strategy_of (some s) =
    if one_of s (codes "fast" ∷ codes "hi_res" ∷ codes "ocr_only" ∷ codes "auto" ∷ [])
    then s
    else codes "fast"

abbrev pub is_status : DocStatus → Document → Bool
is_status s d = same_doc_status d.status s

unfoldable pub is_duplicate : Digest → Uuid → Document → Bool
unfolding same_doc_status
is_duplicate checksum tenant_id d =
    (d.checksum == checksum) && (d.tenant_id == tenant_id) && not (is_status DocStatus.deleted d)

unfoldable pub is_namesake : Text → Uuid → Document → Bool
unfolding same_doc_status same_text
is_namesake filename tenant_id d =
    same_text d.filename filename
    && (d.tenant_id == tenant_id)
    && not (is_status DocStatus.deleted d)
    && not (is_status DocStatus.deleting d)

unfoldable pub set_status : Time → DocStatus → Document → Document
set_status now s d = record d { status = s; updated_at = now }

-- UPDATE documents SET status = … WHERE id = …
unfoldable pub mark_document : Time → DocStatus → Uuid → System → System
unfolding update set_status
mark_document now s id sys = record sys {
  db = record sys.db { documents = update (λ d. d.id == id) (set_status now s) sys.db.documents };
}

-- A job with the default number of attempts; the new id is not used.
unfoldable pub enqueue_job : Uuid → Time → JobStage → Uuid → Uuid → Payload → System → System
unfolding enqueue
enqueue_job id now stage document_id tenant_id payload sys = record sys {
  db = (enqueue id now stage document_id tenant_id payload default_attempts sys.db).1;
}

-- The four stages after the upload are pending again.
unfoldable pub reset_stages : Time → Uuid → Uuid → System → System
unfolding update_stage
reset_stages now document_id tenant_id sys =
    let parse =
      update_stage now document_id tenant_id StageName.parse StageStatus.pending none sys in
    let chunk =
      update_stage now document_id tenant_id StageName.chunk StageStatus.pending none parse in
    let embed =
      update_stage now document_id tenant_id StageName.embed StageStatus.pending none chunk in
    update_stage now document_id tenant_id StageName.index StageStatus.pending none embed

abbrev pub ingest_job : Uuid → Document → Text → Payload
ingest_job tenant_id doc strategy =
    ingest_payload doc.id tenant_id doc.filename doc.mime_type doc.minio_path strategy

-- A document whose content was uploaded before.
unfoldable pub upload_duplicate :
    Fresh → Uuid → Text → Document → System → Answer IngestResponse × System
unfolding mark_document reset_stages enqueue_job same_doc_status
upload_duplicate fresh tenant_id strategy doc sys =
    if is_status DocStatus.indexed doc
    then (
      answered (record {
        document_id = doc.id;
        status = DocStatus.indexed;
        message = "Document already indexed — no reprocessing needed";
      }),
      sys,
    )
    else if has_failed doc.status
    then (
      answered (record {
        document_id = doc.id;
        status = DocStatus.pending;
        message = "Previous ingestion failed — reprocessing from stored file";
      }),
      enqueue_job fresh.job_id fresh.now JobStage.ingest doc.id tenant_id
          (ingest_job tenant_id doc strategy)
          (reset_stages fresh.now doc.id tenant_id
            (mark_document fresh.now DocStatus.pending doc.id sys)),
    )
    else (
      answered (record {
        document_id = doc.id;
        status = doc.status;
        message = "Document is already being processed";
      }),
      sys,
    )

-- The document of the same name is marked for deletion, and its purge is queued.
unfoldable pub replace : Fresh → Uuid → Digest → Document → System → System
unfolding mark_document enqueue_job
replace fresh tenant_id checksum old sys =
    if old.checksum == checksum
    then sys
    else enqueue_job fresh.purge_job_id fresh.now JobStage.purge old.id tenant_id
        (purge_payload old.id tenant_id old.minio_path)
        (mark_document fresh.now DocStatus.deleting old.id sys)

module _ (services : Services) (fresh : Fresh) (tenant_id : Uuid) where
  -- upload_file of app/storage/minio_client.py: where the file is stored.
  unfoldable pub minio_path : Text → Text
  minio_path filename =
      services.uuid_text tenant_id
      ++ b'/' ∷ (services.uuid_text fresh.document_id ++ b'/' ∷ filename)

  unfoldable pub new_document : Text → Text → List ℕ → Document
  unfolding minio_path
  new_document filename mime content = record {
    id = fresh.document_id;
    tenant_id = tenant_id;
    filename = filename;
    mime_type = mime;
    minio_path = minio_path filename;
    file_size = some (length content);
    checksum = services.sha256 content;
    parse_mode = none;
    status = DocStatus.pending;
    page_count = none;
    is_tabular = false;
    table_schema = none;
    created_at = fresh.now;
    updated_at = fresh.now;
  }

  unfoldable pub add_document : Document → System → System
  add_document doc sys = record sys {
    db = record sys.db {
      documents = sys.db.documents ++ doc ∷ [];
      audit_logs =
          sys.db.audit_logs
          ++ record { tenant_id = tenant_id; action = AuditAction.upload; resource_id = doc.id }
            ∷ [];
    };
  }

  abbrev upload_detail : Document → List ℕ → Detail
  upload_detail doc content =
      (codes "filename", doc.filename)
      ∷ (codes "mime_type", doc.mime_type)
      ∷ (codes "file_size", services.number_text (length content))
      ∷ (codes "minio_path", doc.minio_path)
      ∷ []

  -- A new row, its first stage, and its first job. The insert fails when the id is taken or the
  -- tenant is gone.
  unfoldable pub store_new : Text → Text → Text → List ℕ → System → Answer IngestResponse × System
  unfolding new_document add_document update_stage enqueue_job has_document exists
  store_new filename mime strategy content sys =
      let doc = new_document filename mime content in
      if not (services.put_object doc.minio_path content mime)
      then (storage_error, sys)
      else if has_document doc.id sys.db.documents
          || not (exists (λ t. t.id == tenant_id) sys.db.tenants)
      then (integrity_error, sys)
      else (
        answered (record {
          document_id = doc.id;
          status = DocStatus.pending;
          message = "Ingestion queued";
        }),
        enqueue_job fresh.job_id fresh.now JobStage.ingest doc.id tenant_id
            (ingest_job tenant_id doc strategy)
            (update_stage fresh.now doc.id tenant_id StageName.upload StageStatus.done
              (some (upload_detail doc content)) (add_document doc sys)),
      )

  -- No live document has this content.
  unfoldable pub upload_new : Text → Text → Text → List ℕ → System → Answer IngestResponse × System
  unfolding select is_namesake replace store_new
  upload_new filename mime strategy content sys =
      elim (one_or_none (select (is_namesake filename tenant_id) sys.db.documents)) [
        | nothing ↦ store_new filename mime strategy content sys
        | one old ↦
            store_new filename mime strategy content
              (replace fresh tenant_id (services.sha256 content) old sys)
        | many ↦ (multiple_results, sys)
      ]

-- The request of an editor of the tenant.
unfoldable pub upload_document :
    Services
    → Fresh
    → AuthContext
    → Option Text
    → UploadFile
    → System
    → Answer IngestResponse × System
unfolding detect_mime allowed_mime one_of select is_duplicate upload_duplicate upload_new
upload_document services fresh auth parsing_strategy file sys =
    let filename = upload_name file.filename in
    let mime =
      detect_mime services.lower services.guess file.content (or_blank file.content_type)
        filename in
    let strategy = strategy_of parsing_strategy in
    if ltb max_file_size (length file.content)
    then (http_error 413, sys)
    else if not (one_of mime allowed_mime)
    then (http_error 415, sys)
    else elim (one_or_none
        (select (is_duplicate (services.sha256 file.content) auth.tenant_id) sys.db.documents)) [
          | nothing ↦
              upload_new services fresh auth.tenant_id filename mime strategy file.content sys
          | one doc ↦ upload_duplicate fresh auth.tenant_id strategy doc sys
          | many ↦ (multiple_results, sys)
        ]

-- The assignment to the loaded row writes nothing when the status is the old one.
unfoldable pub assign_pending : Time → Document → System → System
unfolding mark_document same_doc_status
assign_pending now doc sys =
    if is_status DocStatus.pending doc then sys else mark_document now DocStatus.pending doc.id sys

unfoldable pub is_own : Uuid → Uuid → Document → Bool
unfolding same_doc_status
is_own document_id tenant_id d =
    (d.id == document_id) && (d.tenant_id == tenant_id) && not (is_status DocStatus.deleted d)

unfoldable pub reprocess_document :
    Fresh → AuthContext → Uuid → Option Text → System → Answer IngestResponse × System
unfolding select is_own assign_pending reset_stages enqueue_job same_doc_status
reprocess_document fresh auth document_id parsing_strategy sys =
    elim (one_or_none (select (is_own document_id auth.tenant_id) sys.db.documents)) [
      | nothing ↦ (http_error 404, sys)
      | many ↦ (multiple_results, sys)
      | one doc ↦ (
        answered (record {
          document_id = document_id;
          status = DocStatus.pending;
          message = "Reprocessing queued";
        }),
        enqueue_job fresh.job_id fresh.now JobStage.ingest document_id auth.tenant_id
            (ingest_job auth.tenant_id doc (strategy_of parsing_strategy))
            (reset_stages fresh.now document_id auth.tenant_id (assign_pending fresh.now doc sys)),
      )
    ]
