-- ===== src/Documents.antt =====
-- app/api/routes/documents.py and app/workers/purge_worker.py: reading documents, marking them for
-- deletion, and the purge. Whether the calls of the vector store, the table store and the object store
-- succeed does not matter to the purge, which logs their exceptions and goes on.
pub mod Reading
pub mod Lifecycle
mod Examples
use knowledgebase.Prelude.{
  ℕ, Bool, not, ◌&&◌, Option, none, some, List, [], ◌∷◌, ◌++◌, map, take, drop, ◌==◌, if◌then◌else◌,
}
use knowledgebase.Prelude.Text.{Text}
use knowledgebase.Prelude.Table.{select, order_desc, order_asc}
use knowledgebase.Models.{Uuid, Time, Digest, purge_payload, Document, Chunk, AuditAction, Db}
use knowledgebase.Models.Status.{DocStatus, JobStage, same_doc_status}
use knowledgebase.Models.Integrity.{delete_document}
use knowledgebase.Queue.{nack}
use knowledgebase.Pipeline.{System}
use knowledgebase.Access.{
  Answer, answered, http_error, multiple_results, Lookup, nothing, one, many, one_or_none,
  AuthContext,
}
use knowledgebase.Ingest.{is_status, is_own, mark_document, enqueue_job}

pub record DocumentOut : Type 0 where
  pub id : Uuid
  pub tenant_id : Uuid
  pub filename : Text
  pub mime_type : Text
  pub minio_path : Text
  pub file_size : Option ℕ
  pub parse_mode : Option Text
  pub status : DocStatus
  pub page_count : Option ℕ
  pub created_at : Time
  pub updated_at : Time

pub record ChunkOut : Type 0 where
  pub id : Uuid
  pub chunk_index : ℕ
  pub chunk_text : Text
  pub token_count : ℕ
  pub page_number : Option ℕ
  pub checksum : Digest

-- DocumentOut.model_validate
abbrev pub document_out : Document → DocumentOut
document_out d = record {
  id = d.id;
  tenant_id = d.tenant_id;
  filename = d.filename;
  mime_type = d.mime_type;
  minio_path = d.minio_path;
  file_size = d.file_size;
  parse_mode = d.parse_mode;
  status = d.status;
  page_count = d.page_count;
  created_at = d.created_at;
  updated_at = d.updated_at;
}

abbrev pub chunk_out : Chunk → ChunkOut
chunk_out c = record {
  id = c.id;
  chunk_index = c.chunk_index;
  chunk_text = c.chunk_text;
  token_count = c.token_count;
  page_number = c.page_number;
  checksum = c.checksum;
}

unfoldable pub list_documents : AuthContext → ℕ → ℕ → Db → List DocumentOut
unfolding select order_desc same_doc_status
list_documents auth limit offset db = map document_out (
    take limit (
      drop offset (
        order_desc (λ d. d.created_at)
          (select (λ d. (d.tenant_id == auth.tenant_id) && not (is_status DocStatus.deleted d))
            db.documents))))

abbrev found_document : Lookup Document → Answer DocumentOut
found_document nothing = http_error 404
found_document (one d) = answered (document_out d)
found_document many = multiple_results

unfoldable pub get_document : Uuid → AuthContext → Db → Answer DocumentOut
unfolding select is_own
get_document document_id auth db =
    found_document (one_or_none (select (is_own document_id auth.tenant_id) db.documents))

-- The document is looked up in whatever state it is.
unfoldable pub list_chunks : Uuid → AuthContext → ℕ → ℕ → Db → Answer (List ChunkOut)
unfolding select order_asc
list_chunks document_id auth limit offset db =
    elim (one_or_none
      (select (λ d. (d.id == document_id) && (d.tenant_id == auth.tenant_id)) db.documents)) [
        | nothing ↦ http_error 404
        | many ↦ multiple_results
        | one d ↦ answered (
            map chunk_out (
              take limit (
                drop offset (
                  order_asc (λ c. c.chunk_index)
                    (select (λ c. (c.document_id == document_id) && (c.tenant_id == auth.tenant_id))
                      db.chunks)))))
      ]

-- The route that marks a document and queues its purge.
unfoldable pub request_deletion : Time → Uuid → Uuid → AuthContext → System → Answer Uuid × System
unfolding select is_own mark_document enqueue_job
request_deletion now job_id document_id auth sys =
    elim (one_or_none (select (is_own document_id auth.tenant_id) sys.db.documents)) [
      | nothing ↦ (http_error 404, sys)
      | many ↦ (multiple_results, sys)
      | one d ↦ (
        answered document_id,
        enqueue_job job_id now JobStage.purge document_id auth.tenant_id
            (purge_payload document_id auth.tenant_id d.minio_path)
            (mark_document now DocStatus.deleting document_id sys),
      )
    ]

-- The last step of a purge: the row goes, with all that refers to it, and the deletion is logged.
unfoldable pub purge : Uuid → Uuid → Db → Db
unfolding delete_document
purge document_id tenant_id db =
    let gone = delete_document document_id tenant_id db in
    record gone {
      audit_logs =
          gone.audit_logs
          ++ record {
            tenant_id = tenant_id;
            action = AuditAction.delete;
            resource_id = document_id;
          }
            ∷ [];
    }

-- What the handler does when the database refuses the purge with an error text: `marks` is whether the status can be written.
unfoldable pub purge_failed : Time → Uuid → Uuid → Text → Bool → System → System
unfolding mark_document nack
purge_failed now job_id document_id error marks sys =
    let marked = if marks then mark_document now DocStatus.error document_id sys else sys in
    record marked { db = nack now job_id error marked.db }

-- `failure` is the error of the database, if there is one.
unfoldable pub process_purge_job :
    Time → Uuid → Uuid → Uuid → Option (Text × Bool) → System → System
unfolding purge purge_failed
process_purge_job now job_id document_id tenant_id none sys = record sys {
  db = purge document_id tenant_id sys.db;
}
process_purge_job now job_id document_id tenant_id (some failure) sys =
    purge_failed now job_id document_id failure.0 failure.1 sys
