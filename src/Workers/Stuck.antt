-- ===== src/Workers/Stuck.antt =====
-- What a failing job of app/workers/index_worker.py and app/workers/embed_worker.py means for the next upload of its file.
use knowledgebase.Prelude.{
  ℕ, ◌≡◌, inl, inr, refl, true, false, Option, none, some, [], ◌∷◌, length, ltb, ◌==◌, Bool-cases,
  String, leb,
}
use knowledgebase.Prelude.Text.{Text, one_of}
use knowledgebase.Prelude.Table.{select, first}
use knowledgebase.Models.{Time, Document, PipelineJob, Db}
use knowledgebase.Models.Status.{DocStatus, StageName, StageStatus}
use knowledgebase.Queue.{nack, nack_row}
use knowledgebase.Pipeline.{System}
use knowledgebase.Access.{answered, AuthContext}
use knowledgebase.Ingest.Mime.{allowed_mime, detect_mime}
use knowledgebase.Ingest.{
  Services, Fresh, UploadFile, has_failed, max_file_size, or_blank, is_duplicate, upload_document,
  upload_name,
}
use knowledgebase.Ingest.Effect.{update_stage-documents}
use knowledgebase.Ingest.Again.{Settled-upload}
use knowledgebase.Workers.{Task, writing, index_failed, process_index_job, nack_task}

nack_row-documents :
    (now : Time) (error : Text) (row : Option PipelineJob) (db : Db)
    → (nack_row now error row db).documents ≡ db.documents
unfolding nack_row
nack_row-documents now error none db = refl
nack_row-documents now error (some row) db = elim (Bool-cases (leb row.max_attempts row.attempt)) [
  | inl e ↦ rw e refl
  | inr e ↦ rw e refl
]

nack_task-documents :
    (now : Time) (error : Text) (task : Task) (sys : System)
    → (nack_task now error task sys).db.documents ≡ sys.db.documents
unfolding nack_task nack
nack_task-documents now error task sys =
    nack_row-documents now error (first (λ j. j.id == task.job_id) sys.db.jobs) sys.db

index_failure-documents :
    (number_text : ℕ → Text) (to_tsvector : Text → Text) (now : Time) (task : Task) (error : Text)
    (sys : System)
    → (process_index_job number_text to_tsvector now task (some (writing error)) sys).db.documents
      ≡ sys.db.documents
unfolding process_index_job index_failed
index_failure-documents number_text to_tsvector now task error sys =
    rw
      (
        nack_task-documents,
        update_stage-documents now task.document_id task.tenant_id StageName.index
            StageStatus.failed,
        update_stage-documents now task.document_id task.tenant_id StageName.index
            StageStatus.processing,
      )
      refl

-- An index job whose transaction fails does not mark its document as failed, whatever attempt it was: if the only
-- live document of a content has not failed, an admissible upload of that content after the failed
-- job is answered with that document and writes nothing, so no new work is queued.
pub index_failure_unnoticed :
    (number_text : ℕ → Text) (to_tsvector : Text → Text) (now : Time) (task : Task) (error : Text)
    (services : Services) (fresh : Fresh) (auth : AuthContext) (strategy : Option Text)
    (file : UploadFile) (sys : System) (doc : Document)
    → select (is_duplicate (services.sha256 file.content) auth.tenant_id) sys.db.documents
      ≡ doc ∷ []
    → has_failed doc.status ≡ false
    → ltb max_file_size (length file.content) ≡ false
    → one_of
        (detect_mime services.lower services.guess file.content
          (or_blank file.content_type)
          (upload_name file.filename))
        allowed_mime
      ≡ true
    → (s : DocStatus) × (m : String) × (upload_document services fresh auth strategy file
          (process_index_job number_text to_tsvector now task (some (writing error)) sys)
        ≡ (
          answered (record { document_id = doc.id; status = s; message = m }),
          process_index_job number_text to_tsvector now task (some (writing error)) sys,
        ))
index_failure_unnoticed number_text to_tsvector now task error services fresh auth strategy file sys
      doc found unfailed small mime =
    Settled-upload services fresh auth strategy file
      (process_index_job number_text to_tsvector now task (some (writing error)) sys) doc.id small
      mime
      (record {
        doc = doc;
        found = rw (index_failure-documents number_text to_tsvector now task error sys) found;
        unfailed = unfailed;
        has_id = refl;
      })
