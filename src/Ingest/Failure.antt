-- ===== src/Ingest/Failure.antt =====
-- The object store refuses a file in `upload_document` of app/api/routes/ingest.py.
use knowledgebase.Prelude.{
  ◌≡◌, inl, inr, refl, true, false, Option, [], ◌∷◌, length, ltb, ◌==◌, Bool-cases,
}
use knowledgebase.Prelude.Text.{Text, one_of}
use knowledgebase.Prelude.Table.{select}
use knowledgebase.Models.{Document}
use knowledgebase.Models.Status.{DocStatus}
use knowledgebase.Pipeline.{System}
use knowledgebase.Access.{storage_error, AuthContext}
use knowledgebase.Ingest.Mime.{allowed_mime, detect_mime}
use knowledgebase.Ingest.{
  Services, Fresh, UploadFile, max_file_size, or_blank, is_duplicate, is_namesake, mark_document,
  replace, minio_path, new_document, store_new, upload_new, upload_document, upload_name,
}
use knowledgebase.Ingest.Effect.{marked, enqueue_job-documents, not_both}

-- When an admissible new version of a document is uploaded under its name and the object store
-- refuses it, the upload fails, and yet the old version is marked for deletion.
pub refused_upload_deletes :
    (services : Services) (fresh : Fresh) (auth : AuthContext) (strategy : Option Text)
    (file : UploadFile) (sys : System) (old : Document)
    → ltb max_file_size (length file.content) ≡ false
    → one_of
        (detect_mime services.lower services.guess file.content
          (or_blank file.content_type)
          (upload_name file.filename))
        allowed_mime
      ≡ true
    → select (is_duplicate (services.sha256 file.content) auth.tenant_id) sys.db.documents ≡ []
    → select (is_namesake (upload_name file.filename) auth.tenant_id) sys.db.documents ≡ old ∷ []
    → services.put_object
        (minio_path services fresh auth.tenant_id (upload_name file.filename))
        file.content
        (detect_mime services.lower services.guess file.content
          (or_blank file.content_type)
          (upload_name file.filename))
      ≡ false
    → ((upload_document services fresh auth strategy file sys).0 ≡ storage_error)
      × ((upload_document services fresh auth strategy file sys).1.db.documents
          ≡ marked fresh.now DocStatus.deleting old.id sys.db.documents)
unfolding upload_document upload_new store_new new_document replace mark_document
refused_upload_deletes services fresh auth strategy file sys old small mime none_same found
      refused =
    elim (Bool-cases (old.checksum == services.sha256 file.content)) [
      | inl e ↦ absurd (
          not_both (services.sha256 file.content) (upload_name file.filename) auth.tenant_id old
            sys.db.documents none_same found e)
      | inr e ↦
          rw (small, mime, none_same, upload_new, found, refused, e, enqueue_job-documents)
            (refl, refl)
    ]
