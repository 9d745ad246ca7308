-- ===== src/Ingest/Uploads.antt =====
-- `upload_document` of app/api/routes/ingest.py in a valid table.
use knowledgebase.Prelude.{◌≡◌, ◌≢◌, Option}
use knowledgebase.Prelude.Text.{Text}
use knowledgebase.Prelude.Table.{select}
use knowledgebase.Pipeline.{System}
use knowledgebase.Access.{AuthContext, multiple_results}
use knowledgebase.Ingest.{Services, Fresh, UploadFile, upload_document}
use knowledgebase.Ingest.Unique.{IsValid, upload_document-IsValid}
use knowledgebase.Ingest.Again.{foreign, upload_never_stuck, upload_foreign}

-- If ids are unique and no tenant has two live documents of one content or two active ones of one name, then it is so after any upload, whatever
-- its answer is; the upload does not fail for finding several rows, and it leaves the documents of all other tenants as they are, in their order.
pub upload_document_lem :
    (services : Services) (fresh : Fresh) (auth : AuthContext) (strategy : Option Text)
    (file : UploadFile) (sys : System)
    → IsValid sys.db.documents
    → IsValid (upload_document services fresh auth strategy file sys).1.db.documents
      × ((upload_document services fresh auth strategy file sys).0 ≢ multiple_results)
      × (select
            (foreign auth.tenant_id)
            (upload_document services fresh auth strategy file sys).1.db.documents
          ≡ select (foreign auth.tenant_id) sys.db.documents)
upload_document_lem services fresh auth strategy file sys h = (
  upload_document-IsValid services fresh auth strategy file sys h,
  upload_never_stuck services fresh auth strategy file sys h,
  upload_foreign services fresh auth strategy file sys h,
)
