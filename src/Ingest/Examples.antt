-- ===== src/Ingest/Examples.antt =====
-- Uploads to a database of one document, and the theorems at these inputs.
use knowledgebase.Prelude.{
  ◌≡◌, ◌≢◌, refl, true, false, none, some, [], ◌∷◌, length, arith, String, inl, inr,
}
use knowledgebase.Prelude.Text.{codes, same_text, one_of}
use knowledgebase.Prelude.Table.{select, count}
use knowledgebase.Models.{Document}
use knowledgebase.Models.Status.{DocStatus, Role, same_doc_status}
use knowledgebase.Models.Samples.{sample_report, one_document}
use knowledgebase.Pipeline.{System}
use knowledgebase.Access.{Answer, answered, multiple_results, storage_error, AuthContext}
use knowledgebase.Ingest.Mime.{allowed_mime, detect_mime}
use knowledgebase.Ingest.{
  Services, Fresh, UploadFile, IngestResponse, is_duplicate, is_namesake, is_own, upload_document,
  reprocess_document,
}
use knowledgebase.Ingest.Unique.{IsValid}
use knowledgebase.Ingest.Uploads.{upload_document_lem}
use knowledgebase.Ingest.Again.{upload_twice, foreign}
use knowledgebase.Ingest.Reprocess.{reprocess_blocks_name}
use knowledgebase.Ingest.Failure.{refused_upload_deletes}
use knowledgebase.Ingest.Effect.{marked}

-- Stand-ins for the services: the digest of a file is its length.
abbrev services : Services
services = record {
  sha256 = λ c. length c;
  lower = λ s. s;
  guess = λ c. none;
  uuid_text = λ id. id ∷ [];
  number_text = λ n. n ∷ [];
  put_object = λ path content mime. true;
}

abbrev broken : Services
broken = record services { put_object = λ path content mime. false }

abbrev fresh : Fresh
fresh = record { now = 100; document_id = 2; job_id = 20; purge_job_id = 21 }

abbrev later : Fresh
later = record { now = 200; document_id = 3; job_id = 30; purge_job_id = 31 }

abbrev editor : AuthContext
editor = record { key_id = 5; tenant_id = 9; role = Role.editor }

abbrev report_file : UploadFile
report_file = record {
  content = 1 ∷ 2 ∷ 3 ∷ [];
  filename = some (codes "report.pdf");
  content_type = some (codes "application/pdf");
}

abbrev sys : System
sys = record {
  db = record one_document { tenants = record { id = 9; name = codes "team" } ∷ [] };
  bus = [];
}

abbrev uploaded : Answer IngestResponse × System
uploaded = upload_document services fresh editor none report_file sys

accepted :
    uploaded.0
    ≡ answered
        (record { document_id = 2; status = DocStatus.pending; message = "Ingestion queued" })
unfolding upload_document
accepted = refl

sys-IsValid : IsValid sys.db.documents
unfolding count
sys-IsValid = record { ids = (tt, tt); contents = λ c t. ground arith; names = λ n t. ground arith }

mime_allowed :
    one_of
      (detect_mime
        (λ s. s)
        (λ c. none)
        (1 ∷ 2 ∷ 3 ∷ [])
        (codes "application/pdf")
        (codes "report.pdf"))
      allowed_mime
    ≡ true
unfolding one_of detect_mime allowed_mime
mime_allowed = refl

upload_twice_example :
    (s : DocStatus) × (m : String) × (upload_document services later editor none report_file
        uploaded.1
      ≡ (answered (record { document_id = 2; status = s; message = m }), uploaded.1))
upload_twice_example =
    upload_twice services fresh later editor none none report_file report_file sys
      (record { document_id = 2; status = DocStatus.pending; message = "Ingestion queued" })
      sys-IsValid accepted refl mime_allowed

no_duplicate : select (is_duplicate 3 9) sys.db.documents ≡ []
unfolding select is_duplicate
no_duplicate = refl

one_namesake : select (is_namesake (codes "report.pdf") 9) sys.db.documents ≡ sample_report ∷ []
unfolding select is_namesake
one_namesake = refl

refused_upload_deletes_example :
    ((upload_document broken fresh editor none report_file sys).0 ≡ storage_error)
    × ((upload_document broken fresh editor none report_file sys).1.db.documents
        ≡ marked 100 DocStatus.deleting 1 sys.db.documents)
refused_upload_deletes_example =
    refused_upload_deletes broken fresh editor none report_file sys sample_report refl mime_allowed
      no_duplicate one_namesake refl

-- The first version is being deleted, and the second is pending.
abbrev first_version : Document
first_version = record sample_report { status = DocStatus.deleting }

abbrev second_version : Document
second_version = record sample_report { id = 4; checksum = 78 }

abbrev two_versions : System
two_versions = record sys { db = record sys.db { documents = first_version ∷ second_version ∷ [] } }

two_versions-IsValid : IsValid two_versions.db.documents
unfolding count is_namesake is_duplicate same_doc_status
two_versions-IsValid = record {
  ids = ((omega arith, tt), (tt, tt));
  contents = λ c t. ground arith;
  names = λ n t. ground arith;
}

found_first : select (is_own 1 9) two_versions.db.documents ≡ first_version ∷ []
unfolding select is_own
found_first = refl

name_same : same_text (codes "report.pdf") (codes "report.pdf") ≡ true
unfolding same_text
name_same = refl

second_active : is_namesake (codes "report.pdf") 9 second_version ≡ true
unfolding is_namesake
second_active = refl

third_new : select (is_duplicate 3 9) two_versions.db.documents ≡ []
unfolding select is_duplicate
third_new = refl

reprocess_blocks_name_example :
    (upload_document services later editor none report_file
      (reprocess_document fresh editor 1 none two_versions).1).0
    ≡ multiple_results
reprocess_blocks_name_example =
    reprocess_blocks_name services fresh later editor none none report_file two_versions
      first_version second_version two_versions-IsValid found_first refl name_same (inr (inl refl))
      second_active third_new refl mime_allowed

upload_document_lem_example :
    IsValid uploaded.1.db.documents
    × ((upload_document services fresh editor none report_file sys).0 ≢ multiple_results)
    × (select (foreign 9) uploaded.1.db.documents ≡ select (foreign 9) sys.db.documents)
upload_document_lem_example =
    upload_document_lem services fresh editor none report_file sys sys-IsValid
