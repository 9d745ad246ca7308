-- ===== src/Models/Samples.antt =====
-- Rows that the examples of the other modules share.
use knowledgebase.Prelude.{false, none, some, [], ◌∷◌}
use knowledgebase.Prelude.Text.{codes}
use knowledgebase.Models.{Document, Db, empty_db}
use knowledgebase.Models.Status.{DocStatus}

abbrev pub sample_report : Document
sample_report = record {
  id = 1;
  tenant_id = 9;
  filename = codes "report.pdf";
  mime_type = codes "application/pdf";
  minio_path = codes "9/1/report.pdf";
  file_size = some 40;
  checksum = 77;
  parse_mode = none;
  status = DocStatus.pending;
  page_count = none;
  is_tabular = false;
  table_schema = none;
  created_at = 0;
  updated_at = 0;
}

abbrev pub one_document : Db
one_document = record empty_db { documents = sample_report ∷ [] }
