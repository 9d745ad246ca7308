-- ===== src/Documents/Examples.antt =====
-- A database with one document, and the theorems of Documents at it.
use knowledgebase.Prelude.{◌≡◌, refl, All, none, [], ◌∷◌}
use knowledgebase.Prelude.Table.{exists}
use knowledgebase.Models.{Db}
use knowledgebase.Models.Status.{Role, StageName, StageStatus}
use knowledgebase.Models.Samples.{sample_report, one_document}
use knowledgebase.Models.Integrity.{has_document}
use knowledgebase.Access.{answered, http_error, AuthContext}
use knowledgebase.Documents.{document_out, list_documents, get_document, list_chunks, purge}
use knowledgebase.Documents.Reading.{IsVisible, reads-IsVisible}
use knowledgebase.Documents.Lifecycle.{IsClosed, purge_lem}

abbrev viewer : AuthContext
viewer = record { key_id = 5; tenant_id = 9; role = Role.viewer }

seen : get_document 1 viewer one_document ≡ answered (document_out sample_report)
unfolding get_document
seen = refl

-- The document with its first stage.
abbrev started : Db
started = record one_document {
  stages =
      record {
        document_id = 1;
        tenant_id = 9;
        stage = StageName.upload;
        status = StageStatus.done;
        started_at = none;
        completed_at = none;
        detail = none;
      }
      ∷ [];
}

started-IsClosed : IsClosed started
unfolding has_document exists
started-IsClosed = record { chunks_have = tt; stages_have = (refl, tt); jobs_have = tt }

reads-IsVisible_example :
    IsVisible viewer (document_out sample_report)
    × ((document_out sample_report).id ≡ 1)
    × All (IsVisible viewer) (list_documents viewer 50 0 one_document)
reads-IsVisible_example = reads-IsVisible 1 viewer 50 0 one_document seen

purge_lem_example :
    IsClosed (purge 1 9 started)
    × (get_document 1 viewer (purge 1 9 started) ≡ http_error 404)
    × (list_chunks 1 viewer 100 0 (purge 1 9 started) ≡ http_error 404)
purge_lem_example = purge_lem 1 viewer 100 0 started started-IsClosed
