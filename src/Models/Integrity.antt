-- ===== src/Models/Integrity.antt =====
-- The constraints of app/db/models.py that the operations rely on: the foreign keys of chunks,
-- stages and jobs to documents, with ON DELETE CASCADE.
use knowledgebase.Prelude.{
  Bool, true, false, [], ◌∷◌, ◌++◌, ◌≡◌, arith, ◌&&◌, List, ◌==◌, if◌then◌else◌,
}
use knowledgebase.Prelude.Table.{exists, delete}
use knowledgebase.Models.{Uuid, Document, Db}

unfoldable pub has_document : Uuid → List Document → Bool
has_document id docs = exists (λ d. d.id == id) docs

-- DELETE FROM documents WHERE id = … AND tenant_id = …; the cascade takes the rows that refer to
-- the deleted document.
unfoldable pub delete_document : Uuid → Uuid → Db → Db
delete_document id tenant db =
    let rest = delete (λ d. (d.id == id) && (d.tenant_id == tenant)) db.documents in
    if exists (λ d. (d.id == id) && (d.tenant_id == tenant)) db.documents
    then record db {
      documents = rest;
      chunks = delete (λ c. c.document_id == id) db.chunks;
      stages = delete (λ s. s.document_id == id) db.stages;
      jobs = delete (λ j. j.document_id == id) db.jobs;
    }
    else db

pub has_document-append :
    (id : Uuid) (docs : List Document) (d : Document)
    → has_document id docs ≡ true
    → has_document id (docs ++ d ∷ []) ≡ true
unfolding has_document exists
has_document-append id [] d h = cc
has_document-append id (x ∷ docs) d h = ground (arith, has_document-append id docs d)

-- Deleting one document leaves the others.
pub has_document-delete :
    (id gone tenant : Uuid) (docs : List Document)
    → (id == gone) ≡ false
    → has_document id docs ≡ true
    → has_document id (delete (λ d. (d.id == gone) && (d.tenant_id == tenant)) docs) ≡ true
unfolding has_document exists delete
has_document-delete id gone tenant [] n h = cc
has_document-delete id gone tenant (x ∷ docs) n h =
    ground (arith, has_document-delete id gone tenant docs)
