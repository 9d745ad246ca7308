-- ===== src/Documents/Lifecycle.antt =====
-- Deletion: the route of app/api/routes/documents.py and the purge of app/workers/purge_worker.py.
use knowledgebase.Prelude.{
  ℕ, ◌≡◌, inl, inr, refl, Bool, true, false, ◌&&◌, List, [], ◌∷◌, arith, ◌==◌, Bool-cases, All,
  All-mono, All-unit, All-delete_with,
}
use knowledgebase.Prelude.Table.{select, delete, exists, exists_false}
use knowledgebase.Models.{Uuid, Document, Db}
use knowledgebase.Models.Integrity.{has_document, delete_document, has_document-delete}
use knowledgebase.Access.{http_error, AuthContext}
use knowledgebase.Ingest.{is_own}
use knowledgebase.Documents.{get_document, list_chunks, purge}

module _ {A : Type 0} where
  delete_none : (p : A → Bool) (xs : List A) → All (λ x. p x ≡ false) (delete p xs)
  delete_none p xs =
      All-delete_with (λ _. Unit {0}) (λ x. p x ≡ false) p xs (λ x e _. e) (All-unit xs)

  none_selected : (q : A → Bool) (xs : List A) → All (λ x. q x ≡ false) xs → select q xs ≡ []
  unfolding select
  none_selected q [] h = refl
  none_selected q (x ∷ xs) h = rw h.0 (none_selected q xs h.1)

abbrev owned : Uuid → Uuid → Document → Bool
owned id tenant d = (d.id == id) && (d.tenant_id == tenant)

purged_documents :
    (id tenant : Uuid) (db : Db)
    → All (λ d. owned id tenant d ≡ false) (purge id tenant db).documents
unfolding purge delete_document
purged_documents id tenant db = elim (Bool-cases (exists (owned id tenant) db.documents)) [
  | inl e ↦ rw e (delete_none (owned id tenant) db.documents)
  | inr e ↦ rw e (exists_false (owned id tenant) db.documents e)
]

-- After a purge the tenant's document is not found any more, neither itself nor its chunks.
pub purged_not_found :
    (id : Uuid) (auth : AuthContext) (limit offset : ℕ) (db : Db)
    → (get_document id auth (purge id auth.tenant_id db) ≡ http_error 404)
      × (list_chunks id auth limit offset (purge id auth.tenant_id db) ≡ http_error 404)
unfolding get_document list_chunks
purged_not_found id auth limit offset db =
    let gone = purged_documents id auth.tenant_id db in
    (
      rw
          (none_selected (is_own id auth.tenant_id) (purge id auth.tenant_id db).documents (
            All-mono (λ d. owned id auth.tenant_id d ≡ false) _ _
              (λ d e. unfold is_own in ground arith) gone))
          refl,
      rw
          (
            none_selected (owned id auth.tenant_id) (purge id auth.tenant_id db).documents gone,
            list_chunks,
          )
          refl,
    )

-- Every chunk, stage and job belongs to a stored document.
pub record IsClosed (db : Db) : Type 0 where
  pub chunks_have : All (λ c. has_document c.document_id db.documents ≡ true) db.chunks
  pub stages_have : All (λ s. has_document s.document_id db.documents ≡ true) db.stages
  pub jobs_have : All (λ j. has_document j.document_id db.documents ≡ true) db.jobs

cascade :
    {A : Type 0} (ref : A → Uuid) (id tenant : Uuid) (docs : List Document) (rows : List A)
    → All (λ r. has_document (ref r) docs ≡ true) rows
    → All
        (λ r. has_document (ref r) (delete (owned id tenant) docs) ≡ true)
        (delete (λ r. ref r == id) rows)
cascade ref id tenant docs rows h =
    All-delete_with (λ r. has_document (ref r) docs ≡ true) _ (λ r. ref r == id) rows
      (λ r other has. has_document-delete (ref r) id tenant docs other has) h

-- If every chunk, stage and job belongs to a stored document, then it does after a purge too.
pub purge-IsClosed : (id tenant : Uuid) (db : Db) → IsClosed db → IsClosed (purge id tenant db)
unfolding purge delete_document
purge-IsClosed id tenant db h = elim (Bool-cases (exists (owned id tenant) db.documents)) [
  | inl e ↦ rw e (record {
    chunks_have = cascade (λ c. c.document_id) id tenant db.documents db.chunks h.chunks_have;
    stages_have = cascade (λ s. s.document_id) id tenant db.documents db.stages h.stages_have;
    jobs_have = cascade (λ j. j.document_id) id tenant db.documents db.jobs h.jobs_have;
  })
  | inr e ↦
      rw e (record {
        chunks_have = h.chunks_have;
        stages_have = h.stages_have;
        jobs_have = h.jobs_have;
      })
]

-- If every chunk, stage and job belongs to a stored document, then it does after a purge too, and neither the document nor its chunks
-- are found any more.
pub purge_lem :
    (id : Uuid) (auth : AuthContext) (limit offset : ℕ) (db : Db)
    → IsClosed db
    → IsClosed (purge id auth.tenant_id db)
      × (get_document id auth (purge id auth.tenant_id db) ≡ http_error 404)
      × (list_chunks id auth limit offset (purge id auth.tenant_id db) ≡ http_error 404)
purge_lem id auth limit offset db h =
    let (document, chunks) = purged_not_found id auth limit offset db in
    (purge-IsClosed id auth.tenant_id db h, document, chunks)
