-- ===== src/Documents/Reading.antt =====
-- The read routes of app/api/routes/documents.py: what they show to whom.
use knowledgebase.Prelude.{
  ℕ, ◌≡◌, inl, refl, subst, true, false, not, ◌&&◌, List, [], ◌∷◌, map, arith, ◌==◌, All, All-mono,
  All-take, All-drop,
}
use knowledgebase.Prelude.Table.{select, All-order_desc, select_sound, select-In}
use knowledgebase.Models.{Uuid, Document, Db}
use knowledgebase.Models.Status.{DocStatus, same_doc_status}
use knowledgebase.Access.{answered, one_or_none, AuthContext}
use knowledgebase.Ingest.{is_status, is_own}
use knowledgebase.Documents.{
  DocumentOut, document_out, found_document, list_documents, get_document,
}

-- What a caller may see of a document.
pub record IsVisible (auth : AuthContext) (d : DocumentOut) : Type 0 where
  pub own : d.tenant_id ≡ auth.tenant_id
  pub live : same_doc_status d.status DocStatus.deleted ≡ false

visible :
    (auth : AuthContext) (d : Document)
    → ((d.tenant_id == auth.tenant_id) && not (is_status DocStatus.deleted d)) ≡ true
    → IsVisible auth (document_out d)
visible auth d e = record { own = ground arith; live = ground arith }

All-map :
    (auth : AuthContext) (ds : List Document)
    → All (λ d. IsVisible auth (document_out d)) ds
    → All (IsVisible auth) (map document_out ds)
All-map auth [] h = tt
All-map auth (d ∷ ds) h = (h.0, All-map auth ds h.1)

-- A listing shows live documents of the caller's tenant only, whatever limit and offset are.
pub list_documents-IsVisible :
    (auth : AuthContext) (limit offset : ℕ) (db : Db)
    → All (IsVisible auth) (list_documents auth limit offset db)
unfolding list_documents
list_documents-IsVisible auth limit offset db = All-map auth _ (
    All-mono _ _ _ (visible auth) (
      All-take _ limit _ (
        All-drop _ offset _ (
          All-order_desc _ (λ d. d.created_at) _
            (select_sound
              (λ d. (d.tenant_id == auth.tenant_id) && not (is_status DocStatus.deleted d))
              db.documents)))))

-- A document is shown only to its tenant, under its own id, and only while it is live.
pub get_document-IsVisible :
    (id : Uuid) (auth : AuthContext) (db : Db) {d : DocumentOut}
    → get_document id auth db ≡ answered d
    → IsVisible auth d × (d.id ≡ id)
unfolding get_document
get_document-IsVisible id auth db {d = d} h =
    from (select (is_own id auth.tenant_id) db.documents) refl h
  where
    from :
        (rows : List Document)
        → select (is_own id auth.tenant_id) db.documents ≡ rows
        → found_document (one_or_none rows) ≡ answered d
        → IsVisible auth d × (d.id ≡ id)
    from [] e k = absurd (cc)
    from (x ∷ y ∷ rows) e k = absurd (cc)
    from (x ∷ []) e k =
        let (m, own) = select-In (is_own id auth.tenant_id) db.documents x (rw e (inl refl)) in
        let shown : document_out x ≡ d = ground arith in
        let parts : (((x.tenant_id == auth.tenant_id) && not (is_status DocStatus.deleted x))
              ≡ true)
            × (x.id ≡ id) =
          unfold is_own in ground arith in
        subst (λ r. IsVisible auth r × (r.id ≡ id)) shown (visible auth x parts.0, parts.1)

-- A document that is shown is one of the caller's tenant, under the id that was asked for, and live; and a listing, whatever its limit and offset,
-- shows live documents of the caller's tenant only.
pub reads-IsVisible :
    (id : Uuid) (auth : AuthContext) (limit offset : ℕ) (db : Db) {d : DocumentOut}
    → get_document id auth db ≡ answered d
    → IsVisible auth d × (d.id ≡ id) × All (IsVisible auth) (list_documents auth limit offset db)
reads-IsVisible id auth limit offset db {d = d} h =
    let (seen, own) = get_document-IsVisible id auth db {d = d} h in
    (seen, own, list_documents-IsVisible auth limit offset db)
