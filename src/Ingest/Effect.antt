-- ===== src/Ingest/Effect.antt =====
-- What an upload answers and does to the documents table, one case for each way through
-- `upload_document` of app/api/routes/ingest.py.
use knowledgebase.Prelude.{
  ℕ, ◌<◌, ◌≡◌, ◌⊎◌, inl, inr, refl, true, false, Option, List, [], ◌∷◌, ◌++◌, length, arith, ltb,
  ◌==◌, Bool-cases, In, subst,
}
use knowledgebase.Prelude.Text.{Text, one_of}
use knowledgebase.Prelude.Table.{select, update, exists, select-In, In-select}
use knowledgebase.Models.{Digest, Uuid, Time, Payload, Document, Detail}
use knowledgebase.Models.Status.{DocStatus, same_doc_status, JobStage, StageName, StageStatus}
use knowledgebase.Models.Integrity.{has_document}
use knowledgebase.Queue.{enqueue}
use knowledgebase.Pipeline.{System, update_stage}
use knowledgebase.Access.{
  Answer, answered, http_error, multiple_results, integrity_error, storage_error, many, one_or_none,
  AuthContext,
}
use knowledgebase.Ingest.Mime.{allowed_mime, detect_mime}
use knowledgebase.Ingest.{
  Services, Fresh, UploadFile, IngestResponse, max_file_size, has_failed, upload_name, or_blank,
  is_status, is_duplicate, is_namesake, set_status, mark_document, enqueue_job, reset_stages,
  upload_duplicate, replace, new_document, store_new, upload_new, upload_document,
}

pub enqueue_job-documents :
    (id now : ℕ) (stage : JobStage) (doc tenant : Uuid) (payload : Payload) (sys : System)
    → (enqueue_job id now stage doc tenant payload sys).db.documents ≡ sys.db.documents
unfolding enqueue_job enqueue
enqueue_job-documents id now stage doc tenant payload sys =
    elim (Bool-cases (has_document doc sys.db.documents)) [
      | inl e ↦ elim (Bool-cases (exists (λ j. j.id == id) sys.db.jobs)) [
        | inl f ↦ rw (e, f) refl
        | inr f ↦ rw (e, f) refl
      ]
      | inr e ↦ rw e refl
    ]

pub update_stage-documents :
    (now : Time) (doc tenant : Uuid) (stage : StageName) (status : StageStatus)
    (detail : Option Detail) (sys : System)
    → (update_stage now doc tenant stage status detail sys).db.documents ≡ sys.db.documents
unfolding update_stage
update_stage-documents now doc tenant stage status detail sys =
    elim (Bool-cases (has_document doc sys.db.documents)) [ inl e ↦ rw e refl | inr e ↦ rw e refl ]

pub reset_stages-documents :
    (now : Time) (doc tenant : Uuid) (sys : System)
    → (reset_stages now doc tenant sys).db.documents ≡ sys.db.documents
unfolding reset_stages
reset_stages-documents now doc tenant sys =
    rw
      (
        update_stage-documents now doc tenant StageName.index,
        update_stage-documents now doc tenant StageName.embed,
        update_stage-documents now doc tenant StageName.chunk,
        update_stage-documents now doc tenant StageName.parse,
      )
      refl

-- The rows that one status update leaves.
abbrev pub marked : Time → DocStatus → Uuid → List Document → List Document
marked now s id docs = update (λ d. d.id == id) (set_status now s) docs

-- The row of a new document.
pub record IsNew (checksum : Digest) (name : Text) (tenant : Uuid) (fresh : Fresh) (new : Document)
    : Type 0 where
  pub id : new.id ≡ fresh.document_id
  pub checksum_of : new.checksum ≡ checksum
  pub name_of : new.filename ≡ name
  pub tenant_of : new.tenant_id ≡ tenant
  pub is_pending : new.status ≡ DocStatus.pending

-- What is left of the table when the namesake of the new file has been dealt with.
pub data Replaced (name : Text) (tenant : Uuid) (now : Time) (docs base : List Document)
    : Type 0 where
  kept :
      select (is_namesake name tenant) docs ≡ [] → base ≡ docs → Replaced name tenant now docs base
  gone :
      (old : Document)
      → select (is_namesake name tenant) docs ≡ old ∷ []
      → base ≡ marked now DocStatus.deleting old.id docs
      → Replaced name tenant now docs base

-- An answer of `upload_document` with the documents that it leaves.
pub data Outcome (checksum : Digest) (name : Text) (tenant : Uuid) (fresh : Fresh)
    (docs : List Document) (a : Answer IngestResponse) (after : List Document) : Type 0 where
  rejected :
      (code : ℕ)
      → a ≡ http_error code
      → after ≡ docs
      → Outcome checksum name tenant fresh docs a after
  many_same :
      1 < length (select (is_duplicate checksum tenant) docs)
      → a ≡ multiple_results
      → after ≡ docs
      → Outcome checksum name tenant fresh docs a after
  many_named :
      1 < length (select (is_namesake name tenant) docs)
      → a ≡ multiple_results
      → after ≡ docs
      → Outcome checksum name tenant fresh docs a after
  known :
      (doc : Document) (r : IngestResponse)
      → select (is_duplicate checksum tenant) docs ≡ doc ∷ []
      → has_failed doc.status ≡ false
      → a ≡ answered r
      → r.document_id ≡ doc.id
      → after ≡ docs
      → Outcome checksum name tenant fresh docs a after
  revived :
      (doc : Document) (r : IngestResponse)
      → select (is_duplicate checksum tenant) docs ≡ doc ∷ []
      → has_failed doc.status ≡ true
      → a ≡ answered r
      → r.document_id ≡ doc.id
      → after ≡ marked fresh.now DocStatus.pending doc.id docs
      → Outcome checksum name tenant fresh docs a after
  not_stored :
      select (is_duplicate checksum tenant) docs ≡ []
      → Replaced name tenant fresh.now docs after
      → (a ≡ storage_error) ⊎ (a ≡ integrity_error)
      → Outcome checksum name tenant fresh docs a after
  stored :
      (base : List Document) (new : Document) (r : IngestResponse)
      → select (is_duplicate checksum tenant) docs ≡ []
      → Replaced name tenant fresh.now docs base
      → has_document fresh.document_id base ≡ false
      → IsNew checksum name tenant fresh new
      → a ≡ answered r
      → r.document_id ≡ fresh.document_id
      → after ≡ base ++ new ∷ []
      → Outcome checksum name tenant fresh docs a after

lookup :
    (xs : List Document)
    → (xs ≡ []) ⊎ ((x : Document) × (xs ≡ x ∷ [])) ⊎ (1 < length xs) × (one_or_none xs ≡ many)
lookup [] = inl refl
lookup (x ∷ []) = inr (inl (x, refl))
lookup (x ∷ y ∷ xs) = inr (inr (omega arith, refl))

pub not_both :
    (checksum : Digest) (name : Text) (tenant : Uuid) (old : Document) (docs : List Document)
    → select (is_duplicate checksum tenant) docs ≡ []
    → select (is_namesake name tenant) docs ≡ old ∷ []
    → (old.checksum == checksum) ≡ true
    → ⊥
unfolding is_duplicate is_namesake
not_both checksum name tenant old docs none_same found same =
    let (m, named) = select-In (is_namesake name tenant) docs old (rw found (inl refl)) in
    subst (In old) none_same (In-select (is_duplicate checksum tenant) docs old m (ground arith))

pub indexed_fine :
    (s : DocStatus) → same_doc_status s DocStatus.indexed ≡ true → has_failed s ≡ false
unfolding same_doc_status
indexed_fine s e = ground arith

module _ (services : Services) (fresh : Fresh) (tenant : Uuid) where
  new_document-IsNew :
      (name mime : Text) (content : List ℕ)
      → IsNew
          (services.sha256 content)
          name
          tenant
          fresh
          (new_document services fresh tenant name mime content)
  unfolding new_document
  new_document-IsNew name mime content = record {
    id = refl;
    checksum_of = refl;
    name_of = refl;
    tenant_of = refl;
    is_pending = refl;
  }

  store_new-Outcome :
      (name mime strategy : Text) (content : List ℕ) (docs : List Document) (sys : System)
      → select (is_duplicate (services.sha256 content) tenant) docs ≡ []
      → Replaced name tenant fresh.now docs sys.db.documents
      → Outcome
          (services.sha256 content)
          name
          tenant
          fresh
          docs
          (store_new services fresh tenant name mime strategy content sys).0
          (store_new services fresh tenant name mime strategy content sys).1.db.documents
  unfolding store_new
  store_new-Outcome name mime strategy content docs sys none_same base =
      elim (Bool-cases (
        services.put_object (new_document services fresh tenant name mime content).minio_path
          content mime)) [
            | inr e ↦ rw e (not_stored none_same base (inl refl))
            | inl e ↦ elim (Bool-cases (has_document fresh.document_id sys.db.documents)) [
              | inl f ↦ rw (e, new_document, f) (not_stored none_same base (inr refl))
              | inr f ↦ elim (Bool-cases (exists (λ t. t.id == tenant) sys.db.tenants)) [
                | inr g ↦ rw (e, new_document, f, g) (not_stored none_same base (inr refl))
                | inl g ↦
                    rw (e, new_document, f, g, enqueue_job-documents, update_stage-documents)
                      (stored sys.db.documents
                        (new_document services fresh tenant name mime content) _ none_same base f
                        (new_document-IsNew name mime content) refl refl refl)
              ]
            ]
          ]

  replace-Replaced :
      (checksum : Digest) (name : Text) (old : Document) (sys : System)
      → select (is_duplicate checksum tenant) sys.db.documents ≡ []
      → select (is_namesake name tenant) sys.db.documents ≡ old ∷ []
      → Replaced name tenant fresh.now sys.db.documents
          (replace fresh tenant checksum old sys).db.documents
  unfolding replace mark_document
  replace-Replaced checksum name old sys none_same found =
      elim (Bool-cases (old.checksum == checksum)) [
        | inl e ↦ absurd (not_both checksum name tenant old sys.db.documents none_same found e)
        | inr e ↦ rw (e, enqueue_job-documents) (gone old found refl)
      ]

  upload_new-Outcome :
      (name mime strategy : Text) (content : List ℕ) (sys : System)
      → select (is_duplicate (services.sha256 content) tenant) sys.db.documents ≡ []
      → Outcome
          (services.sha256 content)
          name
          tenant
          fresh
          sys.db.documents
          (upload_new services fresh tenant name mime strategy content sys).0
          (upload_new services fresh tenant name mime strategy content sys).1.db.documents
  unfolding upload_new
  upload_new-Outcome name mime strategy content sys none_same =
      elim (lookup (select (is_namesake name tenant) sys.db.documents)) [
        | inl e ↦
            rw (e, upload_new)
              (store_new-Outcome name mime strategy content sys.db.documents sys none_same
                (kept e refl))
        | inr (inl (old, e)) ↦
            rw (e, upload_new)
              (store_new-Outcome name mime strategy content sys.db.documents
                (replace fresh tenant (services.sha256 content) old sys) none_same
                (replace-Replaced (services.sha256 content) name old sys none_same e))
        | inr (inr (several, e)) ↦ rw (e, upload_new) (many_named several refl refl)
      ]

  upload_duplicate-Outcome :
      (checksum : Digest) (name strategy : Text) (doc : Document) (sys : System)
      → select (is_duplicate checksum tenant) sys.db.documents ≡ doc ∷ []
      → Outcome checksum name tenant fresh sys.db.documents
          (upload_duplicate fresh tenant strategy doc sys).0
          (upload_duplicate fresh tenant strategy doc sys).1.db.documents
  unfolding upload_duplicate same_doc_status mark_document
  upload_duplicate-Outcome checksum name strategy doc sys found =
      elim (Bool-cases (is_status DocStatus.indexed doc)) [
        | inl e ↦ rw e (known doc _ found (indexed_fine doc.status e) refl refl refl)
        | inr e ↦ elim (Bool-cases (has_failed doc.status)) [
          | inl f ↦
              rw (e, f, enqueue_job-documents, reset_stages-documents)
                (revived doc _ found f refl refl refl)
          | inr f ↦ rw (e, f) (known doc _ found f refl refl refl)
        ]
      ]

-- Every upload has one of these outcomes.
pub upload_document-Outcome :
    (services : Services) (fresh : Fresh) (auth : AuthContext) (strategy : Option Text)
    (file : UploadFile) (sys : System)
    → Outcome
        (services.sha256 file.content)
        (upload_name file.filename)
        auth.tenant_id
        fresh
        sys.db.documents
        (upload_document services fresh auth strategy file sys).0
        (upload_document services fresh auth strategy file sys).1.db.documents
unfolding upload_document
upload_document-Outcome services fresh auth strategy file sys =
    elim (Bool-cases (ltb max_file_size (length file.content))) [
      | inl e ↦ rw e (rejected 413 refl refl)
      | inr e ↦
          elim (Bool-cases (
            one_of
              (detect_mime services.lower services.guess file.content (or_blank file.content_type)
                (upload_name file.filename))
              allowed_mime)) [
                | inr f ↦ rw (e, f) (rejected 415 refl refl)
                | inl f ↦
                    elim (lookup (
                      select (is_duplicate (services.sha256 file.content) auth.tenant_id)
                        sys.db.documents)) [
                          | inl g ↦
                              rw (e, f, g)
                                (upload_new-Outcome services fresh auth.tenant_id _ _ _ file.content
                                  sys g)
                          | inr (inl (doc, g)) ↦
                              rw (e, f, g)
                                (upload_duplicate-Outcome services fresh auth.tenant_id _ _ _ doc
                                  sys g)
                          | inr (inr (several, g)) ↦ rw (e, f, g) (many_same several refl refl)
                        ]
              ]
    ]
