-- ===== src/Ingest/Reprocess.antt =====
-- `reprocess_document` of app/api/routes/ingest.py.
use mathlib.Core.Bool.{false≢true}
use knowledgebase.Prelude.{
  ◌≤◌, ◌≡◌, ◌≢◌, inl, inr, refl, sym, ap, ◌∙◌, subst, Bool, true, false, Option, List, [], ◌∷◌,
  length, arith, ltb, ◌==◌, ==_refl, if◌then◌else◌, Bool-cases, In, All, All_intro, All-in,
}
use knowledgebase.Prelude.Text.{Text, same_text, one_of}
use knowledgebase.Prelude.Table.{select, count, In-select}
use knowledgebase.Prelude.Counts.{length-select, select-update_hidden, In-update, count_two}
use knowledgebase.Models.{Uuid, Digest, Time, Document}
use knowledgebase.Models.Status.{DocStatus, same_doc_status}
use knowledgebase.Pipeline.{System}
use knowledgebase.Access.{multiple_results, one_or_none, many, AuthContext}
use knowledgebase.Ingest.Mime.{allowed_mime, detect_mime}
use knowledgebase.Ingest.{
  Services, Fresh, UploadFile, max_file_size, or_blank, is_status, is_own, is_duplicate,
  is_namesake, set_status, mark_document, assign_pending, upload_new, upload_document,
  reprocess_document, upload_name,
}
use knowledgebase.Ingest.Effect.{marked, enqueue_job-documents, reset_stages-documents}
use knowledgebase.Ingest.Unique.{IsValid, alone, shown}

-- The documents after a document in another state than pending is processed again.
reprocessed :
    (fresh : Fresh) (auth : AuthContext) (strategy : Option Text) (d : Document) (sys : System)
    → select (is_own d.id auth.tenant_id) sys.db.documents ≡ d ∷ []
    → is_status DocStatus.pending d ≡ false
    → (reprocess_document fresh auth d.id strategy sys).1.db.documents
      ≡ marked fresh.now DocStatus.pending d.id sys.db.documents
unfolding reprocess_document assign_pending mark_document
reprocessed fresh auth strategy d sys found other =
    rw (found, reprocess_document, enqueue_job-documents, reset_stages-documents, other) refl

several : (xs : List Document) → 2 ≤ length xs → one_or_none xs ≡ many
several [] h = absurd (omega arith)
several (x ∷ []) h = absurd (omega arith)
several (x ∷ y ∷ xs) h = refl

named_again :
    (n : Text) (t : Uuid) (now : Time) (d : Document)
    → (same_text d.filename n ≡ true)
    → d.tenant_id ≡ t
    → is_namesake n t (set_status now DocStatus.pending d) ≡ true
unfolding is_namesake set_status same_doc_status
named_again n t now d name own = rw (name, own, ==_refl t) refl

still_new :
    (c : Digest) (t : Uuid) (now : Time) (d : Document)
    → is_status DocStatus.deleted d ≡ false
    → is_duplicate c t d ≡ false
    → is_duplicate c t (set_status now DocStatus.pending d) ≡ false
unfolding is_duplicate set_status same_doc_status
still_new c t now d live h = ground arith

own_live :
    (id t : Uuid) (d : Document)
    → is_own id t d ≡ true
    → (is_status DocStatus.deleted d ≡ false) × (d.tenant_id ≡ t)
unfolding is_own
own_live id t d e = ground arith

absent :
    (q : Document → Bool) (docs : List Document) → select q docs ≡ [] → All (λ x. q x ≡ false) docs
absent q docs none = All_intro _ docs (λ x m. elim (Bool-cases (q x)) [
  | inl e ↦ absurd (subst (In x) none (In-select q docs x m e))
  | inr e ↦ e
])

-- A name that two active documents have stops every upload of a new content under it.
upload_stuck :
    (services : Services) (fresh : Fresh) (auth : AuthContext) (strategy : Option Text)
    (file : UploadFile) (sys : System)
    → ltb max_file_size (length file.content) ≡ false
    → one_of
        (detect_mime services.lower services.guess file.content
          (or_blank file.content_type)
          (upload_name file.filename))
        allowed_mime
      ≡ true
    → select (is_duplicate (services.sha256 file.content) auth.tenant_id) sys.db.documents ≡ []
    → 2 ≤ count (is_namesake (upload_name file.filename) auth.tenant_id) sys.db.documents
    → (upload_document services fresh auth strategy file sys).0 ≡ multiple_results
unfolding upload_document upload_new
upload_stuck services fresh auth strategy file sys small mime none_same two =
    rw
      (
        small,
        mime,
        none_same,
        upload_new,
        several (select (is_namesake (upload_name file.filename) auth.tenant_id) sys.db.documents) (
            omega (
              arith,
              two,
              length-select (is_namesake (upload_name file.filename) auth.tenant_id)
                  sys.db.documents,
            )),
      )
      refl

deleting_not_named :
    (n : Text) (t : Uuid) (d : Document) → d.status ≡ DocStatus.deleting → is_namesake n t d ≡ false
unfolding is_namesake same_doc_status
deleting_not_named n t d gone = rw gone (ground arith)

-- Two documents of one name, one of them about to be deleted, are both active when that one is pending again.
two_named :
    (n : Text) (t : Uuid) (now : Time) (docs : List Document) (d e : Document)
    → IsValid docs
    → In d docs
    → d.tenant_id ≡ t
    → d.status ≡ DocStatus.deleting
    → same_text d.filename n ≡ true
    → In e docs
    → is_namesake n t e ≡ true
    → 2 ≤ count (is_namesake n t) (marked now DocStatus.pending d.id docs)
two_named n t now docs d e h m own gone name k active =
    count_two (is_namesake n t) (marked now DocStatus.pending d.id docs)
      (set_status now DocStatus.pending d) e (rw (==_refl d.id) at (there d m))
      (rw other at (there e k)) apart (named_again n t now d name own) active
  where
    there :
        (x : Document)
        → In x docs
        → In
            (if x.id == d.id then set_status now DocStatus.pending x else x)
            (marked now DocStatus.pending d.id docs)
    there = In-update (λ x. x.id == d.id) (set_status now DocStatus.pending) docs

    other : (e.id == d.id) ≡ false
    other = elim (Bool-cases (e.id == d.id)) [
      | inl same ↦ absurd (
          false≢true (
            sym (deleting_not_named n t d gone)
            ∙ subst (λ x. is_namesake n t x ≡ true) (All-in _ docs e (alone docs d h.ids m) k same)
                active))
      | inr miss ↦ miss
    ]

    apart : set_status now DocStatus.pending d ≢ e
    apart same =
        unfold set_status in
        absurd (false≢true (sym other ∙ rw (sym (ap (λ x. x.id) same)) (==_refl d.id)))

-- In a valid table, processing again a document that is being deleted, when an active one has its
-- name, makes every admissible upload of a new content under that name fail with an exception that
-- nothing catches.
pub reprocess_blocks_name :
    (services : Services) (fresh later : Fresh) (auth : AuthContext)
    (strategy strategy' : Option Text) (file : UploadFile) (sys : System) (d e : Document)
    → IsValid sys.db.documents
    → select (is_own d.id auth.tenant_id) sys.db.documents ≡ d ∷ []
    → d.status ≡ DocStatus.deleting
    → same_text d.filename (upload_name file.filename) ≡ true
    → In e sys.db.documents
    → is_namesake (upload_name file.filename) auth.tenant_id e ≡ true
    → select (is_duplicate (services.sha256 file.content) auth.tenant_id) sys.db.documents ≡ []
    → ltb max_file_size (length file.content) ≡ false
    → one_of
        (detect_mime services.lower services.guess file.content
          (or_blank file.content_type)
          (upload_name file.filename))
        allowed_mime
      ≡ true
    → (upload_document services later auth strategy' file
        (reprocess_document fresh auth d.id strategy sys).1).0
      ≡ multiple_results
reprocess_blocks_name services fresh later auth strategy strategy' file sys d e h found gone name m
      active none_same small mime =
    upload_stuck services later auth strategy' file
      (reprocess_document fresh auth d.id strategy sys).1 small mime
      (rw reprocessed_docs (
        select-update_hidden duplicate _ (set_status fresh.now DocStatus.pending) docs no_content
        ∙ none_same))
      (rw reprocessed_docs (
        two_named (upload_name file.filename) auth.tenant_id fresh.now docs d e h row.0 own.1 gone
          name m active))
  where
    docs : List Document
    docs = sys.db.documents

    duplicate : Document → Bool
    duplicate = is_duplicate (services.sha256 file.content) auth.tenant_id

    row : In d docs × (is_own d.id auth.tenant_id d ≡ true)
    row = shown (is_own d.id auth.tenant_id) docs d found

    own : (is_status DocStatus.deleted d ≡ false) × (d.tenant_id ≡ auth.tenant_id)
    own = own_live d.id auth.tenant_id d row.1

    reprocessed_docs :
        (reprocess_document fresh auth d.id strategy sys).1.db.documents
        ≡ marked fresh.now DocStatus.pending d.id docs
    reprocessed_docs =
        reprocessed fresh auth strategy d sys found (unfold same_doc_status in rw gone refl)

    no_content :
        All
          (λ x.
            (x.id == d.id) ≡ true
            → (duplicate x ≡ false)
              × (duplicate (set_status fresh.now DocStatus.pending x) ≡ false))
          docs
    no_content = All_intro _ docs (λ x k same.
        let e : x ≡ d = All-in _ docs x (alone docs d h.ids row.0) k same in
        let new : duplicate d ≡ false = All-in _ docs d (absent duplicate docs none_same) row.0 in
        rw e (new, still_new (services.sha256 file.content) auth.tenant_id fresh.now d own.0 new))
