-- ===== src/Ingest/Again.antt =====
-- Uploading the same file again, and what an upload does to other tenants
-- (app/api/routes/ingest.py).
use knowledgebase.Prelude.{
  ◌≡◌, ◌≢◌, inl, inr, refl, sym, ap, ◌∙◌, Bool, true, false, not, String, Option, List, [], ◌∷◌,
  ◌++◌, length, arith, ltb, ◌==◌, ==_refl, Bool-cases, In, All-mono,
}
use knowledgebase.Prelude.Text.{Text, one_of}
use knowledgebase.Prelude.Table.{select, update}
use knowledgebase.Prelude.Keys.{Distinct}
use knowledgebase.Prelude.Counts.{
  length-select, select-append, select-update_comm, select-update_hidden,
}
use knowledgebase.Models.{Uuid, Digest, Time, Document}
use knowledgebase.Models.Status.{DocStatus, same_doc_status}
use knowledgebase.Pipeline.{System}
use knowledgebase.Access.{Answer, answered, http_error, multiple_results, AuthContext}
use knowledgebase.Ingest.Mime.{allowed_mime, detect_mime}
use knowledgebase.Ingest.{
  Services, Fresh, UploadFile, IngestResponse, max_file_size, or_blank, has_failed, is_status,
  is_duplicate, is_namesake, set_status, upload_duplicate, upload_document, upload_name,
}
use knowledgebase.Ingest.Effect.{
  marked, IsNew, Replaced, kept, gone, Outcome, rejected, many_same, many_named, known, revived,
  not_stored, stored, upload_document-Outcome,
}
use knowledgebase.Ingest.Unique.{IsValid, id_of, alone, shown, Replaced-IsValid}

-- With the invariant, an upload never meets several rows where it expects one.
pub upload_never_stuck :
    (services : Services) (fresh : Fresh) (auth : AuthContext) (strategy : Option Text)
    (file : UploadFile) (sys : System)
    → IsValid sys.db.documents
    → (upload_document services fresh auth strategy file sys).0 ≢ multiple_results
upload_never_stuck services fresh auth strategy file sys h stuck =
    elim (upload_document-Outcome services fresh auth strategy file sys) [
      | rejected code a _ ↦ cc
      | many_same several _ _ ↦ omega (
        arith,
        h.contents (services.sha256 file.content) auth.tenant_id,
        length-select (is_duplicate (services.sha256 file.content) auth.tenant_id) sys.db.documents,
      )
      | many_named several _ _ ↦ omega (
        arith,
        h.names (upload_name file.filename) auth.tenant_id,
        length-select (is_namesake (upload_name file.filename) auth.tenant_id) sys.db.documents,
      )
      | known doc r _ _ a _ _ ↦ cc
      | revived doc r _ _ a _ _ ↦ cc
      | not_stored _ _ (inl a) ↦ cc
      | not_stored _ _ (inr a) ↦ cc
      | stored base new r _ _ _ _ a _ _ ↦ cc
    ]

-- The one live document of a content, which is not in a failed state.
pub record Settled (checksum : Digest) (tenant : Uuid) (docs : List Document) (id : Uuid)
    : Type 0 where
  pub doc : Document
  pub found : select (is_duplicate checksum tenant) docs ≡ doc ∷ []
  pub unfailed : has_failed doc.status ≡ false
  pub has_id : doc.id ≡ id

kept_live :
    (c : Digest) (t : Uuid) (now : Time) (d : Document)
    → is_duplicate c t d ≡ true
    → is_duplicate c t (set_status now DocStatus.pending d) ≡ true
unfolding is_duplicate set_status same_doc_status
kept_live c t now d e = ground arith

fresh_live :
    (checksum : Digest) (name : Text) (tenant : Uuid) (fresh : Fresh) (new : Document)
    → IsNew checksum name tenant fresh new
    → is_duplicate checksum tenant new ≡ true
unfolding is_duplicate same_doc_status
fresh_live checksum name tenant fresh new h =
    rw (h.checksum_of, h.tenant_of, h.is_pending) (ground (arith, ==_refl checksum, ==_refl tenant))

no_rows : (xs : List Document) → length xs ≡ 0 → xs ≡ []
no_rows [] e = refl
no_rows (x ∷ xs) e = absurd (omega arith)

++-nil : (xs : List Document) → xs ++ [] ≡ xs
++-nil [] = refl
++-nil (x ∷ xs) = ap (λ r. x ∷ r) (++-nil xs)

same_answer :
    (a : Answer IngestResponse) (r s : IngestResponse)
    → a ≡ answered r
    → a ≡ answered s
    → s.document_id ≡ r.document_id
same_answer a r s e f = ground arith

Outcome-Settled :
    (checksum : Digest) (name : Text) (tenant : Uuid) (fresh : Fresh) (docs : List Document)
    {a : Answer IngestResponse} {after : List Document} (r : IngestResponse)
    → IsValid docs
    → a ≡ answered r
    → Outcome checksum name tenant fresh docs a after
    → Settled checksum tenant after r.document_id
unfolding update
Outcome-Settled checksum name tenant fresh docs r h e (rejected code f _) = absurd (cc)
Outcome-Settled checksum name tenant fresh docs {a = a} r h e (many_same _ f _) = absurd (cc)
Outcome-Settled checksum name tenant fresh docs {a = a} r h e (many_named _ f _) = absurd (cc)
Outcome-Settled checksum name tenant fresh docs {a = a} r h e
      (known doc s found unfailed f id after) =
    record {
      doc = doc;
      found = rw after found;
      unfailed = unfailed;
      has_id = sym id ∙ same_answer a r s e f;
    }
Outcome-Settled checksum name tenant fresh docs {a = a} r h e
      (revived doc s found failed f id after) =
    let (m, dup) = shown (is_duplicate checksum tenant) docs doc found in
    record {
      doc = set_status fresh.now DocStatus.pending doc;
      found =
          rw
            (
              after,
              select-update_comm (is_duplicate checksum tenant) (λ x. x.id == doc.id)
                  (set_status fresh.now DocStatus.pending) docs
                  (All-mono (λ x. (x.id == doc.id) ≡ true → x ≡ doc) _ docs
                    (λ x same k.
                      rw (same k) (kept_live checksum tenant fresh.now doc dup ∙ sym dup))
                    (alone docs doc h.ids m)),
              found,
              ==_refl doc.id,
            )
            refl;
      unfailed = unfold set_status in refl;
      has_id = unfold set_status in (sym id ∙ same_answer a r s e f);
    }
Outcome-Settled checksum name tenant fresh docs {a = a} r h e (not_stored _ _ (inl f)) = absurd (cc)
Outcome-Settled checksum name tenant fresh docs {a = a} r h e (not_stored _ _ (inr f)) = absurd (cc)
Outcome-Settled checksum name tenant fresh docs {a = a} r h e
      (stored base new s none_same replaced free is_new f id after) =
    let facts = Replaced-IsValid name tenant fresh.now docs checksum h none_same replaced in
    record {
      doc = new;
      found =
          rw
            (
              after,
              select-append,
              fresh_live checksum name tenant fresh new is_new,
              no_rows (select (is_duplicate checksum tenant) base) (length-select _ base ∙ facts.1),
            )
            refl;
      unfailed = rw is_new.is_pending refl;
      has_id = is_new.id ∙ sym id ∙ same_answer a r s e f;
    }

-- An upload of a content whose document is there and has not failed answers with that document
-- and writes nothing.
pub Settled-upload :
    (services : Services) (fresh : Fresh) (auth : AuthContext) (strategy : Option Text)
    (file : UploadFile) (sys : System) (id : Uuid)
    → ltb max_file_size (length file.content) ≡ false
    → one_of
        (detect_mime services.lower services.guess file.content
          (or_blank file.content_type)
          (upload_name file.filename))
        allowed_mime
      ≡ true
    → Settled (services.sha256 file.content) auth.tenant_id sys.db.documents id
    → (s : DocStatus) × (m : String) × (upload_document services fresh auth strategy file sys
        ≡ (answered (record { document_id = id; status = s; message = m }), sys))
unfolding upload_document upload_duplicate
Settled-upload services fresh auth strategy file sys id small mime h =
    elim (Bool-cases (is_status DocStatus.indexed h.doc)) [
      | inl e ↦ (
        DocStatus.indexed,
        "Document already indexed — no reprocessing needed",
        rw (small, mime, h.found, e, h.has_id) refl,
      )
      | inr e ↦ (
        h.doc.status,
        "Document is already being processed",
        rw (small, mime, h.found, e, h.unfailed, h.has_id) refl,
      )
    ]

size_checked :
    (services : Services) (fresh : Fresh) (auth : AuthContext) (strategy : Option Text)
    (file : UploadFile) (sys : System) (r : IngestResponse)
    → (upload_document services fresh auth strategy file sys).0 ≡ answered r
    → ltb max_file_size (length file.content) ≡ false
unfolding upload_document
size_checked services fresh auth strategy file sys r e =
    elim (Bool-cases (ltb max_file_size (length file.content))) [
      | inl f ↦ absurd (too_large (rw f at e))
      | inr f ↦ f
    ]
  where
    too_large : http_error 413 ≡ answered r → ⊥
    too_large k = cc

-- Uploading twice is uploading once: in a valid table, after an upload that was accepted, another
-- upload of the same content by the same tenant, under any name and with any admissible type,
-- answers with the same document and writes nothing at all.
pub upload_twice :
    (services : Services) (fresh later : Fresh) (auth : AuthContext)
    (strategy strategy' : Option Text) (file file' : UploadFile) (sys : System) (r : IngestResponse)
    → IsValid sys.db.documents
    → (upload_document services fresh auth strategy file sys).0 ≡ answered r
    → file'.content ≡ file.content
    → one_of
        (detect_mime services.lower services.guess file'.content
          (or_blank file'.content_type)
          (upload_name file'.filename))
        allowed_mime
      ≡ true
    → (s : DocStatus) × (m : String) × (upload_document services later auth strategy' file'
          (upload_document services fresh auth strategy file sys).1
        ≡ (
          answered (record { document_id = r.document_id; status = s; message = m }),
          (upload_document services fresh auth strategy file sys).1,
        ))
upload_twice services fresh later auth strategy strategy' file file' sys r h accepted same mime =
    Settled-upload services later auth strategy' file'
      (upload_document services fresh auth strategy file sys).1 r.document_id
      (rw same (size_checked services fresh auth strategy file sys r accepted)) mime
      (rw same (
        Outcome-Settled (services.sha256 file.content) (upload_name file.filename) auth.tenant_id
          fresh sys.db.documents r h accepted
          (upload_document-Outcome services fresh auth strategy file sys)))

abbrev pub foreign : Uuid → Document → Bool
foreign tenant d = not (d.tenant_id == tenant)

marked-foreign :
    (tenant : Uuid) (now : Time) (s : DocStatus) (docs : List Document) (d : Document)
    → Distinct id_of docs
    → In d docs
    → d.tenant_id ≡ tenant
    → select (foreign tenant) (marked now s d.id docs) ≡ select (foreign tenant) docs
unfolding set_status
marked-foreign tenant now s docs d h m own =
    select-update_hidden (foreign tenant) (λ x. x.id == d.id) (set_status now s) docs
      (All-mono (λ x. (x.id == d.id) ≡ true → x ≡ d) _ docs
        (λ x same k. rw (same k, own, ==_refl tenant) (refl, refl)) (alone docs d h m))

own_duplicate : (c : Digest) (t : Uuid) (d : Document) → is_duplicate c t d ≡ true → d.tenant_id ≡ t
unfolding is_duplicate
own_duplicate c t d e = ground arith

own_namesake : (n : Text) (t : Uuid) (d : Document) → is_namesake n t d ≡ true → d.tenant_id ≡ t
unfolding is_namesake
own_namesake n t d e = ground arith

Replaced-foreign :
    (name : Text) (tenant : Uuid) (now : Time) (docs : List Document) {base : List Document}
    → IsValid docs
    → Replaced name tenant now docs base
    → select (foreign tenant) base ≡ select (foreign tenant) docs
Replaced-foreign name tenant now docs h (kept _ e) = rw e refl
Replaced-foreign name tenant now docs h (gone old found e) =
    let (m, named) = shown (is_namesake name tenant) docs old found in
    rw e (
      marked-foreign tenant now DocStatus.deleting docs old h.ids m
        (own_namesake name tenant old named))

Outcome-foreign :
    (checksum : Digest) (name : Text) (tenant : Uuid) (fresh : Fresh) (docs : List Document)
    {a : Answer IngestResponse} {after : List Document}
    → IsValid docs
    → Outcome checksum name tenant fresh docs a after
    → select (foreign tenant) after ≡ select (foreign tenant) docs
Outcome-foreign checksum name tenant fresh docs h (rejected code _ e) = rw e refl
Outcome-foreign checksum name tenant fresh docs h (many_same _ _ e) = rw e refl
Outcome-foreign checksum name tenant fresh docs h (many_named _ _ e) = rw e refl
Outcome-foreign checksum name tenant fresh docs h (known doc r _ _ _ _ e) = rw e refl
Outcome-foreign checksum name tenant fresh docs h (revived doc r found _ _ _ e) =
    let (m, dup) = shown (is_duplicate checksum tenant) docs doc found in
    rw e (
      marked-foreign tenant fresh.now DocStatus.pending docs doc h.ids m
        (own_duplicate checksum tenant doc dup))
Outcome-foreign checksum name tenant fresh docs h (not_stored _ base _) =
    Replaced-foreign name tenant fresh.now docs h base
Outcome-foreign checksum name tenant fresh docs h (stored base new r _ replaced _ is_new _ _ e) =
    rw (e, select-append, is_new.tenant_of, ==_refl tenant)
      (++-nil (select (foreign tenant) base)
        ∙ Replaced-foreign name tenant fresh.now docs h replaced)

-- In a valid table, an upload leaves the documents of all other tenants as they are, in their
-- order.
pub upload_foreign :
    (services : Services) (fresh : Fresh) (auth : AuthContext) (strategy : Option Text)
    (file : UploadFile) (sys : System)
    → IsValid sys.db.documents
    → select
        (foreign auth.tenant_id)
        (upload_document services fresh auth strategy file sys).1.db.documents
      ≡ select (foreign auth.tenant_id) sys.db.documents
upload_foreign services fresh auth strategy file sys h =
    Outcome-foreign (services.sha256 file.content) (upload_name file.filename) auth.tenant_id fresh
      sys.db.documents h (upload_document-Outcome services fresh auth strategy file sys)
