-- ===== src/Ingest/Unique.antt =====
-- What uploads (app/api/routes/ingest.py) keep true of the documents table, and that the two lookups of an
-- upload never find several rows.
use knowledgebase.Prelude.{
  ◌≤◌, ◌≡◌, inl, inr, refl, sym, ◌∙◌, subst, Bool, true, false, Option, List, [], ◌∷◌, ◌++◌, arith,
  ◌==◌, Bool-cases, In, All, All-mono, All_intro, All-unit, All-update_with, ==_refl,
}
use mathlib.Core.Bool.{false≢true}
use knowledgebase.Prelude.Text.{Text, same_text, same_text→eq}
use knowledgebase.Prelude.Table.{select, count, select-In, In-select}
use knowledgebase.Prelude.Counts.{length-select, count-append, count_zero, count-update_le}
use knowledgebase.Prelude.Keys.{Distinct, Distinct-update, Distinct-append, stored_unique}
use knowledgebase.Models.{Uuid, Digest, Time, Document}
use knowledgebase.Models.Status.{DocStatus, same_doc_status}
use knowledgebase.Models.Integrity.{has_document}
use knowledgebase.Pipeline.{System}
use knowledgebase.Access.{Answer, AuthContext}
use knowledgebase.Ingest.{
  Services, Fresh, UploadFile, IngestResponse, has_failed, is_status, is_duplicate, is_namesake,
  set_status, upload_document, upload_name,
}
use knowledgebase.Ingest.Effect.{
  marked, IsNew, Replaced, kept, gone, Outcome, rejected, many_same, many_named, known, revived,
  not_stored, stored, upload_document-Outcome,
}

abbrev pub id_of : Document → Uuid
id_of d = d.id

-- Ids are unique, no tenant has two live documents of one content, and none has two active ones
-- of one name.
pub record IsValid (docs : List Document) : Type 0 where
  pub ids : Distinct id_of docs
  pub contents : (checksum : Digest) (tenant : Uuid) → count (is_duplicate checksum tenant) docs ≤ 1
  pub names : (name : Text) (tenant : Uuid) → count (is_namesake name tenant) docs ≤ 1

pub alone :
    (docs : List Document) (d : Document)
    → Distinct id_of docs
    → In d docs
    → All (λ x. (x.id == d.id) ≡ true → x ≡ d) docs
alone docs d h m = stored_unique id_of docs d h m

-- A write to one row, which brings no row into the view of `q`.
marked_le :
    (q : Document → Bool) (now : Time) (s : DocStatus) (docs : List Document) (d : Document)
    → Distinct id_of docs
    → In d docs
    → (q (set_status now s d) ≡ true → q d ≡ true)
    → count q (marked now s d.id docs) ≤ count q docs
marked_le q now s docs d h m keep =
    count-update_le q (λ x. x.id == d.id) (set_status now s) docs
      (All-mono (λ x. (x.id == d.id) ≡ true → x ≡ d) _ docs
        (λ x same e k.
          subst (λ y. q y ≡ true) (sym (same e))
            (keep (subst (λ y. q (set_status now s y) ≡ true) (same e) k)))
        (alone docs d h m))

pub marked-Distinct :
    (now : Time) (s : DocStatus) (id : Uuid) (docs : List Document)
    → Distinct id_of docs
    → Distinct id_of (marked now s id docs)
unfolding set_status
marked-Distinct now s id docs h = Distinct-update id_of _ (set_status now s) docs (λ d. refl) h

live_content :
    (checksum c : Digest) (tenant t : Uuid) (now : Time) (s : DocStatus) (d : Document)
    → is_status DocStatus.deleted d ≡ false
    → is_duplicate c t (set_status now s d) ≡ true
    → is_duplicate c t d ≡ true
unfolding is_duplicate set_status
live_content checksum c tenant t now s d live e = ground arith

duplicate_live :
    (c : Digest) (t : Uuid) (d : Document)
    → is_duplicate c t d ≡ true
    → is_status DocStatus.deleted d ≡ false
unfolding is_duplicate
duplicate_live c t d e = ground arith

namesake_live :
    (n : Text) (t : Uuid) (d : Document)
    → is_namesake n t d ≡ true
    → is_status DocStatus.deleted d ≡ false
unfolding is_namesake
namesake_live n t d e = ground arith

failed_active :
    (s : DocStatus)
    → has_failed s ≡ true
    → (same_doc_status s DocStatus.deleted ≡ false) × (same_doc_status s DocStatus.deleting ≡ false)
unfolding same_doc_status
failed_active s e = ground arith

failed_name :
    (n : Text) (t : Uuid) (now : Time) (s : DocStatus) (d : Document)
    → has_failed d.status ≡ true
    → is_namesake n t (set_status now s d) ≡ true
    → is_namesake n t d ≡ true
unfolding is_namesake set_status
failed_name n t now s d f e = ground (arith, failed_active d.status f)

deleting_hidden :
    (n : Text) (t : Uuid) (now : Time) (d : Document)
    → is_namesake n t (set_status now DocStatus.deleting d) ≡ false
unfolding is_namesake set_status same_doc_status
deleting_hidden n t now d = ground arith

-- The only row that a SELECT shows.
only :
    (q : Document → Bool) (docs : List Document) (d : Document)
    → select q docs ≡ d ∷ []
    → All (λ x. q x ≡ true → x ≡ d) docs
only q docs d found =
    All_intro _ docs (λ x m e. single x (subst (In x) found (In-select q docs x m e)))
  where
    single : (x : Document) → In x (d ∷ []) → x ≡ d
    single x (inl e) = e
    single x (inr m) = absurd m

pub shown :
    (q : Document → Bool) (docs : List Document) (d : Document)
    → select q docs ≡ d ∷ []
    → In d docs × (q d ≡ true)
shown q docs d found = select-In q docs d (rw found (inl refl))

none_shown : (q : Document → Bool) (docs : List Document) → select q docs ≡ [] → count q docs ≡ 0
none_shown q docs e = sym (length-select q docs) ∙ rw e refl

module _ (name : Text) (tenant : Uuid) (now : Time) (docs : List Document) where
  gone-names :
      (old : Document)
      → select (is_namesake name tenant) docs ≡ old ∷ []
      → count (is_namesake name tenant) (marked now DocStatus.deleting old.id docs) ≡ 0
  gone-names old found = count_zero (is_namesake name tenant) _ (
      All-update_with (λ _. Unit {0}) (λ x. is_namesake name tenant x ≡ true → x ≡ old)
        (λ x. is_namesake name tenant x ≡ false) (λ d. d.id == old.id)
        (set_status now DocStatus.deleting) docs (λ x _ _ _. deleting_hidden name tenant now x)
        (λ x one miss _. elim (Bool-cases (is_namesake name tenant x)) [
          | inl e ↦ absurd (other_id x (one e) miss)
          | inr e ↦ e
        ])
        (only (is_namesake name tenant) docs old found) (All-unit docs))
    where
      other_id : (x : Document) → x ≡ old → (x.id == old.id) ≡ false → ⊥
      other_id x e miss = ground (arith, ==_refl old.id)

  marked-IsValid :
      (s : DocStatus) (d : Document)
      → IsValid docs
      → In d docs
      → is_status DocStatus.deleted d ≡ false
      → ((n : Text) (t : Uuid)
          → is_namesake n t (set_status now s d) ≡ true
          → is_namesake n t d ≡ true)
      → IsValid (marked now s d.id docs)
  marked-IsValid s d h m live keep = record {
    ids = marked-Distinct now s d.id docs h.ids;
    contents = λ c t. omega (
      arith,
      h.contents c t,
      marked_le (is_duplicate c t) now s docs d h.ids m (live_content c c t t now s d live),
    );
    names = λ n t.
        omega (arith, h.names n t, marked_le (is_namesake n t) now s docs d h.ids m (keep n t));
  }

  pub Replaced-IsValid :
      (checksum : Digest) {base : List Document}
      → IsValid docs
      → select (is_duplicate checksum tenant) docs ≡ []
      → Replaced name tenant now docs base
      → IsValid base
        × (count (is_duplicate checksum tenant) base ≡ 0)
        × (count (is_namesake name tenant) base ≡ 0)
  Replaced-IsValid checksum h none_same (kept e base) =
      rw base (h, none_shown _ docs none_same, none_shown _ docs e)
  Replaced-IsValid checksum h none_same (gone old e base) =
      let (m, named) = shown (is_namesake name tenant) docs old e in
      let live = namesake_live name tenant old named in
      rw base (
        marked-IsValid DocStatus.deleting old h m live
            (λ n t k. absurd (false≢true (sym (deleting_hidden n t now old) ∙ k))),
        omega (
          arith,
          none_shown _ docs none_same,
          marked_le (is_duplicate checksum tenant) now DocStatus.deleting docs old h.ids m
              (live_content checksum checksum tenant tenant now DocStatus.deleting old live),
        ),
        gone-names old e,
      )

IsNew-duplicate :
    (checksum c : Digest) (name : Text) (tenant t : Uuid) (fresh : Fresh) (new : Document)
    → IsNew checksum name tenant fresh new
    → is_duplicate c t new ≡ true
    → (c ≡ checksum) × (t ≡ tenant)
unfolding is_duplicate
IsNew-duplicate checksum c name tenant t fresh new h e = ground (arith, h.checksum_of, h.tenant_of)

IsNew-namesake :
    (checksum : Digest) (name n : Text) (tenant t : Uuid) (fresh : Fresh) (new : Document)
    → IsNew checksum name tenant fresh new
    → is_namesake n t new ≡ true
    → (n ≡ name) × (t ≡ tenant)
unfolding is_namesake
IsNew-namesake checksum name n tenant t fresh new h e =
    let same : (same_text new.filename n ≡ true) × ((new.tenant_id == t) ≡ true) = ground arith in
    (sym (same_text→eq new.filename n same.0) ∙ h.name_of, ground (arith, h.tenant_of, same.1))

-- A test that shows the new row shows no other.
appended_le :
    (q : Document → Bool) (docs : List Document) (new : Document)
    → count q docs ≤ 1
    → (q new ≡ true → count q docs ≡ 0)
    → count q (docs ++ new ∷ []) ≤ 1
appended_le q docs new h zero_if = elim (Bool-cases (q new)) [
  | inl e ↦ rw (count-append, e) (omega (arith, zero_if e))
  | inr e ↦ rw (count-append, e) (omega arith)
]

appended-IsValid :
    (checksum : Digest) (name : Text) (tenant : Uuid) (fresh : Fresh) (base : List Document)
    (new : Document)
    → IsValid base
    → count (is_duplicate checksum tenant) base ≡ 0
    → count (is_namesake name tenant) base ≡ 0
    → has_document fresh.document_id base ≡ false
    → IsNew checksum name tenant fresh new
    → IsValid (base ++ new ∷ [])
unfolding has_document
appended-IsValid checksum name tenant fresh base new h no_content no_name no_id is_new = record {
  ids = Distinct-append id_of base new (rw is_new.id no_id) h.ids;
  contents = λ c t. appended_le (is_duplicate c t) base new (h.contents c t) (λ e.
      let same = IsNew-duplicate checksum c name tenant t fresh new is_new e in
      rw (same.0, same.1) no_content);
  names = λ n t. appended_le (is_namesake n t) base new (h.names n t) (λ e.
      let same = IsNew-namesake checksum name n tenant t fresh new is_new e in
      rw (same.0, same.1) no_name);
}

Outcome-IsValid :
    (checksum : Digest) (name : Text) (tenant : Uuid) (fresh : Fresh) (docs : List Document)
    {a : Answer IngestResponse} {after : List Document}
    → IsValid docs
    → Outcome checksum name tenant fresh docs a after
    → IsValid after
Outcome-IsValid checksum name tenant fresh docs h (rejected code _ e) = rw e h
Outcome-IsValid checksum name tenant fresh docs h (many_same _ _ e) = rw e h
Outcome-IsValid checksum name tenant fresh docs h (many_named _ _ e) = rw e h
Outcome-IsValid checksum name tenant fresh docs h (known doc r _ _ _ _ e) = rw e h
Outcome-IsValid checksum name tenant fresh docs h (revived doc r found failed _ _ e) =
    let (m, dup) = shown (is_duplicate checksum tenant) docs doc found in
    rw e (
      marked-IsValid name tenant fresh.now docs DocStatus.pending doc h m
        (duplicate_live checksum tenant doc dup)
        (λ n t. failed_name n t fresh.now DocStatus.pending doc failed))
Outcome-IsValid checksum name tenant fresh docs h (not_stored none_same base _) =
    (Replaced-IsValid name tenant fresh.now docs checksum h none_same base).0
Outcome-IsValid checksum name tenant fresh docs h
      (stored base new r none_same replaced free is_new _ _ e) =
    let (valid, no_content, no_name) =
      Replaced-IsValid name tenant fresh.now docs checksum h none_same replaced in
    rw e (appended-IsValid checksum name tenant fresh base new valid no_content no_name free is_new)

-- If ids are unique and no tenant has two live documents of one content or two active ones of one
-- name, then it is so after any upload, whatever its answer is.
pub upload_document-IsValid :
    (services : Services) (fresh : Fresh) (auth : AuthContext) (strategy : Option Text)
    (file : UploadFile) (sys : System)
    → IsValid sys.db.documents
    → IsValid (upload_document services fresh auth strategy file sys).1.db.documents
upload_document-IsValid services fresh auth strategy file sys h =
    Outcome-IsValid (services.sha256 file.content) (upload_name file.filename) auth.tenant_id fresh
      sys.db.documents h (upload_document-Outcome services fresh auth strategy file sys)
