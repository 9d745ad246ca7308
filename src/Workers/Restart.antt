-- ===== src/Workers/Restart.antt =====
-- What an upload of `upload_document` of app/api/routes/ingest.py starts for a document that has failed.
use mathlib.Core.Bool.{false≢true}
use knowledgebase.Prelude.{
  ℕ, ◌≡◌, inl, inr, refl, sym, ◌∙◌, true, false, Option, [], ◌∷◌, length, ltb, ◌==◌, Bool-cases,
  arith, In, All-mono, ==_refl, List, ◌++◌, ap,
}
use knowledgebase.Prelude.Text.{Text, one_of}
use knowledgebase.Prelude.Table.{select, update, exists}
use knowledgebase.Prelude.Counts.{select-update_comm}
use knowledgebase.Models.{Digest, Uuid, Time, Document, PipelineJob, Payload, Detail}
use knowledgebase.Models.Status.{DocStatus, same_doc_status, StageName, StageStatus, JobStage}
use knowledgebase.Models.Integrity.{has_document}
use knowledgebase.Prelude.Keys.{Distinct}
use knowledgebase.Queue.{enqueue, new_job, default_attempts}
use knowledgebase.Pipeline.{System, update_stage}
use knowledgebase.Access.{answered, AuthContext}
use knowledgebase.Ingest.Mime.{allowed_mime, detect_mime}
use knowledgebase.Ingest.{
  Services, Fresh, UploadFile, has_failed, is_status, max_file_size, or_blank, is_duplicate,
  set_status, mark_document, upload_duplicate, upload_document, upload_name, enqueue_job,
  reset_stages, strategy_of, ingest_job,
}
use knowledgebase.Ingest.Effect.{
  marked, indexed_fine, enqueue_job-documents, reset_stages-documents,
}
use knowledgebase.Ingest.Unique.{alone, shown, id_of}

pub enqueue_job_lem :
    (id now : ℕ) (stage : JobStage) (doc tenant : Uuid) (payload : Payload) (sys : System)
    → has_document doc sys.db.documents ≡ true
    → exists (λ j. j.id == id) sys.db.jobs ≡ false
    → ((enqueue_job id now stage doc tenant payload sys).db.jobs
        ≡ sys.db.jobs ++ new_job id now stage doc tenant payload default_attempts ∷ [])
      × ((enqueue_job id now stage doc tenant payload sys).db.stages ≡ sys.db.stages)
unfolding enqueue_job enqueue
enqueue_job_lem id now stage doc tenant payload sys stored free = rw (stored, free) (refl, refl)

update_stage-jobs :
    (now : Time) (doc tenant : Uuid) (stage : StageName) (status : StageStatus)
    (detail : Option Detail) (sys : System)
    → (update_stage now doc tenant stage status detail sys).db.jobs ≡ sys.db.jobs
unfolding update_stage
update_stage-jobs now doc tenant stage status detail sys =
    elim (Bool-cases (has_document doc sys.db.documents)) [ inl e ↦ rw e refl | inr e ↦ rw e refl ]

reset_stages-jobs :
    (now : Time) (doc tenant : Uuid) (sys : System)
    → (reset_stages now doc tenant sys).db.jobs ≡ sys.db.jobs
unfolding reset_stages
reset_stages-jobs now doc tenant sys =
    rw
      (
        update_stage-jobs now doc tenant StageName.index,
        update_stage-jobs now doc tenant StageName.embed,
        update_stage-jobs now doc tenant StageName.chunk,
        update_stage-jobs now doc tenant StageName.parse,
      )
      refl

has_document-In : (d : Document) (docs : List Document) → In d docs → has_document d.id docs ≡ true
unfolding has_document exists
has_document-In d [] m = absurd m
has_document-In d (x ∷ docs) (inl e) =
    let same : d.id ≡ x.id = ap (λ (y : Document). y.id) e in ground (arith, same, ==_refl x.id)
has_document-In d (x ∷ docs) (inr m) = ground (arith, has_document-In d docs m)

-- The only live document of a content, with a status that is a live one too.
pub marked-shown :
    (c : Digest) (t : Uuid) (now : Time) (s : DocStatus) (docs : List Document) (doc : Document)
    → Distinct id_of docs
    → select (is_duplicate c t) docs ≡ doc ∷ []
    → is_duplicate c t (set_status now s doc) ≡ true
    → select (is_duplicate c t) (marked now s doc.id docs) ≡ set_status now s doc ∷ []
unfolding update
marked-shown c t now s docs doc ids found live =
    let row = shown (is_duplicate c t) docs doc found in
    rw
      (
        select-update_comm (is_duplicate c t) (λ x. x.id == doc.id) (set_status now s) docs
            (All-mono (λ x. (x.id == doc.id) ≡ true → x ≡ doc) _ docs
              (λ x one k. rw (one k) (live ∙ sym row.1)) (alone docs doc ids row.0)),
        found,
        ==_refl doc.id,
      )
      refl

-- The upload `after` has started the ingestion of the document of `failed` again: the only live document of the content is the same, but
-- pending; one job is new, the first attempt of an ingestion of the document, due now; and the stages are reset.
pub record IsRestarted (c : Digest) (tenant : Uuid) (fresh : Fresh) (strategy : Option Text)
    (doc : Document) (failed after : System) : Type 0 where
  pub documents :
      select (is_duplicate c tenant) after.db.documents
      ≡ record doc { status = DocStatus.pending; updated_at = fresh.now } ∷ []
  pub jobs :
      after.db.jobs
      ≡ failed.db.jobs
        ++ new_job fresh.job_id fresh.now JobStage.ingest doc.id tenant
            (ingest_job tenant doc (strategy_of strategy))
            default_attempts
          ∷ []
  pub stages :
      after.db.stages
      ≡ (reset_stages fresh.now doc.id tenant
          (mark_document fresh.now DocStatus.pending doc.id failed)).db.stages

pending_live :
    (c : Digest) (t : Uuid) (now : Time) (d : Document)
    → is_duplicate c t d ≡ true
    → is_duplicate c t (set_status now DocStatus.pending d) ≡ true
unfolding is_duplicate set_status same_doc_status
pending_live c t now d e = ground arith

-- An upload of a content whose document has failed.
pub retried :
    (services : Services) (fresh : Fresh) (auth : AuthContext) (strategy : Option Text)
    (file : UploadFile) (sys : System) (doc : Document)
    → ltb max_file_size (length file.content) ≡ false
    → one_of
        (detect_mime services.lower services.guess file.content
          (or_blank file.content_type)
          (upload_name file.filename))
        allowed_mime
      ≡ true
    → Distinct id_of sys.db.documents
    → select (is_duplicate (services.sha256 file.content) auth.tenant_id) sys.db.documents
      ≡ doc ∷ []
    → has_failed doc.status ≡ true
    → exists (λ j. j.id == fresh.job_id) sys.db.jobs ≡ false
    → ((upload_document services fresh auth strategy file sys).0
        ≡ answered (record {
          document_id = doc.id;
          status = DocStatus.pending;
          message = "Previous ingestion failed — reprocessing from stored file";
        }))
      × IsRestarted
          (services.sha256 file.content)
          auth.tenant_id
          fresh
          strategy
          doc
          sys
          (upload_document services fresh auth strategy file sys).1
unfolding upload_document upload_duplicate mark_document set_status
retried services fresh auth strategy file sys doc small mime ids found failed free =
    elim (Bool-cases (is_status DocStatus.indexed doc)) [
      | inl e ↦ absurd (false≢true (sym (indexed_fine doc.status e) ∙ failed))
      | inr e ↦ rw (small, mime, found, e, failed) (refl, restarted)
    ]
  where
    c : Digest
    c = services.sha256 file.content

    pending : System
    pending = mark_document fresh.now DocStatus.pending doc.id sys

    reset : System
    reset = reset_stages fresh.now doc.id auth.tenant_id pending

    job : Payload
    job = ingest_job auth.tenant_id doc (strategy_of strategy)

    row : In doc sys.db.documents × (is_duplicate c auth.tenant_id doc ≡ true)
    row = shown (is_duplicate c auth.tenant_id) sys.db.documents doc found

    live : is_duplicate c auth.tenant_id (set_status fresh.now DocStatus.pending doc) ≡ true
    live = pending_live c auth.tenant_id fresh.now doc row.1

    there :
        In
          (set_status fresh.now DocStatus.pending doc)
          (marked fresh.now DocStatus.pending doc.id sys.db.documents)
    there =
        (shown (is_duplicate c auth.tenant_id) _ _ (
          marked-shown c auth.tenant_id fresh.now DocStatus.pending sys.db.documents doc ids found
            live)).0

    queued :
        ((enqueue_job fresh.job_id fresh.now JobStage.ingest doc.id auth.tenant_id job
            reset).db.jobs
          ≡ reset.db.jobs
            ++ new_job fresh.job_id fresh.now JobStage.ingest doc.id auth.tenant_id job
                default_attempts
              ∷ [])
        × ((enqueue_job fresh.job_id fresh.now JobStage.ingest doc.id auth.tenant_id job
              reset).db.stages
            ≡ reset.db.stages)
    queued =
        enqueue_job_lem fresh.job_id fresh.now JobStage.ingest doc.id auth.tenant_id job reset
          (rw reset_stages-documents
            (has_document-In (set_status fresh.now DocStatus.pending doc) _ there))
          (rw (reset_stages-jobs fresh.now doc.id auth.tenant_id pending) free)

    restarted :
        IsRestarted c auth.tenant_id fresh strategy doc sys
          (enqueue_job fresh.job_id fresh.now JobStage.ingest doc.id auth.tenant_id job reset)
    restarted = record {
      documents =
          rw (enqueue_job-documents, reset_stages-documents)
            (marked-shown c auth.tenant_id fresh.now DocStatus.pending sys.db.documents doc ids
              found live);
      jobs =
          queued.0
          ∙ ap
              (λ (js : List PipelineJob).
                js
                ++ new_job fresh.job_id fresh.now JobStage.ingest doc.id auth.tenant_id job
                    default_attempts
                  ∷ [])
              (reset_stages-jobs fresh.now doc.id auth.tenant_id pending);
      stages = queued.1;
    }
