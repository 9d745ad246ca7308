-- ===== src/Queue/Exclusive.antt =====
-- While a worker processes a job, no other worker is handed it.
use mathlib.Core.Bool.{false≢true}
use knowledgebase.Prelude.{
  ◌≡◌, ◌≢◌, refl, ◌∙◌, ap, sym, Bool, true, false, not, ◌&&◌, Option, none, some, List, [], ◌∷◌,
  arith, All, All-in, All-append, All-update_with, All-unit, All-delete, Bool-cases, Option-cases,
  inl, inr, ◌==◌, ==_iff, leb,
}
use knowledgebase.Prelude.Text.{Text}
use knowledgebase.Prelude.Table.{update, exists, first, first-In}
use knowledgebase.Models.{Uuid, Time, Payload, PipelineJob, Document, Db}
use knowledgebase.Models.Status.{JobStage, JobStatus, same_job_status}
use knowledgebase.Models.Integrity.{has_document, delete_document}
use knowledgebase.Queue.{
  default_attempts, enqueue, is_claimable, start, claim, ack, finish, give_up, retry, nack_row,
  nack, cleanup_old_jobs, is_old,
}
use knowledgebase.Queue.Claim.{Claimed, claim_takes_oldest, claim_idle}
use knowledgebase.Queue.Trace.{
  Op, enqueue_job, claim_job, ack_job, nack_job, recover, cleanup, insert_document, purge_document,
  step, run, releases,
}

-- The job `id`, if it is stored, does not wait to be claimed.
abbrev Held : Uuid → PipelineJob → Type 0
Held id j = (j.id == id) ≡ true → same_job_status j.status JobStatus.pending ≡ false

module _ (id : Uuid) where
  update-Held :
      (p : PipelineJob → Bool) (f : PipelineJob → PipelineJob) (js : List PipelineJob)
      → ((j : PipelineJob) → p j ≡ true → Held id j → Held id (f j))
      → All (Held id) js
      → All (Held id) (update p f js)
  update-Held p f js keep h =
      All-update_with (Held id) (λ _. Unit {0}) (Held id) p f js (λ j _ hit k. keep j hit k)
        (λ j _ miss k. k) (All-unit js) h

  start-Held :
      (p : PipelineJob → Bool) (now : Time) (js : List PipelineJob)
      → All (Held id) js
      → All (Held id) (update p (start now) js)
  unfolding start same_job_status
  start-Held p now js h = update-Held p (start now) js (λ j _ k _. refl) h

  claim-Held :
      (busy : List Uuid) (now : Time) (stage : JobStage) (db : Db)
      → All (Held id) db.jobs
      → All (Held id) (claim busy now stage db).1.jobs
  unfolding start
  claim-Held busy now stage db h = elim (Option-cases (claim busy now stage db).0) [
    | inl e ↦ rw (claim_idle busy now stage db e) h
    | inr (j, e) ↦
        let c : Claimed busy now stage db j (claim busy now stage db).1 =
          claim_takes_oldest busy now stage db e in
        rw c.written (start-Held _ now db.jobs h)
  ]

  nack-Held :
      (now : Time) (other : Uuid) (error : Text) (found : Option PipelineJob) (db : Db)
      → (other == id) ≡ false
      → first (λ j. j.id == other) db.jobs ≡ found
      → All (Held id) db.jobs
      → All (Held id) (nack_row now error found db).jobs
  unfolding nack_row give_up retry
  nack-Held now other error none db n e h = h
  nack-Held now other error (some row) db n e h =
      let m = (first-In (λ (j : PipelineJob). j.id == other) db.jobs e).1 in
      elim (Bool-cases (leb row.max_attempts row.attempt)) [
        | inl b ↦ rw b (update-Held _ (give_up error) db.jobs (λ j hit k q. ground arith) h)
        | inr b ↦ rw b (update-Held _ (retry _ error) db.jobs (λ j hit k q. ground arith) h)
      ]

  enqueue-Held :
      (new : Uuid) (now : Time) (stage : JobStage) (document tenant : Uuid) (p : Payload) (db : Db)
      → (new == id) ≡ false
      → All (Held id) db.jobs
      → All (Held id) (enqueue new now stage document tenant p default_attempts db).1.jobs
  unfolding enqueue
  enqueue-Held new now stage document tenant p db other h =
      elim (Bool-cases
        (has_document document db.documents && not (exists (λ j. j.id == new) db.jobs))) [
          | inl e ↦ rw e (All-append (Held id) db.jobs _ h ((λ q. ground arith), tt))
          | inr e ↦ rw e h
        ]

  step-Held :
      (op : Op) (db : Db)
      → releases id op ≡ false
      → All (Held id) db.jobs
      → All (Held id) (step op db).jobs
  unfolding step releases
  step-Held (enqueue_job new now stage document tenant p) db n h =
      enqueue-Held new now stage document tenant p db n h
  step-Held (claim_job busy now stage) db n h = claim-Held busy now stage db h
  step-Held (ack_job k) db n h =
      unfold ack finish same_job_status in
      update-Held (λ j. j.id == k) finish db.jobs (λ j _ held _. refl) h
  step-Held (nack_job now k error) db n h =
      unfold nack in nack-Held now k error (first (λ j. j.id == k) db.jobs) db n refl h
  step-Held (recover now) db n h = absurd (false≢true (sym n))
  step-Held (cleanup now days) db n h =
      unfold cleanup_old_jobs in All-delete (Held id) (is_old now days) db.jobs h
  step-Held (insert_document d) db n h = elim (Bool-cases (has_document d.id db.documents)) [
    | inl e ↦ rw e h
    | inr e ↦ rw e h
  ]
  step-Held (purge_document d tenant) db n h =
      unfold delete_document in
      elim (Bool-cases
        (exists (λ (x : Document). (x.id == d) && (x.tenant_id == tenant)) db.documents)) [
          | inl e ↦ rw e (All-delete (Held id) (λ j. j.document_id == d) db.jobs h)
          | inr e ↦ rw e h
        ]

  run-Held :
      (ops : List Op) (db : Db)
      → All (λ op. releases id op ≡ false) ops
      → All (Held id) db.jobs
      → All (Held id) (run ops db).jobs
  unfolding run
  run-Held [] db n h = h
  run-Held (op ∷ ops) db n h = run-Held ops (step op db) n.1 (step-Held op db n.0 h)

waits :
    (busy : List Uuid) (now : Time) (stage : JobStage) (j : PipelineJob)
    → is_claimable busy now stage j ≡ true
    → same_job_status j.status JobStatus.pending ≡ true
unfolding is_claimable
waits busy now stage j h = ground arith

id-start : (now : Time) (row : PipelineJob) → (start now row).id ≡ row.id
unfolding start
id-start now row = refl

started :
    (now : Time) (row : PipelineJob) (js : List PipelineJob)
    → All (Held (start now row).id) (update (λ j. j.id == row.id) (start now) js)
unfolding start same_job_status
started now row js =
    All-update_with (λ _. Unit {0}) (λ _. Unit {0}) (Held row.id) (λ j. j.id == row.id) (start now)
      js (λ j _ hit _ _. refl) (λ j _ miss _ q. absurd (false≢true (sym miss ∙ q))) (All-unit js)
      (All-unit js)

-- After a claim that returned a job, no claim returns a job of the same id, whatever other
-- workers do in between, as long as nobody reports that job as failed, stale jobs are not
-- recovered, and no new job is given its id.
pub claim_exclusive :
    (busy : List Uuid) (now : Time) (stage : JobStage) (db : Db) (ops : List Op) (busy' : List Uuid)
    (now' : Time) (stage' : JobStage) {j k : PipelineJob}
    → (claim busy now stage db).0 ≡ some j
    → All (λ op. releases j.id op ≡ false) ops
    → (claim busy' now' stage' (run ops (claim busy now stage db).1)).0 ≡ some k
    → k.id ≢ j.id
unfolding start
claim_exclusive busy now stage db ops busy' now' stage' {j = j} {k = k} h n again same =
    let c : Claimed busy now stage db j (claim busy now stage db).1 =
      claim_takes_oldest busy now stage db h in
    let d : Claimed busy' now' stage' (run ops (claim busy now stage db).1) k
        (claim busy' now' stage' (run ops (claim busy now stage db).1)).1 =
      claim_takes_oldest busy' now' stage' (run ops (claim busy now stage db).1) again in
    let held =
      run-Held j.id ops (claim busy now stage db).1 n
        (rw (c.written, c.result) (started now c.row db.jobs)) in
    let same_row : d.row.id ≡ j.id =
      sym (id-start now' d.row) ∙ sym (ap (λ (x : PipelineJob). x.id) d.result) ∙ same in
    false≢true (
      sym (
        All-in (Held j.id) (run ops (claim busy now stage db).1).jobs d.row held d.stored
          ((==_iff d.row.id j.id).1 same_row))
      ∙ waits busy' now' stage' d.row d.claimable)
