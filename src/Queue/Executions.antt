-- ===== src/Queue/Executions.antt =====
-- How often a job is handed to a worker, over any run of the queue.
use knowledgebase.Prelude.{
  ℕ, suc, ◌+◌, ◌-◌, ◌≤◌, ◌<◌, ◌≡◌, refl, ap, Bool, true, false, Option, none, some, List, [], ◌∷◌,
  arith, All, All-in, All-append, All-update_with, All-unit, All-delete, Bool-cases, Option-cases,
  inl, inr, ◌==◌, leb, ◌&&◌, not,
}
use mathlib.Core.Bool.{false≢true}
use knowledgebase.Prelude.Text.{Text}
use knowledgebase.Prelude.Table.{update, exists, first}
use knowledgebase.Models.{Uuid, Payload, Document, PipelineJob, Db}
use knowledgebase.Models.Status.{JobStage, JobStatus, same_job_status}
use knowledgebase.Models.Integrity.{has_document, delete_document}
use knowledgebase.Queue.{
  default_attempts, enqueue, is_claimable, start, claim, ack, finish, give_up, retry, nack_row,
  nack, release, is_stale, is_old, recover_stale_jobs, cleanup_old_jobs,
}
use knowledgebase.Queue.Claim.{Claimed, claim_takes_oldest, claim_idle}
use knowledgebase.Queue.Invariant.{IsSound, IsValid}
use knowledgebase.Queue.Runs.{step-IsValid}
use knowledgebase.Queue.Trace.{
  Op, enqueue_job, claim_job, ack_job, nack_job, recover, cleanup, insert_document, purge_document,
  step, recovery_of, recoveries, starts, executions, inserts,
}

abbrev is_deleted : Uuid → Uuid → Document → Bool
is_deleted id tenant d = (d.id == id) && (d.tenant_id == tenant)

-- The job `id`, if it is stored, has had at least `a` attempts.
abbrev Reached : Uuid → ℕ → PipelineJob → Type 0
Reached id a j = (j.id == id) ≡ true → a ≤ j.attempt

module _ (id : Uuid) (a : ℕ) where
  update-Reached :
      (p : PipelineJob → Bool) (f : PipelineJob → PipelineJob) (js : List PipelineJob)
      → ((j : PipelineJob) → (f j).id ≡ j.id)
      → ((j : PipelineJob) → j.attempt ≤ (f j).attempt)
      → All (Reached id a) js
      → All (Reached id a) (update p f js)
  update-Reached p f js same more h =
      All-update_with (Reached id a) (λ _. Unit {0}) (Reached id a) p f js
        (λ j _ hit k q. ground (arith, same j, more j)) (λ j _ miss k. k) (All-unit js) h

  nack-Reached :
      (now : ℕ) (error : Text) (found : Option PipelineJob) (db : Db)
      → All (Reached id a) db.jobs
      → All (Reached id a) (nack_row now error found db).jobs
  unfolding nack_row give_up retry
  nack-Reached now error none db h = h
  nack-Reached now error (some row) db h = elim (Bool-cases (leb row.max_attempts row.attempt)) [
    | inl e ↦ rw e (update-Reached _ (give_up error) db.jobs (λ j. refl) (λ j. omega arith) h)
    | inr e ↦ rw e (update-Reached _ (retry _ error) db.jobs (λ j. refl) (λ j. omega arith) h)
  ]

  -- What each step leaves of the attempts made.
  delete_document-Reached :
      (d tenant : Uuid) (db : Db)
      → All (Reached id a) db.jobs
      → All (Reached id a) (delete_document d tenant db).jobs
  unfolding delete_document
  delete_document-Reached d tenant db h =
      elim (Bool-cases (exists (is_deleted d tenant) db.documents)) [
        | inl e ↦ rw e (All-delete (Reached id a) (λ j. j.document_id == d) db.jobs h)
        | inr e ↦ rw e h
      ]

  enqueue-Reached :
      (new now : ℕ) (stage : JobStage) (document tenant : Uuid) (p : Payload) (db : Db)
      → (new == id) ≡ false
      → All (Reached id a) db.jobs
      → All (Reached id a) (enqueue new now stage document tenant p default_attempts db).1.jobs
  unfolding enqueue
  enqueue-Reached new now stage document tenant p db other h =
      elim (Bool-cases
        (has_document document db.documents && not (exists (λ j. j.id == new) db.jobs))) [
          | inl e ↦ rw e (All-append (Reached id a) db.jobs _ h ((λ q. ground arith), tt))
          | inr e ↦ rw e h
        ]

  -- A claim that hands out another job, or none.
  claim-Reached :
      (busy : List Uuid) (now : ℕ) (stage : JobStage) (db : Db)
      → All (Reached id a) db.jobs
      → All (Reached id a) (claim busy now stage db).1.jobs
  unfolding start
  claim-Reached busy now stage db h = elim (Option-cases (claim busy now stage db).0) [
    | inl e ↦ rw (claim_idle busy now stage db e) h
    | inr (j, e) ↦
        let c : Claimed busy now stage db j (claim busy now stage db).1 =
          claim_takes_oldest busy now stage db e in
        rw c.written (update-Reached _ (start now) db.jobs (λ j. refl) (λ j. omega arith) h)
  ]

  step-Reached :
      (op : Op) (db : Db)
      → inserts id op ≡ false
      → All (Reached id a) db.jobs
      → All (Reached id a) (step op db).jobs
  unfolding step inserts
  step-Reached (enqueue_job new now stage document tenant p) db other h =
      enqueue-Reached new now stage document tenant p db other h
  step-Reached (claim_job busy now stage) db other h = claim-Reached busy now stage db h
  step-Reached (ack_job k) db other h =
      unfold ack finish in
      update-Reached (λ j. j.id == k) finish db.jobs (λ j. refl) (λ j. omega arith) h
  step-Reached (nack_job now k error) db other h =
      unfold nack in nack-Reached now error (first (λ j. j.id == k) db.jobs) db h
  step-Reached (recover now) db other h =
      unfold recover_stale_jobs release in
      update-Reached (is_stale now) release db.jobs (λ j. refl) (λ j. omega arith) h
  step-Reached (cleanup now days) db other h =
      unfold cleanup_old_jobs in All-delete (Reached id a) (is_old now days) db.jobs h
  step-Reached (insert_document d) db other h = elim (Bool-cases (has_document d.id db.documents)) [
    | inl e ↦ rw e h
    | inr e ↦ rw e h
  ]
  step-Reached (purge_document d tenant) db other h = delete_document-Reached d tenant db h

Reached-zero : (id : Uuid) (js : List PipelineJob) → All (Reached id 0) js
Reached-zero id [] = tt
Reached-zero id (j ∷ js) = ((λ _. omega arith), Reached-zero id js)

-- The write of a claim of the job `id` counts one more attempt.
counted :
    (id a now : ℕ) (row : PipelineJob) (js : List PipelineJob)
    → (row.id == id) ≡ true
    → All (Reached id a) js
    → All (Reached id (suc a)) (update (λ j. j.id == row.id) (start now) js)
unfolding start
counted id a now row js m h =
    All-update_with (Reached id a) (λ _. Unit {0}) (Reached id (suc a)) (λ j. j.id == row.id)
      (start now) js (λ j _ hit k q. ground (arith, k)) (λ j _ miss k q. ground arith) (All-unit js)
      h

claimable_waits :
    (busy : List Uuid) (now : ℕ) (stage : JobStage) (j : PipelineJob)
    → is_claimable busy now stage j ≡ true
    → same_job_status j.status JobStatus.pending ≡ true
unfolding is_claimable
claimable_waits busy now stage j h = ground arith

-- A claim that hands out the job `id` found an attempt left, and has used it.
claim_uses_attempt :
    (id : Uuid) (a r : ℕ) (busy : List Uuid) (now : ℕ) (stage : JobStage) (db : Db)
    → IsValid r db
    → All (Reached id a) db.jobs
    → starts id (claim_job busy now stage) db ≡ true
    → (a < default_attempts + r) × All (Reached id (suc a)) (claim busy now stage db).1.jobs
unfolding starts
claim_uses_attempt id a r busy now stage db v h s =
    elim (Option-cases (claim busy now stage db).0) [
      | inl e ↦ absurd (false≢true (rw e at s))
      | inr (j, e) ↦
          let c : Claimed busy now stage db j (claim busy now stage db).1 =
            claim_takes_oldest busy now stage db e in
          let m : (c.row.id == id) ≡ true =
            rw (← ap (λ (x : PipelineJob). x.id) c.result) (rw e at s) in
          let k : a ≤ c.row.attempt = All-in (Reached id a) db.jobs c.row h c.stored m in
          let w : c.row.attempt < default_attempts + r =
            (All-in (IsSound r) db.jobs c.row v.sound c.stored).left
              (claimable_waits busy now stage c.row c.claimable) in
          (omega arith, rw c.written (counted id a now c.row db.jobs m h))
    ]

step_uses_attempt :
    (id : Uuid) (a r : ℕ) (op : Op) (db : Db)
    → IsValid r db
    → All (Reached id a) db.jobs
    → starts id op db ≡ true
    → (a < default_attempts + r) × All (Reached id (suc a)) (step op db).jobs
unfolding step starts
step_uses_attempt id a r (claim_job busy now stage) db v h s =
    claim_uses_attempt id a r busy now stage db v h s
step_uses_attempt id a r _ db v h s = absurd (false≢true s)

executions_from :
    (id : Uuid) (ops : List Op) (a r : ℕ) (db : Db)
    → IsValid r db
    → All (Reached id a) db.jobs
    → All (λ op. inserts id op ≡ false) ops
    → executions id ops db ≤ default_attempts + r + recoveries ops - a
unfolding executions recoveries
executions_from id [] a r db v h n = omega arith
executions_from id (op ∷ ops) a r db v h n =
    let v' = step-IsValid r db v op in
    elim (Bool-cases (starts id op db)) [
      | inl s ↦
          let used = step_uses_attempt id a r op db v h s in
          rw s (
            omega (
              arith,
              used.0,
              executions_from id ops (suc a) (recovery_of op + r) (step op db) v' used.1 n.1,
            ))
      | inr s ↦ rw s (
          omega (
            arith,
            executions_from id ops a (recovery_of op + r) (step op db) v'
                (step-Reached id a op db n.0 h) n.1,
          ))
    ]

-- From a valid queue in which no recovery has been counted, over any run in which no other job
-- is given the same id, a job is handed to workers at most three times, and once more for each run
-- of `recover_stale_jobs`.
pub executions-le :
    (id : Uuid) (ops : List Op) (db : Db)
    → IsValid 0 db
    → All (λ op. inserts id op ≡ false) ops
    → executions id ops db ≤ default_attempts + recoveries ops
executions-le id ops db v n =
    omega (arith, executions_from id ops 0 0 db v (Reached-zero id db.jobs) n)
