-- ===== src/Queue/Runs.antt =====
-- The invariant over whole runs of the queue, and how often a job is handed to a worker.
use knowledgebase.Prelude.{
  ℕ, ◌+◌, subst, ◌&&◌, List, [], ◌∷◌, arith, All-mono, All-append, All-delete, All-delete_with,
  Bool-cases, inl, inr, ◌==◌,
}
use knowledgebase.Prelude.Table.{exists}
use knowledgebase.Models.{Uuid, Time, Document, Payload, Db}
use knowledgebase.Models.Status.{JobStage, same_job_status}
use knowledgebase.Models.Integrity.{
  has_document, has_document-append, has_document-delete, delete_document,
}
use knowledgebase.Queue.{default_attempts, new_job, enqueue}
use knowledgebase.Queue.Keys.{Distinct-delete, Distinct-append}
use knowledgebase.Queue.Invariant.{
  IsSound, IsValid, claim-IsValid, ack-IsValid, nack-IsValid, recover-IsValid, cleanup-IsValid,
}
use knowledgebase.Queue.Trace.{
  Op, enqueue_job, claim_job, ack_job, nack_job, recover, cleanup, insert_document, purge_document,
  recovery_of, step, run, recoveries,
}

same_count : {r : ℕ} {db : Db} → IsValid r db → IsValid (0 + r) db
same_count {r} {db} v = subst (λ n. IsValid n db) (omega arith) v

module _ (r : ℕ) (db : Db) (v : IsValid r db) where
  new_job-IsSound :
      (id : Uuid) (now : Time) (stage : JobStage) (document tenant : Uuid) (p : Payload)
      → IsSound r (new_job id now stage document tenant p default_attempts)
  unfolding same_job_status
  new_job-IsSound id now stage document tenant p = ground arith

  enqueue-IsValid :
      (id : Uuid) (now : Time) (stage : JobStage) (document tenant : Uuid) (p : Payload)
      → IsValid r (enqueue id now stage document tenant p default_attempts db).1
  unfolding enqueue
  enqueue-IsValid id now stage document tenant p =
      elim (Bool-cases (has_document document db.documents)) [
        | inl d ↦ elim (Bool-cases (exists (λ j. j.id == id) db.jobs)) [
          | inl taken ↦ rw (d, taken) v
          | inr free ↦
              rw (d, free)
                (record {
                  keys = Distinct-append db.jobs _ free v.keys;
                  linked = All-append _ db.jobs _ v.linked (d, tt);
                  sound =
                      All-append _ db.jobs _ v.sound
                        (new_job-IsSound id now stage document tenant p, tt);
                })
        ]
        | inr gone ↦ rw gone v
      ]

  insert-IsValid : (d : Document) → IsValid r (step (insert_document d) db)
  unfolding step
  insert-IsValid d = elim (Bool-cases (has_document d.id db.documents)) [
    | inl e ↦ rw e v
    | inr e ↦ rw e (record {
      keys = v.keys;
      linked =
          All-mono _ _ db.jobs (λ j. has_document-append j.document_id db.documents d) v.linked;
      sound = v.sound;
    })
  ]

  purge-IsValid : (id tenant : Uuid) → IsValid r (delete_document id tenant db)
  unfolding delete_document
  purge-IsValid id tenant =
      elim (Bool-cases
        (exists (λ (d : Document). (d.id == id) && (d.tenant_id == tenant)) db.documents)) [
          | inl e ↦ rw e (record {
            keys = Distinct-delete _ db.jobs v.keys;
            linked =
                All-delete_with _ _ _ db.jobs
                  (λ j n h. has_document-delete j.document_id id tenant db.documents n h) v.linked;
            sound = All-delete _ _ db.jobs v.sound;
          })
          | inr e ↦ rw e v
        ]

  pub step-IsValid : (op : Op) → IsValid (recovery_of op + r) (step op db)
  unfolding step
  step-IsValid (enqueue_job id now stage document tenant p) =
      same_count (enqueue-IsValid id now stage document tenant p)
  step-IsValid (claim_job busy now stage) = same_count (claim-IsValid r db v busy now stage)
  step-IsValid (ack_job id) = same_count (ack-IsValid r db v id)
  step-IsValid (nack_job now id error) = same_count (nack-IsValid r db v now id error)
  step-IsValid (recover now) =
      subst (λ n. IsValid n (step (recover now) db)) (omega arith) (recover-IsValid r db v now)
  step-IsValid (cleanup now days) = same_count (cleanup-IsValid r db v now days)
  step-IsValid (insert_document d) = same_count (insert-IsValid d)
  step-IsValid (purge_document id tenant) = same_count (purge-IsValid id tenant)

-- From a valid queue, any sequence of transactions leads to a valid queue: ids stay unique, every
-- job belongs to a stored document, a job is locked exactly while it is processing, a waiting job
-- has an attempt left and a failed one has used all of them, where each run of
-- `recover_stale_jobs` allows one attempt more than the three of `max_attempts`.
pub run-IsValid :
    (ops : List Op) (r : ℕ) (db : Db) → IsValid r db → IsValid (recoveries ops + r) (run ops db)
unfolding run recoveries
run-IsValid [] r db v = same_count v
run-IsValid (op ∷ ops) r db v =
    subst (λ n. IsValid n (run ops (step op db))) (omega arith)
      (run-IsValid ops (recovery_of op + r) (step op db) (step-IsValid r db v op))
