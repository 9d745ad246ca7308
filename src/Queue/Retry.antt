-- ===== src/Queue/Retry.antt =====
-- `nack` of app/workers/db_queue.py: when a failed attempt is tried again.
use mathlib.Core.Bool.{false≢true}
use knowledgebase.Prelude.{
  ℕ, zero, suc, ◌+◌, ◌*◌, ◌^◌, ◌≤◌, ◌<◌, ◌≡◌, refl, true, false, ◌⊎◌, some, List, [], arith, All,
  All-update_with, All-select_with, All-unit, Bool-cases, inl, inr, ◌==◌, ltb, leb, take,
}
use knowledgebase.Prelude.Text.{Text}
use knowledgebase.Prelude.Table.{update, select, first, first-In}
use knowledgebase.Models.{Uuid, Time, second, PipelineJob, Db}
use knowledgebase.Models.Status.{JobStage, JobStatus, same_job_status, same_job_stage}
use knowledgebase.Queue.{
  is_claimable, give_up, retry, retry_delay, nack_row, nack, default_attempts,
}

same_job_stage_refl : (s : JobStage) → same_job_stage s s ≡ true
unfolding same_job_stage
same_job_stage_refl s = ground arith

delay_capped : (now : Time) (a : ℕ) → a < 3 → now + retry_delay a ≤ now + 40 * second
unfolding retry_delay
delay_capped now zero h = omega arith
delay_capped now (suc zero) h = omega arith
delay_capped now (suc (suc zero)) h = omega arith
delay_capped now (suc (suc (suc a))) h = absurd (omega arith)

-- What a failed attempt writes to the rows of its id.
module _ (now : Time) (id : Uuid) (error : Text) (db : Db) (Q : PipelineJob → Type 0) where
  nack_writes :
      (row : PipelineJob)
      → first (λ j. j.id == id) db.jobs ≡ some row
      → ((j : PipelineJob) → leb row.max_attempts row.attempt ≡ true → Q (give_up error j))
      → ((j : PipelineJob)
          → leb row.max_attempts row.attempt ≡ false
          → Q (retry (now + retry_delay row.attempt) error j))
      → All Q (select (λ j. j.id == id) (nack now id error db).jobs)
  unfolding nack nack_row
  nack_writes row found over more =
      let m = (first-In (λ (j : PipelineJob). j.id == id) db.jobs found).1 in
      let write = λ (f : PipelineJob → PipelineJob) (q : (j : PipelineJob) → Q (f j)).
        All-select_with Q (λ j. j.id == id) (update (λ j. j.id == row.id) f db.jobs)
          (All-update_with (λ _. Unit {0}) (λ _. Unit {0}) (λ j. (j.id == id) ≡ true → Q j)
            (λ j. j.id == row.id) f db.jobs (λ j _ hit _ _. q j)
            (λ j _ miss _ e. absurd (false≢true (ground arith))) (All-unit db.jobs)
            (All-unit db.jobs)) in
      rw found (elim (Bool-cases (leb row.max_attempts row.attempt)) [
        | inl b ↦ rw b (write (give_up error) (λ j. over j b))
        | inr b ↦ rw b (write (retry (now + retry_delay row.attempt) error) (λ j. more j b))
      ])

-- After a failure that leaves attempts, the job can be claimed exactly from 10 · 2^attempt
-- seconds after the failure on.
pub nack_backoff :
    (now t : Time) (id : Uuid) (error : Text) (db : Db) {row : PipelineJob}
    → first (λ j. j.id == id) db.jobs ≡ some row
    → row.attempt < row.max_attempts
    → All
        (λ j. is_claimable [] t j.stage j ≡ leb (now + 2 ^ row.attempt * 10 * second) t)
        (select (λ j. j.id == id) (nack now id error db).jobs)
unfolding is_claimable retry retry_delay
nack_backoff now t id error db {row = row} found more =
    nack_writes now id error db _ row found (λ j b. absurd (ground arith))
      (λ j b. ground (arith, same_job_stage_refl j.stage))

-- A failure of the last attempt gives the job up: it can never be claimed again, and its error
-- text is kept, cut to 2000 characters.
pub nack_gives_up :
    (now t : Time) (busy : List Uuid) (id : Uuid) (error : Text) (db : Db) {row : PipelineJob}
    → first (λ j. j.id == id) db.jobs ≡ some row
    → row.max_attempts ≤ row.attempt
    → All
        (λ j.
          (is_claimable busy t j.stage j ≡ false)
          × (same_job_status j.status JobStatus.failed ≡ true)
          × (j.last_error ≡ some (take 2000 error)))
        (select (λ j. j.id == id) (nack now id error db).jobs)
unfolding is_claimable give_up
nack_gives_up now t busy id error db {row = row} found none_left =
    nack_writes now id error db _ row found
      (λ j b. (ground (arith, same_job_stage_refl j.stage), refl, refl))
      (λ j b. absurd (ground arith))

-- With the three attempts that every caller of `enqueue` gets, a failed attempt is tried again
-- after 40 seconds at most, or not at all.
pub nack_delay-le :
    (now : Time) (id : Uuid) (error : Text) (db : Db) {row : PipelineJob}
    → first (λ j. j.id == id) db.jobs ≡ some row
    → row.max_attempts ≡ default_attempts
    → All
        (λ j.
          (same_job_status j.status JobStatus.failed ≡ true) ⊎ (j.scheduled_at ≤ now + 40 * second))
        (select (λ j. j.id == id) (nack now id error db).jobs)
unfolding give_up retry same_job_status
nack_delay-le now id error db {row = row} found three =
    nack_writes now id error db _ row found (λ j b. inl refl)
      (λ j b. inr (delay_capped now row.attempt (ground arith)))

-- After a failure that leaves attempts, the job can be claimed exactly from 10 · 2^attempt seconds after the failure on; after a failure of the last attempt
-- it can never be claimed again, and its error text is kept, cut to 2000 characters.
pub nack_lem :
    (now t : Time) (busy : List Uuid) (id : Uuid) (error : Text) (db : Db) {row : PipelineJob}
    → first (λ j. j.id == id) db.jobs ≡ some row
    → ((row.attempt < row.max_attempts)
        × All
            (λ j. is_claimable [] t j.stage j ≡ leb (now + 2 ^ row.attempt * 10 * second) t)
            (select (λ j. j.id == id) (nack now id error db).jobs))
      ⊎ ((row.max_attempts ≤ row.attempt)
          × All
              (λ j.
                (is_claimable busy t j.stage j ≡ false)
                × (same_job_status j.status JobStatus.failed ≡ true)
                × (j.last_error ≡ some (take 2000 error)))
              (select (λ j. j.id == id) (nack now id error db).jobs))
nack_lem now t busy id error db {row = row} found =
    elim (Bool-cases (ltb row.attempt row.max_attempts)) [
      | inl e ↦
          let left : row.attempt < row.max_attempts = ground arith in
          inl (left, nack_backoff now t id error db found left)
      | inr e ↦
          let spent : row.max_attempts ≤ row.attempt = ground arith in
          inr (spent, nack_gives_up now t busy id error db found spent)
    ]
