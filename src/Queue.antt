-- ===== src/Queue.antt =====
-- app/workers/db_queue.py: the job queue on the pipeline_jobs table. Every function is one
-- transaction, so it is one step on the database. The clock reading and the new row's id are
-- arguments. `busy` holds the ids of the rows that other transactions have locked.
pub mod Claim
pub mod Trace
pub mod Keys
pub mod Invariant
pub mod Runs
pub mod Executions
pub mod Exclusive
pub mod Retry
pub mod Recovery
pub mod Poison
mod Examples
use knowledgebase.Prelude.{
  ℕ, ◌+◌, ◌*◌, ◌^◌, Bool, false, not, ◌&&◌, ◌||◌, Option, none, some, List, [], ◌∷◌, ◌++◌, leb,
  ◌==◌, if◌then◌else◌, take,
}
use knowledgebase.Prelude.Text.{Text}
use knowledgebase.Prelude.Table.{select, update, delete, count, exists, first, first_by}
use knowledgebase.Models.{Uuid, Time, second, Payload, PipelineJob, Db}
use knowledgebase.Models.Status.{JobStage, JobStatus, same_job_stage, same_job_status}
use knowledgebase.Models.Integrity.{has_document}

abbrev pub minute : Time
minute = 60 * second

abbrev pub day : Time
day = 24 * (60 * minute)

abbrev pub lock_timeout : Time
lock_timeout = 5 * minute

abbrev pub cleanup_retain_days : ℕ
cleanup_retain_days = 7

-- The default of max_attempts, which every caller takes.
abbrev pub default_attempts : ℕ
default_attempts = 3

abbrev pub new_job : Uuid → Time → JobStage → Uuid → Uuid → Payload → ℕ → PipelineJob
new_job id now stage document_id tenant_id payload max_attempts = record {
  id = id;
  document_id = document_id;
  tenant_id = tenant_id;
  stage = stage;
  status = JobStatus.pending;
  payload = payload;
  attempt = 0;
  max_attempts = max_attempts;
  last_error = none;
  scheduled_at = now;
  locked_at = none;
  created_at = now;
}

-- An IntegrityError (no such document, or the id is taken) is caught: the insert is rolled back.
unfoldable pub enqueue : Uuid → Time → JobStage → Uuid → Uuid → Payload → ℕ → Db → Option Uuid × Db
unfolding has_document exists
enqueue id now stage document_id tenant_id payload max_attempts db =
    if has_document document_id db.documents && not (exists (λ j. j.id == id) db.jobs)
    then (
      some id,
      record db {
        jobs = db.jobs ++ new_job id now stage document_id tenant_id payload max_attempts ∷ [];
      },
    )
    else (none, db)

unfoldable pub is_claimable : List Uuid → Time → JobStage → PipelineJob → Bool
unfolding same_job_stage same_job_status exists
is_claimable busy now stage j =
    same_job_stage j.stage stage
    && same_job_status j.status JobStatus.pending
    && leb j.scheduled_at now
    && not (exists (λ id. id == j.id) busy)

unfoldable pub start : Time → PipelineJob → PipelineJob
start now j = record j {
  status = JobStatus.processing;
  locked_at = some now;
  attempt = j.attempt + 1;
}

unfoldable pub claim_row : Time → Option PipelineJob → Db → Option PipelineJob × Db
unfolding start update
claim_row now none db = (none, db)
claim_row now (some row) db =
    (some (start now row), record db { jobs = update (λ j. j.id == row.id) (start now) db.jobs })

unfoldable pub claim : List Uuid → Time → JobStage → Db → Option PipelineJob × Db
unfolding is_claimable claim_row select first_by
claim busy now stage db =
    claim_row now (first_by (λ j. j.scheduled_at) (select (is_claimable busy now stage) db.jobs)) db

unfoldable pub finish : PipelineJob → PipelineJob
finish j = record j { status = JobStatus.done; locked_at = none }

unfoldable pub ack : Uuid → Db → Db
unfolding finish update
ack id db = record db { jobs = update (λ j. j.id == id) finish db.jobs }

abbrev pub error_limit : ℕ
error_limit = 2000

unfoldable pub give_up : Text → PipelineJob → PipelineJob
give_up error j = record j {
  status = JobStatus.failed;
  last_error = some (take error_limit error);
  locked_at = none;
}

-- (2 ** row.attempt) * 10
unfoldable pub retry_delay : ℕ → Time
retry_delay attempt = 2 ^ attempt * 10 * second

unfoldable pub retry : Time → Text → PipelineJob → PipelineJob
retry scheduled_at error j = record j {
  status = JobStatus.pending;
  last_error = some (take error_limit error);
  scheduled_at = scheduled_at;
  locked_at = none;
}

unfoldable pub nack_row : Time → Text → Option PipelineJob → Db → Db
unfolding give_up retry update
nack_row now error none db = db
nack_row now error (some row) db =
    if leb row.max_attempts row.attempt
    then record db { jobs = update (λ j. j.id == row.id) (give_up error) db.jobs }
    else record db {
      jobs = update (λ j. j.id == row.id) (retry (now + retry_delay row.attempt) error) db.jobs;
    }

unfoldable pub nack : Time → Uuid → Text → Db → Db
unfolding nack_row first
nack now id error db = nack_row now error (first (λ j. j.id == id) db.jobs) db

abbrev before : Option Time → Time → Time → Bool
before none age now = false
before (some t) age now = leb (t + age) now

unfoldable pub is_stale : Time → PipelineJob → Bool
unfolding same_job_status
is_stale now j =
    same_job_status j.status JobStatus.processing && before j.locked_at lock_timeout now

unfoldable pub release : PipelineJob → PipelineJob
release j = record j { status = JobStatus.pending; locked_at = none }

unfoldable pub recover_stale_jobs : Time → Db → ℕ × Db
unfolding is_stale release update count
recover_stale_jobs now db =
    (count (is_stale now) db.jobs, record db { jobs = update (is_stale now) release db.jobs })

unfoldable pub is_finished : PipelineJob → Bool
unfolding same_job_status
is_finished j = same_job_status j.status JobStatus.done || same_job_status j.status JobStatus.failed

unfoldable pub is_old : Time → ℕ → PipelineJob → Bool
unfolding is_finished
is_old now retain_days j = is_finished j && leb (j.created_at + retain_days * day) now

unfoldable pub cleanup_old_jobs : Time → ℕ → Db → ℕ × Db
unfolding is_old delete count
cleanup_old_jobs now retain_days db = (
  count (is_old now retain_days) db.jobs,
  record db { jobs = delete (is_old now retain_days) db.jobs },
)
