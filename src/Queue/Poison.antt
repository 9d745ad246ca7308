-- ===== src/Queue/Poison.antt =====
-- A job whose worker dies every time.
use knowledgebase.Prelude.{
  ℕ, suc, length, ◌+◌, ◌≤◌, ◌≡◌, refl, ap, ◌∙◌, true, false, Option, some, List, [], ◌∷◌, arith,
  ==_refl,
}
use knowledgebase.Models.{Uuid, Time, PipelineJob, Db}
use knowledgebase.Models.Status.{JobStage, JobStatus, same_job_stage}
use knowledgebase.Queue.{start, claim, release, recover_stale_jobs, lock_timeout}
use knowledgebase.Queue.Trace.{Op, claim_job, recover, step, starts, executions}

stage_refl : (s : JobStage) → same_job_stage s s ≡ true
unfolding same_job_stage
stage_refl s = ground arith

id-start : (t : Time) (j : PipelineJob) → (start t j).id ≡ j.id
unfolding start
id-start t j = refl

-- The job is claimed, the process dies, and is started again, for each delay of the list so much later than the lock timeout. A worker of the new process claims at once.
unfoldable pub crash_loop : List ℕ → Time → JobStage → List Op
crash_loop [] t stage = []
crash_loop (late ∷ delays) t stage =
    claim_job [] t stage
    ∷ recover (t + lock_timeout + late)
    ∷ crash_loop delays (t + lock_timeout + late) stage

abbrev pub alone : Db → PipelineJob → Db
alone db j = record db { jobs = j ∷ [] }

claim-alone :
    (t : Time) (j : PipelineJob) (db : Db)
    → j.status ≡ JobStatus.pending
    → j.scheduled_at ≤ t
    → claim [] t j.stage (alone db j) ≡ (some (start t j), alone db (start t j))
unfolding claim
claim-alone t j db waits due = ground (arith, stage_refl j.stage)

recover_stale_jobs-alone :
    (t late : Time) (j : PipelineJob) (db : Db)
    → (recover_stale_jobs (t + lock_timeout + late) (alone db (start t j))).1
      ≡ alone db (release (start t j))
unfolding recover_stale_jobs start
recover_stale_jobs-alone t late j db = ground arith

module _ (t : Time) (j : PipelineJob) (db : Db) (waits : j.status ≡ JobStatus.pending)
    (due : j.scheduled_at ≤ t) where
  starts-alone : starts j.id (claim_job [] t j.stage) (alone db j) ≡ true
  unfolding starts
  starts-alone = rw (claim-alone t j db waits due, id-start) (==_refl j.id)

  step-alone :
      (late : ℕ)
      → step (recover (t + lock_timeout + late)) (step (claim_job [] t j.stage) (alone db j))
        ≡ alone db (release (start t j))
  unfolding step
  step-alone late =
      ap (λ (x : Option PipelineJob × Db). (recover_stale_jobs (t + lock_timeout + late) x.1).1)
        (claim-alone t j db waits due)
      ∙ recover_stale_jobs-alone t late j db

starts_recover : (id : Uuid) (now : Time) (db : Db) → starts id (recover now) db ≡ false
unfolding starts
starts_recover id now db = refl

-- In a table whose only row is a pending job that is due: each time that the process dies while it holds the job and is started again when
-- the lock timeout is over, the job is handed out once more. There are as many executions as rounds, and so no bound on them that depends
-- on `max_attempts`. A restart before the timeout is over is not in the statement.
pub crash_loop_unbounded :
    (delays : List ℕ) (t : Time) (j : PipelineJob) (db : Db)
    → j.status ≡ JobStatus.pending
    → j.scheduled_at ≤ t
    → executions j.id (crash_loop delays t j.stage) (alone db j) ≡ length delays
unfolding executions crash_loop release start
crash_loop_unbounded [] t j db waits due = refl
crash_loop_unbounded (late ∷ delays) t j db waits due =
    rw (starts-alone t j db waits due, starts_recover, step-alone t j db waits due late)
      (ap suc (
        crash_loop_unbounded delays (t + lock_timeout + late) (release (start t j)) db refl
          (omega arith)))
