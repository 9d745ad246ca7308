-- ===== src/Queue/Examples.antt =====
-- Runs of the queue on one document, and the theorems about it at these inputs.
use knowledgebase.Prelude.{
  ◌<◌, ℕ, ◌+◌, ◌*◌, ◌^◌, ◌≤◌, ◌≡◌, ◌≢◌, ◌⊎◌, refl, true, false, not, none, some, List, [], ◌∷◌,
  arith, length, take, All, ◌==◌, leb,
}
use knowledgebase.Prelude.Text.{codes}
use knowledgebase.Prelude.Table.{select, first, exists}
use knowledgebase.Models.{second, Document, PipelineJob, Db, stage_payload, empty_db}
use knowledgebase.Models.Status.{DocStatus, JobStage, JobStatus, same_job_status}
use knowledgebase.Models.Integrity.{has_document}
use knowledgebase.Queue.{
  default_attempts, minute, day, new_job, is_claimable, start, claim, is_stale, is_finished,
  release, recover_stale_jobs, cleanup_old_jobs, nack, retry_delay,
}
use knowledgebase.Queue.Claim.{Claimed, claim_lem}
use knowledgebase.Queue.Invariant.{IsValid, claim-IsValid}
use knowledgebase.Queue.Trace.{
  Op, claim_job, nack_job, recover, step, run, recoveries, starts, executions, inserts, releases,
}
use knowledgebase.Queue.Runs.{run-IsValid}
use knowledgebase.Queue.Executions.{executions-le}
use knowledgebase.Queue.Exclusive.{claim_exclusive}
use knowledgebase.Queue.Poison.{crash_loop, alone, crash_loop_unbounded}
use knowledgebase.Queue.Retry.{nack_lem}
use knowledgebase.Queue.Recovery.{recover_complete, cleanup_keeps_unfinished}

abbrev report : Document
report = record {
  id = 1;
  tenant_id = 9;
  filename = codes "report.pdf";
  mime_type = codes "application/pdf";
  minio_path = codes "9/1/report.pdf";
  file_size = some 40;
  checksum = 77;
  parse_mode = none;
  status = DocStatus.pending;
  page_count = none;
  is_tabular = false;
  table_schema = none;
  created_at = 0;
  updated_at = 0;
}

abbrev waiting : PipelineJob
waiting = new_job 5 100 JobStage.embed 1 9 (stage_payload 1 9) default_attempts

abbrev later : PipelineJob
later = new_job 6 200 JobStage.embed 1 9 (stage_payload 1 9) default_attempts

abbrev base : Db
base = record empty_db { documents = report ∷ []; jobs = later ∷ waiting ∷ [] }

-- The job `later` after one failed attempt.
abbrev failed_once : PipelineJob
failed_once = record later {
  attempt = 1;
  last_error = some (codes "boom");
  scheduled_at = 320 + 20 * second;
}

base-IsValid : IsValid 0 base
unfolding has_document exists same_job_status
base-IsValid = record {
  keys = ((omega arith, tt), (tt, tt));
  linked = (refl, (refl, tt));
  sound = (ground arith, (ground arith, tt));
}

claimed : (claim [] 300 JobStage.embed base).0 ≡ some (start 300 waiting)
unfolding claim start
claimed = refl

skipped : (claim (5 ∷ []) 300 JobStage.embed base).0 ≡ some (start 300 later)
unfolding claim start
skipped = refl

-- A worker dies, and the job is recovered; then it fails, and another job is served.
abbrev crashes : List Op
crashes =
    claim_job [] 300 JobStage.embed
    ∷ recover (6 * minute)
    ∷ claim_job [] (7 * minute) JobStage.embed
    ∷ nack_job (8 * minute) 5 (codes "boom")
    ∷ claim_job [] (8 * minute) JobStage.embed
    ∷ []

crashes_execute : executions 5 crashes base ≡ 2
unfolding executions starts step claim start recover_stale_jobs nack retry_delay
crashes_execute = refl

run-IsValid_example : IsValid (recoveries crashes + 0) (run crashes base)
run-IsValid_example = run-IsValid crashes 0 base base-IsValid

executions-le_example : executions 5 crashes base ≤ default_attempts + recoveries crashes
unfolding inserts
executions-le_example =
    executions-le 5 crashes base base-IsValid (refl, (refl, (refl, (refl, (refl, tt)))))

-- Other workers take the other job, fail it and finish it.
abbrev meanwhile : List Op
meanwhile = claim_job [] 310 JobStage.embed ∷ nack_job 320 6 (codes "boom") ∷ []

claimed_other :
    (claim [] (2 * minute) JobStage.embed (run meanwhile (claim [] 300 JobStage.embed base).1)).0
    ≡ some (start (2 * minute) failed_once)
unfolding run step claim start nack retry_delay
claimed_other = refl

claim_exclusive_example : ◌≢◌ {A = ℕ} 6 5
unfolding releases start
claim_exclusive_example =
    claim_exclusive [] 300 JobStage.embed base meanwhile [] (2 * minute) JobStage.embed claimed
      (refl, (refl, tt)) claimed_other

found : first (λ j. j.id == 5) base.jobs ≡ some waiting
unfolding first
found = refl

abbrev spent : PipelineJob
spent = record waiting { status = JobStatus.processing; attempt = 3; locked_at = some 350 }

abbrev last_try : Db
last_try = record base { jobs = spent ∷ [] }

found_spent : first (λ j. j.id == 5) last_try.jobs ≡ some spent
unfolding first
found_spent = refl

abbrev lost : Db
lost = (claim [] 300 JobStage.embed base).1

lost-IsValid : IsValid 0 lost
lost-IsValid = claim-IsValid 0 base base-IsValid [] 300 JobStage.embed

recover_complete_example :
    All (λ j. is_stale (6 * minute) j ≡ false) (recover_stale_jobs (6 * minute) lost).1.jobs
    × All
        (λ j. is_claimable [] (6 * minute) j.stage (release j) ≡ true)
        (select (is_stale (6 * minute)) lost.jobs)
recover_complete_example = recover_complete 0 (6 * minute) lost lost-IsValid

abbrev old : Db
old = record base {
  jobs = later ∷ record spent { status = JobStatus.failed; locked_at = none } ∷ [];
}

old_cleaned : (cleanup_old_jobs (8 * day) 7 old) ≡ (1, record old { jobs = later ∷ [] })
unfolding cleanup_old_jobs
old_cleaned = refl

cleanup_keeps_unfinished_example :
    (select (λ j. not (is_finished j)) (cleanup_old_jobs (8 * day) 7 old).1.jobs
      ≡ select (λ j. not (is_finished j)) old.jobs)
    × ((cleanup_old_jobs (8 * day) 7 old).0 + length (cleanup_old_jobs (8 * day) 7 old).1.jobs
        ≡ length old.jobs)
cleanup_keeps_unfinished_example = cleanup_keeps_unfinished (8 * day) 7 old

crash_loop_unbounded_example :
    executions 5 (crash_loop (0 ∷ 70 ∷ 3 ∷ 900 ∷ []) 300 JobStage.embed) (alone base waiting) ≡ 4
crash_loop_unbounded_example =
    crash_loop_unbounded (0 ∷ 70 ∷ 3 ∷ 900 ∷ []) 300 waiting base refl (omega arith)

nack_lem_example :
    ((0 < 3)
      × All
          (λ j. is_claimable [] 700 j.stage j ≡ leb (400 + 2 ^ 0 * 10 * second) 700)
          (select (λ j. j.id == 5) (nack 400 5 (codes "boom") base).jobs))
    ⊎ ((3 ≤ 0)
        × All
            (λ j.
              (is_claimable [] 700 j.stage j ≡ false)
              × (same_job_status j.status JobStatus.failed ≡ true)
              × (j.last_error ≡ some (take 2000 (codes "boom"))))
            (select (λ j. j.id == 5) (nack 400 5 (codes "boom") base).jobs))
nack_lem_example = nack_lem 400 700 [] 5 (codes "boom") base found

claim_lem_example :
    (((claim [] 300 JobStage.embed base).0 ≡ none)
      × All (λ k. is_claimable [] 300 JobStage.embed k ≡ false) base.jobs)
    ⊎ ((j : PipelineJob) × ((claim [] 300 JobStage.embed base).0 ≡ some j)
        × Claimed [] 300 JobStage.embed base j (claim [] 300 JobStage.embed base).1)
claim_lem_example = claim_lem [] 300 JobStage.embed base
