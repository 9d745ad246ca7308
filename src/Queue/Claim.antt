-- ===== src/Queue/Claim.antt =====
-- `claim` of app/workers/db_queue.py: which job it takes, and what it leaves alone.
use knowledgebase.Prelude.{
  ◌+◌, ◌≤◌, ◌≡◌, ◌≢◌, ◌⊎◌, inl, inr, subst, refl, true, false, Bool-cases, Option-cases, All_intro,
  Option, none, some, List, arith, In, All, ◌==◌,
}
use knowledgebase.Prelude.Table.{
  update, select, first_by, first_by_least, first_by-In, first_by-nil, select-In, In-select,
}
use knowledgebase.Models.{Uuid, Time, PipelineJob, Db}
use knowledgebase.Models.Status.{JobStage, JobStatus}
use knowledgebase.Queue.{is_claimable, start, claim_row, claim}

-- What a claim that returns `j` and leaves `after` has done.
pub record Claimed (busy : List Uuid) (now : Time) (stage : JobStage) (db : Db) (j : PipelineJob)
    (after : Db) : Type 0 where
  pub row : PipelineJob
  pub stored : In row db.jobs
  pub claimable : is_claimable busy now stage row ≡ true
  pub oldest :
      All (λ k. row.scheduled_at ≤ k.scheduled_at) (select (is_claimable busy now stage) db.jobs)
  pub result : j ≡ record row {
    status = JobStatus.processing;
    locked_at = some now;
    attempt = row.attempt + 1;
  }
  pub written : after ≡ record db {
    jobs =
        update
          (λ k. k.id == row.id)
          (λ k. record k {
            status = JobStatus.processing;
            locked_at = some now;
            attempt = k.attempt + 1;
          })
          db.jobs;
  }

-- A successful claim takes a stored job that is pending, of the stage, due, and not locked by
-- another transaction, and no such job was due earlier. The job is returned, and stored under its
-- id, as processing, locked now, with one more attempt; the rest of the database is unchanged.
pub claim_takes_oldest :
    (busy : List Uuid) (now : Time) (stage : JobStage) (db : Db) {j : PipelineJob}
    → (claim busy now stage db).0 ≡ some j
    → Claimed busy now stage db j (claim busy now stage db).1
unfolding claim start
claim_takes_oldest busy now stage db {j = j} h = taken (first_by (λ k. k.scheduled_at) ready) refl h
  where
    ready : List PipelineJob
    ready = select (is_claimable busy now stage) db.jobs

    taken :
        (found : Option PipelineJob)
        → first_by (λ k. k.scheduled_at) ready ≡ found
        → (claim_row now found db).0 ≡ some j
        → Claimed busy now stage db j (claim_row now found db).1
    taken none e r = absurd (cc)
    taken (some row) e r =
        let place = select-In _ db.jobs row (first_by-In _ ready e) in
        record {
          row = row;
          stored = place.0;
          claimable = place.1;
          oldest = first_by_least _ ready e;
          result = ground arith;
          written = refl;
        }

-- A claim returns nothing only if no job is claimable: one claimable job is enough for it to
-- return a job.
pub claim_complete :
    (busy : List Uuid) (now : Time) (stage : JobStage) (db : Db) (k : PipelineJob)
    → In k db.jobs
    → is_claimable busy now stage k ≡ true
    → (claim busy now stage db).0 ≢ none
unfolding claim
claim_complete busy now stage db k m c h =
    subst (In k) (first_by-nil _ (select (is_claimable busy now stage) db.jobs) (idle _ refl h))
      (In-select _ db.jobs k m c)
  where
    idle :
        (found : Option PipelineJob)
        → first_by (λ k. k.scheduled_at) (select (is_claimable busy now stage) db.jobs) ≡ found
        → (claim_row now found db).0 ≡ none
        → first_by (λ k. k.scheduled_at) (select (is_claimable busy now stage) db.jobs) ≡ none
    idle none e r = e
    idle (some row) e r = absurd (cc)

-- A claim that returns nothing changes nothing.
pub claim_idle :
    (busy : List Uuid) (now : Time) (stage : JobStage) (db : Db)
    → (claim busy now stage db).0 ≡ none
    → (claim busy now stage db).1 ≡ db
unfolding claim
claim_idle busy now stage db h =
    idle (first_by (λ k. k.scheduled_at) (select (is_claimable busy now stage) db.jobs)) h
  where
    idle :
        (found : Option PipelineJob)
        → (claim_row now found db).0 ≡ none
        → (claim_row now found db).1 ≡ db
    idle none r = refl
    idle (some row) r = absurd (cc)

-- A claim returns nothing only if no job is claimable. Otherwise it takes a stored job that is pending, of the stage, due, and not locked by
-- another transaction, and no such job was due earlier: the job is returned, and stored under its
-- id, as processing, locked now, with one more attempt; the rest of the database is unchanged.
pub claim_lem :
    (busy : List Uuid) (now : Time) (stage : JobStage) (db : Db)
    → (((claim busy now stage db).0 ≡ none)
        × All (λ k. is_claimable busy now stage k ≡ false) db.jobs)
      ⊎ ((j : PipelineJob) × ((claim busy now stage db).0 ≡ some j)
          × Claimed busy now stage db j (claim busy now stage db).1)
claim_lem busy now stage db = elim (Option-cases (claim busy now stage db).0) [
  | inl e ↦ inl (e, All_intro (λ k. is_claimable busy now stage k ≡ false) db.jobs (idle e))
  | inr (j, e) ↦ inr (j, e, claim_takes_oldest busy now stage db e)
]
  where
    idle :
        (claim busy now stage db).0 ≡ none
        → (k : PipelineJob) → In k db.jobs
        → is_claimable busy now stage k ≡ false
    idle e k m = elim (Bool-cases (is_claimable busy now stage k)) [
      | inl c ↦ absurd (claim_complete busy now stage db k m c e)
      | inr c ↦ c
    ]
