-- ===== src/Queue/Recovery.antt =====
-- `recover_stale_jobs` and `cleanup_old_jobs` of app/workers/db_queue.py.
use knowledgebase.Prelude.{
  ℕ, ◌+◌, ◌≡◌, refl, Bool, true, false, not, List, [], ◌∷◌, arith, length, All, All-update_with,
  All-select_with, All-mono, All-unit, Bool-cases, inl, inr,
}
use knowledgebase.Prelude.Table.{delete, select, count}
use knowledgebase.Models.{Time, PipelineJob, Db}
use knowledgebase.Models.Status.{same_job_stage}
use knowledgebase.Queue.{
  is_claimable, is_stale, release, recover_stale_jobs, is_finished, is_old, cleanup_old_jobs,
}
use knowledgebase.Queue.Invariant.{IsSound, IsValid}

release_fresh : (now : Time) (j : PipelineJob) → is_stale now (release j) ≡ false
unfolding is_stale release
release_fresh now j = ground arith

stale_claimable :
    (r : ℕ) (now : Time) (j : PipelineJob)
    → IsSound r j
    → is_stale now j ≡ true
    → is_claimable [] now j.stage (release j) ≡ true
unfolding is_stale release is_claimable same_job_stage
stale_claimable r now j s e = ground arith

-- A recovery leaves no stale job behind, and in a valid queue every job that it recovers can be
-- claimed at once.
pub recover_complete :
    (r : ℕ) (now : Time) (db : Db)
    → IsValid r db
    → All (λ j. is_stale now j ≡ false) (recover_stale_jobs now db).1.jobs
      × All (λ j. is_claimable [] now j.stage (release j) ≡ true) (select (is_stale now) db.jobs)
unfolding recover_stale_jobs
recover_complete r now db v = (
  All-update_with (λ _. Unit {0}) (λ _. Unit {0}) (λ j. is_stale now j ≡ false) (is_stale now)
      release db.jobs (λ j _ _ _. release_fresh now j) (λ j _ e _. e) (All-unit db.jobs)
      (All-unit db.jobs),
  All-select_with (λ j. is_claimable [] now j.stage (release j) ≡ true) (is_stale now) db.jobs
      (All-mono (IsSound r) _ db.jobs (λ j s e. stale_claimable r now j s e) v.sound),
)

select-delete :
    (p q : PipelineJob → Bool) (js : List PipelineJob)
    → ((j : PipelineJob) → q j ≡ true → p j ≡ false)
    → select p (delete q js) ≡ select p js
unfolding select delete
select-delete p q [] h = refl
select-delete p q (j ∷ js) h = elim (Bool-cases (q j)) [
  | inl e ↦ rw (e, h j e) (select-delete p q js h)
  | inr e ↦ rw (e, select-delete p q js h)
]

count-delete :
    (q : PipelineJob → Bool) (js : List PipelineJob) → count q js + length (delete q js) ≡ length js
unfolding count delete
count-delete q [] = refl
count-delete q (j ∷ js) = ground (arith, count-delete q js)

old_finished :
    (now : Time) (days : ℕ) (j : PipelineJob)
    → is_old now days j ≡ true
    → not (is_finished j) ≡ false
unfolding is_old
old_finished now days j e = ground arith

-- A cleanup keeps every job that is not finished, in its order, and the count that it returns is
-- the number of rows that are gone.
pub cleanup_keeps_unfinished :
    (now : Time) (days : ℕ) (db : Db)
    → (select (λ j. not (is_finished j)) (cleanup_old_jobs now days db).1.jobs
        ≡ select (λ j. not (is_finished j)) db.jobs)
      × ((cleanup_old_jobs now days db).0 + length (cleanup_old_jobs now days db).1.jobs
          ≡ length db.jobs)
unfolding cleanup_old_jobs
cleanup_keeps_unfinished now days db = (
  select-delete _ (is_old now days) db.jobs (old_finished now days),
  count-delete (is_old now days) db.jobs,
)
