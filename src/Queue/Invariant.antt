-- ===== src/Queue/Invariant.antt =====
-- What holds of every stored job between two transactions of the queue.
use knowledgebase.Prelude.{
  ℕ, suc, ◌+◌, ◌≤◌, ◌<◌, ◌≡◌, refl, sym, subst, Bool, true, false, Option, none, some, List, arith,
  All, All-unit, All-mono, All-update, All-update_with, All-delete, leb, Bool-cases, Option-cases,
  inl, inr, ◌==◌,
}
use knowledgebase.Prelude.Table.{update, delete, first, first-In}
use knowledgebase.Models.{Uuid, Time, PipelineJob, Db}
use knowledgebase.Models.Status.{JobStage, JobStatus, same_job_status}
use knowledgebase.Models.Integrity.{has_document}
use knowledgebase.Queue.{
  default_attempts, is_claimable, start, claim, finish, ack, give_up, retry, retry_delay, nack_row,
  nack, is_stale, release, recover_stale_jobs, is_old, cleanup_old_jobs,
}
use knowledgebase.Queue.Keys.{Distinct, Distinct-update, Distinct-delete, stored_unique}
use knowledgebase.Prelude.Text.{Text}
use knowledgebase.Queue.Claim.{Claimed, claim_takes_oldest, claim_idle}

abbrev pub is_some {ℓ} : {A : Type ℓ} → Option A → Bool
is_some none = false
is_some (some _) = true

abbrev pub not_before : Option Time → Time → Bool
not_before none due = true
not_before (some t) due = leb due t

-- The invariant of a row after `r` recoveries.
pub record IsSound (r : ℕ) (j : PipelineJob) : Type 0 where
  -- a job is locked exactly while it is processing
  pub locked : is_some j.locked_at ≡ same_job_status j.status JobStatus.processing
  -- it was locked when it was due
  pub due : not_before j.locked_at j.scheduled_at ≡ true
  pub cap : j.max_attempts ≡ default_attempts
  pub attempts : j.attempt ≤ default_attempts + r
  -- a job that waits has an attempt left
  pub left : same_job_status j.status JobStatus.pending ≡ true → j.attempt < default_attempts + r
  -- a job is given up only after all its attempts
  pub exhausted : same_job_status j.status JobStatus.failed ≡ true → default_attempts ≤ j.attempt

module _ (r : ℕ) (j : PipelineJob) (s : IsSound r j) where
  grow : IsSound (suc r) j
  grow = record {
    locked = s.locked;
    due = s.due;
    cap = s.cap;
    attempts = omega arith;
    left = λ p. omega (arith, s.left p);
    exhausted = s.exhausted;
  }

  start-IsSound :
      (busy : List Uuid) (now : Time) (stage : JobStage)
      → is_claimable busy now stage j ≡ true
      → IsSound r (start now j)
  unfolding is_claimable start
  start-IsSound busy now stage e = ground (arith, s.left)

  finish-IsSound : IsSound r (finish j)
  unfolding finish same_job_status
  finish-IsSound = ground arith

  give_up-IsSound : (e : Text) → leb j.max_attempts j.attempt ≡ true → IsSound r (give_up e j)
  unfolding give_up same_job_status
  give_up-IsSound e h = ground arith

  retry-IsSound :
      (t : Time) (e : Text) → leb j.max_attempts j.attempt ≡ false → IsSound r (retry t e j)
  unfolding retry same_job_status
  retry-IsSound t e h = ground arith

  release-IsSound : IsSound (suc r) (release j)
  unfolding release same_job_status
  release-IsSound = ground arith

-- The invariant of the queue after `r` recoveries: the primary key, the foreign key, and what
-- holds of each row.
pub record IsValid (r : ℕ) (db : Db) : Type 0 where
  pub keys : Distinct db.jobs
  pub linked : All (λ j. has_document j.document_id db.documents ≡ true) db.jobs
  pub sound : All (IsSound r) db.jobs

abbrev Linked : Db → PipelineJob → Type 0
Linked db j = has_document j.document_id db.documents ≡ true

module _ (r : ℕ) (db : Db) (v : IsValid r db) where
  pub grow-IsValid : IsValid (suc r) db
  grow-IsValid = record {
    keys = v.keys;
    linked = v.linked;
    sound = All-mono (IsSound r) _ db.jobs (grow r) v.sound;
  }

  -- A write to some rows that keeps ids and documents.
  pub update-IsValid :
      (q : ℕ) (R : PipelineJob → Type 0) (p : PipelineJob → Bool) (f : PipelineJob → PipelineJob)
      → ((j : PipelineJob) → (f j).id ≡ j.id)
      → ((j : PipelineJob) → (f j).document_id ≡ j.document_id)
      → All R db.jobs
      → ((j : PipelineJob) → R j → p j ≡ true → IsSound r j → IsSound q (f j))
      → ((j : PipelineJob) → R j → p j ≡ false → IsSound r j → IsSound q j)
      → IsValid q (record db { jobs = update p f db.jobs })
  update-IsValid q R p f same_id same_document known hit miss = record {
    keys = Distinct-update p f db.jobs same_id v.keys;
    linked = All-update (Linked db) p f db.jobs (λ j e h. rw (same_document j) h) v.linked;
    sound = All-update_with (IsSound r) R (IsSound q) p f db.jobs hit miss known v.sound;
  }

  pub delete-IsValid : (p : PipelineJob → Bool) → IsValid r (record db { jobs = delete p db.jobs })
  delete-IsValid p = record {
    keys = Distinct-delete p db.jobs v.keys;
    linked = All-delete (Linked db) p db.jobs v.linked;
    sound = All-delete (IsSound r) p db.jobs v.sound;
  }

  pub claim-IsValid :
      (busy : List Uuid) (now : Time) (stage : JobStage) → IsValid r (claim busy now stage db).1
  unfolding start
  claim-IsValid busy now stage = elim (Option-cases (claim busy now stage db).0) [
    | inl e ↦ rw (claim_idle busy now stage db e) v
    | inr (j, e) ↦
        let c : Claimed busy now stage db j (claim busy now stage db).1 =
          claim_takes_oldest busy now stage db e in
        rw c.written (
          update-IsValid r (λ k. (k.id == c.row.id) ≡ true → k ≡ c.row) (λ k. k.id == c.row.id)
            (start now) (λ k. refl) (λ k. refl) (stored_unique db.jobs c.row v.keys c.stored)
            (λ k same hit s.
              start-IsSound r k s busy now stage
                (subst (λ x. is_claimable busy now stage x ≡ true) (sym (same hit)) c.claimable))
            (λ k same miss s. s))
  ]

  pub ack-IsValid : (id : Uuid) → IsValid r (ack id db)
  unfolding ack finish
  ack-IsValid id =
      update-IsValid r (λ _. Unit {0}) (λ j. j.id == id) finish (λ j. refl) (λ j. refl)
        (All-unit db.jobs) (λ j _ hit s. finish-IsSound r j s) (λ j _ miss s. s)

  nack_row-IsValid :
      (now : Time) (id : Uuid) (error : Text) (found : Option PipelineJob)
      → first (λ j. j.id == id) db.jobs ≡ found
      → IsValid r (nack_row now error found db)
  unfolding nack_row give_up retry
  nack_row-IsValid now id error none e = v
  nack_row-IsValid now id error (some row) e =
      elim (Bool-cases (leb row.max_attempts row.attempt)) [
        | inl over ↦ rw over (
            update-IsValid r Only (λ j. j.id == row.id) (give_up error) (λ j. refl) (λ j. refl) only
              (λ j same hit s. give_up-IsSound r j s error (rw (same hit) over)) (λ j _ miss s. s))
        | inr more ↦ rw more (
            update-IsValid r Only (λ j. j.id == row.id)
              (retry (now + retry_delay row.attempt) error) (λ j. refl) (λ j. refl) only
              (λ j same hit s. retry-IsSound r j s _ error (rw (same hit) more)) (λ j _ miss s. s))
      ]
    where
      Only : PipelineJob → Type 0
      Only j = (j.id == row.id) ≡ true → j ≡ row

      only : All Only db.jobs
      only = stored_unique db.jobs row v.keys (first-In _ db.jobs e).0

  pub nack-IsValid : (now : Time) (id : Uuid) (error : Text) → IsValid r (nack now id error db)
  unfolding nack
  nack-IsValid now id error = nack_row-IsValid now id error _ refl

  pub recover-IsValid : (now : Time) → IsValid (suc r) (recover_stale_jobs now db).1
  unfolding recover_stale_jobs release
  recover-IsValid now =
      update-IsValid (suc r) (λ _. Unit {0}) (is_stale now) release (λ j. refl) (λ j. refl)
        (All-unit db.jobs) (λ j _ hit s. release-IsSound r j s) (λ j _ miss s. grow r j s)

  pub cleanup-IsValid : (now : Time) (days : ℕ) → IsValid r (cleanup_old_jobs now days db).1
  unfolding cleanup_old_jobs
  cleanup-IsValid now days = delete-IsValid (is_old now days)
