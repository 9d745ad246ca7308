-- ===== src/Models/Status.antt =====
-- The vocabularies of the status, stage and role columns (app/db/models.py, app/core/pipeline.py,
-- app/api/routes/ingest.py), with the comparison of each.
use Prim.Native.Nat.{ℕ}
use mathlib.Core.Bool.{Bool, true, false}
use mathlib.Core.Path.{◌≡◌}
use native.Mathlib.Omega.{arith}
use knowledgebase.Prelude.Tests.{◌==◌}

pub data DocStatus : Type 0 where
  pending parsing chunked embedding embedded indexed : DocStatus
  deleting deleted : DocStatus
  failed error parse_failed chunk_failed embed_failed index_failed : DocStatus

pub data JobStage : Type 0 where
  ingest embed index purge : JobStage

pub data JobStatus : Type 0 where
  pending processing done failed : JobStatus

pub data StageName : Type 0 where
  upload parse chunk embed index : StageName

pub data StageStatus : Type 0 where
  pending processing done failed skipped : StageStatus

pub data Role : Type 0 where
  admin editor viewer : Role

-- A number for each status, to compare by.
abbrev pub doc_code : DocStatus → ℕ
doc_code DocStatus.pending = 0
doc_code DocStatus.parsing = 1
doc_code DocStatus.chunked = 2
doc_code DocStatus.embedding = 3
doc_code DocStatus.embedded = 4
doc_code DocStatus.indexed = 5
doc_code DocStatus.deleting = 6
doc_code DocStatus.deleted = 7
doc_code DocStatus.failed = 8
doc_code DocStatus.error = 9
doc_code DocStatus.parse_failed = 10
doc_code DocStatus.chunk_failed = 11
doc_code DocStatus.embed_failed = 12
doc_code DocStatus.index_failed = 13

unfoldable pub same_doc_status : DocStatus → DocStatus → Bool
same_doc_status a b = doc_code a == doc_code b

unfoldable pub same_job_stage : JobStage → JobStage → Bool
same_job_stage JobStage.ingest JobStage.ingest = true
same_job_stage JobStage.embed JobStage.embed = true
same_job_stage JobStage.index JobStage.index = true
same_job_stage JobStage.purge JobStage.purge = true
same_job_stage _ _ = false

unfoldable pub same_job_status : JobStatus → JobStatus → Bool
same_job_status JobStatus.pending JobStatus.pending = true
same_job_status JobStatus.processing JobStatus.processing = true
same_job_status JobStatus.done JobStatus.done = true
same_job_status JobStatus.failed JobStatus.failed = true
same_job_status _ _ = false

-- The position of a stage in STAGES.
abbrev pub stage_order : StageName → ℕ
stage_order StageName.upload = 0
stage_order StageName.parse = 1
stage_order StageName.chunk = 2
stage_order StageName.embed = 3
stage_order StageName.index = 4

unfoldable pub same_stage : StageName → StageName → Bool
same_stage a b = stage_order a == stage_order b

pub same_job_status→eq : (a b : JobStatus) → same_job_status a b ≡ true → a ≡ b
unfolding same_job_status
same_job_status→eq a b h = ground arith

pub same_job_stage→eq : (a b : JobStage) → same_job_stage a b ≡ true → a ≡ b
unfolding same_job_stage
same_job_stage→eq a b h = ground arith

pub same_stage→eq : (a b : StageName) → same_stage a b ≡ true → a ≡ b
unfolding same_stage
same_stage→eq a b h = ground arith
