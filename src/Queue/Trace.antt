-- ===== src/Queue/Trace.antt =====
-- Runs of the queue: the transactions of app/workers/db_queue.py and of the handlers that insert
-- and delete documents, in any order. Each is atomic, so an interleaving of workers is a list.
use knowledgebase.Prelude.{
  ℕ, suc, ◌+◌, Bool, true, false, Option, none, some, List, [], ◌∷◌, ◌++◌, ◌==◌, if◌then◌else◌,
}
use knowledgebase.Prelude.Text.{Text}
use knowledgebase.Models.{Uuid, Time, Document, Payload, PipelineJob, Db}
use knowledgebase.Models.Status.{JobStage}
use knowledgebase.Models.Integrity.{has_document, delete_document}
use knowledgebase.Queue.{
  default_attempts, enqueue, claim, ack, nack, recover_stale_jobs, cleanup_old_jobs,
}

pub data Op : Type 0 where
  enqueue_job :
      (id : Uuid) (now : Time) (stage : JobStage) (document_id tenant_id : Uuid) → Payload → Op
  claim_job : (busy : List Uuid) (now : Time) (stage : JobStage) → Op
  ack_job : (id : Uuid) → Op
  nack_job : (now : Time) (id : Uuid) (error : Text) → Op
  recover : (now : Time) → Op
  cleanup : (now : Time) (retain_days : ℕ) → Op
  insert_document : (d : Document) → Op
  purge_document : (id tenant_id : Uuid) → Op

-- An insert under an id that is taken is rolled back.
unfoldable pub step : Op → Db → Db
step (enqueue_job id now stage document_id tenant_id payload) db =
    (enqueue id now stage document_id tenant_id payload default_attempts db).1
step (claim_job busy now stage) db = (claim busy now stage db).1
step (ack_job id) db = ack id db
step (nack_job now id error) db = nack now id error db
step (recover now) db = (recover_stale_jobs now db).1
step (cleanup now retain_days) db = (cleanup_old_jobs now retain_days db).1
step (insert_document d) db =
    if has_document d.id db.documents then db else record db { documents = db.documents ++ d ∷ [] }
step (purge_document id tenant_id) db = delete_document id tenant_id db

unfoldable pub run : List Op → Db → Db
run [] db = db
run (op ∷ ops) db = run ops (step op db)

abbrev pub recovery_of : Op → ℕ
recovery_of (recover now) = 1
recovery_of _ = 0

-- How often `recover_stale_jobs` has run.
unfoldable pub recoveries : List Op → ℕ
recoveries [] = 0
recoveries (op ∷ ops) = recovery_of op + recoveries ops

abbrev pub is_row : Uuid → Option PipelineJob → Bool
is_row id none = false
is_row id (some j) = j.id == id

-- Whether this step hands the job `id` to a worker.
unfoldable pub starts : Uuid → Op → Db → Bool
unfolding claim
starts id (claim_job busy now stage) db = is_row id (claim busy now stage db).0
starts id _ db = false

-- How often a run hands the job `id` to a worker.
unfoldable pub executions : Uuid → List Op → Db → ℕ
executions id [] db = 0
executions id (op ∷ ops) db =
    let rest = executions id ops (step op db) in if starts id op db then suc rest else rest

-- Whether a step inserts a row under this id.
unfoldable pub inserts : Uuid → Op → Bool
inserts id (enqueue_job new now stage document_id tenant_id payload) = new == id
inserts id _ = false

-- Whether a step may take the job `id` out of the hands of its worker.
unfoldable pub releases : Uuid → Op → Bool
unfolding inserts
releases id (nack_job now other error) = other == id
releases id (recover now) = true
releases id op = inserts id op
