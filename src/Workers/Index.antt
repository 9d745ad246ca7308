-- ===== src/Workers/Index.antt =====
-- A successful job of app/workers/index_worker.py.
use mathlib.Core.Bool.{false≢true}
use knowledgebase.Prelude.{
  ℕ, ◌≡◌, inl, inr, refl, sym, ◌∙◌, Bool, true, Option, none, some, List, ◌==◌, Bool-cases, All,
  All-unit, All-update_with,
}
use knowledgebase.Prelude.Text.{Text}
use knowledgebase.Prelude.Table.{update}
use knowledgebase.Models.{Uuid, Time, Detail}
use knowledgebase.Models.Status.{DocStatus, StageName, StageStatus}
use knowledgebase.Models.Integrity.{has_document}
use knowledgebase.Queue.{ack}
use knowledgebase.Pipeline.{System, update_stage}
use knowledgebase.Ingest.{set_status, mark_document}
use knowledgebase.Ingest.Effect.{update_stage-documents}
use knowledgebase.Workers.{Task, of_task, process_index_job, index_chunks, ack_task}

update_stage-chunks :
    (now : Time) (doc tenant : Uuid) (stage : StageName) (status : StageStatus)
    (detail : Option Detail) (sys : System)
    → (update_stage now doc tenant stage status detail sys).db.chunks ≡ sys.db.chunks
unfolding update_stage
update_stage-chunks now doc tenant stage status detail sys =
    elim (Bool-cases (has_document doc sys.db.documents)) [ inl e ↦ rw e refl | inr e ↦ rw e refl ]

-- After a write to all rows that satisfy `p`, they have what the write gives.
written :
    {A : Type 0} (p : A → Bool) (f : A → A) (Q : A → Type 0) (xs : List A)
    → ((x : A) → Q (f x))
    → All (λ x. p x ≡ true → Q x) (update p f xs)
written p f Q xs gives =
    All-update_with (λ _. Unit {0}) (λ _. Unit {0}) (λ x. p x ≡ true → Q x) p f xs
      (λ x _ _ _ _. gives x) (λ x _ miss _ hit. absurd (false≢true (sym miss ∙ hit))) (All-unit xs)
      (All-unit xs)

-- A successful index job leaves its document marked as indexed, and every chunk of the document with
-- the search column of its text.
pub index_complete :
    (number_text : ℕ → Text) (to_tsvector : Text → Text) (now : Time) (task : Task) (sys : System)
    → All
        (λ d. (d.id == task.document_id) ≡ true → d.status ≡ DocStatus.indexed)
        (process_index_job number_text to_tsvector now task none sys).db.documents
      × All
          (λ c. of_task task c ≡ true → c.fts_vector ≡ some (to_tsvector c.chunk_text))
          (process_index_job number_text to_tsvector now task none sys).db.chunks
unfolding process_index_job ack_task ack index_chunks mark_document set_status
index_complete number_text to_tsvector now task sys = (
  rw (update_stage-documents now task.document_id task.tenant_id StageName.index StageStatus.done) (
      written (λ d. d.id == task.document_id) (set_status now DocStatus.indexed)
        (λ d. d.status ≡ DocStatus.indexed) _ (λ d. refl)),
  rw (update_stage-chunks now task.document_id task.tenant_id StageName.index StageStatus.done) (
      written (of_task task) _ (λ c. c.fts_vector ≡ some (to_tsvector c.chunk_text)) _ (λ c. refl)),
)
