-- ===== src/Pipeline.antt =====
-- app/core/pipeline.py: the stage rows of a document, the progress that they make, and the
-- in-process event bus. The bus is a list of subscriptions, each with its tenant and its queue; the
-- queues of one tenant, in order, are the value of `_subscribers` at that tenant. A queue is known
-- by a number. A clock reading is an argument.
pub mod Progress
pub mod Bus
pub mod Stages
mod Examples
use knowledgebase.Prelude.{
  ℕ, ◌+◌, ◌/◌, min, Bool, true, false, not, ◌&&◌, ◌||◌, Option, none, some, List, [], ◌∷◌, ◌++◌,
  length, map, take, drop, ltb, ◌==◌, if◌then◌else◌,
}
use knowledgebase.Prelude.Table.{select, update, exists, first, order_desc}
use mathlib.Core.Option
use knowledgebase.Prelude.Text.{Text}
use knowledgebase.Models.{Uuid, Time, Detail, PipelineStage, Document, Db}
use knowledgebase.Models.Status.{DocStatus, StageName, StageStatus, same_stage, same_doc_status}
use knowledgebase.Models.Integrity.{has_document}

-- STAGE_WEIGHT
abbrev pub stage_weight : StageName → ℕ
stage_weight StageName.upload = 10
stage_weight StageName.parse = 20
stage_weight StageName.chunk = 15
stage_weight StageName.embed = 40
stage_weight StageName.index = 15

pub record Event : Type 0 where
  pub document_id : Uuid
  pub stage : StageName
  pub status : StageStatus
  pub detail : Detail
  pub ts : Time

pub record Subscription : Type 0 where
  pub tenant_id : Uuid
  pub queue : ℕ
  pub items : List Event

abbrev pub EventBus : Type 0
EventBus = List Subscription

abbrev pub queue_size : ℕ
queue_size = 200

unfoldable pub subscribe : Uuid → ℕ → EventBus → EventBus
subscribe tenant_id queue bus =
    bus ++ record { tenant_id = tenant_id; queue = queue; items = [] } ∷ []

-- `subs.remove(q)` drops the first match, and a missing queue is ignored.
unfoldable pub unsubscribe : Uuid → ℕ → EventBus → EventBus
unsubscribe tenant_id queue [] = []
unsubscribe tenant_id queue (s ∷ bus) =
    let rest = unsubscribe tenant_id queue bus in
    if (s.tenant_id == tenant_id) && (s.queue == queue) then bus else s ∷ rest

-- `put_nowait`; QueueFull drops the event.
unfoldable pub put : Event → Subscription → Subscription
put event s =
    if ltb (length s.items) queue_size then record s { items = s.items ++ event ∷ [] } else s

unfoldable pub broadcast : Uuid → Event → EventBus → EventBus
unfolding put update
broadcast tenant_id event bus = update (λ s. s.tenant_id == tenant_id) (put event) bus

-- The database and the process state that the handlers share.
pub record System : Type 0 where
  pub db : Db
  pub bus : EventBus

abbrev pub is_processing : StageStatus → Bool
is_processing StageStatus.processing = true
is_processing _ = false

abbrev pub is_complete : StageStatus → Bool
is_complete StageStatus.done = true
is_complete StageStatus.failed = true
is_complete StageStatus.skipped = true
is_complete _ = false

abbrev pub coalesce : Option Time → Option Time → Option Time
coalesce (some t) other = some t
coalesce none other = other

unfoldable pub is_stage_row : Uuid → StageName → PipelineStage → Bool
unfolding same_stage
is_stage_row document_id stage row = (row.document_id == document_id) && same_stage row.stage stage

-- The row that is inserted.
unfoldable pub stage_row :
    Time → Uuid → Uuid → StageName → StageStatus → Option Detail → PipelineStage
stage_row now document_id tenant_id stage status detail = record {
  document_id = document_id;
  tenant_id = tenant_id;
  stage = stage;
  status = status;
  started_at = if is_processing status then some now else none;
  completed_at = if is_complete status then some now else none;
  detail = detail;
}

-- DO UPDATE SET …
unfoldable pub merge : PipelineStage → PipelineStage → PipelineStage
merge excluded row = record row {
  status = excluded.status;
  started_at = coalesce row.started_at excluded.started_at;
  completed_at = excluded.completed_at;
  detail = excluded.detail;
}

unfoldable pub upsert : PipelineStage → List PipelineStage → List PipelineStage
unfolding is_stage_row exists update merge
upsert row rows =
    if exists (is_stage_row row.document_id row.stage) rows
    then update (is_stage_row row.document_id row.stage) (merge row) rows
    else rows ++ row ∷ []

abbrev pub or_empty : Option Detail → Detail
or_empty none = []
or_empty (some d) = d

-- An IntegrityError (the document is gone) is caught, and nothing is sent.
unfoldable pub update_stage :
    Time → Uuid → Uuid → StageName → StageStatus → Option Detail → System → System
unfolding stage_row upsert broadcast has_document
update_stage now document_id tenant_id stage status detail sys =
    if has_document document_id sys.db.documents
    then record {
      db = record sys.db {
        stages = upsert (stage_row now document_id tenant_id stage status detail) sys.db.stages;
      };
      bus =
          broadcast tenant_id
            (record {
              document_id = document_id;
              stage = stage;
              status = status;
              detail = or_empty detail;
              ts = now;
            })
            sys.bus;
    }
    else sys

-- One entry of the "stages" object of a status report.
pub record StageView : Type 0 where
  pub status : StageStatus
  pub started_at : Option Time
  pub completed_at : Option Time
  pub detail : Detail

-- A dict with the five stage names as its keys.
abbrev pub StageViews : Type 0
StageViews = StageName → StageView

unfoldable pub stage_row_to_dict : PipelineStage → StageView
stage_row_to_dict row = record {
  status = row.status;
  started_at = row.started_at;
  completed_at = row.completed_at;
  detail = or_empty row.detail;
}

unfoldable pub empty_stages : StageViews
empty_stages s = record {
  status = StageStatus.pending;
  started_at = none;
  completed_at = none;
  detail = [];
}

-- `stages[row.stage] = …`
unfoldable pub set_stage : PipelineStage → StageViews → StageViews
set_stage row views s = if same_stage row.stage s then stage_row_to_dict row else views s

-- The loop over the rows. Sorting the rows by stage does not change the dict, since
-- it keeps the order of rows of one stage.
unfoldable pub fill_stages : StageViews → List PipelineStage → StageViews
fill_stages views [] = views
fill_stages views (row ∷ rows) = fill_stages (set_stage row views) rows

abbrev pub counts_done : StageStatus → Bool
counts_done StageStatus.done = true
counts_done StageStatus.skipped = true
counts_done _ = false

unfoldable pub share : (StageStatus → Bool) → (StageName → ℕ) → StageViews → StageName → ℕ
share test weight views s = if test (views s).status then weight s else 0

-- `sum(… for s, v in stages.items() if …)` over the five keys.
unfoldable pub sum_where : (StageStatus → Bool) → (StageName → ℕ) → StageViews → ℕ
sum_where test weight views =
    share test weight views StageName.upload
    + share test weight views StageName.parse
    + share test weight views StageName.chunk
    + share test weight views StageName.embed
    + share test weight views StageName.index

unfoldable pub compute_progress : StageViews → ℕ
unfolding sum_where
compute_progress views = min 100 (
    sum_where counts_done stage_weight views
    + sum_where is_processing (λ s. stage_weight s / 2) views)

pub record StatusReport : Type 0 where
  pub document_id : Uuid
  pub filename : Text
  pub mime_type : Text
  pub overall_status : DocStatus
  pub progress_pct : ℕ
  pub file_size : Option ℕ
  pub created_at : Time
  pub updated_at : Time
  pub stages : StageViews

unfoldable pub report : Db → Document → StatusReport
unfolding fill_stages empty_stages compute_progress select
report db doc =
    let views = fill_stages empty_stages (select (λ row. row.document_id == doc.id) db.stages) in
    record {
      document_id = doc.id;
      filename = doc.filename;
      mime_type = doc.mime_type;
      overall_status = doc.status;
      progress_pct = compute_progress views;
      file_size = doc.file_size;
      created_at = doc.created_at;
      updated_at = doc.updated_at;
      stages = views;
    }

unfoldable pub get_pipeline_status : Uuid → Uuid → Db → Option StatusReport
unfolding report first
get_pipeline_status document_id tenant_id db =
    Option.map (report db)
      (first (λ d. (d.id == document_id) && (d.tenant_id == tenant_id)) db.documents)

abbrev matches_filter : Option DocStatus → Document → Bool
matches_filter none d = true
matches_filter (some s) d = same_doc_status d.status s

-- The reports of the list leave out the MIME type, which is kept here.
unfoldable pub list_pipeline_statuses : Uuid → ℕ → ℕ → Option DocStatus → Db → List StatusReport
unfolding report select order_desc same_doc_status
list_pipeline_statuses tenant_id limit offset status_filter db = map (report db) (
    take limit (
      drop offset (
        order_desc (λ d. d.created_at)
          (select
            (λ d.
              (d.tenant_id == tenant_id)
              && not (same_doc_status d.status DocStatus.deleted)
              && matches_filter status_filter d)
            db.documents))))
