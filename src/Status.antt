-- ===== src/Status.antt =====
-- app/api/routes/status.py: the status routes and the event streams. A stream is what its generator does, step by step, between
-- the events of other tasks; a queue is known by its number in the bus of Pipeline.antt.
pub mod Stream
mod Examples
use knowledgebase.Prelude.{
  ℕ, Bool, true, false, Option, none, some, List, [], ◌∷◌, ◌++◌, drop, ◌==◌, if◌then◌else◌,
}
use knowledgebase.Prelude.Text.{Text, same_text}
use knowledgebase.Prelude.Table.{first, update}
use knowledgebase.Models.{Uuid, Db}
use knowledgebase.Models.Status.{DocStatus}
use knowledgebase.Access.{Answer, answered, http_error, AuthContext}
use knowledgebase.Pipeline.{
  Event, Subscription, EventBus, System, StatusReport, subscribe, unsubscribe, broadcast,
  get_pipeline_status, list_pipeline_statuses,
}

abbrev or_not_found : Option StatusReport → Answer StatusReport
or_not_found none = http_error 404
or_not_found (some report) = answered report

unfoldable pub get_status : Uuid → AuthContext → Db → Answer StatusReport
unfolding get_pipeline_status
get_status document_id auth db = or_not_found (get_pipeline_status document_id auth.tenant_id db)

unfoldable pub list_status : AuthContext → ℕ → ℕ → Option DocStatus → Db → List StatusReport
unfolding list_pipeline_statuses
list_status auth limit offset status db =
    list_pipeline_statuses auth.tenant_id limit offset status db

-- What a stream yields.
pub data SseEvent : Type 0 where
  document_snapshot : StatusReport → SseEvent
  snapshots : List StatusReport → SseEvent
  pipeline_update : Event → SseEvent
  heartbeat : SseEvent

-- `document_id` is the text of the request that is not blank, with the UUID that the database reads in it; a blank one is none, and a text that is no UUID ends the
-- stream with an exception and is not modelled. The events are compared with the text itself, as `str_uuid` spells their ids.
module _ (str_uuid : Uuid → Text) (tenant_id : Uuid) (queue : ℕ)
    (document_id : Option (Text × Uuid)) where
  abbrev pub is_mine : Subscription → Bool
  is_mine s = s.queue == queue

  abbrev or_nothing : Option StatusReport → List SseEvent
  or_nothing none = []
  or_nothing (some report) = document_snapshot report ∷ []

  -- The snapshot that a stream begins with.
  unfoldable pub snapshot : Db → List SseEvent
  unfolding get_pipeline_status list_pipeline_statuses
  snapshot db = elim document_id [
    | none ↦ snapshots (list_pipeline_statuses tenant_id 50 0 none db) ∷ []
    | some id ↦ or_nothing (get_pipeline_status id.1 tenant_id db)
  ]

  unfoldable pub connect : System → List SseEvent × System
  unfolding subscribe snapshot
  connect sys = (snapshot sys.db, record sys { bus = subscribe tenant_id queue sys.bus })

  unfoldable pub wanted : Event → Bool
  unfolding same_text
  wanted e = elim document_id [ none ↦ true | some id ↦ same_text (str_uuid e.document_id) id.0 ]

  abbrev pub shown : Event → List SseEvent
  shown e = if wanted e then pipeline_update e ∷ [] else []

  abbrev pub take_item : Subscription → Subscription
  take_item s = record s { items = drop 1 s.items }

  abbrev pub polled : EventBus → List Event → List SseEvent × EventBus
  polled bus [] = (heartbeat ∷ [], bus)
  polled bus (e ∷ items) = (shown e, update is_mine take_item bus)

  abbrev pub items_of : Option Subscription → List Event
  items_of none = []
  items_of (some s) = s.items

  -- A round of the loop: the next event of the queue, or a heartbeat if there is none in time.
  unfoldable pub poll : EventBus → List SseEvent × EventBus
  unfolding first update
  poll bus = polled bus (items_of (first is_mine bus))

  unfoldable pub disconnect : EventBus → EventBus
  unfolding unsubscribe
  disconnect bus = unsubscribe tenant_id queue bus

  -- What happens while a stream is open: an event of some tenant, or a round of its loop.
  pub data Action : Type 0 where
    published : Uuid → Event → Action
    round : Action

  unfoldable pub run_stream : List Action → EventBus → List SseEvent × EventBus
  unfolding broadcast poll
  run_stream [] bus = ([], bus)
  run_stream (published tenant e ∷ actions) bus = run_stream actions (broadcast tenant e bus)
  run_stream (round ∷ actions) bus =
      ((poll bus).0 ++ (run_stream actions (poll bus).1).0, (run_stream actions (poll bus).1).1)
