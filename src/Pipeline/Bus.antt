-- ===== src/Pipeline/Bus.antt =====
-- The event bus of app/core/pipeline.py.
use knowledgebase.Prelude.{
  ℕ, ◌≤◌, ◌≡◌, ◌≢◌, refl, Option, not, [], ◌∷◌, arith, length, length-append, All, All-update,
  Bool-cases, inl, inr, ◌==◌,
}
use knowledgebase.Prelude.Table.{select, select-update}
use knowledgebase.Models.{Uuid, Time, Detail}
use knowledgebase.Models.Status.{StageName, StageStatus}
use knowledgebase.Models.Integrity.{has_document}
use knowledgebase.Pipeline.{
  Event, Subscription, EventBus, queue_size, put, subscribe, unsubscribe, broadcast, System,
  update_stage,
}

-- No queue holds more than 200 events.
abbrev pub IsBounded : EventBus → Type 0
IsBounded bus = All (λ s. length s.items ≤ queue_size) bus

broadcast-IsBounded :
    (tenant : Uuid) (event : Event) (bus : EventBus)
    → IsBounded bus
    → IsBounded (broadcast tenant event bus)
unfolding broadcast put
broadcast-IsBounded tenant event bus h =
    All-update _ _ (put event) bus (λ s e k. ground (arith, length-append s.items (event ∷ []))) h

put-tenant : (event : Event) (s : Subscription) → (put event s).tenant_id ≡ s.tenant_id
unfolding put
put-tenant event s = ground arith

other_tenant :
    (tenant : Uuid) (event : Event) (bus : EventBus)
    → select (λ s. not (s.tenant_id == tenant)) (broadcast tenant event bus)
      ≡ select (λ s. not (s.tenant_id == tenant)) bus
unfolding broadcast
other_tenant tenant event bus =
    select-update _ _ (put event) bus (λ s e. ground arith)
      (λ s e. rw (put-tenant event s) (ground arith))

-- A stage update keeps every queue within 200 events and does not touch the queues of other
-- tenants, whether the document is still there or not.
pub update_stage_bus :
    (now : Time) (document tenant : Uuid) (stage : StageName) (status : StageStatus)
    (detail : Option Detail) (sys : System)
    → IsBounded sys.bus
    → IsBounded (update_stage now document tenant stage status detail sys).bus
      × (select
            (λ s. not (s.tenant_id == tenant))
            (update_stage now document tenant stage status detail sys).bus
          ≡ select (λ s. not (s.tenant_id == tenant)) sys.bus)
unfolding update_stage
update_stage_bus now document tenant stage status detail sys h =
    elim (Bool-cases (has_document document sys.db.documents)) [
      | inl e ↦ rw e (broadcast-IsBounded tenant _ sys.bus h, other_tenant tenant _ sys.bus)
      | inr e ↦ rw e (h, refl)
    ]

-- A subscription that is dropped after it was made leaves the bus as it was, if its queue is new.
pub unsubscribe-subscribe :
    (tenant : Uuid) (queue : ℕ) (bus : EventBus)
    → All (λ s. s.queue ≢ queue) bus
    → unsubscribe tenant queue (subscribe tenant queue bus) ≡ bus
unfolding unsubscribe subscribe
unsubscribe-subscribe tenant queue [] h = ground arith
unsubscribe-subscribe tenant queue (s ∷ bus) h =
    ground (arith, unsubscribe-subscribe tenant queue bus)
