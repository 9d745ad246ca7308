-- ===== src/Pipeline/Examples.antt =====
-- A document on its way through the pipeline, and the theorems at these inputs.
use knowledgebase.Prelude.{ℕ, ◌+◌, ◌/◌, ◌≡◌, ◌↔◌, refl, none, some, [], ◌∷◌, arith, not, true, ◌==◌}
use knowledgebase.Prelude.Table.{select, exists}
use knowledgebase.Models.Samples.{sample_report, one_document}
use knowledgebase.Models.Status.{StageName, StageStatus}
use knowledgebase.Models.Integrity.{has_document}
use knowledgebase.Pipeline.{
  EventBus, System, counts_done, compute_progress, empty_stages, sum_where, stage_weight,
  is_processing, update_stage, subscribe, unsubscribe, get_pipeline_status, report, share,
  set_stage, stage_row_to_dict,
}
use knowledgebase.Pipeline.Progress.{compute_progress_lem}
use knowledgebase.Pipeline.Bus.{IsBounded, update_stage_bus, unsubscribe-subscribe}
use knowledgebase.Pipeline.Stages.{status_after_update}

abbrev bus : EventBus
bus =
    record { tenant_id = 9; queue = 1; items = [] }
    ∷ record { tenant_id = 8; queue = 2; items = [] }
    ∷ []

abbrev sys : System
sys = record { db = one_document; bus = bus }

abbrev parsed : System
parsed = update_stage 50 1 9 StageName.parse StageStatus.done none sys

half_way : ℕ
half_way =
    compute_progress
      (report (update_stage 60 1 9 StageName.chunk StageStatus.processing none parsed).db
        sample_report).stages

half_way_27 : half_way ≡ 27
unfolding half_way compute_progress report update_stage share set_stage stage_row_to_dict
half_way_27 = refl

update_stage_bus_example :
    IsBounded parsed.bus
    × (select (λ s. not (s.tenant_id == 9)) parsed.bus ≡ select (λ s. not (s.tenant_id == 9)) bus)
update_stage_bus_example =
    update_stage_bus 50 1 9 StageName.parse StageStatus.done none sys
      (omega arith, (omega arith, tt))

unsubscribe-subscribe_example : unsubscribe 9 5 (subscribe 9 5 bus) ≡ bus
unsubscribe-subscribe_example = unsubscribe-subscribe 9 5 bus (omega arith, (omega arith, tt))

stored : has_document 1 one_document.documents ≡ true
unfolding has_document exists
stored = refl

found : get_pipeline_status 1 9 parsed.db ≡ some (report parsed.db sample_report)
unfolding get_pipeline_status update_stage
found = refl

status_after_update_example :
    ((report parsed.db sample_report).stages StageName.parse).status ≡ StageStatus.done
status_after_update_example =
    status_after_update 50 1 9 StageName.parse StageStatus.done none sys stored found

compute_progress_lem_example :
    (compute_progress empty_stages
      ≡ sum_where counts_done stage_weight empty_stages
        + sum_where is_processing (λ s. stage_weight s / 2) empty_stages)
    × ((compute_progress empty_stages ≡ 100)
        ↔ ((s : StageName) → counts_done (empty_stages s).status ≡ true))
compute_progress_lem_example = compute_progress_lem empty_stages
