-- ===== src/Pipeline/Stages.antt =====
-- `update_stage` and `get_pipeline_status` of app/core/pipeline.py.
use mathlib.Core.Option
use mathlib.Core.Bool.{false≢true}
use knowledgebase.Prelude.{
  ◌≡◌, ◌⊎◌, refl, ap, ◌∙◌, sym, Bool, true, false, ◌&&◌, Option, none, some, List, [], ◌∷◌, arith,
  All, All-append, All-mono, All-unit, All-update_with, All-select_with, Bool-cases, inl, inr, ◌==◌,
  ==_refl,
}
use knowledgebase.Prelude.Table.{
  select, exists, first, first-In, exists-update, exists_false, exists-append, exists-select,
}
use knowledgebase.Models.{Uuid, Time, Detail, PipelineStage, Document, Db}
use knowledgebase.Models.Status.{StageName, StageStatus, same_stage}
use knowledgebase.Models.Integrity.{has_document}
use knowledgebase.Pipeline.{
  System, StageViews, StatusReport, is_stage_row, stage_row, merge, upsert, update_stage,
  stage_row_to_dict, set_stage, empty_stages, fill_stages, report, get_pipeline_status,
}

same_stage_refl : (s : StageName) → same_stage s s ≡ true
unfolding same_stage
same_stage_refl s = ==_refl _

-- The rows of one key carry this status.
abbrev Carries : Uuid → StageName → StageStatus → PipelineStage → Type 0
Carries document stage status row = is_stage_row document stage row ≡ true → row.status ≡ status

abbrev key : PipelineStage → PipelineStage → Bool
key row = is_stage_row row.document_id row.stage

key_refl : (row : PipelineStage) → key row row ≡ true
unfolding is_stage_row
key_refl row = ground (arith, same_stage_refl row.stage, ==_refl row.document_id)

-- After an upsert every row of the key has the new status, and there is one.
module _ (row : PipelineStage) (rows : List PipelineStage) where
  upsert-Carries : All (Carries row.document_id row.stage row.status) (upsert row rows)
  unfolding upsert merge
  upsert-Carries = elim (Bool-cases (exists (key row) rows)) [
    | inl e ↦ rw e (
        All-update_with (λ _. Unit {0}) (λ _. Unit {0})
          (Carries row.document_id row.stage row.status) (key row) (merge row) rows
          (λ r _ hit _ _. refl) (λ r _ miss _ h. absurd (false≢true (sym miss ∙ h))) (All-unit rows)
          (All-unit rows))
    | inr e ↦ rw e (
        All-append _ rows _
          (All-mono (λ r. key row r ≡ false) _ rows (λ r f h. absurd (false≢true (sym f ∙ h)))
            (exists_false (key row) rows e))
          ((λ _. refl), tt))
  ]

  exists-upsert : exists (key row) (upsert row rows) ≡ true
  unfolding upsert
  exists-upsert = elim (Bool-cases (exists (key row) rows)) [
    | inl e ↦ rw (e, exists-update (key row) (key row) (merge row) rows (λ r. same_key r)) e
    | inr e ↦ rw e (exists-append (key row) rows row (key_refl row))
  ]
    where
      same_key : (r : PipelineStage) → key row (merge row r) ≡ key row r
      same_key r = unfold merge in refl

abbrev Shown : StageName → StageStatus → StageViews → List PipelineStage → Type 0
Shown s status views rows =
    (exists (λ r. same_stage r.stage s) rows ≡ true) ⊎ ((views s).status ≡ status)

set_stage-Shown :
    (s : StageName) (status : StageStatus) (views : StageViews) (r : PipelineStage)
    (rows : List PipelineStage)
    → (same_stage r.stage s ≡ true → r.status ≡ status)
    → Shown s status views (r ∷ rows)
    → Shown s status (set_stage r views) rows
unfolding set_stage stage_row_to_dict exists
set_stage-Shown s status views r rows h e = elim (Bool-cases (same_stage r.stage s)) [
  | inl b ↦ inr (rw b (h b))
  | inr b ↦ elim e [ inl f ↦ inl (rw b at f) | inr f ↦ inr (rw b f) ]
]

-- The entry of a stage whose rows all have one status.
fill_stages-status :
    (rows : List PipelineStage) (views : StageViews) (s : StageName) (status : StageStatus)
    → All (λ r. same_stage r.stage s ≡ true → r.status ≡ status) rows
    → Shown s status views rows
    → (fill_stages views rows s).status ≡ status
unfolding fill_stages exists
fill_stages-status [] views s status h (inl e) = absurd (false≢true e)
fill_stages-status [] views s status h (inr e) = e
fill_stages-status (r ∷ rows) views s status h e =
    fill_stages-status rows (set_stage r views) s status h.1
      (set_stage-Shown s status views r rows h.0 e)

key→stage : (row r : PipelineStage) → key row r ≡ true → same_stage r.stage row.stage ≡ true
unfolding is_stage_row
key→stage row r e = ground arith

key_intro :
    (row r : PipelineStage)
    → (r.document_id == row.document_id) ≡ true
    → same_stage r.stage row.stage ≡ true
    → key row r ≡ true
unfolding is_stage_row
key_intro row r d s = ground arith

key→document :
    (row r : PipelineStage) → key row r ≡ true → (r.document_id == row.document_id) ≡ true
unfolding is_stage_row
key→document row r e = ground arith

exists_mono :
    (p q : PipelineStage → Bool) (rows : List PipelineStage)
    → ((r : PipelineStage) → p r ≡ true → q r ≡ true)
    → exists p rows ≡ true
    → exists q rows ≡ true
unfolding exists
exists_mono p q [] sub e = e
exists_mono p q (r ∷ rows) sub e = elim (Bool-cases (p r)) [
  | inl b ↦ rw (sub r b)
  | inr b ↦ elim (Bool-cases (q r)) [
    | inl c ↦ rw c
    | inr c ↦ rw c (exists_mono p q rows sub (rw b at e))
  ]
]

-- What a report shows of the stage of a row that was just written.
shown_status :
    (row : PipelineStage) (rows : List PipelineStage)
    → (fill_stages empty_stages
        (select (λ r. r.document_id == row.document_id) (upsert row rows))
        row.stage).status
      ≡ row.status
shown_status row rows =
    fill_stages-status (select mine (upsert row rows)) empty_stages row.stage row.status
      (All-select_with _ mine (upsert row rows) (
        All-mono (Carries row.document_id row.stage row.status) _ (upsert row rows)
          (λ r c d st. c (key_intro row r d st)) (upsert-Carries row rows)))
      (inl (
        exists_mono (key row) _ (select mine (upsert row rows)) (key→stage row) (
          exists-select (key row) mine (upsert row rows) (key→document row)
            (exists-upsert row rows))))
  where
    mine : PipelineStage → Bool
    mine r = r.document_id == row.document_id

abbrev stages_or : StageViews → Option StatusReport → StageViews
stages_or other none = other
stages_or other (some r) = r.stages

abbrev shown : Db → Uuid → StageViews
shown db id = fill_stages empty_stages (select (λ row. row.document_id == id) db.stages)

-- A report is of the document that was asked for.
reported :
    (document tenant : Uuid) (db : Db) {r : StatusReport}
    → get_pipeline_status document tenant db ≡ some r
    → (d : Document) × (d.id ≡ document) × (r.stages ≡ shown db d.id)
unfolding get_pipeline_status report
reported document tenant db {r = r} got = from (first mine db.documents) refl got
  where
    mine : Document → Bool
    mine d = (d.id == document) && (d.tenant_id == tenant)

    from :
        (found : Option Document)
        → first mine db.documents ≡ found
        → Option.map (report db) found ≡ some r
        → (d : Document) × (d.id ≡ document) × (r.stages ≡ shown db d.id)
    from none e h = absurd (cc)
    from (some d) e h =
        let m = (first-In mine db.documents e).1 in
        (d, ground arith, ap (stages_or r.stages) (sym h))

-- After a stage update of a stored document, a status report of that document, if it is given at
-- all, shows the new status at that stage.
pub status_after_update :
    (now : Time) (document tenant : Uuid) (stage : StageName) (status : StageStatus)
    (detail : Option Detail) (sys : System) {r : StatusReport}
    → has_document document sys.db.documents ≡ true
    → get_pipeline_status document tenant
        (update_stage now document tenant stage status detail sys).db
      ≡ some r
    → (r.stages stage).status ≡ status
unfolding update_stage stage_row
status_after_update now document tenant stage status detail sys {r = r} h got =
    let db' = (update_stage now document tenant stage status detail sys).db in
    let found : (d : Document) × (d.id ≡ document) × (r.stages ≡ shown db' d.id) =
      reported document tenant db' got in
    rw (found.2, found.1, h)
      (shown_status (stage_row now document tenant stage status detail) sys.db.stages)
