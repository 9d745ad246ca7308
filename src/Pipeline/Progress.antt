-- ===== src/Pipeline/Progress.antt =====
-- `_compute_progress` of app/core/pipeline.py.
use knowledgebase.Prelude.{ℕ, ◌+◌, ◌/◌, ◌≤◌, ◌≡◌, ◌↔◌, true, false, arith, Bool-cases, inl, inr}
use knowledgebase.Models.Status.{StageName}
use knowledgebase.Pipeline.{
  StageViews, stage_weight, counts_done, is_processing, share, sum_where, compute_progress,
}

abbrev done : StageViews → StageName → ℕ
done = share counts_done stage_weight

abbrev active : StageViews → StageName → ℕ
active = share is_processing (λ s. stage_weight s / 2)

module _ (views : StageViews) (s : StageName) where
  share-le : done views s + active views s ≤ stage_weight s
  unfolding share
  share-le = ground arith

  -- A stage gives its whole weight only when it is done.
  share_full :
      (counts_done (views s).status ≡ false) → done views s + active views s + 1 ≤ stage_weight s
  unfolding share
  share_full h = ground arith

  share_done : (counts_done (views s).status ≡ true) → done views s ≡ stage_weight s
  unfolding share
  share_done h = ground arith

-- The cap of 100 is never needed: the weights of the finished stages and half of those of the
-- running ones add up to the progress.
pub progress_exact :
    (views : StageViews)
    → compute_progress views
      ≡ sum_where counts_done stage_weight views
        + sum_where is_processing (λ s. stage_weight s / 2) views
unfolding compute_progress sum_where
progress_exact views = omega (
  arith,
  share-le views StageName.upload,
  share-le views StageName.parse,
  share-le views StageName.chunk,
  share-le views StageName.embed,
  share-le views StageName.index,
)

all_done :
    (views : StageViews)
    → compute_progress views ≡ 100
    → (s : StageName) → counts_done (views s).status ≡ true
unfolding compute_progress sum_where
all_done views h s = elim (Bool-cases (counts_done (views s).status)) [
  | inl e ↦ e
  | inr e ↦ absurd (short s (share_full views s e))
]
  where
    short : (s : StageName) → done views s + active views s + 1 ≤ stage_weight s → ⊥
    short StageName.upload k = omega (
      arith,
      share-le views StageName.parse,
      share-le views StageName.chunk,
      share-le views StageName.embed,
      share-le views StageName.index,
    )
    short StageName.parse k = omega (
      arith,
      share-le views StageName.upload,
      share-le views StageName.chunk,
      share-le views StageName.embed,
      share-le views StageName.index,
    )
    short StageName.chunk k = omega (
      arith,
      share-le views StageName.parse,
      share-le views StageName.upload,
      share-le views StageName.embed,
      share-le views StageName.index,
    )
    short StageName.embed k = omega (
      arith,
      share-le views StageName.parse,
      share-le views StageName.chunk,
      share-le views StageName.upload,
      share-le views StageName.index,
    )
    short StageName.index k = omega (
      arith,
      share-le views StageName.parse,
      share-le views StageName.chunk,
      share-le views StageName.embed,
      share-le views StageName.upload,
    )

-- The progress is 100 exactly when every stage is done or skipped.
pub progress_complete :
    (views : StageViews)
    → (compute_progress views ≡ 100) ↔ ((s : StageName) → counts_done (views s).status ≡ true)
progress_complete views = (all_done views, full)
  where
    full : ((s : StageName) → counts_done (views s).status ≡ true) → compute_progress views ≡ 100
    full h =
        unfold compute_progress sum_where in
        omega (
          arith,
          share-le views StageName.upload,
          share-le views StageName.parse,
          share-le views StageName.chunk,
          share-le views StageName.embed,
          share-le views StageName.index,
          share_done views StageName.upload (h StageName.upload),
          share_done views StageName.parse (h StageName.parse),
          share_done views StageName.chunk (h StageName.chunk),
          share_done views StageName.embed (h StageName.embed),
          share_done views StageName.index (h StageName.index),
        )

-- The progress is the sum of the weights of the finished stages and of half of those of the running ones, so that the cap of 100 is
-- never needed, and it is 100 exactly when every stage is done or skipped.
pub compute_progress_lem :
    (views : StageViews)
    → (compute_progress views
        ≡ sum_where counts_done stage_weight views
          + sum_where is_processing (λ s. stage_weight s / 2) views)
      × ((compute_progress views ≡ 100) ↔ ((s : StageName) → counts_done (views s).status ≡ true))
compute_progress_lem views = (progress_exact views, progress_complete views)
