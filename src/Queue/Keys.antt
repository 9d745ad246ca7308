-- ===== src/Queue/Keys.antt =====
-- The primary key of pipeline_jobs: no two rows have one id, and every operation keeps it so.
use knowledgebase.Prelude.{
  ◌≡◌, ◌≢◌, sym, ◌∙◌, Bool, true, false, some, List, [], ◌∷◌, ◌++◌, arith, All, All-mono,
  All-append, All-update, All-delete, Bool-cases, ◌==◌, inl, inr, if◌then◌else◌, In, All-in,
}
use knowledgebase.Prelude.Table.{update, delete, exists, first}
use knowledgebase.Models.{Uuid, PipelineJob}

abbrev pub Distinct : List PipelineJob → Type 0
Distinct [] = Unit
Distinct (j ∷ js) = All (λ k. j.id ≢ k.id) js × Distinct js

pub Distinct-update :
    (p : PipelineJob → Bool) (f : PipelineJob → PipelineJob) (js : List PipelineJob)
    → ((j : PipelineJob) → (f j).id ≡ j.id)
    → Distinct js
    → Distinct (update p f js)
unfolding update
Distinct-update p f [] same h = tt
Distinct-update p f (j ∷ js) same h = (
  All-update (λ k. (if p j then f j else j).id ≢ k.id) p f js (λ k e n q. n (q ∙ same k))
      (All-mono (λ k. j.id ≢ k.id) (λ k. (if p j then f j else j).id ≢ k.id) js
        (λ k n q. n (ground (arith, same j))) h.0),
  Distinct-update p f js same h.1,
)

pub Distinct-delete :
    (p : PipelineJob → Bool) (js : List PipelineJob) → Distinct js → Distinct (delete p js)
unfolding delete
Distinct-delete p [] h = tt
Distinct-delete p (j ∷ js) h = elim (Bool-cases (p j)) [
  | inl e ↦ rw e (Distinct-delete p js h.1)
  | inr e ↦ rw e (All-delete _ p js h.0, Distinct-delete p js h.1)
]

pub Distinct-append :
    (js : List PipelineJob) (j : PipelineJob)
    → exists (λ k. k.id == j.id) js ≡ false
    → Distinct js
    → Distinct (js ++ j ∷ [])
unfolding exists
Distinct-append [] j e h = (tt, tt)
Distinct-append (k ∷ ks) j e h = (
  All-append (λ x. k.id ≢ x.id) ks (j ∷ []) h.0 ((λ q. ground arith), tt),
  Distinct-append ks j (ground arith) h.1,
)

-- Under a primary key, the row that a SELECT by id finds is the only one with its id.
pub first_unique :
    (id : Uuid) (js : List PipelineJob) {row : PipelineJob}
    → Distinct js
    → first (λ j. j.id == id) js ≡ some row
    → All (λ j. (j.id == id) ≡ true → j ≡ row) js
unfolding first
first_unique id [] d h = tt
first_unique id (j ∷ js) {row = row} d h = elim (Bool-cases (j.id == id)) [
  | inl e ↦ (
    (λ _. ground arith),
    All-mono (λ k. j.id ≢ k.id) _ js (λ k n q. absurd (n (ground arith))) d.0,
  )
  | inr e ↦ ((λ q. ground arith), first_unique id js d.1 (ground arith))
]

pub stored_unique :
    (js : List PipelineJob) (row : PipelineJob)
    → Distinct js
    → In row js
    → All (λ j. (j.id == row.id) ≡ true → j ≡ row) js
stored_unique [] row d m = tt
stored_unique (j ∷ js) row d (inl e) =
    ((λ _. sym e), All-mono (λ k. j.id ≢ k.id) _ js (λ k n q. absurd (n (ground arith))) d.0)
stored_unique (j ∷ js) row d (inr m) = (
  (λ q. absurd (All-in (λ k. j.id ≢ k.id) js row d.0 m (ground arith))),
  stored_unique js row d.1 m,
)
