-- ===== src/Prelude/Keys.antt =====
-- Unique keys: no two rows of a table have one key, and updates, deletions and inserts under a new
-- key keep it so.
use Prim.Native.Nat.{ℕ}
use mathlib.Core.Path.{◌≡◌, sym, ◌∙◌}
use mathlib.Core.Logic.{◌≢◌, inl, inr}
use mathlib.Core.Bool.{Bool, true, false}
use mathlib.Core.Option.{some}
use mathlib.Core.List.{List, [], ◌∷◌, ◌++◌}
use native.Mathlib.Omega.{arith}
use knowledgebase.Prelude.Tests.{◌==◌, if◌then◌else◌, Bool-cases}
use knowledgebase.Prelude.Lists.{All, All-mono, All-append, All-in, In}
use knowledgebase.Prelude.Table.{update, delete, exists, first, All-update, All-delete}

module _ {A : Type 0} (key : A → ℕ) where
  abbrev pub Distinct : List A → Type 0
  Distinct [] = Unit
  Distinct (j ∷ js) = All (λ k. (key j) ≢ (key k)) js × Distinct js

  pub Distinct-update :
      (p : A → Bool) (f : A → A) (js : List A)
      → ((j : A) → key (f j) ≡ (key j))
      → Distinct js
      → Distinct (update p f js)
  unfolding update
  Distinct-update p f [] same h = tt
  Distinct-update p f (j ∷ js) same h = (
    All-update (λ k. key (if p j then f j else j) ≢ (key k)) p f js (λ k e n q. n (q ∙ same k))
        (All-mono (λ k. (key j) ≢ (key k)) (λ k. key (if p j then f j else j) ≢ (key k)) js
          (λ k n q. n (ground (arith, same j))) h.0),
    Distinct-update p f js same h.1,
  )

  pub Distinct-delete : (p : A → Bool) (js : List A) → Distinct js → Distinct (delete p js)
  unfolding delete
  Distinct-delete p [] h = tt
  Distinct-delete p (j ∷ js) h = elim (Bool-cases (p j)) [
    | inl e ↦ rw e (Distinct-delete p js h.1)
    | inr e ↦ rw e (All-delete _ p js h.0, Distinct-delete p js h.1)
  ]

  pub Distinct-append :
      (js : List A) (j : A)
      → exists (λ k. (key k) == (key j)) js ≡ false
      → Distinct js
      → Distinct (js ++ j ∷ [])
  unfolding exists
  Distinct-append [] j e h = (tt, tt)
  Distinct-append (k ∷ ks) j e h = (
    All-append (λ x. (key k) ≢ (key x)) ks (j ∷ []) h.0 ((λ q. ground arith), tt),
    Distinct-append ks j (ground arith) h.1,
  )

  -- Under a primary key, the row that a SELECT by id finds is the only one with its id.
  pub first_unique :
      (i : ℕ) (js : List A) {row : A}
      → Distinct js
      → first (λ j. key j == i) js ≡ some row
      → All (λ j. (key j == i) ≡ true → j ≡ row) js
  unfolding first
  first_unique i [] d h = tt
  first_unique i (j ∷ js) {row = row} d h = elim (Bool-cases (key j == i)) [
    | inl e ↦ (
      (λ _. ground arith),
      All-mono (λ k. (key j) ≢ (key k)) _ js (λ k n q. absurd (n (ground arith))) d.0,
    )
    | inr e ↦ ((λ q. ground arith), first_unique i js d.1 (ground arith))
  ]

  pub stored_unique :
      (js : List A) (row : A)
      → Distinct js
      → In row js
      → All (λ j. ((key j) == (key row)) ≡ true → j ≡ row) js
  stored_unique [] row d m = tt
  stored_unique (j ∷ js) row d (inl e) = (
    (λ _. sym e),
    All-mono (λ k. (key j) ≢ (key k)) _ js (λ k n q. absurd (n (ground arith))) d.0,
  )
  stored_unique (j ∷ js) row d (inr m) = (
    (λ q. absurd (All-in (λ k. (key j) ≢ (key k)) js row d.0 m (ground arith))),
    stored_unique js row d.1 m,
  )
