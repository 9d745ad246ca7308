-- ===== src/Tabular/Profile/Schema.antt =====
-- What the schema of app/ingestion/tabular_profiler.py says of the rows of a file.
use knowledgebase.Prelude.{
  ℕ, zero, suc, ◌≤◌, ◌≡◌, ◌≢◌, ◌⊎◌, inl, inr, refl, subst, ap, Bool, true, false, Option, none,
  some, In, List, [], ◌∷◌, length, length-take, take, arith, All, All-mono, Bool-cases, get_elem?,
}
use knowledgebase.Prelude.Text.{Text, codes, strip}
use knowledgebase.Prelude.Table.{select}
use knowledgebase.Models.{Column}
use knowledgebase.Tabular.Profile.{
  ProfilerServices, is_filled, is_int, is_float, all_match, type_of, infer_type, samples_of,
  cell_of, columns_from, profile_rows,
}

module _ (services : ProfilerServices) where
  -- A sample that does not look like the type.
  abbrev Misses : (Text → Bool) → List Text → Type 0
  Misses test samples = (s : Text) × In s samples × (test (strip s) ≡ false)

  -- The type is BIGINT if there are samples, all written as integers, DOUBLE if all are written as numbers, but not all as integers, and VARCHAR otherwise.
  abbrev pub IsTyped : Text → List Text → Type 0
  IsTyped type_name samples =
      ((type_name ≡ codes "BIGINT")
        × (samples ≢ [])
        × All (λ s. is_int services (strip s) ≡ true) samples)
      ⊎ (((type_name ≡ codes "DOUBLE")
            × All (λ s. is_float services (strip s) ≡ true) samples
            × Misses (is_int services) samples)
          ⊎ ((type_name ≡ codes "VARCHAR")
              × ((samples ≡ [])
                  ⊎ (Misses (is_int services) samples × Misses (is_float services) samples))))

  all_match-All :
      (test : Text → Bool) (samples : List Text)
      → all_match services test samples ≡ true
      → All (λ s. test (strip s) ≡ true) samples
  unfolding all_match
  all_match-All test [] h = tt
  all_match-All test (s ∷ samples) h =
      (ground (arith, h), all_match-All test samples (ground (arith, h)))

  all_match-Misses :
      (test : Text → Bool) (samples : List Text)
      → all_match services test samples ≡ false
      → Misses test samples
  unfolding all_match
  all_match-Misses test [] h = absurd (cc)
  all_match-Misses test (s ∷ samples) h = elim (Bool-cases (test (strip s))) [
    | inr e ↦ (s, inl refl, e)
    | inl e ↦ let (t, m, f) = all_match-Misses test samples (rw e at h) in (t, inr m, f)
  ]

  type_of-IsTyped : (samples : List Text) → IsTyped (type_of services samples) samples
  type_of-IsTyped [] = inr (inr (refl, inl refl))
  type_of-IsTyped (s ∷ samples) =
      elim (Bool-cases (all_match services (is_int services) (s ∷ samples))) [
        | inl e ↦ inl (rw e refl, (λ q. cc), all_match-All (is_int services) (s ∷ samples) e)
        | inr e ↦
            let word = all_match-Misses (is_int services) (s ∷ samples) e in
            elim (Bool-cases (all_match services (is_float services) (s ∷ samples))) [
              | inl f ↦
                  inr
                    (inl (rw (e, f) refl, all_match-All (is_float services) (s ∷ samples) f, word))
              | inr f ↦ inr (
                  inr (
                    rw (e, f) refl,
                    inr (word, all_match-Misses (is_float services) (s ∷ samples) f),
                  ))
            ]
      ]

  all_filled :
      (samples : List Text)
      → All (λ s. is_filled s ≡ true) samples
      → select is_filled samples ≡ samples
  unfolding select
  all_filled [] h = refl
  all_filled (s ∷ samples) h = rw h.0 (ap (λ l. s ∷ l) (all_filled samples h.1))

  -- The row has the cell at the position `i`, and it is not blank.
  abbrev IsCell : ℕ → List (List Text) → Text → Type 0
  IsCell i rows s =
      (is_filled s ≡ true) × ((row : List Text) × In row rows × (get_elem? row i ≡ some s))

  -- The cell of the row at the position is blank or among the samples, or the row is too short.
  abbrev IsSeen : ℕ → List Text → List Text → Type 0
  IsSeen i samples row =
      (get_elem? row i ≡ none)
      ⊎ ((s : Text) × (get_elem? row i ≡ some s) × ((is_filled s ≡ false) ⊎ In s samples))

  IsCell-later :
      (i : ℕ) (row : List Text) (rows : List (List Text)) (samples : List Text)
      → All (IsCell i rows) samples
      → All (IsCell i (row ∷ rows)) samples
  IsCell-later i row rows samples h =
      All-mono (IsCell i rows) (IsCell i (row ∷ rows)) samples
        (λ s c. (c.0, (c.1.0, inr c.1.1, c.1.2))) h

  IsSeen-later :
      (i : ℕ) (s : Text) (samples : List Text) (rows : List (List Text))
      → All (IsSeen i samples) rows
      → All (IsSeen i (s ∷ samples)) rows
  IsSeen-later i s samples rows h =
      All-mono (IsSeen i samples) (IsSeen i (s ∷ samples)) rows
        (λ row seen. elim seen [
          | inl e ↦ inl e
          | inr (t, e, inl b) ↦ inr (t, e, inl b)
          | inr (t, e, inr m) ↦ inr (t, e, inr (inr m))
        ])
        h

  -- The samples are the cells of the rows at the position that are not blank.
  abbrev AreCells : ℕ → List (List Text) → List Text → Type 0
  AreCells i rows samples =
      All (IsCell i rows) samples × All (IsSeen i samples) rows × (length samples ≤ length rows)

  cell_of-AreCells :
      (i : ℕ) (row : List Text) (rows : List (List Text)) (o : Option Text) (rest : List Text)
      → get_elem? row i ≡ o
      → AreCells i rows rest
      → AreCells i (row ∷ rows) (cell_of services o rest)
  cell_of-AreCells i row rows none rest e (cells, seen, few) =
      (IsCell-later i row rows rest cells, (inl e, seen), omega arith)
  cell_of-AreCells i row rows (some s) rest e (cells, seen, few) = elim (Bool-cases (is_filled s)) [
    | inl b ↦
        let kept : s ∷ rest ≡ cell_of services (some s) rest = rw b refl in
        subst (AreCells i (row ∷ rows)) kept (
          ((b, (row, inl refl, e)), IsCell-later i row rows rest cells),
          (inr (s, e, inr (inl refl)), IsSeen-later i s rest rows seen),
          omega arith,
        )
    | inr b ↦
        let dropped : rest ≡ cell_of services (some s) rest = rw b refl in
        subst (AreCells i (row ∷ rows)) dropped
          (IsCell-later i row rows rest cells, (inr (s, e, inl b), seen), omega arith)
  ]

  samples_of_lem : (i : ℕ) (rows : List (List Text)) → AreCells i rows (samples_of services i rows)
  unfolding samples_of
  samples_of_lem i [] = (tt, tt, omega arith)
  samples_of_lem i (row ∷ rows) =
      cell_of-AreCells i row rows (get_elem? row i) (samples_of services i rows) refl
        (samples_of_lem i rows)

  take-all : (n : ℕ) (xs : List Text) → length xs ≤ n → take n xs ≡ xs
  take-all zero [] h = refl
  take-all (suc n) [] h = refl
  take-all zero (x ∷ xs) h = absurd (omega arith)
  take-all (suc n) (x ∷ xs) h = ap (λ l. x ∷ l) (take-all n xs (omega arith))

  -- The column at the position `i` of the rows has this name. Its samples are the cells of the rows at this position that are not blank, and its type is that of
  -- all of them.
  abbrev pub IsSampled : ℕ → List (List Text) → Text → Column → Type 0
  IsSampled i rows name c =
      (c.name ≡ name)
      × All (IsCell i rows) c.sample
      × All (IsSeen i c.sample) rows
      × IsTyped c.type_name c.sample

  -- The columns describe the positions from `i` on, one for each name.
  abbrev pub AreSampled : ℕ → List (List Text) → List Text → List Column → Type 0
  AreSampled i rows [] [] = Unit
  AreSampled i rows [] (c ∷ columns) = ⊥
  AreSampled i rows (h ∷ headers) [] = ⊥
  AreSampled i rows (h ∷ headers) (c ∷ columns) =
      IsSampled i rows h c × AreSampled (suc i) rows headers columns

  columns_from-AreSampled :
      (i : ℕ) (headers : List Text) (rows : List (List Text))
      → length rows ≤ 5
      → AreSampled i rows headers (columns_from services i headers rows)
  unfolding columns_from infer_type
  columns_from-AreSampled i [] rows few = tt
  columns_from-AreSampled i (h ∷ headers) rows few =
      let (cells, seen, fewer) = samples_of_lem i rows in
      let filled = All-mono (IsCell i rows) (λ s. is_filled s ≡ true) _ (λ s c. c.0) cells in
      (
        rw
            (
              take-all 5 (samples_of services i rows) (omega arith),
              all_filled (samples_of services i rows) filled,
            )
            (refl, cells, seen, type_of-IsTyped (samples_of services i rows)),
        columns_from-AreSampled (suc i) headers rows few,
      )

  -- The schema of a file counts the rows after the header and has a column for each name of the header, in order. The samples of a column are the cells
  -- that are not blank at its position in the first five rows, and its type is BIGINT if there are samples and all are written as integers, DOUBLE if all are written
  -- as numbers, but not all as integers, and VARCHAR otherwise.
  pub profile_rows-IsSampled :
      (sheet_name : Option Text) (headers : List Text) (rows : List (List Text))
      → ((profile_rows services sheet_name (headers ∷ rows)).row_count ≡ length rows)
        × AreSampled 0
            (take 5 rows)
            headers
            (profile_rows services sheet_name (headers ∷ rows)).columns
  unfolding profile_rows
  profile_rows-IsSampled sheet_name headers rows =
      (refl, columns_from-AreSampled 0 headers (take 5 rows) (omega (arith, length-take 5 rows)))
