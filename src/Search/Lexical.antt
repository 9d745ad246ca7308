-- ===== src/Search/Lexical.antt =====
-- What the three passes of the full-text search of app/search/engine.py find.
use knowledgebase.Prelude.{
  ℕ, zero, suc, ◌≤◌, ◌≡◌, ◌≢◌, ◌⊎◌, inl, inr, refl, subst, Bool, true, false, ◌&&◌, Option, List,
  [], ◌∷◌, map, take, arith, ◌==◌, All, All-mono, All-take, In, Bool-cases, All_intro,
}
use knowledgebase.Prelude.Text.{Text}
use knowledgebase.Prelude.Table.{select_sound, In-select}
use knowledgebase.Prelude.Sorting.{All-sort_desc, In-sort_desc}
use knowledgebase.Models.{Uuid, Db}
use knowledgebase.Search.Engine.{
  SearchServices, Row, join, in_scope, exec_fts, run_fts, ranked, or_else,
}
use knowledgebase.Search.Engine.Terms.{clean_fts_query, or_fts_query}

module _ {A : Type 0} where
  or_else-nil : (xs next : List A) → or_else xs next ≡ [] → (xs ≡ []) × (next ≡ [])
  or_else-nil [] next h = (refl, h)
  or_else-nil (x ∷ xs) next h = absurd (cc)

  List-cases : (xs : List A) → (xs ≡ []) ⊎ (xs ≢ [])
  List-cases [] = inl refl
  List-cases (x ∷ xs) = inr (λ e. cc)

  take-nil : (n : ℕ) (xs : List A) → 1 ≤ n → take n xs ≡ [] → xs ≡ []
  take-nil zero xs pos h = absurd (omega arith)
  take-nil (suc n) [] pos h = refl
  take-nil (suc n) (x ∷ xs) pos h = absurd (cc)

module _ {A B : Type 0} (f : A → B) where
  map-nil : (xs : List A) → map f xs ≡ [] → xs ≡ []
  map-nil [] h = refl
  map-nil (x ∷ xs) h = absurd (cc)

module _ {S V F : Type 0} (services : SearchServices S V F) (tenant_id : Uuid) (top_k : ℕ)
    (document_id : Option Uuid) (db : Db) where
  -- The row is of the tenant, in the scope and matches the query.
  abbrev matching : Text → Row → Bool
  matching q row =
      services.fts_matches q row.0.fts_vector
      && (row.0.tenant_id == tenant_id)
      && in_scope document_id row

  abbrev pub IsFound : Text → Row × S → Type 0
  IsFound q r = (matching q r.0 ≡ true) × (r.1 ≡ services.ts_rank q r.0.0.fts_vector)

  ranked_pass :
      (q : Text) (rows : List Row)
      → All (λ row. matching q row ≡ true) rows
      → All (IsFound q) (ranked services q rows)
  ranked_pass q [] h = tt
  ranked_pass q (row ∷ rows) h = ((h.0, refl), ranked_pass q rows h.1)

  pass-IsFound :
      (q : Text)
      → All (IsFound q) (ranked services q (exec_fts services q tenant_id top_k document_id db))
  pass-IsFound q = ranked_pass q _ (
      All-take (λ row. matching q row ≡ true) top_k _
        (All-sort_desc (λ row. matching q row ≡ true) _ _
          (select_sound (matching q) (join db.chunks db.documents))))

  -- A pass that finds nothing has nothing to find.
  pass-nil :
      (q : Text) (row : Row)
      → 1 ≤ top_k
      → ranked services q (exec_fts services q tenant_id top_k document_id db) ≡ []
      → In row (join db.chunks db.documents)
      → matching q row ≡ false
  pass-nil q row pos h m = elim (Bool-cases (matching q row)) [
    | inr e ↦ e
    | inl e ↦
        let empty =
          take-nil top_k _ pos (map-nil (λ r. (r, services.ts_rank q r.0.fts_vector)) _ h) in
        absurd (
          subst (In row) empty
            (In-sort_desc _ row _ (In-select (matching q) (join db.chunks db.documents) row m e)))
  ]

  module _ (query : Text) where
    abbrev cleaned : Text
    cleaned = clean_fts_query services.lower query

    abbrev either : Text
    either = or_fts_query services.lower query

    -- The rows that one of the three queries matches.
    abbrev pub IsMatch : Row × S → Type 0
    IsMatch r = IsFound cleaned r ⊎ (IsFound query r ⊎ IsFound either r)

    -- None of the three queries matches the row.
    abbrev pub IsUnmatched : Row → Type 0
    IsUnmatched row =
        (matching cleaned row ≡ false)
        × (matching query row ≡ false)
        × (matching either row ≡ false)

    some_pass :
        (xs ys zs : List (Row × S))
        → All (IsFound cleaned) xs
        → All (IsFound query) ys
        → All (IsFound either) zs
        → All IsMatch (or_else xs (or_else ys zs))
    some_pass [] [] zs h k l = All-mono (IsFound either) IsMatch zs (λ r m. inr (inr m)) l
    some_pass [] (y ∷ ys) zs h k l =
        All-mono (IsFound query) IsMatch (y ∷ ys) (λ r m. inr (inl m)) k
    some_pass (x ∷ xs) ys zs h k l = All-mono (IsFound cleaned) IsMatch (x ∷ xs) (λ r m. inl m) h

    -- Each row that the full-text search returns is of the tenant and in the scope, and one of the three queries (the cleaned one, the one
    -- as asked, the one with OR) matches it, with the rank that it gives; and if its limit is not 0, the search returns a row, or none of the three matches
    -- a row of the tenant in the scope.
    pub run_fts_complete :
        1 ≤ top_k
        → All IsMatch (run_fts services query tenant_id top_k document_id db)
          × ((run_fts services query tenant_id top_k document_id db ≢ [])
              ⊎ All IsUnmatched (join db.chunks db.documents))
    unfolding run_fts
    run_fts_complete pos = (
      some_pass _ _ _ (pass-IsFound cleaned) (pass-IsFound query) (pass-IsFound either),
      elim (List-cases (run_fts services query tenant_id top_k document_id db)) [
        | inr filled ↦ inl filled
        | inl h ↦
            let (first_nil, rest) = or_else-nil _ _ h in
            let (second_nil, third_nil) = or_else-nil _ _ rest in
            inr (
              All_intro IsUnmatched (join db.chunks db.documents) (λ row m. (
                pass-nil cleaned row pos first_nil m,
                pass-nil query row pos second_nil m,
                pass-nil either row pos third_nil m,
              )))
      ],
    )
