-- ===== src/Search/Isolation/Rows.antt =====
-- The rows that a search of app/search/engine.py reads, and the results made of them.
use knowledgebase.Prelude.{
  ◌≡◌, ◌⊎◌, inl, inr, refl, sym, subst, Bool, true, false, none, some, List, [], ◌∷◌, map, arith,
  ==_iff, ◌==◌, All, All-append, All-mono, All_intro, All-select_with, In, Bool-cases, Option-cases,
}
use knowledgebase.Prelude.Table.{select, select-In}
use knowledgebase.Models.{Uuid, Document, Chunk, Db}
use knowledgebase.Search.Engine.{SearchResultItem, Row, join, item, chunk_of, or_else}

-- The row is a chunk of the tenant with the document that it belongs to.
abbrev pub IsOwn : Uuid → Db → Row → Type 0
IsOwn tenant_id db (c, d) =
    In c db.chunks × (In d db.documents) × (d.id ≡ c.document_id) × (c.tenant_id ≡ tenant_id)

-- The result shows a chunk of the tenant, with its id, its document and, unless the document is a table, its text.
abbrev pub IsShown : {S : Type 0} → Uuid → Db → SearchResultItem S → Type 0
IsShown tenant_id db r =
    (row : Row) × IsOwn tenant_id db row
    × (r.chunk_id ≡ row.0.id)
    × (r.document_id ≡ row.1.id)
    × ((r.text ≡ row.0.chunk_text) ⊎ (row.1.is_tabular ≡ true))
    × ((r.table_schema ≡ none) ⊎ (row.1.is_tabular ≡ true))

module _ (P : Row → Type 0) where
  All-pair :
      (c : Chunk) (ds : List Document) → All (λ d. P (c, d)) ds → All P (map (λ d. (c, d)) ds)
  All-pair c [] h = tt
  All-pair c (d ∷ ds) h = (h.0, All-pair c ds h.1)

module _ (db : Db) where
  -- A row of the join has a chunk and the document of the chunk.
  abbrev Joined : Row → Type 0
  Joined (c, d) = In c db.chunks × (In d db.documents) × (d.id ≡ c.document_id)

  pub join_lem :
      (cs : List Chunk)
      → ((c : Chunk) → In c cs → In c db.chunks)
      → All Joined (join cs db.documents)
  unfolding join
  join_lem [] sub = tt
  join_lem (c ∷ cs) sub =
      All-append Joined _ _
        (All-pair Joined c _ (
          All_intro (λ d. Joined (c, d)) (select (λ d. d.id == c.document_id) db.documents)
            (λ d m.
              let (there, same) = select-In (λ e. e.id == c.document_id) db.documents d m in
              (sub c (inl refl), there, ground (arith, ==_iff d.id c.document_id)))))
        (join_lem cs (λ x m. sub x (inr m)))

module _ (tenant_id : Uuid) (db : Db) where
  -- A selection from the join that asks for the tenant.
  pub selected :
      (p : Row → Bool)
      → ((row : Row) → p row ≡ true → (row.0.tenant_id == tenant_id) ≡ true)
      → All (IsOwn tenant_id db) (select p (join db.chunks db.documents))
  selected p asks = All-select_with (IsOwn tenant_id db) p (join db.chunks db.documents) (
      All-mono (Joined db) (λ row. p row ≡ true → IsOwn tenant_id db row) _
        (λ row h e. (h.0, h.1, h.2, ground (arith, ==_iff row.0.tenant_id tenant_id, asks row e)))
        (join_lem db db.chunks (λ c m. m)))

module _ {S : Type 0} (tenant_id : Uuid) (db : Db) where
  pub item-IsShown :
      (row : Row) (score : S) → IsOwn tenant_id db row → IsShown tenant_id db (item row score)
  item-IsShown row score h = (row, h, refl, sym h.2, inl refl, schema row.1.is_tabular refl)
    where
      schema :
          (b : Bool)
          → row.1.is_tabular ≡ b
          → ((item row score).table_schema ≡ none) ⊎ (row.1.is_tabular ≡ true)
      schema true e = inr e
      schema false e = inl (rw e refl)

module _ (tenant_id : Uuid) (db : Db) where
  pub chunk_of-IsOwn :
      (id : Uuid) (rows : List Row) (row : Row)
      → All (IsOwn tenant_id db) rows
      → chunk_of id rows ≡ some row
      → IsOwn tenant_id db row
  unfolding chunk_of
  chunk_of-IsOwn id [] row h e = absurd (cc)
  chunk_of-IsOwn id (x ∷ rows) row h e = elim (Option-cases (chunk_of id rows)) [
    | inl f ↦ elim (Bool-cases (x.0.id == id)) [
      | inl b ↦
          let g = rw (f, b) at e in
          let same : x ≡ row = ground arith in subst (IsOwn tenant_id db) same h.0
      | inr b ↦ absurd (let g = rw (f, b) at e in cc)
    ]
    | inr (y, f) ↦
        let g = rw f at e in
        let same : y ≡ row = ground arith in
        subst (IsOwn tenant_id db) same (chunk_of-IsOwn id rows y h.1 f)
  ]

module _ {A : Type 0} (P : A → Type 0) where
  pub All-or_else : (xs next : List A) → All P xs → All P next → All P (or_else xs next)
  All-or_else [] next h k = k
  All-or_else (x ∷ xs) next h k = h
