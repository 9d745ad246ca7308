-- ===== src/Search/Rows.antt =====
-- The rows that app/search/engine.py joins, and how a result finds its row.
use knowledgebase.Prelude.{
  ℕ, ◌≡◌, ◌⊎◌, inl, inr, refl, ap, subst, true, some, List, ◌++◌, [], ◌∷◌, map, arith, ==_refl,
  ==_iff, ◌==◌, In, Bool-cases, Option-cases,
}
use knowledgebase.Prelude.Table.{select, In-select}
use knowledgebase.Prelude.Dict.{Dict}
use knowledgebase.Models.{Uuid, Document, Chunk}
use knowledgebase.Search.Engine.{Row, join, is_among, chunk_of}

In-append : (x : Row) (xs ys : List Row) → In x xs ⊎ In x ys → In x (xs ++ ys)
In-append x [] ys (inl m) = absurd m
In-append x [] ys (inr m) = m
In-append x (z ∷ xs) ys (inl (inl e)) = inl e
In-append x (z ∷ xs) ys (inl (inr m)) = inr (In-append x xs ys (inl m))
In-append x (z ∷ xs) ys (inr m) = inr (In-append x xs ys (inr m))

In-paired :
    (c : Chunk) (d : Document) (ds : List Document)
    → In d ds
    → In {A = Row} (c, d) (map (λ e. (c, e)) ds)
In-paired c d [] m = absurd m
In-paired c d (e ∷ ds) (inl q) = inl (ap (λ x. (c, x)) q)
In-paired c d (e ∷ ds) (inr m) = inr (In-paired c d ds m)

-- Each chunk is in the join with its document.
pub In-join :
    (c : Chunk) (d : Document) (cs : List Chunk) (ds : List Document)
    → In c cs
    → In d ds
    → d.id ≡ c.document_id
    → In {A = Row} (c, d) (join cs ds)
unfolding join
In-join c d [] ds m n e = absurd m
In-join c d (x ∷ cs) ds (inl q) n e =
    In-append (c, d) _ _
      (inl (
        subst
          (λ y. In {A = Row} (c, d) (map (λ e. (y, e)) (select (λ e. e.id == y.document_id) ds))) q
          (In-paired c d _ (
            In-select (λ e. e.id == c.document_id) ds d n
              (ground (arith, e, ==_refl c.document_id))))))
In-join c d (x ∷ cs) ds (inr m) n e = In-append (c, d) _ _ (inr (In-join c d cs ds m n e))

-- A chunk that is among the rows is found by its id.
pub chunk_of-In :
    (rows : List Row) (row : Row)
    → In row rows
    → (found : Row) × (chunk_of row.0.id rows ≡ some found) × (found.0.id ≡ row.0.id)
unfolding chunk_of
chunk_of-In [] row m = absurd m
chunk_of-In (x ∷ rows) row m = elim (Option-cases (chunk_of row.0.id rows)) [
  | inr (y, e) ↦ (y, rw e refl, chunk_of_id rows y e)
  | inl e ↦ elim m [
    | inl q ↦
        let same : (x.0.id == row.0.id) ≡ true = rw q (==_refl x.0.id) in
        (x, rw (e, same) refl, rw q refl)
    | inr n ↦ let (y, f, g) = chunk_of-In rows row n in absurd (cc)
  ]
]
  where
    chunk_of_id : (rows : List Row) (y : Row) → chunk_of row.0.id rows ≡ some y → y.0.id ≡ row.0.id
    chunk_of_id [] y e = absurd (cc)
    chunk_of_id (z ∷ rows) y e = elim (Option-cases (chunk_of row.0.id rows)) [
      | inr (w, f) ↦
          let g = rw f at e in
          let same : w ≡ y = ground arith in
          subst (λ v. v.0.id ≡ row.0.id) same (chunk_of_id rows w f)
      | inl f ↦ elim (Bool-cases (z.0.id == row.0.id)) [
        | inl b ↦
            let g = rw (f, b) at e in
            let same : z ≡ y = ground arith in
            subst (λ v. v.0.id ≡ row.0.id) same (ground (arith, ==_iff z.0.id row.0.id))
        | inr b ↦ absurd (let g = rw (f, b) at e in cc)
      ]
    ]

pub is_among-In :
    {S : Type 0} (ids : Dict S) (id : Uuid) (s : S)
    → In {A = ℕ × S} (id, s) ids
    → is_among ids id ≡ true
unfolding is_among
is_among-In [] id s m = absurd m
is_among-In ((k, t) ∷ ids) id s (inl q) =
    let same : id ≡ k = ap (λ e. e.0) q in rw (same, is_among, ==_refl k) refl
is_among-In ((k, t) ∷ ids) id s (inr m) =
    let rest = is_among-In ids id s m in
    elim (Bool-cases (k == id)) [ inl e ↦ rw (e, is_among) refl | inr e ↦ rw (e, is_among) rest ]
