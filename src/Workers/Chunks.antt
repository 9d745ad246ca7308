-- ===== src/Workers/Chunks.antt =====
-- The chunk rows that app/workers/ingest_worker.py stores.
use knowledgebase.Prelude.{
  ◌≡◌, inl, inr, refl, sym, ap, ◌∙◌, subst, Bool, true, false, List, [], ◌∷◌, ◌++◌, arith, ==_refl,
  Bool-cases, All, All-mono, In,
}
use knowledgebase.Prelude.Table.{exists, exists-append}
use knowledgebase.Models.{Uuid, Time, Chunk, Document}
use knowledgebase.Pipeline.{System}
use knowledgebase.Workers.{Task}
use knowledgebase.Workers.Ingest.{IngestServices, same_chunk, insert_chunks, store_chunks}

same_chunk_refl : (c : Chunk) → same_chunk c c ≡ true
same_chunk_refl c = ground (arith, ==_refl c.document_id, ==_refl c.chunk_index)

exists_more :
    (q : Chunk → Bool) (rows more : List Chunk)
    → exists q rows ≡ true
    → exists q (rows ++ more) ≡ true
unfolding exists
exists_more q [] more h = absurd (cc)
exists_more q (r ∷ rows) more h = elim (Bool-cases (q r)) [
  | inl e ↦ rw e refl
  | inr e ↦ rw e (exists_more q rows more (rw e at h))
]

++-assoc : (xs ys zs : List Chunk) → (xs ++ ys) ++ zs ≡ xs ++ (ys ++ zs)
++-assoc [] ys zs = refl
++-assoc (x ∷ xs) ys zs = ap (λ r. x ∷ r) (++-assoc xs ys zs)

++-nil : (xs : List Chunk) → xs ++ [] ≡ xs
++-nil [] = refl
++-nil (x ∷ xs) = ap (λ r. x ∷ r) (++-nil xs)

-- The rows that are there stay in front.
insert_chunks-prefix :
    (cs rows : List Chunk) → (new : List Chunk) × (insert_chunks cs rows ≡ rows ++ new)
unfolding insert_chunks
insert_chunks-prefix [] rows = ([], sym (++-nil rows))
insert_chunks-prefix (c ∷ cs) rows = elim (Bool-cases (exists (same_chunk c) rows)) [
  | inl e ↦ rw e (insert_chunks-prefix cs rows)
  | inr e ↦
      let (new, eq) = insert_chunks-prefix cs (rows ++ c ∷ []) in
      rw e (c ∷ new, eq ∙ ++-assoc rows (c ∷ []) new)
]

exists_inserted :
    (q : Chunk → Bool) (cs rows : List Chunk)
    → exists q rows ≡ true
    → exists q (insert_chunks cs rows) ≡ true
exists_inserted q cs rows h =
    let (new, eq) = insert_chunks-prefix cs rows in rw eq (exists_more q rows new h)

insert_known :
    (c : Chunk) (cs rows : List Chunk)
    → exists (same_chunk c) rows ≡ true
    → insert_chunks (c ∷ cs) rows ≡ insert_chunks cs rows
unfolding insert_chunks
insert_known c cs rows e = rw e refl

insert_new :
    (c : Chunk) (cs rows : List Chunk)
    → exists (same_chunk c) rows ≡ false
    → insert_chunks (c ∷ cs) rows ≡ insert_chunks cs (rows ++ c ∷ [])
unfolding insert_chunks
insert_new c cs rows e = rw e refl

abbrev Covers : List Chunk → List Chunk → Type 0
Covers cs rows = All (λ c. exists (same_chunk c) rows ≡ true) cs

inserted : (cs rows : List Chunk) → Covers cs (insert_chunks cs rows)
inserted [] rows = tt
inserted (c ∷ cs) rows = elim (Bool-cases (exists (same_chunk c) rows)) [
  | inl e ↦
      subst (Covers (c ∷ cs)) (sym (insert_known c cs rows e))
        (exists_inserted (same_chunk c) cs rows e, inserted cs rows)
  | inr e ↦ subst (Covers (c ∷ cs)) (sym (insert_new c cs rows e)) (
    exists_inserted (same_chunk c) cs (rows ++ c ∷ [])
        (exists-append (same_chunk c) rows c (same_chunk_refl c)),
    inserted cs (rows ++ c ∷ []),
  )
]

-- Storing chunks keeps every row that is there, in place and unchanged, and afterwards there is a row for
-- each chunk, with its document and its index.
pub store_chunks_complete :
    (services : IngestServices) (now : Time) (next_job : Uuid) (task : Task) (cs : List Chunk)
    (describe : Document → Document) (sys : System)
    → ((new : List Chunk) × ((store_chunks services now next_job task cs describe sys).db.chunks
          ≡ sys.db.chunks ++ new))
      × All
          (λ c.
            exists
              (same_chunk c)
              (store_chunks services now next_job task cs describe sys).db.chunks
            ≡ true)
          cs
unfolding store_chunks
store_chunks_complete services now next_job task cs describe sys =
    (insert_chunks-prefix cs sys.db.chunks, inserted cs sys.db.chunks)

stale :
    (cs rows : List Chunk)
    → All (λ c. exists (same_chunk c) rows ≡ true) cs
    → insert_chunks cs rows ≡ rows
unfolding insert_chunks
stale [] rows h = refl
stale (c ∷ cs) rows h = rw h.0 (stale cs rows h.1)

-- When a document is processed again, a chunk whose index has a row is dropped: if all have one, the
-- table of chunks does not change, whatever the new texts are.
pub store_chunks_stale :
    (services : IngestServices) (now : Time) (next_job : Uuid) (task : Task) (cs : List Chunk)
    (describe : Document → Document) (sys : System)
    → All (λ c. exists (same_chunk c) sys.db.chunks ≡ true) cs
    → (store_chunks services now next_job task cs describe sys).db.chunks ≡ sys.db.chunks
unfolding store_chunks
store_chunks_stale services now next_job task cs describe sys h = stale cs sys.db.chunks h

exists_before :
    (q : Chunk → Bool) (rows more : List Chunk)
    → exists q (rows ++ more) ≡ false
    → exists q rows ≡ false
exists_before q rows more h = elim (Bool-cases (exists q rows)) [
  | inl e ↦ absurd (let there = exists_more q rows more e in cc)
  | inr e ↦ e
]

-- One of the chunks, whose index has no row.
abbrev pub IsNew : List Chunk → List Chunk → Chunk → Type 0
IsNew cs rows c = In c cs × (exists (same_chunk c) rows ≡ false)

insert_none : (rows : List Chunk) → insert_chunks [] rows ≡ rows
unfolding insert_chunks
insert_none rows = refl

insert_chunks-IsNew :
    (cs rows : List Chunk)
    → (new : List Chunk) × (insert_chunks cs rows ≡ rows ++ new) × All (IsNew cs rows) new
insert_chunks-IsNew [] rows = ([], insert_none rows ∙ sym (++-nil rows), tt)
insert_chunks-IsNew (c ∷ cs) rows = elim (Bool-cases (exists (same_chunk c) rows)) [
  | inl e ↦
      let (new, eq, fresh) = insert_chunks-IsNew cs rows in
      (
        new,
        insert_known c cs rows e ∙ eq,
        All-mono (IsNew cs rows) (IsNew (c ∷ cs) rows) new (λ x h. (inr h.0, h.1)) fresh,
      )
  | inr e ↦
      let (new, eq, fresh) = insert_chunks-IsNew cs (rows ++ c ∷ []) in
      (
        c ∷ new,
        insert_new c cs rows e ∙ eq ∙ ++-assoc rows (c ∷ []) new,
        (
          (inl refl, e),
          All-mono (IsNew cs (rows ++ c ∷ [])) (IsNew (c ∷ cs) rows) new
              (λ x h. (inr h.0, exists_before (same_chunk x) rows (c ∷ []) h.1)) fresh,
        ),
      )
]

-- Storing chunks keeps every row that is there, in place and unchanged, and adds rows after them, each of which is one of the chunks, of an index
-- that had no row before; and afterwards there is a row for each chunk, with its document and its index. So a chunk whose
-- index had a row is dropped, whatever its new text is.
pub store_chunks_lem :
    (services : IngestServices) (now : Time) (next_job : Uuid) (task : Task) (cs : List Chunk)
    (describe : Document → Document) (sys : System)
    → ((new : List Chunk) × ((store_chunks services now next_job task cs describe sys).db.chunks
          ≡ sys.db.chunks ++ new)
        × All (IsNew cs sys.db.chunks) new)
      × All
          (λ c.
            exists
              (same_chunk c)
              (store_chunks services now next_job task cs describe sys).db.chunks
            ≡ true)
          cs
unfolding store_chunks
store_chunks_lem services now next_job task cs describe sys =
    (insert_chunks-IsNew cs sys.db.chunks, inserted cs sys.db.chunks)
