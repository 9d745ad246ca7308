-- ===== src/Embedding.antt =====
-- app/embedding/embedder.py: texts are embedded in batches by the backend that the registry names. The two backends are
-- functions in `Embedder`; `st_encode` is none while the model is not loaded.
pub mod Batches
mod Examples
use knowledgebase.Prelude.{
  ℕ, zero, suc, Bool, true, false, Option, none, some, List, [], ◌∷◌, ◌++◌, length, take, drop,
  if◌then◌else◌,
}
use knowledgebase.Prelude.Text.{Text, codes, same_text}
use knowledgebase.Prelude.Attempt.{Fetched, got, raised, and_then}

pub record Embedder (V : Type 0) : Type 0 where
  pub is_frozen : Bool
  pub embed_backend : Text
  pub embed_batch_size : ℕ
  pub embed_ollama : List Text → Fetched (List V)
  pub st_encode : Option (List Text → Fetched (List V))

module _ {V : Type 0} (embedder : Embedder V) where
  unfoldable pub embed_st : List Text → Fetched (List V)
  embed_st texts = elim embedder.st_encode [
    | none ↦ raised (codes "SentenceTransformers model not loaded")
    | some encode ↦ encode texts
  ]

  abbrev pub embed_one_batch : List Text → Fetched (List V)
  embed_one_batch batch =
      if same_text embedder.embed_backend (codes "ollama")
      then embedder.embed_ollama batch
      else embed_st batch

  -- The loop over the texts that are left; a pass takes at least one of them, so their number bounds the passes.
  unfoldable pub embed_rest : ℕ → List Text → Fetched (List V)
  unfolding embed_st same_text
  embed_rest passes [] = got []
  embed_rest zero (t ∷ texts) = got []
  embed_rest (suc passes) (t ∷ texts) =
      let rest = embed_rest passes (drop embedder.embed_batch_size (t ∷ texts)) in
      and_then (embed_one_batch (take embedder.embed_batch_size (t ∷ texts)))
        (λ vectors. and_then rest (λ others. got (vectors ++ others)))

  abbrev pub in_batches : ℕ → List Text → Fetched (List V)
  in_batches zero texts = raised (codes "range() arg 3 must not be zero")
  in_batches (suc size) texts = embed_rest (length texts) texts

  abbrev or_empty : List Text → Fetched (List V) → Fetched (List V)
  or_empty [] batches = got []
  or_empty (t ∷ texts) batches = batches

  unfoldable pub embed_batch : List Text → Fetched (List V)
  unfolding embed_rest
  embed_batch texts =
      if embedder.is_frozen
      then or_empty texts (in_batches embedder.embed_batch_size texts)
      else raised (codes "AssertionError")

  abbrev first_vector : List V → Fetched V
  first_vector [] = raised (codes "list index out of range")
  first_vector (v ∷ vectors) = got v

  unfoldable pub embed_single : Text → Fetched V
  unfolding embed_batch
  embed_single text = and_then (embed_batch (text ∷ [])) first_vector
