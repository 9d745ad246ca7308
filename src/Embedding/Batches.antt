-- ===== src/Embedding/Batches.antt =====
-- That batches make no difference to the vectors of app/embedding/embedder.py.
use knowledgebase.Prelude.{
  ℕ, zero, suc, ◌≤◌, ◌≡◌, refl, ap, ◌∙◌, true, List, [], ◌∷◌, ◌++◌, map, length, length-drop,
  length-take, take, drop, arith,
}
use knowledgebase.Prelude.Text.{Text}
use knowledgebase.Prelude.Attempt.{got}
use knowledgebase.Embedding.{
  Embedder, embed_one_batch, embed_rest, in_batches, embed_batch, embed_single,
}

module _ {A B : Type 0} (f : A → B) where
  map-take-drop : (n : ℕ) (xs : List A) → map f (take n xs) ++ map f (drop n xs) ≡ map f xs
  map-take-drop zero xs = refl
  map-take-drop (suc n) [] = refl
  map-take-drop (suc n) (x ∷ xs) = ap (λ ys. f x ∷ ys) (map-take-drop n xs)

module _ {V : Type 0} (embedder : Embedder V) (f : Text → V) where
  -- The backend gives each text of a batch that is not too long its own vector.
  abbrev pub IsPointwise : Type 0
  IsPointwise =
      (batch : List Text)
      → length batch ≤ embedder.embed_batch_size
      → embed_one_batch embedder batch ≡ got (map f batch)

  embed_rest_lem :
      (passes : ℕ) (texts : List Text)
      → IsPointwise
      → 1 ≤ embedder.embed_batch_size
      → length texts ≤ passes
      → embed_rest embedder passes texts ≡ got (map f texts)
  unfolding embed_rest
  embed_rest_lem passes [] h pos enough = refl
  embed_rest_lem zero (t ∷ texts) h pos enough = absurd (omega arith)
  embed_rest_lem (suc passes) (t ∷ texts) h pos enough =
      let size = embedder.embed_batch_size in
      let short : length (drop size (t ∷ texts)) ≤ passes =
        omega (arith, length-drop size (t ∷ texts)) in
      let rest = embed_rest_lem passes (drop size (t ∷ texts)) h pos short in
      let batch = h (take size (t ∷ texts)) (omega (arith, length-take size (t ∷ texts))) in
      rw (batch, rest) (ap got (map-take-drop f size (t ∷ texts)))

  -- Once the registry is frozen, and if the size of a batch is not 0 and the backend gives each text of a batch that is not too long its own vector, every list of texts is embedded, however
  -- long it is, as if each text were embedded alone: the vectors are those of the texts, in order.
  pub embed_batch_lem :
      (texts : List Text) (text : Text)
      → embedder.is_frozen ≡ true
      → 1 ≤ embedder.embed_batch_size
      → IsPointwise
      → (embed_batch embedder texts ≡ got (map f texts))
        × (embed_single embedder text ≡ got (f text))
  unfolding embed_batch embed_single
  embed_batch_lem texts text frozen pos h = (all texts, rw (all (text ∷ [])) refl)
    where
      sized :
          (n : ℕ) (texts : List Text)
          → 1 ≤ n
          → in_batches embedder n texts ≡ embed_rest embedder (length texts) texts
      sized zero texts p = absurd (omega arith)
      sized (suc n) texts p = refl

      all : (texts : List Text) → embed_batch embedder texts ≡ got (map f texts)
      all [] = rw frozen refl
      all (t ∷ texts) = rw frozen (
          sized embedder.embed_batch_size (t ∷ texts) pos
          ∙ embed_rest_lem (suc (length texts)) (t ∷ texts) h pos (omega arith))
