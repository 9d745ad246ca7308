-- ===== src/Embedding/Examples.antt =====
-- Texts in batches of two, each with its length for a vector.
use knowledgebase.Prelude.{ℕ, ◌≡◌, refl, true, none, List, [], ◌∷◌, map, length, arith}
use knowledgebase.Prelude.Text.{Text, codes, same_text}
use knowledgebase.Prelude.Attempt.{got}
use knowledgebase.Embedding.{Embedder, embed_batch, embed_single}
use knowledgebase.Embedding.Batches.{embed_batch_lem}

abbrev lengths : Embedder ℕ
lengths = record {
  is_frozen = true;
  embed_backend = codes "ollama";
  embed_batch_size = 2;
  embed_ollama = λ texts. got (map (λ t. length t) texts);
  st_encode = none;
}

abbrev texts : List Text
texts = codes "a" ∷ codes "two" ∷ [] ∷ []

embed_batch_lem_example :
    (embed_batch lengths texts ≡ got (1 ∷ 3 ∷ 0 ∷ []))
    × (embed_single lengths (codes "one") ≡ got 3)
unfolding same_text
embed_batch_lem_example =
    embed_batch_lem lengths (λ t. length t) texts (codes "one") refl (omega arith)
      (λ batch short. refl)
