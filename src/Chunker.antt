-- ===== src/Chunker.antt =====
-- app/ingestion/chunker.py: the sliding window over the tokens of a text, with the character range
-- of each window. The tokenizer (tiktoken) and sha256 are parameters, and so is the setting
-- EMBEDDING_MAX_TOKENS, which is `size`. A ValueError is the tokenizer's, for the text of a special token. Exceptions are the error values.
pub mod Offsets
pub mod Windows
pub mod Coverage
pub mod Pages
mod Examples
use knowledgebase.Prelude.{
  ℕ, zero, suc, ◌+◌, ◌-◌, ◌/◌, min, max, Bool, true, false, ◌&&◌, ◌||◌, Option, none, some, List,
  [], ◌∷◌, ◌++◌, length, get_elem?, take, drop, ltb, leb, ◌==◌, if◌then◌else◌,
}
use knowledgebase.Prelude.Text.{Text}
use knowledgebase.Models.{Digest}

unfoldable pub chunk_overlap : ℕ → ℕ
chunk_overlap size = max 8 (size / 4)

-- The difference is negative for a size below 8; it is used for sizes from 16 on only, where the
-- windows are long enough to be kept.
unfoldable pub chunk_stride : ℕ → ℕ
unfolding chunk_overlap
chunk_stride size = size - chunk_overlap size

unfoldable pub min_chunk_tokens : ℕ → ℕ
min_chunk_tokens size = max 16 (size / 6)

pub record Chunk : Type 0 where
  pub chunk_index : ℕ
  pub text : Text
  pub token_count : ℕ
  pub page_number : Option ℕ
  pub start_char : ℕ
  pub end_char : ℕ
  pub checksum : Digest

pub record Page : Type 0 where
  pub page_number : ℕ
  pub text : Text

pub record ParsedDocument : Type 0 where
  pub raw_text : Text
  pub pages : List Page
  pub parse_mode : Text
  pub char_count : ℕ
  pub checksum : Digest

-- `out_of_fuel` is an artefact of the model.
pub data Failure : Type 0 where
  integrity_error index_error value_error out_of_fuel : Failure

pub data Result {ℓ} (A : Type ℓ) : Type ℓ where
  ok : A → Result A
  err : Failure → Result A

infixl 5 ◌>>=◌
abbrev pub ◌>>=◌ {ℓ κ} : {A : Type ℓ} {B : Type κ} → Result A → (A → Result B) → Result B
ok a >>= f = f a
err e >>= f = err e

-- text[start:end]
abbrev pub slice {ℓ} : {A : Type ℓ} → ℕ → ℕ → List A → List A
slice start end xs = take (end - start) (drop start xs)

abbrev pub at {ℓ} : {A : Type ℓ} → List A → ℕ → Result A
at xs i = elim (get_elem? xs i) [ none ↦ err index_error | some x ↦ ok x ]

module _ (sha256 : Text → Digest) (size : ℕ) (text : Text) (token_ids : List ℕ)
    (offsets : List (ℕ × ℕ)) (page_number : Option ℕ) where
  -- The integrity check and the new chunk.
  unfoldable pub checked : (i end chunk_index start_char end_char : ℕ) → Text → Result Chunk
  checked i end chunk_index start_char end_char chunk_text =
      if start_char + length chunk_text == end_char
      then ok (record {
        chunk_index = chunk_index;
        text = chunk_text;
        token_count = length (slice i end token_ids);
        page_number = page_number;
        start_char = start_char;
        end_char = end_char;
        checksum = sha256 chunk_text;
      })
      else err integrity_error

  -- The body of the loop: the chunk of the window from token i.
  unfoldable pub chunk_at : ℕ → ℕ → Result Chunk
  unfolding checked
  chunk_at i chunk_index = do
    let end = min (i + size) (length token_ids)
    first ← at offsets i
    last ← at offsets (end - 1)
    checked i end chunk_index first.0 last.1 (slice first.0 last.1 text)

  -- `while i < n`, on fuel.
  unfoldable pub window_loop : ℕ → ℕ → ℕ → Result (List Chunk)
  window_loop zero i chunk_index = err out_of_fuel
  window_loop (suc fuel) i chunk_index = elim (ltb i (length token_ids)) [
    | false ↦ ok []
    | true ↦
        elim (ltb (length (slice i (min (i + size) (length token_ids)) token_ids))
          (min_chunk_tokens size)) [
            | true ↦ ok []
            | false ↦ do
              chunk ← chunk_at i chunk_index
              rest ← window_loop fuel (i + chunk_stride size) (chunk_index + 1)
              ok (chunk ∷ rest)
          ]
  ]

  -- One round for each token is enough.
  unfoldable pub sliding_window : ℕ → Result (List Chunk)
  unfolding window_loop
  sliding_window chunk_index_start = window_loop (suc (length token_ids)) 0 chunk_index_start
