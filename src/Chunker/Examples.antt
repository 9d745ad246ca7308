-- ===== src/Chunker/Examples.antt =====
-- A text of 70 one-letter tokens at chunk size 64, and the theorems at this input.
use knowledgebase.Prelude.{
  ℕ, ◌≤◌, ◌⊎◌, zero, suc, ◌-◌, ◌≡◌, ◌≢◌, refl, none, some, List, [], ◌∷◌, arith, length,
}
use knowledgebase.Prelude.Text.{Text}
use knowledgebase.Models.{Digest}
use knowledgebase.Chunker.{
  Chunk, ParsedDocument, Result, ok, err, out_of_fuel, min_chunk_tokens, chunk_stride,
  sliding_window, chunk_at,
}
use knowledgebase.Chunker.Offsets.{build_char_offsets}
use knowledgebase.Chunker.Coverage.{Covered, every_token-Covered, sliding_window_lem}
use knowledgebase.Chunker.Pages.{Good, chunk_flat, chunk_pages, chunk_document, chunk_document-Good}

letters : ℕ → Text
letters zero = []
letters (suc n) = b'a' ∷ letters n

-- A tokenizer that makes a token of each letter, and a stand-in for the digest.
abbrev encode : Text → Result (List ℕ)
encode s = ok s

abbrev token_bytes : ℕ → List ℕ
token_bytes t = t ∷ []

abbrev digest : Text → Digest
digest s = length s

abbrev windows : ℕ → Result (List Chunk)
windows n =
    sliding_window digest 64 (letters n) (letters n)
      (build_char_offsets token_bytes (letters n) (letters n)) none 0

abbrev chunk : ℕ → ℕ → ℕ → Chunk
chunk index start end = record {
  chunk_index = index;
  text = letters (end - start);
  token_count = end - start;
  page_number = none;
  start_char = start;
  end_char = end;
  checksum = end - start;
}

two_windows : windows 70 ≡ ok (chunk 0 0 64 ∷ chunk 1 48 70 ∷ [])
unfolding letters sliding_window build_char_offsets chunk_stride min_chunk_tokens chunk_at
two_windows = refl

every_token-Covered_example :
    Covered digest 64
      (letters 70)
      (letters 70)
      (build_char_offsets token_bytes (letters 70) (letters 70))
      none
      0
      (chunk 0 0 64 ∷ chunk 1 48 70 ∷ [])
      69
unfolding letters min_chunk_tokens
every_token-Covered_example =
    every_token-Covered digest 64 (letters 70) (letters 70)
      (build_char_offsets token_bytes (letters 70) (letters 70)) none 0 69 (omega arith)
      (omega arith) two_windows (omega arith)

abbrev paged : ParsedDocument
paged = record {
  raw_text = letters 20;
  pages =
      record { page_number = 1; text = letters 20 }
      ∷ record { page_number = 2; text = letters 18 }
      ∷ [];
  parse_mode = [];
  char_count = 20;
  checksum = 0;
}

abbrev on_page : ℕ → ℕ → ℕ → Chunk
on_page index page n = record (chunk index 0 n) { page_number = some page }

paged_chunks :
    chunk_document digest encode token_bytes 64 paged ≡ ok (on_page 0 1 20 ∷ on_page 1 2 18 ∷ [])
unfolding letters chunk_document chunk_pages chunk_flat chunk_stride min_chunk_tokens chunk_at
paged_chunks = refl

chunk_document-Good_example : Good 64 0 (on_page 0 1 20 ∷ on_page 1 2 18 ∷ [])
chunk_document-Good_example = chunk_document-Good digest encode token_bytes 64 paged paged_chunks

sliding_window_lem_example :
    (windows 15 ≢ err out_of_fuel)
    × ((min_chunk_tokens 64 ≤ length (letters 15)) ⊎ (windows 15 ≡ ok []))
unfolding min_chunk_tokens
sliding_window_lem_example =
    sliding_window_lem digest 64 (letters 15) (letters 15)
      (build_char_offsets token_bytes (letters 15) (letters 15)) none 0
