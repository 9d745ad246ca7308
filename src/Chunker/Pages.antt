-- ===== src/Chunker/Pages.antt =====
-- `chunk_document`, `_chunk_flat` and `_chunk_with_pages` of app/ingestion/chunker.py.
use knowledgebase.Prelude.{
  ℕ, suc, ◌+◌, ◌≡◌, refl, ap, Bool, true, ◌&&◌, Option, none, some, List, [], ◌∷◌, ◌++◌, arith,
  length, All, All-append, Bool-cases, inl, inr, subst, if◌then◌else◌,
}
use knowledgebase.Prelude.Text.{Text, is_space}
use knowledgebase.Models.{Digest}
use knowledgebase.Chunker.{Chunk, Page, ParsedDocument, Result, ok, ◌>>=◌, sliding_window}
use knowledgebase.Chunker.Offsets.{build_char_offsets}
use knowledgebase.Chunker.Windows.{
  IsWhole, Numbered, ok_injective, >>=-eq-ok, sliding_window-IsWhole,
}

-- `not text.strip()`
unfoldable pub is_blank : Text → Bool
unfolding is_space
is_blank [] = true
is_blank (c ∷ s) = is_space c && is_blank s

abbrev reindex : ℕ → Chunk → Chunk
reindex n c = record c { chunk_index = n }

-- The inner loop over the chunks of one page.
unfoldable pub reindex_all : ℕ → List Chunk → List Chunk
reindex_all n [] = []
reindex_all n (c ∷ cs) = reindex n c ∷ reindex_all (n + 1) cs

module _ (sha256 : Text → Digest) (encode : Text → Result (List ℕ)) (token_bytes : ℕ → List ℕ)
    (size : ℕ) where
  unfoldable pub chunk_flat : Text → Option ℕ → Result (List Chunk)
  unfolding sliding_window build_char_offsets
  chunk_flat text page_number = do
    token_ids ← encode text
    sliding_window sha256 size text token_ids (build_char_offsets token_bytes text token_ids)
        page_number 0

  unfoldable pub chunk_pages : ℕ → List Page → Result (List Chunk)
  unfolding reindex_all
  chunk_pages chunk_index [] = ok []
  chunk_pages chunk_index (page ∷ pages) = do
    page_chunks ← chunk_flat page.text (some page.page_number)
    rest ← chunk_pages (chunk_index + length page_chunks) pages
    ok (reindex_all chunk_index page_chunks ++ rest)

  unfoldable pub chunk_document : ParsedDocument → Result (List Chunk)
  unfolding is_blank
  chunk_document doc = if is_blank doc.raw_text then ok [] else elim doc.pages [
    | [] ↦ chunk_flat doc.raw_text none
    | ◌∷◌ page pages ↦ chunk_pages 0 (page ∷ pages)
  ]

reindex_all-Numbered : (n : ℕ) (cs : List Chunk) → Numbered n (reindex_all n cs)
unfolding reindex_all
reindex_all-Numbered n [] = tt
reindex_all-Numbered n (c ∷ cs) = (refl, reindex_all-Numbered (n + 1) cs)

reindex_all-IsWhole :
    (size n : ℕ) (cs : List Chunk) → All (IsWhole size) cs → All (IsWhole size) (reindex_all n cs)
unfolding reindex_all
reindex_all-IsWhole size n [] h = tt
reindex_all-IsWhole size n (c ∷ cs) h = (
  record { range = h.0.range; long_enough = h.0.long_enough; fits = h.0.fits },
  reindex_all-IsWhole size (n + 1) cs h.1,
)

length-reindex_all : (n : ℕ) (cs : List Chunk) → length (reindex_all n cs) ≡ length cs
unfolding reindex_all
length-reindex_all n [] = refl
length-reindex_all n (c ∷ cs) = ap suc (length-reindex_all (n + 1) cs)

Numbered-append :
    (n : ℕ) (xs ys : List Chunk)
    → Numbered n xs
    → Numbered (n + length xs) ys
    → Numbered n (xs ++ ys)
Numbered-append n [] ys h k = subst (λ m. Numbered m ys) (omega arith) k
Numbered-append n (x ∷ xs) ys h k =
    (h.0, Numbered-append (n + 1) xs ys h.1 (subst (λ m. Numbered m ys) (omega arith) k))

-- The results of the chunker: whole chunks, numbered from `n` on.
abbrev pub Good : ℕ → ℕ → List Chunk → Type 0
Good size n cs = All (IsWhole size) cs × Numbered n cs

module _ (sha256 : Text → Digest) (encode : Text → Result (List ℕ)) (token_bytes : ℕ → List ℕ)
    (size : ℕ) where
  flat-Good :
      (text : Text) (page : Option ℕ) {cs : List Chunk}
      → chunk_flat sha256 encode token_bytes size text page ≡ ok cs
      → Good size 0 cs
  unfolding chunk_flat
  flat-Good text page h =
      let (token_ids, e, h') = >>=-eq-ok (encode text) _ h in
      sliding_window-IsWhole sha256 size text token_ids _ page 0 h'

  pages-Good :
      (n : ℕ) (pages : List Page) {cs : List Chunk}
      → chunk_pages sha256 encode token_bytes size n pages ≡ ok cs
      → Good size n cs
  unfolding chunk_pages
  pages-Good n [] {cs = cs} h = subst (Good size n) (ok_injective h) (tt, tt)
  pages-Good n (page ∷ pages) {cs = cs} h =
      let (first, e, h') =
        >>=-eq-ok (chunk_flat sha256 encode token_bytes size page.text (some page.page_number)) _
          h in
      let (rest, e', h'') =
        >>=-eq-ok (chunk_pages sha256 encode token_bytes size (n + length first) pages) _ h' in
      let whole = flat-Good page.text (some page.page_number) e in
      let later = pages-Good (n + length first) pages e' in
      subst (Good size n) (ok_injective h'') (
        All-append (IsWhole size) _ rest (reindex_all-IsWhole size n first whole.0) later.0,
        Numbered-append n (reindex_all n first) rest (reindex_all-Numbered n first)
            (rw (length-reindex_all n first) later.1),
      )

  -- Every chunk of a document, with pages or without, has the character range of its text and an
  -- admissible number of tokens, and the chunks of all pages are numbered 0, 1, 2, … .
  pub chunk_document-Good :
      (doc : ParsedDocument) {cs : List Chunk}
      → chunk_document sha256 encode token_bytes size doc ≡ ok cs
      → Good size 0 cs
  unfolding chunk_document
  chunk_document-Good doc {cs = cs} h = elim (Bool-cases (is_blank doc.raw_text)) [
    | inl e ↦ subst (Good size 0) (ok_injective (rw e at h)) (tt, tt)
    | inr e ↦ by_pages doc.pages (rw e at h)
  ]
    where
      by_pages :
          (pages : List Page)
          → elim pages as (λ _. Result (List Chunk)) [
            | [] ↦ chunk_flat sha256 encode token_bytes size doc.raw_text none
            | ◌∷◌ page rest ↦ chunk_pages sha256 encode token_bytes size 0 (page ∷ rest)
          ]
            ≡ ok cs
          → Good size 0 cs
      by_pages [] k = flat-Good doc.raw_text none k
      by_pages (page ∷ rest) k = pages-Good 0 (page ∷ rest) k
