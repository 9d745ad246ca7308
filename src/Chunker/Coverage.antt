-- ===== src/Chunker/Coverage.antt =====
-- Which tokens the windows of `_sliding_window` cover.
use knowledgebase.Prelude.{
  ℕ, zero, suc, ◌+◌, ◌-◌, ◌*◌, min, refl, subst, In, some, ◌∷◌, get_elem?, none, ◌==◌, ◌≤◌, ◌<◌,
  ◌≡◌, ◌≢◌, ◌⊎◌, leb, sym, ◌∙◌, Option, List, [], arith, length, Bool-cases, inl, inr, ltb,
}
use knowledgebase.Prelude.Text.{Text}
use knowledgebase.Models.{Digest}
use knowledgebase.Chunker.{
  Chunk, Result, slice, checked, ◌>>=◌, index_error, chunk_at, ok, err, out_of_fuel, chunk_overlap,
  chunk_stride, min_chunk_tokens, window_loop, sliding_window,
}
use knowledgebase.Chunker.Windows.{sliding_window_ends, chain-ok, round, window-length}

-- From this chunk size on, the overlap of two windows is at least the least window.
overlap_wide : (size : ℕ) → 64 ≤ size → min_chunk_tokens size ≤ chunk_overlap size
unfolding min_chunk_tokens chunk_overlap
overlap_wide size h = omega arith

stride-add-overlap : (size : ℕ) → 64 ≤ size → chunk_stride size + chunk_overlap size ≡ size
unfolding chunk_stride chunk_overlap
stride-add-overlap size h = omega arith

min-le : (size : ℕ) → 64 ≤ size → min_chunk_tokens size ≤ size
unfolding min_chunk_tokens
min-le size h = omega arith

module _ (sha256 : Text → Digest) (size : ℕ) (text : Text) (token_ids : List ℕ)
    (offsets : List (ℕ × ℕ)) (page_number : Option ℕ) where
  chunk_injective : {a b : Chunk} → ok a ≡ ok b → a ≡ b
  chunk_injective e = ground arith

  -- The chunk has the text from the first character of token `i` to the last of token `end - 1`, with this range and number of tokens.
  abbrev pub IsWindow : ℕ → ℕ → Chunk → Type 0
  IsWindow i end c =
      (first : ℕ × ℕ) × (last : ℕ × ℕ) × (get_elem? offsets i ≡ some first)
      × (get_elem? offsets (end - 1) ≡ some last)
      × (c.start_char ≡ first.0)
      × (c.end_char ≡ last.1)
      × (c.text ≡ slice first.0 last.1 text)
      × (c.token_count ≡ end - i)

  abbrev window_end : ℕ → ℕ
  window_end i = min (i + size) (length token_ids)

  -- The chunk has the text of a window of at most `size` tokens that begins at a multiple of the stride after `i`, and token `k` lies in this window.
  abbrev pub Holds : ℕ → ℕ → Chunk → Type 0
  Holds i k c =
      (j : ℕ) × (i + j * chunk_stride size ≤ k)
      × (k < window_end (i + j * chunk_stride size))
      × IsWindow (i + j * chunk_stride size) (window_end (i + j * chunk_stride size)) c

  -- One of the chunks has the text of a window in which token `k` lies.
  abbrev pub Covered : ℕ → List Chunk → ℕ → Type 0
  Covered i cs k = (c : Chunk) × In c cs × Holds i k c

  later_window :
      (i k : ℕ) (c : Chunk) (cs : List Chunk)
      → Covered (i + chunk_stride size) cs k
      → Covered i (c ∷ cs) k
  later_window i k c cs h =
      let (d, m, (j, from, to, shows)) = h in
      let same : i + chunk_stride size + j * chunk_stride size ≡ i + suc j * chunk_stride size =
        grind arith in
      (
        d,
        inr m,
        (
          suc j,
          subst (λ x. x ≤ k) same from,
          subst (λ x. k < window_end x) same to,
          subst (λ x. IsWindow x (window_end x) d) same shows,
        ),
      )

  checked-IsWindow :
      (i end n : ℕ) (first last : ℕ × ℕ) {c : Chunk}
      → get_elem? offsets i ≡ some first
      → get_elem? offsets (end - 1) ≡ some last
      → length (slice i end token_ids) ≡ end - i
      → checked sha256 size text token_ids offsets page_number i end n first.0 last.1
          (slice first.0 last.1 text)
        ≡ ok c
      → IsWindow i end c
  unfolding checked
  checked-IsWindow i end n first last e f many h =
      elim (Bool-cases (first.0 + length (slice first.0 last.1 text) == last.1)) [
        | inr b ↦ absurd (let g = rw b at h in cc)
        | inl b ↦
            let g = rw b at h in
            subst (IsWindow i end) (chunk_injective g) (first, last, e, f, refl, refl, refl, many)
      ]

  abbrev found : Option (ℕ × ℕ) → Result (ℕ × ℕ)
  found o = elim o [ none ↦ err index_error | some x ↦ ok x ]

  chunk_at-IsWindow :
      (i n : ℕ) {c : Chunk}
      → chunk_at sha256 size text token_ids offsets page_number i n ≡ ok c
      → IsWindow i (window_end i) c
  unfolding chunk_at
  chunk_at-IsWindow i n {c = c} h =
      from (get_elem? offsets i) (get_elem? offsets (window_end i - 1)) refl refl h
    where
      from :
          (o p : Option (ℕ × ℕ))
          → get_elem? offsets i ≡ o
          → get_elem? offsets (window_end i - 1) ≡ p
          → (found o >>= λ first. found p >>= λ last.
              checked sha256 size text token_ids offsets page_number i
                (window_end i)
                n
                first.0
                last.1
                (slice first.0 last.1 text))
            ≡ ok c
          → IsWindow i (window_end i) c
      from none p e f g = absurd (cc)
      from (some first) none e f g = absurd (cc)
      from (some first) (some last) e f g =
          checked-IsWindow i (window_end i) n first last e f
            (window-length sha256 size text token_ids offsets page_number i) g

  first_start : (i : ℕ) → i ≡ i + 0 * chunk_stride size
  first_start i = omega arith

  loop-Covered :
      (fuel i n k : ℕ) {cs : List Chunk}
      → 64 ≤ size
      → i + min_chunk_tokens size ≤ length token_ids
      → window_loop sha256 size text token_ids offsets page_number fuel i n ≡ ok cs
      → i ≤ k
      → k < length token_ids
      → Covered i cs k
  loop-Covered zero i n k big room h from to = absurd (unfold window_loop in cc)
  loop-Covered (suc fuel) i n k {cs = cs} big room h from to =
      elim (round sha256 size text token_ids offsets page_number fuel i n) [
        | inl (stop, why) ↦ absurd (
            omega (
              arith,
              why,
              window-length sha256 size text token_ids offsets page_number i,
              min-le size big,
              overlap_wide size big,
            ))
        | inr (left, long, go) ↦
            let (c, rest, made, later, e) =
              chain-ok _
                (window_loop sha256 size text token_ids offsets page_number fuel
                  (i + chunk_stride size) (n + 1))
                (sym go ∙ h) in
            rw e (elim (Bool-cases (ltb k (i + size))) [
              | inl near ↦ (
                c,
                inl refl,
                (
                  0,
                  omega arith,
                  ground arith,
                  subst (λ x. IsWindow x (window_end x) c) (first_start i)
                      (chunk_at-IsWindow i n made),
                ),
              )
              | inr far ↦
                  let beyond : i + size ≤ k = ground arith in
                  later_window i k c rest (
                    loop-Covered fuel (i + chunk_stride size) (n + 1) k big
                      (omega (arith, overlap_wide size big, stride-add-overlap size big)) later
                      (omega (arith, stride-add-overlap size big)) to)
            ])
      ]

  -- With a chunk size of 64 or more, if the chunks are made without an error, each token of a text that is long enough for one window lies
  -- in the window of one of the chunks: a window of at most that many tokens, which begins at a multiple of the stride, and whose text is the chunk's, from the first character
  -- of its first token to the last of its last. So no text is lost between windows or at the end.
  pub every_token-Covered :
      (n k : ℕ) {cs : List Chunk}
      → 64 ≤ size
      → min_chunk_tokens size ≤ length token_ids
      → sliding_window sha256 size text token_ids offsets page_number n ≡ ok cs
      → k < length token_ids
      → Covered 0 cs k
  unfolding sliding_window
  every_token-Covered n k big long h to =
      loop-Covered (suc (length token_ids)) 0 n k big (omega arith) h (omega arith) to

  -- A text of fewer tokens than the least window gives no chunk at all.
  pub short_text_dropped :
      (n : ℕ)
      → length token_ids < min_chunk_tokens size
      → sliding_window sha256 size text token_ids offsets page_number n ≡ ok []
  unfolding sliding_window
  short_text_dropped n short =
      elim (round sha256 size text token_ids offsets page_number (length token_ids) 0 n) [
        | inl (stop, _) ↦ stop
        | inr (left, long, go) ↦
            absurd (omega (arith, window-length sha256 size text token_ids offsets page_number 0))
      ]

module _ (sha256 : Text → Digest) (size : ℕ) (text : Text) (token_ids : List ℕ)
    (offsets : List (ℕ × ℕ)) (page_number : Option ℕ) where
  -- The chunking of a text ends for every setting of the chunk size, and a text of fewer tokens than the least window gives no chunk at all.
  pub sliding_window_lem :
      (n : ℕ)
      → (sliding_window sha256 size text token_ids offsets page_number n ≢ err out_of_fuel)
        × ((min_chunk_tokens size ≤ length token_ids)
            ⊎ (sliding_window sha256 size text token_ids offsets page_number n ≡ ok []))
  sliding_window_lem n = (
    sliding_window_ends sha256 size text token_ids offsets page_number n,
    elim (Bool-cases (leb (min_chunk_tokens size) (length token_ids))) [
      | inl e ↦ inl (ground arith)
      | inr e ↦
          inr (short_text_dropped sha256 size text token_ids offsets page_number n (ground arith))
    ],
  )
