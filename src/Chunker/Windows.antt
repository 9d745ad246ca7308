-- ===== src/Chunker/Windows.antt =====
-- The chunks of `_sliding_window`, and that its loop ends.
use knowledgebase.Prelude.{
  ℕ, zero, suc, ◌+◌, ◌-◌, ◌≤◌, ◌<◌, min, ◌≡◌, ◌≢◌, ◌⊎◌, sym, subst, ◌∙◌, refl, Option, List, [],
  ◌∷◌, arith, length, length-take, length-drop, drop, All, Bool-cases, inl, inr, ltb,
}
use knowledgebase.Prelude.Text.{Text}
use knowledgebase.Models.{Digest}
use knowledgebase.Chunker.{
  Chunk, Result, ok, err, out_of_fuel, ◌>>=◌, slice, chunk_stride, min_chunk_tokens, chunk_at,
  window_loop, sliding_window,
}

-- A kept chunk: its range is that of its text, and its window has an admissible length.
pub record IsWhole (size : ℕ) (c : Chunk) : Type 0 where
  pub range : c.start_char + length c.text ≡ c.end_char
  pub long_enough : min_chunk_tokens size ≤ c.token_count
  pub fits : c.token_count ≤ size

-- The chunks are numbered one after the other from `n` on.
abbrev pub Numbered : ℕ → List Chunk → Type 0
Numbered n [] = Unit
Numbered n (c ∷ cs) = (c.chunk_index ≡ n) × Numbered (n + 1) cs

-- A chunk in front of the chunks of the later rounds.
abbrev pub chain : Result Chunk → Result (List Chunk) → Result (List Chunk)
chain m later = m >>= λ c. later >>= λ cs. ok (c ∷ cs)

pub chain-ok :
    (m : Result Chunk) (later : Result (List Chunk)) {all : List Chunk}
    → chain m later ≡ ok all
    → (c : Chunk) × (cs : List Chunk) × (m ≡ ok c) × (later ≡ ok cs) × (all ≡ c ∷ cs)
chain-ok (ok c) (ok cs) h = (c, cs, refl, refl, ground arith)
chain-ok (ok c) (err e) h = absurd (cc)
chain-ok (err e) later h = absurd (cc)

ok_ends : (cs : List Chunk) → ok cs ≢ err out_of_fuel
ok_ends cs e = cc

pub ok_injective : {a b : List Chunk} → ok a ≡ ok b → a ≡ b
ok_injective e = ground arith

pub >>=-eq-ok :
    {A : Type 0} (m : Result A) (f : A → Result (List Chunk)) {all : List Chunk}
    → (m >>= f) ≡ ok all
    → (cs : A) × (m ≡ ok cs) × (f cs ≡ ok all)
>>=-eq-ok (ok cs) f h = (cs, refl, h)
>>=-eq-ok (err e) f h = absurd (cc)

chain_ends :
    (m : Result Chunk) (later : Result (List Chunk))
    → m ≢ err out_of_fuel
    → later ≢ err out_of_fuel
    → chain m later ≢ err out_of_fuel
chain_ends (ok c) (ok cs) h k e = cc
chain_ends (ok c) (err x) h k e = k (ground arith)
chain_ends (err x) later h k e = h (ground arith)

module _ (sha256 : Text → Digest) (size : ℕ) (text : Text) (token_ids : List ℕ)
    (offsets : List (ℕ × ℕ)) (page_number : Option ℕ) where
  abbrev pub loop : ℕ → ℕ → ℕ → Result (List Chunk)
  loop = window_loop sha256 size text token_ids offsets page_number

  abbrev pub body : ℕ → ℕ → Result Chunk
  body = chunk_at sha256 size text token_ids offsets page_number

  abbrev pub window : ℕ → ℕ
  window i = length (slice i (min (i + size) (length token_ids)) token_ids)

  pub window-length : (i : ℕ) → window i ≡ min (i + size) (length token_ids) - i
  window-length i = omega (
    arith,
    length-take (min (i + size) (length token_ids) - i) (drop i token_ids),
    length-drop i token_ids,
  )

  body-IsWhole :
      (i n : ℕ) {c : Chunk}
      → body i n ≡ ok c
      → (c.start_char + length c.text ≡ c.end_char)
        × (c.token_count ≡ window i)
        × (c.chunk_index ≡ n)
  unfolding chunk_at
  body-IsWhole i n h = ground arith

  body_ends : (i n : ℕ) → body i n ≢ err out_of_fuel
  unfolding chunk_at
  body_ends i n h = ground arith

  -- One round of the loop: it stops, or it makes a chunk and goes on.
  pub round :
      (fuel i n : ℕ)
      → (loop (suc fuel) i n ≡ ok [])
          × ((length token_ids ≤ i) ⊎ (window i < min_chunk_tokens size))
        ⊎ (i < length token_ids)
          × (min_chunk_tokens size ≤ window i)
          × (loop (suc fuel) i n ≡ chain (body i n) (loop fuel (i + chunk_stride size) (n + 1)))
  unfolding window_loop
  round fuel i n = elim (Bool-cases (ltb i (length token_ids))) [
    | inl e ↦ elim (Bool-cases (ltb (window i) (min_chunk_tokens size))) [
      | inl f ↦ inl (rw (e, f, window_loop) refl, inr (ground arith))
      | inr f ↦ inr (ground arith, ground arith, rw (e, f, window_loop) refl)
    ]
    | inr e ↦ inl (rw (e, window_loop) refl, inl (ground arith))
  ]

  window-le : (i : ℕ) → window i ≤ size
  window-le i = omega (arith, window-length i)

  pub stride_pos : (i : ℕ) → min_chunk_tokens size ≤ window i → 0 < chunk_stride size
  unfolding min_chunk_tokens chunk_stride
  stride_pos i h = omega (arith, window-le i)

  -- The loop never runs out of fuel when it has a round for each token that is left, and one.
  loop_ends : (fuel i n : ℕ) → length token_ids - i < fuel → loop fuel i n ≢ err out_of_fuel
  loop_ends zero i n k h = omega arith
  loop_ends (suc fuel) i n k h = elim (round fuel i n) [
    | inl (stop, _) ↦ absurd (ok_ends [] (sym stop ∙ h))
    | inr (left, long, go) ↦
        chain_ends (body i n) (loop fuel (i + chunk_stride size) (n + 1)) (body_ends i n)
          (loop_ends fuel (i + chunk_stride size) (n + 1) (omega (arith, stride_pos i long)))
          (sym go ∙ h)
  ]

  loop-IsWhole :
      (fuel i n : ℕ) {cs : List Chunk}
      → loop fuel i n ≡ ok cs
      → All (IsWhole size) cs × Numbered n cs
  unfolding window_loop
  loop-IsWhole zero i n h = absurd (cc)
  loop-IsWhole (suc fuel) i n {cs = cs} h = elim (round fuel i n) [
    | inl (stop, _) ↦
        subst (λ (x : List Chunk). All (IsWhole size) x × Numbered n x)
          (ok_injective (sym stop ∙ h)) (tt, tt)
    | inr (left, long, go) ↦
        let (c, rest, made, later, e) =
          chain-ok (body i n) (loop fuel (i + chunk_stride size) (n + 1)) (sym go ∙ h) in
        let facts = body-IsWhole i n made in
        let more = loop-IsWhole fuel (i + chunk_stride size) (n + 1) later in
        rw e (
          (
            (record {
              range = facts.0;
              long_enough = omega arith;
              fits = omega (arith, window-le i);
            }),
            more.0,
          ),
          (facts.2, more.1),
        )
  ]

  -- Every chunk of a text has the character range of its text and between the least and the
  -- greatest number of tokens, and the chunks are numbered from the given start on.
  pub sliding_window-IsWhole :
      (n : ℕ) {cs : List Chunk}
      → sliding_window sha256 size text token_ids offsets page_number n ≡ ok cs
      → All (IsWhole size) cs × Numbered n cs
  unfolding sliding_window
  sliding_window-IsWhole n h = loop-IsWhole (suc (length token_ids)) 0 n h

  -- Whatever the setting of the chunk size, the loop ends: a size at which the stride would be 0
  -- or negative keeps no window.
  pub sliding_window_ends :
      (n : ℕ) → sliding_window sha256 size text token_ids offsets page_number n ≢ err out_of_fuel
  unfolding sliding_window
  sliding_window_ends n = loop_ends (suc (length token_ids)) 0 n (omega arith)
