-- ===== src/Chunker/Offsets.antt =====
-- `_build_char_offsets` of app/ingestion/chunker.py. The table from byte positions to character
-- positions is a function; the writes of the source stay within its length.
use knowledgebase.Prelude.{
  ℕ, zero, suc, ◌+◌, ◌/◌, ◌%◌, ◌≡◌, min, refl, ap, Bool, true, false, ◌&&◌, none, some, List, [],
  ◌∷◌, ◌++◌, length, get_elem?, ltb, leb, ◌==◌, if◌then◌else◌,
}
use knowledgebase.Prelude.Text.{Text}

-- str.encode("utf-8")
abbrev encode_char : ℕ → List ℕ
encode_char c =
    if ltb c 0x80
    then c ∷ []
    else if ltb c 0x800
    then (0xC0 + c / 64) ∷ (0x80 + c % 64) ∷ []
    else if ltb c 0x10000
    then (0xE0 + c / 4096) ∷ (0x80 + c / 64 % 64) ∷ (0x80 + c % 64) ∷ []
    else (0xF0 + c / 262144) ∷ (0x80 + c / 4096 % 64) ∷ (0x80 + c / 64 % 64) ∷ (0x80 + c % 64) ∷ []

unfoldable pub utf8 : Text → List ℕ
utf8 [] = []
utf8 (c ∷ s) = encode_char c ++ utf8 s

abbrev byte_at : List ℕ → ℕ → ℕ
byte_at bytes b = elim (get_elem? bytes b) [ none ↦ 0 | some x ↦ x ]

unfoldable pub seq_len : ℕ → ℕ
seq_len bval =
    if ltb bval 0x80 then 1 else if ltb bval 0xE0 then 2 else if ltb bval 0xF0 then 3 else 4

abbrev pub CharTable : Type 0
CharTable = ℕ → ℕ

-- `for k in range(seq_len): if b + k < n_bytes: byte_to_char[b + k] = char_idx`
unfoldable pub mark : ℕ → ℕ → ℕ → ℕ → CharTable → CharTable
mark n_bytes b len char_idx table p =
    if leb b p && ltb p (b + len) && ltb p n_bytes then char_idx else table p

-- `while b < n_bytes`, on fuel; every round goes on by a byte at least.
unfoldable pub mark_all : ℕ → List ℕ → ℕ → ℕ → CharTable → CharTable
mark_all zero bytes b char_idx table = table
mark_all (suc fuel) bytes b char_idx table = elim (ltb b (length bytes)) [
  | false ↦ table
  | true ↦
      mark_all fuel bytes (b + seq_len (byte_at bytes b)) (char_idx + 1)
        (mark (length bytes) b (seq_len (byte_at bytes b)) char_idx table)
]

unfoldable pub byte_to_char : Text → CharTable
unfolding mark_all mark seq_len utf8
byte_to_char text p =
    let bytes = utf8 text in
    if p == length bytes then length text else mark_all (length bytes) bytes 0 0 (λ _. 0) p

unfoldable pub is_continuation : ℕ → Bool
is_continuation x = leb 0x80 x && ltb x 0xC0

-- `while eb < n_bytes and 0x80 <= text_bytes[eb] < 0xC0: eb += 1`, on fuel.
unfoldable pub skip_continuation : ℕ → List ℕ → ℕ → ℕ
unfolding is_continuation
skip_continuation zero bytes eb = eb
skip_continuation (suc fuel) bytes eb =
    elim (ltb eb (length bytes) && is_continuation (byte_at bytes eb)) [
      | true ↦ skip_continuation fuel bytes (eb + 1)
      | false ↦ eb
    ]

module _ (token_bytes : ℕ → List ℕ) (text : Text) where
  -- The range of a token whose bytes are [start, end).
  unfoldable pub char_range : ℕ → ℕ → ℕ × ℕ
  unfolding byte_to_char skip_continuation
  char_range start_byte end_byte =
      let bytes = utf8 text in
      let n_bytes = length bytes in
      let eb = skip_continuation n_bytes bytes (min end_byte n_bytes) in
      (
        byte_to_char text (min start_byte n_bytes),
        if ltb eb n_bytes then byte_to_char text eb else length text,
      )

  unfoldable pub offsets_from : ℕ → List ℕ → List (ℕ × ℕ)
  unfolding char_range
  offsets_from byte_pos [] = []
  offsets_from byte_pos (tid ∷ token_ids) =
      let end_byte = byte_pos + length (token_bytes tid) in
      char_range byte_pos end_byte ∷ offsets_from end_byte token_ids

  unfoldable pub build_char_offsets : List ℕ → List (ℕ × ℕ)
  unfolding offsets_from
  build_char_offsets = offsets_from 0

  pub length-offsets_from : (b : ℕ) (ids : List ℕ) → length (offsets_from b ids) ≡ length ids
  unfolding offsets_from
  length-offsets_from b [] = refl
  length-offsets_from b (t ∷ ids) = ap suc (length-offsets_from (b + length (token_bytes t)) ids)
