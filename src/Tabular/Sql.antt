-- ===== src/Tabular/Sql.antt =====
-- `_validate_sql` of app/search/tabular_engine.py, and what `_call_llm` does to a reply. `str.upper`, `repr` of a text, the letters that
-- `re.IGNORECASE` takes for one and the characters of `\w` are functions in `Characters`.
use knowledgebase.Prelude.{
  ℕ, zero, suc, Bool, true, false, not, ◌&&◌, ◌||◌, Option, none, some, List, [], ◌∷◌, ◌++◌, take,
  map, ◌==◌, if◌then◌else◌,
}
use knowledgebase.Prelude.Text.{Text, codes, is_space, starts_with, strip, strip_left, strip_right}
use knowledgebase.Prelude.Attempt.{Fetched, got, raised}

pub record Characters : Type 0 where
  pub upper : Text → Text
  pub repr : Text → Text
  pub same_letter : ℕ → ℕ → Bool
  pub is_word : ℕ → Bool

-- Where `c` stands next: the number of characters before it.
unfoldable pub index_of : ℕ → Text → Option ℕ
index_of c [] = none
index_of c (d ∷ s) =
    let rest = index_of c s in
    if d == c then some 0 else elim rest [ none ↦ none | some n ↦ some (suc n) ]

-- `_STRIP_LITERALS.sub("''", s)` once the characters of the last literal, `n` in number, are passed over.
unfoldable pub strip_literals_from : ℕ → Text → Text
unfolding index_of
strip_literals_from n [] = []
strip_literals_from (suc n) (c ∷ s) = strip_literals_from n s
strip_literals_from zero (c ∷ s) = elim (c == b'\'' || c == b'"') [
  | false ↦ c ∷ strip_literals_from zero s
  | true ↦ elim (index_of c s) [
    | none ↦ c ∷ strip_literals_from zero s
    | some n ↦ b'\'' ∷ b'\'' ∷ strip_literals_from (suc n) s
  ]
]

abbrev pub strip_literals : Text → Text
strip_literals s = strip_literals_from 0 s

abbrev pub write_ops : List Text
write_ops = map codes (
    "DROP" ∷ "DELETE" ∷ "INSERT" ∷ "UPDATE" ∷ "CREATE" ∷ "ALTER" ∷ "TRUNCATE" ∷ "GRANT" ∷ "REVOKE"
    ∷ "ATTACH" ∷ "DETACH" ∷ "COPY" ∷ "EXPORT" ∷ "IMPORT" ∷ "LOAD" ∷ "INSTALL" ∷ "PRAGMA" ∷ [])

-- Passes over the character and the spaces after it: the pattern is removed with the white space after it, with
-- `n` of its characters still to come, and `spaces` if white space is being removed.
module _ (here : Text → Option ℕ) where
  unfoldable pub remove_from : ℕ → Bool → Text → Text
  unfolding is_space
  remove_from n spaces [] = []
  remove_from (suc n) spaces (c ∷ s) = remove_from n spaces s
  remove_from zero spaces (c ∷ s) = elim (spaces && is_space c) [
    | true ↦ remove_from zero true s
    | false ↦ elim (here (c ∷ s)) [
      | some n ↦ remove_from n true s
      | none ↦ c ∷ remove_from zero false s
    ]
  ]

module _ (characters : Characters) where
  abbrev pub starts_like : Text → Text → Bool
  starts_like [] s = true
  starts_like (c ∷ p) [] = false
  starts_like (c ∷ p) (d ∷ s) = characters.same_letter c d && starts_like p s

  abbrev differ : Bool → Bool → Bool
  differ true b = not b
  differ false b = b

  -- The word, up to case, and a boundary after it; `inside` says if the last character was of a word.
  unfoldable pub word_here : Text → Bool → Text → Bool
  word_here [] inside [] = inside
  word_here [] inside (c ∷ s) = differ inside (characters.is_word c)
  word_here (w ∷ ws) inside [] = false
  word_here (w ∷ ws) inside (c ∷ s) =
      characters.same_letter w c && word_here ws (characters.is_word c) s

  unfoldable pub any_op_here : List Text → Text → Bool
  unfolding word_here
  any_op_here [] s = false
  any_op_here (op ∷ ops) s = word_here op false s || any_op_here ops s

  -- `_WRITE_OPS.search(s)`, after a character of a word if `inside`.
  unfoldable pub has_write_op : Bool → Text → Bool
  unfolding any_op_here
  has_write_op inside [] = false
  has_write_op inside (c ∷ s) =
      differ inside (characters.is_word c) && any_op_here write_ops (c ∷ s)
      || has_write_op (characters.is_word c) s

  unfoldable pub validate_sql : Text → Fetched (Unit {0})
  unfolding strip_left strip_right strip_literals_from has_write_op
  validate_sql sql =
      let stripped = strip sql in
      if not (starts_with (codes "SELECT") (characters.upper stripped))
        && not (starts_with (codes "WITH") (characters.upper stripped))
      then raised (
          codes "Generated SQL must start with SELECT or WITH, got: "
          ++ characters.repr (take 80 stripped))
      else if has_write_op false (strip_literals stripped)
      then raised (
          codes "Generated SQL contains a disallowed operation: "
          ++ characters.repr (take 200 stripped))
      else got tt

  abbrev sql_fence : Text → Option ℕ
  sql_fence s = if starts_like (codes "```sql") s then some 5 else none

  abbrev fence : Text → Option ℕ
  fence s = if starts_with (codes "```") s then some 2 else none

  unfoldable pub strip_semicolons : Text → Text
  strip_semicolons [] = []
  strip_semicolons (c ∷ s) = elim (strip_semicolons s) [
    | [] ↦ if c == b';' then [] else c ∷ []
    | ◌∷◌ d t ↦ c ∷ d ∷ t
  ]

  -- The content of a reply, without fences and semicolons.
  unfoldable pub clean_reply : Text → Text
  unfolding strip_left strip_right remove_from strip_semicolons
  clean_reply content =
      let unfenced = remove_from fence 0 false (remove_from sql_fence 0 false (strip content)) in
      strip (strip_semicolons (strip unfenced))
