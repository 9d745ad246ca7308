-- ===== src/Search/Engine/Terms.antt =====
-- `_clean_fts_query` and `_or_fts_query` of app/search/engine.py. `str.lower` is a function.
use knowledgebase.Prelude.{Bool, ◌&&◌, List, [], ◌∷◌, map, length, ltb, if◌then◌else◌, not, ℕ}
use knowledgebase.Prelude.Text.{Text, codes, one_of, pieces, filled, split_words, join_with}

unfoldable pub is_mark : ℕ → Bool
unfolding one_of
is_mark c = one_of (c ∷ []) (map (λ d. d ∷ []) (codes "?!.,;:'\""))

-- w.strip("?!.,;:'\"")
unfoldable pub strip_marks_left : Text → Text
unfolding is_mark
strip_marks_left [] = []
strip_marks_left (c ∷ s) = let rest = strip_marks_left s in if is_mark c then rest else c ∷ s

unfoldable pub strip_marks_right : Text → Text
unfolding is_mark
strip_marks_right [] = []
strip_marks_right (c ∷ s) = elim (strip_marks_right s) [
  | [] ↦ if is_mark c then [] else c ∷ []
  | ◌∷◌ d t ↦ c ∷ d ∷ t
]

abbrev pub question_words : List Text
question_words = map codes (
    "what" ∷ "where" ∷ "when" ∷ "who" ∷ "which" ∷ "how" ∷ "why" ∷ "is" ∷ "are" ∷ "was" ∷ "were"
    ∷ "does" ∷ "do" ∷ "did" ∷ "can" ∷ "could" ∷ "would" ∷ "should" ∷ "the" ∷ "a" ∷ "an" ∷ "in"
    ∷ "on" ∷ "of" ∷ "for" ∷ "to" ∷ "and" ∷ "or" ∷ "not" ∷ "it" ∷ "its" ∷ "that" ∷ "this" ∷ "these"
    ∷ "those" ∷ "there" ∷ "their" ∷ "my" ∷ "your" ∷ "our" ∷ "by" ∷ "at" ∷ "with" ∷ "from" ∷ "has"
    ∷ "have" ∷ "had" ∷ "been" ∷ "be" ∷ "will" ∷ "shall" ∷ "may" ∷ "might" ∷ "must" ∷ "need" ∷ [])

unfoldable pub keep_meaningful : List Text → List Text
unfolding one_of
keep_meaningful [] = []
keep_meaningful (t ∷ ts) =
    let rest = keep_meaningful ts in
    if not (one_of t question_words) && ltb 1 (length t) then t ∷ rest else rest

unfoldable pub meaningful : Text → List Text
unfolding pieces filled strip_marks_left strip_marks_right keep_meaningful
meaningful lowered =
    keep_meaningful (map (λ w. strip_marks_right (strip_marks_left w)) (split_words lowered))

abbrev joined : Text → Text → List Text → Text
joined query separator [] = query
joined query separator (w ∷ words) = join_with separator (w ∷ words)

unfoldable pub clean_fts_query : (Text → Text) → Text → Text
unfolding meaningful
clean_fts_query lower query = joined query (codes " ") (meaningful (lower query))

unfoldable pub or_fts_query : (Text → Text) → Text → Text
unfolding meaningful
or_fts_query lower query = joined query (codes " OR ") (meaningful (lower query))
