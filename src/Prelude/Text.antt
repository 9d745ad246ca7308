-- ===== src/Prelude/Text.antt =====
-- Text that the program walks, as the list of its code points, and its equality.
use Prim.Native.Nat.{ℕ}
use Prim.Native.Char.{code}
use Prim.Native.String.{String}
use mathlib.Core.Path.{◌≡◌, refl}
use mathlib.Core.Bool.{Bool, true, false, ◌&&◌, ◌||◌}
use mathlib.Core.Option.{Option, none, some}
use mathlib.Core.List.{List, [], ◌∷◌, ◌++◌}
use native.Mathlib.Omega.{arith}
use knowledgebase.Prelude.Lists.{drop}
use knowledgebase.Prelude.Tests.{leb, ◌==◌, if◌then◌else◌}

abbrev pub Text : Type 0
Text = List ℕ

abbrev pub codes : String → Text
codes String.[] = []
codes (String.◌∷◌ c s) = code c ∷ codes s

unfoldable pub same_text : Text → Text → Bool
same_text [] [] = true
same_text (a ∷ s) (b ∷ t) = (a == b) && same_text s t
same_text _ _ = false

pub same_text_refl : (s : Text) → same_text s s ≡ true
unfolding same_text
same_text_refl [] = refl
same_text_refl (a ∷ s) = ground (arith, same_text_refl s)

pub same_text→eq : (s t : Text) → same_text s t ≡ true → s ≡ t
unfolding same_text
same_text→eq [] [] h = refl
same_text→eq [] (b ∷ t) h = ground arith
same_text→eq (a ∷ s) [] h = ground arith
same_text→eq (a ∷ s) (b ∷ t) h = ground (arith, same_text→eq s t)

-- `x in (…)`
unfoldable pub one_of : Text → List Text → Bool
one_of s [] = false
one_of s (t ∷ ts) = if same_text s t then true else one_of s ts

-- str.isspace of one character.
unfoldable pub is_space : ℕ → Bool
is_space c =
    leb 9 c && leb c 13
    || leb 28 c && leb c 32
    || c == 0x85
    || c == 0xA0
    || c == 0x1680
    || leb 0x2000 c && leb c 0x200A
    || leb 0x2028 c && leb c 0x2029
    || c == 0x202F
    || c == 0x205F
    || c == 0x3000

-- s.lstrip()
unfoldable pub strip_left : Text → Text
unfolding is_space
strip_left [] = []
strip_left (c ∷ s) = let rest = strip_left s in if is_space c then rest else c ∷ s

-- s.rstrip()
unfoldable pub strip_right : Text → Text
unfolding is_space
strip_right [] = []
strip_right (c ∷ s) = elim (strip_right s) [
  | [] ↦ if is_space c then [] else c ∷ []
  | ◌∷◌ d t ↦ c ∷ d ∷ t
]

-- s.strip()
abbrev pub strip : Text → Text
strip s = strip_right (strip_left s)

-- s.split(c)[0]
unfoldable pub until : ℕ → Text → Text
until c [] = []
until c (x ∷ s) = let rest = until c s in if x == c then [] else x ∷ rest

abbrev or_here : ℕ → ℕ → Text → Option Text → Option Text
or_here c x s (some t) = some t
or_here c x s none = if x == c then some (x ∷ s) else none

-- s[s.rfind(c):], if there is a c
unfoldable pub from_last : ℕ → Text → Option Text
from_last c [] = none
from_last c (x ∷ s) = or_here c x s (from_last c s)

unfoldable pub strip_dots : Text → Text
strip_dots [] = []
strip_dots (c ∷ s) = let rest = strip_dots s in if c == b'.' then rest else c ∷ s

abbrev base_name : Text → Text
base_name s = elim (from_last b'/' s) [ none ↦ s | some t ↦ drop 1 t ]

-- os.path.splitext(s)[1]
unfoldable pub extension : Text → Text
unfolding from_last strip_dots
extension s = elim (from_last b'.' (strip_dots (base_name s))) [ none ↦ [] | some t ↦ t ]

-- s.startswith(p)
abbrev pub starts_with : Text → Text → Bool
starts_with [] s = true
starts_with (c ∷ p) [] = false
starts_with (c ∷ p) (d ∷ s) = (c == d) && starts_with p s

-- separator.join(words)
abbrev pub join_with : Text → List Text → Text
join_with separator [] = []
join_with separator (w ∷ []) = w
join_with separator (w ∷ v ∷ words) = w ++ (separator ++ join_with separator (v ∷ words))

abbrev onto_first : ℕ → List Text → List Text
onto_first c [] = (c ∷ []) ∷ []
onto_first c (w ∷ ws) = (c ∷ w) ∷ ws

-- The pieces between white space, the empty ones too.
unfoldable pub pieces : Text → List Text
unfolding is_space
pieces [] = [] ∷ []
pieces (c ∷ s) = let rest = pieces s in if is_space c then [] ∷ rest else onto_first c rest

unfoldable pub filled : List Text → List Text
filled [] = []
filled ([] ∷ ts) = filled ts
filled ((c ∷ t) ∷ ts) = (c ∷ t) ∷ filled ts

-- s.split()
abbrev pub split_words : Text → List Text
split_words s = filled (pieces s)
