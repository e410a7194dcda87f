-- ===== src/Metrics/Text.antt =====
-- The text that internal/metrics/syncmatch.go reads, as a list of code points, with what the code
-- takes from Go's package strings.
use Prim.Native.Char.{code}
use Prim.Native.String.{String}
use temporal_serverless_rain.Base.{
  ℕ, ◌==◌, leb, Bool, true, false, ◌&&◌, ◌||◌, List, [], ◌∷◌, Option, none, some, if◌then◌else◌,
  All, ◌≡◌,
}

abbrev pub Text : Type 0
Text = List ℕ

-- The code points of a literal.
abbrev pub codes : String → Text
codes String.[] = []
codes (String.◌∷◌ c s) = code c ∷ codes s

-- Equality of two strings.
unfoldable pub same : Text → Text → Bool
same [] [] = true
same (c ∷ s) (d ∷ t) = c == d && same s t
same _ _ = false

-- strings.HasPrefix, the prefix first.
unfoldable pub has_prefix : Text → Text → Bool
has_prefix [] s = true
has_prefix (c ∷ p) [] = false
has_prefix (c ∷ p) (d ∷ s) = c == d && has_prefix p s

-- strings.Contains, the part first.
unfoldable pub contains : Text → Text → Bool
unfolding has_prefix
contains p [] = has_prefix p []
contains p (c ∷ s) = has_prefix p (c ∷ s) || contains p s

-- unicode.IsSpace.
unfoldable pub is_space : ℕ → Bool
is_space c =
    leb 9 c && leb c 13
    || c == 32
    || c == 0x85
    || c == 0xa0
    || c == 0x1680
    || leb 0x2000 c && leb c 0x200a
    || c == 0x2028
    || c == 0x2029
    || c == 0x202f
    || c == 0x205f
    || c == 0x3000

-- What is left without the spaces at the front.
unfoldable pub skip_spaces : Text → Text
unfolding is_space
skip_spaces [] = []
skip_spaces (c ∷ s) = let rest = skip_spaces s in if is_space c then rest else c ∷ s

-- What is in front of the first space.
unfoldable pub word : Text → Text
unfolding is_space
word [] = []
word (c ∷ s) = let rest = word s in if is_space c then [] else c ∷ rest

-- strings.Fields, its first element, if there is one.
unfoldable pub first_field : Text → Option Text
unfolding skip_spaces word
first_field s = elim (skip_spaces s) [ [] ↦ none | c ∷ t ↦ some (word (c ∷ t)) ]

unfoldable pub extend : ℕ → Option Text → Option Text
extend c none = none
extend c (some t) = some (c ∷ t)

-- What is in front of the first `b` (IndexByte), if there is one.
unfoldable pub before : ℕ → Text → Option Text
unfolding extend
before b [] = none
before b (c ∷ s) = let rest = before b s in if c == b then some [] else extend c rest

-- What is behind the last `b` (LastIndexByte), if there is one.
unfoldable pub behind : ℕ → Text → Option Text
behind b [] = none
behind b (c ∷ s) = elim (behind b s) [ some t ↦ some t | none ↦ if c == b then some s else none ]

-- line[i:], with i the length of the first argument.
unfoldable pub skip : Text → Text → Text
skip [] s = s
skip (c ∷ p) [] = []
skip (c ∷ p) (d ∷ s) = skip p s

-- Text without the character `b`, and text without a space.
abbrev pub Lacks : ℕ → Text → Type 0
Lacks b = All (λ c. (c == b) ≡ false)

abbrev pub IsWord : Text → Type 0
IsWord = All (λ c. is_space c ≡ false)
