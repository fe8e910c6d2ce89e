-- ===== src/Python/Glob.antt =====
-- `fnmatch.fnmatch` on a POSIX system, where the case of both arguments is kept.
use agentic_engineering_lab.Prelude.{
  refl, reverse, is_empty, drop, [], ◌&&◌, not, if◌then◌else◌, leb, true, ◌||◌, has_char, ◌≡◌, ◌==◌,
  false, ◌∷◌, ℕ, List, Text, Bool, codes,
}

-- Whether the text is in the set between the brackets: single characters and ranges `a-b`.
unfoldable pub in_set : ℕ → Text → Bool
in_set x [] = false
in_set x (a ∷ []) = x == a
in_set x (a ∷ b ∷ []) = x == a || x == b
in_set x (a ∷ b ∷ c ∷ s) = elim (b == b'-') [
  | true ↦ (leb a x && leb x c) || in_set x s
  | false ↦ x == a || in_set x (b ∷ c ∷ s)
]

pub data Token : Type 0 where
  literal : ℕ → Token
  any_char any_text : Token
  one_of none_of : Text → Token

-- Where the scan of a pattern stands: between tokens, just behind `[`, or inside a set, with the
-- characters of the set so far, reversed.
pub data Scan : Type 0 where
  plain opened : Scan
  inside : Bool → Text → Scan

abbrev set_token : Bool → Text → Token
set_token true chars = none_of (reverse chars)
set_token false chars = one_of (reverse chars)

-- Behind `[`: whether a bracket closes the set. The first character belongs to the set.
abbrev closes : Text → Bool
closes [] = false
closes (c ∷ s) = has_char b']' (if c == b'!' then drop 1 s else s)

tokens_from : Scan → Text → List Token
tokens_from scan [] = []
tokens_from plain (c ∷ s) = elim (c == b'*') [
  | true ↦ any_text ∷ tokens_from plain s
  | false ↦ elim (c == b'?') [
    | true ↦ any_char ∷ tokens_from plain s
    | false ↦ elim (c == b'[' && closes s) [
      | true ↦ tokens_from opened s
      | false ↦ literal c ∷ tokens_from plain s
    ]
  ]
]
tokens_from opened (c ∷ s) = elim (c == b'!') [
  | true ↦ tokens_from (inside true []) s
  | false ↦ tokens_from (inside false (c ∷ [])) s
]
tokens_from (inside negated chars) (c ∷ s) = elim (c == b']' && not (is_empty chars)) [
  | true ↦ set_token negated chars ∷ tokens_from plain s
  | false ↦ tokens_from (inside negated (c ∷ chars)) s
]

abbrev accepts : Token → ℕ → Bool
accepts (literal a) c = a == c
accepts any_char c = true
accepts any_text c = true
accepts (one_of chars) c = in_set c chars
accepts (none_of chars) c = not (in_set c chars)

-- Any text may be empty, or take one more character.
matches : List Token → Text → Bool
matches [] [] = true
matches [] (c ∷ s) = false
matches (any_text ∷ ts) [] = matches ts []
matches (any_text ∷ ts) (c ∷ s) = matches ts (c ∷ s) || matches (any_text ∷ ts) s
matches (t ∷ ts) [] = false
matches (t ∷ ts) (c ∷ s) = accepts t c && matches ts s

-- fnmatch.fnmatch(path, pattern)
unfoldable pub fnmatch : Text → Text → Bool
unfolding matches tokens_from in_set
fnmatch path pattern = matches (tokens_from plain pattern) path

test_star : fnmatch (codes "src/a/b.py") (codes "src/*.py") ≡ true
unfolding fnmatch
test_star = refl

test_set : fnmatch (codes "v3") (codes "v[0-5]") ≡ true
unfolding fnmatch
test_set = refl

test_not_set : fnmatch (codes "v3") (codes "v[!0-5]") ≡ false
unfolding fnmatch
test_not_set = refl
