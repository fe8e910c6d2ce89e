-- ===== src/Python/Regex.antt =====
-- The part of Python's `re` that the program's patterns use: character classes, sequences,
-- alternatives, greedy repetition of a class, and the word boundary. Matching backtracks, as `re` does.
use agentic_engineering_lab.Prelude.{
  zero, length, ◌++◌, xor, true, suc, not, ◌||◌, [], ◌&&◌, is_some, if◌then◌else◌, ◌∷◌, ◌==◌, ◌-◌,
  Text, false, none, Bool, some, ℕ, Option,
}

pub data Regex : Type 0 where
  empty : Regex
  char : (ℕ → Bool) → Regex
  many : ℕ → Option ℕ → (ℕ → Bool) → Regex
  seq alt : Regex → Regex → Regex
  word_boundary : Regex

abbrev one_less : Option ℕ → Option ℕ
one_less none = none
one_less (some n) = some (n - 1)

abbrev is_zero : Option ℕ → Bool
is_zero none = false
is_zero (some n) = n == 0

abbrev first_some {ℓ} : {A : Type ℓ} → Option A → Option A → Option A
first_some (some a) o = some a
first_some none o = o

-- At least `least` and at most `most` characters of a class, as many as possible; `k` goes on with
-- the character before and the text that follows.
many_from :
    ℕ → Option ℕ → (ℕ → Bool) → Option ℕ → Text → (Option ℕ → Text → Option Text) → Option Text
many_from least most class prev [] k = if least == 0 then k prev [] else none
many_from least most class prev (c ∷ s) k =
    let longer = many_from (least - 1) (one_less most) class (some c) s k in
    let here = if least == 0 then k prev (c ∷ s) else none in
    elim (class c && not (is_zero most)) [ true ↦ first_some longer here | false ↦ here ]

module _ (is_word : ℕ → Bool) where
  abbrev wordly : Option ℕ → Bool
  wordly none = false
  wordly (some c) = is_word c

  abbrev next_char : Text → Option ℕ
  next_char [] = none
  next_char (c ∷ s) = some c

  -- A match at the start of the text: what `k` makes of the rest behind it.
  match_from : Regex → Option ℕ → Text → (Option ℕ → Text → Option Text) → Option Text
  match_from empty prev s k = k prev s
  match_from (char class) prev [] k = none
  match_from (char class) prev (c ∷ s) k = if class c then k (some c) s else none
  match_from (many least most class) prev s k = many_from least most class prev s k
  match_from (seq a b) prev s k = match_from a prev s (λ prev' s'. match_from b prev' s' k)
  match_from (alt a b) prev s k = first_some (match_from a prev s k) (match_from b prev s k)
  match_from word_boundary prev s k =
      if xor (wordly prev) (wordly (next_char s)) then k prev s else none

  -- The rest behind a match at the start of the text.
  unfoldable pub match_at : Regex → Option ℕ → Text → Option Text
  unfolding match_from many_from
  match_at r prev s = match_from r prev s (λ prev' rest. some rest)

  -- pattern.search(text) is not None
  unfoldable pub search_from : Regex → Option ℕ → Text → Bool
  unfolding match_at
  search_from r prev [] = is_some (match_at r prev [])
  search_from r prev (c ∷ s) = is_some (match_at r prev (c ∷ s)) || search_from r (some c) s

  -- pattern.sub(replacement, text), for a pattern that matches no empty text. The number is how
  -- many characters of a match are still to be passed over.
  unfoldable pub sub_from : Regex → Text → ℕ → Option ℕ → Text → Text
  unfolding match_at
  sub_from r replacement skip prev [] = []
  sub_from r replacement (suc skip) prev (c ∷ s) = sub_from r replacement skip (some c) s
  sub_from r replacement zero prev (c ∷ s) = elim (match_at r prev (c ∷ s)) [
    | none ↦ c ∷ sub_from r replacement 0 (some c) s
    | some rest ↦ replacement ++ sub_from r replacement (length s - length rest) (some c) s
  ]
