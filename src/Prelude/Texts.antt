-- ===== src/Prelude/Texts.antt =====
-- Python's `str` where the program walks it: the list of its code points.
use Prim.Native.Nat.{ℕ}
use Prim.Native.Char.{code}
use Prim.Native.String.{String}
use mathlib.Core.Path.{◌≡◌, refl}
use mathlib.Core.Logic.{◌↔◌}
use mathlib.Core.Bool.{Bool, true, false, ◌&&◌, ◌||◌}
use mathlib.Core.List.{List, [], ◌∷◌, reverse}
use native.Mathlib.Omega.{arith}
use agentic_engineering_lab.Prelude.Tests.{◌==◌, if◌then◌else◌}
use agentic_engineering_lab.Prelude.Lists.{any, all, is_empty}

abbrev pub Text : Type 0
Text = List ℕ

-- The code points of a text. `String` has its own `[]` and `∷`.
abbrev pub codes : String → Text
codes String.[] = []
codes (String.◌∷◌ c s) = code c ∷ codes s

-- s == t
abbrev pub text_eq : Text → Text → Bool
text_eq [] [] = true
text_eq (a ∷ s) (b ∷ t) = a == b && text_eq s t
text_eq _ _ = false

-- s.startswith(prefix)
abbrev pub starts_with : Text → Text → Bool
starts_with s [] = true
starts_with [] (p ∷ prefix) = false
starts_with (a ∷ s) (p ∷ prefix) = a == p && starts_with s prefix

-- s.endswith(suffix)
abbrev pub ends_with : Text → Text → Bool
ends_with s suffix = starts_with (reverse s) (reverse suffix)

-- part in s
abbrev pub contains : Text → Text → Bool
contains [] part = is_empty part
contains (a ∷ s) part = starts_with (a ∷ s) part || contains s part

-- character in s
abbrev pub has_char : ℕ → Text → Bool
has_char c s = any (λ a. a == c) s

-- s.split(separator), for a separator of one character: never the empty list
abbrev pub split_on : ℕ → Text → List Text
split_on c [] = [] ∷ []
split_on c (a ∷ s) = if a == c then [] ∷ split_on c s else push a (split_on c s)
  where
    push : ℕ → List Text → List Text
    push a [] = (a ∷ []) ∷ []
    push a (w ∷ ws) = (a ∷ w) ∷ ws

pub text_eq_iff : (s t : Text) → (text_eq s t ≡ true) ↔ (s ≡ t)
text_eq_iff [] [] = (λ h. refl, λ h. refl)
text_eq_iff [] (b ∷ t) = (λ h. cc, λ h. cc)
text_eq_iff (a ∷ s) [] = (λ h. cc, λ h. cc)
text_eq_iff (a ∷ s) (b ∷ t) = ground (arith, text_eq_iff s t)

pub text_eq_refl : (s : Text) → text_eq s s ≡ true
text_eq_refl s = (text_eq_iff s s).1 refl

-- text in texts
abbrev pub mem_text : Text → List Text → Bool
mem_text s ts = any (text_eq s) ts

-- set(a) == set(b), for sets of texts given by lists
abbrev pub same_texts : List Text → List Text → Bool
same_texts a b = all (λ s. mem_text s b) a && all (λ s. mem_text s a) b

test_split : split_on b'/' (codes "a//b") ≡ codes "a" ∷ [] ∷ codes "b" ∷ []
test_split = refl

test_contains : contains (codes "abcd") (codes "bc") ≡ true
test_contains = refl

test_ends : ends_with (codes "poetry.lock") (codes ".lock") ≡ true
test_ends = refl

-- s + t
abbrev pub str_append : String → String → String
str_append String.[] t = t
str_append (String.◌∷◌ c s) t = String.◌∷◌ c (str_append s t)
