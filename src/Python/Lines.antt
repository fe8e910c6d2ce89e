-- ===== src/Python/Lines.antt =====
-- Text methods: `strip`, `splitlines`, `partition` at a character, and the length in UTF-8.
use agentic_engineering_lab.Prelude.{
  true, reverse, ◌||◌, ◌+◌, ◌&&◌, is_empty, ◌==◌, ltb, refl, leb, ◌++◌, ◌≡◌, false, [],
  if◌then◌else◌, ℕ, List, ◌∷◌, Text, Bool, codes,
}

-- str.isspace for one character
unfoldable pub is_space : ℕ → Bool
is_space c =
    (leb 9 c && leb c 13)
    || (leb 28 c && leb c 32)
    || c == 133
    || c == 160
    || c == 5760
    || (leb 8192 c && leb c 8202)
    || c == 8232
    || c == 8233
    || c == 8239
    || c == 8287
    || c == 12288

unfoldable pub lstrip : Text → Text
unfolding is_space
lstrip [] = []
lstrip (c ∷ s) = if is_space c then lstrip s else c ∷ s

-- s.strip()
unfoldable pub strip : Text → Text
unfolding lstrip
strip s = reverse (lstrip (reverse (lstrip s)))

-- The characters up to the first `c`: s.split(c, 1)[0]
unfoldable pub before : ℕ → Text → Text
before c [] = []
before c (a ∷ s) = if a == c then [] else a ∷ before c s

-- The line boundaries of `str.splitlines`.
unfoldable pub is_line_end : ℕ → Bool
is_line_end c =
    (leb 10 c && leb c 13) || (leb 28 c && leb c 30) || c == 133 || c == 8232 || c == 8233

-- The rest of the text, with the line that is open (reversed) and whether a "\r" stands just before.
unfoldable pub lines_from : Bool → Text → Text → List Text
unfolding is_line_end
lines_from cr open_line [] = if is_empty open_line then [] else reverse open_line ∷ []
lines_from cr open_line (c ∷ s) = elim (cr && c == 10) [
  | true ↦ lines_from false [] s
  | false ↦ elim (is_line_end c) [
    | true ↦ reverse open_line ∷ lines_from (c == 13) [] s
    | false ↦ lines_from false (c ∷ open_line) s
  ]
]

-- s.splitlines(): "\r\n" ends one line, and a boundary at the end begins no further line.
unfoldable pub splitlines : Text → List Text
unfolding lines_from
splitlines s = lines_from false [] s

-- len(s.encode())
unfoldable pub utf8_length : Text → ℕ
utf8_length [] = 0
utf8_length (c ∷ s) =
    (if ltb c 128 then 1 else if ltb c 2048 then 2 else if ltb c 65536 then 3 else 4)
    + utf8_length s

-- "\n".join(lines)
unfoldable pub join_lines : List Text → Text
join_lines [] = []
join_lines (line ∷ []) = line
join_lines (line ∷ next ∷ lines) = line ++ (10 ∷ join_lines (next ∷ lines))

test_splitlines : splitlines (65 ∷ 13 ∷ 10 ∷ 10 ∷ 66 ∷ 13 ∷ []) ≡ (65 ∷ []) ∷ [] ∷ (66 ∷ []) ∷ []
unfolding splitlines
test_splitlines = refl

test_strip : strip (codes "  a b ") ≡ codes "a b"
unfolding strip
test_strip = refl
