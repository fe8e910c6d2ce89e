-- ===== src/Python/Numbers.antt =====
-- `str` of a natural number.
use agentic_engineering_lab.Prelude.{
  false, zero, ◌%◌, ◌/◌, true, ltb, suc, ◌∷◌, [], refl, ◌+◌, Text, codes, ℕ, ◌≡◌,
}

-- The digits of `n` in front of `rest`; `n` steps are enough, as each divides by ten.
unfoldable pub digits_before : ℕ → ℕ → Text → Text
digits_before zero n rest = (b'0' + n) ∷ rest
digits_before (suc fuel) n rest = elim (ltb n 10) [
  | true ↦ (b'0' + n) ∷ rest
  | false ↦ digits_before fuel (n / 10) ((b'0' + n % 10) ∷ rest)
]

unfoldable pub decimal : ℕ → Text
unfolding digits_before
decimal n = digits_before n n []

test_decimal : decimal 1205 ≡ codes "1205"
unfolding decimal
test_decimal = refl
