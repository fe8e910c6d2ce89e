-- ===== src/Prelude/Table.antt =====
-- A table keyed by numbers, in the order of insertion: rows of the database under their primary
-- keys. `put` replaces the row in place.
use Prim.Native.Nat.{ℕ}
use mathlib.Core.Path.{◌≡◌, refl}
use mathlib.Core.Option.{Option, none, some}
use mathlib.Core.List.{List, [], ◌∷◌}
use native.Mathlib.Omega.{arith}
use agentic_engineering_lab.Prelude.Tests.{◌==◌, if◌then◌else◌}

abbrev pub Table {ℓ} : Type ℓ → Type ℓ
Table V = List (ℕ × V)

module _ {ℓ} {V : Type ℓ} where
  unfoldable pub get : Table V → ℕ → Option V
  get [] k = none
  get ((j, v) ∷ t) k = if j == k then some v else get t k

  unfoldable pub put : Table V → ℕ → V → Table V
  put [] k v = (k, v) ∷ []
  put ((j, w) ∷ t) k v = if j == k then (k, v) ∷ t else (j, w) ∷ put t k v

  unfoldable pub remove : Table V → ℕ → Table V
  remove [] k = []
  remove ((j, w) ∷ t) k = let rest = remove t k in if j == k then rest else (j, w) ∷ rest

  pub get-put :
      (t : Table V) (k j : ℕ) (v : V) → get (put t k v) j ≡ (if k == j then some v else get t j)
  unfolding get put
  get-put [] k j v = refl
  get-put ((i, w) ∷ t) k j v = ground (arith, get-put t k j v)

  pub get-remove : (t : Table V) (k j : ℕ) → get (remove t k) j ≡ (if k == j then none else get t j)
  unfolding get remove
  get-remove [] k j = ground arith
  get-remove ((i, w) ∷ t) k j = ground (arith, get-remove t k j)

module _ {ℓ} {V : Type ℓ} where
  -- No key is used twice: each entry is what `get` finds under its key.
  abbrev pub IsKeyed : Table V → Table V → Type ℓ
  IsKeyed whole [] = Unit
  IsKeyed whole ((k, v) ∷ t) = (get whole k ≡ some v) × IsKeyed whole t

pub ruleset table_laws = (get-put, get-remove)
