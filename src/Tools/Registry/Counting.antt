-- ===== src/Tools/Registry/Counting.antt =====
-- How often a number was given out: in the records of a registry and among the calls under way.
use agentic_engineering_lab.Tools.Registry.Steps.{Call, reserved, answered, Picked, first, behind}
use agentic_engineering_lab.Tools.Registry.{ToolExecution, Registry}
use agentic_engineering_lab.Prelude.{
  if◌then◌else◌, refl, ◌==◌, ◌<◌, arith, [], ◌∷◌, ◌++◌, length, ◌≡◌, ◌+◌, ◌≤◌, List, ℕ,
}

-- How often a number stands in the records, and among the calls under way.
abbrev pub one : ℕ → ℕ → ℕ
one n m = if n == m then 1 else 0

abbrev pub count_of : ℕ → List ToolExecution → ℕ
count_of n [] = 0
count_of n (e ∷ es) = one n e.number + count_of n es

abbrev pub number_of : Call → ℕ
number_of (reserved number allowed tool_name arguments) = number
number_of (answered e) = e.number

abbrev pub held_of : ℕ → List Call → ℕ
held_of n [] = 0
held_of n (c ∷ cs) = one n (number_of c) + held_of n cs

pub count_of-snoc :
    (n : ℕ) (es : List ToolExecution) (e : ToolExecution)
    → count_of n (es ++ e ∷ []) ≡ count_of n es + one n e.number
count_of-snoc n [] e = omega arith
count_of-snoc n (x ∷ es) e = omega (arith, count_of-snoc n es e)

pub held_of-Picked :
    (n : ℕ) (c : Call) (cs ds : List Call)
    → Picked c cs ds
    → (held_of n cs ≡ one n (number_of c) + held_of n ds) × (length cs ≡ length ds + 1)
held_of-Picked n c _ _ (first cs) = (refl, omega arith)
held_of-Picked n c _ _ (behind d cs ds p) =
    let (held, size) = held_of-Picked n c cs ds p in (omega (arith, held), omega (arith, size))

pub record IsMetered (limit : ℕ) (r : Registry) (cs : List Call) : Type 0 where
  pub same_limit : r.max_calls ≡ limit
  pub in_budget : r.next_sequence ≤ limit + 1
  pub counted : length r.records + length cs < r.next_sequence
  pub once : (n : ℕ) → count_of n r.records + held_of n cs ≤ 1
  pub below : (n : ℕ) → r.next_sequence ≤ n → count_of n r.records + held_of n cs ≡ 0
