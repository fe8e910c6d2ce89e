-- ===== src/Runs/Service/Listing.antt =====
-- The order in which `list_transitions` gives the rows of a run, and the order in which they were added.
use agentic_engineering_lab.Prelude.Table
use agentic_engineering_lab.Database.{RunTransition}
use agentic_engineering_lab.Prelude.{◌⊎◌, ◌<◌, ◌≡◌, ◌∷◌, [], List}

-- A later time, or the same time and a larger id.
abbrev pub IsBefore : RunTransition → RunTransition → Type 0
IsBefore a b = (a.occurred_at < b.occurred_at) ⊎ ((a.occurred_at ≡ b.occurred_at) × (a.id < b.id))

-- Each row is before the next one.
abbrev pub AreRising : List RunTransition → Type 0
AreRising [] = Unit
AreRising (a ∷ []) = Unit
AreRising (a ∷ b ∷ rows) = IsBefore a b × AreRising (b ∷ rows)
