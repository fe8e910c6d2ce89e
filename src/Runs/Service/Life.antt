-- ===== src/Runs/Service/Life.antt =====
-- What the journal bounds: how long a run lives, and that a finished run stays as it is.
use agentic_engineering_lab.Runs.Service.Transitions.{transition_run-refuses}
use agentic_engineering_lab.Domain.Error.{invalid_transition, raised}
use agentic_engineering_lab.Domain.Status.Graph.{stage-le, stage-lt, may_transition_live, stage}
use agentic_engineering_lab.Prelude.Table
use agentic_engineering_lab.Runs.Service.{
  order_rows, insert_row, list_transitions, transition_run, journal,
}
use agentic_engineering_lab.Runs.Service.History.{Tells, Leads, IsSound}
use agentic_engineering_lab.Prelude.{
  refl, none, [], Option, ◌∷◌, inr, ◌∙◌, sym, false≢true, inl, Bool-cases, false, true, arith, ◌≡◌,
  ◌≤◌, ◌+◌, some, String, length, List, ℕ,
}
use agentic_engineering_lab.Database.{Metadata, RunTransition, Run, Session}
use agentic_engineering_lab.Domain.Status.{may_transition, is_terminal, RunStatus}

length-Leads :
    (s : RunStatus) (ts : List RunTransition) (t : RunStatus)
    → Leads (some s) ts (some t)
    → length ts + stage s ≤ stage t
length-Leads s [] t l = ground arith
length-Leads s (r ∷ ts) t l =
    omega (arith, stage-lt s r.to_status l.1, length-Leads r.to_status ts t l.2)

length-Tells : (ts : List RunTransition) (o : Option Run) → Tells ts o → length ts ≤ 9
length-Tells ts none h = rw h (omega arith)
length-Tells [] (some run) h = omega arith
length-Tells (t ∷ ts) (some run) h =
    omega (arith, length-Leads t.to_status ts run.status h.0.2, stage-le run.status)

length-insert_row :
    (row : RunTransition) (rows : List RunTransition)
    → length (insert_row row rows) ≡ length rows + 1
unfolding insert_row
length-insert_row row [] = refl
length-insert_row row (other ∷ rows) = ground (arith, length-insert_row row rows)

length-order_rows : (rows : List RunTransition) → length (order_rows rows) ≡ length rows
unfolding order_rows
length-order_rows [] = refl
length-order_rows (row ∷ rows) =
    omega (arith, length-insert_row row (order_rows rows), length-order_rows rows)

-- If a session is sound, then at most nine transitions are listed for a run.
pub length-list_transitions : (s : Session) (k : ℕ) → IsSound s → length (list_transitions k s) ≤ 9
unfolding list_transitions
length-list_transitions s k sound = omega (
  arith,
  length-order_rows (journal k s),
  length-Tells (journal k s) (Table.get s.runs k) (sound.history k),
)

-- No transition is accepted for a run whose status is terminal, and none changes anything.
pub transition_run-terminal :
    (s : Session) (k : ℕ) (run : Run) (target : RunStatus) (reason actor : String)
    (metadata : Metadata)
    → Table.get s.runs k ≡ some run
    → is_terminal run.status ≡ true
    → transition_run k target reason actor metadata s
      ≡ (raised (invalid_transition run.status target), s)
transition_run-terminal s k run target reason actor metadata loaded over =
    transition_run-refuses s k run target reason actor metadata loaded
      (terminal_stays run.status target over)
  where
    terminal_stays : (a b : RunStatus) → is_terminal a ≡ true → may_transition a b ≡ false
    terminal_stays a b t = elim (Bool-cases (may_transition a b)) [
      | inl m ↦ absurd (false≢true (sym (may_transition_live a b m) ∙ t))
      | inr n ↦ n
    ]
