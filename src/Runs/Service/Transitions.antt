-- ===== src/Runs/Service/Transitions.antt =====
-- What `transition_run` does on each of its branches.
use agentic_engineering_lab.Prelude.{
  length, none, arith, ℕ, String, ◌≡◌, true, false, some, [], ◌∷◌, ◌++◌,
}
use agentic_engineering_lab.Prelude.Table
use agentic_engineering_lab.Domain.Status.{RunStatus, may_transition}
use agentic_engineering_lab.Domain.Error.{lookup_error, invalid_transition, ok, raised}
use agentic_engineering_lab.Database.{Metadata, Run, RunTransition, Session}
use agentic_engineering_lab.Runs.Service.{transition_run, with_status}

-- The row that an accepted transition adds to the journal.
abbrev pub journal_row : Session → ℕ → Run → RunStatus → String → String → Metadata → RunTransition
journal_row s k run target reason actor metadata = record {
  id = s.uuid (length s.transitions);
  occurred_at = s.clock;
  run_id = k;
  from_status = some run.status;
  to_status = target;
  reason_code = reason;
  actor = actor;
  metadata_json = metadata;
}

-- The session after an accepted transition: the row's new status, and one more journal row.
abbrev pub moved : Session → ℕ → Run → RunStatus → String → String → Metadata → Session
moved s k run target reason actor metadata = record s {
  runs = Table.put s.runs k (with_status run target s.clock);
  transitions = s.transitions ++ journal_row s k run target reason actor metadata ∷ [];
}

module _ (s : Session) (k : ℕ) (run : Run) (target : RunStatus) (reason actor : String)
    (metadata : Metadata) (loaded : Table.get s.runs k ≡ some run) where
  pub transition_run-accepts :
      may_transition run.status target ≡ true
      → transition_run k target reason actor metadata s
        ≡ (ok tt, moved s k run target reason actor metadata)
  unfolding transition_run
  transition_run-accepts allowed = ground arith

  pub transition_run-refuses :
      may_transition run.status target ≡ false
      → transition_run k target reason actor metadata s
        ≡ (raised (invalid_transition run.status target), s)
  unfolding transition_run
  transition_run-refuses forbidden = ground arith

pub transition_run_missing :
    (s : Session) (k : ℕ) (target : RunStatus) (reason actor : String) (metadata : Metadata)
    → Table.get s.runs k ≡ none
    → transition_run k target reason actor metadata s ≡ (raised (lookup_error "run"), s)
unfolding transition_run
transition_run_missing s k target reason actor metadata missing = ground arith
