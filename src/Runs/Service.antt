-- ===== src/Runs/Service.antt =====
-- src/agentic_lab/runs/service.py
pub mod Transitions
pub mod History
pub mod Soundness
pub mod Life
pub mod Listing
pub mod Supersede
use agentic_engineering_lab.Prelude.{
  ◌||◌, length, ltb, ℕ, ◌+◌, String, Bool, true, false, not, ◌&&◌, Option, none, some, List, [],
  ◌∷◌, ◌++◌, str_eq, ◌==◌, option_eq, if◌then◌else◌, keep,
}
use agentic_engineering_lab.Prelude.Table
use agentic_engineering_lab.Prelude.Table.{Table}
use agentic_engineering_lab.Domain.Status.{
  AgentRole, RunSource, RunStatus, received, queued, leased, snapshotting, running, evaluating,
  ready_to_push, pushing, superseded, mem_status, is_terminal, may_transition,
}
use agentic_engineering_lab.Domain.Error.{value_error, lookup_error, invalid_transition, ok, raised}
use agentic_engineering_lab.Database.{
  text, Metadata, Budget, Run, RunTransition, Session, Tx, ◌>>=◌, ◌>>◌, pure, gets, modify,
  raise_when, the_run, save_run,
}

-- The validated body of a request (`RunCreate`).
pub record RunCreate : Type 0 where
  pub role : AgentRole
  pub repository_id : ℕ
  pub pinned_sha : String
  pub task_text : String
  pub evaluation_case_id : Option String
  pub budget : Budget

-- _record_transition
unfoldable pub record_transition :
    ℕ → Option RunStatus → RunStatus → String → String → Metadata → Tx (Unit {0})
unfolding modify
record_transition run_id source target reason_code actor metadata = modify λ s. record s {
  transitions =
      s.transitions
      ++ record {
        id = s.uuid (length s.transitions);
        occurred_at = s.clock;
        run_id = run_id;
        from_status = source;
        to_status = target;
        reason_code = reason_code;
        actor = actor;
        metadata_json = metadata;
      }
        ∷ [];
}

-- `run.status = target`, and `run.terminal_at = now` if the target is terminal
unfoldable pub with_status : Run → RunStatus → ℕ → Run
with_status run target now = record run {
  status = target;
  terminal_at = if is_terminal target then some now else run.terminal_at;
}

unfoldable pub transition_run : ℕ → RunStatus → String → String → Metadata → Tx (Unit {0})
unfolding the_run save_run with_status record_transition ◌>>=◌
transition_run run_id target reason_code actor metadata = do
  run ← the_run run_id
  raise_when (not (may_transition run.status target)) (invalid_transition run.status target)
  now ← gets (λ s. s.clock)
  save_run run_id (with_status run target now)
  record_transition run_id (some run.status) target reason_code actor metadata

-- The row that `create_queued_run` adds.
unfoldable pub new_run : RunCreate → RunSource → ℕ → Run
new_run create source now = record {
  role = create.role;
  source = source;
  repository_id = create.repository_id;
  pull_number = none;
  check_run_id = none;
  pinned_sha = create.pinned_sha;
  task_text = create.task_text;
  status = received;
  manifest_version = "unselected";
  policy_version = "v1";
  prompt_hash = none;
  model_config = [];
  budget = create.budget;
  evaluation_case_id = create.evaluation_case_id;
  created_at = now;
  terminal_at = none;
}

unfoldable pub create_queued_run : RunCreate → RunSource → String → Tx ℕ
unfolding new_run record_transition save_run ◌>>=◌
create_queued_run create source actor = do
  run_id ← gets (λ s. s.next_id)
  now ← gets (λ s. s.clock)
  modify (λ s. record s { next_id = run_id + 1 })
  save_run run_id (new_run create source now)
  record_transition run_id none received "intake_received" actor []
  transition_run run_id queued "intake_accepted" actor []
  pure run_id

-- The constraint `uq_run_causal_link` refuses a second equal link when the session is flushed, which
-- happens later and is not part of this function.
unfoldable pub link_runs : ℕ → ℕ → String → Tx (Unit {0})
unfolding ◌>>=◌
link_runs source target relation = do
  raise_when (source == target) (value_error "a run cannot be causally linked to itself")
  modify λ s. record s {
    links =
        s.links
        ++ record { source_run_id = source; target_run_id = target; relation = relation } ∷ [];
  }

-- `set(ALLOWED_TRANSITIONS) - TERMINAL_STATUSES`: the keys of the table, none of them terminal
unfoldable pub active_statuses : List RunStatus
unfolding is_terminal
active_statuses =
    keep (λ s. not (is_terminal s))
      (received ∷ queued ∷ leased ∷ snapshotting ∷ running ∷ evaluating ∷ ready_to_push ∷ pushing
        ∷ [])

-- The `where` clause of the query of `supersede_active_runs`.
unfoldable pub is_candidate : ℕ → ℕ → String → Run → Bool
unfolding active_statuses mem_status
is_candidate repository_id pull_number newer_sha run =
    run.repository_id == repository_id
    && option_eq run.pull_number (some pull_number)
    && not (str_eq run.pinned_sha newer_sha)
    && mem_status run.status active_statuses

-- The keys of the rows that a query selects, in the order of the table.
abbrev pub select_keys : (Run → Bool) → Table Run → List ℕ
select_keys p [] = []
select_keys p ((k, run) ∷ t) = let rest = select_keys p t in if p run then k ∷ rest else rest

-- The body of the loop: a candidate that may be superseded is.
unfoldable pub supersede_one : ℕ → String → String → Tx Bool
supersede_one k newer_sha actor = do
  run ← the_run k
  if may_transition run.status superseded then supersede else pure false
  where
    supersede : Tx Bool
    supersede = do
      transition_run k superseded "newer_human_head_sha" actor
          (("replacement_sha", text newer_sha) ∷ [])
      pure true

-- The loop over the candidates lists those that were superseded.
unfoldable pub supersede_each : List ℕ → String → String → Tx (List ℕ)
supersede_each [] newer_sha actor = pure []
supersede_each (k ∷ ks) newer_sha actor = do
  done ← supersede_one k newer_sha actor
  rest ← supersede_each ks newer_sha actor
  pure (if done then k ∷ rest else rest)

unfoldable pub supersede_active_runs : ℕ → ℕ → String → String → Tx (List ℕ)
supersede_active_runs repository_id pull_number newer_sha actor = do
  candidates ← gets (λ s. select_keys (is_candidate repository_id pull_number newer_sha) s.runs)
  supersede_each candidates newer_sha actor

unfoldable pub get_run : ℕ → Tx Run
get_run run_id s = elim (Table.get s.runs run_id) [
  | some run ↦ (ok run, s)
  | none ↦ (raised (lookup_error "run not found"), s)
]

-- The rows of a run in the order in which they were added. No code of the program reads this order,
-- which the table does not keep.
unfoldable pub journal : ℕ → Session → List RunTransition
journal run_id s = keep (λ t. t.run_id == run_id) s.transitions

-- .order_by(RunTransition.occurred_at, RunTransition.id)
unfoldable pub comes_first : RunTransition → RunTransition → Bool
comes_first a b =
    ltb a.occurred_at b.occurred_at || (a.occurred_at == b.occurred_at && ltb a.id b.id)

unfoldable pub insert_row : RunTransition → List RunTransition → List RunTransition
insert_row row [] = row ∷ []
insert_row row (other ∷ rows) =
    let rest = insert_row row rows in
    if comes_first row other then row ∷ other ∷ rows else other ∷ rest

unfoldable pub order_rows : List RunTransition → List RunTransition
unfolding insert_row
order_rows [] = []
order_rows (row ∷ rows) = insert_row row (order_rows rows)

unfoldable pub list_transitions : ℕ → Session → List RunTransition
unfolding journal order_rows
list_transitions run_id s = order_rows (journal run_id s)
