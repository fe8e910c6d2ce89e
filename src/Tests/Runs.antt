-- ===== src/Tests/Runs.antt =====
-- The run service at concrete inputs.
use agentic_engineering_lab.Runs.Service.Supersede.{
  supersede_active_runs_lem, has_key, superseded_row,
}
use agentic_engineering_lab.Runs.Service.Life.{transition_run-terminal, length-list_transitions}
use agentic_engineering_lab.Domain.Status.Graph.{
  reaches_terminal, is_terminal-allowed_transitions, ◌⟶*◌,
}
use agentic_engineering_lab.Domain.Error.{lookup_error, invalid_transition, value_error, ok, raised}
use agentic_engineering_lab.Tests.Values.{
  empty_session-IsSound, a_run, busy_session, scout_request, empty_session,
}
use agentic_engineering_lab.Runs.Service.Soundness.{
  transition_run-IsSound, supersede_active_runs-IsSound, create_queued_run-IsSound,
}
use agentic_engineering_lab.Database.{RunTransition, Session}
use agentic_engineering_lab.Runs.Service.History.{IsSound}
use agentic_engineering_lab.Prelude.{
  ◌&&◌, refl, ◌∷◌, some, [], true, map, is_empty, ◌≤◌, ℕ, ◌≡◌, length, List,
}
use agentic_engineering_lab.Domain.Status.{
  superseded, queued, succeeded, allowed_transitions, leased, may_transition, manual, running,
  replay, received, pushing, is_terminal, RunStatus,
}
use agentic_engineering_lab.Runs.Service.{
  insert_row, order_rows, journal, comes_first, is_candidate, get_run, supersede_one,
  list_transitions, supersede_each, transition_run, create_queued_run, supersede_active_runs,
  link_runs,
}
use agentic_engineering_lab.Prelude.Table

abbrev created : Session
created = (create_queued_run scout_request manual "api" empty_session).1

created-IsSound : IsSound created
created-IsSound =
    create_queued_run-IsSound scout_request manual "api" empty_session empty_session-IsSound

create_queued_run_test : (create_queued_run scout_request manual "api" empty_session).0 ≡ ok 0
unfolding create_queued_run transition_run may_transition Table.get Table.put
create_queued_run_test = refl

-- Both rows have the same time: the second is listed first, since its key is the smaller one here.
list_transitions_test :
    map (λ (t : RunTransition). t.to_status) (list_transitions 0 created) ≡ queued ∷ received ∷ []
unfolding create_queued_run transition_run may_transition Table.get Table.put list_transitions
    comes_first
list_transitions_test = refl

get_run_test : (get_run 4 created).0 ≡ raised (lookup_error "run not found")
unfolding create_queued_run transition_run may_transition Table.get Table.put get_run
get_run_test = refl

link_runs_test :
    (link_runs 0 0 "replays" created).0
    ≡ raised (value_error "a run cannot be causally linked to itself")
unfolding link_runs
link_runs_test = refl

transition_run-IsSound_example :
    IsSound (transition_run 0 leased "worker_claimed" "ann" [] created).1
transition_run-IsSound_example =
    transition_run-IsSound 0 leased "worker_claimed" "ann" [] created created-IsSound

create_queued_run-IsSound_example : IsSound (create_queued_run scout_request replay "api" created).1
create_queued_run-IsSound_example =
    create_queued_run-IsSound scout_request replay "api" created created-IsSound

supersede_active_runs-IsSound_example :
    IsSound (supersede_active_runs 7 3 "cccc" "webhook" created).1
supersede_active_runs-IsSound_example =
    supersede_active_runs-IsSound 7 3 "cccc" "webhook" created created-IsSound

-- The two rows of a new run have the same time: with falling ids, the second one is listed first.
listed_by_id :
    map (λ (t : RunTransition). t.to_status) (list_transitions 0 created) ≡ queued ∷ received ∷ []
unfolding list_transitions journal order_rows insert_row comes_first create_queued_run
    transition_run Table.get Table.put may_transition
listed_by_id = refl

abbrev rising_session : Session
rising_session = record empty_session { uuid = λ n. n }

abbrev risen : Session
risen = (create_queued_run scout_request replay "api" rising_session).1

length-list_transitions_example : length (list_transitions 0 created) ≤ 9
length-list_transitions_example = length-list_transitions created 0 created-IsSound

abbrev finished : Session
finished = record empty_session { next_id = 1; runs = (0, a_run succeeded "aaaa" 10) ∷ [] }

transition_run-terminal_example :
    transition_run 0 running "again" "ann" [] finished
    ≡ (raised (invalid_transition succeeded running), finished)
unfolding Table.get is_terminal
transition_run-terminal_example =
    transition_run-terminal finished 0 (a_run succeeded "aaaa" 10) running "again" "ann" [] refl
      refl

supersede_active_runs_lem_example :
    (listed : List ℕ) × (t : Session) × (supersede_active_runs 7 3 "bbbb" "webhook" busy_session
      ≡ (ok listed, t))
    × (Table.get t.runs 0 ≡ some (superseded_row 7 3 "bbbb" 1000 (a_run leased "aaaa" 10)))
    × (has_key 0 listed
        ≡ (is_candidate 7 3 "bbbb" (a_run leased "aaaa" 10) && may_transition leased superseded))
unfolding Table.get
supersede_active_runs_lem_example =
    supersede_active_runs_lem 7 3 "bbbb" "webhook" busy_session 0 (a_run leased "aaaa" 10)
      (refl, (refl, tt)) refl

supersede_active_runs_test :
    (supersede_active_runs 7 3 "bbbb" "webhook" busy_session).0 ≡ ok (0 ∷ [])
unfolding supersede_active_runs supersede_each supersede_one is_candidate transition_run
    may_transition Table.get Table.put
supersede_active_runs_test = refl

is_terminal-allowed_transitions_example :
    is_terminal pushing ≡ is_empty (allowed_transitions pushing)
is_terminal-allowed_transitions_example = is_terminal-allowed_transitions pushing

reaches_terminal_example : (t : RunStatus) × (received ⟶* t) × (is_terminal t ≡ true)
reaches_terminal_example = reaches_terminal received
