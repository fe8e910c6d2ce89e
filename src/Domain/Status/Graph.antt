-- ===== src/Domain/Status/Graph.antt =====
-- The table of allowed transitions as a graph: where runs end, and how long they can last.
use agentic_engineering_lab.Prelude.{ℕ, ◌≤◌, ◌<◌, ◌≡◌, refl, true, false, arith, is_empty}
use agentic_engineering_lab.Domain.Status.{
  RunStatus, received, queued, leased, snapshotting, running, evaluating, ready_to_push, pushing,
  succeeded, refused, rejected, budget_exhausted, superseded, cancelled, failed, is_terminal,
  allowed_transitions, may_transition,
}

-- The two tables agree: a status is terminal exactly when no transition leaves it.
pub is_terminal-allowed_transitions :
    (s : RunStatus) → is_terminal s ≡ is_empty (allowed_transitions s)
unfolding is_terminal allowed_transitions
is_terminal-allowed_transitions received = refl
is_terminal-allowed_transitions _ = refl

pub may_transition_live : (s t : RunStatus) → may_transition s t ≡ true → is_terminal s ≡ false
unfolding may_transition is_terminal
may_transition_live received t h = refl
may_transition_live s t h = ground arith

-- How far along a run is: every transition goes up.
abbrev pub stage : RunStatus → ℕ
stage received = 0
stage queued = 1
stage leased = 2
stage snapshotting = 3
stage running = 4
stage evaluating = 5
stage ready_to_push = 6
stage pushing = 7
stage _ = 8

pub stage-lt : (s t : RunStatus) → may_transition s t ≡ true → stage s < stage t
unfolding may_transition
stage-lt received t h = ground arith
stage-lt s t h = ground arith

pub stage-le : (s : RunStatus) → stage s ≤ 8
stage-le received = omega arith
stage-le _ = omega arith

infix 40 ◌⟶*◌
pub data ◌⟶*◌ : RunStatus → RunStatus → Type 0 where
  here : {s : RunStatus} → s ⟶* s
  then : {s t u : RunStatus} → may_transition s t ≡ true → t ⟶* u → s ⟶* u

-- A terminal status, one transition from a live one.
abbrev pub way_out : RunStatus → RunStatus
way_out received = rejected
way_out queued = cancelled
way_out leased = cancelled
way_out snapshotting = refused
way_out running = refused
way_out evaluating = refused
way_out ready_to_push = refused
way_out pushing = refused
way_out s = s

-- From every status some way of allowed transitions leads to a terminal one.
pub reaches_terminal : (s : RunStatus) → (t : RunStatus) × (s ⟶* t) × (is_terminal t ≡ true)
unfolding may_transition is_terminal
reaches_terminal succeeded = (succeeded, here, refl)
reaches_terminal refused = (refused, here, refl)
reaches_terminal rejected = (rejected, here, refl)
reaches_terminal budget_exhausted = (budget_exhausted, here, refl)
reaches_terminal superseded = (superseded, here, refl)
reaches_terminal cancelled = (cancelled, here, refl)
reaches_terminal failed = (failed, here, refl)
reaches_terminal s = (way_out s, then refl here, refl)
