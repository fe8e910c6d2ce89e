-- ===== src/Agents/Loop.antt =====
-- What the three agents share: a call of the model, and tests on its answer.
use agentic_engineering_lab.Domain.Artifact.{ArtifactBase}
use agentic_engineering_lab.Runs.Orchestrator.Evidence.{Evidence}
use agentic_engineering_lab.Domain.Status.{role_eq, AgentRole}
use agentic_engineering_lab.Runs.Orchestrator.Flows.{AgentCall}
use agentic_engineering_lab.Prelude.{str_eq, ◌||◌, ◌==◌, not, Bool, Option, String, ℕ}
use agentic_engineering_lab.Gateway.Model.{ModelRequest}
use agentic_engineering_lab.Domain.Error.{Result, ◌>>=◌}

-- `gateway.run_agent_loop`: the tools of the request are handed in beside it.
abbrev pub ModelLoop : Type 0 → Type 0 → Type 0 → Type 0 → Type 0 → Type 0
ModelLoop W S D C A = ModelRequest → Option (Evidence S D C) → W → AgentCall W A × W

-- artifact.run_id != run_id or artifact.pinned_sha != pinned_sha or artifact.role is not role
abbrev pub is_other_run : ℕ → String → AgentRole → ArtifactBase → Bool
is_other_run k pinned_sha role artifact =
    not (artifact.run_id == k)
    || not (str_eq artifact.pinned_sha pinned_sha)
    || not (role_eq artifact.role role)

-- A test behind the loop takes the place of its result.
unfoldable pub checked : {W A : Type 0} → (A → Result A) → AgentCall W A × W → AgentCall W A × W
checked test (call, w) = (record call { result = call.result >>= test }, w)
