-- ===== src/Runs/Orchestrator/Flows.antt =====
-- The three flows. Each gives the session and the world back also beside an exception.
pub mod Soundness
pub mod Sources
pub mod Completion
use agentic_engineering_lab.Domain.Artifact.{
  RefusalArtifact, RiskArtifact, CiDiagnosisArtifact, ScoutArtifact,
}
use agentic_engineering_lab.Gateway.Model.{ModelBudget}
use agentic_engineering_lab.Domain.Status.{ci, scout, assessor, running, refused}
use agentic_engineering_lab.Runs.Service.{transition_run}
use agentic_engineering_lab.Gateway.Capability.{CapabilityGateway}
use agentic_engineering_lab.Runs.Orchestrator.Steps.{
  record_terminal_error, ending, store_risk, store_scout, store_diagnosis, begin,
}
use agentic_engineering_lab.Database.{Session, Tx, Run}
use agentic_engineering_lab.Tools.Registry.{Registry}
use agentic_engineering_lab.Runs.Orchestrator.Records.{
  record_model_call, Telemetry, record_tool_calls, Dumps,
}
use agentic_engineering_lab.Runs.Orchestrator.Evidence.{
  snapshot_tools, Evidence, scout_tools, budget_of, RunIds,
}
use agentic_engineering_lab.Python.{Platform}
use agentic_engineering_lab.Prelude.{none, some, [], String, Option, ℕ, Text}
use agentic_engineering_lab.Domain.Error.{ok, raised, Result}
use agentic_engineering_lab.Runs.Remote.{Remote, ◌>>=◌, ◌>>◌, here, away}

-- What an agent gives back: its artifact or an exception, its tools, and what the gateway knows.
pub record AgentCall (W A : Type 0) : Type 0 where
  pub result : Result A
  pub tools : Option Registry
  pub telemetry : Telemetry W

-- One of the agents with its model gateway: its prompt, and its call for a run.
pub record Agent (W S D C A : Type 0) : Type 0 where
  pub system_prompt : Text
  pub run : ℕ → Run → String → ModelBudget → Option (Evidence S D C) → W → AgentCall W A × W
  pub dump : A → Text

module _ {W : Type 0} (platform : Platform) (ids : RunIds) (dumps : Dumps) where
  -- Both records of a call
  unfoldable pub record_calls : {A : Type 0} → ℕ → String → AgentCall W A → Remote W (Unit {0})
  unfolding record_tool_calls record_model_call
  record_calls k model_id call =
      record_model_call platform ids dumps k model_id call.telemetry
      >> here (record_tool_calls k call.tools)

  -- Behind the agent: an exception ends the run as it says, an artifact is handed on.
  unfoldable pub settle_call :
      {A : Type 0}
      → ℕ
      → String
      → String
      → (A → Tx (Unit {0}))
      → AgentCall W A
      → Result A
      → Remote W (Unit {0})
  unfolding record_calls
  settle_call k model_id invalid_code next call (raised e) =
      let (code, message, status) = ending dumps invalid_code e in
      here (record_terminal_error platform dumps k code message status)
      >> record_calls k model_id call
  settle_call k model_id invalid_code next call (ok artifact) =
      record_calls k model_id call >> here (next artifact)

  -- Without the evidence that was asked for, the run is refused.
  unfoldable pub with_tools :
      {E : Type 0} → ℕ → (Option E → Remote W (Unit {0})) → Option E → Remote W (Unit {0})
  with_tools k next none = here (transition_run k refused "snapshot_unavailable" "worker" [])
  with_tools k next (some tools) = next (some tools)

  module _ {S D C : Type 0} where
    -- From the status in which the agent works.
    unfoldable pub work :
        {A : Type 0}
        → Agent W S D C A
        → ℕ
        → Run
        → String
        → String
        → String
        → (A → Tx (Unit {0}))
        → Option (Evidence S D C)
        → Remote W (Unit {0})
    unfolding settle_call budget_of
    work agent k run model_id started invalid_code next tools = do
      here (transition_run k running started "worker" [])
      call ← away (agent.run k run model_id (budget_of run) tools)
      settle_call k model_id invalid_code next call call.result

    -- Evidence is read if there is a gateway.
    unfoldable pub gather :
        {E : Type 0}
        → ℕ
        → (CapabilityGateway Session W S D C → Remote W (Option E))
        → (Option E → Remote W (Unit {0}))
        → Option (CapabilityGateway Session W S D C)
        → Remote W (Unit {0})
    unfolding with_tools
    gather k fetch next none = next none
    gather k fetch next (some gateway) = fetch gateway >>= with_tools k next

    unfoldable pub orchestrate_scout :
        Agent W S D C ScoutArtifact
        → ℕ
        → String
        → Option (CapabilityGateway Session W S D C)
        → Remote W (Unit {0})
    unfolding begin gather work store_scout scout_tools ◌>>=◌
    orchestrate_scout agent k model_id gateway = do
      run ← here (
          begin platform dumps k scout "only leased Scout runs can be orchestrated"
            agent.system_prompt model_id "snapshot_policy_checked")
      gather k (λ g. scout_tools platform ids g k run)
          (work agent k run model_id "scout_started" "invalid_model_output"
            (store_scout platform dumps k agent.dump))
          gateway

    unfoldable pub orchestrate_assessor :
        Agent W S D C RiskArtifact
        → ℕ
        → String
        → Option (CapabilityGateway Session W S D C)
        → Remote W (Unit {0})
    unfolding begin gather work store_risk snapshot_tools ◌>>=◌
    orchestrate_assessor agent k model_id gateway = do
      run ← here (
          begin platform dumps k assessor "only leased assessor runs can be orchestrated"
            agent.system_prompt model_id "diff_policy_checked")
      gather k (λ g. snapshot_tools platform ids g k run)
          (work agent k run model_id "assessor_started" "invalid_risk_output"
            (store_risk platform dumps k agent.dump))
          gateway

    unfoldable pub orchestrate_ci :
        Agent W S D C CiDiagnosisArtifact
        → (RefusalArtifact → Text)
        → ℕ
        → String
        → Option (CapabilityGateway Session W S D C)
        → Remote W (Unit {0})
    unfolding begin gather work store_diagnosis snapshot_tools ◌>>=◌
    orchestrate_ci agent dump_refusal k model_id gateway = do
      run ← here (
          begin platform dumps k ci "only leased CI runs can be orchestrated" agent.system_prompt
            model_id "check_evidence_policy_checked")
      gather k (λ g. snapshot_tools platform ids g k run)
          (work agent k run model_id "ci_diagnosis_started" "invalid_ci_output"
            (store_diagnosis platform dumps k dump_refusal agent.dump))
          gateway
