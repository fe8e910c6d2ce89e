-- ===== src/Runs/Orchestrator/Flows/Completion.antt =====
-- A flow that returns leaves its run in a terminal status.
use agentic_engineering_lab.Runs.Orchestrator.Quiet.{record_calls-Keeps}
use agentic_engineering_lab.Runs.Remote.Rules.{Ends-then, Ends-here, Ends-bind}
use agentic_engineering_lab.Runs.Orchestrator.Completion.{
  record_terminal_error-Finishes, store_scout-Finishes, store_diagnosis-Finishes,
  store_risk-Finishes, transition_run-Finishes, Finishes, IsOver,
}
use agentic_engineering_lab.Runs.Orchestrator.Steps.{
  store_risk, store_diagnosis, store_scout, ending,
}
use agentic_engineering_lab.Domain.Error.{
  ok, model_gateway_error, budget_exhausted_error, raised, Result, Exception,
}
use agentic_engineering_lab.Domain.Artifact.{
  RefusalArtifact, ScoutArtifact, CiDiagnosisArtifact, RiskArtifact,
}
use agentic_engineering_lab.Database.{Tx, Run, Session}
use agentic_engineering_lab.Gateway.Capability.{CapabilityGateway}
use agentic_engineering_lab.Prelude.{arith, refl, none, true, ◌≡◌, Text, some, String, Option, ℕ}
use agentic_engineering_lab.Domain.Status.{refused, is_terminal}
use agentic_engineering_lab.Runs.Orchestrator.Flows.{
  settle_call, record_calls, AgentCall, Agent, orchestrate_scout, orchestrate_ci, with_tools,
  gather, orchestrate_assessor, work,
}
use agentic_engineering_lab.Runs.Orchestrator.Records.{Dumps}
use agentic_engineering_lab.Runs.Orchestrator.Evidence.{budget_of, Evidence, RunIds}
use agentic_engineering_lab.Python.{Platform}
use agentic_engineering_lab.Runs.Remote.{away, Keeps, Remote, Ends}

ending-is_terminal :
    (dumps : Dumps) (invalid_code : String) (e : Exception)
    → is_terminal (ending dumps invalid_code e).2 ≡ true
unfolding is_terminal
ending-is_terminal dumps invalid_code (budget_exhausted_error message) = refl
ending-is_terminal dumps invalid_code (model_gateway_error message) = refl
ending-is_terminal dumps invalid_code e = ground arith

module _ {W : Type 0} (platform : Platform) (ids : RunIds) (dumps : Dumps) where
  record_calls-IsOver :
      {A : Type 0} (j k : ℕ) (model_id : String) (call : AgentCall W A)
      → Keeps (IsOver j) (record_calls platform ids dumps k model_id call)
  record_calls-IsOver j k model_id call =
      record_calls-Keeps (IsOver j) platform ids dumps (λ es s p. p) (λ ts s p. p) (λ cs s p. p) k
        model_id call

  settle_call-Ends :
      {A : Type 0} (k : ℕ) (model_id invalid_code : String) (next : A → Tx (Unit {0}))
      (call : AgentCall W A) (result : Result A)
      → ((a : A) → Finishes k (next a))
      → Ends (IsOver k) (settle_call platform ids dumps k model_id invalid_code next call result)
  unfolding settle_call
  settle_call-Ends k model_id invalid_code next call (raised e) finishes =
      Ends-then _ _
        (Ends-here _ (
          record_terminal_error-Finishes platform dumps k _ _ _
            (ending-is_terminal dumps invalid_code e)))
        (record_calls-IsOver k k model_id call)
  settle_call-Ends k model_id invalid_code next call (ok artifact) finishes =
      Ends-bind _ _ (λ recorded. Ends-here _ (finishes artifact))

  with_tools-Ends :
      {E : Type 0} (k : ℕ) (next : Option E → Remote W (Unit {0})) (o : Option E)
      → ((o : Option E) → Ends (IsOver k) (next o))
      → Ends (IsOver k) (with_tools platform ids dumps k next o)
  unfolding with_tools is_terminal
  with_tools-Ends k next none ends = Ends-here _ (transition_run-Finishes k refused _ _ _ refl)
  with_tools-Ends k next (some tools) ends = ends (some tools)

  module _ {S D C : Type 0} where
    work-Ends :
        {A : Type 0} (agent : Agent W S D C A) (k : ℕ) (run : Run)
        (model_id started invalid_code : String) (next : A → Tx (Unit {0}))
        (tools : Option (Evidence S D C))
        → ((a : A) → Finishes k (next a))
        → Ends
            (IsOver k)
            (work platform ids dumps agent k run model_id started invalid_code next tools)
    unfolding work
    work-Ends agent k run model_id started invalid_code next tools finishes = Ends-bind _ _ (λ u.
        Ends-bind (away (agent.run k run model_id (budget_of run) tools)) _
          (λ call. settle_call-Ends k model_id invalid_code next call call.result finishes))

    gather-Ends :
        {E : Type 0} (k : ℕ) (fetch : CapabilityGateway Session W S D C → Remote W (Option E))
        (next : Option E → Remote W (Unit {0}))
        (gateway : Option (CapabilityGateway Session W S D C))
        → ((o : Option E) → Ends (IsOver k) (next o))
        → Ends (IsOver k) (gather platform ids dumps k fetch next gateway)
    unfolding gather
    gather-Ends k fetch next none ends = ends none
    gather-Ends k fetch next (some gateway) ends =
        Ends-bind _ _ (λ tools. with_tools-Ends k next tools ends)

    pub orchestrate_scout-Ends :
        (agent : Agent W S D C ScoutArtifact) (k : ℕ) (model_id : String)
        (gateway : Option (CapabilityGateway Session W S D C))
        → Ends (IsOver k) (orchestrate_scout platform ids dumps agent k model_id gateway)
    unfolding orchestrate_scout
    orchestrate_scout-Ends agent k model_id gateway = Ends-bind _ _ (λ run.
        gather-Ends k _ _ gateway (λ tools.
          work-Ends agent k run model_id "scout_started" "invalid_model_output"
            (store_scout platform dumps k agent.dump) tools
            (store_scout-Finishes platform dumps k agent.dump)))

    pub orchestrate_assessor-Ends :
        (agent : Agent W S D C RiskArtifact) (k : ℕ) (model_id : String)
        (gateway : Option (CapabilityGateway Session W S D C))
        → Ends (IsOver k) (orchestrate_assessor platform ids dumps agent k model_id gateway)
    unfolding orchestrate_assessor
    orchestrate_assessor-Ends agent k model_id gateway = Ends-bind _ _ (λ run.
        gather-Ends k _ _ gateway (λ tools.
          work-Ends agent k run model_id "assessor_started" "invalid_risk_output"
            (store_risk platform dumps k agent.dump) tools
            (store_risk-Finishes platform dumps k agent.dump)))

    pub orchestrate_ci-Ends :
        (agent : Agent W S D C CiDiagnosisArtifact) (dump_refusal : RefusalArtifact → Text) (k : ℕ)
        (model_id : String) (gateway : Option (CapabilityGateway Session W S D C))
        → Ends (IsOver k) (orchestrate_ci platform ids dumps agent dump_refusal k model_id gateway)
    unfolding orchestrate_ci
    orchestrate_ci-Ends agent dump_refusal k model_id gateway = Ends-bind _ _ (λ run.
        gather-Ends k _ _ gateway (λ tools.
          work-Ends agent k run model_id "ci_diagnosis_started" "invalid_ci_output"
            (store_diagnosis platform dumps k dump_refusal agent.dump) tools
            (store_diagnosis-Finishes platform dumps k dump_refusal agent.dump)))
