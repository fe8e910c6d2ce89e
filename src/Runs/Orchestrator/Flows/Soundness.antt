-- ===== src/Runs/Orchestrator/Flows/Soundness.antt =====
-- The flows against the journal of transitions.
use agentic_engineering_lab.Runs.Orchestrator.Steps.{store_scout, store_diagnosis, store_risk}
use agentic_engineering_lab.Runs.Orchestrator.Soundness.{
  store_diagnosis-Preserves, store_scout-Preserves, store_risk-Preserves,
  record_terminal_error-Preserves, begin-Preserves,
}
use agentic_engineering_lab.Domain.Artifact.{
  RefusalArtifact, RiskArtifact, CiDiagnosisArtifact, ScoutArtifact,
}
use agentic_engineering_lab.Database.Preserves.{Preserves}
use agentic_engineering_lab.Runs.Orchestrator.Quiet.{record_calls-Keeps}
use agentic_engineering_lab.Runs.Orchestrator.Flows.Sources.{
  scout_tools-Keeps, snapshot_tools-Keeps, AuditKeeps,
}
use agentic_engineering_lab.Domain.Status.{running, refused}
use agentic_engineering_lab.Runs.Service.Soundness.{transition_run-Preserves}
use agentic_engineering_lab.Domain.Error.{ok, raised, Result}
use agentic_engineering_lab.Runs.Remote.Rules.{Keeps-away, Keeps-bind, Keeps-here}
use agentic_engineering_lab.Database.{Tx, Session, Run}
use agentic_engineering_lab.Runs.Service.History.{IsSound}
use agentic_engineering_lab.Gateway.Capability.{CapabilityGateway}
use agentic_engineering_lab.Prelude.{Text, [], refl, none, some, ◌≡◌, String, ℕ, Option}
use agentic_engineering_lab.Runs.Service.{journal}
use agentic_engineering_lab.Runs.Orchestrator.Flows.{
  orchestrate_ci, orchestrate_assessor, orchestrate_scout, record_calls, AgentCall, Agent, gather,
  work, settle_call, with_tools,
}
use agentic_engineering_lab.Runs.Orchestrator.Records.{Dumps}
use agentic_engineering_lab.Runs.Orchestrator.Evidence.{budget_of, Evidence, RunIds}
use agentic_engineering_lab.Python.{Platform}
use agentic_engineering_lab.Runs.Remote.{Keeps, Remote}

module _ {W : Type 0} (platform : Platform) (ids : RunIds) (dumps : Dumps) where
  record_calls-IsSound :
      {A : Type 0} (k : ℕ) (model_id : String) (call : AgentCall W A)
      → Keeps IsSound (record_calls platform ids dumps k model_id call)
  unfolding journal
  record_calls-IsSound k model_id call =
      record_calls-Keeps IsSound platform ids dumps
        (λ es s p. record { history = p.history; fresh = p.fresh })
        (λ ts s p. record { history = p.history; fresh = p.fresh })
        (λ cs s p. record { history = p.history; fresh = p.fresh }) k model_id call

  settle_call-Keeps :
      {A : Type 0} (k : ℕ) (model_id invalid_code : String) (next : A → Tx (Unit {0}))
      (call : AgentCall W A) (result : Result A)
      → ((a : A) → Preserves IsSound (next a))
      → Keeps IsSound (settle_call platform ids dumps k model_id invalid_code next call result)
  unfolding settle_call
  settle_call-Keeps k model_id invalid_code next call (raised e) kept =
      Keeps-bind _ _ (Keeps-here _ (record_terminal_error-Preserves platform dumps k _ _ _))
        (λ u. record_calls-IsSound k model_id call)
  settle_call-Keeps k model_id invalid_code next call (ok artifact) kept =
      Keeps-bind _ _ (record_calls-IsSound k model_id call) (λ u. Keeps-here _ (kept artifact))

  with_tools-Keeps :
      {E : Type 0} (k : ℕ) (next : Option E → Remote W (Unit {0})) (o : Option E)
      → ((o : Option E) → Keeps IsSound (next o))
      → Keeps IsSound (with_tools platform ids dumps k next o)
  unfolding with_tools
  with_tools-Keeps k next none kept = Keeps-here _ (transition_run-Preserves k refused _ _ _)
  with_tools-Keeps k next (some tools) kept = kept (some tools)

  module _ {S D C : Type 0} where
    work-Keeps :
        {A : Type 0} (agent : Agent W S D C A) (k : ℕ) (run : Run)
        (model_id started invalid_code : String) (next : A → Tx (Unit {0}))
        (tools : Option (Evidence S D C))
        → ((a : A) → Preserves IsSound (next a))
        → Keeps IsSound
            (work platform ids dumps agent k run model_id started invalid_code next tools)
    unfolding work
    work-Keeps agent k run model_id started invalid_code next tools kept =
        Keeps-bind _ _ (Keeps-here _ (transition_run-Preserves k running started "worker" [])) (λ u.
          Keeps-bind _ _ (Keeps-away (agent.run k run model_id (budget_of run) tools))
            (λ call. settle_call-Keeps k model_id invalid_code next call call.result kept))

    gather-Keeps :
        {E : Type 0} (k : ℕ) (fetch : CapabilityGateway Session W S D C → Remote W (Option E))
        (next : Option E → Remote W (Unit {0}))
        (gateway : Option (CapabilityGateway Session W S D C))
        → ((g : CapabilityGateway Session W S D C) → gateway ≡ some g → Keeps IsSound (fetch g))
        → ((o : Option E) → Keeps IsSound (next o))
        → Keeps IsSound (gather platform ids dumps k fetch next gateway)
    unfolding gather
    gather-Keeps k fetch next none fetched kept = kept none
    gather-Keeps k fetch next (some gateway) fetched kept =
        Keeps-bind _ _ (fetched gateway refl) (λ tools. with_tools-Keeps k next tools kept)

    module _ (gateway : Option (CapabilityGateway Session W S D C))
        (audits : (g : CapabilityGateway Session W S D C) → gateway ≡ some g → AuditKeeps g) where
      pub orchestrate_scout-Keeps :
          (agent : Agent W S D C ScoutArtifact) (k : ℕ) (model_id : String)
          → Keeps IsSound (orchestrate_scout platform ids dumps agent k model_id gateway)
      unfolding orchestrate_scout
      orchestrate_scout-Keeps agent k model_id =
          Keeps-bind _ _ (Keeps-here _ (begin-Preserves platform dumps k _ _ _ model_id _)) (λ run.
            gather-Keeps k _ _ gateway (λ g e. scout_tools-Keeps platform ids g (audits g e) k run)
              (λ tools.
                work-Keeps agent k run model_id "scout_started" "invalid_model_output"
                  (store_scout platform dumps k agent.dump) tools
                  (store_scout-Preserves platform dumps k agent.dump)))

      pub orchestrate_assessor-Keeps :
          (agent : Agent W S D C RiskArtifact) (k : ℕ) (model_id : String)
          → Keeps IsSound (orchestrate_assessor platform ids dumps agent k model_id gateway)
      unfolding orchestrate_assessor
      orchestrate_assessor-Keeps agent k model_id =
          Keeps-bind _ _ (Keeps-here _ (begin-Preserves platform dumps k _ _ _ model_id _)) (λ run.
            gather-Keeps k _ _ gateway
              (λ g e. snapshot_tools-Keeps platform ids g (audits g e) k run)
              (λ tools.
                work-Keeps agent k run model_id "assessor_started" "invalid_risk_output"
                  (store_risk platform dumps k agent.dump) tools
                  (store_risk-Preserves platform dumps k agent.dump)))

      pub orchestrate_ci-Keeps :
          (agent : Agent W S D C CiDiagnosisArtifact) (dump_refusal : RefusalArtifact → Text)
          (k : ℕ) (model_id : String)
          → Keeps IsSound (orchestrate_ci platform ids dumps agent dump_refusal k model_id gateway)
      unfolding orchestrate_ci
      orchestrate_ci-Keeps agent dump_refusal k model_id =
          Keeps-bind _ _ (Keeps-here _ (begin-Preserves platform dumps k _ _ _ model_id _)) (λ run.
            gather-Keeps k _ _ gateway
              (λ g e. snapshot_tools-Keeps platform ids g (audits g e) k run)
              (λ tools.
                work-Keeps agent k run model_id "ci_diagnosis_started" "invalid_ci_output"
                  (store_diagnosis platform dumps k dump_refusal agent.dump) tools
                  (store_diagnosis-Preserves platform dumps k dump_refusal agent.dump)))
