-- ===== src/Runs/Worker.antt =====
-- src/agentic_lab/runs/worker.py: a claimed run is carried out by the agent of its role, in one
-- transaction that is rolled back if the lease was lost.
pub mod Settled
pub mod Soundness
use agentic_engineering_lab.Prelude.Table
use agentic_engineering_lab.Runs.Service.{transition_run}
use agentic_engineering_lab.Domain.Error.{
  other_error, is_integrity_error, class_name, lookup_error, raised, ok, Exception, Result,
}
use agentic_engineering_lab.Runs.Leases.{release_lease}
use agentic_engineering_lab.Database.{Run, Tx, the_run, Session}
use agentic_engineering_lab.Domain.Status.{ci, assessor, AgentRole, failed, is_terminal}
use agentic_engineering_lab.Gateway.Capability.{CapabilityGateway}
use agentic_engineering_lab.Runs.Orchestrator.Records.{Dumps}
use agentic_engineering_lab.Runs.Orchestrator.Evidence.{RunIds}
use agentic_engineering_lab.Domain.Artifact.{
  RefusalArtifact, CiDiagnosisArtifact, RiskArtifact, ScoutArtifact,
}
use agentic_engineering_lab.Python.{Platform}
use agentic_engineering_lab.Database.{text}
use agentic_engineering_lab.Domain.Status.{scout}
use agentic_engineering_lab.Prelude.{
  ◌∷◌, true, none, false, [], Text, str_eq, Bool, if◌then◌else◌, some, ℕ, String, Option,
}
use agentic_engineering_lab.Runs.Orchestrator.Flows.{
  orchestrate_ci, orchestrate_assessor, orchestrate_scout, Agent,
}
use agentic_engineering_lab.Runs.Remote.{Remote, ◌>>=◌, here}

-- The agents over one model gateway.
pub record ModelAgents (W S D C : Type 0) : Type 0 where
  pub scout_agent : Agent W S D C ScoutArtifact
  pub assessor_agent : Agent W S D C RiskArtifact
  pub ci_agent : Agent W S D C CiDiagnosisArtifact
  pub dump_refusal : RefusalArtifact → Text

-- The branch writer is left out: nothing in these functions uses it.
pub record WorkerDependencies (W S D C : Type 0) : Type 0 where
  pub model_gateway : Option (ModelAgents W S D C)
  pub model_id : Option String
  pub capability_gateway : Option (CapabilityGateway Session W S D C)

unfoldable pub not_configured : {W : Type 0} → ℕ → String → Remote W (Unit {0})
not_configured k worker_id =
    here (transition_run k failed "worker_role_not_configured" worker_id [])

-- An empty model is none.
abbrev pub present : Option String → Option String
present none = none
present (some name) = if str_eq name "" then none else some name

-- The handler of an exception: a run that is still live fails.
unfoldable pub fail_live : ℕ → String → Exception → Tx (Unit {0})
unfolding ◌>>=◌ is_terminal
fail_live k worker_id e s = go (Table.get s.runs k)
  where
    go : Option Run → Result (Unit {0}) × Session
    go none = (raised (lookup_error "run"), s)
    go (some run) =
        if is_terminal run.status
        then (ok tt, s)
        else transition_run k failed "unexpected_worker_error" worker_id
            (("error_type", text (class_name e)) ∷ []) s

-- Behind the dispatch. A flush that the database refused leaves a session that cannot be used before
-- it is rolled back, so that the handler itself raises.
abbrev pub handled :
    {W : Type 0} → ℕ → String → Result (Unit {0}) × Session × W → Result (Unit {0}) × Session × W
handled k worker_id (ok u, s, w) = (ok u, s, w)
handled k worker_id (raised e, s, w) =
    if is_integrity_error e
    then (raised (other_error "PendingRollbackError"), s, w)
    else here (fail_live k worker_id e) s w

-- Behind `release_lease`: without the lease, all is rolled back.
abbrev pub released : {W : Type 0} → Session → W → Result Bool × Session → Result Bool × Session × W
released before w (ok true, t) = (ok true, t, w)
released before w (ok false, t) = (ok false, before, w)
released before w (raised e, t) = (raised e, before, w)

-- Behind the heartbeat: the session is committed if the lease is still held, and released with it.
unfoldable pub settle_lease :
    {W : Type 0}
    → ℕ
    → String
    → Bool
    → Session
    → Result (Unit {0}) × Session × W
    → Result Bool × Session × W
unfolding release_lease
settle_lease k worker_id lost before (raised e, s, w) = (raised e, before, w)
settle_lease k worker_id true before (ok u, s, w) = (ok false, before, w)
settle_lease k worker_id false before (ok u, s, w) = released before w (release_lease k worker_id s)

module _ {W S D C : Type 0} (platform : Platform) (ids : RunIds) (dumps : Dumps) where
  -- The role's flow, if there is a model and, for the scout, a capability gateway.
  unfoldable pub dispatch_role :
      ℕ
      → String
      → AgentRole
      → Option (ModelAgents W S D C)
      → Option String
      → Option (CapabilityGateway Session W S D C)
      → Remote W (Unit {0})
  unfolding orchestrate_scout orchestrate_assessor orchestrate_ci not_configured
  dispatch_role k worker_id scout (some agents) (some model_id) (some gateway) =
      orchestrate_scout platform ids dumps agents.scout_agent k model_id (some gateway)
  dispatch_role k worker_id assessor (some agents) (some model_id) gateway =
      orchestrate_assessor platform ids dumps agents.assessor_agent k model_id gateway
  dispatch_role k worker_id ci (some agents) (some model_id) gateway =
      orchestrate_ci platform ids dumps agents.ci_agent agents.dump_refusal k model_id gateway
  dispatch_role k worker_id role agents model_id gateway = not_configured k worker_id

  unfoldable pub dispatch_run : WorkerDependencies W S D C → ℕ → String → Remote W (Unit {0})
  unfolding dispatch_role ◌>>=◌
  dispatch_run dependencies k worker_id = do
    run ← here (the_run k)
    dispatch_role k worker_id run.role dependencies.model_gateway (present dependencies.model_id)
        dependencies.capability_gateway

  -- `lost` is whether the heartbeat found the lease lost while the run was carried out. Its renewals
  -- are made in transactions of their own, which are not part of this session.
  unfoldable pub process_claimed_run :
      WorkerDependencies W S D C → ℕ → String → Bool → Session → W → Result Bool × Session × W
  unfolding dispatch_run settle_lease
  process_claimed_run dependencies k worker_id lost s w = elim (Table.get s.runs k) [
    | none ↦ (ok false, s, w)
    | some run ↦
        settle_lease k worker_id lost s
          (handled k worker_id (dispatch_run dependencies k worker_id s w))
  ]
