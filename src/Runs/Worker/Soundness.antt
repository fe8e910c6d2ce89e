-- ===== src/Runs/Worker/Soundness.antt =====
-- The worker against the journal of transitions.
use agentic_engineering_lab.Runs.Orchestrator.Flows.Soundness.{
  orchestrate_ci-Keeps, orchestrate_assessor-Keeps, orchestrate_scout-Keeps,
}
use agentic_engineering_lab.Database.Preserves.{Preserves-the_run}
use agentic_engineering_lab.Runs.Orchestrator.Flows.Sources.{AuditKeeps}
use agentic_engineering_lab.Domain.Status.{AgentRole, is_terminal, failed}
use agentic_engineering_lab.Prelude.Table
use agentic_engineering_lab.Gateway.Capability.{CapabilityGateway}
use agentic_engineering_lab.Runs.Service.Soundness.{transition_run-Preserves}
use agentic_engineering_lab.Runs.Remote.Rules.{Keeps-bind, Keeps-here}
use agentic_engineering_lab.Runs.Service.History.{IsSound}
use agentic_engineering_lab.Runs.Orchestrator.Records.{Dumps}
use agentic_engineering_lab.Runs.Service.{journal}
use agentic_engineering_lab.Domain.Error.{is_integrity_error, ok, raised, Exception, Result}
use agentic_engineering_lab.Runs.Orchestrator.Evidence.{RunIds}
use agentic_engineering_lab.Prelude.{
  none, ◌∙◌, refl, Bool-cases, false, inr, some, inl, ◌≡◌, true, Option, Option-cases, Bool, String,
  ℕ,
}
use agentic_engineering_lab.Python.{Platform}
use agentic_engineering_lab.Database.{Run, Session}
use agentic_engineering_lab.Runs.Leases.{held_lease, release_lease}
use agentic_engineering_lab.Runs.Worker.{
  present, ModelAgents, dispatch_role, dispatch_run, WorkerDependencies, released, handled,
  fail_live, not_configured, process_claimed_run, settle_lease,
}
use agentic_engineering_lab.Runs.Remote.{Keeps, here}

not_configured-Keeps :
    {W : Type 0} (k : ℕ) (worker_id : String) → Keeps IsSound (not_configured {W = W} k worker_id)
unfolding not_configured
not_configured-Keeps k worker_id = Keeps-here _ (transition_run-Preserves k failed _ _ _)

fail_live-IsSound :
    (k : ℕ) (worker_id : String) (e : Exception) (s : Session)
    → IsSound s
    → IsSound (fail_live k worker_id e s).1
unfolding fail_live
fail_live-IsSound k worker_id e s sound = elim (Option-cases (Table.get s.runs k)) [
  | inl missing ↦ rw missing sound
  | inr (run, loaded) ↦ elim (Bool-cases (is_terminal run.status)) [
    | inl over ↦ rw (loaded, over) sound
    | inr live ↦ rw (loaded, live) ((transition_run-Preserves k failed _ _ _).step s sound)
  ]
]

handled-IsSound :
    {W : Type 0} (k : ℕ) (worker_id : String) (x : Result (Unit {0}) × Session × W)
    → IsSound x.1
    → IsSound (handled k worker_id x).1
unfolding here
handled-IsSound k worker_id (ok u, s, w) sound = sound
handled-IsSound k worker_id (raised e, s, w) sound = elim (Bool-cases (is_integrity_error e)) [
  | inl flush ↦ rw flush sound
  | inr usable ↦ rw usable (fail_live-IsSound k worker_id e s sound)
]

release_lease-IsSound :
    (k : ℕ) (worker_id : String) (s : Session) → IsSound s → IsSound (release_lease k worker_id s).1
unfolding release_lease journal
release_lease-IsSound k worker_id s sound = elim (Option-cases (held_lease s k worker_id)) [
  | inl missing ↦ rw (missing, release_lease) sound
  | inr (lease, held) ↦
      rw (held, release_lease) (record { history = sound.history; fresh = sound.fresh })
]

released-IsSound :
    {W : Type 0} (before : Session) (w : W) (y : Result Bool × Session)
    → IsSound before
    → IsSound y.1
    → IsSound (released before w y).1
released-IsSound before w (ok true, t) sound after = after
released-IsSound before w (ok false, t) sound after = sound
released-IsSound before w (raised e, t) sound after = sound

settle_lease-IsSound :
    {W : Type 0} (k : ℕ) (worker_id : String) (lost : Bool) (before : Session)
    (x : Result (Unit {0}) × Session × W)
    → IsSound before
    → IsSound x.1
    → IsSound (settle_lease k worker_id lost before x).1
unfolding settle_lease
settle_lease-IsSound k worker_id lost before (raised e, s, w) sound after = sound
settle_lease-IsSound k worker_id true before (ok u, s, w) sound after = sound
settle_lease-IsSound k worker_id false before (ok u, s, w) sound after =
    released-IsSound before w (release_lease k worker_id s) sound
      (release_lease-IsSound k worker_id s after)

module _ {W S D C : Type 0} (platform : Platform) (ids : RunIds) (dumps : Dumps)
    (gateway : Option (CapabilityGateway Session W S D C))
    (audits : (g : CapabilityGateway Session W S D C) → gateway ≡ some g → AuditKeeps g) where
  dispatch_role-Keeps :
      (k : ℕ) (worker_id : String) (role : AgentRole) (agents : Option (ModelAgents W S D C))
      (model_id : Option String) (o : Option (CapabilityGateway Session W S D C))
      → gateway ≡ o
      → Keeps IsSound (dispatch_role platform ids dumps k worker_id role agents model_id o)
  unfolding dispatch_role
  dispatch_role-Keeps k worker_id AgentRole.scout none model_id o e =
      not_configured-Keeps k worker_id
  dispatch_role-Keeps k worker_id AgentRole.assessor none model_id o e =
      not_configured-Keeps k worker_id
  dispatch_role-Keeps k worker_id AgentRole.ci none model_id o e = not_configured-Keeps k worker_id
  dispatch_role-Keeps k worker_id AgentRole.scout (some agents) none o e =
      not_configured-Keeps k worker_id
  dispatch_role-Keeps k worker_id AgentRole.assessor (some agents) none o e =
      not_configured-Keeps k worker_id
  dispatch_role-Keeps k worker_id AgentRole.ci (some agents) none o e =
      not_configured-Keeps k worker_id
  dispatch_role-Keeps k worker_id AgentRole.scout (some agents) (some model_id) none e =
      not_configured-Keeps k worker_id
  dispatch_role-Keeps k worker_id AgentRole.scout (some agents) (some model_id) (some g) e =
      orchestrate_scout-Keeps platform ids dumps (some g) (λ h q. audits h (e ∙ q))
        agents.scout_agent k model_id
  dispatch_role-Keeps k worker_id AgentRole.assessor (some agents) (some model_id) o e =
      orchestrate_assessor-Keeps platform ids dumps o (λ h q. audits h (e ∙ q))
        agents.assessor_agent k model_id
  dispatch_role-Keeps k worker_id AgentRole.ci (some agents) (some model_id) o e =
      orchestrate_ci-Keeps platform ids dumps o (λ h q. audits h (e ∙ q)) agents.ci_agent
        agents.dump_refusal k model_id

  dispatch_run-Keeps :
      (dependencies : WorkerDependencies W S D C) (k : ℕ) (worker_id : String)
      → gateway ≡ dependencies.capability_gateway
      → Keeps IsSound (dispatch_run platform ids dumps dependencies k worker_id)
  unfolding dispatch_run
  dispatch_run-Keeps dependencies k worker_id e =
      Keeps-bind _ _ (Keeps-here _ (Preserves-the_run k)) (λ (run : Run).
        dispatch_role-Keeps k worker_id run.role dependencies.model_gateway
          (present dependencies.model_id) dependencies.capability_gateway e)

-- Whatever the agents, GitHub and the trace service answer, and whether or not the lease is lost, the
-- worker keeps a sound session sound, each run's journal taken in the order in which its rows were
-- added, if each audit of its capability gateway does.
pub process_claimed_run-IsSound :
    {W S D C : Type 0} (platform : Platform) (ids : RunIds) (dumps : Dumps)
    (dependencies : WorkerDependencies W S D C) (k : ℕ) (worker_id : String) (lost : Bool)
    (s : Session) (w : W)
    → ((g : CapabilityGateway Session W S D C)
        → dependencies.capability_gateway ≡ some g
        → AuditKeeps g)
    → IsSound s
    → IsSound (process_claimed_run platform ids dumps dependencies k worker_id lost s w).1
unfolding process_claimed_run
process_claimed_run-IsSound platform ids dumps dependencies k worker_id lost s w audits sound =
    elim (Option-cases (Table.get s.runs k)) [
      | inl missing ↦ rw (missing, process_claimed_run) sound
      | inr (run, loaded) ↦
          rw (loaded, process_claimed_run)
            (settle_lease-IsSound k worker_id lost s
              (handled k worker_id (dispatch_run platform ids dumps dependencies k worker_id s w))
              sound
              (handled-IsSound k worker_id
                (dispatch_run platform ids dumps dependencies k worker_id s w)
                ((dispatch_run-Keeps platform ids dumps dependencies.capability_gateway audits
                    dependencies k worker_id refl).step
                  s w sound)))
    ]
