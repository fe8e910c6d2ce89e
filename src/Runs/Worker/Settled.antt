-- ===== src/Runs/Worker/Settled.antt =====
-- What the worker leaves of a claimed run.
use agentic_engineering_lab.Prelude.Table.{get-remove}
use agentic_engineering_lab.Runs.Orchestrator.Flows.Completion.{
  orchestrate_ci-Ends, orchestrate_assessor-Ends, orchestrate_scout-Ends,
}
use agentic_engineering_lab.Gateway.Capability.{CapabilityGateway}
use agentic_engineering_lab.Prelude.Table
use agentic_engineering_lab.Runs.Remote.Rules.{Ends-bind, Ends-here}
use agentic_engineering_lab.Runs.Orchestrator.Completion.{transition_run-Finishes, Finishes, IsOver}
use agentic_engineering_lab.Database.{Run, Session}
use agentic_engineering_lab.Domain.Error.{is_integrity_error, raised, Result, ok, Exception}
use agentic_engineering_lab.Runs.Orchestrator.Records.{Dumps}
use agentic_engineering_lab.Domain.Status.{failed, AgentRole, is_terminal}
use agentic_engineering_lab.Prelude.{
  ◌∙◌, sym, ap, false, Bool, ==_refl, Bool-cases, subst, refl, inr, some, inl, none, true, Option,
  Option-cases, ◌≡◌, String, ℕ,
}
use agentic_engineering_lab.Runs.Orchestrator.Evidence.{RunIds}
use agentic_engineering_lab.Python.{Platform}
use agentic_engineering_lab.Runs.Worker.{
  released, process_claimed_run, handled, settle_lease, ModelAgents, present, WorkerDependencies,
  not_configured, dispatch_run, dispatch_role, fail_live,
}
use agentic_engineering_lab.Runs.Leases.{held_lease, release_lease}
use agentic_engineering_lab.Runs.Remote.{Ends, here}

not_configured-Ends :
    {W : Type 0} (k : ℕ) (worker_id : String) → Ends (IsOver k) (not_configured {W = W} k worker_id)
unfolding not_configured is_terminal
not_configured-Ends k worker_id = Ends-here _ (transition_run-Finishes k failed _ _ _ refl)

module _ {W S D C : Type 0} (platform : Platform) (ids : RunIds) (dumps : Dumps) where
  dispatch_role-Ends :
      (k : ℕ) (worker_id : String) (role : AgentRole) (agents : Option (ModelAgents W S D C))
      (model_id : Option String) (gateway : Option (CapabilityGateway Session W S D C))
      → Ends (IsOver k) (dispatch_role platform ids dumps k worker_id role agents model_id gateway)
  unfolding dispatch_role
  dispatch_role-Ends k worker_id role none model_id gateway = unconfigured role model_id gateway
    where
      unconfigured :
          (role : AgentRole) (model_id : Option String)
          (gateway : Option (CapabilityGateway Session W S D C))
          → Ends
              (IsOver k)
              (dispatch_role platform ids dumps k worker_id role none model_id gateway)
      unconfigured AgentRole.scout m g = not_configured-Ends k worker_id
      unconfigured AgentRole.assessor m g = not_configured-Ends k worker_id
      unconfigured AgentRole.ci m g = not_configured-Ends k worker_id
  dispatch_role-Ends k worker_id AgentRole.scout (some agents) none gateway =
      not_configured-Ends k worker_id
  dispatch_role-Ends k worker_id AgentRole.assessor (some agents) none gateway =
      not_configured-Ends k worker_id
  dispatch_role-Ends k worker_id AgentRole.ci (some agents) none gateway =
      not_configured-Ends k worker_id
  dispatch_role-Ends k worker_id AgentRole.scout (some agents) (some model_id) none =
      not_configured-Ends k worker_id
  dispatch_role-Ends k worker_id AgentRole.scout (some agents) (some model_id) (some gateway) =
      orchestrate_scout-Ends platform ids dumps agents.scout_agent k model_id (some gateway)
  dispatch_role-Ends k worker_id AgentRole.assessor (some agents) (some model_id) gateway =
      orchestrate_assessor-Ends platform ids dumps agents.assessor_agent k model_id gateway
  dispatch_role-Ends k worker_id AgentRole.ci (some agents) (some model_id) gateway =
      orchestrate_ci-Ends platform ids dumps agents.ci_agent agents.dump_refusal k model_id gateway

  dispatch_run-Ends :
      (dependencies : WorkerDependencies W S D C) (k : ℕ) (worker_id : String)
      → Ends (IsOver k) (dispatch_run platform ids dumps dependencies k worker_id)
  unfolding dispatch_run
  dispatch_run-Ends dependencies k worker_id = Ends-bind _ _ (λ (run : Run).
      dispatch_role-Ends k worker_id run.role dependencies.model_gateway
        (present dependencies.model_id) dependencies.capability_gateway)

fail_live-Finishes :
    (k : ℕ) (worker_id : String) (e : Exception) → Finishes k (fail_live k worker_id e)
unfolding fail_live is_terminal
fail_live-Finishes k worker_id e s t a h = elim (Option-cases (Table.get s.runs k)) [
  | inl missing ↦ absurd (cc (rw missing at h))
  | inr (run, loaded) ↦ elim (Bool-cases (is_terminal run.status)) [
    | inl over ↦
        let same : s ≡ t = cc (rw (loaded, over) at h) in subst (IsOver k) same (run, loaded, over)
    | inr live ↦ transition_run-Finishes k failed _ _ _ refl s t a (rw (loaded, live) at h)
  ]
]

handled-Ends :
    {W : Type 0} (k : ℕ) (worker_id : String) (x : Result (Unit {0}) × Session × W) (t : Session)
    (v : W)
    → ((u : Unit {0}) → x.0 ≡ ok u → IsOver k x.1)
    → handled k worker_id x ≡ (ok tt, t, v)
    → IsOver k t
unfolding here
handled-Ends k worker_id (ok u, s, w) t v over h =
    let same : s ≡ t = cc h in subst (IsOver k) same (over u refl)
handled-Ends k worker_id (raised e, s, w) t v over h = elim (Bool-cases (is_integrity_error e)) [
  | inl flush ↦ absurd (cc (rw flush at h))
  | inr usable ↦ fail_live-Finishes k worker_id e s t tt (cc (rw usable at h))
]

-- A released lease is gone, and the runs are as they were.
release_lease-gone :
    (k : ℕ) (worker_id : String) (s t : Session)
    → release_lease k worker_id s ≡ (ok true, t)
    → (t.runs ≡ s.runs) × (Table.get t.leases k ≡ none)
unfolding release_lease
release_lease-gone k worker_id s t h = elim (Option-cases (held_lease s k worker_id)) [
  | inl missing ↦ absurd (cc (rw (missing, release_lease) at h))
  | inr (lease, held) ↦
      let same : record s { leases = Table.remove s.leases k } ≡ t =
        cc (rw (held, release_lease) at h) in
      (
        subst (λ (u : Session). u.runs ≡ s.runs) same refl,
        subst (λ (u : Session). Table.get u.leases k ≡ none) same (rw (get-remove, ==_refl k) refl),
      )
]

released-committed :
    {W : Type 0} (before t : Session) (w v : W) (y : Result Bool × Session)
    → released before w y ≡ (ok true, t, v)
    → y ≡ (ok true, t)
released-committed before t w v (ok true, u) h = cc h
released-committed before t w v (ok false, u) h = absurd (cc h)
released-committed before t w v (raised e, u) h = absurd (cc h)

released-rolled_back :
    {W : Type 0} (before t : Session) (w v : W) (y : Result Bool × Session)
    → released before w y ≡ (ok false, t, v)
    → t ≡ before
released-rolled_back before t w v (ok true, u) h = absurd (cc h)
released-rolled_back before t w v (ok false, u) h = cc h
released-rolled_back before t w v (raised e, u) h = absurd (cc h)

settle_lease-committed :
    {W : Type 0} (k : ℕ) (worker_id : String) (lost : Bool) (before t : Session) (v : W)
    (x : Result (Unit {0}) × Session × W)
    → (x.0 ≡ ok tt → IsOver k x.1)
    → settle_lease k worker_id lost before x ≡ (ok true, t, v)
    → IsOver k t × (Table.get t.leases k ≡ none)
unfolding settle_lease
settle_lease-committed k worker_id lost before t v (raised e, s, w) over h = absurd (cc h)
settle_lease-committed k worker_id true before t v (ok u, s, w) over h = absurd (cc h)
settle_lease-committed k worker_id false before t v (ok u, s, w) over h =
    let (runs, gone) =
      release_lease-gone k worker_id s t
        (released-committed before t w v (release_lease k worker_id s) h) in
    let (run, loaded, ended) = over refl in
    ((run, ap (λ rs. Table.get rs k) runs ∙ loaded, ended), gone)

settle_lease-rolled_back :
    {W : Type 0} (k : ℕ) (worker_id : String) (lost : Bool) (before t : Session) (v : W)
    (x : Result (Unit {0}) × Session × W)
    → settle_lease k worker_id lost before x ≡ (ok false, t, v)
    → t ≡ before
unfolding settle_lease
settle_lease-rolled_back k worker_id lost before t v (raised e, s, w) h = absurd (cc h)
settle_lease-rolled_back k worker_id true before t v (ok u, s, w) h = cc h
settle_lease-rolled_back k worker_id false before t v (ok u, s, w) h =
    released-rolled_back before t w v (release_lease k worker_id s) h

module _ {W S D C : Type 0} (platform : Platform) (ids : RunIds) (dumps : Dumps)
    (dependencies : WorkerDependencies W S D C) (k : ℕ) (worker_id : String) (lost : Bool)
    (s t : Session) (w v : W) where
  dispatched-IsOver :
      (x : Result (Unit {0}) × Session × W)
      → x ≡ handled k worker_id (dispatch_run platform ids dumps dependencies k worker_id s w)
      → x.0 ≡ ok tt
      → IsOver k x.1
  dispatched-IsOver (raised e, u, w') same h = absurd (cc h)
  dispatched-IsOver (ok tt, u, w') same h =
      handled-Ends k worker_id (dispatch_run platform ids dumps dependencies k worker_id s w) u w'
        (λ z e. (dispatch_run-Ends platform ids dumps dependencies k worker_id).step s _ w _ z (
          ap
            (λ (r : Result (Unit {0})). (
              r,
              (dispatch_run platform ids dumps dependencies k worker_id s w).1,
              (dispatch_run platform ids dumps dependencies k worker_id s w).2,
            ))
            e))
        (sym same)

  -- If the worker commits a claimed run, which is what `True` says, then the run has a terminal status
  -- and its lease is gone, whatever the agents and the world outside have answered.
  pub process_claimed_run-IsOver :
      process_claimed_run platform ids dumps dependencies k worker_id lost s w ≡ (ok true, t, v)
      → IsOver k t × (Table.get t.leases k ≡ none)
  unfolding process_claimed_run
  process_claimed_run-IsOver h = elim (Option-cases (Table.get s.runs k)) [
    | inl missing ↦ absurd (cc (rw (missing, process_claimed_run) at h))
    | inr (run, loaded) ↦
        settle_lease-committed k worker_id lost s t v
          (handled k worker_id (dispatch_run platform ids dumps dependencies k worker_id s w))
          (dispatched-IsOver _ refl) (rw (loaded, process_claimed_run) at h)
  ]

  -- If the worker gives a claimed run up, which is what `False` says, then the session is as it was
  -- before.
  pub process_claimed_run-rolled_back :
      process_claimed_run platform ids dumps dependencies k worker_id lost s w ≡ (ok false, t, v)
      → t ≡ s
  unfolding process_claimed_run
  process_claimed_run-rolled_back h = elim (Option-cases (Table.get s.runs k)) [
    | inl missing ↦ let same : s ≡ t = cc (rw (missing, process_claimed_run) at h) in sym same
    | inr (run, loaded) ↦
        settle_lease-rolled_back k worker_id lost s t v
          (handled k worker_id (dispatch_run platform ids dumps dependencies k worker_id s w))
          (rw (loaded, process_claimed_run) at h)
  ]
