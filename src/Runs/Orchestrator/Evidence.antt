-- ===== src/Runs/Orchestrator/Evidence.antt =====
-- The snapshot and the other evidence that a run's tools read, by way of the capability gateway.
use agentic_engineering_lab.Runs.Remote.{Remote, ◌>>=◌, if_available, give}
use agentic_engineering_lab.Domain.Status.{ci, role_eq}
use agentic_engineering_lab.Domain.Error.{raised, ok, Result}
use agentic_engineering_lab.Gateway.Model.{ModelBudget}
use agentic_engineering_lab.Tools.Registry.{Registry, new_registry}
use agentic_engineering_lab.Gateway.Capability.{
  fetch_check_evidence, fetch_pull_request_diff, fetch_snapshot, AuditEntry, CapabilityGateway,
}
use agentic_engineering_lab.Policy.Audit.{capability_decision}
use agentic_engineering_lab.Python.{Platform}
use agentic_engineering_lab.Database.{Session, Budget, Run}
use agentic_engineering_lab.Prelude.{
  [], codes, none, str_eq, some, ◌/◌, if◌then◌else◌, ◌*◌, is_some, ◌∷◌, Option, ℕ, String,
}

-- `show` is `str(run.id)`, and `uuid` reads that back.
pub record RunIds : Type 0 where
  pub show : ℕ → String
  pub uuid : String → ℕ

-- What the registry of a run is made with, beside its state.
pub record Evidence (S D C : Type 0) : Type 0 where
  pub snapshot : S
  pub diff_evidence : Option D
  pub check_evidence : Option C
  pub registry : Registry

-- run.budget.get(name, default): a limit in millionths, and `int` of it
unfoldable pub limit : String → ℕ → Budget → ℕ
limit name default [] = default
limit name default ((n, x) ∷ rest) = if str_eq n name then x else limit name default rest

unfoldable pub whole_limit : String → ℕ → Budget → ℕ
unfolding limit
whole_limit name default budget = limit name (default * 1000000) budget / 1000000

-- _budget; the other two flows write it out
unfoldable pub budget_of : Run → ModelBudget
unfolding whole_limit
budget_of run = record {
  max_turns = whole_limit "model_turns" 12 run.budget;
  max_tool_calls = whole_limit "tool_calls" 40 run.budget;
  max_usd = limit "usd" 3000000 run.budget;
  max_wall_seconds = whole_limit "wall_seconds" 1200 run.budget;
}

abbrev pub with_audit :
    {W S D C : Type 0}
    → (String → ℕ)
    → CapabilityGateway Session W S D C
    → Option (AuditEntry → Session → Session)
    → CapabilityGateway Session W S D C
with_audit uuid gateway (some audit) = gateway
with_audit uuid gateway none = record gateway { audit_port = some (capability_decision uuid) }

abbrev pub some_of : {W A : Type 0} → Result A × Session × W → Result (Option A) × Session × W
some_of (ok a, s, w) = (ok (some a), s, w)
some_of (raised e, s, w) = (raised e, s, w)

abbrev pub evidence_with : {S D C : Type 0} → Run → S → Option D → Option C → Evidence S D C
evidence_with run snapshot diff_evidence check_evidence = record {
  snapshot = snapshot;
  diff_evidence = diff_evidence;
  check_evidence = check_evidence;
  registry =
      new_registry run.role (whole_limit "tool_calls" 40 run.budget) (is_some diff_evidence)
        (is_some check_evidence);
}

module _ {W S D C : Type 0} (platform : Platform) (ids : RunIds) where
  -- A gateway with no audit is given the database's.
  unfoldable pub audited : CapabilityGateway Session W S D C → CapabilityGateway Session W S D C
  audited gateway = with_audit ids.uuid gateway gateway.audit_port

  -- The snapshot, if it can be had
  unfoldable pub snapshot_of : CapabilityGateway Session W S D C → ℕ → Run → Remote W (Option S)
  unfolding audited if_available
  snapshot_of gateway k run = if_available (
      fetch_snapshot platform (audited gateway) (ids.show k) run.role run.repository_id
        (codes run.pinned_sha))

  -- if run.pull_number is not None
  unfoldable pub diff_of :
      CapabilityGateway Session W S D C → ℕ → Run → Option ℕ → Remote W (Option D)
  diff_of gateway k run none s w = (ok none, s, w)
  diff_of gateway k run (some pull_number) s w = some_of (
      fetch_pull_request_diff platform (audited gateway) (ids.show k) run.role run.repository_id
        pull_number (codes run.pinned_sha) s w)

  -- if run.role is AgentRole.CI and run.check_run_id is not None
  unfoldable pub check_of :
      CapabilityGateway Session W S D C → ℕ → Run → Option ℕ → Remote W (Option C)
  check_of gateway k run none s w = (ok none, s, w)
  check_of gateway k run (some check_run_id) s w =
      if role_eq run.role ci
      then some_of (
          fetch_check_evidence platform (audited gateway) (ids.show k) run.role run.repository_id
            check_run_id (codes run.pinned_sha) s w)
      else (ok none, s, w)

  unfoldable pub evidence_of :
      CapabilityGateway Session W S D C → ℕ → Run → S → Remote W (Evidence S D C)
  unfolding diff_of check_of ◌>>=◌
  evidence_of gateway k run snapshot = do
    diff_evidence ← diff_of gateway k run run.pull_number
    check_evidence ← check_of gateway k run run.check_run_id
    give (evidence_with run snapshot diff_evidence check_evidence)

  unfoldable pub with_snapshot :
      CapabilityGateway Session W S D C → ℕ → Run → Option S → Remote W (Option (Evidence S D C))
  unfolding evidence_of if_available give
  with_snapshot gateway k run none = give none
  with_snapshot gateway k run (some snapshot) = if_available (evidence_of gateway k run snapshot)

  -- _snapshot_tools, with a gateway
  unfoldable pub snapshot_tools :
      CapabilityGateway Session W S D C → ℕ → Run → Remote W (Option (Evidence S D C))
  unfolding snapshot_of with_snapshot ◌>>=◌
  snapshot_tools gateway k run = do
    snapshot ← snapshot_of gateway k run
    with_snapshot gateway k run snapshot

  -- The scout's evidence: the snapshot only
  unfoldable pub scout_tools :
      CapabilityGateway Session W S D C → ℕ → Run → Remote W (Option (Evidence S D C))
  unfolding snapshot_of ◌>>=◌
  scout_tools gateway k run = do snapshot ← snapshot_of gateway k run; give (of_snapshot snapshot)
    where
      of_snapshot : Option S → Option (Evidence S D C)
      of_snapshot none = none
      of_snapshot (some snapshot) = some (evidence_with run snapshot none none)
