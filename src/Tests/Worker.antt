-- ===== src/Tests/Worker.antt =====
-- The worker at concrete inputs: the assessor answers for one run, without and with a capability
-- gateway.
use agentic_engineering_lab.Policy.Audit.{capability_decision}
use agentic_engineering_lab.Runs.Orchestrator.Flows.Sources.{
  capability_decision-IsSound, AuditKeeps,
}
use agentic_engineering_lab.Gateway.Capability.{CapabilityGateway, AuditEntry}
use agentic_engineering_lab.Runs.Artifacts.{store_artifact}
use agentic_engineering_lab.Runs.Worker.Settled.{
  process_claimed_run-rolled_back, process_claimed_run-IsOver,
}
use agentic_engineering_lab.Prelude.Table
use agentic_engineering_lab.Runs.Orchestrator.Completion.{IsOver}
use agentic_engineering_lab.Runs.Worker.Soundness.{process_claimed_run-IsSound}
use agentic_engineering_lab.Gateway.Redaction.{found_in, patterns, redact}
use agentic_engineering_lab.Domain.Artifact.{RiskArtifact}
use agentic_engineering_lab.Domain.Status.{may_transition, manual, leased, assessor}
use agentic_engineering_lab.Runs.Orchestrator.Flows.{Agent}
use agentic_engineering_lab.Domain.Error.{budget_exhausted_error, ok, value_error, raised, Result}
use agentic_engineering_lab.Runs.Service.Soundness.{
  create_queued_run-IsSound, transition_run-IsSound,
}
use agentic_engineering_lab.Tests.Values.{
  empty_session-IsSound, a_lease, empty_session, ascii, scout_request,
}
use agentic_engineering_lab.Runs.Service.History.{IsSound}
use agentic_engineering_lab.Database.{Run, Session}
use agentic_engineering_lab.Prelude.{
  subst, ◌∙◌, ◌∷◌, length, ap, refl, ◌+◌, ◌≡◌, true, codes, none, false, some, [], Bool, ℕ,
}
use agentic_engineering_lab.Runs.Orchestrator.Records.{Dumps, Telemetry}
use agentic_engineering_lab.Runs.Service.{transition_run, create_queued_run, journal}
use agentic_engineering_lab.Runs.Worker.{process_claimed_run, WorkerDependencies}
use agentic_engineering_lab.Runs.Orchestrator.Evidence.{RunIds}
use agentic_engineering_lab.Gateway.Capability.{
  fetch_snapshot, authorize_repository_and_sha, is_immutable_sha, refuse,
}
use agentic_engineering_lab.Domain.Error.{is_file_not_found, is_permission_error}
use agentic_engineering_lab.Policy.Audit.{outcome_of}

abbrev ids : RunIds
ids = record { show = λ k. "0"; uuid = λ text. 0 }

abbrev dumps : Dumps
dumps = record {
  terminal_error = λ e. [];
  trace_payload = λ k run call. [];
  message = λ e. "error";
}

abbrev risk : ℕ → Run → RiskArtifact
risk k run = record {
  base = record {
    schema_version = "1";
    run_id = k;
    role = run.role;
    pinned_sha = run.pinned_sha;
    created_at = 0;
    claims = [];
    unknowns = [];
    citations = [];
  };
  risk_tier = "low";
  confidence = 500000;
  likely_failure_modes = [];
  required_proof = [];
  reviewer_expertise = [];
  unavailable_signals = [];
}

abbrev silent : Telemetry ℕ
silent = record {
  last_call = none;
  last_request = none;
  last_provider_allowlist = none;
  trace_exporter = none;
  latency_ms = 5;
}

-- Each call of the world outside is counted.
abbrev answering : {A : Type 0} → (ℕ → Run → Result A) → Agent ℕ ℕ ℕ ℕ A
answering answer = record {
  system_prompt = codes "Assess.";
  run = λ k run model_id budget evidence w.
      (record { result = answer k run; tools = none; telemetry = silent }, w + 1);
  dump = λ a. [];
}

abbrev dependencies : WorkerDependencies ℕ ℕ ℕ ℕ
dependencies = record {
  model_gateway = some (record {
    scout_agent = answering (λ k run. raised (value_error "none"));
    assessor_agent = answering (λ k run. ok (risk k run));
    ci_agent = answering (λ k run. raised (budget_exhausted_error "spent"));
    dump_refusal = λ r. [];
  });
  model_id = some "model-1";
  capability_gateway = none;
}

abbrev queued_session : Session
queued_session =
    (create_queued_run (record scout_request { role = assessor }) manual "api" empty_session).1

abbrev leased_session : Session
leased_session =
    let s = (transition_run 0 leased "lease_acquired" "worker-1" [] queued_session).1 in
    record s { leases = Table.put s.leases 0 (a_lease "worker-1" 2000) }

leased_session-IsSound : IsSound leased_session
unfolding journal
leased_session-IsSound =
    let sound = transition_run-IsSound 0 leased "lease_acquired" "worker-1" [] queued_session (
      create_queued_run-IsSound (record scout_request { role = assessor }) manual "api"
        empty_session empty_session-IsSound) in
    record { history = sound.history; fresh = sound.fresh }

abbrev processed : Bool → Result Bool × Session × ℕ
processed lost = process_claimed_run ascii ids dumps dependencies 0 "worker-1" lost leased_session 0

committed : (processed false).0 ≡ ok true
unfolding process_claimed_run create_queued_run transition_run redact Table.get Table.put
    may_transition store_artifact patterns found_in mathlib.Core.Bool.xor
committed = refl

given_up : (processed true).0 ≡ ok false
unfolding process_claimed_run create_queued_run transition_run redact Table.get Table.put
    may_transition store_artifact patterns found_in mathlib.Core.Bool.xor
given_up = refl

process_claimed_run-IsOver_example :
    IsOver 0 (processed false).1 × (Table.get (processed false).1.leases 0 ≡ none)
process_claimed_run-IsOver_example =
    process_claimed_run-IsOver ascii ids dumps dependencies 0 "worker-1" false leased_session
      (processed false).1 0 (processed false).2
      (ap (λ r. (r, (processed false).1, (processed false).2)) committed)

process_claimed_run-rolled_back_example : (processed true).1 ≡ leased_session
process_claimed_run-rolled_back_example =
    process_claimed_run-rolled_back ascii ids dumps dependencies 0 "worker-1" true leased_session
      (processed true).1 0 (processed true).2
      (ap (λ r. (r, (processed true).1, (processed true).2)) given_up)

-- The same with a capability gateway that has an audit. The commit of the run, "aaaa", is not a full
-- one, so that the gateway refuses the snapshot, and tells the audit.
abbrev own_audit : AuditEntry → Session → Session
own_audit = capability_decision ids.uuid

abbrev gateway : CapabilityGateway Session ℕ ℕ ℕ ℕ
gateway = record {
  read_port = record {
    fetch_snapshot = λ repository_id sha w. (ok 0, w + 1);
    fetch_pull_request_diff = λ repository_id pull_number sha w. (ok 0, w + 1);
    fetch_check_evidence = λ repository_id check_run_id sha w. (ok 0, w + 1);
  };
  allowed_repository_ids = 7 ∷ [];
  audit_port = some own_audit;
}

abbrev audited_dependencies : WorkerDependencies ℕ ℕ ℕ ℕ
audited_dependencies = record dependencies { capability_gateway = some gateway }

gateway-AuditKeeps :
    (g : CapabilityGateway Session ℕ ℕ ℕ ℕ)
    → audited_dependencies.capability_gateway ≡ some g
    → AuditKeeps g
gateway-AuditKeeps g same audit found entry s sound =
    let this : gateway ≡ g = cc same in
    let own : some own_audit ≡ some audit =
      ap (λ (h : CapabilityGateway Session ℕ ℕ ℕ ℕ). h.audit_port) this ∙ found in
    let told : own_audit ≡ audit = cc own in
    subst (λ (f : AuditEntry → Session → Session). IsSound (f entry s)) told
      (capability_decision-IsSound ids.uuid entry s sound)

abbrev audited_run : Result Bool × Session × ℕ
audited_run =
    process_claimed_run ascii ids dumps audited_dependencies 0 "worker-1" false leased_session 0

refusal_audited : length audited_run.1.decisions ≡ 1
unfolding process_claimed_run create_queued_run transition_run redact Table.get Table.put
    may_transition store_artifact patterns found_in mathlib.Core.Bool.xor fetch_snapshot
    authorize_repository_and_sha is_immutable_sha refuse is_file_not_found is_permission_error
    capability_decision outcome_of
refusal_audited = refl

process_claimed_run-IsSound_example : IsSound audited_run.1
process_claimed_run-IsSound_example =
    process_claimed_run-IsSound ascii ids dumps audited_dependencies 0 "worker-1" false
      leased_session 0 gateway-AuditKeeps leased_session-IsSound
