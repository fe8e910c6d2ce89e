-- ===== src/Runs/Orchestrator/Steps.antt =====
-- The steps of the flows that work on the session alone.
use agentic_engineering_lab.Prelude.Table
use agentic_engineering_lab.Runs.Artifacts.{store_artifact}
use agentic_engineering_lab.Runs.Service.{transition_run}
use agentic_engineering_lab.Domain.Artifact.{
  ScoutArtifact, RiskArtifact, RefusalArtifact, CiDiagnosisArtifact, ArtifactBase,
}
use agentic_engineering_lab.Domain.Status.{
  running, snapshotting, leased, status_eq, evaluating, ci, succeeded, role_eq, failed, refused,
  budget_exhausted, RunStatus, AgentRole,
}
use agentic_engineering_lab.Domain.Error.{
  value_error, class_name, is_value_error, model_gateway_error, budget_exhausted_error, Exception,
}
use agentic_engineering_lab.Prelude.{
  none, ◌||◌, str_eq, [], some, str_append, false, not, codes, Option, if◌then◌else◌, Bool, Text,
  String, ℕ,
}
use agentic_engineering_lab.Runs.Orchestrator.Records.{
  pin_model_configuration, terminal_error, Dumps,
}
use agentic_engineering_lab.Python.{Platform}
use agentic_engineering_lab.Agents.Ci.{requires_refusal, build_refusal, classify_failure}
use agentic_engineering_lab.Database.{
  pure, lift, raise_when, Artifact, the_run, Run, gets, Tx, ◌>>=◌, ◌>>◌,
}

-- How an exception of an agent ends its run: the code, the text, and the status.
abbrev pub ending : Dumps → String → Exception → String × String × RunStatus
ending dumps invalid_code (budget_exhausted_error message) =
    ("budget_exhausted", message, budget_exhausted)
ending dumps invalid_code (model_gateway_error message) = ("model_gateway_failure", message, failed)
ending dumps invalid_code e =
    if is_value_error e
    then (invalid_code, dumps.message e, refused)
    else ("model_gateway_failure", class_name e, failed)

module _ (platform : Platform) (dumps : Dumps) where
  -- Up to the status in which evidence is read. The row is given back as it was loaded.
  unfoldable pub begin : ℕ → AgentRole → String → Text → String → String → Tx Run
  unfolding pin_model_configuration
  begin k role message system_prompt model_id reason = do
    run ← the_run k
    raise_when (not (role_eq run.role role) || not (status_eq run.status leased))
        (value_error message)
    pin_model_configuration platform k system_prompt model_id
    transition_run k snapshotting reason "worker" []
    pure run

  -- _record_terminal_error
  unfoldable pub record_terminal_error : ℕ → String → String → RunStatus → Tx (Unit {0})
  unfolding terminal_error
  record_terminal_error k code message status = do
    run ← the_run k
    now ← gets (λ s. s.clock)
    let error = terminal_error platform k run code (codes message) now
    store_artifact platform error.base (dumps.terminal_error error) "terminal_error" "clean"
    transition_run k status code "worker" []

  -- An artifact is stored, and whether it was blocked is given.
  unfoldable pub store_output : ℕ → String → ArtifactBase → Text → String → Tx Bool
  store_output k validated base dumped kind = do
    transition_run k evaluating validated "worker" []
    key ← store_artifact platform base dumped kind "clean"
    gets (λ s. is_blocked (Table.get s.artifacts key))
    where
      is_blocked : Option Artifact → Bool
      is_blocked none = false
      is_blocked (some row) = str_eq row.redaction_state "blocked"

  -- The scout and the assessor end alike.
  unfoldable pub conclude : ℕ → String → Bool → Tx (Unit {0})
  conclude k stored blocked =
      if blocked
      then transition_run k refused "artifact_secret_detection" "worker" []
      else transition_run k succeeded stored "worker" []

  -- The refusal that is stored beside a diagnosis
  unfoldable pub refuse_diagnosis :
      ℕ → CiDiagnosisArtifact → (RefusalArtifact → Text) → Tx (Unit {0})
  unfolding build_refusal
  refuse_diagnosis k artifact dump_refusal = do
    now ← gets (λ s. s.clock)
    refusal ← lift (
        build_refusal artifact "failure is not safely attributable to repository source"
          "resolve the external precondition and rerun the check" now)
    store_artifact platform refusal.base (dump_refusal refusal) "refusal" "clean"
    transition_run k refused (str_append "ci_" (str_append artifact.failure_class "_failure"))
        "worker" []

  unfoldable pub conclude_diagnosis :
      ℕ → CiDiagnosisArtifact → (RefusalArtifact → Text) → Bool → Tx (Unit {0})
  unfolding refuse_diagnosis
  conclude_diagnosis k artifact dump_refusal blocked =
      if blocked
      then transition_run k refused "artifact_secret_detection" "worker" []
      else if requires_refusal artifact
      then refuse_diagnosis k artifact dump_refusal
      else if artifact.patch_proposed
      then transition_run k refused "ci_patch_requires_deterministic_executor_evidence" "worker" []
      else transition_run k succeeded "ci_diagnosis_stored" "worker" []

  -- What each flow does with the artifact of its agent, which is dated anew.
  unfoldable pub store_scout : ℕ → (ScoutArtifact → Text) → ScoutArtifact → Tx (Unit {0})
  unfolding conclude store_output
  store_scout k dump artifact = do
    now ← gets (λ s. s.clock)
    let dated = record artifact { base = record artifact.base { created_at = now } }
    blocked ← store_output k "scout_output_validated" dated.base (dump dated) "scout"
    conclude k "scout_artifact_stored" blocked

  unfoldable pub store_risk : ℕ → (RiskArtifact → Text) → RiskArtifact → Tx (Unit {0})
  unfolding conclude store_output
  store_risk k dump artifact = do
    now ← gets (λ s. s.clock)
    let dated = record artifact { base = record artifact.base { created_at = now } }
    blocked ← store_output k "risk_output_validated" dated.base (dump dated) "risk"
    conclude k "risk_artifact_stored" blocked

  unfoldable pub store_diagnosis :
      ℕ
      → (RefusalArtifact → Text)
      → (CiDiagnosisArtifact → Text)
      → CiDiagnosisArtifact
      → Tx (Unit {0})
  unfolding conclude_diagnosis store_output
  store_diagnosis k dump_refusal dump artifact = do
    now ← gets (λ s. s.clock)
    let dated = record artifact { base = record artifact.base { created_at = now } }
    blocked ← store_output k "ci_diagnosis_validated" dated.base (dump dated) "ci_diagnosis"
    conclude_diagnosis k dated dump_refusal blocked

-- refuse_ci_failure; the log is redacted
unfoldable pub refuse_ci_failure : Platform → ℕ → Text → Tx (Unit {0})
unfolding classify_failure
refuse_ci_failure platform k redacted_log = do
  run ← the_run k
  raise_when (not (role_eq run.role ci) || not (status_eq run.status leased))
      (value_error "only leased CI runs can be diagnosed")
  transition_run k snapshotting "check_log_loaded" "worker" []
  on_class (classify_failure platform redacted_log)
  where
    on_class : String → Tx (Unit {0})
    on_class failure_class =
        if not (str_eq failure_class "repository")
        then transition_run k refused (str_append "ci_" (str_append failure_class "_failure"))
            "worker" []
        else transition_run k running "ci_repository_failure" "worker" []
