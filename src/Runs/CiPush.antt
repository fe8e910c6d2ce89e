-- ===== src/Runs/CiPush.antt =====
-- src/agentic_lab/runs/ci_push.py: the only flow that writes to a repository.
pub mod Guarded
pub mod Soundness
use agentic_engineering_lab.Prelude.Table
use agentic_engineering_lab.Policy.Audit.{record_decision}
use agentic_engineering_lab.Runs.Service.{transition_run}
use agentic_engineering_lab.Domain.Error.{value_error, permission_error, ok, raised, Result}
use agentic_engineering_lab.Runs.Artifacts.{store_artifact, is_same_artifact, rows_of}
use agentic_engineering_lab.Gateway.Github.{
  ValidatedPatchRequest, apply_validated_patch, GitHubBranchWriter, is_allow,
}
use agentic_engineering_lab.Policy.PushGate.{evaluate_push_gate, PushContext}
use agentic_engineering_lab.Policy.Patch.{PolicyResult, PatchPolicy}
use agentic_engineering_lab.Domain.Status.{
  evaluating, pushing, status_eq, ready_to_push, deny, ci, succeeded, role_eq, refused, superseded,
  RunStatus,
}
use agentic_engineering_lab.Database.{
  text, raise, time, pure, raise_when, modify, gets, ◌>>◌, the_run, Tx, ◌>>=◌, PullRequestOptIn,
  Session, Run,
}
use agentic_engineering_lab.Domain.Artifact.{PatchArtifact}
use agentic_engineering_lab.Prelude.{
  ◌||◌, same_texts, ◌==◌, ◌&&◌, [], ◌∷◌, not, is_empty, none, some, str_eq, Option, if◌then◌else◌,
  Bool, length, List, Text, ℕ, String,
}
use agentic_engineering_lab.Python.{Platform}

-- What the caller hands in beside the session, the run and the writer.
pub record PushRequest : Type 0 where
  pub artifact : PatchArtifact
  pub branch : Text
  pub observed_head_sha : String
  pub same_repository_branch : Bool
  pub reproduction_passed : Bool
  pub validation_passed : Bool
  pub failure_class : String
  pub actor : String

-- session.get(PullRequestOptIn, (repository_id, pull_number))
unfoldable pub opt_in_expiry : ℕ → ℕ → List PullRequestOptIn → Option ℕ
opt_in_expiry repository_id pull_number [] = none
opt_in_expiry repository_id pull_number (o ∷ rest) =
    let later = opt_in_expiry repository_id pull_number rest in
    if o.repository_id == repository_id && o.pull_number == pull_number
    then some o.expires_at
    else later

-- select(func.count(Artifact.id)).where(...)
unfoldable pub prior_attempts : ℕ → Session → ℕ
prior_attempts run_id s = length (rows_of (is_same_artifact run_id "patch") s.artifacts)

unfoldable pub push_context : ℕ → Run → ℕ → PushRequest → Session → PushContext
push_context run_id run pull_number request s = record {
  run_id = run_id;
  pinned_sha = run.pinned_sha;
  observed_head_sha = request.observed_head_sha;
  patch_base_sha = request.artifact.base_sha;
  opt_in_expires_at = opt_in_expiry run.repository_id pull_number s.opt_ins;
  same_repository_branch = request.same_repository_branch;
  reproduction_passed = request.reproduction_passed;
  validation_passed = request.validation_passed;
  failure_class = request.failure_class;
  attempt_count = prior_attempts run_id s;
  diff = request.artifact.unified_diff;
}

-- The status in which a denied patch leaves its run.
unfoldable pub denied_status : String → RunStatus
denied_status reason = if str_eq reason "stale_head_sha" then superseded else refused

-- `dump` is `model_dump_json` of pydantic.
module _ (platform : Platform) (dump : PatchArtifact → Text) (patch_policy : PatchPolicy) where
  -- The gate's decision, denied if the artifact claims other paths than its diff has.
  unfoldable pub precheck_decision : PushContext → List Text → ℕ → PolicyResult
  unfolding is_allow
  precheck_decision context claimed_paths now =
      let decision = evaluate_push_gate platform context patch_policy now in
      if is_allow decision.outcome && not (same_texts decision.changed_paths claimed_paths)
      then record decision { outcome = deny; reason_code = "changed_paths_mismatch" }
      else decision

  -- From the decision to the status in which the write is tried, and the request to the writer: none
  -- if the flow ends here. A run's repository never changes.
  unfoldable pub enter_push :
      ℕ → Run → PushRequest → PushContext → PolicyResult → Tx (Option ValidatedPatchRequest)
  unfolding is_allow
  enter_push run_id run request context decision =
      if not (is_allow decision.outcome)
      then (do
        transition_run run_id (denied_status decision.reason_code) decision.reason_code
            request.actor []
        pure none)
      else (do
        transition_run run_id ready_to_push "ci_push_precheck_passed" request.actor []
        transition_run run_id pushing "ci_exact_sha_recheck_started" request.actor []
        pure (
            some (record {
              repository_id = run.repository_id;
              branch = request.branch;
              context = context;
            })))

  unfoldable pub precheck_pull : ℕ → Run → ℕ → PushRequest → Tx (Option ValidatedPatchRequest)
  unfolding ◌>>=◌ precheck_decision
  precheck_pull run_id run pull_number request = do
    context ← gets (push_context run_id run pull_number request)
    now ← gets (λ s. s.clock)
    let decision = precheck_decision context request.artifact.changed_paths now
    modify (record_decision run_id "ci_push_precheck" decision)
    store_artifact platform request.artifact.base (dump request.artifact) "patch" "clean"
    enter_push run_id run request context decision

  unfoldable pub without_branch : ℕ → String → Tx (Option ValidatedPatchRequest)
  without_branch run_id actor = do
    transition_run run_id refused "missing_pull_request_branch" actor []
    pure none

  unfoldable pub precheck_branch :
      ℕ → Run → Option ℕ → PushRequest → Tx (Option ValidatedPatchRequest)
  precheck_branch run_id run none request = without_branch run_id request.actor
  precheck_branch run_id run (some pull_number) request =
      if is_empty request.branch
      then without_branch run_id request.actor
      else precheck_pull run_id run pull_number request

  -- Up to the write.
  unfoldable pub precheck : ℕ → PushRequest → Tx (Option ValidatedPatchRequest)
  unfolding ◌>>=◌
  precheck run_id request = do
    run ← the_run run_id
    raise_when (not (role_eq run.role ci) || not (status_eq run.status evaluating))
        (value_error "only evaluating CI runs can enter the push gate")
    raise_when
        (not (request.artifact.base.run_id == run_id)
          || not (str_eq request.artifact.base.pinned_sha run.pinned_sha))
        (value_error "patch artifact identity does not match the durable run")
    precheck_branch run_id run run.pull_number request

  -- Behind the write: `PermissionError` is caught, any other exception passes.
  unfoldable pub settle : ℕ → String → Result String → Tx (Option String)
  unfolding ◌>>=◌
  settle run_id actor (ok commit_sha) = do
    now ← gets (λ s. s.clock)
    transition_run run_id succeeded "validated_patch_pushed" actor
        (("commit_sha", text commit_sha) ∷ ("pushed_at", time now) ∷ [])
    pure (some commit_sha)
  settle run_id actor (raised (permission_error message)) = do
    transition_run run_id refused message actor []
    pure none
  settle run_id actor (raised e) = raise e

  module _ {W : Type 0} (writer : GitHubBranchWriter W) where
    unfoldable pub write_patch :
        ℕ → String → ValidatedPatchRequest → Session → W → Result (Option String) × Session × W
    unfolding settle
    write_patch run_id actor request s w =
        let (result, s', w') =
          apply_validated_patch writer (some (record_decision run_id)) platform request patch_policy
            s.clock s w in
        let (r, s'') = settle run_id actor result s' in (r, s'', w')

    unfoldable pub after_precheck :
        ℕ
        → String
        → Result (Option ValidatedPatchRequest) × Session
        → W
        → Result (Option String) × Session × W
    after_precheck run_id actor (raised e, s) w = (raised e, s, w)
    after_precheck run_id actor (ok none, s) w = (ok none, s, w)
    after_precheck run_id actor (ok (some request), s) w = write_patch run_id actor request s w

    unfoldable pub push_validated_patch :
        ℕ → PushRequest → Session → W → Result (Option String) × Session × W
    unfolding after_precheck precheck
    push_validated_patch run_id request s w =
        after_precheck run_id request.actor (precheck run_id request s) w
