-- ===== src/Runs/CiPush/Soundness.antt =====
-- The flow against the journal of transitions.
use agentic_engineering_lab.Runs.Service.Soundness.{transition_run-Preserves}
use agentic_engineering_lab.Runs.CiPush.{
  write_patch, after_precheck, PushRequest, precheck_pull, settle, precheck_branch, precheck,
  push_validated_patch, without_branch, enter_push,
}
use agentic_engineering_lab.Policy.PushGate.{PushContext, evaluate_push_gate}
use agentic_engineering_lab.Domain.Error.{permission_error, raised, ok, Result}
use agentic_engineering_lab.Gateway.Github.{
  is_allow, ValidatedPatchRequest, run_audit, after_write, after_head, apply_validated_patch,
  GitHubBranchWriter,
}
use agentic_engineering_lab.Runs.Service.History.{IsSound}
use agentic_engineering_lab.Database.Preserves.{Preserves-if, continue-step, preserving, Preserves}
use agentic_engineering_lab.Database.{Run, Session}
use agentic_engineering_lab.Runs.Artifacts.{is_same_artifact, rows_of, store_artifact}
use agentic_engineering_lab.Policy.Patch.{PolicyResult, PatchPolicy}
use agentic_engineering_lab.Prelude.{
  none, Option, str_eq, some, inr, arith, inl, is_empty, Bool-cases, String, ℕ, Text,
}
use agentic_engineering_lab.Domain.Artifact.{ArtifactBase, PatchArtifact}
use agentic_engineering_lab.Runs.Service.{journal}
use agentic_engineering_lab.Policy.Audit.{record_decision}
use agentic_engineering_lab.Python.{Platform}

module _ {κ} {S W : Type 0} (P : S → Type κ) (writer : GitHubBranchWriter W)
    (audit : String → PolicyResult → S → S)
    (kept : (name : String) (result : PolicyResult) (s : S) → P s → P (audit name result s)) where
  after_write-kept :
      (decision : PolicyResult) (s : S) (x : Result String × W)
      → P s
      → P (after_write writer (some audit) decision s x).1
  unfolding after_write run_audit
  after_write-kept decision s (ok c, w) p = kept "ci_github_write" decision s p
  after_write-kept decision s (raised e, w) p = p

  after_head-kept :
      (request : ValidatedPatchRequest) (decision : PolicyResult) (s : S) (x : Result String × W)
      → P s
      → P (after_head writer (some audit) request decision s x).1
  unfolding after_head run_audit
  after_head-kept request decision s (raised e, w) p = p
  after_head-kept request decision s (ok head, w) p =
      elim (Bool-cases (str_eq head request.context.pinned_sha)) [
        | inl same ↦ rw same (after_write-kept decision s _ p)
        | inr stale ↦ rw stale (kept "ci_exact_sha_recheck" _ s p)
      ]

  -- What every audit entry keeps, a guarded write keeps.
  pub apply_validated_patch-kept :
      (platform : Platform) (request : ValidatedPatchRequest) (policy : PatchPolicy) (now : ℕ)
      (s : S) (w : W)
      → P s
      → P (apply_validated_patch writer (some audit) platform request policy now s w).1
  unfolding apply_validated_patch run_audit
  apply_validated_patch-kept platform request policy now s w p =
      elim (Bool-cases
        (is_allow (evaluate_push_gate platform request.context policy now).outcome)) [
          | inl allowed ↦ rw allowed (after_head-kept request _ _ _ (kept "ci_push_gate" _ s p))
          | inr denied ↦ rw denied (kept "ci_push_gate" _ s p)
        ]

pub record_decision-IsSound :
    (run_id : ℕ) (name : String) (result : PolicyResult) (s : Session)
    → IsSound s
    → IsSound (record_decision run_id name result s)
unfolding record_decision journal
record_decision-IsSound run_id name result s sound = record {
  history = sound.history;
  fresh = sound.fresh;
}

pub store_artifact-Preserves :
    (platform : Platform) (artifact : ArtifactBase) (serialized : Text) (kind state : String)
    → Preserves IsSound (store_artifact platform artifact serialized kind state)
unfolding store_artifact journal
store_artifact-Preserves platform artifact serialized kind state = record {
  step = λ s sound.
      elim (Bool-cases (is_empty (rows_of (is_same_artifact artifact.run_id kind) s.artifacts))) [
        | inl new ↦
            rw new (record { history = sound.history; fresh = λ k h. sound.fresh k (omega arith) })
        | inr old ↦ rw old sound
      ];
}

module _ (platform : Platform) (dump : PatchArtifact → Text) (policy : PatchPolicy) where
  enter_push-Preserves :
      (run_id : ℕ) (run : Run) (request : PushRequest) (context : PushContext)
      (decision : PolicyResult)
      → Preserves IsSound (enter_push platform dump policy run_id run request context decision)
  unfolding enter_push
  enter_push-Preserves run_id run request context decision =
      search (preserving, transition_run-Preserves)

  precheck_pull-Preserves :
      (run_id : ℕ) (run : Run) (pull_number : ℕ) (request : PushRequest)
      → Preserves IsSound (precheck_pull platform dump policy run_id run pull_number request)
  unfolding precheck_pull
  precheck_pull-Preserves run_id run pull_number request = record {
    step = λ s sound.
        continue-step
          (store_artifact platform request.artifact.base (dump request.artifact) "patch" "clean"
            _).0
          _ (λ key. enter_push-Preserves run_id run request _ _) _
          ((store_artifact-Preserves platform request.artifact.base (dump request.artifact) "patch"
              "clean").step
            _ (record_decision-IsSound run_id "ci_push_precheck" _ s sound));
  }

  without_branch-Preserves :
      (run_id : ℕ) (actor : String)
      → Preserves IsSound (without_branch platform dump policy run_id actor)
  unfolding without_branch
  without_branch-Preserves run_id actor = search (preserving, transition_run-Preserves)

  precheck_branch-Preserves :
      (run_id : ℕ) (run : Run) (o : Option ℕ) (request : PushRequest)
      → Preserves IsSound (precheck_branch platform dump policy run_id run o request)
  unfolding precheck_branch
  precheck_branch-Preserves run_id run none request = without_branch-Preserves run_id request.actor
  precheck_branch-Preserves run_id run (some pull_number) request =
      Preserves-if (is_empty request.branch) _ _ (without_branch-Preserves run_id request.actor)
        (precheck_pull-Preserves run_id run pull_number request)

  precheck-Preserves :
      (run_id : ℕ) (request : PushRequest)
      → Preserves IsSound (precheck platform dump policy run_id request)
  unfolding precheck
  precheck-Preserves run_id request = search (preserving, precheck_branch-Preserves)

  settle-Preserves :
      (run_id : ℕ) (actor : String) (result : Result String)
      → Preserves IsSound (settle platform dump policy run_id actor result)
  unfolding settle
  settle-Preserves run_id actor (ok commit_sha) = search (preserving, transition_run-Preserves)
  settle-Preserves run_id actor (raised (permission_error message)) =
      search (preserving, transition_run-Preserves)
  settle-Preserves run_id actor (raised e) = search preserving

  -- Whatever the writer answers, and whether it returns or raises, the flow keeps a sound session
  -- sound, each run's journal taken in the order in which its rows were added.
  pub push_validated_patch-IsSound :
      {W : Type 0} (writer : GitHubBranchWriter W) (run_id : ℕ) (request : PushRequest)
      (s : Session) (w : W)
      → IsSound s
      → IsSound (push_validated_patch platform dump policy writer run_id request s w).1
  unfolding push_validated_patch after_precheck write_patch
  push_validated_patch-IsSound writer run_id request s w sound =
      settled (precheck platform dump policy run_id request s)
        ((precheck-Preserves run_id request).step s sound)
    where
      settled :
          (x : Result (Option ValidatedPatchRequest) × Session)
          → IsSound x.1
          → IsSound (after_precheck platform dump policy writer run_id request.actor x w).1
      settled (raised e, t) p = p
      settled (ok none, t) p = p
      settled (ok (some sent), t) p = (settle-Preserves run_id request.actor _).step _ (
          apply_validated_patch-kept IsSound writer (record_decision run_id)
            (record_decision-IsSound run_id) platform sent policy t.clock t w p)
