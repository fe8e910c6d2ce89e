-- ===== src/Gateway/Github.antt =====
-- src/agentic_lab/gateway/github.py: the one way to write to a branch. `GitHubBranchWriter` is the
-- port that the adapter for the GitHub API implements: here over any state of the remote side.
pub mod Guarded
use agentic_engineering_lab.Policy.PushGate.{evaluate_push_gate, PushContext}
use agentic_engineering_lab.Domain.Error.{permission_error, ok, raised, Result}
use agentic_engineering_lab.Policy.Patch.{PatchPolicy, PolicyResult}
use agentic_engineering_lab.Python.{Platform}
use agentic_engineering_lab.Domain.Status.{deny, allow, PolicyOutcome}
use agentic_engineering_lab.Prelude.{
  str_eq, not, false, if◌then◌else◌, true, none, Text, Bool, some, String, Option, ℕ,
}

pub record GitHubBranchWriter (W : Type 0) : Type 0 where
  pub head_sha : ℕ → Text → W → Result String × W
  pub apply_unified_diff : ℕ → Text → String → Text → ℕ → W → Result String × W

pub record ValidatedPatchRequest : Type 0 where
  pub repository_id : ℕ
  pub branch : Text
  pub context : PushContext

-- The callback `audit`, if there is one, over whatever it writes to.
abbrev pub Audit : Type 0 → Type 0
Audit S = Option (String → PolicyResult → S → S)

unfoldable pub run_audit : {S : Type 0} → Audit S → String → PolicyResult → S → S
run_audit none policy_name result s = s
run_audit (some audit) policy_name result s = audit policy_name result s

-- decision.outcome is PolicyOutcome.ALLOW
unfoldable pub is_allow : PolicyOutcome → Bool
is_allow allow = true
is_allow deny = false

module _ {S W : Type 0} (writer : GitHubBranchWriter W) (audit : Audit S) where
  -- Behind the write: it is recorded, unless it raised.
  unfoldable pub after_write : PolicyResult → S → Result String × W → Result String × S × W
  after_write decision s (ok commit_sha, w) =
      (ok commit_sha, run_audit audit "ci_github_write" decision s, w)
  after_write decision s (raised e, w) = (raised e, s, w)

  -- Behind the second look at the head.
  unfoldable pub after_head :
      ValidatedPatchRequest → PolicyResult → S → Result String × W → Result String × S × W
  unfolding after_write
  after_head request decision s (raised e, w) = (raised e, s, w)
  after_head request decision s (ok head, w) =
      if not (str_eq head request.context.pinned_sha)
      then (
        raised (permission_error "stale_head_sha"),
        run_audit audit "ci_exact_sha_recheck"
            (record decision { outcome = deny; reason_code = "stale_head_sha" }) s,
        w,
      )
      else after_write decision s (
          writer.apply_unified_diff request.repository_id request.branch request.context.pinned_sha
            request.context.diff request.context.run_id w)

  -- `now` is the clock that `evaluate_push_gate` reads.
  unfoldable pub apply_validated_patch :
      Platform → ValidatedPatchRequest → PatchPolicy → ℕ → S → W → Result String × S × W
  unfolding is_allow after_head
  apply_validated_patch platform request patch_policy now s w =
      let decision = evaluate_push_gate platform request.context patch_policy now in
      let s' = run_audit audit "ci_push_gate" decision s in
      if not (is_allow decision.outcome)
      then (raised (permission_error decision.reason_code), s', w)
      else after_head request decision s' (writer.head_sha request.repository_id request.branch w)
