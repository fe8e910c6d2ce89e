-- ===== src/Policy/PushGate.antt =====
-- src/agentic_lab/policy/push_gate.py: the gate that a patch passes before it may be pushed.
pub mod Verdicts
use agentic_engineering_lab.Gateway.Redaction.{redact}
use agentic_engineering_lab.Domain.Status.{deny}
use agentic_engineering_lab.Policy.Patch.{validate_unified_diff, PolicyResult, PatchPolicy}
use agentic_engineering_lab.Prelude.{
  ◌==◌, ◌||◌, none, codes, str_eq, leb, not, [], if◌then◌else◌, some, ◌∷◌, Text, true, Bool, String,
  ℕ, Option,
}
use agentic_engineering_lab.Python.{flag, instant, text, number, null, JsonValue, Platform}

-- A run is named by its key, which stands for the text of its UUID.
-- Texts that are only compared are `String`; the diff is walked. `opt_in_expires_at` is in UTC.
pub record PushContext : Type 0 where
  pub run_id : ℕ
  pub pinned_sha : String
  pub observed_head_sha : String
  pub patch_base_sha : String
  pub opt_in_expires_at : Option ℕ
  pub same_repository_branch : Bool
  pub reproduction_passed : Bool
  pub validation_passed : Bool
  pub failure_class : String
  pub attempt_count : ℕ
  pub diff : Text

-- opt_in_expires_at is None or opt_in_expires_at <= now
unfoldable pub has_no_opt_in : Option ℕ → ℕ → Bool
has_no_opt_in none now = true
has_no_opt_in (some expires_at) now = leb expires_at now

abbrev or_null : Option ℕ → JsonValue
or_null none = null
or_null (some t) = instant t

module _ (platform : Platform) where
  unfoldable pub context_hash : PushContext → String
  context_hash context = platform.sha256_json (
      ("run_id", number context.run_id)
      ∷ ("pinned_sha", text (codes context.pinned_sha))
      ∷ ("observed_head_sha", text (codes context.observed_head_sha))
      ∷ ("patch_base_sha", text (codes context.patch_base_sha))
      ∷ ("opt_in_expires_at", or_null context.opt_in_expires_at)
      ∷ ("same_repository_branch", flag context.same_repository_branch)
      ∷ ("reproduction_passed", flag context.reproduction_passed)
      ∷ ("validation_passed", flag context.validation_passed)
      ∷ ("failure_class", text (codes context.failure_class))
      ∷ ("attempt_count", number context.attempt_count)
      ∷ ("diff_hash", text (codes (redact platform context.diff []).content_hash))
      ∷ [])

  -- _deny
  unfoldable pub deny_push : PushContext → String → PolicyResult
  deny_push context reason = record {
    outcome = deny;
    reason_code = reason;
    changed_paths = [];
    input_hash = context_hash context;
  }

  unfoldable pub evaluate_push_gate : PushContext → PatchPolicy → ℕ → PolicyResult
  unfolding deny_push
  evaluate_push_gate context patch_policy now =
      if has_no_opt_in context.opt_in_expires_at now
      then deny_push context "missing_or_expired_opt_in"
      else if not context.same_repository_branch
      then deny_push context "fork_branch_refused"
      else if not (str_eq context.observed_head_sha context.pinned_sha)
          || not (str_eq context.patch_base_sha context.pinned_sha)
      then deny_push context "stale_head_sha"
      else if not (str_eq context.failure_class "repository") || not context.reproduction_passed
      then deny_push context "unreproduced_or_external_failure"
      else if not context.validation_passed
      then deny_push context "validation_not_passed"
      else if not (context.attempt_count == 0)
      then deny_push context "one_attempt_policy"
      else if (redact platform context.diff []).detected
      then deny_push context "secret_detection"
      else record (validate_unified_diff platform context.diff patch_policy) {
        input_hash = context_hash context;
      }
