-- ===== src/Policy/PushGate/Verdicts.antt =====
-- When the gate lets a patch through.
use agentic_engineering_lab.Policy.Patch.Allow.{validate_unified_diff_lem, IsSourcePatch}
use agentic_engineering_lab.Gateway.Redaction.{redact}
use agentic_engineering_lab.Domain.Status.{deny, allow}
use agentic_engineering_lab.Prelude.{str_eq_iff, ◌↔◌, arith, [], true, false, ◌≡◌, ℕ}
use agentic_engineering_lab.Policy.PushGate.{
  context_hash, has_no_opt_in, evaluate_push_gate, PushContext,
}
use agentic_engineering_lab.Policy.Patch.{PatchPolicy}
use agentic_engineering_lab.Python.{Platform}

module _ (platform : Platform) (policy : PatchPolicy) where
  -- Everything that the gate asks of a context, with no order among the tests.
  pub record IsPushable (context : PushContext) (now : ℕ) : Type 0 where
    pub opted_in : has_no_opt_in context.opt_in_expires_at now ≡ false
    pub own_branch : context.same_repository_branch ≡ true
    pub fresh_head : context.observed_head_sha ≡ context.pinned_sha
    pub fresh_base : context.patch_base_sha ≡ context.pinned_sha
    pub repository_failure : context.failure_class ≡ "repository"
    pub reproduced : context.reproduction_passed ≡ true
    pub validated : context.validation_passed ≡ true
    pub first_attempt : context.attempt_count ≡ 0
    pub no_secret : (redact platform context.diff []).detected ≡ false
    pub source_patch : IsSourcePatch platform policy context.diff

  pub allow-IsPushable :
      (context : PushContext) (now : ℕ)
      → (evaluate_push_gate platform context policy now).outcome ≡ allow
      → IsPushable context now
  unfolding evaluate_push_gate
  allow-IsPushable context now h = record {
    opted_in = ground arith;
    own_branch = ground arith;
    fresh_head = ground (arith, str_eq_iff context.observed_head_sha context.pinned_sha);
    fresh_base = ground (arith, str_eq_iff context.patch_base_sha context.pinned_sha);
    repository_failure = ground (arith, str_eq_iff context.failure_class "repository");
    reproduced = ground arith;
    validated = ground arith;
    first_attempt = ground arith;
    no_secret = ground arith;
    source_patch = (validate_unified_diff_lem platform policy context.diff).0.0 (ground arith);
  }

  IsPushable-allow :
      (context : PushContext) (now : ℕ)
      → IsPushable context now
      → (evaluate_push_gate platform context policy now).outcome ≡ allow
  unfolding evaluate_push_gate
  IsPushable-allow context now p = ground (
    arith,
    str_eq_iff context.observed_head_sha context.pinned_sha,
    str_eq_iff context.patch_base_sha context.pinned_sha,
    str_eq_iff context.failure_class "repository",
    (validate_unified_diff_lem platform policy context.diff).0.1 p.source_patch,
  )

  -- The gate lets a context through exactly if every one of its conditions holds: the opt-in has not
  -- expired, the branch is the repository's own, head and base are the pinned commit, the failure is
  -- the repository's and was reproduced, the fix was validated, nothing was pushed before, the diff
  -- holds no secret and is a source patch. The decision carries the hash of the context either way.
  pub evaluate_push_gate_lem :
      (context : PushContext) (now : ℕ)
      → (((evaluate_push_gate platform context policy now).outcome ≡ allow)
          ↔ IsPushable context now)
        × ((evaluate_push_gate platform context policy now).input_hash
            ≡ context_hash platform context)
  unfolding evaluate_push_gate
  evaluate_push_gate_lem context now =
      ((allow-IsPushable context now, IsPushable-allow context now), ground arith)

  -- A diff in which a secret is detected is denied, whatever else holds, and the denial names no path.
  pub secret_denied :
      (context : PushContext) (now : ℕ)
      → (redact platform context.diff []).detected ≡ true
      → ((evaluate_push_gate platform context policy now).outcome ≡ deny)
        × ((evaluate_push_gate platform context policy now).changed_paths ≡ [])
  unfolding evaluate_push_gate
  secret_denied context now found = ground arith
