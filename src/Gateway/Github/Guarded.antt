-- ===== src/Gateway/Github/Guarded.antt =====
-- What stands between a request and the remote branch.
use agentic_engineering_lab.Policy.PushGate.{evaluate_push_gate}
use agentic_engineering_lab.Domain.Status.{deny, allow, PolicyOutcome}
use agentic_engineering_lab.Policy.PushGate.Verdicts.{allow-IsPushable, IsPushable}
use agentic_engineering_lab.Domain.Error.{ok, Exception, permission_error, raised, Result}
use agentic_engineering_lab.Prelude.{
  str_eq_iff, ◌∙◌, inl, refl, inr, str_eq, Bool-cases, true, ap, ◌≡◌, String, ℕ,
}
use agentic_engineering_lab.Policy.Patch.{PolicyResult, PatchPolicy}
use agentic_engineering_lab.Python.{Platform}
use agentic_engineering_lab.Gateway.Github.{
  run_audit, is_allow, apply_validated_patch, after_head, after_write, ValidatedPatchRequest, Audit,
  GitHubBranchWriter,
}

pub is_allow_iff : (o : PolicyOutcome) → is_allow o ≡ true → o ≡ allow
unfolding is_allow
is_allow_iff allow h = refl
is_allow_iff deny h = cc h

module _ {W : Type 0} (writer : GitHubBranchWriter W) (platform : Platform)
    (policy : PatchPolicy) where
  abbrev looked : ValidatedPatchRequest → W → Result String × W
  looked request w = writer.head_sha request.repository_id request.branch w

  abbrev written : ValidatedPatchRequest → W → Result String × W
  written request w =
      writer.apply_unified_diff request.repository_id request.branch request.context.pinned_sha
        request.context.diff request.context.run_id w

  -- How the remote side may be left: untouched, after a look at the head, or after the write.
  pub data Touched (request : ValidatedPatchRequest) (now : ℕ) (w : W)
      : Result String → W → Type 0 where
    untouched : {m : String} → Touched request now w (raised (permission_error m)) w
    looked_at :
        {e : Exception} {w' : W}
        → IsPushable platform policy request.context now
        → (looked request w).1 ≡ w'
        → Touched request now w (raised e) w'
    written_to :
        {r : Result String} {w' : W}
        → IsPushable platform policy request.context now
        → (looked request w).0 ≡ ok request.context.pinned_sha
        → written request (looked request w).1 ≡ (r, w')
        → Touched request now w r w'

module _ {S W : Type 0} (writer : GitHubBranchWriter W) (audit : Audit S) (platform : Platform)
    (policy : PatchPolicy) where
  module _ (request : ValidatedPatchRequest) (now : ℕ) (w : W)
      (pushable : IsPushable platform policy request.context now) where
    after_write-Touched :
        (decision : PolicyResult) (s : S) (x : Result String × W)
        → (looked writer platform policy request w).0 ≡ ok request.context.pinned_sha
        → written writer platform policy request (looked writer platform policy request w).1 ≡ x
        → Touched writer platform policy request now w
            (after_write writer audit decision s x).0
            (after_write writer audit decision s x).2
    unfolding after_write
    after_write-Touched decision s (ok c, w') fresh e = written_to pushable fresh e
    after_write-Touched decision s (raised x, w') fresh e = written_to pushable fresh e

    after_head-Touched :
        (decision : PolicyResult) (s : S) (x : Result String × W)
        → looked writer platform policy request w ≡ x
        → Touched writer platform policy request now w
            (after_head writer audit request decision s x).0
            (after_head writer audit request decision s x).2
    unfolding after_head
    after_head-Touched decision s (raised x, w') e = looked_at pushable (ap (λ y. y.1) e)
    after_head-Touched decision s (ok head, w') e =
        elim (Bool-cases (str_eq head request.context.pinned_sha)) [
          | inr stale ↦ rw stale (looked_at pushable (ap (λ y. y.1) e))
          | inl same ↦ rw same (
              after_write-Touched decision s (written writer platform policy request w')
                (ap (λ y. y.0) e ∙ ap ok ((str_eq_iff head request.context.pinned_sha).0 same))
                (ap (λ y. written writer platform policy request y.1) e))
        ]

  -- Whatever the writer does and whether or not the calls are audited, a request touches the remote
  -- side in one of three ways: it raises a permission error and nothing was called; the context
  -- passed the gate, only the head was looked at, and the call raised; or the context passed the
  -- gate, the head was the pinned commit when it was looked at, and the one write that was tried is
  -- that of the request's diff on the pinned commit, its result being the call's.
  pub apply_validated_patch-Touched :
      (request : ValidatedPatchRequest) (now : ℕ) (s : S) (w : W)
      → Touched writer platform policy request now w
          (apply_validated_patch writer audit platform request policy now s w).0
          (apply_validated_patch writer audit platform request policy now s w).2
  unfolding apply_validated_patch
  apply_validated_patch-Touched request now s w =
      let decision = evaluate_push_gate platform request.context policy now in
      elim (Bool-cases (is_allow decision.outcome)) [
        | inr denied ↦ rw denied untouched
        | inl allowed ↦ rw allowed (
            after_head-Touched request now w
              (allow-IsPushable platform policy request.context now
                (is_allow_iff decision.outcome allowed))
              decision (run_audit audit "ci_push_gate" decision s)
              (looked writer platform policy request w) refl)
      ]
