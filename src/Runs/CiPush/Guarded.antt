-- ===== src/Runs/CiPush/Guarded.antt =====
-- What has been established when the flow reaches the writer.
use agentic_engineering_lab.Gateway.Github.Guarded.{
  looked_at, written_to, untouched, apply_validated_patch-Touched, Touched, is_allow_iff,
}
use agentic_engineering_lab.Policy.Audit.{record_decision}
use agentic_engineering_lab.Runs.Artifacts.{store_artifact}
use agentic_engineering_lab.Policy.PushGate.Verdicts.{allow-IsPushable, IsPushable}
use agentic_engineering_lab.Database.Inversion.{
  raise_when-inv, the_run-inv, continue-inv, pure-inv, bind-inv,
}
use agentic_engineering_lab.Domain.Status.{evaluating, status_eq, ci, role_eq}
use agentic_engineering_lab.Domain.Error.{raised, Result, value_error, ok}
use agentic_engineering_lab.Prelude.Table
use agentic_engineering_lab.Gateway.Github.{GitHubBranchWriter, is_allow, ValidatedPatchRequest}
use agentic_engineering_lab.Policy.PushGate.{evaluate_push_gate, PushContext}
use agentic_engineering_lab.Database.{raise_when, the_run, Session, Run}
use agentic_engineering_lab.Runs.CiPush.{
  write_patch, after_precheck, push_validated_patch, precheck, without_branch, precheck_pull,
  precheck_branch, precheck_decision, push_context, PushRequest, enter_push,
}
use agentic_engineering_lab.Policy.Patch.{PolicyResult, PatchPolicy}
use agentic_engineering_lab.Prelude.{
  ap, ◌⊎◌, refl, ◌∙◌, String, str_eq, ◌||◌, not, sym, subst, arith, is_empty, Option, inl, List,
  none, ◌==◌, inr, Bool-cases, true, some, ◌≡◌, ℕ, Text,
}
use agentic_engineering_lab.Domain.Artifact.{PatchArtifact}
use agentic_engineering_lab.Python.{Platform}

module _ (platform : Platform) (dump : PatchArtifact → Text) (policy : PatchPolicy) where
  pub record Entered (run_id : ℕ) (request : PushRequest) (s : Session)
      (sent : ValidatedPatchRequest) : Type 0 where
    pub run : Run
    pub loaded : Table.get s.runs run_id ≡ some run
    pub is_ci : role_eq run.role ci ≡ true
    pub is_evaluating : status_eq run.status evaluating ≡ true
    pub own_artifact : (request.artifact.base.run_id == run_id) ≡ true
    pub pull_number : ℕ
    pub pull : run.pull_number ≡ some pull_number
    pub to_repository : sent.repository_id ≡ run.repository_id
    pub to_branch : sent.branch ≡ request.branch
    pub what : sent.context ≡ push_context run_id run pull_number request s
    pub pushable : IsPushable platform policy sent.context s.clock

  enter_push-sent :
      (run_id : ℕ) (run : Run) (request : PushRequest) (context : PushContext)
      (decision : PolicyResult) (sent : ValidatedPatchRequest) (s t : Session)
      → enter_push platform dump policy run_id run request context decision s ≡ (ok (some sent), t)
      → (is_allow decision.outcome ≡ true)
        × (sent.repository_id ≡ run.repository_id)
        × (sent.branch ≡ request.branch)
        × (sent.context ≡ context)
  unfolding enter_push
  enter_push-sent run_id run request context decision sent s t h =
      elim (Bool-cases (is_allow decision.outcome)) [
        | inr denied ↦
            let (a, u, e, k) = bind-inv _ _ s (some sent) t (rw denied at h) in
            absurd (cc ((pure-inv none (some sent) u t k).0))
        | inl allowed ↦
            let (a, u, e, k) = bind-inv _ _ s (some sent) t (rw allowed at h) in
            let (b, v, f, l) = bind-inv _ _ u (some sent) t k in
            let same = (pure-inv _ (some sent) v t l).0 in (allowed, cc same, cc same, cc same)
      ]

  precheck_decision-allow :
      (context : PushContext) (paths : List Text) (now : ℕ)
      → is_allow (precheck_decision platform dump policy context paths now).outcome ≡ true
      → is_allow (evaluate_push_gate platform context policy now).outcome ≡ true
  unfolding precheck_decision is_allow
  precheck_decision-allow context paths now h = ground arith

  module _ (run_id : ℕ) (run : Run) (request : PushRequest) (sent : ValidatedPatchRequest)
      (s t : Session) (loaded : Table.get s.runs run_id ≡ some run)
      (is_ci : role_eq run.role ci ≡ true) (is_evaluating : status_eq run.status evaluating ≡ true)
      (own_artifact : (request.artifact.base.run_id == run_id) ≡ true) where
    precheck_pull-Entered :
        (pull_number : ℕ)
        → run.pull_number ≡ some pull_number
        → precheck_pull platform dump policy run_id run pull_number request s ≡ (ok (some sent), t)
        → Entered run_id request s sent
    unfolding precheck_pull
    precheck_pull-Entered pull_number pull h =
        let context = push_context run_id run pull_number request s in
        let decision =
          precheck_decision platform dump policy context request.artifact.changed_paths s.clock in
        let (key, u, e, h') =
          continue-inv
            (store_artifact platform request.artifact.base (dump request.artifact) "patch" "clean"
              (record_decision run_id "ci_push_precheck" decision s))
            (λ key. enter_push platform dump policy run_id run request context decision) (some sent)
            t h in
        let (allowed, to_repository, to_branch, what) =
          enter_push-sent run_id run request context decision sent u t h' in
        record {
          run = run;
          loaded = loaded;
          is_ci = is_ci;
          is_evaluating = is_evaluating;
          own_artifact = own_artifact;
          pull_number = pull_number;
          pull = pull;
          to_repository = to_repository;
          to_branch = to_branch;
          what = what;
          pushable =
              subst (λ c. IsPushable platform policy c s.clock) (sym what)
                (allow-IsPushable platform policy context s.clock (
                  is_allow_iff _ (
                    precheck_decision-allow context request.artifact.changed_paths s.clock
                      allowed)));
        }

    precheck_branch-Entered :
        (o : Option ℕ)
        → run.pull_number ≡ o
        → precheck_branch platform dump policy run_id run o request s ≡ (ok (some sent), t)
        → Entered run_id request s sent
    unfolding precheck_branch without_branch
    precheck_branch-Entered none e h =
        let (u1, s1, e1, h1) = bind-inv _ _ s (some sent) t h in
        absurd (cc ((pure-inv none (some sent) s1 t h1).0))
    precheck_branch-Entered (some pull_number) e h = elim (Bool-cases (is_empty request.branch)) [
      | inl no_branch ↦
          let (u1, s1, e1, h1) = bind-inv _ _ s (some sent) t (rw no_branch at h) in
          absurd (cc ((pure-inv none (some sent) s1 t h1).0))
      | inr branch ↦ precheck_pull-Entered pull_number e (rw branch at h)
    ]

  precheck-Entered :
      (run_id : ℕ) (request : PushRequest) (sent : ValidatedPatchRequest) (s t : Session)
      → precheck platform dump policy run_id request s ≡ (ok (some sent), t)
      → Entered run_id request s sent
  unfolding precheck
  precheck-Entered run_id request sent s t h =
      let (run, u, e, h1) = continue-inv (the_run run_id s) _ (some sent) t h in
      let (loaded, same) = the_run-inv run_id run s u e in
      let (x1, u1, e1, h2) =
        continue-inv
          (raise_when (not (role_eq run.role ci) || not (status_eq run.status evaluating))
            (value_error "only evaluating CI runs can enter the push gate") u)
          _ (some sent) t h1 in
      let (first, same1) = raise_when-inv _ _ u u1 e1 in
      let (x2, u2, e2, h3) =
        continue-inv
          (raise_when
            (not (request.artifact.base.run_id == run_id)
              || not (str_eq request.artifact.base.pinned_sha run.pinned_sha))
            (value_error "patch artifact identity does not match the durable run") u1)
          _ (some sent) t h2 in
      let (second, same2) = raise_when-inv _ _ u1 u2 e2 in
      precheck_branch-Entered run_id run request sent s t loaded (ground (arith, first))
        (ground (arith, first)) (ground (arith, second)) run.pull_number refl
        (subst
          (λ x.
            precheck_branch platform dump policy run_id run run.pull_number request x
            ≡ (ok (some sent), t))
          (same2 ∙ same1 ∙ same) h3)

  module _ {W : Type 0} (writer : GitHubBranchWriter W) where
    -- The remote side after the flow, if the writer was called for `sent`.
    pub data Remote (sent : ValidatedPatchRequest) (w : W) : W → Type 0 where
      same : Remote sent w w
      looked :
          {w' : W} → (writer.head_sha sent.repository_id sent.branch w).1 ≡ w' → Remote sent w w'
      written :
          {w' : W}
          → (writer.head_sha sent.repository_id sent.branch w).0 ≡ ok sent.context.pinned_sha
          → (writer.apply_unified_diff sent.repository_id sent.branch sent.context.pinned_sha
              sent.context.diff sent.context.run_id
              (writer.head_sha sent.repository_id sent.branch w).1).1
            ≡ w'
          → Remote sent w w'

    Remote-Touched :
        (sent : ValidatedPatchRequest) (now : ℕ) (w : W) (r : Result String) (w' : W)
        → Touched writer platform policy sent now w r w'
        → Remote sent w w'
    Remote-Touched sent now w _ _ untouched = same
    Remote-Touched sent now w _ _ (looked_at p e) = looked e
    Remote-Touched sent now w _ _ (written_to p f e) = written f (ap (λ y. y.1) e)

    -- The flow reaches the remote side for an evaluating CI run with an artifact of its own and a
    -- context that passes the gate at the time of the call, or leaves it as it was. Where it reaches
    -- it, the request is for the run's repository, the given branch and the artifact's diff. Then the
    -- head is looked at, and only if that is the pinned commit the diff is written, once.
    pub push_validated_patch-guarded :
        (run_id : ℕ) (request : PushRequest) (s : Session) (w : W)
        → ((push_validated_patch platform dump policy writer run_id request s w).2 ≡ w)
          ⊎ ((sent : ValidatedPatchRequest) × Entered run_id request s sent
              × Remote sent w
                  (push_validated_patch platform dump policy writer run_id request s w).2)
    unfolding push_validated_patch after_precheck write_patch
    push_validated_patch-guarded run_id request s w =
        reach (precheck platform dump policy run_id request s) refl
      where
        reach :
            (x : Result (Option ValidatedPatchRequest) × Session)
            → precheck platform dump policy run_id request s ≡ x
            → ((after_precheck platform dump policy writer run_id request.actor x w).2 ≡ w)
              ⊎ ((sent : ValidatedPatchRequest) × Entered run_id request s sent
                  × Remote sent w
                      (after_precheck platform dump policy writer run_id request.actor x w).2)
        reach (raised e, t) h = inl refl
        reach (ok none, t) h = inl refl
        reach (ok (some sent), t) h = inr (
          sent,
          precheck-Entered run_id request sent s t h,
          Remote-Touched sent t.clock w _ _ (
              apply_validated_patch-Touched writer (some (record_decision run_id)) platform policy
                sent t.clock t w),
        )
