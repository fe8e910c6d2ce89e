-- ===== src/Runs/Orchestrator/Completion.antt =====
-- Where the steps of the flows leave the run.
use agentic_engineering_lab.Prelude.Table.{get-put}
use agentic_engineering_lab.Runs.Service.Transitions.{moved}
use agentic_engineering_lab.Runs.Service.Transitions.{
  transition_run-accepts, transition_run-refuses, transition_run_missing,
}
use agentic_engineering_lab.Runs.Service.{with_status, transition_run}
use agentic_engineering_lab.Prelude.Table
use agentic_engineering_lab.Database.Inversion.{bind-inv}
use agentic_engineering_lab.Domain.Error.{ok}
use agentic_engineering_lab.Domain.Artifact.{
  CiDiagnosisArtifact, RiskArtifact, ScoutArtifact, RefusalArtifact,
}
use agentic_engineering_lab.Runs.Orchestrator.Steps.{
  record_terminal_error, store_scout, store_risk, store_diagnosis, conclude, refuse_diagnosis,
  conclude_diagnosis,
}
use agentic_engineering_lab.Runs.Orchestrator.Records.{Dumps}
use agentic_engineering_lab.Database.{Metadata, Run, ◌>>=◌, Tx, Session}
use agentic_engineering_lab.Domain.Status.{
  may_transition, succeeded, refused, is_terminal, RunStatus,
}
use agentic_engineering_lab.Prelude.{
  ==_refl, subst, Bool-cases, inr, inl, Option-cases, refl, Text, false, some, [], true, ◌≡◌,
  if◌then◌else◌, String, Bool, ℕ,
}
use agentic_engineering_lab.Python.{Platform}

-- The run is there, and its status is terminal.
abbrev pub IsOver : ℕ → Session → Type 0
IsOver k s = (run : Run) × (Table.get s.runs k ≡ some run) × (is_terminal run.status ≡ true)

-- If the action returns, the run is over.
abbrev pub Finishes {ℓ} : {A : Type ℓ} → ℕ → Tx A → Type ℓ
Finishes {A = A} k m = (s t : Session) (a : A) → m s ≡ (ok a, t) → IsOver k t

pub transition_run-Finishes :
    (k : ℕ) (target : RunStatus) (reason actor : String) (metadata : Metadata)
    → is_terminal target ≡ true
    → Finishes k (transition_run k target reason actor metadata)
unfolding with_status
transition_run-Finishes k target reason actor metadata over s t a h =
    elim (Option-cases (Table.get s.runs k)) [
      | inl missing ↦
          absurd (cc (rw (transition_run_missing s k target reason actor metadata missing) at h))
      | inr (run, loaded) ↦ elim (Bool-cases (may_transition run.status target)) [
        | inr forbidden ↦ absurd (
            cc (
              rw (transition_run-refuses s k run target reason actor metadata loaded forbidden) at
                h))
        | inl allowed ↦
            let moved_there : moved s k run target reason actor metadata ≡ t = cc (
              rw (transition_run-accepts s k run target reason actor metadata loaded allowed) at
                h) in
            subst (IsOver k) moved_there
              (with_status run target s.clock, rw (get-put, ==_refl k) refl, over)
      ]
    ]

Finishes-bind {ℓ κ} :
    {A : Type ℓ} {B : Type κ} (k : ℕ) (m : Tx A) (f : A → Tx B)
    → ((a : A) → Finishes k (f a))
    → Finishes k (m >>= f)
Finishes-bind k m f finishes s t b h =
    let (a, u, first, rest) = bind-inv m f s b t h in finishes a u t b rest

Finishes-if {ℓ} :
    {A : Type ℓ} (k : ℕ) (b : Bool) (m n : Tx A)
    → Finishes k m
    → Finishes k n
    → Finishes k (if b then m else n)
Finishes-if k true m n fm fn = fm
Finishes-if k false m n fm fn = fn

module _ (platform : Platform) (dumps : Dumps) where
  pub record_terminal_error-Finishes :
      (k : ℕ) (code message : String) (status : RunStatus)
      → is_terminal status ≡ true
      → Finishes k (record_terminal_error platform dumps k code message status)
  unfolding record_terminal_error
  record_terminal_error-Finishes k code message status over = Finishes-bind k _ _ (λ run.
      Finishes-bind k _ _ (λ now.
        Finishes-bind k _ _ (λ key. transition_run-Finishes k status code "worker" [] over)))

  conclude-Finishes :
      (k : ℕ) (stored : String) (blocked : Bool)
      → Finishes k (conclude platform dumps k stored blocked)
  unfolding conclude is_terminal
  conclude-Finishes k stored blocked =
      Finishes-if k blocked _ _ (transition_run-Finishes k refused _ _ _ refl)
        (transition_run-Finishes k succeeded _ _ _ refl)

  refuse_diagnosis-Finishes :
      (k : ℕ) (artifact : CiDiagnosisArtifact) (dump_refusal : RefusalArtifact → Text)
      → Finishes k (refuse_diagnosis platform dumps k artifact dump_refusal)
  unfolding refuse_diagnosis is_terminal
  refuse_diagnosis-Finishes k artifact dump_refusal = Finishes-bind k _ _ (λ now.
      Finishes-bind k _ _
        (λ refusal. Finishes-bind k _ _ (λ key. transition_run-Finishes k refused _ _ _ refl)))

  conclude_diagnosis-Finishes :
      (k : ℕ) (artifact : CiDiagnosisArtifact) (dump_refusal : RefusalArtifact → Text)
      (blocked : Bool)
      → Finishes k (conclude_diagnosis platform dumps k artifact dump_refusal blocked)
  unfolding conclude_diagnosis is_terminal
  conclude_diagnosis-Finishes k artifact dump_refusal blocked =
      Finishes-if k blocked _ _ (transition_run-Finishes k refused _ _ _ refl) (
        Finishes-if k _ _ _ (refuse_diagnosis-Finishes k artifact dump_refusal) (
          Finishes-if k _ _ _ (transition_run-Finishes k refused _ _ _ refl)
            (transition_run-Finishes k succeeded _ _ _ refl)))

  pub store_scout-Finishes :
      (k : ℕ) (dump : ScoutArtifact → Text) (artifact : ScoutArtifact)
      → Finishes k (store_scout platform dumps k dump artifact)
  unfolding store_scout
  store_scout-Finishes k dump artifact =
      Finishes-bind k _ _ (λ now. Finishes-bind k _ _ (λ blocked. conclude-Finishes k _ blocked))

  pub store_risk-Finishes :
      (k : ℕ) (dump : RiskArtifact → Text) (artifact : RiskArtifact)
      → Finishes k (store_risk platform dumps k dump artifact)
  unfolding store_risk
  store_risk-Finishes k dump artifact =
      Finishes-bind k _ _ (λ now. Finishes-bind k _ _ (λ blocked. conclude-Finishes k _ blocked))

  pub store_diagnosis-Finishes :
      (k : ℕ) (dump_refusal : RefusalArtifact → Text) (dump : CiDiagnosisArtifact → Text)
      (artifact : CiDiagnosisArtifact)
      → Finishes k (store_diagnosis platform dumps k dump_refusal dump artifact)
  unfolding store_diagnosis
  store_diagnosis-Finishes k dump_refusal dump artifact = Finishes-bind k _ _ (λ now.
      Finishes-bind k _ _ (λ blocked.
        conclude_diagnosis-Finishes k
          (record artifact { base = record artifact.base { created_at = now } }) dump_refusal
          blocked))
