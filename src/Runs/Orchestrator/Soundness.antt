-- ===== src/Runs/Orchestrator/Soundness.antt =====
-- The flows against the journal of transitions.
use agentic_engineering_lab.Prelude.Table.{get-put}
use agentic_engineering_lab.Prelude.Table
use agentic_engineering_lab.Runs.Service.Soundness.{transition_run-Preserves}
use agentic_engineering_lab.Runs.CiPush.Soundness.{store_artifact-Preserves}
use agentic_engineering_lab.Runs.Service.History.{Tells, IsSound}
use agentic_engineering_lab.Database.Preserves.{preserving, Preserves}
use agentic_engineering_lab.Runs.Service.{journal}
use agentic_engineering_lab.Domain.Status.{RunStatus, AgentRole}
use agentic_engineering_lab.Domain.Artifact.{
  ArtifactBase, RiskArtifact, RefusalArtifact, CiDiagnosisArtifact, ScoutArtifact,
}
use agentic_engineering_lab.Database.{Run, Session, save_run}
use agentic_engineering_lab.Prelude.{
  arith, Bool-cases, Option-cases, inr, ◌∙◌, ==_iff, sym, ap, subst, inl, is_some, if◌then◌else◌,
  false, ◌⊎◌, true, ◌==◌, some, ◌≡◌, Text, Bool, String, ℕ,
}
use agentic_engineering_lab.Runs.Orchestrator.Steps.{
  refuse_diagnosis, begin, conclude, store_diagnosis, store_scout, store_risk, store_output,
  conclude_diagnosis, record_terminal_error,
}
use agentic_engineering_lab.Runs.Orchestrator.Records.{
  pinned_configuration, pin_model_configuration, Dumps,
}
use agentic_engineering_lab.Python.{Platform}

module _ (platform : Platform) (dumps : Dumps) where
  pin_model_configuration-Preserves :
      (k : ℕ) (system_prompt : Text) (model_id : String)
      → Preserves IsSound (pin_model_configuration platform k system_prompt model_id)
  unfolding journal pin_model_configuration save_run Table.get
  pin_model_configuration-Preserves k system_prompt model_id = record {
    step = λ s sound. elim (Option-cases (Table.get s.runs k)) [
      | inl missing ↦ rw (missing, pin_model_configuration) sound
      | inr (run, loaded) ↦
          rw (loaded, pin_model_configuration, save_run)
            (record {
              history = λ j. rw get-put (told s sound run loaded j (Bool-cases (k == j)));
              fresh = λ j h. rw get-put (ground (arith, sound.fresh j h, loaded));
            })
    ];
  }
    where
      told :
          (s : Session)
          → IsSound s
          → (run : Run) → Table.get s.runs k ≡ some run
          → (j : ℕ) → (k == j ≡ true) ⊎ (k == j ≡ false)
          → Tells (journal j s) (
              if k == j
              then some (
                  pinned_configuration platform system_prompt model_id
                    (is_some run.evaluation_case_id)
                    run)
              else Table.get s.runs j)
      told s sound run loaded j (inl same) = rw same (
          subst (Tells (journal j s)) (ap (Table.get s.runs) (sym ((==_iff k j).0 same)) ∙ loaded)
            (sound.history j))
      told s sound run loaded j (inr other) = rw other (sound.history j)

  pub begin-Preserves :
      (k : ℕ) (role : AgentRole) (message : String) (system_prompt : Text)
      (model_id reason : String)
      → Preserves IsSound (begin platform dumps k role message system_prompt model_id reason)
  unfolding begin
  begin-Preserves k role message system_prompt model_id reason =
      search (preserving, pin_model_configuration-Preserves, transition_run-Preserves)

  pub record_terminal_error-Preserves :
      (k : ℕ) (code message : String) (status : RunStatus)
      → Preserves IsSound (record_terminal_error platform dumps k code message status)
  unfolding record_terminal_error
  record_terminal_error-Preserves k code message status =
      search (preserving, store_artifact-Preserves, transition_run-Preserves)

  store_output-Preserves :
      (k : ℕ) (validated : String) (base : ArtifactBase) (dumped : Text) (kind : String)
      → Preserves IsSound (store_output platform dumps k validated base dumped kind)
  unfolding store_output
  store_output-Preserves k validated base dumped kind =
      search (preserving, store_artifact-Preserves, transition_run-Preserves)

  conclude-Preserves :
      (k : ℕ) (stored : String) (blocked : Bool)
      → Preserves IsSound (conclude platform dumps k stored blocked)
  unfolding conclude
  conclude-Preserves k stored blocked = search (preserving, transition_run-Preserves)

  refuse_diagnosis-Preserves :
      (k : ℕ) (artifact : CiDiagnosisArtifact) (dump_refusal : RefusalArtifact → Text)
      → Preserves IsSound (refuse_diagnosis platform dumps k artifact dump_refusal)
  unfolding refuse_diagnosis
  refuse_diagnosis-Preserves k artifact dump_refusal =
      search (preserving, store_artifact-Preserves, transition_run-Preserves)

  conclude_diagnosis-Preserves :
      (k : ℕ) (artifact : CiDiagnosisArtifact) (dump_refusal : RefusalArtifact → Text)
      (blocked : Bool)
      → Preserves IsSound (conclude_diagnosis platform dumps k artifact dump_refusal blocked)
  unfolding conclude_diagnosis
  conclude_diagnosis-Preserves k artifact dump_refusal blocked =
      search (preserving, refuse_diagnosis-Preserves, transition_run-Preserves)

  pub store_scout-Preserves :
      (k : ℕ) (dump : ScoutArtifact → Text) (artifact : ScoutArtifact)
      → Preserves IsSound (store_scout platform dumps k dump artifact)
  unfolding store_scout
  store_scout-Preserves k dump artifact =
      search (preserving, store_output-Preserves, conclude-Preserves)

  pub store_risk-Preserves :
      (k : ℕ) (dump : RiskArtifact → Text) (artifact : RiskArtifact)
      → Preserves IsSound (store_risk platform dumps k dump artifact)
  unfolding store_risk
  store_risk-Preserves k dump artifact =
      search (preserving, store_output-Preserves, conclude-Preserves)

  pub store_diagnosis-Preserves :
      (k : ℕ) (dump_refusal : RefusalArtifact → Text) (dump : CiDiagnosisArtifact → Text)
      (artifact : CiDiagnosisArtifact)
      → Preserves IsSound (store_diagnosis platform dumps k dump_refusal dump artifact)
  unfolding store_diagnosis
  store_diagnosis-Preserves k dump_refusal dump artifact =
      search (preserving, store_output-Preserves, conclude_diagnosis-Preserves)
