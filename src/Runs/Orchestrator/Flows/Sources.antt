-- ===== src/Runs/Orchestrator/Flows/Sources.antt =====
-- The evidence of the flows against the journal of transitions.
use agentic_engineering_lab.Domain.Status.{ci, role_eq}
use agentic_engineering_lab.Gateway.Capability.Kept.{
  fetch_check_evidence-kept, fetch_pull_request_diff-kept, fetch_snapshot-kept,
}
use agentic_engineering_lab.Runs.Remote.Rules.{Keeps-give, keeping, Keeps-if_available}
use agentic_engineering_lab.Policy.Audit.{outcome_of, capability_decision}
use agentic_engineering_lab.Runs.Service.History.{IsSound}
use agentic_engineering_lab.Domain.Error.{raised, ok, Result}
use agentic_engineering_lab.Prelude.{
  subst, none, Bool-cases, inr, Option, inl, some, Option-cases, ◌≡◌, ℕ, String,
}
use agentic_engineering_lab.Database.{Run, Session}
use agentic_engineering_lab.Runs.Orchestrator.Evidence.{
  with_audit, some_of, evidence_of, scout_tools, audited, with_snapshot, snapshot_tools,
  snapshot_of, diff_of, check_of, RunIds,
}
use agentic_engineering_lab.Gateway.Capability.{AuditEntry, CapabilityGateway}
use agentic_engineering_lab.Python.{Platform}
use agentic_engineering_lab.Runs.Service.{journal}
use agentic_engineering_lab.Runs.Remote.{Keeps}

-- Each audit of the gateway keeps a sound session sound.
abbrev pub AuditKeeps : {W S D C : Type 0} → CapabilityGateway Session W S D C → Type 0
AuditKeeps gateway =
    (audit : AuditEntry → Session → Session)
    → gateway.audit_port ≡ some audit
    → (entry : AuditEntry) (s : Session) → IsSound s
    → IsSound (audit entry s)

-- The audit of the program keeps a sound session sound.
pub capability_decision-IsSound :
    (uuid : String → ℕ) (entry : AuditEntry) (s : Session)
    → IsSound s
    → IsSound (capability_decision uuid entry s)
unfolding journal capability_decision
capability_decision-IsSound uuid entry s sound = elim (Option-cases (outcome_of entry.outcome)) [
  | inl unknown ↦ rw unknown sound
  | inr (outcome, known) ↦ rw known (record { history = sound.history; fresh = sound.fresh })
]

with_audit-kept :
    {W S D C : Type 0} (uuid : String → ℕ) (gateway : CapabilityGateway Session W S D C)
    (o : Option (AuditEntry → Session → Session))
    → AuditKeeps gateway
    → AuditKeeps (with_audit uuid gateway o)
with_audit-kept uuid gateway (some own) kept audit found entry s sound =
    kept audit found entry s sound
with_audit-kept uuid gateway none kept audit found entry s sound =
    let same : capability_decision uuid ≡ audit = cc found in
    subst (λ (f : AuditEntry → Session → Session). IsSound (f entry s)) same
      (capability_decision-IsSound uuid entry s sound)

module _ {W S D C : Type 0} (platform : Platform) (ids : RunIds)
    (gateway : CapabilityGateway Session W S D C) (kept : AuditKeeps gateway) where
  audited-kept : AuditKeeps (audited platform ids gateway)
  unfolding audited
  audited-kept = with_audit-kept ids.uuid gateway gateway.audit_port kept

  snapshot_of-Keeps : (k : ℕ) (run : Run) → Keeps IsSound (snapshot_of platform ids gateway k run)
  unfolding snapshot_of
  snapshot_of-Keeps k run = Keeps-if_available _ (record {
    step = λ s w sound. fetch_snapshot-kept IsSound platform _ audited-kept _ _ _ _ s w sound;
  })

  some_of-step : {A : Type 0} (x : Result A × Session × W) → IsSound x.1 → IsSound (some_of x).1
  some_of-step (ok a, s, w) p = p
  some_of-step (raised e, s, w) p = p

  diff_of-Keeps :
      (k : ℕ) (run : Run) (o : Option ℕ) → Keeps IsSound (diff_of platform ids gateway k run o)
  unfolding diff_of
  diff_of-Keeps k run none = record { step = λ s w sound. sound }
  diff_of-Keeps k run (some n) = record {
    step = λ s w sound.
        some_of-step _
          (fetch_pull_request_diff-kept IsSound platform _ audited-kept _ _ _ n _ s w sound);
  }

  check_of-Keeps :
      (k : ℕ) (run : Run) (o : Option ℕ) → Keeps IsSound (check_of platform ids gateway k run o)
  unfolding check_of
  check_of-Keeps k run none = record { step = λ s w sound. sound }
  check_of-Keeps k run (some n) = record {
    step = λ s w sound. elim (Bool-cases (role_eq run.role ci)) [
      | inl of_ci ↦ rw of_ci (
          some_of-step _
            (fetch_check_evidence-kept IsSound platform _ audited-kept _ _ _ n _ s w sound))
      | inr other ↦ rw other sound
    ];
  }

  evidence_of-Keeps :
      (k : ℕ) (run : Run) (snapshot : S)
      → Keeps IsSound (evidence_of platform ids gateway k run snapshot)
  unfolding evidence_of
  evidence_of-Keeps k run snapshot = search (keeping, diff_of-Keeps, check_of-Keeps)

  with_snapshot-Keeps :
      (k : ℕ) (run : Run) (o : Option S)
      → Keeps IsSound (with_snapshot platform ids gateway k run o)
  unfolding with_snapshot
  with_snapshot-Keeps k run none = Keeps-give none
  with_snapshot-Keeps k run (some snapshot) =
      Keeps-if_available _ (evidence_of-Keeps k run snapshot)

  pub snapshot_tools-Keeps :
      (k : ℕ) (run : Run) → Keeps IsSound (snapshot_tools platform ids gateway k run)
  unfolding snapshot_tools
  snapshot_tools-Keeps k run = search (keeping, snapshot_of-Keeps, with_snapshot-Keeps)

  pub scout_tools-Keeps :
      (k : ℕ) (run : Run) → Keeps IsSound (scout_tools platform ids gateway k run)
  unfolding scout_tools
  scout_tools-Keeps k run = search (keeping, snapshot_of-Keeps)
