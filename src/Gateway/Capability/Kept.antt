-- ===== src/Gateway/Capability/Kept.antt =====
-- What every audit entry keeps, a read keeps.
use agentic_engineering_lab.Domain.Status.{ci, assessor, scout, role_eq, AgentRole}
use agentic_engineering_lab.Domain.Error.{Result}
use agentic_engineering_lab.Prelude.{
  false, true, Bool, [], ◌∷◌, any, ltb, if◌then◌else◌, Bool-cases, inr, Text, inl, ℕ, String,
  Option-cases, some, ◌≡◌,
}
use agentic_engineering_lab.Gateway.Capability.{
  fetch_check_evidence, is_immutable_sha, is_allowlisted, fetch_snapshot, allow_read,
  authorize_repository_and_sha, audit_named, fetch_pull_request_diff, refuse, AuditEntry,
  CapabilityGateway,
}
use agentic_engineering_lab.Python.{Platform}

module _ {κ} {S W Snapshot Diff Check : Type 0} (P : S → Type κ) (platform : Platform)
    (gateway : CapabilityGateway S W Snapshot Diff Check)
    (kept : (audit : AuditEntry → S → S)
      → gateway.audit_port ≡ some audit
      → (entry : AuditEntry) (s : S) → P s
      → P (audit entry s)) where
  if-kept :
      {A : Type 0} (b : Bool) (x y : Result A × S × W) → P x.1 → P y.1 → P (if b then x else y).1
  if-kept true x y px py = px
  if-kept false x y px py = py

  audit_named-kept : (entry : AuditEntry) (s : S) → P s → P (audit_named platform gateway entry s)
  unfolding audit_named
  audit_named-kept entry s p = elim (Option-cases gateway.audit_port) [
    | inl missing ↦ rw missing p
    | inr (audit, found) ↦ rw found (kept audit found entry s p)
  ]

  refuse-kept :
      (A : Type 0) (run_id name hash reason message : String) (s : S) (w : W)
      → P s
      → P (refuse platform gateway {A = A} run_id name hash reason message s w).1
  unfolding refuse
  refuse-kept A run_id name hash reason message s w p = audit_named-kept _ s p

  allow_read-kept :
      {A : Type 0} (run_id name hash reason : String) (fetch : W → Result A × W) (s : S) (w : W)
      → P s
      → P (allow_read platform gateway run_id name hash reason fetch s w).1
  unfolding allow_read
  allow_read-kept run_id name hash reason fetch s w p = audit_named-kept _ s p

  authorize-kept :
      {A : Type 0} (run_id name : String) (repository_id : ℕ) (sha : Text) (hash : String)
      (next : S → W → Result A × S × W) (s : S) (w : W)
      → ((s : S) (w : W) → P s → P (next s w).1)
      → P s
      → P
          (authorize_repository_and_sha platform gateway run_id name repository_id sha hash next s
            w).1
  unfolding authorize_repository_and_sha
  authorize-kept run_id name repository_id sha hash next s w pn p =
      elim (Bool-cases (is_allowlisted platform gateway repository_id)) [
        | inr unknown ↦ rw unknown (refuse-kept _ run_id name hash _ _ s w p)
        | inl known ↦ elim (Bool-cases (is_immutable_sha sha)) [
          | inr mutable ↦ rw (known, mutable) (refuse-kept _ run_id name hash _ _ s w p)
          | inl immutable ↦ rw (known, immutable) (pn s w p)
        ]
      ]

  pub fetch_snapshot-kept :
      (run_id : String) (role : AgentRole) (repository_id : ℕ) (sha : Text) (s : S) (w : W)
      → P s
      → P (fetch_snapshot platform gateway run_id role repository_id sha s w).1
  unfolding fetch_snapshot
  fetch_snapshot-kept run_id role repository_id sha s w p =
      elim (Bool-cases (any (role_eq role) (scout ∷ assessor ∷ ci ∷ []))) [
        | inr other ↦ rw other (refuse-kept _ run_id _ _ _ _ s w p)
        | inl reader ↦ rw reader (
            authorize-kept run_id _ repository_id sha _ _ s w
              (λ s w p. allow_read-kept run_id _ _ _ _ s w p) p)
      ]

  pub fetch_pull_request_diff-kept :
      (run_id : String) (role : AgentRole) (repository_id pull_number : ℕ) (sha : Text) (s : S)
      (w : W)
      → P s
      → P (fetch_pull_request_diff platform gateway run_id role repository_id pull_number sha s w).1
  unfolding fetch_pull_request_diff
  fetch_pull_request_diff-kept run_id role repository_id pull_number sha s w p =
      elim (Bool-cases (any (role_eq role) (assessor ∷ ci ∷ []))) [
        | inr other ↦ rw other (refuse-kept _ run_id _ _ _ _ s w p)
        | inl reader ↦ rw reader (
            authorize-kept run_id _ repository_id sha _ _ s w
              (λ s w p.
                if-kept (ltb pull_number 1) _ _ (refuse-kept _ run_id _ _ _ _ s w p)
                  (allow_read-kept run_id _ _ _ _ s w p))
              p)
      ]

  pub fetch_check_evidence-kept :
      (run_id : String) (role : AgentRole) (repository_id check_run_id : ℕ) (sha : Text) (s : S)
      (w : W)
      → P s
      → P (fetch_check_evidence platform gateway run_id role repository_id check_run_id sha s w).1
  unfolding fetch_check_evidence
  fetch_check_evidence-kept run_id role repository_id check_run_id sha s w p =
      elim (Bool-cases (role_eq role ci)) [
        | inr other ↦ rw other (refuse-kept _ run_id _ _ _ _ s w p)
        | inl reader ↦ rw reader (
            authorize-kept run_id _ repository_id sha _ _ s w
              (λ s w p.
                if-kept (ltb check_run_id 1) _ _ (refuse-kept _ run_id _ _ _ _ s w p)
                  (allow_read-kept run_id _ _ _ _ s w p))
              p)
      ]
