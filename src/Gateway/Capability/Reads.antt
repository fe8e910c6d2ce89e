-- ===== src/Gateway/Capability/Reads.antt =====
-- Who may read what, and what the audit says of it.
use agentic_engineering_lab.Domain.Status.{scout, ci, assessor, role_eq, AgentRole}
use agentic_engineering_lab.Domain.Error.{permission_error, raised, Result}
use agentic_engineering_lab.Prelude.{
  codes, has_char, all, ◌||◌, ◌∙◌, length, ◌==◌, sym, Option-cases, none, refl, if◌then◌else◌, ltb,
  inl, arith, inr, Bool-cases, leb, [], ◌∷◌, true, any, some, false, ◌&&◌, ◌≡◌, Text, Bool, ℕ,
  String,
}
use agentic_engineering_lab.Gateway.Capability.{
  audit_named, AuditEntry, fetch_snapshot, fetch_check_evidence, allow_read, refuse,
  is_immutable_sha, input_hash_of, is_allowlisted, authorize_repository_and_sha,
  fetch_pull_request_diff, CapabilityGateway,
}
use agentic_engineering_lab.Python.{Platform}

module _ {S W Snapshot Diff Check : Type 0} (platform : Platform)
    (gateway : CapabilityGateway S W Snapshot Diff Check) where
  -- The repository is one of the allowed ones, and the commit is 40 or 64 hexadecimal digits in lower
  -- case.
  abbrev pub is_readable : ℕ → Text → Bool
  is_readable repository_id pinned_sha =
      any (λ r. r == repository_id) gateway.allowed_repository_ids
      && ((length pinned_sha == 40 || length pinned_sha == 64)
          && all (λ c. has_char c (codes "0123456789abcdef")) pinned_sha)

  -- The tests that the reads share.
  abbrev passes : ℕ → Text → Bool
  passes repository_id pinned_sha =
      is_allowlisted platform gateway repository_id && is_immutable_sha pinned_sha

  is_readable-passes :
      (repository_id : ℕ) (pinned_sha : Text)
      → passes repository_id pinned_sha ≡ is_readable repository_id pinned_sha
  unfolding is_allowlisted is_immutable_sha
  is_readable-passes repository_id pinned_sha = refl

  -- The state when the gateway's audit, if there is one, was told of an entry once.
  abbrev pub told : AuditEntry → S → S
  told entry s = elim gateway.audit_port [ none ↦ s | some audit ↦ audit entry s ]

  abbrev pub entry_of : String → String → String → String → String → AuditEntry
  entry_of run_id policy_name outcome reason input_hash = record {
    run_id = run_id;
    policy_name = policy_name;
    outcome = outcome;
    reason_code = reason;
    input_hash = input_hash;
  }

  -- A read that the gateway refused, which leaves the remote side alone, or one that it allowed, which
  -- is one call of the port. In either case the audit is told once what was decided.
  pub data Answer {A : Type 0} (run_id policy_name input_hash : String) (readable : Bool)
      (fetch : W → Result A × W) (s : S) (w : W) : Result A × S × W → Type 0 where
    refused :
        (reason message : String)
        → readable ≡ false
        → Answer run_id policy_name input_hash readable fetch s w (
          raised (permission_error message),
          told (entry_of run_id policy_name "deny" reason input_hash) s,
          w,
        )
    fetched :
        (reason : String)
        → readable ≡ true
        → Answer run_id policy_name input_hash readable fetch s w (
          (fetch w).0,
          told (entry_of run_id policy_name "allow" reason input_hash) s,
          (fetch w).1,
        )

  audit_named-told :
      (entry : AuditEntry) (s : S) → audit_named platform gateway entry s ≡ told entry s
  unfolding audit_named
  audit_named-told entry s = elim (Option-cases gateway.audit_port) [
    | inl unaudited ↦ rw unaudited refl
    | inr (audit, set) ↦ rw set refl
  ]

  module _ {A : Type 0} (run_id name input_hash : String) (readable : Bool)
      (fetch : W → Result A × W) (s : S) (w : W) where
    refuse-Answer :
        (reason message : String)
        → readable ≡ false
        → Answer run_id name input_hash readable fetch s w
            (refuse platform gateway run_id name input_hash reason message s w)
    unfolding refuse
    refuse-Answer reason message unread =
        rw (audit_named-told (entry_of run_id name "deny" reason input_hash) s)
          (refused reason message unread)

    allow_read-Answer :
        (reason : String)
        → readable ≡ true
        → Answer run_id name input_hash readable fetch s w
            (allow_read platform gateway run_id name input_hash reason fetch s w)
    unfolding allow_read
    allow_read-Answer reason read =
        rw (audit_named-told (entry_of run_id name "allow" reason input_hash) s)
          (fetched reason read)

  authorize-Answer :
      {A : Type 0} (run_id name input_hash : String) (readable : Bool) (fetch : W → Result A × W)
      (repository_id : ℕ) (pinned_sha : Text) (next : S → W → Result A × S × W) (s : S) (w : W)
      → (passes repository_id pinned_sha ≡ false → readable ≡ false)
      → (passes repository_id pinned_sha ≡ true
          → Answer run_id name input_hash readable fetch s w (next s w))
      → Answer run_id name input_hash readable fetch s w (
          authorize_repository_and_sha platform gateway run_id name repository_id pinned_sha
            input_hash next s w)
  unfolding authorize_repository_and_sha
  authorize-Answer run_id name input_hash readable fetch repository_id pinned_sha next s w not_then
        then_next =
      elim (Bool-cases (is_allowlisted platform gateway repository_id)) [
        | inr foreign ↦ rw foreign (refuse-Answer _ _ _ _ _ _ _ _ _ (not_then (ground arith)))
        | inl listed ↦ elim (Bool-cases (is_immutable_sha pinned_sha)) [
          | inr mutable ↦
              rw (listed, mutable) (refuse-Answer _ _ _ _ _ _ _ _ _ (not_then (ground arith)))
          | inl pinned ↦ rw (listed, pinned) (then_next (ground arith))
        ]
      ]

  -- The test of the resource's number, behind the shared ones.
  numbered-Answer :
      {A : Type 0} (run_id name input_hash : String) (readable : Bool) (fetch : W → Result A × W)
      (number : ℕ) (reason message granted : String) (s : S) (w : W)
      → readable ≡ leb 1 number
      → Answer run_id name input_hash readable fetch s w (
          if ltb number 1
          then refuse platform gateway run_id name input_hash reason message s w
          else allow_read platform gateway run_id name input_hash granted fetch s w)
  numbered-Answer run_id name input_hash readable fetch number reason message granted s w e =
      elim (Bool-cases (ltb number 1)) [
        | inl zeroth ↦ rw zeroth (refuse-Answer _ _ _ _ _ _ _ _ _ (ground arith))
        | inr positive ↦ rw positive (allow_read-Answer _ _ _ _ _ _ _ _ (ground arith))
      ]

  may_read_snapshot : (role : AgentRole) → any (role_eq role) (scout ∷ assessor ∷ ci ∷ []) ≡ true
  may_read_snapshot scout = refl
  may_read_snapshot assessor = refl
  may_read_snapshot ci = refl

  -- Every role may read a snapshot of an allowed repository at an immutable commit: then the port is
  -- called once, and the audit, if the gateway has one, is told once of the allowance. In every other
  -- case the call raises a permission error, the audit is told once of the denial, and the port is not
  -- called.
  pub fetch_snapshot-Answer :
      (run_id : String) (role : AgentRole) (repository_id : ℕ) (pinned_sha : Text) (s : S) (w : W)
      → Answer run_id "github_snapshot_read"
          (input_hash_of platform role repository_id pinned_sha none)
          (is_readable repository_id pinned_sha)
          (gateway.read_port.fetch_snapshot repository_id pinned_sha)
          s
          w
          (fetch_snapshot platform gateway run_id role repository_id pinned_sha s w)
  unfolding fetch_snapshot
  fetch_snapshot-Answer run_id role repository_id pinned_sha s w = rw (may_read_snapshot role) (
      authorize-Answer run_id _ _ _ _ repository_id pinned_sha _ s w
        (λ unread. sym (is_readable-passes repository_id pinned_sha) ∙ unread)
        (λ readable.
          allow_read-Answer _ _ _ _ _ _ _ _
            (sym (is_readable-passes repository_id pinned_sha) ∙ readable)))

  -- A diff is fetched exactly for an assessor or a CI run, from an allowed repository, at an immutable
  -- commit and for a pull number from 1; then the port is called once, and the audit, if the gateway
  -- has one, is told once of the allowance. In every other case the call raises a permission error, the
  -- audit is told once of the denial, and the port is not called.
  pub fetch_pull_request_diff-Answer :
      (run_id : String) (role : AgentRole) (repository_id pull_number : ℕ) (pinned_sha : Text)
      (s : S) (w : W)
      → Answer run_id "github_pull_request_diff_read"
          (input_hash_of platform role repository_id pinned_sha (some pull_number))
          (any (role_eq role) (assessor ∷ ci ∷ [])
            && is_readable repository_id pinned_sha
            && leb 1 pull_number)
          (gateway.read_port.fetch_pull_request_diff repository_id pull_number pinned_sha)
          s
          w
          (fetch_pull_request_diff platform gateway run_id role repository_id pull_number pinned_sha
            s w)
  unfolding fetch_pull_request_diff
  fetch_pull_request_diff-Answer run_id role repository_id pull_number pinned_sha s w =
      elim (Bool-cases (any (role_eq role) (assessor ∷ ci ∷ []))) [
        | inr no_role ↦ rw no_role (refuse-Answer _ _ _ _ _ _ _ _ _ (ground arith))
        | inl has_role ↦ rw has_role (
            authorize-Answer run_id _ _ _ _ repository_id pinned_sha _ s w
              (λ unread. ground (arith, is_readable-passes repository_id pinned_sha))
              (λ readable.
                numbered-Answer run_id _ _ _ _ pull_number _ _ _ s w
                  (ground (arith, is_readable-passes repository_id pinned_sha))))
      ]

  -- The same for the evidence of a check, which only a CI run may read, at a check-run number from 1.
  pub fetch_check_evidence-Answer :
      (run_id : String) (role : AgentRole) (repository_id check_run_id : ℕ) (pinned_sha : Text)
      (s : S) (w : W)
      → Answer run_id "github_check_evidence_read"
          (input_hash_of platform role repository_id pinned_sha (some check_run_id))
          (role_eq role ci && is_readable repository_id pinned_sha && leb 1 check_run_id)
          (gateway.read_port.fetch_check_evidence repository_id check_run_id pinned_sha)
          s
          w
          (fetch_check_evidence platform gateway run_id role repository_id check_run_id pinned_sha s
            w)
  unfolding fetch_check_evidence
  fetch_check_evidence-Answer run_id role repository_id check_run_id pinned_sha s w =
      elim (Bool-cases (role_eq role ci)) [
        | inr no_role ↦ rw no_role (refuse-Answer _ _ _ _ _ _ _ _ _ (ground arith))
        | inl has_role ↦ rw has_role (
            authorize-Answer run_id _ _ _ _ repository_id pinned_sha _ s w
              (λ unread. ground (arith, is_readable-passes repository_id pinned_sha))
              (λ readable.
                numbered-Answer run_id _ _ _ _ check_run_id _ _ _ s w
                  (ground (arith, is_readable-passes repository_id pinned_sha))))
      ]
