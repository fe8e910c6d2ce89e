-- ===== src/Gateway/Capability.antt =====
-- src/agentic_lab/gateway/capability.py: what each role may read of GitHub, and the audit of it.
pub mod Reads
pub mod Kept
use agentic_engineering_lab.Domain.Error.{permission_error, raised, Result}
use agentic_engineering_lab.Python.{Platform}
use agentic_engineering_lab.Domain.Status.{role_eq, ci, assessor, scout, AgentRole}
use agentic_engineering_lab.Prelude.{
  has_char, all, ◌&&◌, ◌∷◌, ltb, ◌||◌, ◌++◌, ◌==◌, codes, not, if◌then◌else◌, none, length, any,
  some, [], Option, Bool, List, Text, ℕ, String,
}
use agentic_engineering_lab.Python.Numbers.{decimal}

-- `GitHubReadPort` over any state of the remote side. What it gives is not looked into.
pub record GitHubReadPort (W Snapshot Diff Check : Type 0) : Type 0 where
  pub fetch_snapshot : ℕ → Text → W → Result Snapshot × W
  pub fetch_pull_request_diff : ℕ → ℕ → Text → W → Result Diff × W
  pub fetch_check_evidence : ℕ → ℕ → Text → W → Result Check × W

-- One call of `CapabilityAuditPort.record`; the outcome is "allow" or "deny".
pub record AuditEntry : Type 0 where
  pub run_id : String
  pub policy_name : String
  pub outcome : String
  pub reason_code : String
  pub input_hash : String

pub record CapabilityGateway (S W Snapshot Diff Check : Type 0) : Type 0 where
  pub read_port : GitHubReadPort W Snapshot Diff Check
  pub allowed_repository_ids : List ℕ
  pub audit_port : Option (AuditEntry → S → S)

-- role.value
unfoldable pub role_value : AgentRole → String
role_value scout = "scout"
role_value assessor = "assessor"
role_value ci = "ci"

-- len(sha) in {40, 64} and all(character in "0123456789abcdef" for character in sha)
unfoldable pub is_immutable_sha : Text → Bool
is_immutable_sha sha =
    (length sha == 40 || length sha == 64) && all (λ c. has_char c (codes "0123456789abcdef")) sha

-- _input_hash; a snapshot has no resource beside its commit
unfoldable pub input_hash_of : Platform → AgentRole → ℕ → Text → Option ℕ → String
unfolding role_value decimal
input_hash_of platform role repository_id pinned_sha resource = platform.sha256 (
    codes (role_value role)
    ++ codes ":"
    ++ decimal repository_id
    ++ codes ":"
    ++ pinned_sha
    ++ behind resource)
  where
    behind : Option ℕ → Text
    behind none = []
    behind (some n) = codes ":" ++ decimal n

module _ {S W Snapshot Diff Check : Type 0} (platform : Platform)
    (gateway : CapabilityGateway S W Snapshot Diff Check) where
  -- _audit_named
  unfoldable pub audit_named : AuditEntry → S → S
  audit_named entry s = to gateway.audit_port
    where
      to : Option (AuditEntry → S → S) → S
      to none = s
      to (some audit) = audit entry s

  -- An entry is written, and the call is refused.
  unfoldable pub refuse :
      {A : Type 0} → String → String → String → String → String → S → W → Result A × S × W
  unfolding audit_named
  refuse run_id policy_name input_hash reason message s w = (
    raised (permission_error message),
    audit_named
        (record {
          run_id = run_id;
          policy_name = policy_name;
          outcome = "deny";
          reason_code = reason;
          input_hash = input_hash;
        })
        s,
    w,
  )

  -- An entry is written, and the port is called.
  unfoldable pub allow_read :
      {A : Type 0}
      → String
      → String
      → String
      → String
      → (W → Result A × W)
      → S
      → W
      → Result A × S × W
  unfolding audit_named
  allow_read run_id policy_name input_hash reason fetch s w =
      let (result, w') = fetch w in
      (
        result,
        audit_named
            (record {
              run_id = run_id;
              policy_name = policy_name;
              outcome = "allow";
              reason_code = reason;
              input_hash = input_hash;
            })
            s,
        w',
      )

  -- repository_id in self.allowed_repository_ids
  unfoldable pub is_allowlisted : ℕ → Bool
  is_allowlisted repository_id = any (λ r. r == repository_id) gateway.allowed_repository_ids

  -- _authorize_repository_and_sha, with what follows it if it does not raise
  unfoldable pub authorize_repository_and_sha :
      {A : Type 0}
      → String
      → String
      → ℕ
      → Text
      → String
      → (S → W → Result A × S × W)
      → S
      → W
      → Result A × S × W
  unfolding is_allowlisted
  authorize_repository_and_sha run_id policy_name repository_id pinned_sha input_hash next s w =
      if not (is_allowlisted repository_id)
      then refuse run_id policy_name input_hash "repository_not_allowlisted"
          "repository is not allowlisted" s w
      else if not (is_immutable_sha pinned_sha)
      then refuse run_id policy_name input_hash "mutable_source_reference"
          "mutable source reference refused" s w
      else next s w

  -- Its tests of repository and commit are those of the other two, written out again.
  unfoldable pub fetch_snapshot : String → AgentRole → ℕ → Text → S → W → Result Snapshot × S × W
  fetch_snapshot run_id role repository_id pinned_sha s w =
      let input_hash = input_hash_of platform role repository_id pinned_sha none in
      if not (any (role_eq role) (scout ∷ assessor ∷ ci ∷ []))
      then refuse run_id "github_snapshot_read" input_hash "role_cannot_read"
          "role cannot read a repository snapshot" s w
      else authorize_repository_and_sha run_id "github_snapshot_read" repository_id pinned_sha
          input_hash
          (allow_read run_id "github_snapshot_read" input_hash "pinned_snapshot_read"
            (gateway.read_port.fetch_snapshot repository_id pinned_sha))
          s w

  unfoldable pub fetch_pull_request_diff :
      String → AgentRole → ℕ → ℕ → Text → S → W → Result Diff × S × W
  fetch_pull_request_diff run_id role repository_id pull_number pinned_sha s w =
      let name : String = "github_pull_request_diff_read" in
      let input_hash = input_hash_of platform role repository_id pinned_sha (some pull_number) in
      if not (any (role_eq role) (assessor ∷ ci ∷ []))
      then refuse run_id name input_hash "role_cannot_read_diff"
          "role cannot read pull-request diff evidence" s w
      else authorize_repository_and_sha run_id name repository_id pinned_sha input_hash
          (λ s w.
            if ltb pull_number 1
            then refuse run_id name input_hash "invalid_pull_number" "invalid pull number" s w
            else allow_read run_id name input_hash "pinned_diff_read"
                (gateway.read_port.fetch_pull_request_diff repository_id pull_number pinned_sha) s
                w)
          s w

  unfoldable pub fetch_check_evidence :
      String → AgentRole → ℕ → ℕ → Text → S → W → Result Check × S × W
  fetch_check_evidence run_id role repository_id check_run_id pinned_sha s w =
      let name : String = "github_check_evidence_read" in
      let input_hash = input_hash_of platform role repository_id pinned_sha (some check_run_id) in
      if not (role_eq role ci)
      then refuse run_id name input_hash "role_cannot_read_check" "role cannot read check evidence"
          s w
      else authorize_repository_and_sha run_id name repository_id pinned_sha input_hash
          (λ s w.
            if ltb check_run_id 1
            then refuse run_id name input_hash "invalid_check_run_id" "invalid check-run ID" s w
            else allow_read run_id name input_hash "pinned_check_read"
                (gateway.read_port.fetch_check_evidence repository_id check_run_id pinned_sha) s w)
          s w
