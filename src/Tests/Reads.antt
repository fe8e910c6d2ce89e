-- ===== src/Tests/Reads.antt =====
-- The capability gateway at concrete inputs: a port that counts its calls, and an audit that is kept
-- as a list.
use agentic_engineering_lab.Domain.Error.{permission_error, raised, ok}
use agentic_engineering_lab.Domain.Status.{assessor, role_eq, scout, ci}
use agentic_engineering_lab.Tests.Values.{ascii}
use agentic_engineering_lab.Prelude.{
  leb, refl, ◌&&◌, ◌++◌, any, ◌≡◌, ◌+◌, none, some, [], ◌∷◌, String, List, ℕ, codes, Text,
}
use agentic_engineering_lab.Gateway.Capability.Reads.{
  fetch_check_evidence-Answer, fetch_pull_request_diff-Answer, fetch_snapshot-Answer, is_readable,
  Answer,
}
use agentic_engineering_lab.Gateway.Capability.{
  fetch_check_evidence, fetch_snapshot, is_allowlisted, is_immutable_sha, input_hash_of, AuditEntry,
  audit_named, allow_read, authorize_repository_and_sha, refuse, CapabilityGateway, GitHubReadPort,
  fetch_pull_request_diff,
}

abbrev port : GitHubReadPort ℕ String String String
port = record {
  fetch_snapshot = λ repository_id sha w. (ok "snapshot", w + 1);
  fetch_pull_request_diff = λ repository_id pull_number sha w. (ok "diff", w + 1);
  fetch_check_evidence = λ repository_id check_run_id sha w. (ok "check", w + 1);
}

abbrev gateway : CapabilityGateway (List AuditEntry) ℕ String String String
gateway = record {
  read_port = port;
  allowed_repository_ids = 7 ∷ [];
  audit_port = some (λ entry s. s ++ entry ∷ []);
}

abbrev sha : Text
sha = codes "0123456789012345678901234567890123456789"

scout_reads_no_diff : fetch_pull_request_diff ascii gateway "r" scout 7 3 sha [] 0 ≡ (
  raised (permission_error "role cannot read pull-request diff evidence"),
  record {
    run_id = "r";
    policy_name = "github_pull_request_diff_read";
    outcome = "deny";
    reason_code = "role_cannot_read_diff";
    input_hash = "sha";
  }
      ∷ [],
  0,
)
unfolding fetch_pull_request_diff refuse audit_named input_hash_of
scout_reads_no_diff = refl

ci_reads_diff : (fetch_pull_request_diff ascii gateway "r" ci 7 3 sha [] 0).0 ≡ ok "diff"
unfolding fetch_pull_request_diff authorize_repository_and_sha allow_read audit_named
    is_immutable_sha is_allowlisted
ci_reads_diff = refl

fetch_snapshot-Answer_example :
    Answer ascii gateway "r" "github_snapshot_read"
      (input_hash_of ascii scout 7 sha none)
      (is_readable ascii gateway 7 sha)
      (port.fetch_snapshot 7 sha)
      []
      0
      (fetch_snapshot ascii gateway "r" scout 7 sha [] 0)
fetch_snapshot-Answer_example = fetch_snapshot-Answer ascii gateway "r" scout 7 sha [] 0

fetch_pull_request_diff-Answer_example :
    Answer ascii gateway "r" "github_pull_request_diff_read"
      (input_hash_of ascii ci 7 sha (some 3))
      (any (role_eq ci) (assessor ∷ ci ∷ []) && is_readable ascii gateway 7 sha && leb 1 3)
      (port.fetch_pull_request_diff 7 3 sha)
      []
      0
      (fetch_pull_request_diff ascii gateway "r" ci 7 3 sha [] 0)
fetch_pull_request_diff-Answer_example =
    fetch_pull_request_diff-Answer ascii gateway "r" ci 7 3 sha [] 0

fetch_check_evidence-Answer_example :
    Answer ascii gateway "r" "github_check_evidence_read"
      (input_hash_of ascii ci 7 sha (some 9))
      (role_eq ci ci && is_readable ascii gateway 7 sha && leb 1 9)
      (port.fetch_check_evidence 7 9 sha)
      []
      0
      (fetch_check_evidence ascii gateway "r" ci 7 9 sha [] 0)
fetch_check_evidence-Answer_example = fetch_check_evidence-Answer ascii gateway "r" ci 7 9 sha [] 0
