-- ===== src/Agents/Ci.antt =====
-- src/agentic_lab/agents/ci.py: failures that no patch may answer.
use agentic_engineering_lab.Domain.Error.{ok, value_error, unless, Result}
use agentic_engineering_lab.Tools.Registry.{mem_string}
use agentic_engineering_lab.Python.{Platform}
use agentic_engineering_lab.Prelude.{
  not, [], codes, ◌∷◌, contains, if◌then◌else◌, any, ℕ, Bool, List, String, Text,
}
use agentic_engineering_lab.Domain.Artifact.{RefusalArtifact, CiDiagnosisArtifact}

unfoldable pub requires_refusal : CiDiagnosisArtifact → Bool
requires_refusal artifact =
    mem_string artifact.failure_class
      ("external" ∷ "flaky" ∷ "permission" ∷ "secret" ∷ "infrastructure" ∷ [])

-- build_refusal; `now` is the time at which the artifact is made
unfoldable pub build_refusal : CiDiagnosisArtifact → String → String → ℕ → Result RefusalArtifact
unfolding requires_refusal
build_refusal artifact missing_precondition next_action now =
    unless (not (requires_refusal artifact))
      (value_error "repository-caused failure requires deterministic validation before refusal")
      (ok (record {
        base = record artifact.base { schema_version = "1"; created_at = now };
        failure_class = artifact.failure_class;
        missing_precondition = missing_precondition;
        next_action = next_action;
      }))

abbrev mentions : Text → List String → Bool
mentions normalized markers = any (λ marker. contains normalized (codes marker)) markers

-- The first class that has a marker in the text
unfoldable pub classify_failure : Platform → Text → String
classify_failure platform log_text =
    let normalized = platform.lower log_text in
    if mentions normalized ("secret" ∷ "credential" ∷ "token leaked" ∷ [])
    then "secret"
    else if mentions normalized ("403" ∷ "permission denied" ∷ "unauthorized" ∷ [])
    then "permission"
    else if mentions normalized ("timeout" ∷ "connection reset" ∷ "dns" ∷ "rate limit" ∷ [])
    then "external"
    else if mentions normalized ("flaky" ∷ "intermittent" ∷ "rerun passed" ∷ [])
    then "flaky"
    else if mentions normalized ("runner unavailable" ∷ "docker daemon" ∷ "out of disk" ∷ [])
    then "infrastructure"
    else "repository"
