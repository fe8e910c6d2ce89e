-- ===== src/Runs/Artifacts.antt =====
-- src/agentic_lab/runs/artifacts.py: an artifact is stored once for each run and kind, without its
-- content if a secret is found in it.
-- The same kind for the same run: the columns of `uq_artifacts_run_kind`.
pub mod Secrets
use agentic_engineering_lab.Prelude.Table
use agentic_engineering_lab.Domain.Error.{integrity_error}
use agentic_engineering_lab.Gateway.Redaction.{redact}
use agentic_engineering_lab.Prelude.Table.{Table}
use agentic_engineering_lab.Python.{Platform}
use agentic_engineering_lab.Database.{
  pure, modify, raise_when, dumped, ◌>>◌, redaction_blocked, gets, CitationRecord, Tx, Artifact,
  RedactionEvent, ◌>>=◌, Session,
}
use agentic_engineering_lab.Prelude.{
  codes, ◌+◌, is_empty, not, str_eq, some, ◌&&◌, if◌then◌else◌, none, ◌==◌, ◌++◌, Option, ◌∷◌,
  String, Text, [], List, Bool, ℕ,
}
use agentic_engineering_lab.Domain.Artifact.{Citation, ArtifactBase}

unfoldable pub is_same_artifact : ℕ → String → Artifact → Bool
is_same_artifact run_id kind row = row.run_id == run_id && str_eq row.kind kind

-- The rows of a table that pass a test.
abbrev pub rows_of {ℓ} : {V : Type ℓ} → (V → Bool) → Table V → List V
rows_of p [] = []
rows_of p ((k, v) ∷ t) = let rest = rows_of p t in if p v then v ∷ rest else rest

abbrev pub blocked_events : ℕ → String → String → List String → List RedactionEvent
blocked_events run_id kind content_hash [] = []
blocked_events run_id kind content_hash (name ∷ names) =
    record {
      run_id = run_id;
      detector_name = name;
      content_hash = content_hash;
      source_locator = codes "artifact:" ++ codes kind;
      resolution_state = "blocked";
    }
    ∷ blocked_events run_id kind content_hash names

abbrev citation_records : ℕ → List Citation → List CitationRecord
citation_records artifact_id [] = []
citation_records artifact_id (c ∷ cs) =
    record { artifact_id = artifact_id; citation = c } ∷ citation_records artifact_id cs

-- What is stored of an artifact with a secret in it.
unfoldable pub blocked_content : ArtifactBase → ArtifactBase
blocked_content artifact = record artifact {
  claims = [];
  unknowns = "artifact content blocked by redaction policy" ∷ [];
  citations = [];
}

module _ (platform : Platform) where
  -- `serialized` is `artifact.model_dump_json()`, by pydantic.
  unfoldable pub stored_row : ArtifactBase → Text → String → String → Bool → Artifact
  stored_row artifact serialized kind redaction_state detected = record {
    run_id = artifact.run_id;
    kind = kind;
    schema_version = artifact.schema_version;
    content_json =
        if detected
        then redaction_blocked (blocked_content artifact)
        else dumped serialized artifact;
    content_hash = platform.sha256 serialized;
    redaction_state = if detected then "blocked" else redaction_state;
  }

  -- The flush refuses a second row of the run and kind. The result is the key of the row.
  unfoldable pub store_artifact : ArtifactBase → Text → String → String → Tx ℕ
  unfolding ◌>>=◌ is_same_artifact stored_row
  store_artifact artifact serialized kind redaction_state = do
    let redaction = redact platform serialized []
    stored ← gets (λ s. rows_of (is_same_artifact artifact.run_id kind) s.artifacts)
    raise_when (not (is_empty stored)) (integrity_error "uq_artifacts_run_kind")
    key ← gets (λ s. s.next_id)
    modify λ s. record s {
      next_id = key + 1;
      artifacts =
          Table.put s.artifacts key
            (stored_row artifact serialized kind redaction_state redaction.detected);
      citations =
          s.citations
          ++ (if redaction.detected then [] else citation_records key artifact.citations);
      redaction_events =
          s.redaction_events
          ++ blocked_events artifact.run_id kind redaction.content_hash redaction.detector_names;
    }
    pure key

-- session.scalar(select(Artifact).where(...)): the first row, if there is one
unfoldable pub get_artifact : Session → ℕ → String → Option Artifact
get_artifact s run_id kind = first (rows_of (is_same_artifact run_id kind) s.artifacts)
  where
    first : List Artifact → Option Artifact
    first [] = none
    first (a ∷ rest) = some a
