-- ===== src/Runs/Artifacts/Secrets.antt =====
-- What is kept of an artifact with a secret in it, and that no artifact is stored twice.
use agentic_engineering_lab.Prelude.Table.{get-put}
use agentic_engineering_lab.Prelude.Table
use agentic_engineering_lab.Domain.Error.{ok, integrity_error, raised}
use agentic_engineering_lab.Gateway.Redaction.{redact}
use agentic_engineering_lab.Runs.Artifacts.{
  blocked_events, blocked_content, is_same_artifact, rows_of, stored_row, store_artifact,
}
use agentic_engineering_lab.Database.{
  RedactionEvent, CitationRecord, redaction_blocked, Artifact, Session,
}
use agentic_engineering_lab.Domain.Artifact.{ArtifactBase}
use agentic_engineering_lab.Python.{Platform}
use agentic_engineering_lab.Prelude.{
  map, codes, ap, ==_refl, refl, ◌++◌, ◌∷◌, some, arith, [], true, false, ◌≡◌, is_empty, Text, List,
  String, ℕ,
}

-- The artifact's frame, with nothing of its content.
abbrev pub without_content : ArtifactBase → ArtifactBase
without_content artifact = record {
  schema_version = artifact.schema_version;
  run_id = artifact.run_id;
  role = artifact.role;
  pinned_sha = artifact.pinned_sha;
  created_at = artifact.created_at;
  claims = [];
  unknowns = "artifact content blocked by redaction policy" ∷ [];
  citations = [];
}

-- The detection of one secret in an artifact.
abbrev pub detection : ℕ → String → String → String → RedactionEvent
detection run_id kind content_hash name = record {
  run_id = run_id;
  detector_name = name;
  content_hash = content_hash;
  source_locator = codes "artifact:" ++ codes kind;
  resolution_state = "blocked";
}

-- One for each name.
abbrev pub detections : ℕ → String → String → List String → List RedactionEvent
detections run_id kind content_hash names = map (detection run_id kind content_hash) names

blocked_events-detections :
    (run_id : ℕ) (kind content_hash : String) (names : List String)
    → blocked_events run_id kind content_hash names ≡ detections run_id kind content_hash names
blocked_events-detections run_id kind content_hash [] = refl
blocked_events-detections run_id kind content_hash (n ∷ ns) =
    rw (blocked_events-detections run_id kind content_hash ns)

module _ (platform : Platform) (artifact : ArtifactBase) (serialized : Text) (kind state : String)
    (s : Session) where
  -- A second artifact of a run and kind is refused, and nothing changes.
  pub store_artifact_twice :
      is_empty (rows_of (is_same_artifact artifact.run_id kind) s.artifacts) ≡ false
      → store_artifact platform artifact serialized kind state s
        ≡ (raised (integrity_error "uq_artifacts_run_kind"), s)
  unfolding store_artifact
  store_artifact_twice old = ground arith

  -- An artifact in whose text a secret is detected is stored without its content, marked as blocked:
  -- with no claim, no citation and, as its only unknown, that it was blocked. The row has the hash of
  -- the full text and the next key, no citation row is added, and there is one redaction event more
  -- for each detector that found something, with its name, the run, the kind and the hash.
  pub store_artifact-blocked :
      is_empty (rows_of (is_same_artifact artifact.run_id kind) s.artifacts) ≡ true
      → (redact platform serialized []).detected ≡ true
      → (row : Artifact) × (t : Session) × (store_artifact platform artifact serialized kind state s
          ≡ (ok s.next_id, t))
        × (Table.get t.artifacts s.next_id ≡ some row)
        × (row.content_json ≡ redaction_blocked (without_content artifact))
        × (row.content_hash ≡ platform.sha256 serialized)
        × (row.redaction_state ≡ "blocked")
        × (t.citations ≡ s.citations)
        × (t.redaction_events
            ≡ s.redaction_events
              ++ detections artifact.run_id kind
                  (platform.sha256 serialized)
                  (redact platform serialized []).detector_names)
  unfolding store_artifact stored_row blocked_content redact
  store_artifact-blocked new found =
      rw (new, found)
        (
          stored_row platform artifact serialized kind state true,
          _,
          refl,
          rw (get-put, ==_refl s.next_id) refl,
          refl,
          refl,
          refl,
          no_more s.citations,
          ap (λ es. s.redaction_events ++ es)
              (blocked_events-detections artifact.run_id kind
                (redact platform serialized []).content_hash
                (redact platform serialized []).detector_names),
        )
    where
      no_more : (cs : List CitationRecord) → cs ++ [] ≡ cs
      no_more [] = refl
      no_more (c ∷ cs) = rw (no_more cs)
