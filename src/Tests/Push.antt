-- ===== src/Tests/Push.antt =====
-- The push flow at concrete inputs. The writer counts its writes, and the head is always "aaaa".
use agentic_engineering_lab.Python.Lines.{strip, utf8_length}
use agentic_engineering_lab.Python.Glob.{fnmatch}
use agentic_engineering_lab.Policy.PushGate.{has_no_opt_in, evaluate_push_gate}
use agentic_engineering_lab.Runs.Service.{transition_run}
use agentic_engineering_lab.Policy.Audit.{record_decision}
use agentic_engineering_lab.Runs.Artifacts.Secrets.{
  detections, without_content, store_artifact-blocked,
}
use agentic_engineering_lab.Policy.Patch.{
  has_protected_name, is_test_or_dependency, in_forbidden_folder, is_unsafe_path,
  has_binary_or_link, dev_null, header_of, header_paths, sorted_set, changed_paths, path_refusal,
  first_refusal, validate_unified_diff,
}
use agentic_engineering_lab.Runs.CiPush.Guarded.{push_validated_patch-guarded, Remote, Entered}
use agentic_engineering_lab.Runs.CiPush.Soundness.{push_validated_patch-IsSound}
use agentic_engineering_lab.Domain.Error.{ok}
use agentic_engineering_lab.Tests.Policy.{context, policy, patch_of}
use agentic_engineering_lab.Gateway.Redaction.{blank_out, patterns, found_in, redact}
use agentic_engineering_lab.Tests.Values.{empty_session-IsSound, a_run, empty_session, ascii}
use agentic_engineering_lab.Domain.Status.{may_transition, evaluating, ci, status_eq}
use agentic_engineering_lab.Database.{the_run, redaction_blocked, Artifact, Session}
use agentic_engineering_lab.Runs.Artifacts.{
  store_artifact, stored_row, is_same_artifact, get_artifact,
}
use agentic_engineering_lab.Gateway.Github.{
  Audit, is_allow, run_audit, after_write, after_head, apply_validated_patch, GitHubBranchWriter,
  ValidatedPatchRequest,
}
use agentic_engineering_lab.Prelude.{
  some, refl, none, ◌⊎◌, ◌≡◌, true, ◌+◌, ◌∷◌, is_some, false, codes, [], ℕ, Text,
}
use agentic_engineering_lab.Runs.Service.History.{IsSound}
use agentic_engineering_lab.Domain.Artifact.{ArtifactBase, RecipeEvidence, PatchArtifact}
use agentic_engineering_lab.Gateway.Github.Guarded.{apply_validated_patch-Touched, Touched}
use agentic_engineering_lab.Runs.CiPush.{
  opt_in_expiry, prior_attempts, push_context, precheck_decision, enter_push, precheck_pull,
  precheck_branch, precheck, settle, write_patch, after_precheck, push_validated_patch, PushRequest,
}
use agentic_engineering_lab.Prelude.Table

abbrev counting : GitHubBranchWriter ℕ
counting = record {
  head_sha = λ repository_id branch w. (ok "aaaa", w);
  apply_unified_diff = λ repository_id branch base_sha diff run_id w. (ok "c1", w + 1);
}

abbrev base : ArtifactBase
base = record {
  schema_version = "1";
  run_id = 4;
  role = ci;
  pinned_sha = "aaaa";
  created_at = 900;
  claims = [];
  unknowns = [];
  citations =
      record {
        claim_id = "c";
        source_kind = "file";
        locator = codes "src/app.py";
        pinned_sha = "aaaa";
        excerpt_hash = "e";
      }
      ∷ [];
}

abbrev evidence : RecipeEvidence
evidence = record {
  recipe_name = "test";
  image_digest = "d";
  exit_code = 0;
  started_at = 0;
  finished_at = 1;
  output_hash = "o";
}

abbrev push_request : PushRequest
push_request = record {
  artifact = record {
    base = base;
    base_sha = "aaaa";
    unified_diff = patch_of "src/app.py";
    changed_paths = codes "src/app.py" ∷ [];
    patch_hash = "p";
    reproduction = evidence;
    validation = evidence;
    policy_result = "allow";
  };
  branch = codes "fix";
  observed_head_sha = "aaaa";
  same_repository_branch = true;
  reproduction_passed = true;
  validation_passed = true;
  failure_class = "repository";
  actor = "worker";
}

-- What pydantic dumps, here nothing.
abbrev dump : PatchArtifact → Text
dump artifact = []

abbrev ready : Session
ready = record empty_session {
  next_id = 5;
  runs = (4, a_run evaluating "aaaa" 10) ∷ [];
  opt_ins =
      record {
        repository_id = 7;
        pull_number = 3;
        enabled_by = "ann";
        expires_at = 2000;
        reason = "trial";
      }
      ∷ [];
}

push_test :
    ((push_validated_patch ascii dump policy counting 4 push_request ready 0).0 ≡ ok (some "c1"))
    × ((push_validated_patch ascii dump policy counting 4 push_request ready 0).2 ≡ 1)
unfolding push_validated_patch after_precheck write_patch settle precheck precheck_branch
    precheck_pull enter_push precheck_decision push_context prior_attempts opt_in_expiry the_run
    Table.get Table.put store_artifact is_same_artifact record_decision transition_run
    may_transition status_eq apply_validated_patch after_head after_write run_audit is_allow
    evaluate_push_gate validate_unified_diff first_refusal path_refusal changed_paths sorted_set
    header_paths header_of has_no_opt_in redact found_in patterns blank_out fnmatch dev_null
    has_binary_or_link is_unsafe_path in_forbidden_folder is_test_or_dependency has_protected_name
    utf8_length mathlib.Core.Bool.xor strip
push_test = (refl, refl)

abbrev no_audit : Audit Session
no_audit = none

abbrev sent : ValidatedPatchRequest
sent = record { repository_id = 7; branch = codes "fix"; context = context }

apply_validated_patch-Touched_example :
    Touched counting ascii policy sent 1000 0
      (apply_validated_patch counting no_audit ascii sent policy 1000 ready 0).0
      (apply_validated_patch counting no_audit ascii sent policy 1000 ready 0).2
apply_validated_patch-Touched_example =
    apply_validated_patch-Touched counting no_audit ascii policy sent 1000 ready 0

push_validated_patch-guarded_example :
    ((push_validated_patch ascii dump policy counting 4 push_request ready 0).2 ≡ 0)
    ⊎ ((r : ValidatedPatchRequest) × Entered ascii dump policy 4 push_request ready r
        × Remote ascii dump policy counting r 0
            (push_validated_patch ascii dump policy counting 4 push_request ready 0).2)
push_validated_patch-guarded_example =
    push_validated_patch-guarded ascii dump policy counting 4 push_request ready 0

push_validated_patch-IsSound_example :
    IsSound (push_validated_patch ascii dump policy counting 4 push_request empty_session 0).1
push_validated_patch-IsSound_example =
    push_validated_patch-IsSound ascii dump policy counting 4 push_request empty_session 0
      empty_session-IsSound

-- The same, with a patch stored before.
abbrev retried : Session
retried = record ready { artifacts = (3, stored_row ascii base [] "patch" "clean" false) ∷ [] }

-- The text of an artifact with a secret.
abbrev leak : Text
leak = codes "password = abcdefghijklmnopqrst"

get_artifact_test : is_some (get_artifact retried 4 "patch") ≡ true
unfolding get_artifact is_same_artifact stored_row
get_artifact_test = refl

store_artifact-blocked_example :
    (row : Artifact) × (t : Session) × (store_artifact ascii base leak "diagnosis" "clean" ready
      ≡ (ok 5, t))
    × (Table.get t.artifacts 5 ≡ some row)
    × (row.content_json ≡ redaction_blocked (without_content base))
    × (row.content_hash ≡ "sha")
    × (row.redaction_state ≡ "blocked")
    × (t.citations ≡ [])
    × (t.redaction_events ≡ detections 4 "diagnosis" "sha" (redact ascii leak []).detector_names)
unfolding is_same_artifact redact found_in patterns blank_out mathlib.Core.Bool.xor
store_artifact-blocked_example =
    store_artifact-blocked ascii base leak "diagnosis" "clean" ready refl refl
