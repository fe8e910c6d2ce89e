-- ===== src/Tests/Policy.antt =====
-- The patch policy, the push gate and redaction at concrete inputs.
use agentic_engineering_lab.Python.Lines.{strip, utf8_length}
use agentic_engineering_lab.Python.Glob.{fnmatch}
use agentic_engineering_lab.Gateway.Redaction.Laws.{redact_lem}
use agentic_engineering_lab.Policy.Patch.Allow.{validate_unified_diff_lem, IsSourcePatch}
use agentic_engineering_lab.Policy.PushGate.Verdicts.{
  evaluate_push_gate_lem, secret_denied, IsPushable,
}
use agentic_engineering_lab.Domain.Status.{deny, allow}
use agentic_engineering_lab.Tests.Values.{ascii}
use agentic_engineering_lab.Gateway.Redaction.{with_manifest, blank_out, patterns, found_in, redact}
use agentic_engineering_lab.Prelude.{
  xor, ◌||◌, ltb, if◌then◌else◌, refl, ◌⊎◌, split_on, ◌↔◌, any, mem_text, true, ◌≡◌, ◌∷◌, [], ◌++◌,
  codes, Text, some, String,
}
use agentic_engineering_lab.Policy.Patch.Paths.{changed_paths_lem, names_path, IsAscending}
use agentic_engineering_lab.Policy.Patch.{
  has_protected_name, is_test_or_dependency, in_forbidden_folder, is_unsafe_path,
  has_binary_or_link, dev_null, header_of, header_paths, sorted_set, path_refusal, first_refusal,
  changed_paths, validate_unified_diff, PatchPolicy,
}
use agentic_engineering_lab.Policy.PushGate.{
  has_no_opt_in, context_hash, evaluate_push_gate, PushContext,
}

abbrev pub policy : PatchPolicy
policy = record {
  allowed_source_paths = codes "src/*" ∷ [];
  protected_paths = codes "src/generated/*" ∷ [];
  max_changed_files = 2;
  max_patch_bytes = 200;
}

abbrev pub patch_of : String → Text
patch_of path =
    codes "--- a/"
    ++ codes path
    ++ codes "\n+++ b/"
    ++ codes path
    ++ codes "\n@@ -1 +1 @@\n-x\n+y\n"

abbrev pub context : PushContext
context = record {
  run_id = 4;
  pinned_sha = "aaaa";
  observed_head_sha = "aaaa";
  patch_base_sha = "aaaa";
  opt_in_expires_at = some 2000;
  same_repository_branch = true;
  reproduction_passed = true;
  validation_passed = true;
  failure_class = "repository";
  attempt_count = 0;
  diff = patch_of "src/app.py";
}

gate_allows : (evaluate_push_gate ascii context policy 1000).outcome ≡ allow
unfolding evaluate_push_gate validate_unified_diff first_refusal path_refusal changed_paths
    sorted_set header_paths header_of has_no_opt_in redact found_in patterns blank_out fnmatch
    dev_null has_binary_or_link is_unsafe_path in_forbidden_folder is_test_or_dependency
    has_protected_name utf8_length mathlib.Core.Bool.xor strip
gate_allows = refl

evaluate_push_gate_lem_example :
    (((evaluate_push_gate ascii context policy 1000).outcome ≡ allow)
      ↔ IsPushable ascii policy context 1000)
    × ((evaluate_push_gate ascii context policy 1000).input_hash ≡ context_hash ascii context)
evaluate_push_gate_lem_example = evaluate_push_gate_lem ascii policy context 1000

abbrev leaking : PushContext
leaking = record context { diff = codes "+password = \"abcdefghijklmnopqrst\"\n" }

secret_denied_example :
    ((evaluate_push_gate ascii leaking policy 1000).outcome ≡ deny)
    × ((evaluate_push_gate ascii leaking policy 1000).changed_paths ≡ [])
unfolding redact found_in patterns blank_out mathlib.Core.Bool.xor
secret_denied_example = secret_denied ascii policy leaking 1000 refl

validate_unified_diff_lem_example :
    (((validate_unified_diff ascii (patch_of "src/app.py") policy).outcome ≡ allow)
      ↔ IsSourcePatch ascii policy (patch_of "src/app.py"))
    × ((validate_unified_diff ascii (patch_of "src/app.py") policy).changed_paths ≡ (
        if ltb 200 (utf8_length (patch_of "src/app.py"))
          || has_binary_or_link (patch_of "src/app.py")
        then []
        else changed_paths (patch_of "src/app.py")))
    × ((validate_unified_diff ascii (patch_of "src/app.py") policy).input_hash ≡ "sha")
validate_unified_diff_lem_example = validate_unified_diff_lem ascii policy (patch_of "src/app.py")

changed_paths_lem_example :
    IsAscending (changed_paths (patch_of "src/app.py"))
    × (mem_text (codes "src/app.py") (changed_paths (patch_of "src/app.py"))
        ≡ any (names_path (codes "src/app.py")) (split_on 10 (patch_of "src/app.py")))
changed_paths_lem_example = changed_paths_lem (patch_of "src/app.py") (codes "src/app.py")

redact_lem_example :
    ((redact ascii leaking.diff []).detected
      ≡ any (λ d. found_in ascii d.1 leaking.diff) (patterns ++ with_manifest []))
    × ((redact ascii leaking.diff []).text ≡ leaking.diff
        ⊎ ((redact ascii leaking.diff []).detected ≡ true))
    × ((redact ascii leaking.diff []).content_hash ≡ "sha")
redact_lem_example = redact_lem ascii leaking.diff []
