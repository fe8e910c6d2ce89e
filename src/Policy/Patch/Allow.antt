-- ===== src/Policy/Patch/Allow.antt =====
-- What an allowed diff is known to be.
use agentic_engineering_lab.Python.Glob.{fnmatch}
use agentic_engineering_lab.Domain.Status.{allow}
use agentic_engineering_lab.Python.Lines.{utf8_length}
use agentic_engineering_lab.Prelude.{
  ◌||◌, ltb, if◌then◌else◌, refl, [], true, any, inl, split_on, inr, length, Option-cases, is_empty,
  ◌↔◌, arith, ◌∷◌, false, ◌≤◌, All, none, List, ◌≡◌, Text,
}
use agentic_engineering_lab.Policy.Patch.{
  has_protected_name, last_part, is_test_or_dependency, changed_paths, in_forbidden_folder,
  has_binary_or_link, is_unsafe_path, first_refusal, validate_unified_diff, path_refusal,
  PatchPolicy,
}
use agentic_engineering_lab.Python.{Platform}

module _ (platform : Platform) (policy : PatchPolicy) where
  -- Every test of the policy on one path, stated for the path itself.
  pub record IsSourcePath (path : Text) : Type 0 where
    pub relative : is_unsafe_path path ≡ false
    pub unforbidden : in_forbidden_folder (platform.lower path) ≡ false
    pub ordinary :
        is_test_or_dependency
          (platform.lower path)
          (last_part (split_on b'/' (platform.lower path)))
        ≡ false
    pub unprotected : any (fnmatch path) policy.protected_paths ≡ false
    pub unprotected_name :
        has_protected_name (last_part (split_on b'/' (platform.lower path))) ≡ false
    pub allowlisted : any (fnmatch path) policy.allowed_source_paths ≡ true

  path_refusal-IsSourcePath :
      (path : Text) → path_refusal platform policy path ≡ none → IsSourcePath path
  unfolding path_refusal
  path_refusal-IsSourcePath path h = ground arith

  path_refusal-none : (path : Text) → IsSourcePath path → path_refusal platform policy path ≡ none
  unfolding path_refusal
  path_refusal-none path h = ground arith

  first_refusal-All :
      (paths : List Text) → first_refusal platform policy paths ≡ none → All IsSourcePath paths
  unfolding first_refusal
  first_refusal-All [] h = tt
  first_refusal-All (path ∷ paths) h = elim (Option-cases (path_refusal platform policy path)) [
    | inr (reason, e) ↦ absurd (ground arith)
    | inl fine ↦ (path_refusal-IsSourcePath path fine, first_refusal-All paths (ground arith))
  ]

  first_refusal-none :
      (paths : List Text) → All IsSourcePath paths → first_refusal platform policy paths ≡ none
  unfolding first_refusal
  first_refusal-none [] h = refl
  first_refusal-none (path ∷ paths) h =
      rw (path_refusal-none path h.0) (first_refusal-none paths h.1)

  -- The whole policy on a diff, with no order among the tests.
  pub record IsSourcePatch (diff : Text) : Type 0 where
    pub small : utf8_length diff ≤ policy.max_patch_bytes
    pub textual : has_binary_or_link diff ≡ false
    pub nonempty : is_empty (changed_paths diff) ≡ false
    pub few : length (changed_paths diff) ≤ policy.max_changed_files
    pub source_paths : All IsSourcePath (changed_paths diff)

  allow-IsSourcePatch :
      (diff : Text)
      → (validate_unified_diff platform diff policy).outcome ≡ allow
      → IsSourcePatch diff
  unfolding validate_unified_diff
  allow-IsSourcePatch diff h = record {
    small = ground arith;
    textual = ground arith;
    nonempty = ground arith;
    few = ground arith;
    source_paths = first_refusal-All (changed_paths diff) (ground arith);
  }

  IsSourcePatch-allow :
      (diff : Text)
      → IsSourcePatch diff
      → (validate_unified_diff platform diff policy).outcome ≡ allow
  unfolding validate_unified_diff
  IsSourcePatch-allow diff p =
      ground (arith, first_refusal-none (changed_paths diff) p.source_paths)

  -- The policy allows a diff exactly if the diff is a source patch. Whatever it decides, it reports
  -- the hash of the diff, and all changed paths unless the diff is too large or not textual.
  pub validate_unified_diff_lem :
      (diff : Text)
      → (((validate_unified_diff platform diff policy).outcome ≡ allow) ↔ IsSourcePatch diff)
        × ((validate_unified_diff platform diff policy).changed_paths ≡ (
            if ltb policy.max_patch_bytes (utf8_length diff) || has_binary_or_link diff
            then []
            else changed_paths diff))
        × ((validate_unified_diff platform diff policy).input_hash ≡ platform.sha256 diff)
  unfolding validate_unified_diff
  validate_unified_diff_lem diff =
      ((allow-IsSourcePatch diff, IsSourcePatch-allow diff), ground arith, ground arith)
