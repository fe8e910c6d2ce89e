-- ===== src/Policy/Patch.antt =====
-- src/agentic_lab/policy/patch.py: the deterministic policy on a unified diff.
pub mod Paths
pub mod Allow
use agentic_engineering_lab.Python.Glob.{fnmatch}
use agentic_engineering_lab.Domain.Status.{allow, deny, PolicyOutcome}
use agentic_engineering_lab.Prelude.{
  length, leb, not, ◌==◌, is_empty, ends_with, has_char, mem_text, any, ◌&&◌, ltb, drop, text_eq,
  ◌||◌, true, false, none, starts_with, some, contains, codes, [], if◌then◌else◌, split_on, String,
  Bool, map, ◌∷◌, ℕ, Option, List, Text,
}
use agentic_engineering_lab.Python.Lines.{utf8_length, strip, before}
use agentic_engineering_lab.Python.{Platform}

unfoldable pub forbidden_path_parts : List Text
forbidden_path_parts = map codes (
    ".github/" ∷ "migrations/" ∷ "alembic/" ∷ "infra/" ∷ "infrastructure/" ∷ "auth/"
    ∷ "authentication/" ∷ "authorization/" ∷ "secrets/" ∷ [])

unfoldable pub forbidden_names : List Text
forbidden_names = map codes (
    "dockerfile" ∷ "compose.yaml" ∷ "compose.yml" ∷ "pyproject.toml" ∷ "package.json" ∷ "cargo.toml"
    ∷ "go.mod" ∷ "requirements.txt" ∷ "poetry.lock" ∷ "package-lock.json" ∷ "pnpm-lock.yaml"
    ∷ "yarn.lock" ∷ [])

unfoldable pub forbidden_suffixes : List Text
forbidden_suffixes = map codes (".lock" ∷ ".pem" ∷ ".key" ∷ [])

unfoldable pub test_markers : List Text
test_markers = map codes ("/tests/" ∷ "/test_" ∷ "_test.py" ∷ ".test." ∷ ".spec." ∷ [])

pub record PatchPolicy : Type 0 where
  pub allowed_source_paths : List Text
  pub protected_paths : List Text
  pub max_changed_files : ℕ
  pub max_patch_bytes : ℕ

pub record PolicyResult : Type 0 where
  pub outcome : PolicyOutcome
  pub reason_code : String
  pub changed_paths : List Text
  pub input_hash : String

-- text.lower().rsplit("/", 1)[-1] and text.split("/")[:-1]: the last part, and the parts before it
abbrev pub last_part : List Text → Text
last_part [] = []
last_part (w ∷ []) = w
last_part (w ∷ v ∷ ws) = last_part (v ∷ ws)

abbrev pub but_last : List Text → List Text
but_last [] = []
but_last (w ∷ []) = []
but_last (w ∷ v ∷ ws) = w ∷ but_last (v ∷ ws)

-- The order of Python's strings, and `sorted(set(...))`.
unfoldable pub text_lt : Text → Text → Bool
text_lt s [] = false
text_lt [] (b ∷ t) = true
text_lt (a ∷ s) (b ∷ t) = ltb a b || (a == b && text_lt s t)

unfoldable pub insert_sorted : Text → List Text → List Text
unfolding text_lt
insert_sorted s [] = s ∷ []
insert_sorted s (t ∷ ts) =
    if text_eq s t then t ∷ ts else if text_lt s t then s ∷ t ∷ ts else t ∷ insert_sorted s ts

unfoldable pub sorted_set : List Text → List Text
unfolding insert_sorted
sorted_set [] = []
sorted_set (s ∷ ts) = insert_sorted s (sorted_set ts)

-- The group of `_DIFF_HEADER` behind "--- " or "+++ ": the side's prefix is passed over if a name
-- is left behind it, and the name ends at a tab.
unfoldable pub header_name : Text → Option Text
unfolding before
header_name rest = without_prefix (starts_with rest (codes "a/") || starts_with rest (codes "b/"))
  where
    some_name : Text → Option Text
    some_name [] = none
    some_name (c ∷ s) = some (c ∷ s)

    or_else : Option Text → Option Text → Option Text
    or_else (some s) o = some s
    or_else none o = o

    without_prefix : Bool → Option Text
    without_prefix true = or_else (some_name (before 9 (drop 2 rest))) (some_name (before 9 rest))
    without_prefix false = some_name (before 9 rest)

-- One match of `_DIFF_HEADER.findall`, if the line is a header.
unfoldable pub header_of : Text → Option Text
unfolding header_name
header_of line =
    if starts_with line (codes "--- ") || starts_with line (codes "+++ ")
    then header_name (drop 4 line)
    else none

-- The names that the loop of `_changed_paths` collects, line by line.
unfoldable pub dev_null : Text
dev_null = codes "/dev/null"

unfoldable pub header_paths : List Text → List Text
header_paths [] = []
header_paths (line ∷ lines) = collect (header_of line) (header_paths lines)
  where
    collect : Option Text → List Text → List Text
    collect none paths = paths
    collect (some raw) paths = if text_eq (strip raw) dev_null then paths else strip raw ∷ paths

-- In multi-line mode `^` stands behind "\n" only.
unfoldable pub changed_paths : Text → List Text
changed_paths diff = sorted_set (header_paths (split_on 10 diff))

-- ^Binary files .+ differ$
abbrev binary_notice : Text → Bool
binary_notice line =
    starts_with line (codes "Binary files ")
    && ends_with line (codes " differ")
    && leb 21 (length line)

unfoldable pub has_binary_or_link : Text → Bool
has_binary_or_link diff =
    contains diff (codes "GIT binary patch")
    || any binary_notice (split_on 10 diff)
    || contains diff (codes "new file mode 120000")
    || contains diff (codes "Subproject commit")

-- The tests of the loop over the paths, each on the path, its lower case or the last part of that.
unfoldable pub is_unsafe_path : Text → Bool
is_unsafe_path path =
    starts_with path (codes "../") || starts_with path (codes "/") || has_char 0 path

unfoldable pub in_forbidden_folder : Text → Bool
unfolding forbidden_path_parts
in_forbidden_folder lowered =
    any (contains lowered) forbidden_path_parts
    || any (λ part. starts_with part (codes "auth")) (but_last (split_on b'/' lowered))

unfoldable pub is_test_or_dependency : Text → Text → Bool
unfolding forbidden_names forbidden_suffixes test_markers
is_test_or_dependency lowered name =
    mem_text name forbidden_names
    || any (ends_with lowered) forbidden_suffixes
    || starts_with lowered (codes "test_")
    || starts_with lowered (codes "tests/")
    || any (contains lowered) test_markers

unfoldable pub has_protected_name : Text → Bool
has_protected_name name =
    starts_with name (codes "auth")
    || starts_with name (codes "authorization")
    || starts_with name (codes "authentication")
    || contains name (codes "_auth")
    || ends_with name (codes ".tf")

module _ (platform : Platform) where
  -- The body of the loop: the reason of the first test that refuses the path.
  unfoldable pub path_refusal : PatchPolicy → Text → Option String
  path_refusal policy path =
      let lowered = platform.lower path in
      let name = last_part (split_on b'/' lowered) in
      if is_unsafe_path path
      then some "unsafe_path"
      else if in_forbidden_folder lowered
      then some "protected_path"
      else if is_test_or_dependency lowered name
      then some "test_or_dependency_path"
      else if any (fnmatch path) policy.protected_paths
      then some "manifest_protected_path"
      else if has_protected_name name
      then some "protected_path"
      else if not (any (fnmatch path) policy.allowed_source_paths)
      then some "path_not_allowlisted"
      else none

  -- The loop returns at the first path that is refused.
  unfoldable pub first_refusal : PatchPolicy → List Text → Option String
  first_refusal policy [] = none
  first_refusal policy (path ∷ paths) =
      or_next (path_refusal policy path) (first_refusal policy paths)
    where
      or_next : Option String → Option String → Option String
      or_next (some reason) rest = some reason
      or_next none rest = rest

  abbrev pub verdict : Option String → List Text → String → PolicyResult
  verdict (some reason) paths input_hash = record {
    outcome = deny;
    reason_code = reason;
    changed_paths = paths;
    input_hash = input_hash;
  }
  verdict none paths input_hash = record {
    outcome = allow;
    reason_code = "source_only_patch";
    changed_paths = paths;
    input_hash = input_hash;
  }

  unfoldable pub validate_unified_diff : Text → PatchPolicy → PolicyResult
  validate_unified_diff diff policy =
      let input_hash = platform.sha256 diff in
      let paths = changed_paths diff in
      if ltb policy.max_patch_bytes (utf8_length diff)
      then verdict (some "patch_too_large") [] input_hash
      else if has_binary_or_link diff
      then verdict (some "binary_or_link_change") [] input_hash
      else if is_empty paths
      then verdict (some "no_changed_source_path") [] input_hash
      else if ltb policy.max_changed_files (length paths)
      then verdict (some "too_many_changed_files") paths input_hash
      else verdict (first_refusal policy paths) paths input_hash
