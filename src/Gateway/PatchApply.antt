-- ===== src/Gateway/PatchApply.antt =====
-- src/agentic_lab/gateway/patch_apply.py: a unified diff is read, and applied to the base files.
pub mod Parse
pub mod Apply
use agentic_engineering_lab.Python.Lines.{before, strip}
use agentic_engineering_lab.Domain.Error.{unless, ok, value_error, Result, Exception}
use agentic_engineering_lab.Prelude.{
  has_char, split_on, none, mem_text, text_eq, false, drop, ◌||◌, some, codes, true, starts_with,
  ◌==◌, is_empty, Bool, if◌then◌else◌, List, Text, Option, ℕ,
}

pub record TextHunk : Type 0 where
  pub old_start : ℕ
  pub old_count : ℕ
  pub new_start : ℕ
  pub new_count : ℕ
  pub lines : List Text

pub record TextFilePatch : Type 0 where
  pub old_path : Option Text
  pub new_path : Option Text
  pub hunks : List TextHunk

-- Bytes: those that decode as UTF-8, given by their text, and others, of which it is told whether
-- one is zero.
pub data Bytes : Type 0 where
  utf8 : Text → Bytes
  undecodable : Bool → Bytes

pub record AppliedFile : Type 0 where
  pub old_path : Option Text
  pub new_path : Option Text
  pub content : Option Bytes

-- "/" and ".." of a path that leaves the repository
unfoldable pub is_unsafe_name : Text → Bool
is_unsafe_name value =
    is_empty value
    || starts_with value (codes "/")
    || mem_text (codes "..") (split_on b'/' value)
    || has_char 0 value

unfoldable pub without_side : Text → Text
without_side value =
    if starts_with value (codes "a/") || starts_with value (codes "b/") then drop 2 value else value

-- _header_path
unfoldable pub header_path : Text → Result (Option Text)
unfolding without_side
header_path raw =
    let value = strip (before 9 raw) in
    if text_eq value (codes "/dev/null")
    then ok none
    else unless (is_unsafe_name (without_side value)) (value_error "unified diff path is unsafe")
        (ok (some (without_side value)))

abbrev pub mismatch : Exception
mismatch = value_error "unified diff hunk counts do not match its body"

abbrev pub is_none : Option Text → Bool
is_none none = true
is_none (some a) = false

-- line[0] in {...}, for a first character
unfoldable pub is_old_side : ℕ → Bool
is_old_side c = c == 32 || c == b'-'

unfoldable pub is_new_side : ℕ → Bool
is_new_side c = c == 32 || c == b'+'
