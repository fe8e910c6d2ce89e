-- ===== src/Gateway/PatchApply/Apply.antt =====
-- apply_text_diff: the hunks of each file over the lines of its base.
pub mod Body
pub mod Weave
pub mod Complete
pub mod Reverse
use agentic_engineering_lab.Python.Lines.{splitlines, join_lines}
use agentic_engineering_lab.Python.{Platform}
use agentic_engineering_lab.Gateway.PatchApply.Parse.{parse_text_diff}
use agentic_engineering_lab.Gateway.PatchApply.{
  mismatch, is_none, undecodable, is_new_side, is_old_side, TextFilePatch, AppliedFile, utf8, Bytes,
  TextHunk,
}
use agentic_engineering_lab.Domain.Error.{unless, ok, ◌>>=◌, raised, value_error, Result, Exception}
use agentic_engineering_lab.Prelude.{
  ◌==◌, false, ends_with, take, has_char, drop, length, none, text_eq, ◌||◌, true, some, ◌+◌, not,
  ltb, if◌then◌else◌, [], ◌∷◌, ◌-◌, Bool, Option, ◌++◌, Text, ℕ, List,
}

-- The state of the loop over the lines of a hunk: the lines of the base file that are left, the lines
-- of the result, and how many of either side were seen.
pub record Cursor : Type 0 where
  pub cursor : ℕ
  pub left : List Text
  pub result : List Text
  pub old_seen : ℕ
  pub new_seen : ℕ

abbrev pub no_match : Exception
no_match = value_error "unified diff context does not match the base file"

-- source_lines[cursor] == content, for the lines from the cursor on, and the step over it
abbrev pub pass_over : Text → Cursor → List Text → Result Cursor
pass_over content at [] = raised no_match
pass_over content at (line ∷ left) =
    unless (not (text_eq line content)) no_match
      (ok (record at { cursor = at.cursor + 1; left = left; old_seen = at.old_seen + 1 }))

unfoldable pub pass_line : Text → Cursor → Result Cursor
pass_line content at = pass_over content at at.left

unfoldable pub put_line : Text → Cursor → Cursor
put_line content at = record at { result = at.result ++ content ∷ []; new_seen = at.new_seen + 1 }

-- A line of a body: its first character says to which sides it belongs. A body has no empty line.
unfoldable pub apply_line : Text → Cursor → Result Cursor
unfolding pass_line put_line
apply_line [] at = raised (value_error "string index out of range")
apply_line (marker ∷ content) at = do
  passed ← (if is_old_side marker then pass_line content at else ok at)
  ok (if is_new_side marker then put_line content passed else passed)

unfoldable pub apply_lines : List Text → Cursor → Result Cursor
apply_lines [] at = ok at
apply_lines (line ∷ lines) at = do next ← apply_line line at; apply_lines lines next

-- The body of the loop over the hunks. `target - cursor` lines are kept as they are.
unfoldable pub apply_hunk : TextHunk → Cursor → Result Cursor
apply_hunk hunk at =
    let target = hunk.old_start - 1 in
    unless (ltb target at.cursor || ltb (at.cursor + length at.left) target)
      (value_error "unified diff hunk range is invalid")
      (do
        done ← apply_lines hunk.lines (record {
          cursor = target;
          left = drop (target - at.cursor) at.left;
          result = at.result ++ take (target - at.cursor) at.left;
          old_seen = 0;
          new_seen = 0;
        })
        unless (not (done.old_seen == hunk.old_count) || not (done.new_seen == hunk.new_count))
            mismatch (ok done))

unfoldable pub apply_hunks : List TextHunk → Cursor → Result Cursor
apply_hunks [] at = ok at
apply_hunks (hunk ∷ hunks) at = do next ← apply_hunk hunk at; apply_hunks hunks next

-- The lines of a file after its hunks.
unfoldable pub patched_lines : List TextHunk → List Text → Result (List Text)
unfolding apply_hunks
patched_lines hunks source = do
  done ←
      apply_hunks hunks
        (record { cursor = 0; left = source; result = []; old_seen = 0; new_seen = 0 })
  ok (done.result ++ done.left)

-- The base of a file: its text, and whether that ends a line.
unfoldable pub original_of : (Text → Option Bytes) → Option Text → Result (Text × Bool)
original_of originals none = ok ([], true)
original_of originals (some path) = elim (originals path) [
  | none ↦ raised (value_error "unified diff base file is unavailable")
  | some (undecodable true) ↦ raised (value_error "unified diff cannot apply to binary content")
  | some (undecodable false) ↦ raised (value_error "unified diff base file is not UTF-8 text")
  | some (utf8 text) ↦
      unless (has_char 0 text) (value_error "unified diff cannot apply to binary content")
        (ok (text, ends_with text (10 ∷ [])))
]

unfoldable pub rendered : List Text → Bool → Bytes
rendered lines newline = utf8 (if newline then join_lines lines ++ 10 ∷ [] else join_lines lines)

unfoldable pub apply_file : (Text → Option Bytes) → TextFilePatch → Result AppliedFile
unfolding patched_lines original_of rendered
apply_file originals file = do
  (original, newline) ← original_of originals file.old_path
  lines ← patched_lines file.hunks (splitlines original)
  ok (record {
    old_path = file.old_path;
    new_path = file.new_path;
    content = content_of file.new_path lines (newline || is_none file.old_path);
  })
  where
    content_of : Option Text → List Text → Bool → Option Bytes
    content_of none lines newline = none
    content_of (some path) lines newline = some (rendered lines newline)

unfoldable pub apply_files : (Text → Option Bytes) → List TextFilePatch → Result (List AppliedFile)
apply_files originals [] = ok []
apply_files originals (file ∷ files) = do
  applied ← apply_file originals file
  rest ← apply_files originals files
  ok (applied ∷ rest)

unfoldable pub apply_text_diff : Platform → Text → (Text → Option Bytes) → Result (List AppliedFile)
unfolding parse_text_diff apply_files
apply_text_diff platform diff originals = do
  files ← parse_text_diff platform diff
  apply_files originals files
