-- ===== src/Tests/Patches.antt =====
-- A diff of one line: it is read, and its hunk applied.
use agentic_engineering_lab.Python.Lines.{join_lines, before, strip, splitlines}
use agentic_engineering_lab.Domain.Error.{value_error, raised, ok}
use agentic_engineering_lab.Tests.Values.{ascii}
use agentic_engineering_lab.Gateway.PatchApply.Apply.Reverse.{patched_lines-turned, AreTurned}
use agentic_engineering_lab.Gateway.PatchApply.Parse.Shape.{
  parse_text_diff-IsWholeFile, IsWholeFile,
}
use agentic_engineering_lab.Gateway.PatchApply.Apply.Weave.{patched_lines-Woven, Woven}
use agentic_engineering_lab.Gateway.PatchApply.Parse.{
  close_file, close_hunk, hunk_line, is_open, too_long, parse_text_diff,
}
use agentic_engineering_lab.Gateway.PatchApply.{
  is_unsafe_name, is_new_side, is_old_side, header_path, utf8, TextFilePatch, TextHunk,
}
use agentic_engineering_lab.Prelude.{
  none, text_eq, if◌then◌else◌, refl, ◌++◌, ◌≡◌, [], ◌∷◌, some, codes, Text, All, List,
}
use agentic_engineering_lab.Gateway.PatchApply.Apply.{
  apply_file, rendered, apply_line, apply_lines, apply_hunk, apply_text_diff, patched_lines,
}

abbrev new_line : Text
new_line = 10 ∷ []

abbrev one_line_diff : Text
one_line_diff =
    codes "--- a/f.py"
    ++ new_line
    ++ codes "+++ b/f.py"
    ++ new_line
    ++ codes "@@ -2 +2 @@"
    ++ new_line
    ++ codes "-b"
    ++ new_line
    ++ codes "+c"

abbrev one_line_hunk : TextHunk
one_line_hunk = record {
  old_start = 2;
  old_count = 1;
  new_start = 2;
  new_count = 1;
  lines = codes "-b" ∷ codes "+c" ∷ [];
}

abbrev one_line_file : TextFilePatch
one_line_file = record {
  old_path = some (codes "f.py");
  new_path = some (codes "f.py");
  hunks = one_line_hunk ∷ [];
}

abbrev base : List Text
base = codes "a" ∷ codes "b" ∷ []

abbrev changed : List Text
changed = codes "a" ∷ codes "c" ∷ []

one_line_read : parse_text_diff ascii one_line_diff ≡ ok (one_line_file ∷ [])
unfolding parse_text_diff splitlines header_path strip before is_unsafe_name too_long is_open
    hunk_line close_hunk close_file
one_line_read = refl

one_line_applied : patched_lines (one_line_hunk ∷ []) base ≡ ok changed
unfolding patched_lines apply_hunk apply_lines apply_line is_old_side is_new_side
one_line_applied = refl

-- A hunk elsewhere than its lines does not apply.
misplaced_hunk :
    patched_lines (record one_line_hunk { old_start = 1; new_start = 1 } ∷ []) base
    ≡ raised (value_error "unified diff context does not match the base file")
unfolding patched_lines apply_hunk apply_lines apply_line is_old_side is_new_side
misplaced_hunk = refl

whole_diff_applied :
    apply_text_diff ascii one_line_diff (λ path.
      if text_eq path (codes "f.py")
      then some (utf8 (codes "a" ++ new_line ++ codes "b" ++ new_line))
      else none)
    ≡ ok (
        record {
          old_path = some (codes "f.py");
          new_path = some (codes "f.py");
          content = some (utf8 (codes "a" ++ new_line ++ codes "c" ++ new_line));
        }
        ∷ [])
unfolding apply_text_diff splitlines header_path strip before is_unsafe_name too_long is_open
    hunk_line close_hunk close_file patched_lines apply_hunk apply_lines apply_line is_old_side
    is_new_side rendered apply_file join_lines
whole_diff_applied = refl

parse_text_diff-IsWholeFile_example : All IsWholeFile (one_line_file ∷ [])
parse_text_diff-IsWholeFile_example =
    parse_text_diff-IsWholeFile ascii one_line_diff (one_line_file ∷ []) one_line_read

patched_lines-Woven_example : Woven 0 (one_line_hunk ∷ []) base changed
patched_lines-Woven_example = patched_lines-Woven (one_line_hunk ∷ []) base changed one_line_applied

patched_lines-turned_example :
    (back : List TextHunk) × AreTurned (one_line_hunk ∷ []) back
    × (patched_lines back changed ≡ ok base)
patched_lines-turned_example =
    patched_lines-turned (one_line_hunk ∷ []) base changed ((refl, (refl, tt)), tt) one_line_applied
