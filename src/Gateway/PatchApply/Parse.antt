-- ===== src/Gateway/PatchApply/Parse.antt =====
-- parse_text_diff: the loops over the lines, as one pass with a mode.
pub mod Shape
use agentic_engineering_lab.Python.Lines.{splitlines}
use agentic_engineering_lab.Python.{Platform}
use agentic_engineering_lab.Prelude.{
  ◌+◌, is_empty, length, ◌&&◌, ◌++◌, not, ◌*◌, drop, text_eq, false, [], codes, true, ◌||◌, none,
  starts_with, ◌==◌, if◌then◌else◌, ℕ, List, some, ◌∷◌, ltb, Bool, Text, Option,
}
use agentic_engineering_lab.Gateway.PatchApply.{
  header_path, is_none, mismatch, is_new_side, TextFilePatch, is_old_side, TextHunk,
}
use agentic_engineering_lab.Domain.Error.{ok, unless, ◌>>=◌, raised, Result, value_error, Exception}

-- The file that is being read, and the hunk in it.
pub record OpenHunk : Type 0 where
  pub hunk : TextHunk
  pub long_start : Bool
  pub old_seen : ℕ
  pub new_seen : ℕ

-- Where the loops of `parse_text_diff` stand before a line: outside of a file, behind the first line of
-- a header, in a file, or in a hunk.
pub data Mode : Type 0 where
  outside : Mode
  behind_old : Text → Mode
  in_file : TextFilePatch → Mode
  in_hunk : TextFilePatch → OpenHunk → Mode

abbrev pub digit_limit : Exception
digit_limit = value_error "Exceeds the limit (4300 digits) for integer string conversion"

-- Behind a hunk's body: the hunk joins the file.
unfoldable pub close_hunk : TextFilePatch → OpenHunk → Result TextFilePatch
close_hunk file h =
    unless (not (h.old_seen == h.hunk.old_count) || not (h.new_seen == h.hunk.new_count)) mismatch
      (unless h.long_start digit_limit (ok (record file { hunks = file.hunks ++ h.hunk ∷ [] })))

abbrev path_option_eq : Option Text → Option Text → Bool
path_option_eq none none = true
path_option_eq (some a) (some b) = text_eq a b
path_option_eq _ _ = false

-- Behind a file.
unfoldable pub close_file : TextFilePatch → Result TextFilePatch
close_file file =
    unless (is_none file.old_path && is_none file.new_path)
      (value_error "unified diff cannot delete and create /dev/null")
      (unless (is_empty file.hunks && path_option_eq file.old_path file.new_path)
        (value_error "unified diff file has no hunks") (ok file))

-- while ... old_seen < old_count or new_seen < new_count
unfoldable pub is_open : OpenHunk → Bool
is_open h = ltb h.old_seen h.hunk.old_count || ltb h.new_seen h.hunk.new_count

abbrev pub one_if : Bool → ℕ
one_if true = 1
one_if false = 0

-- A line of a hunk's body.
unfoldable pub hunk_line : TextFilePatch → OpenHunk → Text → Result Mode
unfolding is_old_side is_new_side
hunk_line file h line =
    if text_eq line (codes "\\ No newline at end of file") then ok (in_hunk file h) else body line
  where
    invalid : Exception
    invalid = value_error "unified diff hunk contains an invalid line"

    counted : OpenHunk → Result Mode
    counted h' =
        unless (ltb h'.hunk.old_count h'.old_seen || ltb h'.hunk.new_count h'.new_seen) mismatch
          (ok (in_hunk file h'))

    body : Text → Result Mode
    body [] = raised invalid
    body (c ∷ s) = unless (not (is_old_side c || is_new_side c)) invalid (
        counted (record {
          hunk = record h.hunk { lines = h.hunk.lines ++ (c ∷ s) ∷ [] };
          long_start = h.long_start;
          old_seen = h.old_seen + one_if (is_old_side c);
          new_seen = h.new_seen + one_if (is_new_side c);
        }))

module _ (platform : Platform) where
  -- \d*: the value of the leading digits behind `n`, how many there are, and the rest
  unfoldable pub digits_from : ℕ → ℕ → Text → ℕ × ℕ × Text
  digits_from n count [] = (n, count, [])
  digits_from n count (c ∷ s) = elim (platform.digit_value c) [
    | none ↦ (n, count, c ∷ s)
    | some d ↦ digits_from (n * 10 + d) (count + 1) s
  ]

  -- A number of the hunk header, and what follows it.
  pub record Count : Type 0 where
    pub value : ℕ
    pub digits : ℕ
    pub rest : Text

  -- (\d+)
  unfoldable pub number : Text → Option Count
  unfolding digits_from
  number s =
      let (n, count, rest) = digits_from 0 0 s in
      if count == 0 then none else some (record { value = n; digits = count; rest = rest })

  -- (?:,(\d+))?, with "1" for a group that did not take part
  unfoldable pub optional_count : Text → Count
  unfolding number
  optional_count [] = record { value = 1; digits = 1; rest = [] }
  optional_count (c ∷ s) = if c == b',' then found (number s) else one
    where
      one : Count
      one = record { value = 1; digits = 1; rest = c ∷ s }

      found : Option Count → Count
      found none = one
      found (some n) = n

  -- One side of `_HUNK`: a prefix, a start and a count.
  unfoldable pub side : Text → Text → Option (Count × Count)
  unfolding number optional_count
  side prefix s = if starts_with s prefix then start (number (drop (length prefix) s)) else none
    where
      start : Option Count → Option (Count × Count)
      start none = none
      start (some n) = some (n, optional_count n.rest)

  -- `int` refuses more than 4300 digits.
  unfoldable pub too_long : Count → Bool
  too_long n = ltb 4300 n.digits

  -- _HUNK.match(line), with the counts converted. Whether a start is too long to be converted is told
  -- beside the hunk, since that is done behind the body.
  unfoldable pub hunk_header : Text → Result (TextHunk × Bool)
  unfolding side
  hunk_header line = old (side (codes "@@ -") line)
    where
      invalid : Exception
      invalid = value_error "unified diff has an invalid hunk header"

      new : Count → Count → Option (Count × Count) → Result (TextHunk × Bool)
      new start count none = raised invalid
      new start count (some (new_start, new_count)) =
          if not (starts_with new_count.rest (codes " @@"))
          then raised invalid
          else unless (too_long count || too_long new_count) digit_limit (
              ok (
                record {
                  old_start = start.value;
                  old_count = count.value;
                  new_start = new_start.value;
                  new_count = new_count.value;
                  lines = [];
                },
                too_long start || too_long new_start,
              ))

      old : Option (Count × Count) → Result (TextHunk × Bool)
      old none = raised invalid
      old (some (start, count)) = new start count (side (codes " +") count.rest)

  -- A line of a file outside of its hunks. A line "--- " ends the file, and begins a header.
  unfoldable pub file_line : TextFilePatch → Text → Result (Option TextFilePatch × Mode)
  unfolding hunk_header
  file_line file line =
      if starts_with line (codes "--- ")
      then (do whole ← close_file file; ok (some whole, behind_old (drop 4 line)))
      else if starts_with line (codes "diff --git ") || not (starts_with line (codes "@@ "))
      then ok (none, in_file file)
      else (do
        opened ← hunk_header line
        ok (
          none,
          in_hunk file (record {
            hunk = record opened.0 { lines = [] };
            long_start = opened.1;
            old_seen = 0;
            new_seen = 0;
          }),
        ))

  -- One line, with the file that it ends.
  unfoldable pub parse_line : Mode → Text → Result (Option TextFilePatch × Mode)
  unfolding file_line
  parse_line outside line =
      if starts_with line (codes "--- ")
      then ok (none, behind_old (drop 4 line))
      else ok (none, outside)
  parse_line (behind_old raw) line =
      unless (not (starts_with line (codes "+++ ")))
        (value_error "unified diff is missing its new-file header")
        (do
          old_path ← header_path raw
          new_path ← header_path (drop 4 line)
          ok (none, in_file (record { old_path = old_path; new_path = new_path; hunks = [] })))
  parse_line (in_file file) line = file_line file line
  parse_line (in_hunk file h) line =
      if is_open h
      then (do mode ← hunk_line file h line; ok (none, mode))
      else (do longer ← close_hunk file h; file_line longer line)

  -- Behind the last line.
  unfoldable pub parse_end : Mode → Result (List TextFilePatch)
  parse_end outside = ok []
  parse_end (behind_old raw) = raised (value_error "unified diff is missing its new-file header")
  parse_end (in_file file) = do whole ← close_file file; ok (whole ∷ [])
  parse_end (in_hunk file h) = do
    longer ← close_hunk file h
    whole ← close_file longer
    ok (whole ∷ [])

  abbrev pub before_rest : Option TextFilePatch → List TextFilePatch → List TextFilePatch
  before_rest none files = files
  before_rest (some file) files = file ∷ files

  unfoldable pub parse_lines : Mode → List Text → Result (List TextFilePatch)
  unfolding parse_line parse_end
  parse_lines mode [] = parse_end mode
  parse_lines mode (line ∷ lines) = do
    (file, next) ← parse_line mode line
    files ← parse_lines next lines
    ok (before_rest file files)

  unfoldable pub parse_text_diff : Text → Result (List TextFilePatch)
  unfolding parse_lines
  parse_text_diff diff = do
    files ← parse_lines outside (splitlines diff)
    unless (is_empty files) (value_error "unified diff contains no text files") (ok files)
