-- ===== src/Gateway/PatchApply/Parse/Shape.antt =====
-- What a diff that is accepted is known to be.
use agentic_engineering_lab.Python.{Platform}
use agentic_engineering_lab.Python.Lines.{splitlines, before, strip}
use agentic_engineering_lab.Gateway.PatchApply.Apply.Body.{side_of}
use agentic_engineering_lab.Domain.Error.{bind-ok, unless-ok, ok}
use agentic_engineering_lab.Gateway.PatchApply.Apply.Complete.{AreFilled}
use agentic_engineering_lab.Prelude.{
  is_empty, drop, List, starts_with, Bool, ◌+◌, refl, ℕ, ◌||◌, ◌==◌, not, arith, All-append, inr,
  [], inl, ◌∷◌, ◌++◌, codes, subst, none, text_eq, false, Bool-cases, length, some, ◌≡◌, Text, All,
  Option,
}
use agentic_engineering_lab.Gateway.PatchApply.{
  is_new_side, mismatch, is_old_side, is_unsafe_name, header_path, TextFilePatch, TextHunk,
}
use agentic_engineering_lab.Gateway.PatchApply.Parse.{
  is_open, before_rest, parse_text_diff, parse_lines, parse_line, parse_end, one_if, file_line,
  hunk_header, outside, in_hunk, in_file, behind_old, close_hunk, close_file, Mode, OpenHunk,
  hunk_line,
}

-- A body has lines of both sides as its header says, each with its first character.
pub record IsWholeHunk (hunk : TextHunk) : Type 0 where
  pub filled : AreFilled hunk.lines
  pub old_lines : length (side_of is_old_side hunk.lines) ≡ hunk.old_count
  pub new_lines : length (side_of is_new_side hunk.lines) ≡ hunk.new_count

-- No path, or one inside of the repository.
abbrev pub IsSafeName : Option Text → Type 0
IsSafeName none = Unit
IsSafeName (some path) = is_unsafe_name path ≡ false

pub record IsWholeFile (file : TextFilePatch) : Type 0 where
  pub old_safe : IsSafeName file.old_path
  pub new_safe : IsSafeName file.new_path
  pub whole_hunks : All IsWholeHunk file.hunks

record IsCounted (h : OpenHunk) : Type 0 where
  filled : AreFilled h.hunk.lines
  old_lines : length (side_of is_old_side h.hunk.lines) ≡ h.old_seen
  new_lines : length (side_of is_new_side h.hunk.lines) ≡ h.new_seen

-- What holds between the lines.
abbrev IsSoundMode : Mode → Type 0
IsSoundMode outside = Unit
IsSoundMode (behind_old raw) = Unit
IsSoundMode (in_file file) = IsWholeFile file
IsSoundMode (in_hunk file h) = IsWholeFile file × IsCounted h

header_path-IsSafeName : (raw : Text) (o : Option Text) → header_path raw ≡ ok o → IsSafeName o
unfolding header_path
header_path-IsSafeName raw o h =
    elim (Bool-cases (text_eq (strip (before 9 raw)) (codes "/dev/null"))) [
      | inl null ↦ subst IsSafeName (let same : none ≡ o = cc (rw null at h) in same) tt
      | inr named ↦
          let (safe, k) = unless-ok _ _ _ o (rw named at h) in
          subst IsSafeName (let same : some _ ≡ o = cc k in same) safe
    ]

close_hunk-IsWholeFile :
    (file : TextFilePatch) (h : OpenHunk) (done : TextFilePatch)
    → IsWholeFile file
    → IsCounted h
    → close_hunk file h ≡ ok done
    → IsWholeFile done
unfolding close_hunk
close_hunk-IsWholeFile file h done f c e =
    let (counted, k) =
      unless-ok (not (h.old_seen == h.hunk.old_count) || not (h.new_seen == h.hunk.new_count))
        mismatch _ done e in
    subst IsWholeFile
      (let same : record file { hunks = file.hunks ++ h.hunk ∷ [] } ≡ done = ground (arith, k) in
        same)
      (record {
        old_safe = f.old_safe;
        new_safe = f.new_safe;
        whole_hunks = All-append IsWholeHunk file.hunks (h.hunk ∷ []) f.whole_hunks (
          record {
            filled = c.filled;
            old_lines = ground (arith, c.old_lines, counted);
            new_lines = ground (arith, c.new_lines, counted);
          },
          tt,
        );
      })

close_file-same : (file done : TextFilePatch) → close_file file ≡ ok done → file ≡ done
unfolding close_file
close_file-same file done e = ground arith

length-side_of-snoc :
    (on_side : ℕ → Bool) (lines : List Text) (c : ℕ) (s : Text)
    → length (side_of on_side (lines ++ (c ∷ s) ∷ []))
      ≡ length (side_of on_side lines) + one_if (on_side c)
length-side_of-snoc on_side [] c s = ground arith
length-side_of-snoc on_side ([] ∷ lines) c s = length-side_of-snoc on_side lines c s
length-side_of-snoc on_side ((a ∷ r) ∷ lines) c s =
    ground (arith, length-side_of-snoc on_side lines c s)

-- A hunk with one line more.
abbrev longer_hunk : OpenHunk → ℕ → Text → OpenHunk
longer_hunk h c s = record {
  hunk = record h.hunk { lines = h.hunk.lines ++ (c ∷ s) ∷ [] };
  long_start = h.long_start;
  old_seen = h.old_seen + one_if (is_old_side c);
  new_seen = h.new_seen + one_if (is_new_side c);
}

longer_hunk-IsCounted :
    (h : OpenHunk) (c : ℕ) (s : Text) → IsCounted h → IsCounted (longer_hunk h c s)
longer_hunk-IsCounted h c s k = record {
  filled = All-append _ h.hunk.lines ((c ∷ s) ∷ []) k.filled (refl, tt);
  old_lines = omega (arith, length-side_of-snoc is_old_side h.hunk.lines c s, k.old_lines);
  new_lines = omega (arith, length-side_of-snoc is_new_side h.hunk.lines c s, k.new_lines);
}

hunk_line-IsSoundMode :
    (file : TextFilePatch) (h : OpenHunk) (line : Text) (next : Mode)
    → IsWholeFile file
    → IsCounted h
    → hunk_line file h line ≡ ok next
    → IsSoundMode next
unfolding hunk_line
hunk_line-IsSoundMode file h [] next f k e = cc e
hunk_line-IsSoundMode file h (c ∷ s) next f k e =
    elim (Bool-cases (text_eq (c ∷ s) (codes "\\ No newline at end of file"))) [
      | inl notice ↦
          subst IsSoundMode (let same : in_hunk file h ≡ next = cc (rw notice at e) in same) (f, k)
      | inr counted ↦
          subst IsSoundMode
            (let same : in_hunk file (longer_hunk h c s) ≡ next = ground arith in same)
            (f, longer_hunk-IsCounted h c s k)
    ]

-- What one line ends is whole, and the mode behind it is sound.
abbrev AreSound : Option TextFilePatch × Mode → Type 0
AreSound (none, next) = IsSoundMode next
AreSound (some file, next) = IsWholeFile file × IsSoundMode next

-- The mode behind a hunk header.
abbrev in_file_hunk : TextFilePatch → TextHunk × Bool → Mode
in_file_hunk file h =
    in_hunk file
      (record { hunk = record h.0 { lines = [] }; long_start = h.1; old_seen = 0; new_seen = 0 })

module _ (platform : Platform) where
  file_line-AreSound :
      (file : TextFilePatch) (line : Text) (x : Option TextFilePatch × Mode)
      → IsWholeFile file
      → file_line platform file line ≡ ok x
      → AreSound x
  unfolding file_line
  file_line-AreSound file line x f e = elim (Bool-cases (starts_with line (codes "--- "))) [
    | inl header ↦
        let (whole, closed, k) = bind-ok _ _ x (rw header at e) in
        subst AreSound (let same : (some whole, behind_old (drop 4 line)) ≡ x = cc k in same)
          (subst IsWholeFile (close_file-same file whole closed) f, tt)
    | inr inside ↦
        elim (Bool-cases
          (starts_with line (codes "diff --git ") || not (starts_with line (codes "@@ ")))) [
            | inl skipped ↦
                subst AreSound
                  (let same : (none, in_file file) ≡ x = cc (rw (inside, skipped) at e) in same) f
            | inr opened ↦
                let (h, header, k) =
                  bind-ok (hunk_header platform line) _ x (rw (inside, opened) at e) in
                subst AreSound (let same : (none, in_file_hunk file h) ≡ x = cc k in same)
                  (f, record { filled = tt; old_lines = refl; new_lines = refl })
          ]
  ]

  -- Two paths are read, each inside of the repository.
  header-AreSound :
      (raw line : Text) (x : Option TextFilePatch × Mode)
      → parse_line platform (behind_old raw) line ≡ ok x
      → AreSound x
  unfolding parse_line
  header-AreSound raw line x e =
      let (plus, k) = unless-ok (not (starts_with line (codes "+++ "))) _ _ x e in
      let (old_path, old_read, l) = bind-ok (header_path raw) _ x k in
      let (new_path, new_read, m) = bind-ok (header_path (drop 4 line)) _ x l in
      subst AreSound
        (let same : (
          none,
          in_file (record { old_path = old_path; new_path = new_path; hunks = [] }),
        )
              ≡ x =
            cc m in
          same)
        (record {
          old_safe = header_path-IsSafeName raw old_path old_read;
          new_safe = header_path-IsSafeName (drop 4 line) new_path new_read;
          whole_hunks = tt;
        })

  parse_line-AreSound :
      (mode : Mode) (line : Text) (x : Option TextFilePatch × Mode)
      → IsSoundMode mode
      → parse_line platform mode line ≡ ok x
      → AreSound x
  unfolding parse_line
  parse_line-AreSound outside line x m e = elim (Bool-cases (starts_with line (codes "--- "))) [
    | inl header ↦
        subst AreSound
          (let same : (none, behind_old (drop 4 line)) ≡ x = cc (rw header at e) in same) tt
    | inr other ↦ subst AreSound (let same : (none, outside) ≡ x = cc (rw other at e) in same) tt
  ]
  parse_line-AreSound (behind_old raw) line x m e = header-AreSound raw line x e
  parse_line-AreSound (in_file file) line x m e = file_line-AreSound file line x m e
  parse_line-AreSound (in_hunk file h) line x m e = elim (Bool-cases (is_open h)) [
    | inl more ↦
        let (next, body, k) = bind-ok (hunk_line file h line) _ x (rw more at e) in
        subst AreSound (let same : (none, next) ≡ x = cc k in same)
          (hunk_line-IsSoundMode file h line next m.0 m.1 body)
    | inr full ↦
        let (longer, closed, k) = bind-ok (close_hunk file h) _ x (rw full at e) in
        file_line-AreSound longer line x (close_hunk-IsWholeFile file h longer m.0 m.1 closed) k
  ]

  parse_end-IsWholeFile :
      (mode : Mode) (files : List TextFilePatch)
      → IsSoundMode mode
      → parse_end platform mode ≡ ok files
      → All IsWholeFile files
  unfolding parse_end
  parse_end-IsWholeFile outside files m e =
      subst (All IsWholeFile) (let same : [] ≡ files = cc e in same) tt
  parse_end-IsWholeFile (behind_old raw) files m e = cc e
  parse_end-IsWholeFile (in_file file) files m e =
      let (whole, closed, k) = bind-ok (close_file file) _ files e in
      subst (All IsWholeFile) (let same : whole ∷ [] ≡ files = cc k in same)
        (subst IsWholeFile (close_file-same file whole closed) m, tt)
  parse_end-IsWholeFile (in_hunk file h) files m e =
      let (longer, counted, l) = bind-ok (close_hunk file h) _ files e in
      let (whole, closed, k) = bind-ok (close_file longer) _ files l in
      subst (All IsWholeFile) (let same : whole ∷ [] ≡ files = cc k in same) (
        subst IsWholeFile (close_file-same longer whole closed)
            (close_hunk-IsWholeFile file h longer m.0 m.1 counted),
        tt,
      )

  parse_lines-IsWholeFile :
      (mode : Mode) (lines : List Text) (files : List TextFilePatch)
      → IsSoundMode mode
      → parse_lines platform mode lines ≡ ok files
      → All IsWholeFile files
  unfolding parse_lines
  parse_lines-IsWholeFile mode [] files m e = parse_end-IsWholeFile mode files m e
  parse_lines-IsWholeFile mode (line ∷ lines) files m e =
      let (x, one, k) = bind-ok (parse_line platform mode line) _ files e in
      let (rest, others, l) = bind-ok (parse_lines platform x.1 lines) _ files k in
      subst (All IsWholeFile) (let same : before_rest platform x.0 rest ≡ files = cc l in same) (
        join x (parse_line-AreSound mode line x m one) rest (
          parse_lines-IsWholeFile x.1 lines rest (next x (parse_line-AreSound mode line x m one))
            others))
    where
      next : (x : Option TextFilePatch × Mode) → AreSound x → IsSoundMode x.1
      next (none, mode) a = a
      next (some file, mode) a = a.1

      join :
          (x : Option TextFilePatch × Mode)
          → AreSound x
          → (rest : List TextFilePatch) → All IsWholeFile rest
          → All IsWholeFile (before_rest platform x.0 rest)
      join (none, mode) a rest w = w
      join (some file, mode) a rest w = (a.0, w)

  -- If a diff is accepted, its paths stay inside of the repository, no line of a hunk is empty, and
  -- every hunk has as many lines of the old side and of the new side as its header says.
  pub parse_text_diff-IsWholeFile :
      (diff : Text) (files : List TextFilePatch)
      → parse_text_diff platform diff ≡ ok files
      → All IsWholeFile files
  unfolding parse_text_diff
  parse_text_diff-IsWholeFile diff files e =
      let (read, lines, k) = bind-ok (parse_lines platform outside (splitlines diff)) _ files e in
      let (some_file, l) = unless-ok (is_empty read) _ _ files k in
      subst (All IsWholeFile) (let same : read ≡ files = ground (arith, l) in same)
        (parse_lines-IsWholeFile outside (splitlines diff) read tt lines)
