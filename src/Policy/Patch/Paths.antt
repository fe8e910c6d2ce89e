-- ===== src/Policy/Patch/Paths.antt =====
-- The list of changed paths: sorted, without repetition, and complete for the headers of the diff.
use agentic_engineering_lab.Python.Lines.{before, strip}
use agentic_engineering_lab.Policy.Patch.{
  header_name, dev_null, header_of, changed_paths, sorted_set, text_lt, header_paths, insert_sorted,
}
use agentic_engineering_lab.Prelude.{
  Option, codes, is_empty, if◌then◌else◌, drop, starts_with, ◌&&◌, not, some, text_eq_iff, refl,
  inr, none, split_on, inl, ap, arith, ◌||◌, any, ◌∙◌, true, Bool-cases, false, [], Bool, mem_text,
  text_eq, ◌≡◌, ◌∷◌, List, Text,
}

text_lt_total : (s t : Text) → text_eq s t ≡ false → text_lt s t ≡ false → text_lt t s ≡ true
unfolding text_lt
text_lt_total [] [] e l = cc
text_lt_total [] (b ∷ t) e l = cc
text_lt_total (a ∷ s) [] e l = refl
text_lt_total (a ∷ s) (b ∷ t) e l = ground (arith, text_lt_total s t)

-- Each text is before the next one in the order of Python's strings.
abbrev pub IsAscending : List Text → Type 0
IsAscending [] = Unit
IsAscending (s ∷ []) = Unit
IsAscending (s ∷ t ∷ ts) = (text_lt s t ≡ true) × IsAscending (t ∷ ts)

-- A text may stand in front of the list.
abbrev Precedes : Text → List Text → Type 0
Precedes s [] = Unit
Precedes s (t ∷ ts) = text_lt s t ≡ true

Precedes-cons : (s : Text) (ts : List Text) → Precedes s ts → IsAscending ts → IsAscending (s ∷ ts)
Precedes-cons s [] p a = tt
Precedes-cons s (t ∷ ts) p a = (p, a)

Precedes-insert_sorted :
    (h s : Text) (ts : List Text)
    → text_lt h s ≡ true
    → Precedes h ts
    → Precedes h (insert_sorted s ts)
unfolding insert_sorted
Precedes-insert_sorted h s [] l p = l
Precedes-insert_sorted h s (t ∷ ts) l p = ground arith

IsAscending-tail :
    (s : Text) (ts : List Text) → IsAscending (s ∷ ts) → Precedes s ts × IsAscending ts
IsAscending-tail s [] a = (tt, tt)
IsAscending-tail s (t ∷ ts) a = (a.0, a.1)

insert_sorted-IsAscending :
    (s : Text) (ts : List Text) → IsAscending ts → IsAscending (insert_sorted s ts)
unfolding insert_sorted
insert_sorted-IsAscending s [] a = tt
insert_sorted-IsAscending s (t ∷ ts) a = elim (Bool-cases (text_eq s t)) [
  | inl same ↦ rw same a
  | inr other ↦ elim (Bool-cases (text_lt s t)) [
    | inl first ↦ rw (other, first) (first, a)
    | inr later ↦
        let (p, rest) = IsAscending-tail t ts a in
        rw (other, later)
          (Precedes-cons t (insert_sorted s ts)
            (Precedes-insert_sorted t s ts (text_lt_total s t other later) p)
            (insert_sorted-IsAscending s ts rest))
  ]
]

sorted_set-IsAscending : (ts : List Text) → IsAscending (sorted_set ts)
unfolding sorted_set
sorted_set-IsAscending [] = tt
sorted_set-IsAscending (s ∷ ts) =
    insert_sorted-IsAscending s (sorted_set ts) (sorted_set-IsAscending ts)

mem_text-insert_sorted :
    (p s : Text) (ts : List Text) → mem_text p (insert_sorted s ts) ≡ (text_eq p s || mem_text p ts)
unfolding insert_sorted
mem_text-insert_sorted p s [] = refl
mem_text-insert_sorted p s (t ∷ ts) = ground (arith, mem_text-insert_sorted p s ts, text_eq_iff s t)

pub mem_text-sorted_set : (p : Text) (ts : List Text) → mem_text p (sorted_set ts) ≡ mem_text p ts
unfolding sorted_set
mem_text-sorted_set p [] = refl
mem_text-sorted_set p (s ∷ ts) =
    mem_text-insert_sorted p s (sorted_set ts)
    ∙ ap (λ b. text_eq p s || b) (mem_text-sorted_set p ts)

-- The name that stands behind the mark of a header, up to a tab: without its "a/" or "b/", if
-- something is left then.
abbrev pub named : Text → Text
named rest =
    if (starts_with rest (codes "a/") || starts_with rest (codes "b/"))
      && not (is_empty (before 9 (drop 2 rest)))
    then before 9 (drop 2 rest)
    else before 9 rest

-- A line of the old or of the new side, with a name in it other than "/dev/null", names this path.
abbrev pub names_path : Text → Text → Bool
names_path p line =
    (starts_with line (codes "--- ") || starts_with line (codes "+++ "))
    && not (is_empty (named (drop 4 line)))
    && not (text_eq (strip (named (drop 4 line))) (codes "/dev/null"))
    && text_eq p (strip (named (drop 4 line)))

header_name_lem :
    (rest : Text) → header_name rest ≡ (if is_empty (named rest) then none else some (named rest))
unfolding header_name
header_name_lem rest =
    elim (Bool-cases (starts_with rest (codes "a/") || starts_with rest (codes "b/"))) [
      | inr bare ↦ ground arith
      | inl sided ↦ ground arith
    ]

-- What the loop makes of a match.
abbrev adds : Text → Option Text → Bool
adds p none = false
adds p (some raw) = not (text_eq (strip raw) dev_null) && text_eq p (strip raw)

names_path_lem : (p line : Text) → names_path p line ≡ adds p (header_of line)
unfolding header_of dev_null
names_path_lem p line =
    elim (Bool-cases (starts_with line (codes "--- ") || starts_with line (codes "+++ "))) [
      | inr plain ↦ rw plain refl
      | inl marked ↦ elim (Bool-cases (is_empty (named (drop 4 line)))) [
        | inl nameless ↦ rw (marked, header_name_lem (drop 4 line), nameless) refl
        | inr full ↦ rw (marked, header_name_lem (drop 4 line), full) refl
      ]
    ]

mem_text-added :
    (p : Text) (lines : List Text)
    → mem_text p (header_paths lines) ≡ any (λ line. adds p (header_of line)) lines
unfolding header_paths
mem_text-added p [] = refl
mem_text-added p (line ∷ lines) = ground (arith, mem_text-added p lines)

mem_text-header_paths :
    (p : Text) (lines : List Text) → mem_text p (header_paths lines) ≡ any (names_path p) lines
mem_text-header_paths p lines = mem_text-added p lines ∙ all_lines lines
  where
    all_lines : (ls : List Text) → any (λ line. adds p (header_of line)) ls ≡ any (names_path p) ls
    all_lines [] = refl
    all_lines (l ∷ ls) = rw (names_path_lem p l, all_lines ls) refl

-- The changed paths are in ascending order with no repetition, and a path is among them exactly if
-- some line of the diff begins with "--- " or "+++ " and names it: its name is the text behind this up
-- to a tab, less a leading "a/" or "b/" that has something behind it, and is stripped; an empty name
-- and "/dev/null" are no path.
pub changed_paths_lem :
    (diff p : Text)
    → IsAscending (changed_paths diff)
      × (mem_text p (changed_paths diff) ≡ any (names_path p) (split_on 10 diff))
unfolding changed_paths
changed_paths_lem diff p = (
  sorted_set-IsAscending (header_paths (split_on 10 diff)),
  mem_text-sorted_set p _ ∙ mem_text-header_paths p (split_on 10 diff),
)
