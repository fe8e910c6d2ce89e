-- ===== src/Gateway/PatchApply/Apply/Complete.antt =====
-- When the hunks of a file apply.
use agentic_engineering_lab.Domain.Error.{ok}
use agentic_engineering_lab.Gateway.PatchApply.Apply.Body.{
  side_of-cons, append_assoc, apply_lines-Applied, side_of,
}
use agentic_engineering_lab.Gateway.PatchApply.{is_new_side, is_old_side, TextHunk}
use agentic_engineering_lab.Gateway.PatchApply.Apply.Weave.{weave, hunks_of, ArePlaced, Pieces}
use agentic_engineering_lab.Gateway.PatchApply.Apply.{
  Cursor, put_line, apply_hunk, apply_lines, pass_line, patched_lines, apply_hunks, apply_line,
}
use agentic_engineering_lab.Prelude.{
  length-append, sym, inl, subst, inr, ap, arith, ◌-◌, Bool-cases, text_eq_refl, ◌∙◌, refl, ◌+◌,
  false, ◌++◌, is_empty, length, ◌≡◌, take, [], All, drop, ℕ, Text, ◌∷◌, List,
}

abbrev pub AreFilled : List Text → Type 0
AreFilled lines = All (λ line. is_empty line ≡ false) lines

pass_line-next :
    (content : Text) (at : Cursor) (left : List Text)
    → at.left ≡ content ∷ left
    → (next : Cursor) × (pass_line content at ≡ ok next) × (next.left ≡ left)
unfolding pass_line
pass_line-next content at left e = (
  record at { cursor = at.cursor + 1; left = left; old_seen = at.old_seen + 1 },
  rw (e, text_eq_refl content) refl,
  refl,
)

apply_line-next :
    (marker : ℕ) (content : Text) (at : Cursor) (left : List Text)
    → at.left ≡ side_of is_old_side ((marker ∷ content) ∷ []) ++ left
    → (next : Cursor) × (apply_line (marker ∷ content) at ≡ ok next) × (next.left ≡ left)
unfolding apply_line put_line
apply_line-next marker content at left e = elim (Bool-cases (is_old_side marker)) [
  | inr no_old ↦ elim (Bool-cases (is_new_side marker)) [
    | inr no_new ↦ (at, rw (no_old, no_new) refl, rw no_old at e)
    | inl new ↦ (put_line content at, rw (no_old, new) refl, rw no_old at e)
  ]
  | inl old ↦
      let (next, passed, same) = pass_line-next content at left (rw old at e) in
      elim (Bool-cases (is_new_side marker)) [
        | inr no_new ↦ (next, rw (old, passed, no_new) refl, same)
        | inl new ↦ (put_line content next, rw (old, passed, new) refl, same)
      ]
]

apply_lines-done :
    (lines : List Text) (at : Cursor) (left : List Text)
    → AreFilled lines
    → at.left ≡ side_of is_old_side lines ++ left
    → (done : Cursor) × (apply_lines lines at ≡ ok done) × (done.left ≡ left)
unfolding apply_lines
apply_lines-done [] at left f e = (at, refl, e)
apply_lines-done ([] ∷ lines) at left f e = cc (f.0)
apply_lines-done ((marker ∷ content) ∷ lines) at left f e =
    let (next, one, same) = apply_line-next marker content at (side_of is_old_side lines ++ left) (
      e
      ∙ ap (λ x. x ++ left) (side_of-cons is_old_side (marker ∷ content) lines)
      ∙ append_assoc _ _ left) in
    let (done, rest, last) = apply_lines-done lines next left f.1 same in
    (done, rw (one, rest) refl, last)

take-append : (gap rest : List Text) → take (length gap) (gap ++ rest) ≡ gap
take-append [] rest = refl
take-append (line ∷ gap) rest = rw (take-append gap rest)

drop-append : (gap rest : List Text) → drop (length gap) (gap ++ rest) ≡ rest
drop-append [] rest = refl
drop-append (line ∷ gap) rest = drop-append gap rest

apply_hunk-done :
    (hunk : TextHunk) (at : Cursor) (gap left : List Text)
    → AreFilled hunk.lines
    → at.left ≡ gap ++ (side_of is_old_side hunk.lines ++ left)
    → at.cursor + length gap ≡ hunk.old_start - 1
    → length (side_of is_old_side hunk.lines) ≡ hunk.old_count
    → length (side_of is_new_side hunk.lines) ≡ hunk.new_count
    → (done : Cursor) × (apply_hunk hunk at ≡ ok done)
      × (done.left ≡ left)
      × (done.cursor ≡ at.cursor + length gap + hunk.old_count)
      × (done.result ≡ at.result ++ (gap ++ side_of is_new_side hunk.lines))
unfolding apply_hunk
apply_hunk-done hunk at gap left f e placed old_lines new_lines =
    let distance : hunk.old_start - 1 - at.cursor ≡ length gap = omega (arith, placed) in
    let (done, body, last) =
      apply_lines-done hunk.lines
        (record {
          cursor = hunk.old_start - 1;
          left = drop (hunk.old_start - 1 - at.cursor) at.left;
          result = at.result ++ take (hunk.old_start - 1 - at.cursor) at.left;
          old_seen = 0;
          new_seen = 0;
        })
        left f (rw (distance, e) (drop-append gap _)) in
    let a = apply_lines-Applied hunk.lines _ done body in
    let room : length at.left ≡ length gap + length (side_of is_old_side hunk.lines ++ left) =
      ap length e ∙ length-append gap _ in
    (
      done,
      rw body (ground (arith, placed, room, a.old_lines, a.new_lines, old_lines, new_lines)),
      last,
      omega (arith, a.moved, placed, old_lines),
      a.produced
          ∙ ap (λ x. (at.result ++ x) ++ side_of is_new_side hunk.lines)
              (rw (distance, e) (take-append gap _))
          ∙ append_assoc at.result gap _,
    )

-- Every line of every body has a first character.
abbrev pub AreBodies : Pieces → Type 0
AreBodies [] = Unit
AreBodies ((gap, hunk) ∷ pieces) = AreFilled hunk.lines × AreBodies pieces

apply_hunks-done :
    (pieces : Pieces) (tail : List Text) (at : Cursor)
    → AreBodies pieces
    → at.left ≡ weave is_old_side pieces tail
    → ArePlaced at.cursor pieces
    → (done : Cursor) × (apply_hunks (hunks_of pieces) at ≡ ok done)
      × (done.result ++ done.left ≡ at.result ++ weave is_new_side pieces tail)
unfolding apply_hunks
apply_hunks-done [] tail at b e p = (at, refl, ap (λ x. at.result ++ x) e)
apply_hunks-done ((gap, hunk) ∷ pieces) tail at b e p =
    let (next, one, left, moved, result) =
      apply_hunk-done hunk at gap (weave is_old_side pieces tail) b.0 e p.0 p.1 p.2 in
    let (done, rest, joined) =
      apply_hunks-done pieces tail next b.1 left
        (subst (λ n. ArePlaced n pieces) (sym moved) p.3) in
    (
      done,
      rw (one, rest) refl,
      joined
          ∙ ap (λ x. x ++ weave is_new_side pieces tail) result
          ∙ append_assoc at.result _ _
          ∙ ap (λ x. at.result ++ x) (append_assoc gap _ _),
    )

-- Hunks whose bodies have no empty line apply to every base that is woven from them and the kept
-- lines, and give the result that is woven from the same.
pub patched_lines-weave :
    (pieces : Pieces) (tail : List Text)
    → AreBodies pieces
    → ArePlaced 0 pieces
    → patched_lines (hunks_of pieces) (weave is_old_side pieces tail)
      ≡ ok (weave is_new_side pieces tail)
unfolding patched_lines
patched_lines-weave pieces tail b p =
    let (done, e, joined) =
      apply_hunks-done pieces tail
        (record {
          cursor = 0;
          left = weave is_old_side pieces tail;
          result = [];
          old_seen = 0;
          new_seen = 0;
        })
        b refl p in
    rw e (ap ok joined)
