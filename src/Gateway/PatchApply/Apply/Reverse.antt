-- ===== src/Gateway/PatchApply/Apply/Reverse.antt =====
-- A patch that is turned around takes the result back to the base.
use agentic_engineering_lab.Domain.Error.{ok}
use agentic_engineering_lab.Gateway.PatchApply.Apply.{patched_lines}
use agentic_engineering_lab.Gateway.PatchApply.Apply.Body.{side_of}
use agentic_engineering_lab.Gateway.PatchApply.Apply.Complete.{
  patched_lines-weave, AreFilled, AreBodies,
}
use agentic_engineering_lab.Gateway.PatchApply.Apply.Weave.{
  patched_lines-Woven, weave, hunks_of, ArePlaced, Pieces,
}
use agentic_engineering_lab.Gateway.PatchApply.{is_new_side, TextHunk, is_old_side}
use agentic_engineering_lab.Prelude.{
  ◌∙◌, ap, sym, subst, ◌≡◌, length, refl, ◌==◌, [], arith, ◌+◌, Text, if◌then◌else◌, ◌∷◌, All, ℕ,
  List,
}

-- "-" for "+" and "+" for "-"
abbrev pub swapped : ℕ → ℕ
swapped c = if c == b'-' then b'+' else if c == b'+' then b'-' else c

abbrev pub turned_lines : List Text → List Text
turned_lines [] = []
turned_lines ([] ∷ lines) = [] ∷ turned_lines lines
turned_lines ((c ∷ s) ∷ lines) = (swapped c ∷ s) ∷ turned_lines lines

-- A hunk turned around, at its place in the result.
abbrev pub turned : ℕ → TextHunk → TextHunk
turned n hunk = record {
  old_start = n + 1;
  old_count = hunk.new_count;
  new_start = hunk.old_start;
  new_count = hunk.old_count;
  lines = turned_lines hunk.lines;
}

turned_pieces : ℕ → Pieces → Pieces
turned_pieces n [] = []
turned_pieces n ((gap, hunk) ∷ pieces) =
    (gap, turned (n + length gap) hunk) ∷ turned_pieces (n + length gap + hunk.new_count) pieces

old-turned_lines :
    (lines : List Text) → side_of is_old_side (turned_lines lines) ≡ side_of is_new_side lines
unfolding is_old_side is_new_side
old-turned_lines [] = refl
old-turned_lines ([] ∷ lines) = old-turned_lines lines
old-turned_lines ((c ∷ s) ∷ lines) = ground (arith, old-turned_lines lines)

new-turned_lines :
    (lines : List Text) → side_of is_new_side (turned_lines lines) ≡ side_of is_old_side lines
unfolding is_old_side is_new_side
new-turned_lines [] = refl
new-turned_lines ([] ∷ lines) = new-turned_lines lines
new-turned_lines ((c ∷ s) ∷ lines) = ground (arith, new-turned_lines lines)

turned_lines-AreFilled : (lines : List Text) → AreFilled lines → AreFilled (turned_lines lines)
turned_lines-AreFilled [] f = tt
turned_lines-AreFilled ([] ∷ lines) f = (f.0, turned_lines-AreFilled lines f.1)
turned_lines-AreFilled ((c ∷ s) ∷ lines) f = (refl, turned_lines-AreFilled lines f.1)

module _ (tail : List Text) where
  weave_old-turned_pieces :
      (n : ℕ) (pieces : Pieces)
      → weave is_old_side (turned_pieces n pieces) tail ≡ weave is_new_side pieces tail
  unfolding turned_pieces
  weave_old-turned_pieces n [] = refl
  weave_old-turned_pieces n ((gap, hunk) ∷ pieces) =
      rw
        (
          old-turned_lines hunk.lines,
          weave_old-turned_pieces (n + length gap + hunk.new_count) pieces,
        )
        refl

  weave_new-turned_pieces :
      (n : ℕ) (pieces : Pieces)
      → weave is_new_side (turned_pieces n pieces) tail ≡ weave is_old_side pieces tail
  unfolding turned_pieces
  weave_new-turned_pieces n [] = refl
  weave_new-turned_pieces n ((gap, hunk) ∷ pieces) =
      rw
        (
          new-turned_lines hunk.lines,
          weave_new-turned_pieces (n + length gap + hunk.new_count) pieces,
        )
        refl

turned_pieces-ArePlaced :
    (n m : ℕ) (pieces : Pieces) → ArePlaced n pieces → ArePlaced m (turned_pieces m pieces)
unfolding turned_pieces
turned_pieces-ArePlaced n m [] p = tt
turned_pieces-ArePlaced n m ((gap, hunk) ∷ pieces) p = (
  omega arith,
  rw (old-turned_lines hunk.lines) p.2,
  rw (new-turned_lines hunk.lines) p.1,
  turned_pieces-ArePlaced (n + length gap + hunk.old_count) (m + length gap + hunk.new_count) pieces
      p.3,
)

turned_pieces-AreBodies :
    (n : ℕ) (pieces : Pieces) → AreBodies pieces → AreBodies (turned_pieces n pieces)
unfolding turned_pieces
turned_pieces-AreBodies n [] b = tt
turned_pieces-AreBodies n ((gap, hunk) ∷ pieces) b = (
  turned_lines-AreFilled hunk.lines b.0,
  turned_pieces-AreBodies (n + length gap + hunk.new_count) pieces b.1,
)

-- Each hunk of the one list is a hunk of the other turned around, wherever it stands.
abbrev pub AreTurned : List TextHunk → List TextHunk → Type 0
AreTurned [] [] = Unit
AreTurned (hunk ∷ hunks) (other ∷ others) =
    (other.lines ≡ turned_lines hunk.lines)
    × (other.old_count ≡ hunk.new_count)
    × (other.new_count ≡ hunk.old_count)
    × AreTurned hunks others
AreTurned _ _ = ⊥

turned_pieces-AreTurned :
    (n : ℕ) (pieces : Pieces) → AreTurned (hunks_of pieces) (hunks_of (turned_pieces n pieces))
unfolding turned_pieces
turned_pieces-AreTurned n [] = tt
turned_pieces-AreTurned n ((gap, hunk) ∷ pieces) =
    (refl, refl, refl, turned_pieces-AreTurned (n + length gap + hunk.new_count) pieces)

AreBodies-hunks_of :
    (pieces : Pieces) → All (λ hunk. AreFilled hunk.lines) (hunks_of pieces) → AreBodies pieces
AreBodies-hunks_of [] f = tt
AreBodies-hunks_of ((gap, hunk) ∷ pieces) f = (f.0, AreBodies-hunks_of pieces f.1)

-- If hunks with no empty line in a body apply to a base, then the same hunks turned around, at their
-- places in the result, apply to the result and give the base back.
pub patched_lines-turned :
    (hunks : List TextHunk) (source result : List Text)
    → All (λ hunk. AreFilled hunk.lines) hunks
    → patched_lines hunks source ≡ ok result
    → (back : List TextHunk) × AreTurned hunks back × (patched_lines back result ≡ ok source)
patched_lines-turned hunks source result f h =
    let w = patched_lines-Woven hunks source result h in
    let filled =
      AreBodies-hunks_of w.pieces
        (subst (All (λ (x : TextHunk). AreFilled x.lines)) (sym w.same_hunks) f) in
    (
      hunks_of (turned_pieces 0 w.pieces),
      subst (λ x. AreTurned x (hunks_of (turned_pieces 0 w.pieces))) w.same_hunks
          (turned_pieces-AreTurned 0 w.pieces),
      ap (patched_lines (hunks_of (turned_pieces 0 w.pieces)))
            (w.new_lines ∙ sym (weave_old-turned_pieces w.tail 0 w.pieces))
          ∙ patched_lines-weave (turned_pieces 0 w.pieces) w.tail
              (turned_pieces-AreBodies 0 w.pieces filled)
              (turned_pieces-ArePlaced 0 0 w.pieces w.placed)
          ∙ ap ok (weave_new-turned_pieces w.tail 0 w.pieces ∙ sym w.old_lines),
    )
