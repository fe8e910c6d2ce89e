-- ===== src/Gateway/PatchApply/Apply/Weave.antt =====
-- A patched file against its base: what stands outside of the hunks is kept.
use agentic_engineering_lab.Domain.Error.{bind-ok, unless-ok, ok}
use agentic_engineering_lab.Gateway.PatchApply.Apply.Body.{
  apply_lines-Applied, append_assoc, side_of,
}
use agentic_engineering_lab.Gateway.PatchApply.{mismatch, is_new_side, is_old_side, TextHunk}
use agentic_engineering_lab.Gateway.PatchApply.Apply.{
  Cursor, apply_hunk, patched_lines, apply_hunks,
}
use agentic_engineering_lab.Prelude.{
  take-append-drop, ◌==◌, refl, not, zero, ◌||◌, ◌∙◌, arith, ltb, suc, sym, subst, take, ap, ◌-◌,
  length, ◌≤◌, [], ◌++◌, ◌+◌, ◌≡◌, Text, ◌∷◌, Bool, ℕ, List,
}

-- Each hunk behind the lines that are kept before it.
abbrev pub Pieces : Type 0
Pieces = List (List Text × TextHunk)

abbrev pub weave : (ℕ → Bool) → Pieces → List Text → List Text
weave on_side [] tail = tail
weave on_side ((gap, hunk) ∷ pieces) tail =
    gap ++ (side_of on_side hunk.lines ++ weave on_side pieces tail)

abbrev pub hunks_of : Pieces → List TextHunk
hunks_of [] = []
hunks_of ((gap, hunk) ∷ pieces) = hunk ∷ hunks_of pieces

-- Every hunk stands where its header says, counted in the base, and has as many lines of either side.
abbrev pub ArePlaced : ℕ → Pieces → Type 0
ArePlaced n [] = Unit
ArePlaced n ((gap, hunk) ∷ pieces) =
    (n + length gap ≡ hunk.old_start - 1)
    × (length (side_of is_old_side hunk.lines) ≡ hunk.old_count)
    × (length (side_of is_new_side hunk.lines) ≡ hunk.new_count)
    × ArePlaced (n + length gap + hunk.old_count) pieces

pub length-take : (n : ℕ) (xs : List Text) → n ≤ length xs → length (take n xs) ≡ n
length-take zero xs h = refl
length-take (suc n) [] h = omega arith
length-take (suc n) (x ∷ xs) h = omega (arith, length-take n xs (omega arith))

-- What one hunk does to the cursor, behind the lines that it keeps.
pub record Hunked (hunk : TextHunk) (at done : Cursor) : Type 0 where
  pub gap : List Text
  pub consumed : at.left ≡ gap ++ (side_of is_old_side hunk.lines ++ done.left)
  pub produced : done.result ≡ at.result ++ (gap ++ side_of is_new_side hunk.lines)
  pub placed : at.cursor + length gap ≡ hunk.old_start - 1
  pub moved : done.cursor ≡ at.cursor + length gap + hunk.old_count
  pub old_lines : length (side_of is_old_side hunk.lines) ≡ hunk.old_count
  pub new_lines : length (side_of is_new_side hunk.lines) ≡ hunk.new_count

pub apply_hunk-Hunked :
    (hunk : TextHunk) (at done : Cursor) → apply_hunk hunk at ≡ ok done → Hunked hunk at done
unfolding apply_hunk
apply_hunk-Hunked hunk at done h =
    let (in_range, k) =
      unless-ok
        (ltb (hunk.old_start - 1) at.cursor
          || ltb (at.cursor + length at.left) (hunk.old_start - 1))
        _ _ done h in
    let (last, e, l) = bind-ok _ _ done k in
    let (counted, same) =
      unless-ok (not (last.old_seen == hunk.old_count) || not (last.new_seen == hunk.new_count))
        mismatch (ok last) done l in
    let a = apply_lines-Applied hunk.lines _ last e in
    let gap_length =
      length-take (hunk.old_start - 1 - at.cursor) at.left (ground (arith, in_range)) in
    subst (Hunked hunk at) (let same_last : last ≡ done = cc same in same_last) (record {
      gap = take (hunk.old_start - 1 - at.cursor) at.left;
      consumed =
          sym (take-append-drop (hunk.old_start - 1 - at.cursor) at.left)
          ∙ ap (λ x. take (hunk.old_start - 1 - at.cursor) at.left ++ x) a.consumed;
      produced = a.produced ∙ append_assoc at.result _ _;
      placed = ground (arith, gap_length, in_range);
      moved = ground (arith, gap_length, in_range, a.moved, a.old_lines, counted);
      old_lines = ground (arith, a.old_lines, counted);
      new_lines = ground (arith, a.new_lines, counted);
    })

-- A base and its patched lines are woven from the same pieces.
pub record Woven (n : ℕ) (hunks : List TextHunk) (source result : List Text) : Type 0 where
  pub pieces : Pieces
  pub tail : List Text
  pub same_hunks : hunks_of pieces ≡ hunks
  pub old_lines : source ≡ weave is_old_side pieces tail
  pub new_lines : result ≡ weave is_new_side pieces tail
  pub placed : ArePlaced n pieces

apply_hunks-Woven :
    (hunks : List TextHunk) (at done : Cursor)
    → apply_hunks hunks at ≡ ok done
    → (result : List Text) × (done.result ++ done.left ≡ at.result ++ result)
      × Woven at.cursor hunks at.left result
unfolding apply_hunks
apply_hunks-Woven [] at done h =
    let same : at ≡ done = cc h in
    (
      at.left,
      ap (λ x. x.result ++ x.left) (sym same),
      record {
        pieces = [];
        tail = at.left;
        same_hunks = refl;
        old_lines = refl;
        new_lines = refl;
        placed = tt;
      },
    )
apply_hunks-Woven (hunk ∷ hunks) at done h =
    let (next, e, k) = bind-ok _ _ done h in
    let one = apply_hunk-Hunked hunk at next e in
    let (result, joined, rest) = apply_hunks-Woven hunks next done k in
    (
      one.gap ++ (side_of is_new_side hunk.lines ++ result),
      joined
          ∙ ap (λ x. x ++ result) one.produced
          ∙ append_assoc at.result _ result
          ∙ ap (λ x. at.result ++ x) (append_assoc one.gap _ result),
      record {
        pieces = (one.gap, hunk) ∷ rest.pieces;
        tail = rest.tail;
        same_hunks = ap (λ x. hunk ∷ x) rest.same_hunks;
        old_lines =
            one.consumed
            ∙ ap (λ x. one.gap ++ (side_of is_old_side hunk.lines ++ x)) rest.old_lines;
        new_lines = ap (λ x. one.gap ++ (side_of is_new_side hunk.lines ++ x)) rest.new_lines;
        placed = (
          one.placed,
          one.old_lines,
          one.new_lines,
          subst (λ n. ArePlaced n rest.pieces) one.moved rest.placed,
        );
      },
    )

-- If the hunks of a file apply to the lines of its base, base and result are woven from the same
-- pieces: the lines outside of the hunks are the same in both, the base holds the old side of each
-- hunk where the hunk's header says, the result its new side, and the counts are those of the header.
pub patched_lines-Woven :
    (hunks : List TextHunk) (source result : List Text)
    → patched_lines hunks source ≡ ok result
    → Woven 0 hunks source result
unfolding patched_lines
patched_lines-Woven hunks source result h =
    let (done, e, k) = bind-ok _ _ result h in
    let (woven, joined, w) =
      apply_hunks-Woven hunks
        (record { cursor = 0; left = source; result = []; old_seen = 0; new_seen = 0 }) done e in
    let same : done.result ++ done.left ≡ result = cc k in
    subst (Woven 0 hunks source) (sym joined ∙ same) w
