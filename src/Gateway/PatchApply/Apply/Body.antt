-- ===== src/Gateway/PatchApply/Apply/Body.antt =====
-- What the loop over the body of a hunk does: the old side is passed over, the new side is added.
use agentic_engineering_lab.Domain.Error.{bind-ok, unless-ok, ok}
use agentic_engineering_lab.Gateway.PatchApply.{is_new_side, is_old_side}
use agentic_engineering_lab.Gateway.PatchApply.Apply.{
  no_match, put_line, pass_line, pass_over, Cursor, apply_lines, apply_line,
}
use agentic_engineering_lab.Prelude.{
  text_eq_iff, text_eq, inl, inr, not, length-append, sym, true, arith, ap, false, Bool-cases, refl,
  ◌∙◌, subst, if◌then◌else◌, [], length, Bool, ◌++◌, ◌∷◌, ◌+◌, ◌≡◌, Text, ℕ, List,
}

-- The lines of a body on one side, without their first characters.
abbrev pub side_of : (ℕ → Bool) → List Text → List Text
side_of on_side [] = []
side_of on_side ([] ∷ lines) = side_of on_side lines
side_of on_side ((c ∷ s) ∷ lines) =
    let rest = side_of on_side lines in if on_side c then s ∷ rest else rest

-- What the loop over a body does to the cursor.
pub record Applied (lines : List Text) (at done : Cursor) : Type 0 where
  pub consumed : at.left ≡ side_of is_old_side lines ++ done.left
  pub produced : done.result ≡ at.result ++ side_of is_new_side lines
  pub moved : done.cursor ≡ at.cursor + length (side_of is_old_side lines)
  pub old_lines : done.old_seen ≡ at.old_seen + length (side_of is_old_side lines)
  pub new_lines : done.new_seen ≡ at.new_seen + length (side_of is_new_side lines)

pub append_nil : (ts : List Text) → ts ++ [] ≡ ts
append_nil [] = refl
append_nil (t ∷ ts) = rw (append_nil ts)

pass_over-ok :
    (content : Text) (at done : Cursor) (lines : List Text)
    → pass_over content at lines ≡ ok done
    → (left : List Text) × (lines ≡ content ∷ left)
      × (record at { cursor = at.cursor + 1; left = left; old_seen = at.old_seen + 1 } ≡ done)
pass_over-ok content at done [] h = cc
pass_over-ok content at done (line ∷ left) h =
    let (same, e) = unless-ok (not (text_eq line content)) no_match _ done h in
    let equal = (text_eq_iff line content).0 (ground (arith, same)) in (left, rw equal refl, cc e)

abbrev passed_line : Cursor → List Text → Cursor
passed_line at left = record at { cursor = at.cursor + 1; left = left; old_seen = at.old_seen + 1 }

module _ (marker : ℕ) (content : Text) (at : Cursor) where
  -- A line of the result only, or of neither side.
  new_only :
      is_old_side marker ≡ false
      → Applied
          ((marker ∷ content) ∷ [])
          at
          (if is_new_side marker then put_line content at else at)
  unfolding put_line
  new_only no_old = elim (Bool-cases (is_new_side marker)) [
    | inr no_new ↦ rw no_new (record {
      consumed = rw no_old refl;
      produced = rw no_new (sym (append_nil at.result));
      moved = rw no_old (omega arith);
      old_lines = rw no_old (omega arith);
      new_lines = rw no_new (omega arith);
    })
    | inl new ↦ rw new (record {
      consumed = rw no_old refl;
      produced = rw new refl;
      moved = rw no_old (omega arith);
      old_lines = rw no_old (omega arith);
      new_lines = rw new (omega arith);
    })
  ]

  -- A line of the base, kept or removed.
  old_line :
      (left : List Text)
      → is_old_side marker ≡ true
      → at.left ≡ content ∷ left
      → Applied ((marker ∷ content) ∷ []) at (
          if is_new_side marker
          then put_line content (passed_line at left)
          else passed_line at left)
  unfolding put_line
  old_line left old split = elim (Bool-cases (is_new_side marker)) [
    | inr no_new ↦ rw no_new (record {
      consumed = rw old split;
      produced = rw no_new (sym (append_nil at.result));
      moved = rw old (omega arith);
      old_lines = rw old (omega arith);
      new_lines = rw no_new (omega arith);
    })
    | inl new ↦ rw new (record {
      consumed = rw old split;
      produced = rw new refl;
      moved = rw old (omega arith);
      old_lines = rw old (omega arith);
      new_lines = rw new (omega arith);
    })
  ]

apply_line-Applied :
    (line : Text) (at done : Cursor) → apply_line line at ≡ ok done → Applied (line ∷ []) at done
unfolding apply_line pass_line
apply_line-Applied [] at done h = cc
apply_line-Applied (marker ∷ content) at done h = elim (Bool-cases (is_old_side marker)) [
  | inr no_old ↦
      subst (Applied ((marker ∷ content) ∷ []) at) (cc (rw no_old at h))
        (new_only marker content at no_old)
  | inl old ↦
      let (passed, e, k) = bind-ok _ _ done (rw old at h) in
      let (left, split, same) = pass_over-ok content at passed at.left e in
      subst (Applied ((marker ∷ content) ∷ []) at)
        (ap (λ x. if is_new_side marker then put_line content x else x) same ∙ cc k)
        (old_line marker content at left old split)
]

pub side_of-cons :
    (on_side : ℕ → Bool) (line : Text) (lines : List Text)
    → side_of on_side (line ∷ lines) ≡ side_of on_side (line ∷ []) ++ side_of on_side lines
side_of-cons on_side [] lines = refl
side_of-cons on_side (c ∷ s) lines = ground arith

pub append_assoc : (xs ys zs : List Text) → (xs ++ ys) ++ zs ≡ xs ++ (ys ++ zs)
append_assoc [] ys zs = refl
append_assoc (x ∷ xs) ys zs = rw (append_assoc xs ys zs)

length-side_of-cons :
    (on_side : ℕ → Bool) (line : Text) (lines : List Text)
    → length (side_of on_side (line ∷ lines))
      ≡ length (side_of on_side (line ∷ [])) + length (side_of on_side lines)
length-side_of-cons on_side line lines =
    ap length (side_of-cons on_side line lines) ∙ length-append _ _

Applied-trans :
    (line : Text) (lines : List Text) (at next done : Cursor)
    → Applied (line ∷ []) at next
    → Applied lines next done
    → Applied (line ∷ lines) at done
Applied-trans line lines at next done a b = record {
  consumed =
      a.consumed
      ∙ ap (λ x. side_of is_old_side (line ∷ []) ++ x) b.consumed
      ∙ sym (append_assoc _ _ done.left)
      ∙ ap (λ x. x ++ done.left) (sym (side_of-cons is_old_side line lines));
  produced =
      b.produced
      ∙ ap (λ x. x ++ side_of is_new_side lines) a.produced
      ∙ append_assoc at.result _ _
      ∙ ap (λ x. at.result ++ x) (sym (side_of-cons is_new_side line lines));
  moved = omega (arith, a.moved, b.moved, length-side_of-cons is_old_side line lines);
  old_lines = omega (arith, a.old_lines, b.old_lines, length-side_of-cons is_old_side line lines);
  new_lines = omega (arith, a.new_lines, b.new_lines, length-side_of-cons is_new_side line lines);
}

pub apply_lines-Applied :
    (lines : List Text) (at done : Cursor) → apply_lines lines at ≡ ok done → Applied lines at done
unfolding apply_lines
apply_lines-Applied [] at done h =
    subst (Applied [] at) (let same : at ≡ done = cc h in same) (record {
      consumed = refl;
      produced = sym (append_nil at.result);
      moved = omega arith;
      old_lines = omega arith;
      new_lines = omega arith;
    })
apply_lines-Applied (line ∷ lines) at done h =
    let (next, e, k) = bind-ok _ _ done h in
    Applied-trans line lines at next done (apply_line-Applied line at next e)
      (apply_lines-Applied lines next done k)
