-- ===== src/Tools/Registry/Locators.antt =====
-- Which locators a citation may end up with.
use agentic_engineering_lab.Tools.Registry.{
  same_path, only, Registry, Shown, candidates, canonical_locator,
}
use agentic_engineering_lab.Prelude.{
  sym, ◌∙◌, Option-cases, inr, subst, refl, inl, Bool-cases, [], text_eq_iff, true, ◌&&◌, arith,
  ◌∷◌, keep, some, text_eq, any, mem_text, ◌≡◌, Bool, List, Text,
}

-- Some tool has shown the locator, under the commit and the hash.

abbrev pub is_shown : Text → Text → Text → Shown → Bool
is_shown sha hash locator shown =
    any (λ x. text_eq x.0 sha && text_eq x.1 hash && text_eq x.2 locator) shown

mem_text-candidates :
    (sha hash locator : Text) (shown : Shown)
    → mem_text locator (candidates sha hash shown) ≡ is_shown sha hash locator shown
unfolding candidates
mem_text-candidates sha hash locator [] = refl
mem_text-candidates sha hash locator ((s, h, l) ∷ rest) =
    ground (
      arith,
      mem_text-candidates sha hash locator rest,
      text_eq_iff locator l,
      text_eq_iff l locator,
    )

mem_text-only : (l : Text) (ts : List Text) → only ts ≡ some l → mem_text l ts ≡ true
mem_text-only l [] h = cc h
mem_text-only l (a ∷ []) h = ground (arith, text_eq_iff l a)
mem_text-only l (a ∷ b ∷ ts) h = cc h

mem_text-keep :
    (p : Text → Bool) (l : Text) (ts : List Text)
    → mem_text l (keep p ts) ≡ true
    → mem_text l ts ≡ true
mem_text-keep p l [] h = h
mem_text-keep p l (t ∷ ts) h = ground (arith, mem_text-keep p l ts)

-- If a claimed locator has a canonical one, then some tool has shown that under the same commit and
-- hash.
pub canonical_locator-is_shown :
    (claimed sha hash l : Text) (r : Registry)
    → canonical_locator claimed sha hash r ≡ some l
    → is_shown sha hash l r.citation_locators ≡ true
unfolding canonical_locator
canonical_locator-is_shown claimed sha hash l r h =
    let found = candidates sha hash r.citation_locators in
    sym (mem_text-candidates sha hash l r.citation_locators)
    ∙ elim (Bool-cases (mem_text claimed found)) [
      | inl known ↦
          let e : claimed ≡ l = cc (rw known at h) in
          subst (λ x. mem_text x (candidates sha hash r.citation_locators) ≡ true) e known
      | inr unknown ↦ elim (Option-cases (only (keep (same_path claimed) found))) [
        | inr (m, one) ↦
            mem_text-keep (same_path claimed) l _
              (mem_text-only l _ (one ∙ cc (rw (unknown, one) at h)))
        | inl many ↦ mem_text-only l _ (rw (unknown, many) at h)
      ]
    ]

-- A locator that was shown under the commit and the hash that are claimed with it is kept as it is.
pub canonical_locator-kept :
    (claimed sha hash : Text) (r : Registry)
    → is_shown sha hash claimed r.citation_locators ≡ true
    → canonical_locator claimed sha hash r ≡ some claimed
unfolding canonical_locator
canonical_locator-kept claimed sha hash r known =
    rw (mem_text-candidates sha hash claimed r.citation_locators ∙ known) refl
