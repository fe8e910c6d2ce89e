-- ===== src/Gateway/Redaction/Laws.antt =====
-- What a redaction result says of the text.
use agentic_engineering_lab.Python.Regex.{Regex}
use agentic_engineering_lab.Prelude.{
  true, refl, inr, ◌⊎◌, arith, ◌++◌, inl, Bool-cases, ◌∷◌, [], is_empty, any, ◌≡◌, not, String,
  List, Text,
}
use agentic_engineering_lab.Gateway.Redaction.{
  with_manifest, patterns, found_in, redact, run_detectors,
}
use agentic_engineering_lab.Python.{Platform}

module _ (platform : Platform) where
  run_detectors-fires :
      (ds : List (String × Regex)) (text : Text)
      → not (is_empty (run_detectors platform ds text).0) ≡ any (λ d. found_in platform d.1 text) ds
  unfolding run_detectors
  run_detectors-fires [] text = refl
  run_detectors-fires ((name, r) ∷ ds) text = elim (Bool-cases (found_in platform r text)) [
    | inl fires ↦ ground arith
    | inr silent ↦ ground (arith, run_detectors-fires ds text)
  ]

  run_detectors-silent :
      (ds : List (String × Regex)) (text : Text)
      → (run_detectors platform ds text).0 ≡ []
      → (run_detectors platform ds text).1 ≡ text
  unfolding run_detectors
  run_detectors-silent [] text h = refl
  run_detectors-silent ((name, r) ∷ ds) text h = elim (Bool-cases (found_in platform r text)) [
    | inl fires ↦ ground arith
    | inr silent ↦ ground (arith, run_detectors-silent ds text)
  ]

  clean_or_caught :
      (ds : List (String × Regex)) (text : Text)
      → ((run_detectors platform ds text).1 ≡ text)
        ⊎ (not (is_empty (run_detectors platform ds text).0) ≡ true)
  clean_or_caught ds text = by_names (run_detectors platform ds text).0 refl
    where
      by_names :
          (names : List String)
          → (run_detectors platform ds text).0 ≡ names
          → ((run_detectors platform ds text).1 ≡ text)
            ⊎ (not (is_empty (run_detectors platform ds text).0) ≡ true)
      by_names [] e = inl (run_detectors-silent ds text e)
      by_names (n ∷ ns) e = inr (rw e refl)

  -- A text counts as secret exactly if one of the patterns occurs in it as it was given: what an
  -- earlier pattern blanked out hides nothing. A text with no detection is passed on unchanged.
  pub redact_lem :
      (text : Text) (extra : List Regex)
      → ((redact platform text extra).detected
          ≡ any (λ d. found_in platform d.1 text) (patterns ++ with_manifest extra))
        × ((redact platform text extra).text ≡ text
            ⊎ ((redact platform text extra).detected ≡ true))
        × ((redact platform text extra).content_hash ≡ platform.sha256 text)
  unfolding redact
  redact_lem text extra =
      let ds = patterns ++ with_manifest extra in
      (run_detectors-fires ds text, clean_or_caught ds text, refl)
