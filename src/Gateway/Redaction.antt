-- ===== src/Gateway/Redaction.antt =====
-- src/agentic_lab/gateway/redaction.py: secrets are found by six patterns, and by those of a manifest.
pub mod Laws
use agentic_engineering_lab.Python.{Platform}
use agentic_engineering_lab.Python.Regex.{
  alt, char, word_boundary, seq, empty, search_from, sub_from, many, Regex,
}
use agentic_engineering_lab.Python.Lines.{is_space}
use agentic_engineering_lab.Prelude.{
  is_empty, ◌&&◌, ◌==◌, false, some, has_char, ◌||◌, none, ◌+◌, true, not, leb, [], codes,
  if◌then◌else◌, ◌++◌, Bool, ◌∷◌, ℕ, Text, List, String,
}

abbrev between : ℕ → ℕ → ℕ → Bool
between lo hi c = leb lo c && leb c hi

abbrev upper_case : ℕ → Bool
upper_case c = between b'A' b'Z' c

abbrev digit : ℕ → Bool
digit c = between b'0' b'9' c

abbrev letter : ℕ → Bool
letter c = upper_case c || between b'a' b'z' c

-- A character as `re.IGNORECASE` compares it with a small letter: four letters outside ASCII fold too.
abbrev fold_case : ℕ → ℕ
fold_case c =
    if upper_case c
    then c + 32
    else if c == 304 || c == 305
    then b'i'
    else if c == 383
    then b's'
    else if c == 8490
    then b'k'
    else c

-- [...], letters and digits and the characters of a text
abbrev class_with : String → ℕ → Bool
class_with extra c = letter c || digit c || has_char c (codes extra)

abbrev literal : Text → Regex
literal [] = empty
literal (a ∷ s) = seq (char (λ c. c == a)) (literal s)

-- A literal in small letters, under (?i)
abbrev any_case : Text → Regex
any_case [] = empty
any_case (a ∷ s) = seq (char (λ c. fold_case c == a)) (any_case s)

unfoldable pub private_key : Regex
private_key =
    seq (literal (codes "-----BEGIN "))
      (seq (many 0 none (λ c. upper_case c || c == 32)) (literal (codes "PRIVATE KEY-----")))

unfoldable pub github_token : Regex
github_token = seq word_boundary (
    seq (literal (codes "gh")) (
      seq (char (λ c. has_char c (codes "pousr")))
        (seq (literal (codes "_")) (seq (many 20 none (class_with "_")) word_boundary))))

unfoldable pub jwt : Regex
jwt = seq word_boundary (
    seq (literal (codes "eyJ")) (
      seq part (
        seq (literal (codes ".")) (seq part (seq (literal (codes ".")) (seq part word_boundary))))))
  where
    part : Regex
    part = many 8 none (class_with "_-")

unfoldable pub connection_string : Regex
unfolding is_space
connection_string = seq word_boundary (
    seq
      (alt (any_case (codes "postgres"))
        (alt (any_case (codes "mysql")) (any_case (codes "mongodb"))))
      (seq (literal (codes "://")) (many 1 none (λ c. not (is_space c)))))

unfoldable pub bearer_token : Regex
unfolding is_space
bearer_token = seq word_boundary (
    seq (any_case (codes "bearer"))
      (seq (many 1 none is_space) (many 16 none (λ c. class_with "._~+/=-" (fold_case c)))))

unfoldable pub secret_assignment : Regex
unfolding is_space
secret_assignment = seq word_boundary (
    seq
      (alt api_key (
        alt (any_case (codes "secret"))
          (alt (any_case (codes "password")) (any_case (codes "token")))))
      (seq word_boundary (
        seq (many 0 none is_space) (
          seq (char (λ c. has_char c (codes ":="))) (
            seq (many 0 none is_space) (
              seq (many 0 (some 1) (λ c. c == 39 || c == 34))
                (many 16 none (λ c. class_with "_./+=-" (fold_case c)))))))))
  where
    api_key : Regex
    api_key =
        seq (any_case (codes "api"))
          (seq (many 0 (some 1) (λ c. has_char c (codes "_-"))) (any_case (codes "key")))

-- _PATTERNS
unfoldable pub patterns : List (String × Regex)
unfolding private_key github_token jwt connection_string bearer_token secret_assignment
patterns =
    ("private_key", private_key)
    ∷ ("github_token", github_token)
    ∷ ("jwt", jwt)
    ∷ ("connection_string", connection_string)
    ∷ ("bearer_token", bearer_token)
    ∷ ("secret_assignment", secret_assignment)
    ∷ []

-- The patterns of a manifest come compiled.
abbrev pub with_manifest : List Regex → List (String × Regex)
with_manifest [] = []
with_manifest (r ∷ rs) = ("manifest", r) ∷ with_manifest rs

pub record RedactionResult : Type 0 where
  pub text : Text
  pub detected : Bool
  pub detector_names : List String
  pub content_hash : String

module _ (platform : Platform) where
  -- pattern.search(text)
  unfoldable pub found_in : Regex → Text → Bool
  unfolding search_from
  found_in r text = search_from platform.is_word r none text

  -- pattern.sub("[REDACTED]", text)
  unfoldable pub blank_out : Regex → Text → Text
  unfolding sub_from
  blank_out r text = sub_from platform.is_word r (codes "[REDACTED]") 0 none text

  -- The loop: the names of the detectors that fired, and the text without what they found.
  unfoldable pub run_detectors : List (String × Regex) → Text → List String × Text
  run_detectors [] text = ([], text)
  run_detectors ((name, r) ∷ rest) text = elim (found_in r text) [
    | true ↦
        let (names, redacted) = run_detectors rest (blank_out r text) in (name ∷ names, redacted)
    | false ↦ run_detectors rest text
  ]

  unfoldable pub redact : Text → List Regex → RedactionResult
  unfolding run_detectors
  redact text extra_patterns =
      let (names, redacted) = run_detectors (patterns ++ with_manifest extra_patterns) text in
      record {
        text = redacted;
        detected = not (is_empty names);
        detector_names = names;
        content_hash = platform.sha256 text;
      }
