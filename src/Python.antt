-- ===== src/Python.antt =====
-- What the program uses of Python's standard library, beyond the shared helpers: text methods,
-- `fnmatch`, and the parts of the platform that are taken as parameters.
pub mod Value
pub mod Numbers
pub mod Lines
pub mod Glob
pub mod Regex
use agentic_engineering_lab.Prelude.{Option, List, Bool, ℕ, String, Text}

-- A value of a JSON object that is hashed. An instant stands for its `isoformat()`.
pub data JsonValue : Type 0 where
  null : JsonValue
  text : Text → JsonValue
  flag : Bool → JsonValue
  number : ℕ → JsonValue
  instant : ℕ → JsonValue

-- `sha256` is `hashlib.sha256(text.encode()).hexdigest()`, and `sha256_json` the same for the text
-- `json.dumps(payload, sort_keys=True)` of an object. `lower` is `str.lower` and `is_word` the class
-- `\w` of `re`, and `digit_value` the value of a character of the class `\d`: these rest on the
-- Unicode tables.
pub record Platform : Type 0 where
  pub sha256 : Text → String
  pub sha256_json : List (String × JsonValue) → String
  pub lower : Text → Text
  pub is_word : ℕ → Bool
  pub digit_value : ℕ → Option ℕ
