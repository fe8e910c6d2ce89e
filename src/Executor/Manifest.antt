-- ===== src/Executor/Manifest.antt =====
-- src/agentic_lab/executor/manifest.py: recipes, and the requests to run one. A text of a message
-- that depends on its value is left out.
pub mod Requests
use agentic_engineering_lab.Tools.Registry.{mem_string}
use agentic_engineering_lab.Python.Value.{
  Values, mapping, sequence, string, field_then, no_fields, value_then, no_values, field,
}
use agentic_engineering_lab.Domain.Error.{◌>>=◌}
use agentic_engineering_lab.Domain.Error.{ok, value_error, validation_error, raised, unless, Result}
use agentic_engineering_lab.Python.{Platform}
use agentic_engineering_lab.Python.Value.{field, Value, Fields}
use agentic_engineering_lab.Prelude.{
  all, ◌&&◌, split_on, has_char, ◌+◌, ltb, codes, starts_with, ◌==◌, length, ◌||◌, text_eq, any,
  str_eq, true, not, [], some, false, is_empty, drop, ℕ, ◌∷◌, Bool, none, if◌then◌else◌, String,
  Text, Option, List,
}
use agentic_engineering_lab.Python.Lines.{utf8_length, is_space, before}

pub record Recipe : Type 0 where
  pub kind : String
  pub image : Text
  pub adapter : String
  pub working_directory : String
  pub arguments_schema : String
  pub timeout_seconds : ℕ
  pub network : String
  pub required_local_services : List String
  pub expected_output_artifacts : List Text

-- The cost is in millionths of a dollar.
pub record ManifestBudgets : Type 0 where
  pub max_model_turns : ℕ
  pub max_tool_calls : ℕ
  pub max_wall_seconds : ℕ
  pub max_usd : ℕ

pub record ExecutionManifest : Type 0 where
  pub manifest_version : String
  pub repository_id : ℕ
  pub repository : Text
  pub allowed_source_paths : List Text
  pub protected_paths : List Text
  pub recipes : List (String × Recipe)
  pub redaction_patterns : List Text
  pub budgets : ManifestBudgets

pub record RecipeRequest : Type 0 where
  pub run_id : String
  pub source_sha : String
  pub recipe_name : String
  pub arguments : Fields

-- re.fullmatch(r"[^\s@]+@sha256:[0-9a-f]{64}", value): the name ends at the first "@"
unfoldable pub is_immutable_image : Text → Bool
unfolding before
is_immutable_image value =
    let name = before b'@' value in
    let digest = drop (length name + 1) value in
    has_char b'@' value
    && not (is_empty name)
    && not (any is_space name)
    && starts_with digest (codes "sha256:")
    && length digest == 71
    && all (λ c. has_char c (codes "0123456789abcdef")) (drop 7 digest)

-- safe_output_artifacts, for one item
unfoldable pub is_unsafe_output : Text → Bool
is_unsafe_output item =
    is_empty item
    || text_eq item (codes "result.json")
    || starts_with item (codes "/")
    || any (text_eq (codes "..")) (split_on b'/' item)
    || has_char 0 item

-- safe_globs, for one item
unfoldable pub is_unsafe_glob : Text → Bool
is_unsafe_glob item =
    is_empty item || starts_with item (codes "/") || any (text_eq (codes "..")) (split_on b'/' item)

unfoldable pub safe_globs : List Text → Result (List Text)
unfolding is_unsafe_glob
safe_globs value =
    unless (any is_unsafe_glob value)
      (value_error "manifest paths must be repository-relative globs") (ok value)

-- ADAPTER_ARGUMENT_SCHEMAS
unfoldable pub adapter_argument_schemas : List (String × String)
adapter_argument_schemas =
    ("noop_v1", "none_v1")
    ∷ ("pytest_v1", "test_selector_v1")
    ∷ ("pytest_after_patch_v1", "patch_test_selector_v1")
    ∷ ("ruff_check_v1", "none_v1")
    ∷ []

abbrev pub lookup {ℓ} : {A : Type ℓ} → String → List (String × A) → Option A
lookup name [] = none
lookup name ((n, a) ∷ rest) = if str_eq n name then some a else lookup name rest

unfoldable pub adapter_matches_arguments : Recipe → Result Recipe
unfolding adapter_argument_schemas
adapter_matches_arguments recipe = elim (lookup recipe.adapter adapter_argument_schemas) [
  | none ↦ raised (validation_error "adapter")
  | some expected ↦
      unless (not (str_eq recipe.arguments_schema expected))
        (value_error "adapter requires another arguments schema") (ok recipe)
]

-- The validators of a recipe, in the order of its fields
unfoldable pub validate_recipe : Recipe → Result Recipe
unfolding is_immutable_image is_unsafe_output adapter_matches_arguments
validate_recipe recipe =
    unless (not (is_immutable_image recipe.image))
      (value_error "recipe image must use an immutable digest")
      (unless (not (str_eq recipe.working_directory "/work/workspace"))
        (value_error "v1 recipes must run inside the ephemeral executor workspace")
        (unless (recipe.timeout_seconds == 0 || ltb 3600 recipe.timeout_seconds)
          (validation_error "timeout_seconds")
          (unless (not (str_eq recipe.network "none"))
            (value_error "v1 recipes must disable network access")
            (unless (any is_unsafe_output recipe.expected_output_artifacts)
              (value_error "output artifacts must be relative to the output directory")
              (adapter_matches_arguments recipe)))))

module _ (platform : Platform) where
  -- str(key).lower() in {"command", "cmd", "shell", "script"}
  unfoldable pub is_command_key : String → Bool
  is_command_key key =
      any (λ name. text_eq (platform.lower (codes key)) (codes name))
        ("command" ∷ "cmd" ∷ "shell" ∷ "script" ∷ [])

  -- _contains_command_key
  unfoldable mutual
    pub contains_command_key : Value → Bool
    contains_command_key (mapping fs) = fields_contain fs
    contains_command_key (sequence vs) = values_contain vs
    contains_command_key _ = false

    pub fields_contain : Fields → Bool
    fields_contain no_fields = false
    fields_contain (field_then key v fs) =
        is_command_key key || contains_command_key v || fields_contain fs

    pub values_contain : Values → Bool
    values_contain no_values = false
    values_contain (value_then v vs) = contains_command_key v || values_contain vs

-- Whether all keys are among the names.
abbrev pub keys_within : List String → Fields → Bool
keys_within names no_fields = true
keys_within names (field_then key v fs) = mem_string key names && keys_within names fs

-- not selector or len(selector) > 500 or any(character in selector for character in ";|&`$\n")
unfoldable pub is_unsafe_selector : Text → Bool
is_unsafe_selector selector =
    is_empty selector
    || ltb 500 (length selector)
    || any (λ c. has_char c selector) (b';' ∷ b'|' ∷ b'&' ∷ b'`' ∷ b'$' ∷ 10 ∷ [])

abbrev selector_only : Option Value → Result (Unit {0})
selector_only (some (string selector)) =
    unless (is_unsafe_selector selector) (value_error "test selector contains unsafe characters")
      (ok tt)
selector_only _ = raised (value_error "test_selector_v1 requires only a string selector")

abbrev selector_and_diff : Option Value → Option Value → Result (Unit {0})
selector_and_diff (some (string selector)) (some (string diff)) =
    unless (is_unsafe_selector selector) (value_error "test selector contains unsafe characters") (
      unless (is_empty diff || ltb 100000 (utf8_length diff))
        (value_error "unified diff is empty or oversized") (ok tt))
selector_and_diff (some a) (some b) =
    raised (value_error "patch_test_selector_v1 arguments must be strings")
selector_and_diff _ _ =
    raised (value_error "patch_test_selector_v1 requires selector and unified_diff")

abbrev pub has_fields : Fields → Bool
has_fields no_fields = false
has_fields (field_then key v fs) = true

-- _validate_arguments
unfoldable pub validate_arguments : String → Fields → Result (Unit {0})
unfolding is_unsafe_selector
validate_arguments schema arguments =
    if str_eq schema "v1" || str_eq schema "none_v1"
    then unless (has_fields arguments) (value_error "the schema does not accept arguments") (ok tt)
    else if str_eq schema "test_selector_v1"
    then unless (not (keys_within ("selector" ∷ []) arguments))
        (value_error "test_selector_v1 requires only a string selector")
        (selector_only (field "selector" arguments))
    else if str_eq schema "patch_test_selector_v1"
    then unless (not (keys_within ("selector" ∷ "unified_diff" ∷ []) arguments))
        (value_error "patch_test_selector_v1 requires selector and unified_diff")
        (selector_and_diff (field "selector" arguments) (field "unified_diff" arguments))
    else raised (value_error "unknown recipe arguments schema")

-- not request.run_id or len(request.source_sha) not in {40, 64}
abbrev pub lacks_identity : RecipeRequest → Bool
lacks_identity request =
    let size = length (codes request.source_sha) in
    str_eq request.run_id "" || not (size == 40 || size == 64)

unfoldable pub validate_recipe_request :
    Platform → ExecutionManifest → RecipeRequest → Result Recipe
unfolding validate_arguments fields_contain
validate_recipe_request platform manifest request =
    elim (lookup request.recipe_name manifest.recipes) [
      | none ↦ raised (value_error "unknown manifest recipe")
      | some recipe ↦
          unless (lacks_identity request)
            (value_error "run ID and immutable source SHA are required")
            (unless (fields_contain platform request.arguments)
              (value_error "recipe arguments cannot contain command text")
              (validate_arguments recipe.arguments_schema request.arguments >>= λ u. ok recipe))
    ]
