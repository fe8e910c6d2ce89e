-- ===== src/Tests/Tools.antt =====
-- The tools of an assessor with two calls, over a tool that reads one line; and a recipe request.
use agentic_engineering_lab.Tools.Registry.Steps.{
  reserved, Call, Reaches, then_step, at_start, begins, answers, appends, first,
}
use agentic_engineering_lab.Gateway.Redaction.{found_in, patterns, redact}
use agentic_engineering_lab.Executor.Manifest.Requests.{
  validate_recipe_request-IsAccepted, IsAccepted,
}
use agentic_engineering_lab.Tools.Registry.Locators.{canonical_locator-is_shown, is_shown}
use agentic_engineering_lab.Domain.Status.{assessor}
use agentic_engineering_lab.Python.Lines.{is_space, before}
use agentic_engineering_lab.Tests.Values.{ascii}
use agentic_engineering_lab.Prelude.{
  ◌+◌, ℕ, ◌≤◌, length, ap, none, some, true, refl, false, [], ◌∷◌, codes, ◌≡◌,
}
use agentic_engineering_lab.Tools.Registry.Payloads.{execute-IsDelivered, IsDelivered}
use agentic_engineering_lab.Domain.Error.{runtime_error, value_error, raised, ok, Result}
use agentic_engineering_lab.Python.Value.{Value, string, mapping, no_fields, field_then, field}
use agentic_engineering_lab.Tools.Registry.Bounds.{records-bounded}
use agentic_engineering_lab.Tools.Registry.Counting.{count_of}
use agentic_engineering_lab.Executor.Manifest.{
  is_command_key, ExecutionManifest, validate_recipe_request, RecipeRequest, safe_globs, Recipe,
  validate_recipe,
}
use agentic_engineering_lab.Tools.Registry.{
  execution, contract_error, ToolExecution, append_record, reserve, answer, new_registry,
  window_closed, delivered, shown_payload, available_inputs, after_dispatch, shown_here, candidates,
  Payload, execute_allowed, canonical_locator, visit, execute, Registry, Toolbox,
}

abbrev shown_line : Value
shown_line = mapping (
    field_then "locator" (string (codes "f.py#L1-L1")) (
      field_then "pinned_sha" (string (codes "aaaa"))
        (field_then "content_hash" (string (codes "h")) no_fields)))

abbrev toolbox : Toolbox
toolbox = record {
  dispatch = λ name arguments. ok shown_line;
  dumps = λ value. [];
  extra_redaction_patterns = [];
}

abbrev registry : Registry
registry = record {
  role = assessor;
  max_calls = 2;
  has_diff_evidence = false;
  has_check_evidence = false;
  records = [];
  next_sequence = 1;
  evidence_call_limit = some 1;
  evidence_request_limit = some 1;
  citation_locators = [];
}

abbrev first_call : Result Payload × Registry
first_call = execute ascii toolbox "read_file" (mapping no_fields) none registry

first_call_delivers : first_call.0 ≡ ok (delivered "sha" shown_line)
unfolding execute execute_allowed after_dispatch available_inputs shown_payload redact patterns
    found_in mathlib.Core.Bool.xor
first_call_delivers = refl

-- The second call is behind the evidence window, the third behind the budget.
second_call_closed :
    (execute ascii toolbox "read_file"
      (mapping no_fields)
      none
      (record registry { next_sequence = 2 })).0
    ≡ ok window_closed
unfolding execute
second_call_closed = refl

third_call_raises :
    (execute ascii toolbox "read_file"
      (mapping no_fields)
      none
      (record registry { next_sequence = 3 })).0
    ≡ raised (runtime_error "tool call budget exhausted")
unfolding execute
third_call_raises = refl

shown_line_remembered : visit shown_line ≡ (codes "aaaa", codes "h", codes "f.py#L1-L1") ∷ []
unfolding visit field shown_here
shown_line_remembered = refl

execute-IsDelivered_example :
    IsDelivered ascii toolbox "read_file" (mapping no_fields) none registry shown_line
execute-IsDelivered_example =
    execute-IsDelivered ascii toolbox "read_file" (mapping no_fields) shown_line none "sha" registry
      first_call.1 (ap (λ r. (r, first_call.1)) first_call_delivers)

-- Two calls side by side of a registry with two calls: the second one is recorded first.
abbrev empty_registry : Registry
empty_registry = new_registry assessor 2 false false

abbrev call_of : ℕ → Call
call_of number = reserved number true "write_file" (mapping no_fields)

abbrev execution_of : ℕ → ToolExecution
execution_of number =
    execution ascii toolbox number "write_file" (mapping no_fields) (contract_error "ValueError")

abbrev both_reserved : Registry
both_reserved = record empty_registry { next_sequence = 3 }

abbrev second_recorded : Registry
second_recorded = record both_reserved { records = execution_of 2 ∷ [] }

abbrev crossed : Registry
crossed = record both_reserved { records = execution_of 2 ∷ execution_of 1 ∷ [] }

begun : Reaches ascii toolbox empty_registry both_reserved (call_of 2 ∷ call_of 1 ∷ [])
unfolding reserve new_registry
begun =
    then_step (then_step at_start (begins none "write_file" (mapping no_fields) 1 true refl))
      (begins none "write_file" (mapping no_fields) 2 true refl)

crossed-Reaches : Reaches ascii toolbox empty_registry crossed []
unfolding answer execute_allowed available_inputs append_record new_registry
crossed-Reaches =
    let second_answered = then_step begun (
      answers 2 true "write_file" (mapping no_fields) (contract_error "ValueError")
        (first (call_of 1 ∷ [])) refl) in
    let second_done : Reaches ascii toolbox empty_registry second_recorded (call_of 1 ∷ []) =
      then_step second_answered (appends (execution_of 2) (first (call_of 1 ∷ []))) in
    then_step
      (then_step second_done (
        answers 1 true "write_file" (mapping no_fields) (contract_error "ValueError") (first [])
          refl))
      (appends (execution_of 1) (first []))

records-bounded_example :
    (length crossed.records + length {A = Call} [] ≤ 2)
    × ((n : ℕ) → (count_of n crossed.records ≤ 1) × (3 ≤ n → count_of n crossed.records ≡ 0))
records-bounded_example =
    records-bounded ascii toolbox assessor 2 false false crossed [] crossed-Reaches

canonical_locator-is_shown_example :
    is_shown
      (codes "aaaa")
      (codes "h")
      (codes "f.py#L1-L1")
      ((codes "aaaa", codes "h", codes "f.py#L1-L1") ∷ [])
    ≡ true
unfolding canonical_locator candidates before
canonical_locator-is_shown_example =
    canonical_locator-is_shown (codes "f.py#L1-L2") (codes "aaaa") (codes "h") (codes "f.py#L1-L1")
      (record registry { citation_locators = (codes "aaaa", codes "h", codes "f.py#L1-L1") ∷ [] })
      refl

abbrev recipe : Recipe
recipe = record {
  kind = "validate";
  image = codes "image@sha256:";
  adapter = "pytest_v1";
  working_directory = "/work/workspace";
  arguments_schema = "test_selector_v1";
  timeout_seconds = 60;
  network = "none";
  required_local_services = [];
  expected_output_artifacts = [];
}

-- The image of this recipe has no digest.
recipe_refused :
    validate_recipe recipe ≡ raised (value_error "recipe image must use an immutable digest")
unfolding validate_recipe before is_space
recipe_refused = refl

abbrev manifest : ExecutionManifest
manifest = record {
  manifest_version = "1";
  repository_id = 7;
  repository = codes "lab/target";
  allowed_source_paths = codes "src/**" ∷ [];
  protected_paths = [];
  recipes = ("tests", recipe) ∷ [];
  redaction_patterns = [];
  budgets = record {
    max_model_turns = 12;
    max_tool_calls = 40;
    max_wall_seconds = 1200;
    max_usd = 3000000;
  };
}

manifest_globs : safe_globs manifest.allowed_source_paths ≡ ok (codes "src/**" ∷ [])
unfolding safe_globs
manifest_globs = refl

abbrev recipe_request : RecipeRequest
recipe_request = record {
  run_id = "0";
  source_sha = "aaaaaaaaaaaaaaaaaaaaaaaaaaaaaaaaaaaaaaaa";
  recipe_name = "tests";
  arguments = field_then "selector" (string (codes "tests/test_f.py")) no_fields;
}

validate_recipe_request-IsAccepted_example : IsAccepted ascii manifest recipe_request recipe
unfolding validate_recipe_request is_command_key field
validate_recipe_request-IsAccepted_example =
    validate_recipe_request-IsAccepted ascii manifest recipe_request recipe refl
