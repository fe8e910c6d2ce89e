-- ===== src/Tools/Registry.antt =====
-- src/agentic_lab/tools/registry.py: the tools of one run, with their budget and their record. What
-- the lock guards is one step: `reserve` and `append_record` are the two locked sections of a call,
-- and `answer` is what it does between them. Calls that run side by side interleave these steps.
pub mod Bounds
pub mod Counting
pub mod Locators
pub mod Payloads
pub mod Steps
use agentic_engineering_lab.Python.Value.{
  Value, Values, Fields, string, sequence, mapping, boolean, field, no_values, value_then,
  no_fields, field_then,
}
use agentic_engineering_lab.Python.Lines.{before}
use agentic_engineering_lab.Gateway.Redaction.{redact}
use agentic_engineering_lab.Python.Regex.{Regex}
use agentic_engineering_lab.Domain.Error.{
  class_name, is_file_not_found, is_value_error, runtime_error, value_error, raised, ok, Result,
}
use agentic_engineering_lab.Python.Value.{Value}
use agentic_engineering_lab.Domain.Status.{ci, assessor, role_eq, AgentRole}
use agentic_engineering_lab.Python.{Platform}
use agentic_engineering_lab.Prelude.{
  codes, ◌==◌, ◌||◌, not, ◌+◌, false, ◌++◌, ◌&&◌, keep, str_eq, leb, text_eq, ltb, none, mem_text,
  [], if◌then◌else◌, ◌∷◌, some, any, true, List, Bool, ℕ, Text, String, Option,
}

-- The summary of a result: its hash if it has one, whether a secret was found, and an error's type.
pub record ToolExecution : Type 0 where
  pub number : ℕ
  pub tool_name : String
  pub request : Value
  pub content_hash : Option String
  pub redacted : Bool
  pub error_type : Option String
  pub status : String

-- What the model is given.
pub data Payload : Type 0 where
  window_closed : Payload
  contract_error : String → Payload
  blocked : String → Payload
  delivered : String → Value → Payload

-- The locators that tools have shown, under the commit and the hash of what they stand for.
abbrev pub Shown : Type 0
Shown = List (Text × Text × Text)

pub record Registry : Type 0 where
  pub role : AgentRole
  pub max_calls : ℕ
  pub has_diff_evidence : Bool
  pub has_check_evidence : Bool
  pub records : List ToolExecution
  pub next_sequence : ℕ
  pub evidence_call_limit : Option ℕ
  pub evidence_request_limit : Option ℕ
  pub citation_locators : Shown

-- `SnapshotToolRegistry(...)`
unfoldable pub new_registry : AgentRole → ℕ → Bool → Bool → Registry
new_registry role max_calls has_diff_evidence has_check_evidence = record {
  role = role;
  max_calls = max_calls;
  has_diff_evidence = has_diff_evidence;
  has_check_evidence = has_check_evidence;
  records = [];
  next_sequence = 1;
  evidence_call_limit = none;
  evidence_request_limit = none;
  citation_locators = [];
}

-- The names of _available_inputs
unfoldable pub available_inputs : Registry → List String
available_inputs r =
    "list_tree"
    ∷ "read_file"
    ∷ "search_text"
    ∷ "search_structure"
    ∷ "git_history"
    ∷ ((if (role_eq r.role assessor || role_eq r.role ci) && r.has_diff_evidence
          then "inspect_diff" ∷ []
          else [])
        ++ (if role_eq r.role ci && r.has_check_evidence then "inspect_check" ∷ [] else []))

unfoldable pub configure_evidence_window : ℕ → ℕ → Registry → Result (Unit {0}) × Registry
configure_evidence_window max_calls max_requests r =
    if ltb r.max_calls max_calls
    then (raised (value_error "evidence window must fit within the run budget"), r)
    else if not (r.next_sequence == 1)
    then (raised (runtime_error "evidence window must be configured before tool execution"), r)
    else (
      ok tt,
      record r { evidence_call_limit = some max_calls; evidence_request_limit = some max_requests },
    )

-- limit is None or n <= limit
abbrev pub within : ℕ → Option ℕ → Bool
within n none = true
within n (some limit) = leb n limit

unfoldable pub evidence_available : Registry → Bool
evidence_available r = within r.next_sequence r.evidence_call_limit

-- The locators under a commit and a hash, each once.
unfoldable pub candidates : Text → Text → Shown → List Text
candidates pinned_sha excerpt_hash [] = []
candidates pinned_sha excerpt_hash ((sha, hash, locator) ∷ rest) =
    let others = candidates pinned_sha excerpt_hash rest in
    if text_eq sha pinned_sha && text_eq hash excerpt_hash && not (mem_text locator others)
    then locator ∷ others
    else others

-- The only member, if there is just one.
abbrev pub only : List Text → Option Text
only (a ∷ []) = some a
only _ = none

abbrev pub or_else : Option Text → Option Text → Option Text
or_else (some a) o = some a
or_else none o = o

abbrev pub same_path : Text → Text → Bool
same_path a b = text_eq (before b'#' b) (before b'#' a)

unfoldable pub canonical_locator : Text → Text → Text → Registry → Option Text
unfolding candidates
canonical_locator claimed pinned_sha excerpt_hash r =
    let found = candidates pinned_sha excerpt_hash r.citation_locators in
    if mem_text claimed found
    then some claimed
    else or_else (only (keep (same_path claimed) found)) (only found)

-- The walk of _remember_citation_locators: an object that names its place comes before its members.
unfoldable pub shown_here : Option Value → Option Value → Option Value → Shown
shown_here (some (string locator)) (some (string sha)) (some (string hash)) =
    (sha, hash, locator) ∷ []
shown_here _ _ _ = []

unfoldable mutual
  pub visit : Value → Shown
  visit (sequence vs) = visit_each vs
  visit (mapping fs) =
      shown_here (field "locator" fs) (field "pinned_sha" fs) (field "content_hash" fs)
      ++ visit_fields fs
  visit _ = []

  pub visit_each : Values → Shown
  visit_each no_values = []
  visit_each (value_then v vs) = visit v ++ visit_each vs

  pub visit_fields : Fields → Shown
  visit_fields no_fields = []
  visit_fields (field_then k v fs) = visit v ++ visit_fields fs

-- The tools themselves: `dispatch` validates the arguments of a tool and runs it on the snapshot.
-- `dumps` is `json.dumps(value, sort_keys=True)`; reading that back gives the value.
pub record Toolbox : Type 0 where
  pub dispatch : String → Value → Result Value
  pub dumps : Value → Text
  pub extra_redaction_patterns : List Regex

abbrev pub mem_string : String → List String → Bool
mem_string s names = any (str_eq s) names

module _ (platform : Platform) (toolbox : Toolbox) where
  -- _redacted_request
  unfoldable pub redacted_request : Value → Value
  redacted_request arguments =
      let result = redact platform (toolbox.dumps arguments) [] in
      if result.detected
      then mapping (
          field_then "redacted" (boolean true)
            (field_then "content_hash" (string (codes result.content_hash)) no_fields))
      else arguments

  -- The result of a tool, as it may be shown.
  unfoldable pub shown_payload : Value → Payload
  shown_payload result =
      let redaction = redact platform (toolbox.dumps result) toolbox.extra_redaction_patterns in
      if redaction.detected
      then blocked redaction.content_hash
      else delivered redaction.content_hash result

  -- Behind the tool: validation errors and missing files become a payload, all else passes.
  unfoldable pub after_dispatch : Registry → Result Value → Result Payload × Registry
  unfolding shown_payload
  after_dispatch r (ok result) = (
    ok (shown_payload result),
    record r { citation_locators = r.citation_locators ++ visit result },
  )
  after_dispatch r (raised e) =
      if is_value_error e || is_file_not_found e
      then (ok (contract_error (class_name e)), r)
      else (raised e, r)

  -- _execute_allowed
  unfoldable pub execute_allowed : String → Value → Registry → Result Payload × Registry
  unfolding after_dispatch
  execute_allowed tool_name arguments r =
      if mem_string tool_name (available_inputs r)
      then after_dispatch r (toolbox.dispatch tool_name arguments)
      else (ok (contract_error "ValueError"), r)

  unfoldable pub status_of : Payload → String
  status_of window_closed = "policy_refused"
  status_of (contract_error name) = "contract_error"
  status_of _ = "ok"

  unfoldable pub execution : ℕ → String → Value → Payload → ToolExecution
  execution number tool_name arguments payload = record {
    number = number;
    tool_name = tool_name;
    request = redacted_request arguments;
    content_hash = hash_of payload;
    redacted = is_blocked payload;
    error_type = error_of payload;
    status = status_of payload;
  }
    where
      hash_of : Payload → Option String
      hash_of (blocked h) = some h
      hash_of (delivered h v) = some h
      hash_of _ = none

      is_blocked : Payload → Bool
      is_blocked (blocked h) = true
      is_blocked _ = false

      error_of : Payload → Option String
      error_of (contract_error name) = some name
      error_of _ = none

  -- model_requests is None or model_requests <= limit, where there is a limit
  abbrev pub requests_within : Option ℕ → Option ℕ → Bool
  requests_within none limit = true
  requests_within (some n) limit = within n limit

  -- The first locked section: the number of the call, and whether it is in the evidence window.
  unfoldable pub reserve : Option ℕ → Registry → Result (ℕ × Bool) × Registry
  reserve model_requests r =
      if ltb r.max_calls r.next_sequence
      then (raised (runtime_error "tool call budget exhausted"), r)
      else (
        ok (
          r.next_sequence,
          within r.next_sequence r.evidence_call_limit
              && requests_within model_requests r.evidence_request_limit,
        ),
        record r { next_sequence = r.next_sequence + 1 },
      )

  -- Between the locked sections.
  unfoldable pub answer : Bool → String → Value → Registry → Result Payload × Registry
  unfolding execute_allowed
  answer true tool_name arguments r = execute_allowed tool_name arguments r
  answer false tool_name arguments r = (ok window_closed, r)

  -- The second locked section.
  unfoldable pub append_record : ToolExecution → Registry → Registry
  append_record e r = record r { records = r.records ++ e ∷ [] }

  -- Behind the answer: the call is recorded, unless it raised.
  unfoldable pub record_call :
      ℕ → String → Value → Result Payload × Registry → Result Payload × Registry
  unfolding append_record
  record_call number tool_name arguments (raised e, r) = (raised e, r)
  record_call number tool_name arguments (ok payload, r) =
      (ok payload, append_record (execution number tool_name arguments payload) r)

  -- Behind the first locked section.
  unfoldable pub run_reserved :
      String → Value → Result (ℕ × Bool) × Registry → Result Payload × Registry
  unfolding record_call answer
  run_reserved tool_name arguments (raised e, r) = (raised e, r)
  run_reserved tool_name arguments (ok (number, evidence_allowed), r) =
      record_call number tool_name arguments (answer evidence_allowed tool_name arguments r)

  -- A call that no other one interrupts: its steps, one after the other.
  unfoldable pub execute : String → Value → Option ℕ → Registry → Result Payload × Registry
  unfolding reserve run_reserved
  execute tool_name arguments model_requests r =
      run_reserved tool_name arguments (reserve model_requests r)
