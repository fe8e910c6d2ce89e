-- ===== src/Runs/Orchestrator/Records.antt =====
-- What is recorded of a run: its model configuration, its tool calls, its model call, and its error.
use agentic_engineering_lab.Python.Value.{mapping, no_fields}
use agentic_engineering_lab.Gateway.Model.{prompt_hash}
use agentic_engineering_lab.Prelude.Table
use agentic_engineering_lab.Gateway.Tracing.{TraceExportResult, TraceSink, export}
use agentic_engineering_lab.Gateway.Redaction.{redact}
use agentic_engineering_lab.Domain.Error.{lookup_error, ok, raised, Result, Exception}
use agentic_engineering_lab.Gateway.Model.{ModelRequest, ModelCallMetadata}
use agentic_engineering_lab.Tools.Registry.{Registry, ToolExecution}
use agentic_engineering_lab.Runs.Orchestrator.Evidence.{RunIds}
use agentic_engineering_lab.Database.{
  text, flag, save_run, modify, CallSettings, gets, pure, ToolCall, the_run, Tx, RedactionEvent,
  Run, Session, ModelCall,
}
use agentic_engineering_lab.Domain.Artifact.{TerminalError}
use agentic_engineering_lab.Python.{Platform}
use agentic_engineering_lab.Prelude.{
  ◌&&◌, not, is_some, ◌++◌, if◌then◌else◌, ◌==◌, ◌+◌, codes, false, keep, take, map, some, Bool,
  none, ◌∷◌, length, [], String, Text, List, ℕ, Option,
}
use agentic_engineering_lab.Runs.Remote.{Remote, ◌>>=◌, give, here, away}

-- What the gateway knows after its call: `latency_ms` is the time since the call began. A gateway
-- that does not keep an attribute has `none` for it.
pub record Telemetry (W : Type 0) : Type 0 where
  pub last_call : Option ModelCallMetadata
  pub last_request : Option ModelRequest
  pub last_provider_allowlist : Option (List String)
  pub trace_exporter : Option (TraceSink W)
  pub latency_ms : ℕ

-- The texts that pydantic and `json.dumps` make, and `str(error)`. The payload of a trace has the run
-- and the call.
pub record Dumps : Type 0 where
  pub terminal_error : TerminalError → Text
  pub trace_payload : ℕ → Run → ModelCall → Text
  pub message : Exception → String

abbrev pub pinned_configuration : Platform → Text → String → Bool → Run → Run
pinned_configuration platform system_prompt model_id evaluation run = record run {
  prompt_hash = some (platform.sha256 system_prompt);
  model_config =
      ("model_id", text model_id)
      ∷ ("data_collection", text "deny")
      ∷ ("evaluation", flag evaluation)
      ∷ [];
}

-- _pin_model_configuration, where `evaluation` is that the run has an evaluation case
unfoldable pub pin_model_configuration : Platform → ℕ → Text → String → Tx (Unit {0})
pin_model_configuration platform k system_prompt model_id s = elim (Table.get s.runs k) [
  | some run ↦
      save_run k
        (pinned_configuration platform system_prompt model_id (is_some run.evaluation_case_id) run)
        s
  | none ↦ (raised (lookup_error "run"), s)
]

abbrev pub tool_rows : ℕ → List ToolExecution → List ToolCall
tool_rows k executions = map (λ e. record { run_id = k; execution = e }) executions

-- _record_tool_calls
unfoldable pub record_tool_calls : ℕ → Option Registry → Tx (Unit {0})
record_tool_calls k none = pure tt
record_tool_calls k (some registry) =
    modify λ s. record s { tool_calls = s.tool_calls ++ tool_rows k registry.records }

-- select(func.count(ModelCall.id)).where(ModelCall.run_id == run.id)
unfoldable pub call_count : ℕ → Session → ℕ
call_count k s = length (keep (λ c. c.run_id == k) s.model_calls)

-- getattr(gateway, "last_provider_allowlist", getattr(request, "provider_allowlist", ()))
unfoldable pub allowlist_of : {W : Type 0} → Telemetry W → List String
allowlist_of telemetry = elim telemetry.last_provider_allowlist [
  | some allowlist ↦ allowlist
  | none ↦ elim telemetry.last_request [ some request ↦ request.provider_allowlist | none ↦ [] ]
]

module _ (platform : Platform) where
  unfoldable pub call_settings : List String → Run → Option ModelRequest → CallSettings
  unfolding prompt_hash
  call_settings allowlist run none = record {
    fallback = false;
    prompt_hash = run.prompt_hash;
    tool_definitions_hash = none;
    provider_allowlist = allowlist;
    trace_export = none;
  }
  call_settings allowlist run (some request) = record {
    fallback = not request.evaluation && not (length allowlist == 1);
    prompt_hash = some (prompt_hash platform request);
    tool_definitions_hash = some request.tool_definitions_hash;
    provider_allowlist = allowlist;
    trace_export = none;
  }

  abbrev pub call_metadata : Option ModelCallMetadata → ModelCallMetadata
  call_metadata (some metadata) = metadata
  call_metadata none = record {
    provider = "configured_gateway";
    usage = mapping no_fields;
    billed_cost = 0;
  }

  -- The row before any trace was sent
  unfoldable pub call_row : {W : Type 0} → ℕ → Run → Telemetry W → String → ℕ → ModelCall
  unfolding allowlist_of call_settings
  call_row k run telemetry model_id sequence =
      let metadata = call_metadata telemetry.last_call in
      record {
        run_id = k;
        sequence = sequence;
        model_id = model_id;
        provider = metadata.provider;
        settings = call_settings (allowlist_of telemetry) run telemetry.last_request;
        usage = metadata.usage;
        billed_cost = metadata.billed_cost;
        latency_ms = telemetry.latency_ms;
        langfuse_trace_id = none;
      }

  abbrev trace_status : List String → String
  trace_status [] = "exported"
  trace_status (name ∷ names) = "blocked"

  abbrev trace_events : ℕ → String → List String → List RedactionEvent
  trace_events k content_hash names =
      map
        (λ name. record {
          run_id = k;
          detector_name = name;
          content_hash = content_hash;
          source_locator = codes "trace:model-call";
          resolution_state = "blocked";
        })
        names

  -- Behind the export: its events are recorded, and the row says how it went.
  unfoldable pub after_export : ℕ → ModelCall → Result TraceExportResult → Tx ModelCall
  after_export k row (raised e) s =
      (ok (record row { settings = record row.settings { trace_export = some "failed" } }), s)
  after_export k row (ok result) s = (
    ok (record row {
      settings = record row.settings { trace_export = some (trace_status result.detector_names) };
      langfuse_trace_id = result.trace_id;
    }),
    record s {
      redaction_events =
          s.redaction_events ++ trace_events k result.content_hash result.detector_names;
    },
  )

  module _ {W : Type 0} (ids : RunIds) (dumps : Dumps) where
    unfoldable pub traced : ℕ → Run → ModelCall → Option (TraceSink W) → Remote W ModelCall
    unfolding export after_export ◌>>=◌
    traced k run row none = give row
    traced k run row (some sink) = do
      outcome ←
          away (export platform sink (ids.show k) "model-call" (dumps.trace_payload k run row))
      here (after_export k row outcome)

    -- _record_model_call
    unfoldable pub record_model_call : ℕ → String → Telemetry W → Remote W (Unit {0})
    unfolding call_count call_row traced ◌>>=◌
    record_model_call k model_id telemetry = do
      run ← here (the_run k)
      count ← here (gets (call_count k))
      row ← traced k run (call_row k run telemetry model_id (count + 1)) telemetry.trace_exporter
      here (modify (λ s. record s { model_calls = s.model_calls ++ row ∷ [] }))

  -- The error as it may be stored: at most a thousand characters of its message, and none of them if
  -- a secret is found.
  unfoldable pub safe_message : Text → Text
  safe_message message =
      let redaction = redact platform (take 1000 message) [] in
      if redaction.detected
      then codes "error detail blocked by redaction policy"
      else redaction.text

  unfoldable pub terminal_error : ℕ → Run → String → Text → ℕ → TerminalError
  unfolding safe_message
  terminal_error k run code message now = record {
    base = record {
      schema_version = "1";
      run_id = k;
      role = run.role;
      pinned_sha = run.pinned_sha;
      created_at = now;
      claims = [];
      unknowns = [];
      citations = [];
    };
    code = code;
    message = safe_message message;
    next_action = some "inspect the run evidence and correct the failed precondition";
  }
