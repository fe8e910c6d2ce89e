-- ===== src/Runs/Orchestrator/Quiet.antt =====
-- The records of a call touch no run.
use agentic_engineering_lab.Runs.Remote.Rules.{keeping, Keeps-give}
use agentic_engineering_lab.Runs.Remote.{Keeps}
use agentic_engineering_lab.Gateway.Tracing.{TraceSink, TraceExportResult}
use agentic_engineering_lab.Tools.Registry.{Registry}
use agentic_engineering_lab.Domain.Error.{ok, raised, Result}
use agentic_engineering_lab.Database.Preserves.{preserving, Preserves-pure, Preserves}
use agentic_engineering_lab.Runs.Orchestrator.Flows.{AgentCall, record_calls}
use agentic_engineering_lab.Prelude.{none, some, [], ◌∷◌, ◌++◌, Option, String, ℕ, List}
use agentic_engineering_lab.Runs.Orchestrator.Records.{
  Telemetry, record_model_call, after_export, record_tool_calls, traced, Dumps,
}
use agentic_engineering_lab.Runs.Orchestrator.Evidence.{RunIds}
use agentic_engineering_lab.Python.{Platform}
use agentic_engineering_lab.Database.{Run, modify, ModelCall, ToolCall, RedactionEvent, Session}

module _ {κ} (P : Session → Type κ) (platform : Platform) (ids : RunIds) (dumps : Dumps)
    (events : (es : List RedactionEvent) (s : Session)
      → P s
      → P (record s { redaction_events = es }))
    (tools : (ts : List ToolCall) (s : Session) → P s → P (record s { tool_calls = ts }))
    (calls : (cs : List ModelCall) (s : Session) → P s → P (record s { model_calls = cs })) where
  after_export-Preserves :
      (k : ℕ) (row : ModelCall) (x : Result TraceExportResult)
      → Preserves P (after_export platform k row x)
  unfolding after_export
  after_export-Preserves k row (raised e) = record { step = λ s p. p }
  after_export-Preserves k row (ok result) = record { step = λ s p. events _ s p }

  add_call-Preserves :
      (row : ModelCall)
      → Preserves P (modify (λ s. record s { model_calls = s.model_calls ++ row ∷ [] }))
  unfolding modify
  add_call-Preserves row = record { step = λ s p. calls _ s p }

  record_tool_calls-Preserves : (k : ℕ) (o : Option Registry) → Preserves P (record_tool_calls k o)
  unfolding record_tool_calls modify
  record_tool_calls-Preserves k none = Preserves-pure tt
  record_tool_calls-Preserves k (some registry) = record { step = λ s p. tools _ s p }

  module _ {W : Type 0} where
    traced-Keeps :
        (k : ℕ) (run : Run) (row : ModelCall) (o : Option (TraceSink W))
        → Keeps P (traced platform ids dumps k run row o)
    unfolding traced
    traced-Keeps k run row none = Keeps-give row
    traced-Keeps k run row (some sink) = search (keeping, after_export-Preserves)

    record_model_call-Keeps :
        (k : ℕ) (model_id : String) (telemetry : Telemetry W)
        → Keeps P (record_model_call platform ids dumps k model_id telemetry)
    unfolding record_model_call
    record_model_call-Keeps k model_id telemetry =
        search (keeping, preserving, traced-Keeps, add_call-Preserves)

    pub record_calls-Keeps :
        {A : Type 0} (k : ℕ) (model_id : String) (call : AgentCall W A)
        → Keeps P (record_calls platform ids dumps k model_id call)
    unfolding record_calls
    record_calls-Keeps k model_id call =
        search (keeping, record_model_call-Keeps, record_tool_calls-Preserves)
