-- ===== src/Gateway/Tracing.antt =====
-- src/agentic_lab/gateway/tracing.py: what of a call is sent to the trace service.
use agentic_engineering_lab.Gateway.Redaction.{redact}
use agentic_engineering_lab.Domain.Error.{ok, raised, Result}
use agentic_engineering_lab.Python.{Platform}
use agentic_engineering_lab.Prelude.{
  none, some, if◌then◌else◌, [], codes, take, List, String, Text, Option,
}

pub record TraceExportResult : Type 0 where
  pub trace_id : Option Text
  pub content_hash : String
  pub detector_names : List String

-- The service, over a state of its own. An emission has the text, its hash and the run.
pub record TraceSink (W : Type 0) : Type 0 where
  pub emit : Text → String → Text → String → String → W → Result (Unit {0}) × W

-- The first sixteen bytes of the hash of the run, as hexadecimal digits
unfoldable pub trace_id_for_run : Platform → String → Text
trace_id_for_run platform run_id = take 32 (codes (platform.sha256 (codes run_id)))

abbrev emitted : {W : Type 0} → Text → String → Result (Unit {0}) × W → Result TraceExportResult × W
emitted trace_id content_hash (raised e, w) = (raised e, w)
emitted trace_id content_hash (ok u, w) =
    (ok (record { trace_id = some trace_id; content_hash = content_hash; detector_names = [] }), w)

-- TraceExporter.export
unfoldable pub export :
    {W : Type 0}
    → Platform
    → TraceSink W
    → String
    → String
    → Text
    → W
    → Result TraceExportResult × W
unfolding trace_id_for_run
export platform sink run_id name text w =
    let result = redact platform text [] in
    if result.detected
    then (
      ok (record {
        trace_id = none;
        content_hash = result.content_hash;
        detector_names = result.detector_names;
      }),
      w,
    )
    else let trace_id = trace_id_for_run platform run_id in
      emitted trace_id result.content_hash
        (sink.emit trace_id name result.text result.content_hash run_id w)
