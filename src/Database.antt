-- ===== src/Database.antt =====
-- src/agentic_lab/db/models.py: the rows that the modelled code reads and writes, and the session
-- as a store of tables. A method that writes is an action of `Tx`: it gives the session back beside
-- its result, also beside an exception, since a caller may catch that and go on.
pub mod Preserves
pub mod Inversion
use agentic_engineering_lab.Tools.Registry.{ToolExecution}
use agentic_engineering_lab.Python.Value.{Value}
use agentic_engineering_lab.Domain.Artifact.{ArtifactBase, Citation}
use agentic_engineering_lab.Prelude.{ℕ, String, Bool, true, false, Option, none, some, List, Text}
use agentic_engineering_lab.Prelude.Table
use agentic_engineering_lab.Prelude.Table.{Table}
use agentic_engineering_lab.Domain.Status.{AgentRole, RunSource, RunStatus, PolicyOutcome}
use agentic_engineering_lab.Domain.Error.{Exception, lookup_error, Result, ok, raised}

-- A value of a JSON column that the program fills in: a text, a list of texts, a time, or a truth
-- value.
pub data Json : Type 0 where
  text : String → Json
  texts : List Text → Json
  time : ℕ → Json
  flag : Bool → Json

abbrev pub Metadata : Type 0
Metadata = List (String × Json)

-- A budget: limits by name. Numbers are kept in millionths, so that fractions of a dollar are exact.
abbrev pub Budget : Type 0
Budget = List (String × ℕ)

-- The primary key is the key of the row in its table. Times are in microseconds.
pub record Run : Type 0 where
  pub role : AgentRole
  pub source : RunSource
  pub repository_id : ℕ
  pub pull_number : Option ℕ
  pub check_run_id : Option ℕ
  pub pinned_sha : String
  pub task_text : String
  pub status : RunStatus
  pub manifest_version : String
  pub policy_version : String
  pub prompt_hash : Option String
  pub model_config : Metadata
  pub budget : Budget
  pub evaluation_case_id : Option String
  pub created_at : ℕ
  pub terminal_at : Option ℕ

-- `occurred_at` is the server's `now()`, which is the start of the transaction; the key is random.
pub record RunTransition : Type 0 where
  pub id : ℕ
  pub occurred_at : ℕ
  pub run_id : ℕ
  pub from_status : Option RunStatus
  pub to_status : RunStatus
  pub reason_code : String
  pub actor : String
  pub metadata_json : Metadata

pub record RunLease : Type 0 where
  pub worker_id : String
  pub acquired_at : ℕ
  pub heartbeat_at : ℕ
  pub expires_at : ℕ
  pub attempt : ℕ

pub record RunCausalLink : Type 0 where
  pub source_run_id : ℕ
  pub target_run_id : ℕ
  pub relation : String

pub record PolicyDecision : Type 0 where
  pub run_id : ℕ
  pub policy_name : String
  pub input_hash : String
  pub outcome : PolicyOutcome
  pub reason_code : String
  pub metadata_json : Metadata

-- The content of a stored artifact: what pydantic dumps of it, or what is stored in its place if a
-- secret was found in it.
pub data Content : Type 0 where
  dumped : Text → ArtifactBase → Content
  redaction_blocked : ArtifactBase → Content

pub record Artifact : Type 0 where
  pub run_id : ℕ
  pub kind : String
  pub schema_version : String
  pub content_json : Content
  pub content_hash : String
  pub redaction_state : String

pub record CitationRecord : Type 0 where
  pub artifact_id : ℕ
  pub citation : Citation

pub record RedactionEvent : Type 0 where
  pub run_id : ℕ
  pub detector_name : String
  pub content_hash : String
  pub source_locator : Text
  pub resolution_state : String

pub record PullRequestOptIn : Type 0 where
  pub repository_id : ℕ
  pub pull_number : ℕ
  pub enabled_by : String
  pub expires_at : ℕ
  pub reason : String

-- The content is what pydantic dumps of the manifest, and read back from.
pub record TargetManifest : Type 0 where
  pub repository_id : ℕ
  pub version : String
  pub content : Text
  pub content_hash : String
  pub approved_at : ℕ
  pub retired_at : Option ℕ

-- What a run asked of its tools. The duration is not modelled.
pub record ToolCall : Type 0 where
  pub run_id : ℕ
  pub execution : ToolExecution

-- The settings of a model call. The hash of the tools' definitions is absent if no request was made.
pub record CallSettings : Type 0 where
  pub fallback : Bool
  pub prompt_hash : Option String
  pub tool_definitions_hash : Option String
  pub provider_allowlist : List String
  pub trace_export : Option String

-- The cost is in millionths of a dollar.
pub record ModelCall : Type 0 where
  pub run_id : ℕ
  pub sequence : ℕ
  pub model_id : String
  pub provider : String
  pub settings : CallSettings
  pub usage : Value
  pub billed_cost : ℕ
  pub latency_ms : ℕ
  pub langfuse_trace_id : Option Text

-- `clock` is what `datetime.now(UTC)` gives, and `next_id` what `uuid4` gives to the next new run.
-- Leases are keyed by their run. `uuid n` is what `uuid4` gives to the n-th row of `transitions`. The
-- clock stands still within a transaction.
pub record Session : Type 0 where
  pub clock : ℕ
  pub next_id : ℕ
  pub runs : Table Run
  pub transitions : List RunTransition
  pub uuid : ℕ → ℕ
  pub leases : Table RunLease
  pub links : List RunCausalLink
  pub decisions : List PolicyDecision
  pub artifacts : Table Artifact
  pub citations : List CitationRecord
  pub redaction_events : List RedactionEvent
  pub opt_ins : List PullRequestOptIn
  pub manifests : List TargetManifest
  pub tool_calls : List ToolCall
  pub model_calls : List ModelCall

abbrev pub Tx {ℓ} : Type ℓ → Type ℓ
Tx A = Session → Result A × Session

unfoldable pub pure {ℓ} : {A : Type ℓ} → A → Tx A
pure a s = (ok a, s)

unfoldable pub raise {ℓ} : {A : Type ℓ} → Exception → Tx A
raise e s = (raised e, s)

-- A computation that touches no table.
unfoldable pub lift {ℓ} : {A : Type ℓ} → Result A → Tx A
lift r s = (r, s)

unfoldable pub gets {ℓ} : {A : Type ℓ} → (Session → A) → Tx A
gets f s = (ok (f s), s)

unfoldable pub modify : (Session → Session) → Tx (Unit {0})
modify f s = (ok tt, f s)

-- if test: raise error
unfoldable pub raise_when : Bool → Exception → Tx (Unit {0})
raise_when true e s = (raised e, s)
raise_when false e s = (ok tt, s)

module _ {ℓ κ} {A : Type ℓ} {B : Type κ} where
  abbrev pub continue : Result A → (A → Tx B) → Tx B
  continue (ok a) f s = f a s
  continue (raised e) f s = (raised e, s)

  infixl 10 ◌>>=◌ ◌>>◌
  -- To unfold this is to unfold each way to build an action.
  unfoldable pub ◌>>=◌ : Tx A → (A → Tx B) → Tx B
  unfolding pure raise lift gets modify raise_when
  ◌>>=◌ m f s = let (r, s') = m s in continue r f s'

  abbrev pub ◌>>◌ : Tx A → Tx B → Tx B
  m >> n = m >>= λ _. n

-- The attributes of a loaded run. The program holds the object, so that the row is there: the error
-- stands for a call with no such object.
unfoldable pub the_run : ℕ → Tx Run
the_run run_id s = elim (Table.get s.runs run_id) [
  | some run ↦ (ok run, s)
  | none ↦ (raised (lookup_error "run"), s)
]

-- An attribute of a loaded run is assigned.
unfoldable pub save_run : ℕ → Run → Tx (Unit {0})
save_run run_id run s = (ok tt, record s { runs = Table.put s.runs run_id run })
