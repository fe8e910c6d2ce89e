-- ===== src/Lib.antt =====
-- Agentic Engineering Lab: a service that runs read-only agents on pinned commits, and lets one of
-- them push a patch behind a gate. This library models the parts that decide what is allowed.
--
-- The parts, and how they meet:
-- * Domain/Status is src/agentic_lab/domain/enums.py: the statuses of a run and the table of allowed
--   transitions. Domain/Error holds the exceptions that the modelled code raises, as values.
-- * Database is src/agentic_lab/db/models.py: each table is a list of rows, and a method that writes
--   is a function from the session to a result beside the session. What an exception leaves behind
--   is therefore in the model. The clock and the next key are fields of the session.
-- * Runs/Service is src/agentic_lab/runs/service.py and Runs/Leases is src/agentic_lab/runs/leases.py.
--   Every status changes by `transition_run`, which the leases call as well. A call stands for a whole
--   transaction: rows locked by another transaction (`skip_locked`) are not modelled. `journal` is the
--   order in which the rows of a run were added, which the table does not keep; `list_transitions`
--   gives them by time and id, and the rows of one transaction have one time.
-- * Policy/Patch is src/agentic_lab/policy/patch.py and Policy/PushGate is
--   src/agentic_lab/policy/push_gate.py: the gate asks the redactor and then the patch policy.
--   Policy/ManifestRegistry is src/agentic_lab/policy/manifest_registry.py.
-- * Gateway/Redaction is src/agentic_lab/gateway/redaction.py: six patterns over the matcher of
--   Python/Regex, which backtracks as Python's does on the constructs that the patterns use.
-- * Gateway/Github is the guarded write of src/agentic_lab/gateway/github.py, over any implementation
--   of its port `GitHubBranchWriter`. Runs/CiPush is src/agentic_lab/runs/ci_push.py, which calls it;
--   Runs/Artifacts (src/agentic_lab/runs/artifacts.py) and Policy/Audit (src/agentic_lab/policy/audit.py)
--   are the rows that it adds, and Domain/Artifact the part of src/agentic_lab/domain/schemas.py that
--   it reads.
-- * Gateway/Capability is src/agentic_lab/gateway/capability.py: the reads that a role may make, over
--   any implementation of its ports.
-- * Gateway/PatchApply is src/agentic_lab/gateway/patch_apply.py: Parse reads a diff as a machine over
--   its lines, and Apply puts its hunks over the lines of the base.
-- * Tools/Registry is src/agentic_lab/tools/registry.py: budget, evidence window, redaction and record
--   of the tools of one run. The tools themselves are a parameter (`Toolbox`). Each section under its
--   lock is one step, and Steps lets calls that run side by side interleave them.
-- * Runs/Orchestrator is src/agentic_lab/runs/orchestrator.py: Evidence, Records, Steps and Flows are its
--   helpers and its three flows, over any agents (`Agent`), capability gateway and trace service; and
--   Runs/Worker is src/agentic_lab/runs/worker.py, which calls the flows. Runs/Remote is the shape of
--   such code: it works on the session and on the world outside, and gives both back. Gateway/Model and
--   Gateway/Tracing are what these read of src/agentic_lab/gateway/model.py and
--   src/agentic_lab/gateway/tracing.py.
-- * Agents is src/agentic_lab/agents/: Assessor and Diagnosis are agents for the flows, over any loop of a
--   model gateway. Domain/Validation holds validators of src/agentic_lab/domain/schemas.py, and
--   Evaluation/Evaluators the coverage tests of src/agentic_lab/evaluation/evaluators.py.
-- * Executor/Manifest is src/agentic_lab/executor/manifest.py: recipes, and requests to run one.
-- * Python holds text methods and `fnmatch`. SHA-256, `json.dumps`, `str.lower` and the class of word
--   characters are parameters (`Platform`).
-- * Prelude holds the shared names and lemmas, and Tests the runs at concrete inputs.
--
-- Texts that are walked are lists of code points; texts that are only compared are strings. Times are
-- microseconds in UTC, and keys are numbers. Loops are structural recursion. Fuel stands
-- in one place, the digits of a number: one step for each unit of its value is enough, since each step
-- divides by ten.
--
-- Not modelled: the HTTP interface, the loop of the model gateway, the scout's own checks, the executor
-- beside its manifest, the rest of the evaluation, the tools on a snapshot, the steps of the heartbeat
-- (the worker is given whether the lease was found lost), and the HTTP calls to GitHub.
mod Prelude
pub mod Domain
pub mod Database
pub mod Runs
pub mod Python
pub mod Gateway
pub mod Policy
pub mod Tools
pub mod Agents
pub mod Executor
pub mod Evaluation
mod Tests
