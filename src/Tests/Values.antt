-- ===== src/Tests/Values.antt =====
-- The data of the tests: a platform for ASCII texts, requests, runs and sessions.
use agentic_engineering_lab.Runs.Service.History.{IsSound}
use agentic_engineering_lab.Runs.Leases.Matching.{LeasesMatch}
use agentic_engineering_lab.Prelude.Table
use agentic_engineering_lab.Database.{Run, RunLease, Session}
use agentic_engineering_lab.Python.{Platform}
use agentic_engineering_lab.Prelude.{
  ◌-◌, refl, some, ◌==◌, ◌||◌, ◌+◌, if◌then◌else◌, none, ◌&&◌, ℕ, leb, [], ◌∷◌, String, Text,
}
use agentic_engineering_lab.Runs.Service.{journal, RunCreate}
use agentic_engineering_lab.Domain.Status.{webhook, ci, queued, scout, leased, RunStatus}

abbrev pub to_lower : Text → Text
to_lower [] = []
to_lower (c ∷ s) = (if leb b'A' c && leb c b'Z' then c + 32 else c) ∷ to_lower s

-- Hashes that tell nothing apart; the tests do not rest on them.
abbrev pub ascii : Platform
ascii = record {
  sha256 = λ s. "sha";
  sha256_json = λ o. "sha";
  lower = to_lower;
  is_word = λ c.
      (leb b'a' c && leb c b'z')
      || (leb b'A' c && leb c b'Z')
      || (leb b'0' c && leb c b'9')
      || c == b'_';
  digit_value = λ c. if leb b'0' c && leb c b'9' then some (c - b'0') else none;
}

abbrev pub empty_session : Session
empty_session = record {
  clock = 1000;
  next_id = 0;
  runs = [];
  transitions = [];
  uuid = λ n. 100 - n;
  leases = [];
  links = [];
  decisions = [];
  artifacts = [];
  citations = [];
  redaction_events = [];
  opt_ins = [];
  manifests = [];
  tool_calls = [];
  model_calls = [];
}

pub empty_session-IsSound : IsSound empty_session
unfolding Table.get journal
empty_session-IsSound = record { history = λ k. refl; fresh = λ k h. refl }

pub empty_session-LeasesMatch : LeasesMatch empty_session
unfolding Table.get
empty_session-LeasesMatch = record { of_run = λ k lease h. cc h }

abbrev pub scout_request : RunCreate
scout_request = record {
  role = scout;
  repository_id = 7;
  pinned_sha = "aaaa";
  task_text = "Where is the parser?";
  evaluation_case_id = none;
  budget = [];
}

-- A run with a given status, pinned commit and time of creation.
abbrev pub a_run : RunStatus → String → ℕ → Run
a_run status sha created_at = record {
  role = ci;
  source = webhook;
  repository_id = 7;
  pull_number = some 3;
  check_run_id = none;
  pinned_sha = sha;
  task_text = "Fix the build.";
  status = status;
  manifest_version = "unselected";
  policy_version = "v1";
  prompt_hash = none;
  model_config = [];
  budget = [];
  evaluation_case_id = none;
  created_at = created_at;
  terminal_at = none;
}

abbrev pub a_lease : String → ℕ → RunLease
a_lease worker expires_at = record {
  worker_id = worker;
  acquired_at = 0;
  heartbeat_at = 0;
  expires_at = expires_at;
  attempt = 1;
}

-- Run 0 is leased by "ann", run 1 is queued.
abbrev pub busy_session : Session
busy_session = record empty_session {
  next_id = 2;
  runs = (0, a_run leased "aaaa" 10) ∷ (1, a_run queued "bbbb" 20) ∷ [];
  leases = (0, a_lease "ann" 5000) ∷ [];
}
