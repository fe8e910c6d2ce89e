-- ===== src/Policy/Audit.antt =====
-- src/agentic_lab/policy/audit.py: decisions are recorded, never changed.
use agentic_engineering_lab.Domain.Status.{deny, allow, PolicyOutcome}
use agentic_engineering_lab.Gateway.Capability.{AuditEntry}
use agentic_engineering_lab.Database.{texts, Session}
use agentic_engineering_lab.Policy.Patch.{PolicyResult}
use agentic_engineering_lab.Prelude.{
  str_eq, none, if◌then◌else◌, some, Option, [], ◌∷◌, ◌++◌, String, ℕ,
}

unfoldable pub record_decision : ℕ → String → PolicyResult → Session → Session
record_decision run_id policy_name result s = record s {
  decisions =
      s.decisions
      ++ record {
        run_id = run_id;
        policy_name = policy_name;
        input_hash = result.input_hash;
        outcome = result.outcome;
        reason_code = result.reason_code;
        metadata_json = ("changed_paths", texts result.changed_paths) ∷ [];
      }
        ∷ [];
}

-- PolicyOutcome(outcome), for the two values of the enumeration
unfoldable pub outcome_of : String → Option PolicyOutcome
outcome_of name =
    if str_eq name "allow" then some allow else if str_eq name "deny" then some deny else none

-- DatabaseCapabilityAudit.record. The gateway names no third outcome, with which this would raise.
-- `uuid` is `UUID`, which reads back the text of a key.
unfoldable pub capability_decision : (String → ℕ) → AuditEntry → Session → Session
capability_decision uuid entry s = with_outcome (outcome_of entry.outcome)
  where
    with_outcome : Option PolicyOutcome → Session
    with_outcome none = s
    with_outcome (some outcome) = record s {
      decisions =
          s.decisions
          ++ record {
            run_id = uuid entry.run_id;
            policy_name = entry.policy_name;
            input_hash = entry.input_hash;
            outcome = outcome;
            reason_code = entry.reason_code;
            metadata_json = [];
          }
            ∷ [];
    }
