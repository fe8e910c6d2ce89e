-- ===== src/Tests/Agents.antt =====
-- The tests on artifacts at concrete inputs.
use agentic_engineering_lab.Agents.Grounded.{run_assessor_lem, is_grounded}
use agentic_engineering_lab.Agents.Assessor.{run_assessor}
use agentic_engineering_lab.Runs.Orchestrator.Evidence.{budget_of}
use agentic_engineering_lab.Agents.Loop.{ModelLoop}
use agentic_engineering_lab.Gateway.Model.{ModelBudget, ModelRequest}
use agentic_engineering_lab.Domain.Error.{ok, value_error, raised}
use agentic_engineering_lab.Domain.Status.{running, assessor, ci}
use agentic_engineering_lab.Tests.Values.{a_run, ascii}
use agentic_engineering_lab.Prelude.{◌↔◌, ◌+◌, none, ℕ, refl, ◌≡◌, [], ◌∷◌, codes, true}
use agentic_engineering_lab.Agents.Ci.{classify_failure}
use agentic_engineering_lab.Domain.Validation.{immutable_sha, stable_claims_and_citations}
use agentic_engineering_lab.Evaluation.Evaluators.{citation_coverage}
use agentic_engineering_lab.Domain.Artifact.{RiskArtifact, Claim, ArtifactBase, Citation}

abbrev empty_base : ArtifactBase
empty_base = record {
  schema_version = "1";
  run_id = 0;
  role = ci;
  pinned_sha = "aaaa";
  created_at = 0;
  claims = [];
  unknowns = [];
  citations = [];
}

-- A claim without a citation, and a citation of a claim that is not there.
abbrev claim : Claim
claim = record { id = "c1"; statement = "It fails."; material = true }

abbrev citation : Citation
citation = record {
  claim_id = "c1";
  source_kind = "file";
  locator = codes "f.py#L1-L1";
  pinned_sha = "aaaa";
  excerpt_hash = "h";
}

lone_citation :
    stable_claims_and_citations (record empty_base { citations = citation ∷ [] })
    ≡ raised (value_error "citations must refer to a claim in the artifact")
unfolding stable_claims_and_citations
lone_citation = refl

repeated_claim :
    stable_claims_and_citations (record empty_base { claims = claim ∷ claim ∷ [] })
    ≡ raised (value_error "claim IDs must be unique")
unfolding stable_claims_and_citations
repeated_claim = refl

uncited_claim : (citation_coverage (record empty_base { claims = claim ∷ [] })).detail ≡ "c1"
unfolding citation_coverage
uncited_claim = refl

cited_claim :
    (citation_coverage
      (record empty_base { claims = claim ∷ []; citations = citation ∷ [] })).passed
    ≡ true
unfolding citation_coverage
cited_claim = refl

short_sha :
    immutable_sha (codes "aaaa")
    ≡ raised (value_error "SHA must be lowercase hexadecimal and immutable")
unfolding immutable_sha
short_sha = refl

classes :
    (classify_failure ascii (codes "HTTP 403") ≡ "permission")
    × (classify_failure ascii (codes "Timeout of a token leaked") ≡ "secret")
    × (classify_failure ascii (codes "1 test failed") ≡ "repository")
unfolding classify_failure
classes = (refl, refl, refl)

-- A model that answers at once, with one cited claim.
abbrev cited_risk : RiskArtifact
cited_risk = record {
  base = record empty_base { role = assessor; claims = claim ∷ []; citations = citation ∷ [] };
  risk_tier = "low";
  confidence = 500000;
  likely_failure_modes = [];
  required_proof = [];
  reviewer_expertise = [];
  unavailable_signals = [];
}

abbrev answering_loop : ModelLoop ℕ ℕ ℕ ℕ RiskArtifact
answering_loop request tools w = (
  record {
    result = ok cited_risk;
    tools = none;
    telemetry = record {
      last_call = none;
      last_request = none;
      last_provider_allowlist = none;
      trace_exporter = none;
      latency_ms = 5;
    };
  },
  w + 1,
)

abbrev model_budget : ModelBudget
model_budget = budget_of (a_run running "aaaa" 10)

run_assessor_lem_example :
    (request : ModelRequest) × (request.run_id ≡ 0)
    × (request.role ≡ assessor)
    × (request.model_id ≡ "model-1")
    × (request.budget ≡ model_budget)
    × (request.task ≡ codes (a_run running "aaaa" 10).task_text)
    × (((run_assessor ascii answering_loop 0
            (a_run running "aaaa" 10)
            "model-1"
            model_budget
            none
            0).0.result
          ≡ ok cited_risk)
        ↔ (((answering_loop request none 0).0.result ≡ ok cited_risk)
            × (is_grounded 0 "aaaa" assessor cited_risk.base ≡ true)))
    × ((run_assessor ascii answering_loop 0
          (a_run running "aaaa" 10)
          "model-1"
          model_budget
          none
          0).1
        ≡ 1)
run_assessor_lem_example =
    run_assessor_lem ascii answering_loop 0 (a_run running "aaaa" 10) "model-1" model_budget none 0
      cited_risk
