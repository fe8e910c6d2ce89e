-- ===== src/Evaluation/Evaluators.antt =====
-- src/agentic_lab/evaluation/evaluators.py: tests of an artifact against its evidence. The resolution
-- of citations on a snapshot is not modelled.
use agentic_engineering_lab.Tools.Registry.{mem_string}
use agentic_engineering_lab.Prelude.{
  not, ◌&&◌, keep, false, str_append, [], is_empty, ◌∷◌, Bool, if◌then◌else◌, map, String, List,
}
use agentic_engineering_lab.Domain.Artifact.{Citation, Claim, ArtifactBase, RiskArtifact}

pub record EvaluationResult : Type 0 where
  pub name : String
  pub passed : Bool
  pub detail : String

-- ",".join(names)
abbrev pub join_names : List String → String
join_names [] = ""
join_names (name ∷ []) = name
join_names (name ∷ next ∷ names) = str_append name (str_append "," (join_names (next ∷ names)))

-- ",".join(names) or "complete"
unfoldable pub or_complete : List String → String
or_complete [] = "complete"
or_complete (name ∷ names) = join_names (name ∷ names)

abbrev pub cited_claims : ArtifactBase → List String
cited_claims artifact = map (λ (c : Citation). c.claim_id) artifact.citations

-- The material claims that have no citation.
unfoldable pub uncited : ArtifactBase → List String
uncited artifact =
    map (λ (c : Claim). c.id)
      (keep (λ c. c.material && not (mem_string c.id (cited_claims artifact))) artifact.claims)

unfoldable pub citation_coverage : ArtifactBase → EvaluationResult
unfolding uncited or_complete
citation_coverage artifact =
    let missing = uncited artifact in
    record { name = "citation_coverage"; passed = is_empty missing; detail = or_complete missing }

unfoldable pub risk_evidence_coverage : RiskArtifact → EvaluationResult
unfolding citation_coverage
risk_evidence_coverage artifact =
    let result = citation_coverage artifact.base in
    if is_empty artifact.base.claims
    then record {
      name = "risk_evidence_coverage";
      passed = false;
      detail = "risk output has no evidence claims";
    }
    else record { name = "risk_evidence_coverage"; passed = result.passed; detail = result.detail }
