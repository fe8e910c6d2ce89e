-- ===== src/Agents/Grounded.antt =====
-- What is known of an answer that an agent hands on.
use agentic_engineering_lab.Runs.Orchestrator.Evidence.{Evidence}
use agentic_engineering_lab.Gateway.Model.{ModelRequest, ModelBudget}
use agentic_engineering_lab.Database.{Run}
use agentic_engineering_lab.Tools.Registry.{mem_string}
use agentic_engineering_lab.Python.{Platform}
use agentic_engineering_lab.Agents.Loop.{checked, ModelLoop, is_other_run}
use agentic_engineering_lab.Domain.Error.{◌>>=◌, bind-ok, Result, unless-ok, ok}
use agentic_engineering_lab.Domain.Artifact.{
  Claim, Citation, ArtifactBase, RiskArtifact, CiDiagnosisArtifact,
}
use agentic_engineering_lab.Domain.Status.{role_eq, ci, assessor, AgentRole}
use agentic_engineering_lab.Evaluation.Evaluators.{
  uncited, risk_evidence_coverage, citation_coverage,
}
use agentic_engineering_lab.Agents.Diagnosis.{check_diagnosis}
use agentic_engineering_lab.Prelude.{
  ap, ◌∙◌, ◌↔◌, codes, Option, refl, [], keep, ◌∷◌, map, any, ◌==◌, List, all, Bool, ◌&&◌, arith,
  str_eq, subst, ◌||◌, true, not, is_empty, false, ◌≡◌, String, ℕ,
}
use agentic_engineering_lab.Agents.Assessor.{run_assessor, check_risk}

-- The artifact is that of the run, has claims, and each material claim has a citation.
pub record IsGrounded (k : ℕ) (pinned_sha : String) (role : AgentRole) (artifact : ArtifactBase)
    : Type 0 where
  pub of_run : is_other_run k pinned_sha role artifact ≡ false
  pub claimed : is_empty artifact.claims ≡ false
  pub cited : is_empty (uncited artifact) ≡ true

check_risk-IsGrounded :
    (k : ℕ) (pinned_sha : String) (given artifact : RiskArtifact)
    → check_risk k pinned_sha given ≡ ok artifact
    → IsGrounded k pinned_sha assessor artifact.base
unfolding check_risk risk_evidence_coverage citation_coverage
check_risk-IsGrounded k pinned_sha given artifact h =
    let (mine, h1) = unless-ok (is_other_run k pinned_sha assessor given.base) _ _ artifact h in
    let (covered, h2) = unless-ok (not (risk_evidence_coverage given).passed) _ _ artifact h1 in
    let same : given ≡ artifact = cc h2 in
    subst (λ (x : RiskArtifact). IsGrounded k pinned_sha assessor x.base) same
      (record { of_run = mine; claimed = ground arith; cited = ground arith })

check_diagnosis-IsGrounded :
    (k : ℕ) (pinned_sha : String) (given artifact : CiDiagnosisArtifact)
    → check_diagnosis k pinned_sha given ≡ ok artifact
    → IsGrounded k pinned_sha ci artifact.base
unfolding check_diagnosis citation_coverage
check_diagnosis-IsGrounded k pinned_sha given artifact h =
    let (mine, h1) = unless-ok (is_other_run k pinned_sha ci given.base) _ _ artifact h in
    let (covered, h2) =
      unless-ok (not (citation_coverage given.base).passed || is_empty given.base.claims) _ _
        artifact h1 in
    let (whole, h3) =
      unless-ok (not (str_eq given.failure_class "repository") && given.patch_proposed) _ _ artifact
        h2 in
    let same : given ≡ artifact = cc h3 in
    subst (λ (x : CiDiagnosisArtifact). IsGrounded k pinned_sha ci x.base) same
      (record { of_run = mine; claimed = ground arith; cited = ground arith })

-- Some citation is for this claim.
abbrev pub has_citation : List Citation → String → Bool
has_citation citations id = any (λ (x : Citation). str_eq id x.claim_id) citations

-- The answer names the run, its commit and its role, and makes at least one claim; each claim that
-- matters has a citation.
abbrev pub is_grounded : ℕ → String → AgentRole → ArtifactBase → Bool
is_grounded k pinned_sha role artifact =
    (artifact.run_id == k)
    && str_eq artifact.pinned_sha pinned_sha
    && role_eq artifact.role role
    && not (is_empty artifact.claims)
    && all (λ (c : Claim). not c.material || has_citation artifact.citations c.id) artifact.claims

mem_string-cited :
    (id : String) (citations : List Citation)
    → mem_string id (map (λ (x : Citation). x.claim_id) citations) ≡ has_citation citations id
mem_string-cited id [] = refl
mem_string-cited id (x ∷ xs) = ground (arith, mem_string-cited id xs)

is_empty-kept :
    (citations : List Citation) (claims : List Claim)
    → is_empty (
        map
          (λ (c : Claim). c.id)
          (keep
            (λ (c : Claim).
              c.material && not (mem_string c.id (map (λ (x : Citation). x.claim_id) citations)))
            claims))
      ≡ all (λ (c : Claim). not c.material || has_citation citations c.id) claims
is_empty-kept citations [] = refl
is_empty-kept citations (c ∷ claims) =
    ground (arith, is_empty-kept citations claims, mem_string-cited c.id citations)

is_empty-uncited :
    (artifact : ArtifactBase)
    → is_empty (uncited artifact)
      ≡ all (λ (c : Claim). not c.material || has_citation artifact.citations c.id) artifact.claims
unfolding uncited
is_empty-uncited artifact = is_empty-kept artifact.citations artifact.claims

check_risk-is_grounded :
    (k : ℕ) (pinned_sha : String) (given artifact : RiskArtifact)
    → check_risk k pinned_sha given ≡ ok artifact
    → (given ≡ artifact) × (is_grounded k pinned_sha assessor artifact.base ≡ true)
unfolding check_risk
check_risk-is_grounded k pinned_sha given artifact h =
    let g = check_risk-IsGrounded k pinned_sha given artifact h in
    let (mine, h1) = unless-ok (is_other_run k pinned_sha assessor given.base) _ _ artifact h in
    let (covered, h2) = unless-ok (not (risk_evidence_coverage given).passed) _ _ artifact h1 in
    (cc h2, ground (arith, g.of_run, g.claimed, g.cited, is_empty-uncited artifact.base))

is_grounded-check_risk :
    (k : ℕ) (pinned_sha : String) (artifact : RiskArtifact)
    → is_grounded k pinned_sha assessor artifact.base ≡ true
    → check_risk k pinned_sha artifact ≡ ok artifact
unfolding check_risk risk_evidence_coverage citation_coverage
is_grounded-check_risk k pinned_sha artifact grounded =
    ground (arith, is_empty-uncited artifact.base)

module _ {W S D C : Type 0} (platform : Platform) (loop : ModelLoop W S D C RiskArtifact) where
  -- The assessor hands on an artifact exactly if the loop of the model gateway gave that artifact, for
  -- a request with the run's key and task, the assessor's role, and the model and budget that were
  -- given, and the artifact names the run, its commit and its role, makes
  -- at least one claim, and has a citation for each material claim. The world is as the loop left it.
  pub run_assessor_lem :
      (k : ℕ) (run : Run) (model_id : String) (budget : ModelBudget)
      (tools : Option (Evidence S D C)) (w : W) (artifact : RiskArtifact)
      → (request : ModelRequest) × (request.run_id ≡ k)
        × (request.role ≡ assessor)
        × (request.model_id ≡ model_id)
        × (request.budget ≡ budget)
        × (request.task ≡ codes run.task_text)
        × (((run_assessor platform loop k run model_id budget tools w).0.result ≡ ok artifact) ↔ (
            ((loop request tools w).0.result ≡ ok artifact)
            × (is_grounded k run.pinned_sha assessor artifact.base ≡ true)))
        × ((run_assessor platform loop k run model_id budget tools w).1 ≡ (loop request tools w).1)
  unfolding run_assessor checked
  run_assessor_lem k run model_id budget tools w artifact =
      (_, refl, refl, refl, refl, refl, (forth _, back _), refl)
    where
      forth :
          (r : Result RiskArtifact)
          → (r >>= check_risk k run.pinned_sha) ≡ ok artifact
          → (r ≡ ok artifact) × (is_grounded k run.pinned_sha assessor artifact.base ≡ true)
      forth r h =
          let (given, got, checked_risk) = bind-ok r (check_risk k run.pinned_sha) artifact h in
          let (same, grounded) =
            check_risk-is_grounded k run.pinned_sha given artifact checked_risk in
          (got ∙ ap ok same, grounded)

      back :
          (r : Result RiskArtifact)
          → (r ≡ ok artifact) × (is_grounded k run.pinned_sha assessor artifact.base ≡ true)
          → (r >>= check_risk k run.pinned_sha) ≡ ok artifact
      back r (got, grounded) = rw got (is_grounded-check_risk k run.pinned_sha artifact grounded)
