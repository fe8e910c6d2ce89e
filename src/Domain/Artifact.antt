-- ===== src/Domain/Artifact.antt =====
-- src/agentic_lab/domain/schemas.py: the artifacts that agents return. Texts that are only compared
-- are strings; `run_id` is the key that stands for the UUID. No code that is modelled reads the
-- evidence of a recipe; its exit code is kept as the byte that a process ends with.
use agentic_engineering_lab.Domain.Status.{AgentRole}
use agentic_engineering_lab.Prelude.{Option, List, Text, ℕ, Bool, String}

pub record Citation : Type 0 where
  pub claim_id : String
  pub source_kind : String
  pub locator : Text
  pub pinned_sha : String
  pub excerpt_hash : String

pub record Claim : Type 0 where
  pub id : String
  pub statement : String
  pub material : Bool

pub record ArtifactBase : Type 0 where
  pub schema_version : String
  pub run_id : ℕ
  pub role : AgentRole
  pub pinned_sha : String
  pub created_at : ℕ
  pub claims : List Claim
  pub unknowns : List String
  pub citations : List Citation

pub record RecipeEvidence : Type 0 where
  pub recipe_name : String
  pub image_digest : String
  pub exit_code : ℕ
  pub started_at : ℕ
  pub finished_at : ℕ
  pub output_hash : String

pub record PatchArtifact : Type 0 where
  pub base : ArtifactBase
  pub base_sha : String
  pub unified_diff : Text
  pub changed_paths : List Text
  pub patch_hash : String
  pub reproduction : RecipeEvidence
  pub validation : RecipeEvidence
  pub policy_result : String

-- The artifact that is stored of a run that ended with an error. Its message has passed redaction.
pub record TerminalError : Type 0 where
  pub base : ArtifactBase
  pub code : String
  pub message : Text
  pub next_action : Option String

pub record EvidenceLocator : Type 0 where
  pub path : String
  pub symbol : Option String
  pub reason : String

pub record ScoutPlanStep : Type 0 where
  pub order : ℕ
  pub summary : String
  pub files : List String
  pub tests : List String

-- A confidence is in millionths.
pub record ScoutArtifact : Type 0 where
  pub base : ArtifactBase
  pub relevant_files : List EvidenceLocator
  pub relevant_symbols : List EvidenceLocator
  pub dependency_analysis : String
  pub blast_radius : String
  pub affected_tests : List String
  pub plan : List ScoutPlanStep
  pub risks : List String
  pub confidence : ℕ

pub record RiskArtifact : Type 0 where
  pub base : ArtifactBase
  pub risk_tier : String
  pub confidence : ℕ
  pub likely_failure_modes : List String
  pub required_proof : List String
  pub reviewer_expertise : List String
  pub unavailable_signals : List String

pub record CiDiagnosisArtifact : Type 0 where
  pub base : ArtifactBase
  pub failure_class : String
  pub diagnosis : String
  pub reproduction_recipe : Option String
  pub validation_recipe : Option String
  pub patch_proposed : Bool

pub record RefusalArtifact : Type 0 where
  pub base : ArtifactBase
  pub failure_class : String
  pub missing_precondition : String
  pub next_action : String
