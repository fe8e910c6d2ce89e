-- ===== src/Domain/Validation.antt =====
-- The validators of src/agentic_lab/domain/schemas.py. A text of a message that depends on its value is
-- left out.
use agentic_engineering_lab.Evaluation.Evaluators.{uncited}
use agentic_engineering_lab.Tools.Registry.{mem_string}
use agentic_engineering_lab.Domain.Error.{ok, value_error, unless, Result}
use agentic_engineering_lab.Prelude.{
  [], ◌||◌, any, str_eq, is_empty, ◌∷◌, not, false, map, Bool, Text, String, List,
}
use agentic_engineering_lab.Python.{Platform}
use agentic_engineering_lab.Domain.Artifact.{
  Citation, Claim, PatchArtifact, ScoutArtifact, ArtifactBase,
}
use agentic_engineering_lab.Gateway.Capability.{is_immutable_sha}

unfoldable pub immutable_sha : Text → Result Text
unfolding is_immutable_sha
immutable_sha value =
    unless (not (is_immutable_sha value))
      (value_error "SHA must be lowercase hexadecimal and immutable") (ok value)

-- len(ids) != len(set(ids))
abbrev pub repeats : List String → Bool
repeats [] = false
repeats (name ∷ names) = mem_string name names || repeats names

unfoldable pub stable_claims_and_citations : ArtifactBase → Result ArtifactBase
stable_claims_and_citations artifact =
    let claim_ids = map (λ (c : Claim). c.id) artifact.claims in
    unless (repeats claim_ids) (value_error "claim IDs must be unique") (
      unless (any (λ (c : Citation). not (mem_string c.claim_id claim_ids)) artifact.citations)
        (value_error "citations must refer to a claim in the artifact")
        (unless
          (any (λ (c : Citation). not (str_eq c.pinned_sha artifact.pinned_sha)) artifact.citations)
          (value_error "citation SHA must match artifact SHA") (ok artifact)))

unfoldable pub material_claims_have_citations : ScoutArtifact → Result ScoutArtifact
material_claims_have_citations artifact =
    unless (not (is_empty (uncited artifact.base)))
      (value_error "material claims require citations") (ok artifact)

unfoldable pub patch_identity : Platform → PatchArtifact → Result PatchArtifact
patch_identity platform artifact =
    unless (not (str_eq artifact.base_sha artifact.base.pinned_sha))
      (value_error "patch base SHA must match pinned SHA")
      (unless (not (str_eq (platform.sha256 artifact.unified_diff) artifact.patch_hash))
        (value_error "patch hash does not match unified diff")
        (unless (is_empty artifact.changed_paths) (value_error "patch must declare changed paths")
          (ok artifact)))
