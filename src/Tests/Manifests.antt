-- ===== src/Tests/Manifests.antt =====
-- The manifest registry at concrete inputs: two approvals for repository 7, one after the other.
use agentic_engineering_lab.Policy.ManifestRegistry.Active.{
  approve_manifest-active, approve_manifest-result, is_taken,
}
use agentic_engineering_lab.Domain.Error.{integrity_error, value_error, raised, ok}
use agentic_engineering_lab.Prelude.{
  some, ◌∷◌, refl, keep, any, true, is_some, if◌then◌else◌, ◌≡◌, [],
}
use agentic_engineering_lab.Tests.Values.{empty_session, ascii}
use agentic_engineering_lab.Database.{Session}
use agentic_engineering_lab.Policy.ManifestRegistry.{
  is_same_version, manifest_row, latest, active_manifest, is_active, approve_manifest,
  ApprovedManifest,
}

abbrev first_manifest : ApprovedManifest
first_manifest = record { repository_id = 7; manifest_version = "v1"; json = [] }

abbrev second_manifest : ApprovedManifest
second_manifest = record { repository_id = 7; manifest_version = "v2"; json = [] }

abbrev approved : Session
approved = (approve_manifest ascii first_manifest empty_session).1

-- The second version retires the first one, which cannot be approved again.
retired_again :
    (approve_manifest ascii first_manifest (approve_manifest ascii second_manifest approved).1).0
    ≡ raised (integrity_error "uq_manifest_repository_version")
unfolding approve_manifest is_active is_same_version
retired_again = refl

approved_test : is_some (active_manifest approved 7) ≡ true
unfolding approve_manifest active_manifest is_active latest
approved_test = refl

approve_manifest-active_example :
    (t : Session) × (approve_manifest ascii second_manifest approved
      ≡ (ok (manifest_row ascii second_manifest approved.clock), t))
    × (keep (is_active 7) t.manifests ≡ manifest_row ascii second_manifest approved.clock ∷ [])
    × (active_manifest t 7 ≡ some (manifest_row ascii second_manifest approved.clock))
    × (active_manifest t 8 ≡ active_manifest approved 8)
unfolding approve_manifest is_active is_same_version
approve_manifest-active_example = approve_manifest-active ascii second_manifest 8 approved refl refl

approve_manifest-result_example : (approve_manifest ascii first_manifest approved).0 ≡ (
    if any (is_taken ascii first_manifest) approved.manifests
    then raised (value_error "manifest version is already approved")
    else if any (is_same_version first_manifest) approved.manifests
    then raised (integrity_error "uq_manifest_repository_version")
    else ok (manifest_row ascii first_manifest approved.clock))
approve_manifest-result_example = approve_manifest-result ascii first_manifest approved
