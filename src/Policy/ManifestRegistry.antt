-- ===== src/Policy/ManifestRegistry.antt =====
-- src/agentic_lab/policy/manifest_registry.py: the one manifest of a repository that is in force.
pub mod Active
use agentic_engineering_lab.Domain.Error.{integrity_error, value_error, raised, ok, Result}
use agentic_engineering_lab.Python.{Platform}
use agentic_engineering_lab.Prelude.{
  any, is_some, [], str_eq, ltb, not, some, ◌&&◌, if◌then◌else◌, ◌++◌, keep, ◌==◌, Text, ◌∷◌,
  String, Bool, none, Option, ℕ, List,
}
use agentic_engineering_lab.Database.{Tx, Session, TargetManifest}

-- What the registry reads of an `ExecutionManifest`; `json` is what pydantic dumps of it.
pub record ApprovedManifest : Type 0 where
  pub repository_id : ℕ
  pub manifest_version : String
  pub json : Text

-- TargetManifest.repository_id == repository_id, TargetManifest.retired_at.is_(None)
unfoldable pub is_active : ℕ → TargetManifest → Bool
is_active repository_id m = m.repository_id == repository_id && not (is_some m.retired_at)

-- A row that comes first of the rest of the table, which the loop has gone over.
abbrev pub behind_row :
    TargetManifest
    → Result (Unit {0}) × List TargetManifest
    → Result (Unit {0}) × List TargetManifest
behind_row m (r, ms) = (r, m ∷ ms)

-- The loop over the active rows, in the order of the table: it stops where the version is taken.
unfoldable pub retire_each :
    ℕ → String → ℕ → List TargetManifest → Result (Unit {0}) × List TargetManifest
unfolding is_active
retire_each repository_id version now [] = (ok tt, [])
retire_each repository_id version now (m ∷ ms) =
    let rest = retire_each repository_id version now ms in
    if is_active repository_id m
    then (if str_eq m.version version
        then (raised (value_error "manifest version is already approved"), m ∷ ms)
        else behind_row (record m { retired_at = some now }) rest)
    else behind_row m rest

-- The same version of the same repository: the columns of `uq_manifest_repository_version`.
unfoldable pub is_same_version : ApprovedManifest → TargetManifest → Bool
is_same_version manifest m =
    m.repository_id == manifest.repository_id && str_eq m.version manifest.manifest_version

module _ (platform : Platform) where
  unfoldable pub manifest_row : ApprovedManifest → ℕ → TargetManifest
  manifest_row manifest now = record {
    repository_id = manifest.repository_id;
    version = manifest.manifest_version;
    content = manifest.json;
    content_hash = platform.sha256 manifest.json;
    approved_at = now;
    retired_at = none;
  }

  -- Behind the loop. What was retired before it stopped is in the session that is left behind. The
  -- flush of the new row, which ends the transaction at the latest, counts as part of the call: it
  -- refuses a second row of the repository and version, also where the first one is retired.
  unfoldable pub add_manifest :
      ApprovedManifest
      → Session
      → Result (Unit {0})
      → List TargetManifest
      → Result TargetManifest × Session
  unfolding manifest_row
  add_manifest manifest s (raised e) ms = (raised e, record s { manifests = ms })
  add_manifest manifest s (ok u) ms =
      if any (is_same_version manifest) ms
      then (raised (integrity_error "uq_manifest_repository_version"), record s { manifests = ms })
      else (
        ok (manifest_row manifest s.clock),
        record s { manifests = ms ++ manifest_row manifest s.clock ∷ [] },
      )

  unfoldable pub approve_manifest : ApprovedManifest → Tx TargetManifest
  unfolding retire_each add_manifest
  approve_manifest manifest s =
      let (r, ms) =
        retire_each manifest.repository_id manifest.manifest_version s.clock s.manifests in
      add_manifest manifest s r ms

-- .order_by(TargetManifest.approved_at.desc()), and the first
unfoldable pub latest : List TargetManifest → Option TargetManifest
latest [] = none
latest (m ∷ ms) = later (latest ms)
  where
    later : Option TargetManifest → Option TargetManifest
    later none = some m
    later (some n) = if ltb m.approved_at n.approved_at then some n else some m

-- The row that is found; the program then reads its content.
unfoldable pub active_manifest : Session → ℕ → Option TargetManifest
active_manifest s repository_id = latest (keep (is_active repository_id) s.manifests)
