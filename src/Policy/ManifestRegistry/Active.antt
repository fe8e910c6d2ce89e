-- ===== src/Policy/ManifestRegistry/Active.antt =====
-- Which manifests are in force after an approval.
use agentic_engineering_lab.Python.{Platform}
use agentic_engineering_lab.Domain.Error.{integrity_error, value_error, raised, ok}
use agentic_engineering_lab.Policy.ManifestRegistry.{
  is_same_version, latest, active_manifest, approve_manifest, manifest_row, ApprovedManifest,
  is_active, retire_each,
}
use agentic_engineering_lab.Prelude.{
  is_some, not, ap, ◌∙◌, some, ==_refl, true, ◌&&◌, any, if◌then◌else◌, str_eq, inl, inr, refl,
  Bool-cases, [], arith, false, ◌∷◌, ◌==◌, ◌≡◌, ◌++◌, keep, List, Bool, String, ℕ,
}
use agentic_engineering_lab.Database.{Session, TargetManifest}

keep-append :
    (p : TargetManifest → Bool) (xs ys : List TargetManifest)
    → keep p (xs ++ ys) ≡ keep p xs ++ keep p ys
keep-append p [] ys = refl
keep-append p (x ∷ xs) ys = ground (arith, keep-append p xs ys)

append_nil : (ms : List TargetManifest) → ms ++ [] ≡ ms
append_nil [] = refl
append_nil (m ∷ ms) = rw (append_nil ms)

module _ (repository_id : ℕ) (version : String) (now : ℕ) where
  -- A loop that went through has left no row in force.
  retired_all :
      (ms : List TargetManifest)
      → (retire_each repository_id version now ms).0 ≡ ok tt
      → keep (is_active repository_id) (retire_each repository_id version now ms).1 ≡ []
  unfolding retire_each is_active
  retired_all [] h = refl
  retired_all (m ∷ ms) h = elim (Bool-cases (is_active repository_id m)) [
    | inr other ↦ ground (arith, retired_all ms)
    | inl active ↦ elim (Bool-cases (str_eq m.version version)) [
      | inl taken ↦ ground arith
      | inr fresh ↦ ground (arith, retired_all ms)
    ]
  ]

  -- The rows of the other repositories that are in force stay, whether or not the loop went through.
  others_stay :
      (other : ℕ) (ms : List TargetManifest)
      → (other == repository_id) ≡ false
      → keep (is_active other) (retire_each repository_id version now ms).1
        ≡ keep (is_active other) ms
  unfolding retire_each is_active
  others_stay other [] differs = refl
  others_stay other (m ∷ ms) differs = elim (Bool-cases (is_active repository_id m)) [
    | inr left ↦ ground (arith, others_stay other ms differs)
    | inl active ↦ elim (Bool-cases (str_eq m.version version)) [
      | inl taken ↦ ground arith
      | inr fresh ↦ ground (arith, others_stay other ms differs)
    ]
  ]

  retire_each-result :
      (ms : List TargetManifest)
      → (retire_each repository_id version now ms).0 ≡ (
          if any (λ m. is_active repository_id m && str_eq m.version version) ms
          then raised (value_error "manifest version is already approved")
          else ok tt)
  unfolding retire_each
  retire_each-result [] = refl
  retire_each-result (m ∷ ms) = elim (Bool-cases (is_active repository_id m)) [
    | inr left ↦ ground (arith, retire_each-result ms)
    | inl active ↦ elim (Bool-cases (str_eq m.version version)) [
      | inl taken ↦ ground arith
      | inr fresh ↦ ground (arith, retire_each-result ms)
    ]
  ]

  -- The loop retires rows, and leaves each row's repository and version.
  versions_stay :
      (ms : List TargetManifest)
      → any
          (λ m. m.repository_id == repository_id && str_eq m.version version)
          (retire_each repository_id version now ms).1
        ≡ any (λ m. m.repository_id == repository_id && str_eq m.version version) ms
  unfolding retire_each
  versions_stay [] = refl
  versions_stay (m ∷ ms) = elim (Bool-cases (is_active repository_id m)) [
    | inr left ↦ ground (arith, versions_stay ms)
    | inl active ↦ elim (Bool-cases (str_eq m.version version)) [
      | inl taken ↦ ground arith
      | inr fresh ↦ ground (arith, versions_stay ms)
    ]
  ]

module _ (platform : Platform) (manifest : ApprovedManifest) where
  row_is_active :
      (now : ℕ) → is_active manifest.repository_id (manifest_row platform manifest now) ≡ true
  unfolding is_active manifest_row
  row_is_active now = rw (==_refl manifest.repository_id) refl

  row_is_not_active :
      (now other : ℕ)
      → (other == manifest.repository_id) ≡ false
      → is_active other (manifest_row platform manifest now) ≡ false
  unfolding is_active manifest_row
  row_is_not_active now other differs = ground arith

  abbrev pub is_taken : TargetManifest → Bool
  is_taken m =
      (m.repository_id == manifest.repository_id && not (is_some m.retired_at))
      && str_eq m.version manifest.manifest_version

  not_taken :
      (ms : List TargetManifest)
      → any (is_same_version manifest) ms ≡ false
      → any is_taken ms ≡ false
  unfolding is_active is_same_version
  not_taken [] h = refl
  not_taken (m ∷ ms) h = ground (arith, not_taken ms)

  -- If no manifest of the repository, active or retired, has the version, an approval succeeds: its row is then the
  -- only one of the repository in force and is the active manifest, and the active manifest of any
  -- other repository stays.
  pub approve_manifest-active :
      (other : ℕ) (s : Session)
      → any (is_same_version manifest) s.manifests ≡ false
      → (other == manifest.repository_id) ≡ false
      → (t : Session) × (approve_manifest platform manifest s
          ≡ (ok (manifest_row platform manifest s.clock), t))
        × (keep (is_active manifest.repository_id) t.manifests
            ≡ manifest_row platform manifest s.clock ∷ [])
        × (active_manifest t manifest.repository_id ≡ some (manifest_row platform manifest s.clock))
        × (active_manifest t other ≡ active_manifest s other)
  unfolding approve_manifest active_manifest latest is_same_version is_active
  approve_manifest-active other s fresh differs =
      let row = manifest_row platform manifest s.clock in
      let kept =
        (retire_each manifest.repository_id manifest.manifest_version s.clock s.manifests).1 in
      let through : (retire_each manifest.repository_id manifest.manifest_version s.clock
            s.manifests).0
          ≡ ok tt =
        retire_each-result manifest.repository_id manifest.manifest_version s.clock s.manifests
        ∙ rw (not_taken s.manifests fresh) refl in
      let unused : any (is_same_version manifest) kept ≡ false =
        versions_stay manifest.repository_id manifest.manifest_version s.clock s.manifests
        ∙ fresh in
      let own : keep (is_active manifest.repository_id) (kept ++ row ∷ []) ≡ row ∷ [] =
        keep-append (is_active manifest.repository_id) kept (row ∷ [])
        ∙ rw
            (
              retired_all manifest.repository_id manifest.manifest_version s.clock s.manifests
                  through,
              row_is_active s.clock,
            )
            refl in
      let others : keep (is_active other) (kept ++ row ∷ []) ≡ keep (is_active other) s.manifests =
        keep-append (is_active other) kept (row ∷ [])
        ∙ rw
            (
              others_stay manifest.repository_id manifest.manifest_version s.clock other s.manifests
                  differs,
              row_is_not_active s.clock other differs,
            )
            (append_nil (keep (is_active other) s.manifests)) in
      (
        record s { manifests = kept ++ row ∷ [] },
        rw (through, unused) refl,
        own,
        rw own refl,
        ap latest others,
      )

module _ (platform : Platform) (manifest : ApprovedManifest) where
  -- An approval raises a value error exactly if an active manifest of the repository has the version,
  -- the integrity error of the table exactly if only a retired one has it, and succeeds otherwise.
  pub approve_manifest-result :
      (s : Session)
      → (approve_manifest platform manifest s).0 ≡ (
          if any (is_taken platform manifest) s.manifests
          then raised (value_error "manifest version is already approved")
          else if any (is_same_version manifest) s.manifests
          then raised (integrity_error "uq_manifest_repository_version")
          else ok (manifest_row platform manifest s.clock))
  unfolding approve_manifest is_same_version is_active
  approve_manifest-result s =
      let looped =
        retire_each-result manifest.repository_id manifest.manifest_version s.clock s.manifests in
      let stay =
        versions_stay manifest.repository_id manifest.manifest_version s.clock s.manifests in
      elim (Bool-cases (any (is_taken platform manifest) s.manifests)) [
        | inl taken ↦ rw (looped, taken) refl
        | inr free ↦ elim (Bool-cases (any (is_same_version manifest) s.manifests)) [
          | inl retired ↦ rw (looped, free, stay, retired) refl
          | inr fresh ↦ rw (looped, free, stay, fresh) refl
        ]
      ]
