-- ===== src/Install/Reading.antt =====
-- src/install/mod.rs: the steps that only read the disk.
use agent_gov.Base.{
  ◌*◌, ltb, length, ◌≡◌, refl, ap, sym, ◌∙◌, not, Option, none, some, Text, FilePath, if_true,
  if_false, text_eqb, arith, Bool-cases, inl, inr,
}
use agent_gov.Error.{Result, ok, err, panicked, >>=-eq-ok}
use agent_gov.Install.Files.{Disk, Io, ◌>>=◌, ◌>>◌, pure, run_next, read}
use agent_gov.Install.Commit.{manifest_path, or_empty}
use agent_gov.Install.Manifest.{
  InstallManifest, ManifestTools, read_manifest, manifest_from, checked_manifest, install_manifest,
  original_of, first_original, verify_backup, uninstall_action, UninstallAction, restoring,
}

-- The step leaves the disk as it is.
abbrev pub IsReading {ℓ} : {A : Type ℓ} → Io A → Type 0
IsReading step = (d : Disk) → (step d).1 ≡ d

pub IsReading->>= {ℓ κ} :
    {A : Type ℓ} {C : Type κ} (step : Io A) (next : A → Io C)
    → IsReading step
    → ((x : A) → IsReading (next x))
    → IsReading (step >>= next)
IsReading->>= {A = A} {C = C} step next h k d = go (step d) (h d)
  where
    go : (r : Result A × Disk) → r.1 ≡ d → (run_next next r).1 ≡ d
    go (ok x, e) same = k x e ∙ same
    go (err failure, e) same = same
    go (panicked, e) same = same

-- A chain that succeeds, where its first step only reads.
pub >>=-eq-ok_reading {ℓ κ} :
    {A : Type ℓ} {C : Type κ} (step : Io A) (next : A → Io C) (d : Disk) (c : C) (e : Disk)
    → IsReading step
    → (step >>= next) d ≡ (ok c, e)
    → (x : A) × ((step d).0 ≡ ok x) × (next x d ≡ (ok c, e))
>>=-eq-ok_reading {A = A} {C = C} step next d c e h eq = go (step d) (h d) eq
  where
    go :
        (r : Result A × Disk)
        → r.1 ≡ d
        → run_next next r ≡ (ok c, e)
        → (x : A) × (r.0 ≡ ok x) × (next x d ≡ (ok c, e))
    go (ok x, k) same last = (x, refl, ap (next x) (sym same) ∙ last)
    go (err failure, k) same last = absurd (cc)
    go (panicked, k) same last = absurd (cc)

-- Inversion of a chain that succeeds.
pub >>=-eq-ok_io {ℓ κ} :
    {A : Type ℓ} {C : Type κ} (step : Io A) (next : A → Io C) (d : Disk) (c : C) (e : Disk)
    → (step >>= next) d ≡ (ok c, e)
    → (x : A) × (k : Disk) × (step d ≡ (ok x, k)) × (next x k ≡ (ok c, e))
>>=-eq-ok_io {A = A} {C = C} step next d c e eq = go (step d) refl eq
  where
    go :
        (r : Result A × Disk)
        → step d ≡ r
        → run_next next r ≡ (ok c, e)
        → (x : A) × (k : Disk) × (step d ≡ (ok x, k)) × (next x k ≡ (ok c, e))
    go (ok x, k) same last = (x, k, same, last)
    go (err failure, k) same last = absurd (cc)
    go (panicked, k) same last = absurd (cc)

pub run_ok {ℓ κ} :
    {A : Type ℓ} {C : Type κ} (step : Io A) (next : A → Io C) (d : Disk) (x : A) (k : Disk)
    → step d ≡ (ok x, k)
    → (step >>= next) d ≡ next x k
run_ok step next d x k h = ap (run_next next) h

-- A pure step before a step.
pub pure->>-ok {ℓ} :
    {A : Type ℓ} (r : Result (Unit {0})) (step : Io A) (d : Disk) (a : A)
    → ((pure r >> step) d).0 ≡ ok a
    → (step d).0 ≡ ok a
pure->>-ok (ok u) step d a h = h
pure->>-ok (err failure) step d a h = absurd (cc)
pure->>-ok panicked step d a h = absurd (cc)

module _ (tools : ManifestTools) where
  checked_manifest-bytes :
      (path : FilePath) (bytes : Text) (m : InstallManifest) (o : Option Text)
      (n : Option InstallManifest)
      → checked_manifest tools path bytes m ≡ ok (o, n)
      → o ≡ some bytes
  unfolding checked_manifest
  checked_manifest-bytes path bytes m o n h = ground arith

  manifest_from-bytes :
      (path : FilePath) (found o : Option Text) (n : Option InstallManifest)
      → manifest_from tools path found ≡ ok (o, n)
      → o ≡ found
  unfolding manifest_from
  manifest_from-bytes path none o n h = ground arith
  manifest_from-bytes path (some bytes) o n h = elim (Bool-cases (ltb (64 * 1024) (length bytes))) [
    | inl e ↦ absurd (ground (arith, e, h))
    | inr e ↦
        let (m, parsed, last) =
          >>=-eq-ok (tools.read_manifest_json bytes) (checked_manifest tools path bytes)
            (sym (if_false (ltb (64 * 1024) (length bytes)) _ _ e) ∙ h) in
        checked_manifest-bytes path bytes m o n last
  ]

  original_of-IsReading :
      (path : FilePath) (current : Option Text) (previous : Option InstallManifest)
      → IsReading (original_of tools path current previous)
  unfolding original_of first_original verify_backup read
  original_of-IsReading path current none d = ground arith
  original_of-IsReading path current (some previous) d =
      IsReading->>= (verify_backup tools path previous)
        (λ backup. pure (ok (previous.original_existed, previous.original_sha256))) (λ k. refl)
        (λ backup k. refl) d

  pub install_manifest-IsReading :
      (path : FilePath) (current : Option Text) (previous : Option InstallManifest) (updated : Text)
      (binary : Option Text)
      → IsReading (install_manifest tools path current previous updated binary)
  unfolding install_manifest
  install_manifest-IsReading path current previous updated binary =
      IsReading->>= (original_of tools path current previous) _
        (original_of-IsReading path current previous) (λ original d. refl)

  pub uninstall_action-IsReading :
      (path : FilePath) (current : Option Text) (manifest : Option InstallManifest)
      → IsReading (uninstall_action tools path current manifest)
  unfolding uninstall_action verify_backup read
  uninstall_action-IsReading path current none d = refl
  uninstall_action-IsReading path current (some m) d =
      elim (Bool-cases (not (text_eqb (tools.hash_hex (or_empty current)) m.installed_sha256))) [
        | inl e ↦ ap (λ (step : Io UninstallAction). (step d).1) (if_true _ _ _ e)
        | inr e ↦
            ap (λ (step : Io UninstallAction). (step d).1) (if_false _ _ _ e)
            ∙ IsReading->>= (verify_backup tools path m)
                (λ backup. pure (ok (restoring m.original_existed backup))) (λ k. refl)
                (λ backup k. refl) d
      ]

  pub read_manifest-bytes :
      (path : FilePath) (d : Disk) (o : Option Text) (n : Option InstallManifest)
      → (read_manifest tools path d).0 ≡ ok (o, n)
      → o ≡ d.content (manifest_path path)
  unfolding read_manifest
  read_manifest-bytes path d o n h =
      manifest_from-bytes (manifest_path path) (d.content (manifest_path path)) o n h
