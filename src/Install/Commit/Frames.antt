-- ===== src/Install/Commit/Frames.antt =====
-- What the steps of `commit_settings` change, and what they leave alone.
use agent_gov.Base.{
  ◌≡◌, refl, ◌≢◌, ap, sym, ◌∙◌, Bool, true, false, Option, none, some, [], ◌∷◌, ◌++◌, Text,
  FilePath, if◌then◌else◌, Bool-cases, inl, inr, ◌⊎◌,
}
use agent_gov.Error.{
  Result, ok, err, panicked, io, not_found, permission_denied, already_exists, other, invalid_input,
  invalid_config, temporary, runtime, json, toml_decode, toml_encode, internal,
}
use agent_gov.Install.Files.{Disk, Io, ◌>>◌, pure, write_atomic, remove_file, exists}
use agent_gov.Install.Files.Frames.{
  Spares, Spares->>, IsCalm, IsCalm->>, >>-eq-ok, write_atomic-Spares, write_atomic-written,
  write_atomic-IsCalm, remove_file-Spares, remove_file-IsCalm, remove_file-gone,
}
use agent_gov.Install.Commit.{
  PreparedSettings, backup_path, manifest_path, checksum_path, missing_is_fine, remove_if_exists,
  apply_optional, or_empty, write_backup, backup_once, apply_settings, restore,
}

-- Only the one error is taken for a success.
missing_is_fine-cases :
    (r : Result (Unit {0}) × Disk)
    → (missing_is_fine r ≡ r) ⊎ (r.0 ≡ err (io not_found)) × (missing_is_fine r ≡ (ok tt, r.1))
unfolding missing_is_fine
missing_is_fine-cases (ok u, d) = inl refl
missing_is_fine-cases (panicked, d) = inl refl
missing_is_fine-cases (err (io not_found), d) = inr (refl, refl)
missing_is_fine-cases (err (io permission_denied), d) = inl refl
missing_is_fine-cases (err (io already_exists), d) = inl refl
missing_is_fine-cases (err (io other), d) = inl refl
missing_is_fine-cases (err (invalid_input m), d) = inl refl
missing_is_fine-cases (err (invalid_config m), d) = inl refl
missing_is_fine-cases (err (temporary m), d) = inl refl
missing_is_fine-cases (err (runtime m), d) = inl refl
missing_is_fine-cases (err (json m), d) = inl refl
missing_is_fine-cases (err (toml_decode m), d) = inl refl
missing_is_fine-cases (err (toml_encode m), d) = inl refl
missing_is_fine-cases (err (internal m), d) = inl refl

remove_if_exists-Spares : (p q : FilePath) → p ≢ q → Spares q (remove_if_exists p)
unfolding remove_if_exists
remove_if_exists-Spares p q h d = elim (missing_is_fine-cases (remove_file p d)) [
  | inl e ↦ ap (λ (r : Result (Unit {0}) × Disk). r.1.content q) e ∙ remove_file-Spares p q h d
  | inr (m, e) ↦ ap (λ (r : Result (Unit {0}) × Disk). r.1.content q) e ∙ remove_file-Spares p q h d
]

remove_if_exists-IsCalm : (p : FilePath) → IsCalm (remove_if_exists p)
unfolding remove_if_exists
remove_if_exists-IsCalm p d h = elim (missing_is_fine-cases (remove_file p d)) [
  | inl e ↦ remove_file-IsCalm p d (sym (ap (λ (r : Result (Unit {0}) × Disk). r.0) e) ∙ h)
  | inr (m, e) ↦ cc
]

remove_if_exists-gone :
    (p : FilePath) (d d' : Disk) → remove_if_exists p d ≡ (ok tt, d') → d'.content p ≡ none
unfolding remove_if_exists
remove_if_exists-gone p d d' h = elim (missing_is_fine-cases (remove_file p d)) [
  | inl e ↦ remove_file-gone p d d' (inl (sym e ∙ h))
  | inr (m, e) ↦
      remove_file-gone p d d'
        (inr (λ i. (m i, ap (λ (r : Result (Unit {0}) × Disk). r.1) (sym e ∙ h) i)))
]

pub apply_optional-Spares :
    (p : FilePath) (bytes : Option Text) (q : FilePath) → p ≢ q → Spares q (apply_optional p bytes)
unfolding apply_optional
apply_optional-Spares p none q h = remove_if_exists-Spares p q h
apply_optional-Spares p (some bytes) q h = write_atomic-Spares p bytes q h

pub apply_optional-IsCalm : (p : FilePath) (bytes : Option Text) → IsCalm (apply_optional p bytes)
unfolding apply_optional
apply_optional-IsCalm p none = remove_if_exists-IsCalm p
apply_optional-IsCalm p (some bytes) = write_atomic-IsCalm p bytes

pub apply_optional-applied :
    (p : FilePath) (bytes : Option Text) (d d' : Disk)
    → apply_optional p bytes d ≡ (ok tt, d')
    → d'.content p ≡ bytes
unfolding apply_optional
apply_optional-applied p none d d' h = remove_if_exists-gone p d d' h
apply_optional-applied p (some bytes) d d' h = write_atomic-written p bytes d d' h

-- Two files, one after the other: what `restore` and the end of `apply_settings` do.
both_applied :
    (p q : FilePath) (a b : Option Text) (d d' : Disk)
    → q ≢ p
    → (apply_optional p a >> apply_optional q b) d ≡ (ok tt, d')
    → (d'.content p ≡ a) × (d'.content q ≡ b)
both_applied p q a b d d' ne h =
    let (k, first, second) = >>-eq-ok (apply_optional p a) (apply_optional q b) d d' tt h in
    (
      sym (ap (λ (r : Result (Unit {0}) × Disk). r.1.content p) second)
          ∙ apply_optional-Spares q b p ne k
          ∙ apply_optional-applied p a d k first,
      apply_optional-applied q b k d' second,
    )

-- The files that the settings of an agent take.
pub record Apart (s : PreparedSettings) (q : FilePath) : Type 0 where
  pub settings : s.path ≢ q
  pub manifest : manifest_path s.path ≢ q
  pub backup : backup_path s.path ≢ q
  pub checksum : checksum_path s.path ≢ q

pub restore-Spares :
    (s : PreparedSettings) (q : FilePath)
    → s.path ≢ q
    → manifest_path s.path ≢ q
    → Spares q (restore s)
unfolding restore
restore-Spares s q h k =
    Spares->> q (apply_optional s.path s.original_bytes)
      (apply_optional (manifest_path s.path) s.original_manifest_bytes)
      (apply_optional-Spares s.path s.original_bytes q h)
      (apply_optional-Spares (manifest_path s.path) s.original_manifest_bytes q k)

pub restore-IsCalm : (s : PreparedSettings) → IsCalm (restore s)
unfolding restore
restore-IsCalm s =
    IsCalm->> (apply_optional s.path s.original_bytes)
      (apply_optional (manifest_path s.path) s.original_manifest_bytes)
      (apply_optional-IsCalm s.path s.original_bytes)
      (apply_optional-IsCalm (manifest_path s.path) s.original_manifest_bytes)

module _ (hash_hex : Text → Text) where
  write_backup-Spares :
      (p : FilePath) (bytes : Text) (q : FilePath)
      → backup_path p ≢ q
      → checksum_path p ≢ q
      → Spares q (write_backup hash_hex p bytes)
  unfolding write_backup
  write_backup-Spares p bytes q h k =
      Spares->> q (write_atomic (backup_path p) bytes)
        (write_atomic (checksum_path p) (hash_hex bytes ++ 10 ∷ []))
        (write_atomic-Spares (backup_path p) bytes q h)
        (write_atomic-Spares (checksum_path p) (hash_hex bytes ++ 10 ∷ []) q k)

  write_backup-IsCalm : (p : FilePath) (bytes : Text) → IsCalm (write_backup hash_hex p bytes)
  unfolding write_backup
  write_backup-IsCalm p bytes =
      IsCalm->> (write_atomic (backup_path p) bytes)
        (write_atomic (checksum_path p) (hash_hex bytes ++ 10 ∷ []))
        (write_atomic-IsCalm (backup_path p) bytes)
        (write_atomic-IsCalm (checksum_path p) (hash_hex bytes ++ 10 ∷ []))

  backup_once-Spares :
      (p : FilePath) (original : Option Text) (q : FilePath)
      → backup_path p ≢ q
      → checksum_path p ≢ q
      → Spares q (backup_once hash_hex p original)
  unfolding backup_once
  backup_once-Spares p original q h k d = elim (Bool-cases (exists (backup_path p) d)) [
    | inl e ↦ rw e refl
    | inr e ↦ rw e (write_backup-Spares p (or_empty original) q h k d)
  ]

  backup_once-IsCalm :
      (p : FilePath) (original : Option Text) → IsCalm (backup_once hash_hex p original)
  unfolding backup_once
  backup_once-IsCalm p original d = elim (Bool-cases (exists (backup_path p) d)) [
    | inl e ↦ rw e (λ h. cc)
    | inr e ↦ rw e (write_backup-IsCalm p (or_empty original) d)
  ]

  first_step : Bool → PreparedSettings → Io (Unit {0})
  first_step b s = if b then backup_once hash_hex s.path s.original_bytes else pure (ok tt)

  first_step-Spares :
      (b : Bool) (s : PreparedSettings) (q : FilePath) → Apart s q → Spares q (first_step b s)
  unfolding first_step
  first_step-Spares true s q h = backup_once-Spares s.path s.original_bytes q h.backup h.checksum
  first_step-Spares false s q h = λ d. refl

  first_step-IsCalm : (b : Bool) (s : PreparedSettings) → IsCalm (first_step b s)
  unfolding first_step
  first_step-IsCalm true s = backup_once-IsCalm s.path s.original_bytes
  first_step-IsCalm false s = λ d. cc

  -- The steps of `apply_settings` before the manifest.
  up_to_settings : Bool → PreparedSettings → Io (Unit {0})
  up_to_settings b s = first_step b s >> apply_optional s.path s.updated_bytes

  up_to_settings-Spares :
      (b : Bool) (s : PreparedSettings) (q : FilePath) → Apart s q → Spares q (up_to_settings b s)
  unfolding up_to_settings
  up_to_settings-Spares b s q h =
      Spares->> q (first_step b s) (apply_optional s.path s.updated_bytes)
        (first_step-Spares b s q h) (apply_optional-Spares s.path s.updated_bytes q h.settings)

  pub apply_settings-Spares :
      (b : Bool) (s : PreparedSettings) (q : FilePath)
      → Apart s q
      → Spares q (apply_settings hash_hex b s)
  unfolding apply_settings up_to_settings first_step
  apply_settings-Spares b s q h =
      Spares->> q (up_to_settings b s)
        (apply_optional (manifest_path s.path) s.updated_manifest_bytes)
        (up_to_settings-Spares b s q h)
        (apply_optional-Spares (manifest_path s.path) s.updated_manifest_bytes q h.manifest)

  pub apply_settings-IsCalm :
      (b : Bool) (s : PreparedSettings) → IsCalm (apply_settings hash_hex b s)
  unfolding apply_settings up_to_settings first_step
  apply_settings-IsCalm b s =
      IsCalm->> (up_to_settings b s)
        (apply_optional (manifest_path s.path) s.updated_manifest_bytes)
        (IsCalm->> (first_step b s) (apply_optional s.path s.updated_bytes) (first_step-IsCalm b s)
          (apply_optional-IsCalm s.path s.updated_bytes))
        (apply_optional-IsCalm (manifest_path s.path) s.updated_manifest_bytes)

  pub apply_settings-applied :
      (b : Bool) (s : PreparedSettings) (d d' : Disk)
      → manifest_path s.path ≢ s.path
      → apply_settings hash_hex b s d ≡ (ok tt, d')
      → (d'.content s.path ≡ s.updated_bytes)
        × (d'.content (manifest_path s.path) ≡ s.updated_manifest_bytes)
  unfolding apply_settings up_to_settings first_step
  apply_settings-applied b s d d' ne h =
      let (k, first, last) =
        >>-eq-ok (up_to_settings b s)
          (apply_optional (manifest_path s.path) s.updated_manifest_bytes) d d' tt h in
      let (j, backed_up, second) =
        >>-eq-ok (first_step b s) (apply_optional s.path s.updated_bytes) d k tt first in
      (
        sym (ap (λ (r : Result (Unit {0}) × Disk). r.1.content s.path) last)
            ∙ apply_optional-Spares (manifest_path s.path) s.updated_manifest_bytes s.path ne k
            ∙ apply_optional-applied s.path s.updated_bytes j k second,
        apply_optional-applied (manifest_path s.path) s.updated_manifest_bytes k d' last,
      )

-- What a restoring that ends well has restored.
pub restore-restored :
    (s : PreparedSettings) (d d' : Disk)
    → manifest_path s.path ≢ s.path
    → restore s d ≡ (ok tt, d')
    → (d'.content s.path ≡ s.original_bytes)
      × (d'.content (manifest_path s.path) ≡ s.original_manifest_bytes)
unfolding restore
restore-restored s d d' ne h =
    both_applied s.path (manifest_path s.path) s.original_bytes s.original_manifest_bytes d d' ne h
