-- ===== src/Install/Stored.antt =====
-- What an installation of src/install/mod.rs has stored for an agent, read again.
use agent_gov.Base.{
  ◌*◌, ltb, length, ◌≡◌, ◌≢◌, ap, sym, ◌∙◌, true, Option, none, some, Text, FilePath, if_false,
  arith, Bool-cases, inl, inr,
}
use agent_gov.Error.{Result, ok, ok-injective, >>=-eq-ok}
use agent_gov.Install.Files.{Disk, ◌>>◌, pure}
use agent_gov.Install.Files.Frames.{>>-eq-ok}
use agent_gov.Install.Commit.{
  PreparedSettings, manifest_path, backup_path, checksum_path, or_empty, backup_once,
  apply_optional, apply_settings,
}
use agent_gov.Install.Commit.Frames.{apply_optional-Spares}
use agent_gov.Install.Manifest.{
  InstallManifest, ManifestTools, read_manifest, manifest_from, checked_manifest,
}
use agent_gov.Install.Manifest.Restores.{backup_once-backup}

-- The four files of an agent are different ones.
pub record AreDifferent (path : FilePath) : Type 0 where
  pub manifest_settings : manifest_path path ≢ path
  pub settings_backup : path ≢ backup_path path
  pub manifest_backup : manifest_path path ≢ backup_path path
  pub checksum_backup : checksum_path path ≢ backup_path path

-- A manifest that is written as JSON is read back.
abbrev pub IsReadBack : ManifestTools → Type 0
IsReadBack tools =
    (m : InstallManifest) (bytes : Text)
    → tools.write_manifest_json m ≡ ok bytes
    → tools.read_manifest_json bytes ≡ ok m

-- What an installation leaves of a file that had no backup.
pub backup-applied :
    (tools : ManifestTools) (s : PreparedSettings) (d e : Disk)
    → AreDifferent s.path
    → d.content (backup_path s.path) ≡ none
    → apply_settings tools.hash_hex true s d ≡ (ok tt, e)
    → e.content (backup_path s.path) ≡ some (or_empty s.original_bytes)
unfolding apply_settings
backup-applied tools s d e different fresh h =
    let (k, first, last) =
      >>-eq-ok
        (backup_once tools.hash_hex s.path s.original_bytes
          >> apply_optional s.path s.updated_bytes)
        (apply_optional (manifest_path s.path) s.updated_manifest_bytes) d e tt h in
    let (j, backed, settings) =
      >>-eq-ok (backup_once tools.hash_hex s.path s.original_bytes)
        (apply_optional s.path s.updated_bytes) d k tt first in
    sym (ap (λ (r : Result (Unit {0}) × Disk). r.1.content (backup_path s.path)) last)
    ∙ apply_optional-Spares (manifest_path s.path) s.updated_manifest_bytes (backup_path s.path)
        different.manifest_backup k
    ∙ sym (ap (λ (r : Result (Unit {0}) × Disk). r.1.content (backup_path s.path)) settings)
    ∙ apply_optional-Spares s.path s.updated_bytes (backup_path s.path) different.settings_backup j
    ∙ backup_once-backup tools s.path s.original_bytes d j fresh different.checksum_backup backed

checked_manifest-manifest :
    (tools : ManifestTools) (path : FilePath) (bytes : Text) (m : InstallManifest) (o : Option Text)
    (n : Option InstallManifest)
    → checked_manifest tools path bytes m ≡ ok (o, n)
    → n ≡ some m
unfolding checked_manifest
checked_manifest-manifest tools path bytes m o n h = ground arith

-- The manifest that is read is the one that is stored.
pub read_manifest-manifest :
    (tools : ManifestTools) (path : FilePath) (bytes : Text) (m : InstallManifest) (d : Disk)
    (o : Option Text) (n : Option InstallManifest)
    → d.content (manifest_path path) ≡ some bytes
    → tools.read_manifest_json bytes ≡ ok m
    → (read_manifest tools path d).0 ≡ ok (o, n)
    → n ≡ some m
unfolding read_manifest manifest_from
read_manifest-manifest tools path bytes m d o n stored parsed h =
    elim (Bool-cases (ltb (64 * 1024) (length bytes))) [
      | inl e ↦ absurd (ground (arith, e, after))
      | inr e ↦
          let (k, read, last) =
            >>=-eq-ok (tools.read_manifest_json bytes)
              (checked_manifest tools (manifest_path path) bytes)
              (sym (if_false (ltb (64 * 1024) (length bytes)) _ _ e) ∙ after) in
          checked_manifest-manifest tools (manifest_path path) bytes k o n last
          ∙ ap some (ok-injective _ _ (sym read ∙ parsed))
    ]
  where
    after : manifest_from tools (manifest_path path) (some bytes) ≡ ok (o, n)
    after = ap (manifest_from tools (manifest_path path)) (sym stored) ∙ h

pub no_manifest :
    (tools : ManifestTools) (path : FilePath) (d : Disk) (o : Option Text)
    (n : Option InstallManifest)
    → d.content (manifest_path path) ≡ none
    → (read_manifest tools path d).0 ≡ ok (o, n)
    → n ≡ none
unfolding read_manifest manifest_from
no_manifest tools path d o n fresh h =
    let e : ok (none, none) ≡ ok (o, n) =
      ap (manifest_from tools (manifest_path path)) (sym fresh) ∙ h in
    sym (ap (λ (q : Option Text × Option InstallManifest). q.1) (ok-injective _ _ e))

pub pure-updated :
    (p : PreparedSettings) (d e : Disk) (t : PreparedSettings)
    → pure (ok p) d ≡ (ok t, e)
    → t.updated_bytes ≡ p.updated_bytes
pure-updated p d e t h = sym (
    ap (λ (q : PreparedSettings). q.updated_bytes)
      (ok-injective p t (ap (λ (r : Result PreparedSettings × Disk). r.0) h)))
