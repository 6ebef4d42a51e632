-- ===== src/Install/Manifest/Restores.antt =====
-- A manifest remembers what an uninstallation has to put back.
use agent_gov.Base.{
  ◌≡◌, refl, ap, sym, ◌∙◌, Bool, not, Option, none, some, [], ◌∷◌, ◌++◌, Text, FilePath, text_eqb,
  text_eqb_iff, if_true, if_false, not-true, arith, ◌≢◌,
}
use agent_gov.Error.{Result, ok, ok-injective}
use agent_gov.Install.Files.{Disk, Io, ◌>>◌, read, read_result, exists, is_some, write_atomic}
use agent_gov.Install.Files.Frames.{>>-eq-ok, write_atomic-written, write_atomic-Spares}
use agent_gov.Install.Commit.{backup_path, checksum_path, or_empty, backup_once, write_backup}
use agent_gov.Install.Manifest.{
  InstallManifest, UninstallAction, surgical, remove, restore, ManifestTools, existed, path_string,
  checked_backup, verify_backup, stale_backup, first_original, original_of, described,
  install_manifest, restoring, uninstall_action,
}

-- What is put back.
unfoldable pub undo : Option Text → UninstallAction
undo none = remove
undo (some bytes) = restore bytes

module _ (tools : ManifestTools) where
  -- The manifest and the backup tell what the settings were.
  pub record Remembers (path : FilePath) (original : Option Text) (m : InstallManifest) (d : Disk)
      : Type 0 where
    pub existed_before : m.original_existed ≡ existed original
    pub sha256 : m.original_sha256 ≡ tools.hash_hex (or_empty original)
    pub backup : d.content (backup_path path) ≡ some (or_empty original)

  verify_backup-eq :
      (path : FilePath) (original : Option Text) (m : InstallManifest) (d : Disk)
      → Remembers path original m d
      → verify_backup tools path m d ≡ (ok (or_empty original), d)
  unfolding verify_backup read read_result checked_backup
  verify_backup-eq path original m d k = rw (k.backup) (
      ap (λ r. (r, d))
        (if_false _ _ _ (
          not-true _ (
            (text_eqb_iff (tools.hash_hex (or_empty original)) m.original_sha256).1
              (sym k.sha256)))))

  -- An uninstallation of settings that nobody has touched since puts the original back.
  pub uninstall_action-undo :
      (path : FilePath) (original : Option Text) (updated : Text) (m : InstallManifest) (d : Disk)
      → Remembers path original m d
      → m.installed_sha256 ≡ tools.hash_hex updated
      → uninstall_action tools path (some updated) (some m) d ≡ (ok (undo original), d)
  unfolding uninstall_action restoring or_empty existed undo
  uninstall_action-undo path original updated m d k installed =
      ap (λ (step : Io UninstallAction). step d)
        (if_false _ _ _ (
          not-true _
            ((text_eqb_iff (tools.hash_hex updated) m.installed_sha256).1 (sym installed))))
      ∙ (rw (verify_backup-eq path original m d k, k.existed_before) (kept original))
    where
      kept :
          (o : Option Text)
          → ◌≡◌ {A = Result UninstallAction × Disk}
              (ok (restoring (existed o) (or_empty o)), d)
              (ok (undo o), d)
      kept none = refl
      kept (some bytes) = refl

  -- Settings that somebody has changed since are patched back and not restored.
  uninstall_action-changed :
      (path : FilePath) (current : Option Text) (m : InstallManifest) (d : Disk)
      → tools.hash_hex (or_empty current) ≢ m.installed_sha256
      → uninstall_action tools path current (some m) d ≡ (ok surgical, d)
  unfolding uninstall_action
  uninstall_action-changed path current m d ne =
      ap (λ (step : Io UninstallAction). step d)
        (if_true (not (text_eqb (tools.hash_hex (or_empty current)) m.installed_sha256)) _ _
          (ground (arith, text_eqb_iff (tools.hash_hex (or_empty current)) m.installed_sha256)))

  described-eq-ok :
      (updated : Text) (binary : Option Text) (was : Bool) (hash : Text) (m : InstallManifest)
      → described tools updated binary (was, hash) ≡ ok m
      → (m.original_existed ≡ was)
        × (m.original_sha256 ≡ hash)
        × (m.installed_sha256 ≡ tools.hash_hex updated)
        × (some m.binary_path ≡ binary)
  unfolding described path_string
  described-eq-ok updated none was hash m h = absurd (cc)
  described-eq-ok updated (some b) was hash m h =
      let e = ok-injective _ m h in
      (
        ap (λ x. x.original_existed) (sym e),
        ap (λ x. x.original_sha256) (sym e),
        ap (λ x. x.installed_sha256) (sym e),
        ap (λ x. some x.binary_path) (sym e),
      )

  -- What a manifest of an installation tells, if the one before tells it or there is none before.
  pub record Describes (original : Option Text) (updated : Text) (binary : Option Text)
      (m : InstallManifest) : Type 0 where
    pub existed_before : m.original_existed ≡ existed original
    pub sha256 : m.original_sha256 ≡ tools.hash_hex (or_empty original)
    pub installed : m.installed_sha256 ≡ tools.hash_hex updated
    pub binary_path : some m.binary_path ≡ binary

  described-Describes :
      (original : Option Text) (updated : Text) (binary : Option Text) (m : InstallManifest)
      (d d' : Disk)
      → ◌≡◌ {A = Result InstallManifest × Disk}
          (described tools updated binary (existed original, tools.hash_hex (or_empty original)), d)
          (ok m, d')
      → Describes original updated binary m × (d' ≡ d)
  described-Describes original updated binary m d d' h =
      let (a, b, c, e) =
        described-eq-ok updated binary (existed original) (tools.hash_hex (or_empty original)) m
          (ap (λ (r : Result InstallManifest × Disk). r.0) h) in
      (
        record { existed_before = a; sha256 = b; installed = c; binary_path = e },
        sym (ap (λ (r : Result InstallManifest × Disk). r.1) h),
      )

  -- A first installation, with no backup there.
  pub install_manifest-first :
      (path : FilePath) (current : Option Text) (updated : Text) (binary : Option Text)
      (m : InstallManifest) (d d' : Disk)
      → d.content (backup_path path) ≡ none
      → install_manifest tools path current none updated binary d ≡ (ok m, d')
      → Describes current updated binary m × (d' ≡ d)
  unfolding install_manifest original_of first_original stale_backup
  install_manifest-first path current updated binary m d d' fresh h =
      described-Describes current updated binary m d d' (rw fresh at h)

  -- An installation over another one passes on what the first one found.
  pub install_manifest-again :
      (path : FilePath) (original current : Option Text) (previous : InstallManifest)
      (updated : Text) (binary : Option Text) (m : InstallManifest) (d d' : Disk)
      → Remembers path original previous d
      → install_manifest tools path current (some previous) updated binary d ≡ (ok m, d')
      → Describes original updated binary m × (d' ≡ d)
  unfolding install_manifest original_of
  install_manifest-again path original current previous updated binary m d d' k h =
      described-Describes original updated binary m d d'
        (rw (verify_backup-eq path original previous d k, k.existed_before, k.sha256) at h)

  pub backup_once-backup :
      (path : FilePath) (original : Option Text) (d d' : Disk)
      → d.content (backup_path path) ≡ none
      → checksum_path path ≢ backup_path path
      → backup_once tools.hash_hex path original d ≡ (ok tt, d')
      → d'.content (backup_path path) ≡ some (or_empty original)
  unfolding backup_once write_backup exists is_some
  backup_once-backup path original d d' fresh ne h =
      let written : (write_atomic (backup_path path) (or_empty original)
              >> write_atomic (checksum_path path) (tools.hash_hex (or_empty original) ++ 10 ∷ []))
            d
          ≡ (ok tt, d') =
        rw fresh at h in
      let (k, first, second) =
        >>-eq-ok (write_atomic (backup_path path) (or_empty original))
          (write_atomic (checksum_path path) (tools.hash_hex (or_empty original) ++ 10 ∷ [])) d d'
          tt written in
      sym (ap (λ (r : Result (Unit {0}) × Disk). r.1.content (backup_path path)) second)
      ∙ write_atomic-Spares (checksum_path path) _ (backup_path path) ne k
      ∙ write_atomic-written (backup_path path) (or_empty original) d k first
