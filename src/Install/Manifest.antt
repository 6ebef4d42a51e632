-- ===== src/Install/Manifest.antt =====
-- The manifests and backups of src/install/mod.rs, and what an uninstallation does with them. SHA-256,
-- the JSON form of a manifest and the printing of errors and paths are arguments.
pub mod Restores
use agent_gov.Base.{
  ℕ, ◌*◌, Bool, true, false, Option, none, some, List, [], ◌∷◌, ◌++◌, Text, lit, FilePath,
  is_absolute, text_eqb, nat_eqb, ltb, length, if◌then◌else◌, not, ◌&&◌,
}
use agent_gov.Error.{
  Result, ok, err, panicked, GovError, io, not_found, invalid_config, invalid_input, json,
}
use agent_gov.Install.Files.{Disk, Io, ◌>>=◌, ◌>>◌, pure, read, exists}
use agent_gov.Install.Commit.{backup_path, manifest_path, or_empty}

pub record InstallManifest : Type 0 where
  pub schema_version : ℕ
  pub original_existed : Bool
  pub original_sha256 : Text
  pub installed_sha256 : Text
  pub binary_path : Text

pub data UninstallAction : Type 0 where
  surgical remove : UninstallAction
  restore : Text → UninstallAction

-- A path that is not UTF-8 has no text.
unfoldable pub path_string : Option Text → Result Text
path_string none = err (invalid_input (lit "path is not UTF-8"))
path_string (some path) = ok path

pub existed : Option Text → Bool
existed none = false
existed (some bytes) = true

pub restoring : Bool → Text → UninstallAction
restoring true backup = restore backup
restoring false backup = remove

-- What the installer calls and this repository does not implement: SHA-256 in hexadecimal, the JSON
-- form of a manifest, the JSON reader's error, and `Display` of errors.
pub record ManifestTools : Type 0 where
  pub hash_hex : Text → Text
  pub read_manifest_json : Text → Result InstallManifest
  pub write_manifest_json : InstallManifest → Result Text
  pub display : GovError → Text

module _ (tools : ManifestTools) where
  pub checked_backup : FilePath → InstallManifest → Result Text → Result Text
  checked_backup path m panicked = panicked
  checked_backup path m (err error) = err (
      invalid_config
        (lit "cannot read install backup " ++ backup_path path ++ lit ": " ++ tools.display error))
  checked_backup path m (ok backup) =
      if not (text_eqb (tools.hash_hex backup) m.original_sha256)
      then err (
          invalid_config
            (lit "install backup " ++ backup_path path ++ lit " does not match its manifest"))
      else ok backup

  unfoldable pub verify_backup : FilePath → InstallManifest → Io Text
  verify_backup path m d =
      let (bytes, after) = read (backup_path path) d in (checked_backup path m bytes, after)

  -- A backup that is there although no manifest is has to hold what is there now.
  pub stale_backup : Text → Option Text → Bool
  stale_backup expected none = false
  stale_backup expected (some backup) = not (text_eqb (tools.hash_hex backup) expected)

  -- What the manifest tells of the original: that of the previous one, or what is there now.
  unfoldable pub first_original : FilePath → Option Text → Io (Bool × Text)
  first_original path current d =
      if stale_backup (tools.hash_hex (or_empty current)) (d.content (backup_path path))
      then (
        err (
            invalid_config
              (lit "install backup " ++ backup_path path ++ lit " has no matching manifest")),
        d,
      )
      else (ok (existed current, tools.hash_hex (or_empty current)), d)

  unfoldable pub original_of : FilePath → Option Text → Option InstallManifest → Io (Bool × Text)
  original_of path current none = first_original path current
  original_of path current (some previous) =
      verify_backup path previous
      >>= (λ backup. pure (ok (previous.original_existed, previous.original_sha256)))

  pub described : Text → Option Text → Bool × Text → Result InstallManifest
  described updated binary (original_existed, original_sha256) =
      agent_gov.Error.◌>>=◌ (path_string binary) (λ path. ok (record {
        schema_version = 1;
        original_existed = original_existed;
        original_sha256 = original_sha256;
        installed_sha256 = tools.hash_hex updated;
        binary_path = path;
      }))

  unfoldable pub install_manifest :
      FilePath → Option Text → Option InstallManifest → Text → Option Text → Io InstallManifest
  install_manifest path current previous updated binary =
      original_of path current previous >>= (λ original. pure (described updated binary original))

  unfoldable pub uninstall_action :
      FilePath → Option Text → Option InstallManifest → Io UninstallAction
  uninstall_action path current none = pure (ok surgical)
  uninstall_action path current (some m) =
      if not (text_eqb (tools.hash_hex (or_empty current)) m.installed_sha256)
      then pure (ok surgical)
      else verify_backup path m >>= (λ backup. pure (ok (restoring m.original_existed backup)))

  unfoldable pub checked_manifest :
      FilePath → Text → InstallManifest → Result (Option Text × Option InstallManifest)
  checked_manifest path bytes m =
      if not (nat_eqb m.schema_version 1)
      then err (invalid_config (lit "unsupported install manifest at " ++ path))
      else ok (some bytes, some m)

  unfoldable pub manifest_from :
      FilePath → Option Text → Result (Option Text × Option InstallManifest)
  manifest_from path none = ok (none, none)
  manifest_from path (some bytes) =
      if ltb (64 * 1024) (length bytes)
      then err (invalid_config (lit "install manifest " ++ path ++ lit " exceeds 64 KiB"))
      else agent_gov.Error.◌>>=◌ (tools.read_manifest_json bytes) (checked_manifest path bytes)

  unfoldable pub read_manifest : FilePath → Io (Option Text × Option InstallManifest)
  read_manifest path d = (manifest_from (manifest_path path) (d.content (manifest_path path)), d)

pub manifest_binary : InstallManifest → Result FilePath
manifest_binary m =
    if not (is_absolute m.binary_path)
    then err (invalid_config (lit "install manifest contains a non-absolute binary path"))
    else ok m.binary_path

-- What a run on concrete arguments computes through.
unfoldable pub runs : Unit {0}
unfolding path_string existed restoring checked_backup verify_backup stale_backup first_original
    original_of described install_manifest uninstall_action checked_manifest manifest_from
    read_manifest manifest_binary
runs = tt
