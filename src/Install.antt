-- ===== src/Install.antt =====
-- src/install/mod.rs: `install` and `uninstall`, which prepare the settings of each agent and commit
-- them. Paths are UTF-8 texts. The word splitter, `serde_json`, the environment and what the file
-- system tells of programs and directories are arguments; the files themselves are the disk.
pub mod Files
pub mod Commit
pub mod Manifest
pub mod Hooks
pub mod Patch
pub mod Reading
pub mod Prepared
pub mod Stored
pub mod RoundTrip
use agent_gov.Base.{
  ℕ, ◌*◌, ◌%◌, Bool, true, false, not, ◌&&◌, ◌||◌, Option, none, some, List, [], ◌∷◌, ◌++◌, Text,
  lit, FilePath, is_absolute, join_path, nat_eqb, ltb, length, filter, has_byte, if◌then◌else◌,
}
use agent_gov.Error.{Result, ok, err, panicked, GovError, invalid_config, invalid_input, runtime}
use agent_gov.Json.{Value, Map}
use agent_gov.Install.Files.{Disk, exists, Io, ◌>>=◌, ◌>>◌, pure}
use agent_gov.Install.Commit.{PreparedSettings, commit_settings}
use agent_gov.Install.Manifest.{
  InstallManifest, ManifestTools, UninstallAction, read_manifest, install_manifest,
  uninstall_action, manifest_binary,
}
use agent_gov.Install.Hooks.{Agent, claude, cursor}
use agent_gov.Install.Patch.{patch_claude, patch_cursor, unpatch_claude, unpatch_cursor}

-- What `fs::metadata` tells of a program: whether it is a file, and whether one may execute it.
pub record Metadata : Type 0 where
  pub is_file : Bool
  pub executable : Bool

-- `home` is the value of `AGENT_GOV_TEST_USER_HOME`, or else of `HOME`. `lock` is how taking the lock
-- file of the installer ends, and `ensure_parent` how making a private directory for a file ends.
pub record Surroundings : Type 0 where
  pub home : Option FilePath
  pub lock : FilePath → Result (Unit {0})
  pub ensure_parent : FilePath → Result (Unit {0})
  pub metadata : FilePath → Result Metadata
  pub from_slice : Text → Result Value
  pub to_vec_pretty : Value → Result Text
  pub split : Text → Option (List Text)
  pub tools : ManifestTools

pub settings_path : FilePath → Agent → FilePath
settings_path home claude = join_path home (lit ".claude/settings.json")
settings_path home cursor = join_path home (lit ".cursor/hooks.json")

unfoldable pub user_home : Option FilePath → Result FilePath
user_home none = err (runtime (lit "HOME is not defined"))
user_home (some home) = ok home

-- Every path here is UTF-8.
utf8 : Option FilePath → Option (Option Text)
utf8 none = none
utf8 (some path) = some (some path)

pub is_object : Value → Bool
is_object (Value.object m) = true
is_object v = false

module _ (env : Surroundings) where
  checked_metadata : FilePath → Result Metadata → Result (Unit {0})
  checked_metadata path panicked = panicked
  checked_metadata path (err error) = err (
      invalid_input
        (lit "hook executable " ++ path ++ lit " is unavailable: " ++ env.tools.display error))
  checked_metadata path (ok m) =
      if not m.is_file || not m.executable
      then err (invalid_input (lit "hook executable " ++ path ++ lit " is not an executable file"))
      else ok tt

  pub validate_executable_path : FilePath → Result (Unit {0})
  validate_executable_path path =
      if not (is_absolute path) || has_byte 0 path || has_byte 10 path
      then err (invalid_input (lit "hook executable paths must be absolute and single-line"))
      else checked_metadata path (env.metadata path)

  pub validate_optional : Option FilePath → Result (Unit {0})
  validate_optional none = ok tt
  validate_optional (some path) = validate_executable_path path

  unfoldable pub checked_root : FilePath → Text → Value → Result (Option Text × Value)
  checked_root path bytes root =
      if not (is_object root)
      then err (invalid_config (lit "settings file " ++ path ++ lit " must contain a JSON object"))
      else ok (some bytes, root)

  unfoldable pub json_or_empty : FilePath → Option Text → Result (Option Text × Value)
  json_or_empty path none = ok (none, Value.object Map.empty)
  json_or_empty path (some bytes) =
      if ltb (1024 * 1024) (length bytes)
      then err (invalid_config (lit "settings file " ++ path ++ lit " exceeds 1 MiB"))
      else agent_gov.Error.◌>>=◌ (env.from_slice bytes) (checked_root path bytes)

  unfoldable pub read_json_or_empty : FilePath → Io (Option Text × Value)
  read_json_or_empty path d = (json_or_empty path (d.content path), d)

  -- The binary that the manifest beside the settings tells of.
  transposed : Option InstallManifest → Result (Option FilePath)
  transposed none = ok none
  transposed (some m) = agent_gov.Error.◌>>=◌ (manifest_binary m) (λ path. ok (some path))

  pub installed_binary_path : FilePath → Io (Option FilePath)
  installed_binary_path path =
      read_manifest env.tools path >>= (λ (bytes, manifest). pure (transposed manifest))

  pub patched : Agent → Value → FilePath → Option FilePath → Result Value
  patched claude root binary rtk = patch_claude env.split root (some binary) (utf8 rtk)
  patched cursor root binary rtk = patch_cursor env.split root (some binary) (utf8 rtk)

  pub surgically : Agent → Value → FilePath → Value
  surgically claude root binary = unpatch_claude root (some binary)
  surgically cursor root binary = unpatch_cursor env.split root (some binary)

  -- The settings and the manifest that an installation writes for an agent, out of what is there.
  pub prepare_install : FilePath → Option FilePath → FilePath → Agent → Io PreparedSettings
  prepare_install binary rtk home agent =
      let path = settings_path home agent in
      pure (env.ensure_parent path) >> read_json_or_empty path >>= (λ (original_bytes, original).
        pure (patched agent original binary rtk) >>= (λ updated.
          pure (env.to_vec_pretty updated) >>= (λ updated_bytes.
            read_manifest env.tools path >>= (λ (original_manifest_bytes, previous_manifest).
              install_manifest env.tools path original_bytes previous_manifest updated_bytes
                (some binary)
              >>= (λ manifest. pure (env.tools.write_manifest_json manifest) >>= (λ manifest_bytes.
                  pure (
                    ok (record {
                      path = path;
                      original_bytes = original_bytes;
                      updated_bytes = some updated_bytes;
                      original_manifest_bytes = original_manifest_bytes;
                      updated_manifest_bytes = some manifest_bytes;
                    }))))))))

  -- The binary of a manifest that is there, or the one given.
  pub binary_or : FilePath → Option InstallManifest → Result FilePath
  binary_or binary none = ok binary
  binary_or binary (some m) = manifest_binary m

  unfoldable pub updated_by : UninstallAction → Value → Result (Option Text)
  updated_by UninstallAction.surgical root =
      agent_gov.Error.◌>>=◌ (env.to_vec_pretty root) (λ bytes. ok (some bytes))
  updated_by (UninstallAction.restore bytes) root = ok (some bytes)
  updated_by UninstallAction.remove root = ok none

  pub prepare_uninstall : FilePath → FilePath → Agent → Io PreparedSettings
  prepare_uninstall binary home agent =
      let path = settings_path home agent in
      read_json_or_empty path >>= (λ (original_bytes, original).
        read_manifest env.tools path >>= (λ (original_manifest_bytes, manifest).
          pure (binary_or binary manifest) >>= (λ installed_binary.
            uninstall_action env.tools path original_bytes manifest >>= (λ action.
              pure (updated_by action (surgically agent original installed_binary))
              >>= (λ updated_bytes. pure (
                  ok (record {
                    path = path;
                    original_bytes = original_bytes;
                    updated_bytes = updated_bytes;
                    original_manifest_bytes = original_manifest_bytes;
                    updated_manifest_bytes = none;
                  })))))))

  pub prepare_all : (Agent → Io PreparedSettings) → List Agent → Io (List PreparedSettings)
  prepare_all prepare [] = pure (ok [])
  prepare_all prepare (agent ∷ agents) =
      prepare agent >>= (λ s. prepare_all prepare agents >>= (λ ss. pure (ok (s ∷ ss))))

  -- An agent without settings is skipped.
  pub with_settings : FilePath → List Agent → Disk → List Agent
  with_settings home agents d = filter (λ agent. exists (settings_path home agent) d) agents

  pub install : List Agent → FilePath → Option FilePath → Io (List FilePath)
  install agents binary rtk =
      pure (validate_executable_path binary)
      >> pure (validate_optional rtk)
      >> pure (user_home env.home)
      >>= (λ home.
          pure (env.lock home)
          >> prepare_all (prepare_install binary rtk home) agents
          >>= (λ prepared. commit_settings env.tools.hash_hex env.tools.display prepared true))

  pub uninstall : List Agent → FilePath → Io (List FilePath)
  uninstall agents binary = pure (user_home env.home) >>= (λ home.
      pure (env.lock home)
      >> (λ d. prepare_all (prepare_uninstall binary home) (with_settings home agents d) d)
      >>= (λ prepared. commit_settings env.tools.hash_hex env.tools.display prepared false))

-- What a run on concrete arguments computes through.
unfoldable pub runs : Unit {0}
unfolding settings_path user_home utf8 is_object checked_metadata validate_executable_path
    validate_optional checked_root json_or_empty read_json_or_empty transposed installed_binary_path
    patched surgically prepare_install binary_or updated_by prepare_uninstall prepare_all
    with_settings install uninstall
runs = tt
