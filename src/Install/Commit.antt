-- ===== src/Install/Commit.antt =====
-- src/install/mod.rs: the changes that an installation has prepared are committed one after another,
-- and are taken back when one of them fails.
pub mod Frames
pub mod Atomic
pub mod Stuck
use agent_gov.Base.{
  ℕ, Bool, true, false, Option, none, some, List, [], ◌∷◌, ◌++◌, Text, lit, FilePath, text_eqb,
  find, if◌then◌else◌, with_extension,
}
use agent_gov.Error.{Result, ok, err, panicked, GovError, io, not_found, internal}
use agent_gov.Install.Files.{Disk, Io, ◌>>=◌, ◌>>◌, pure, write_atomic, remove_file, exists}

pub record PreparedSettings : Type 0 where
  pub path : FilePath
  pub original_bytes : Option Text
  pub updated_bytes : Option Text
  pub original_manifest_bytes : Option Text
  pub updated_manifest_bytes : Option Text

pub backup_path : FilePath → FilePath
backup_path p = with_extension p (lit "json.agent-gov-backup")

pub manifest_path : FilePath → FilePath
manifest_path p = with_extension p (lit "json.agent-gov-manifest")

pub checksum_path : FilePath → FilePath
checksum_path p = with_extension p (lit "json.agent-gov-backup.sha256")

-- A file that is not there is removed already.
pub missing_is_fine : Result (Unit {0}) × Disk → Result (Unit {0}) × Disk
missing_is_fine (err (io not_found), d) = (ok tt, d)
missing_is_fine (r, d) = (r, d)

pub remove_if_exists : FilePath → Io (Unit {0})
remove_if_exists p d = missing_is_fine (remove_file p d)

pub apply_optional : FilePath → Option Text → Io (Unit {0})
apply_optional p none = remove_if_exists p
apply_optional p (some bytes) = write_atomic p bytes

unfoldable pub or_empty : Option Text → Text
or_empty none = []
or_empty (some bytes) = bytes

pub rollback_message : GovError → GovError → (GovError → Text) → GovError
rollback_message error rollback_error display = internal (
    lit "settings update failed ("
    ++ display error
    ++ lit "); rollback also failed ("
    ++ display rollback_error
    ++ lit ")")

pub reverse_onto {ℓ} : {A : Type ℓ} → List A → List A → List A
reverse_onto [] ys = ys
reverse_onto (x ∷ xs) ys = reverse_onto xs (x ∷ ys)

-- The digest of a text is SHA-256 in hexadecimal.
module _ (hash_hex : Text → Text) where
  unfoldable pub write_backup : FilePath → Text → Io (Unit {0})
  write_backup p bytes =
      write_atomic (backup_path p) bytes
      >> write_atomic (checksum_path p) (hash_hex bytes ++ 10 ∷ [])

  unfoldable pub backup_once : FilePath → Option Text → Io (Unit {0})
  backup_once p original d =
      if exists (backup_path p) d then (ok tt, d) else write_backup p (or_empty original) d

  -- The closure in the loop of `commit_settings`.
  unfoldable pub apply_settings : Bool → PreparedSettings → Io (Unit {0})
  apply_settings create_backup s =
      (if create_backup then backup_once s.path s.original_bytes else pure (ok tt))
      >> apply_optional s.path s.updated_bytes
      >> apply_optional (manifest_path s.path) s.updated_manifest_bytes

pub restore : PreparedSettings → Io (Unit {0})
restore s =
    apply_optional s.path s.original_bytes
    >> apply_optional (manifest_path s.path) s.original_manifest_bytes

pub restore_found : Option PreparedSettings → Io (Unit {0})
restore_found none = pure (err (internal (lit "missing rollback snapshot")))
restore_found (some s) = restore s

-- The paths are those of `committed.iter().rev()`.
pub rollback_settings : List PreparedSettings → List FilePath → Io (Unit {0})
rollback_settings prepared [] = pure (ok tt)
rollback_settings prepared (p ∷ ps) =
    restore_found (find (λ s. text_eqb s.path p) prepared) >> rollback_settings prepared ps

module _ (hash_hex : Text → Text) (display : GovError → Text) where
  after_rollback : GovError → Result (Unit {0}) × Disk → Result (List FilePath) × Disk
  after_rollback error (ok _, d) = (err error, d)
  after_rollback error (err rollback_error, d) =
      (err (rollback_message error rollback_error display), d)
  after_rollback error (panicked, d) = (panicked, d)

  -- After the step of a file, with the rest of the loop.
  settle :
      List PreparedSettings
      → List FilePath
      → FilePath
      → Io (List FilePath)
      → Result (Unit {0}) × Disk
      → Result (List FilePath) × Disk
  settle prepared committed p rest (ok _, d) = rest d
  settle prepared committed p rest (err error, d) =
      after_rollback error (rollback_settings prepared (p ∷ committed) d)
  settle prepared committed p rest (panicked, d) = (panicked, d)

  -- The paths that are committed are kept last first.
  commit_from :
      List PreparedSettings → Bool → List FilePath → List PreparedSettings → Io (List FilePath)
  commit_from prepared create_backup committed [] = pure (ok (reverse_onto committed []))
  commit_from prepared create_backup committed (s ∷ ss) = λ d.
      settle prepared committed s.path (commit_from prepared create_backup (s.path ∷ committed) ss)
        (apply_settings hash_hex create_backup s d)

  pub commit_settings : List PreparedSettings → Bool → Io (List FilePath)
  commit_settings prepared create_backup = commit_from prepared create_backup [] prepared

-- What a run on concrete arguments computes through.
unfoldable pub runs : Unit {0}
unfolding backup_path manifest_path checksum_path missing_is_fine remove_if_exists apply_optional
    or_empty rollback_message reverse_onto write_backup backup_once apply_settings restore
    restore_found rollback_settings after_rollback settle commit_from commit_settings
runs = tt
