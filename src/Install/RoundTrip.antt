-- ===== src/Install/RoundTrip.antt =====
-- An installation and then an uninstallation of src/install/mod.rs: the settings are what they were.
use agent_gov.Base.{◌≡◌, refl, ◌≢◌, ap, sym, subst, ◌∙◌, true, Option, none, some, Text, FilePath}
use agent_gov.Error.{Result, ok, ok-injective}
use agent_gov.Json.{Value}
use agent_gov.Install.Files.{Disk, ◌>>◌, pure}
use agent_gov.Install.Commit.{
  PreparedSettings, manifest_path, backup_path, or_empty, apply_settings,
}
use agent_gov.Install.Commit.Frames.{apply_settings-applied}
use agent_gov.Install.Manifest.{
  InstallManifest, UninstallAction, read_manifest, install_manifest, uninstall_action,
}
use agent_gov.Install.Manifest.Restores.{
  undo, Remembers, Describes, install_manifest-first, uninstall_action-undo,
}
use agent_gov.Install.Hooks.{Agent}
use agent_gov.Install.{
  Surroundings, settings_path, read_json_or_empty, patched, prepare_install, binary_or, updated_by,
  surgically, prepare_uninstall,
}
use agent_gov.Install.Reading.{
  IsReading->>=, >>=-eq-ok_reading, pure->>-ok, install_manifest-IsReading,
  uninstall_action-IsReading,
}
use agent_gov.Install.Prepared.{read_json_or_empty-bytes}
use agent_gov.Install.Stored.{
  AreDifferent, IsReadBack, backup-applied, read_manifest-manifest, no_manifest, pure-updated,
}

module _ (env : Surroundings) where
  -- What an installation prepares where there was no manifest and no backup.
  record Prepares (binary path : FilePath) (d : Disk) (s : PreparedSettings) : Type 0 where
    bytes : Text
    manifest : InstallManifest
    manifest_bytes : Text
    at_path : s.path ≡ path
    original : s.original_bytes ≡ d.content path
    updated : s.updated_bytes ≡ some bytes
    stored : s.updated_manifest_bytes ≡ some manifest_bytes
    as_json : env.tools.write_manifest_json manifest ≡ ok manifest_bytes
    describes : Describes env.tools (d.content path) bytes (some binary) manifest

  prepared_Prepares :
      (binary path : FilePath) (found manifest_found : Option Text)
      (previous : Option InstallManifest) (bytes : Text) (manifest : InstallManifest)
      (manifest_bytes : Text) (d e : Disk) (s : PreparedSettings)
      → found ≡ d.content path
      → previous ≡ none
      → d.content (backup_path path) ≡ none
      → install_manifest env.tools path found previous bytes (some binary) d ≡ (ok manifest, d)
      → env.tools.write_manifest_json manifest ≡ ok manifest_bytes
      → pure
          (ok (record {
            path = path;
            original_bytes = found;
            updated_bytes = some bytes;
            original_manifest_bytes = manifest_found;
            updated_manifest_bytes = some manifest_bytes;
          }))
          d
        ≡ (ok s, e)
      → Prepares binary path d s
  prepared_Prepares binary path found manifest_found previous bytes manifest manifest_bytes d e s
        is_found nothing fresh made json h =
      let first =
        install_manifest-first env.tools path found bytes (some binary) manifest d d fresh (
          subst
            (λ p. install_manifest env.tools path found p bytes (some binary) d ≡ (ok manifest, d))
            nothing made) in
      subst (Prepares binary path d)
        (ok-injective _ s (ap (λ (r : Result PreparedSettings × Disk). r.0) h))
        (record {
          bytes = bytes;
          manifest = manifest;
          manifest_bytes = manifest_bytes;
          at_path = refl;
          original = is_found;
          updated = refl;
          stored = refl;
          as_json = json;
          describes =
              subst (λ f. Describes env.tools f bytes (some binary) manifest) is_found first.0;
        })

  prepare_install-Prepares :
      (binary : FilePath) (rtk : Option FilePath) (home : FilePath) (agent : Agent) (d e : Disk)
      (s : PreparedSettings)
      → d.content (backup_path (settings_path home agent)) ≡ none
      → d.content (manifest_path (settings_path home agent)) ≡ none
      → prepare_install env binary rtk home agent d ≡ (ok s, e)
      → Prepares binary (settings_path home agent) d s
  unfolding prepare_install read_json_or_empty read_manifest
  prepare_install-Prepares binary rtk home agent d e s no_backup no_old h =
      let path = settings_path home agent in
      let ((found, root), ready, h1) =
        >>=-eq-ok_reading (pure (env.ensure_parent path) >> read_json_or_empty env path) _ d s e
          (IsReading->>= (pure (env.ensure_parent path)) (λ u. read_json_or_empty env path)
            (λ k. refl) (λ u k. refl))
          h in
      let (updated, ok2, h2) =
        >>=-eq-ok_reading (pure (patched env agent root binary rtk)) _ d s e (λ k. refl) h1 in
      let (bytes, ok3, h3) =
        >>=-eq-ok_reading (pure (env.to_vec_pretty updated)) _ d s e (λ k. refl) h2 in
      let ((manifest_found, previous), ok4, h4) =
        >>=-eq-ok_reading (read_manifest env.tools path) _ d s e (λ k. refl) h3 in
      let (manifest, ok5, h5) =
        >>=-eq-ok_reading (install_manifest env.tools path found previous bytes (some binary)) _ d s
          e (install_manifest-IsReading env.tools path found previous bytes (some binary)) h4 in
      let (manifest_bytes, ok6, h6) =
        >>=-eq-ok_reading (pure (env.tools.write_manifest_json manifest)) _ d s e (λ k. refl) h5 in
      let found_eq : found ≡ d.content path =
        read_json_or_empty-bytes env path d found root (
          pure->>-ok (env.ensure_parent path) (read_json_or_empty env path) d (found, root)
            ready) in
      let nothing : previous ≡ none =
        no_manifest env.tools path d manifest_found previous no_old ok4 in
      prepared_Prepares binary path found manifest_found previous bytes manifest manifest_bytes d e
        s found_eq nothing no_backup
        (λ i.
          (ok5 i, install_manifest-IsReading env.tools path found previous bytes (some binary) d i))
        ok6 h6

  undo-updated :
      (original : Option Text) (root : Value) → updated_by env (undo original) root ≡ ok original
  unfolding updated_by undo
  undo-updated none root = refl
  undo-updated (some bytes) root = refl

  -- What an uninstallation writes where the installation's settings and manifest are as it left them.
  prepare_uninstall-original :
      (binary home : FilePath) (agent : Agent) (d e : Disk) (t : PreparedSettings)
      (original : Option Text) (updated manifest_bytes : Text) (m : InstallManifest)
      → d.content (settings_path home agent) ≡ some updated
      → d.content (manifest_path (settings_path home agent)) ≡ some manifest_bytes
      → env.tools.read_manifest_json manifest_bytes ≡ ok m
      → Remembers env.tools (settings_path home agent) original m d
      → m.installed_sha256 ≡ env.tools.hash_hex updated
      → prepare_uninstall env binary home agent d ≡ (ok t, e)
      → t.updated_bytes ≡ original
  unfolding prepare_uninstall read_json_or_empty read_manifest
  prepare_uninstall-original binary home agent d e t original updated manifest_bytes m settings
        stored parsed remembers installed h =
      let path = settings_path home agent in
      let ((found, root), ok1, h1) =
        >>=-eq-ok_reading (read_json_or_empty env path) _ d t e (λ k. refl) h in
      let ((manifest_found, manifest), ok2, h2) =
        >>=-eq-ok_reading (read_manifest env.tools path) _ d t e (λ k. refl) h1 in
      let (binary', ok3, h3) =
        >>=-eq-ok_reading (pure (binary_or env binary manifest)) _ d t e (λ k. refl) h2 in
      let (action, ok4, h4) =
        >>=-eq-ok_reading (uninstall_action env.tools path found manifest) _ d t e
          (uninstall_action-IsReading env.tools path found manifest) h3 in
      let (written, ok5, h5) =
        >>=-eq-ok_reading (pure (updated_by env action (surgically env agent root binary'))) _ d t e
          (λ k. refl) h4 in
      let is_found : found ≡ some updated =
        read_json_or_empty-bytes env path d found root ok1 ∙ settings in
      let is_manifest : manifest ≡ some m =
        read_manifest-manifest env.tools path manifest_bytes m d manifest_found manifest stored
          parsed ok2 in
      pure-updated _ d e t h5
      ∙ decided found manifest action written (surgically env agent root binary') is_found
          is_manifest ok4 ok5
    where
      decided :
          (found : Option Text) (manifest : Option InstallManifest) (action : UninstallAction)
          (written : Option Text) (root : Value)
          → found ≡ some updated
          → manifest ≡ some m
          → (uninstall_action env.tools (settings_path home agent) found manifest d).0 ≡ ok action
          → updated_by env action root ≡ ok written
          → written ≡ original
      decided found manifest action written root is_found is_manifest acts writes =
          let acted : (uninstall_action env.tools (settings_path home agent) (some updated) (some m)
                d).0
              ≡ ok action =
            ap (λ f. (uninstall_action env.tools (settings_path home agent) f (some m) d).0)
              (sym is_found)
            ∙ ap (λ n. (uninstall_action env.tools (settings_path home agent) found n d).0)
                (sym is_manifest)
            ∙ acts in
          let is_undo : undo original ≡ action = ok-injective _ _ (
            sym (
              ap (λ (r : Result UninstallAction × Disk). r.0)
                (uninstall_action-undo env.tools (settings_path home agent) original updated m d
                  remembers installed))
            ∙ acted) in
          ok-injective _ _ (
            sym writes ∙ ap (λ a. updated_by env a root) (sym is_undo) ∙ undo-updated original root)

  -- A first installation for an agent, with no backup and no manifest there, and then an
  -- uninstallation of what it has written, with nobody in between: the uninstallation writes what the
  -- settings were, byte by byte, and removes them where there were none. The files of the agent are to
  -- be different ones, and manifests are to be read as they are written.
  pub prepare_uninstall-prepare_install :
      (binary other_binary home : FilePath) (rtk : Option FilePath) (agent : Agent)
      (d prepared_on installed left : Disk) (s t : PreparedSettings)
      → AreDifferent (settings_path home agent)
      → IsReadBack env.tools
      → d.content (backup_path (settings_path home agent)) ≡ none
      → d.content (manifest_path (settings_path home agent)) ≡ none
      → prepare_install env binary rtk home agent d ≡ (ok s, prepared_on)
      → apply_settings env.tools.hash_hex true s d ≡ (ok tt, installed)
      → prepare_uninstall env other_binary home agent installed ≡ (ok t, left)
      → t.updated_bytes ≡ d.content (settings_path home agent)
  prepare_uninstall-prepare_install binary other_binary home rtk agent d prepared_on installed left
        s t different back no_backup no_old prepares applies removes =
      let path = settings_path home agent in
      let made =
        prepare_install-Prepares binary rtk home agent d prepared_on s no_backup no_old prepares in
      let same : s.path ≡ path = made.at_path in
      let (settings, manifest) =
        apply_settings-applied env.tools.hash_hex true s d installed
          (subst (λ p. manifest_path p ≢ p) (sym same) different.manifest_settings) applies in
      let backup =
        backup-applied env.tools s d installed (subst AreDifferent (sym same) different)
          (subst (λ p. d.content (backup_path p) ≡ none) (sym same) no_backup) applies in
      prepare_uninstall-original other_binary home agent installed left t (d.content path)
        made.bytes made.manifest_bytes made.manifest
        (subst (λ p. installed.content p ≡ some made.bytes) same (settings ∙ made.updated))
        (subst (λ p. installed.content (manifest_path p) ≡ some made.manifest_bytes) same
          (manifest ∙ made.stored))
        (back made.manifest made.manifest_bytes made.as_json)
        (record {
          existed_before = made.describes.existed_before;
          sha256 = made.describes.sha256;
          backup =
              subst (λ p. installed.content (backup_path p) ≡ some (or_empty (d.content path))) same
                (backup ∙ ap (λ o. some (or_empty o)) made.original);
        })
        made.describes.installed removes
