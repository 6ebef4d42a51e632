-- ===== src/Tests/RoundTrip.antt =====
-- An installation and an uninstallation of src/install/mod.rs at concrete settings.
use agent_gov.Base
use agent_gov.Base.{
  ℕ, ◌≡◌, refl, ◌≢◌, Bool, true, false, ◌&&◌, Option, none, some, List, [], ◌∷◌, Text, lit,
  FilePath, text_eqb, text_eqb_iff, nat_eqb, arith, ap, sym, ◌∙◌, if◌then◌else◌, if_true,
  Bool-cases, inl, inr,
}
use agent_gov.Error.{ok, err, ok-injective, invalid_input}
use agent_gov.Json.{Value, Map, get, insert}
use agent_gov.Install
use agent_gov.Install.{Surroundings, Metadata, prepare_install, prepare_uninstall}
use agent_gov.Install.Files
use agent_gov.Install.Files.{Disk}
use agent_gov.Install.Commit
use agent_gov.Install.Commit.{
  PreparedSettings, manifest_path, backup_path, checksum_path, apply_settings,
}
use agent_gov.Install.Manifest
use agent_gov.Install.Manifest.{InstallManifest, ManifestTools}
use agent_gov.Install.Hooks
use agent_gov.Install.Hooks.{Agent, claude}
use agent_gov.Install.Patch
use agent_gov.Install.Stored.{AreDifferent, IsReadBack}
use agent_gov.Install.RoundTrip.{prepare_uninstall-prepare_install}

abbrev home : FilePath
unfolding lit
home = lit "/home/u"

abbrev settings : FilePath
unfolding lit
settings = lit "/home/u/.claude/settings.json"

abbrev binary : FilePath
unfolding lit
binary = lit "/opt/agent-gov"

abbrev braces : Text
unfolding lit
braces = lit "{}"

abbrev patched_text : Text
unfolding lit
patched_text = lit "{\"hooks\":0}"

abbrev manifest_text : Text
unfolding lit
manifest_text = lit "{\"schema_version\":1}"

abbrev manifest : InstallManifest
manifest = record {
  schema_version = 1;
  original_existed = true;
  original_sha256 = braces;
  installed_sha256 = patched_text;
  binary_path = binary;
}

abbrev is_manifest : InstallManifest → Bool
is_manifest m =
    nat_eqb m.schema_version 1
    && (m.original_existed
        && (text_eqb m.original_sha256 braces
            && (text_eqb m.installed_sha256 patched_text && text_eqb m.binary_path binary)))

both : (a b : Bool) → (a && b) ≡ true → (a ≡ true) × (b ≡ true)
both a b h = (ground arith, ground arith)

same_number : (n : ℕ) → nat_eqb n 1 ≡ true → n ≡ 1
same_number n h = ground arith

is_manifest-eq : (m : InstallManifest) → is_manifest m ≡ true → manifest ≡ m
is_manifest-eq m h =
    let (a, h1) = both (nat_eqb m.schema_version 1) _ h in
    let (b, h2) = both m.original_existed _ h1 in
    let (c, h3) = both (text_eqb m.original_sha256 braces) _ h2 in
    let (e, f) = both (text_eqb m.installed_sha256 patched_text) _ h3 in
    let version = sym (same_number m.schema_version a) in
    let original = sym ((text_eqb_iff m.original_sha256 braces).0 c) in
    let installed = sym ((text_eqb_iff m.installed_sha256 patched_text).0 e) in
    let path = sym ((text_eqb_iff m.binary_path binary).0 f) in
    λ i. record {
      schema_version = version i;
      original_existed = sym b i;
      original_sha256 = original i;
      installed_sha256 = installed i;
      binary_path = path i;
    }

-- One manifest has a form as a text; a text is its own digest.
abbrev tools : ManifestTools
tools = record {
  hash_hex = λ t. t;
  read_manifest_json =
      λ t. if text_eqb t manifest_text then ok manifest else err (invalid_input []);
  write_manifest_json = λ m. if is_manifest m then ok manifest_text else err (invalid_input []);
  display = λ e. [];
}

read_back : IsReadBack tools
read_back m bytes h = elim (Bool-cases (is_manifest m)) [
  | inl e ↦
      let text : manifest_text ≡ bytes =
        ok-injective _ _ (sym (if_true (is_manifest m) _ _ e) ∙ h) in
      if_true (text_eqb bytes manifest_text) _ _ ((text_eqb_iff bytes manifest_text).1 (sym text))
      ∙ ap ok (is_manifest-eq m e)
  | inr e ↦ absurd (ground (arith, e, h))
]

abbrev env : Surroundings
env = record {
  home = some home;
  lock = λ p. ok tt;
  ensure_parent = λ p. ok tt;
  metadata = λ p. ok (record { is_file = true; executable = true });
  from_slice = λ t. ok (Value.object Map.empty);
  to_vec_pretty = λ v. ok patched_text;
  split = λ t. none;
  tools = tools;
}

abbrev before : Disk
before = record {
  content = λ p. if text_eqb p settings then some braces else none;
  temps = λ p. false;
  faults = [];
}

abbrev installing : PreparedSettings
installing = record {
  path = settings;
  original_bytes = some braces;
  updated_bytes = some patched_text;
  original_manifest_bytes = none;
  updated_manifest_bytes = some manifest_text;
}

abbrev uninstalling : PreparedSettings
uninstalling = record {
  path = settings;
  original_bytes = some patched_text;
  updated_bytes = some braces;
  original_manifest_bytes = some manifest_text;
  updated_manifest_bytes = none;
}

abbrev installed : Disk
installed = (apply_settings tools.hash_hex true installing before).1

different : AreDifferent settings
unfolding Base.runs Commit.runs
different = record {
  manifest_settings = λ h. cc ((text_eqb_iff _ _).1 h);
  settings_backup = λ h. cc ((text_eqb_iff _ _).1 h);
  manifest_backup = λ h. cc ((text_eqb_iff _ _).1 h);
  checksum_backup = λ h. cc ((text_eqb_iff _ _).1 h);
}

prepare_uninstall-prepare_install_example : uninstalling.updated_bytes ≡ some braces
unfolding Base.runs Files.runs Commit.runs Manifest.runs Hooks.runs Patch.runs Install.runs get
    insert
prepare_uninstall-prepare_install_example =
    prepare_uninstall-prepare_install env binary binary home none claude before before installed
      installed installing uninstalling different read_back refl refl refl refl refl
