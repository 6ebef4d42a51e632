-- ===== src/Tests/Install.antt =====
-- The theorems on src/install/mod.rs at concrete settings.
use agent_gov.Base
use agent_gov.Base.{
  ℕ, ◌≡◌, refl, ◌≢◌, Bool, true, false, Option, none, some, List, [], ◌∷◌, Text, lit, FilePath,
  text_eqb, text_eqb_iff, arith, ap, sym, inl, inr, ◌⊎◌, nat_eqb, subst, ◌∙◌, if◌then◌else◌,
}
use agent_gov.Error.{ok, err, GovError, other, already_exists, invalid_input}
use agent_gov.Json.{Value, Map, Items, get, insert, as_array, as_str, member, to_list, from_list}
use agent_gov.Install
use agent_gov.Install.Files
use agent_gov.Install.Files.{Disk, Fault, fine, not_renamed, write_atomic, set_at}
use agent_gov.Install.Commit
use agent_gov.Install.Commit.{
  PreparedSettings, manifest_path, backup_path, commit_settings, rollback_settings,
}
use agent_gov.Install.Commit.Atomic.{
  IsIn, IsSeparate, HasOriginal, AllOrNothing, commit_settings-AllOrNothing,
}
use agent_gov.Install.Commit.Stuck.{rollback-stuck}
use agent_gov.Install.Manifest
use agent_gov.Install.Manifest.{InstallManifest, ManifestTools, UninstallAction, uninstall_action}
use agent_gov.Install.Hooks
use agent_gov.Install.Hooks.{Agent, claude, cursor, managed_hook_count}
use agent_gov.Install.Patch
use agent_gov.Install.Patch.{
  patch_claude, unpatch_claude, event_groups, with_groups, keeps_claude, retain_claude_hooks,
}
use agent_gov.Install.Patch.Claude.{
  patch_claude-managed_hook_count, patch_claude_again, unpatch_claude-patch_claude,
}
use agent_gov.Install.{Surroundings, Metadata, install}
use agent_gov.Commands
use agent_gov.Doctor.{check, check_hook}
use agent_gov.Doctor.Installed.{check_hook-patch_claude}
use agent_gov.Install.Prepared.{install-AllOrNothing}

abbrev home : FilePath
unfolding lit
home = lit "/home/u"

abbrev settings : FilePath
unfolding lit
settings = lit "/home/u/.claude/settings.json"

abbrev binary : FilePath
unfolding lit
binary = lit "/opt/agent-gov"

abbrev braces : Text
unfolding lit
braces = lit "{}"

abbrev patched_text : Text
unfolding lit
patched_text = lit "{\"hooks\":0}"

abbrev manifest_text : Text
unfolding lit
manifest_text = lit "{\"schema_version\":1}"

-- A text is its own digest.
abbrev tools : ManifestTools
tools = record {
  hash_hex = λ t. t;
  read_manifest_json = λ t. err (invalid_input []);
  write_manifest_json = λ m. ok manifest_text;
  display = λ e. [];
}

abbrev env : Surroundings
env = record {
  home = some home;
  lock = λ p. ok tt;
  ensure_parent = λ p. ok tt;
  metadata = λ p. ok (record { is_file = true; executable = true });
  from_slice = λ t. ok (Value.object Map.empty);
  to_vec_pretty = λ v. ok patched_text;
  split = λ t. none;
  tools = tools;
}

-- The settings are there, and the write of them is to fail, after the backup and its digest.
abbrev before : Disk
before = record {
  content = λ p. if text_eqb p settings then some braces else none;
  temps = λ p. false;
  faults = fine ∷ fine ∷ not_renamed other ∷ [];
}

-- The first write fails with its temporary file left.
abbrev fails : Disk
fails = record before { faults = not_renamed other ∷ [] }

abbrev entry : PreparedSettings
entry = record {
  path = settings;
  original_bytes = some braces;
  updated_bytes = some patched_text;
  original_manifest_bytes = none;
  updated_manifest_bytes = some manifest_text;
}

apart : manifest_path settings ≢ settings
unfolding Base.runs Commit.runs
apart h = absurd (cc ((text_eqb_iff (manifest_path settings) settings).1 h))

one_of : (s : PreparedSettings) → IsIn s (entry ∷ []) → s ≡ entry
one_of s (inl e) = e
one_of s (inr never) = absurd never

separate : IsSeparate (entry ∷ [])
separate = record {
  entries = λ s t hs ht. inl (one_of s hs ∙ sym (one_of t ht));
  within = λ s hs.
      subst (λ (u : PreparedSettings). manifest_path u.path ≢ u.path) (sym (one_of s hs)) apart;
}

install-AllOrNothing_example :
    AllOrNothing
      (entry ∷ [])
      separate
      tools.hash_hex
      tools.display
      (install env (claude ∷ []) binary none before)
unfolding Base.runs Files.runs Commit.runs Manifest.runs Hooks.runs Patch.runs Install.runs get
install-AllOrNothing_example =
    install-AllOrNothing env (claude ∷ []) binary home none before before (entry ∷ []) separate refl
      refl refl refl refl

commit_settings-AllOrNothing_example :
    AllOrNothing
      (entry ∷ [])
      separate
      tools.hash_hex
      tools.display
      (commit_settings tools.hash_hex tools.display (entry ∷ []) true before)
unfolding Base.runs Files.runs Commit.runs
commit_settings-AllOrNothing_example =
    commit_settings-AllOrNothing (entry ∷ []) separate tools.hash_hex tools.display true before
      (λ s hs. subst (HasOriginal before) (sym (one_of s hs)) (refl, refl))

rollback-stuck_example :
    ((rollback_settings (entry ∷ []) (settings ∷ []) (write_atomic settings patched_text fails).1).0
      ≡ err (GovError.io already_exists))
    × ((rollback_settings
          (entry ∷ [])
          (settings ∷ [])
          (write_atomic settings patched_text fails).1).1.content
        ≡ fails.content)
unfolding Base.runs Files.runs
rollback-stuck_example =
    rollback-stuck (entry ∷ []) [] entry braces patched_text other fails refl refl refl refl

abbrev manifest : InstallManifest
manifest = record {
  schema_version = 1;
  original_existed = true;
  original_sha256 = braces;
  installed_sha256 = patched_text;
  binary_path = binary;
}

-- After an installation.
abbrev after : Disk
unfolding Base.runs Commit.runs
after = record {
  content = λ p.
      if text_eqb p (backup_path settings)
      then some braces
      else (if text_eqb p settings then some patched_text else none);
  temps = λ p. false;
  faults = [];
}

abbrev no_split : Text → Option (List Text)
no_split t = none

-- A hook of somebody else for files that are read.
abbrev other_group : Value
unfolding lit
other_group = Value.object (
    Map.entry (lit "matcher") (Value.string (lit "Read")) (
      Map.entry (lit "hooks")
        (Value.array (
          Items.item
            (Value.object (Map.entry (lit "command") (Value.string (lit "/bin/true")) Map.empty))
            Items.end))
        Map.empty))

abbrev other_hooks : Map
unfolding lit
other_hooks =
    Map.entry (lit "PreToolUse") (Value.array (Items.item other_group Items.end)) Map.empty

abbrev other_root : Map
unfolding lit
other_root = Map.entry (lit "hooks") (Value.object other_hooks) Map.empty

abbrev other_patched : Value
unfolding Base.runs Hooks.runs Patch.runs Manifest.runs get insert member as_array to_list from_list
    as_str
other_patched = elim (patch_claude no_split (Value.object other_root) (some binary) none) [
  | ok v ↦ v
  | result ↦ Value.null
]

other_patched_ok :
    patch_claude no_split (Value.object other_root) (some binary) none ≡ ok other_patched
unfolding Base.runs Hooks.runs Patch.runs Manifest.runs get insert member as_array to_list from_list
    as_str
other_patched_ok = refl

patch_claude-managed_hook_count_example :
    managed_hook_count no_split other_patched claude (some binary) ≡ 1
patch_claude-managed_hook_count_example =
    patch_claude-managed_hook_count no_split (Value.object other_root) (some binary) none
      other_patched other_patched_ok

patch_claude_again_example :
    patch_claude no_split other_patched (some binary) none ≡ ok other_patched
patch_claude_again_example =
    patch_claude_again no_split (Value.object other_root) (some binary) none other_patched
      other_patched_ok

unpatch_claude-patch_claude_example :
    unpatch_claude other_patched (some binary)
    ≡ with_groups other_root other_hooks claude
        (retain_claude_hooks (keeps_claude no_split (some binary) none) (other_group ∷ []))
unfolding Base.runs Patch.runs get to_list
unpatch_claude-patch_claude_example =
    unpatch_claude-patch_claude no_split other_root other_hooks (other_group ∷ []) (some binary)
      none other_patched refl other_patched_ok

-- The settings that are read are those that were written.
abbrev reading_env : Surroundings
reading_env = record env { from_slice = λ t. ok other_patched }

check_hook-patch_claude_example :
    check_hook reading_env binary claude after
    ≡ check (lit "claude") Commands.Severity.fine (lit "one composed hook is installed")
unfolding Base.runs Commit.runs Manifest.runs Install.runs Hooks.runs Patch.runs get insert member
    as_array to_list from_list as_str
check_hook-patch_claude_example =
    check_hook-patch_claude reading_env binary (Value.object other_root) other_patched none home
      after patched_text none other_patched_ok refl refl refl refl refl
