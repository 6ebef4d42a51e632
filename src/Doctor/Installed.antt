-- ===== src/Doctor/Installed.antt =====
-- The doctor of src/doctor.rs and the installer of src/install/mod.rs agree.
use agent_gov.Base.{◌≡◌, refl, ap, ◌∙◌, Option, none, some, Text, lit, FilePath}
use agent_gov.Error.{ok}
use agent_gov.Json.{Value}
use agent_gov.Install.{Surroundings, settings_path, installed_binary_path}
use agent_gov.Install.Files.{Disk}
use agent_gov.Install.Hooks.{claude, name, separate_rtk_hook_count}
use agent_gov.Install.Patch.{patch_claude}
use agent_gov.Install.Patch.Claude.{patch_claude-managed_hook_count}
use agent_gov.Commands.{fine}
use agent_gov.Doctor.{
  check, check_hook, at_home, by_content, by_value, by_manifest, by_rtk, by_count, is_replaced,
  wrong_version,
}

module _ (env : Surroundings) (binary : FilePath) where
  by_manifest-one :
      (v : Value) (installed : Option FilePath)
      → separate_rtk_hook_count env.split v claude ≡ 0
      → by_manifest env binary v claude 1 (ok installed)
        ≡ check (name claude) fine (lit "one composed hook is installed")
  unfolding by_manifest is_replaced by_rtk by_count
  by_manifest-one v none clean = rw clean refl
  by_manifest-one v (some installed) clean = rw clean refl

  -- The doctor is content with the settings of Claude that an installation has written: where they
  -- parse to what the installer has made of some settings, no hook of RTK stands apart in them, and
  -- the manifest beside them can be read, it reports one composed hook.
  pub check_hook-patch_claude :
      (root v : Value) (rtk : Option (Option Text)) (home : FilePath) (d : Disk) (bytes : Text)
      (installed : Option FilePath)
      → patch_claude env.split root (some binary) rtk ≡ ok v
      → env.home ≡ some home
      → d.content (settings_path home claude) ≡ some bytes
      → env.from_slice bytes ≡ ok v
      → (installed_binary_path env (settings_path home claude) d).0 ≡ ok installed
      → separate_rtk_hook_count env.split v claude ≡ 0
      → check_hook env binary claude d
        ≡ check (name claude) fine (lit "one composed hook is installed")
  unfolding check_hook at_home by_content by_value wrong_version
  check_hook-patch_claude root v rtk home d bytes installed patched at_home_eq read parsed manifest
        clean =
      ap (at_home env binary claude d) at_home_eq
      ∙ ap (by_content env binary claude (settings_path home claude) d) read
      ∙ ap (by_value env binary claude (settings_path home claude) d) parsed
      ∙ ap
          (λ n.
            by_manifest env binary v claude n
              (installed_binary_path env (settings_path home claude) d).0)
          (patch_claude-managed_hook_count env.split root (some binary) rtk v patched)
      ∙ ap (by_manifest env binary v claude 1) manifest
      ∙ by_manifest-one v installed clean
