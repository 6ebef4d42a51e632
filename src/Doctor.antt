-- ===== src/Doctor.antt =====
-- src/doctor.rs: what the doctor checks, and its report. The version and the architecture are arguments,
-- as are the environment and what the file system tells of programs; a text is read off the disk.
pub mod Installed
use agent_gov.Base.{
  ℕ, Bool, true, false, not, ◌&&◌, ◌||◌, Option, none, some, List, [], ◌∷◌, ◌++◌, Text, lit,
  FilePath, text_eqb, nat_eqb, ltb, decimal, length, if◌then◌else◌,
}
use agent_gov.Error.{Result, ok, err, panicked, GovError}
use agent_gov.Config.{Config, within}
use agent_gov.Json.{Value, as_u64, member}
use agent_gov.Install.{Surroundings, Metadata, settings_path, installed_binary_path}
use agent_gov.Install.Files.{Disk}
use agent_gov.Install.Hooks.{
  Agent, claude, cursor, name, managed_hook_count, separate_rtk_hook_count, managed_rtk_paths,
}
use agent_gov.Scheduler.{Runtime, capacity}
use agent_gov.Status.{join}
use agent_gov.Commands.{Severity, fine, warning, error, Check}

abbrev pub check : Text → Severity → Text → Check
check name severity detail = record { name = name; severity = severity; detail = detail }

icon : Severity → Text
icon fine = lit "ok"
icon warning = lit "warn"
icon error = lit "error"

line : Check → Text
line c = lit "[" ++ icon c.severity ++ lit "] " ++ c.name ++ lit ": " ++ c.detail

lines : List Check → List Text
lines [] = []
lines (c ∷ cs) = line c ∷ lines cs

-- `Report::human`
pub human : List Check → Text
human checks = join (10 ∷ []) (lines checks)

-- Cursor's settings have to be of version 1.
wrong_version : Agent → Option ℕ → Bool
wrong_version claude version = false
wrong_version cursor none = true
wrong_version cursor (some n) = not (nat_eqb n 1)

is_executable : Result Metadata → Bool
is_executable (ok m) = m.is_file && m.executable
is_executable result = false

-- Each path once, which is what sorting and `dedup` leave but for the order.
dedup_into : FilePath → List FilePath → List FilePath
dedup_into p [] = p ∷ []
dedup_into p (q ∷ qs) = let rest = dedup_into p qs in if text_eqb p q then q ∷ qs else q ∷ rest

pub dedup : List FilePath → List FilePath
dedup [] = []
dedup (p ∷ ps) = dedup_into p (dedup ps)

module _ (env : Surroundings) (binary : FilePath) where
  -- The number of the program's own hooks, where the manifest can be read.
  by_count : Agent → ℕ → Check
  by_count agent count =
      if nat_eqb count 1
      then check (name agent) fine (lit "one composed hook is installed")
      else (if nat_eqb count 0
          then check (name agent) warning (lit "agent-gov hook not found")
          else check (name agent) error
              (lit "found " ++ decimal count ++ lit " agent-gov references; expected exactly one"))

  by_rtk : Agent → ℕ → ℕ → Check
  by_rtk agent count rtk_count =
      if ltb 0 rtk_count
      then check (name agent) error (
          lit "found "
          ++ decimal rtk_count
          ++ lit " separate RTK hook(s); rerun install --with-rtk to compose them")
      else by_count agent count

  -- The hook of a binary that the manifest tells of and that is another one.
  is_replaced : Value → Agent → ℕ → FilePath → Bool
  is_replaced value agent count installed =
      nat_eqb count 0
      && not (text_eqb installed binary)
      && nat_eqb (managed_hook_count env.split value agent (some installed)) 1

  by_manifest : Value → Agent → ℕ → Result (Option FilePath) → Check
  by_manifest value agent count (err e) =
      check (name agent) error (lit "install manifest is invalid: " ++ env.tools.display e)
  by_manifest value agent count panicked = check (name agent) error []
  by_manifest value agent count (ok none) =
      by_rtk agent count (separate_rtk_hook_count env.split value agent)
  by_manifest value agent count (ok (some installed)) =
      if is_replaced value agent count installed
      then check (name agent) error
          (lit "hook points to replaced binary " ++ installed ++ lit "; rerun install")
      else by_rtk agent count (separate_rtk_hook_count env.split value agent)

  by_value : Agent → FilePath → Disk → Result Value → Check
  by_value agent path d (ok value) =
      if wrong_version agent (as_u64 (member value (lit "version")))
      then check (name agent) error (lit "Cursor hook schema version must be 1")
      else by_manifest value agent (managed_hook_count env.split value agent (some binary))
          (installed_binary_path env path d).0
  by_value agent path d result = check (name agent) error (lit "settings JSON is invalid")

  by_content : Agent → FilePath → Disk → Option Text → Check
  by_content agent path d none =
      check (name agent) warning (lit "hook is not installed at " ++ path)
  by_content agent path d (some bytes) = by_value agent path d (env.from_slice bytes)

  at_home : Agent → Disk → Option FilePath → Check
  at_home agent d none = check (name agent) error (lit "HOME is not defined")
  at_home agent d (some home) =
      by_content agent (settings_path home agent) d (d.content (settings_path home agent))

  pub check_hook : Agent → Disk → Check
  check_hook agent d = at_home agent d env.home

  rtk_paths_of : Agent → Result Value → List FilePath
  rtk_paths_of agent (ok value) = managed_rtk_paths env.split value agent (some binary)
  rtk_paths_of agent result = []

  rtk_paths_in : Agent → Option Text → List FilePath
  rtk_paths_in agent none = []
  rtk_paths_in agent (some bytes) = rtk_paths_of agent (env.from_slice bytes)

  paths_at_home : Disk → Option FilePath → List FilePath
  paths_at_home d none = []
  paths_at_home d (some home) =
      rtk_paths_in claude (d.content (settings_path home claude))
      ++ rtk_paths_in cursor (d.content (settings_path home cursor))

  pub composed_rtk_paths : Disk → List FilePath
  composed_rtk_paths d = paths_at_home d env.home

  by_path : Option FilePath → Check
  by_path none =
      check (lit "rtk") warning (lit "no absolute RTK path configured; governance remains active")
  by_path (some path) =
      if is_executable (env.metadata path)
      then check (lit "rtk") fine (lit "configured at " ++ path)
      else check (lit "rtk") warning (lit "configured path " ++ path ++ lit " is unavailable")

  by_paths : Option FilePath → List FilePath → Check
  by_paths configured [] = by_path configured
  by_paths none (composed ∷ []) = by_path (some composed)
  by_paths (some configured) (composed ∷ []) =
      if not (text_eqb configured composed)
      then check (lit "rtk") error (
          lit "configured path "
          ++ configured
          ++ lit " differs from composed hook path "
          ++ composed)
      else by_path (some composed)
  by_paths configured (p ∷ q ∷ ps) =
      check (lit "rtk") error (lit "composed hooks use different RTK paths")

  pub check_rtk : Config → Disk → Check
  check_rtk config d =
      if not config.rtk.enabled
      then check (lit "rtk") warning (lit "integration disabled")
      else by_paths config.rtk.path (dedup (composed_rtk_paths d))

  check_runtime : FilePath → Result (Unit {0}) → Check
  check_runtime root (ok u) = check (lit "runtime") fine (root ++ lit " has private permissions")
  check_runtime root (err e) = check (lit "runtime") error (env.tools.display e)
  check_runtime root panicked = check (lit "runtime") error []

  check_capacity : ℕ → Result ℕ → Check
  check_capacity configured (ok n) =
      if within 1 2 n
      then (if nat_eqb n configured
          then check (lit "capacity") fine (lit "configured and applied capacity is " ++ decimal n)
          else check (lit "capacity") error (
              lit "configured capacity "
              ++ decimal configured
              ++ lit " differs from applied capacity "
              ++ decimal n
              ++ lit "; drain and reapply configuration"))
      else check (lit "capacity") error (lit "invalid capacity " ++ decimal n)
  check_capacity configured (err e) = check (lit "capacity") error (env.tools.display e)
  check_capacity configured panicked = check (lit "capacity") error []

  -- `Report::run`; `valid` is how the check of the runtime directory ends.
  pub run_checks : Text → Config → FilePath → Result (Unit {0}) → Runtime → Disk → List Check
  run_checks version config root valid r d =
      check (lit "binary") fine (lit "agent-gov " ++ version)
      ∷ check_runtime root valid
      ∷ check_capacity config.scheduler.capacity (capacity r)
      ∷ check_rtk config d
      ∷ check_hook claude d
      ∷ check_hook cursor d
      ∷ []

-- What a run on concrete arguments computes through.
unfoldable pub runs : Unit {0}
unfolding icon line lines human wrong_version is_executable dedup_into dedup by_count by_rtk
    is_replaced by_manifest by_value by_content at_home check_hook rtk_paths_of rtk_paths_in
    paths_at_home composed_rtk_paths by_path by_paths check_rtk check_runtime check_capacity
    run_checks
runs = tt
