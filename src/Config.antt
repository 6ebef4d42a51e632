-- ===== src/Config.antt =====
-- src/config.rs: the configuration, its defaults and its validation. Its children hold the text
-- form of durations and the laws.
pub mod Spans
pub mod Validation
pub mod Saving
use agent_gov.Base.{
  ℕ, ◌+◌, ◌*◌, Bool, true, false, not, ◌&&◌, ◌||◌, Option, none, some, List, [], ◌∷◌, ◌++◌, Text,
  lit, FilePath, is_absolute, decimal, leb, ltb, nat_eqb, if◌then◌else◌, text_eqb, length,
}
use agent_gov.Error.{Result, ok, err, ErrorKind, GovError, invalid_config, ◌>>=◌, ◌>>◌}

-- A `Duration` as its nanoseconds.
abbrev pub Duration : Type 0
Duration = ℕ

abbrev pub from_millis : ℕ → Duration
from_millis n = n * 1000000

abbrev pub from_secs : ℕ → Duration
from_secs n = n * 1000000000

pub data CustomClass : Type 0 where
  heavy light service : CustomClass

pub record CustomRule : Type 0 where
  pub id : Text
  pub argv_prefix : List Text
  pub class : CustomClass

pub record SchedulerConfig : Type 0 where
  pub capacity : ℕ
  pub max_queue : ℕ
  pub max_queued_per_owner : ℕ
  pub max_wait : Duration
  pub retry_after : Duration
  pub max_run : Duration
  pub termination_grace : Duration

pub record RtkConfig : Type 0 where
  pub enabled : Bool
  pub path : Option FilePath
  pub timeout : Duration

pub record ClassificationConfig : Type 0 where
  pub deny_background_heavy : Bool
  pub rules : List CustomRule

pub record Config : Type 0 where
  pub schema_version : ℕ
  pub scheduler : SchedulerConfig
  pub rtk : RtkConfig
  pub classification : ClassificationConfig

abbrev pub default_capacity : ℕ
default_capacity = 1

abbrev pub max_capacity : ℕ
max_capacity = 2

abbrev pub default_max_queue : ℕ
default_max_queue = 8

abbrev pub default_scheduler : SchedulerConfig
default_scheduler = record {
  capacity = default_capacity;
  max_queue = default_max_queue;
  max_queued_per_owner = 1;
  max_wait = from_secs 300;
  retry_after = from_secs 30;
  max_run = from_secs 1800;
  termination_grace = from_secs 5;
}

abbrev pub default_rtk : RtkConfig
default_rtk = record { enabled = true; path = none; timeout = from_millis 750 }

abbrev pub default_classification : ClassificationConfig
default_classification = record { deny_background_heavy = true; rules = [] }

abbrev pub default_config : Config
default_config = record {
  schema_version = 1;
  scheduler = default_scheduler;
  rtk = default_rtk;
  classification = default_classification;
}

-- `(lo..=hi).contains(&x)`
abbrev pub within : ℕ → ℕ → ℕ → Bool
within lo hi x = leb lo x && leb x hi

reject_if : Bool → Text → Result (Unit {0})
reject_if true message = err (invalid_config message)
reject_if false message = ok tt

is_empty {ℓ} : {A : Type ℓ} → List A → Bool
is_empty [] = true
is_empty (x ∷ xs) = false

relative : Option FilePath → Bool
relative none = false
relative (some p) = not (is_absolute p)

validate_rules : List CustomRule → Result (Unit {0})
unfolding is_empty reject_if
validate_rules [] = ok tt
validate_rules (rule ∷ rules) =
    reject_if (is_empty rule.id || is_empty rule.argv_prefix)
      (lit "custom rules require a non-empty id and argv_prefix")
    >> validate_rules rules

pub validate : Config → Result (Unit {0})
unfolding reject_if relative validate_rules
validate c = do
  reject_if (not (nat_eqb c.schema_version 1))
      (lit "unsupported schema version " ++ decimal c.schema_version)
  reject_if (not (within 1 max_capacity c.scheduler.capacity))
      (lit "scheduler.capacity must be 1 or 2")
  reject_if (not (within 1 64 c.scheduler.max_queue))
      (lit "scheduler.max_queue must be between 1 and 64")
  reject_if (not (within (from_secs 5) (from_secs 900) c.scheduler.max_wait))
      (lit "scheduler.max_wait must be between 5s and 15m")
  reject_if (not (within (from_millis 100) (from_secs 2) c.rtk.timeout))
      (lit "rtk.timeout must be between 100ms and 2s")
  reject_if (relative c.rtk.path) (lit "rtk.path must be absolute when configured")
  validate_rules c.classification.rules

-- What `load_from` finds at the path: no file, a read that fails, or the bytes. The TOML decoder
-- and the UTF-8 test are arguments.
pub data Found : Type 0 where
  absent : Found
  unreadable : ErrorKind → Found
  bytes : Text → Found

module _ (from_toml : Text → Result Config) (is_utf8 : Text → Bool) where
  load_bytes : Text → Result Config
  load_bytes s =
      if ltb (64 * 1024) (length s)
      then err (invalid_config (lit "configuration exceeds 64 KiB"))
      else if is_utf8 s
      then (do config ← from_toml s; validate config; ok config)
      else err (invalid_config (lit "configuration is not UTF-8"))

  pub load_from : Found → Result Config
  unfolding load_bytes
  load_from absent = ok default_config
  load_from (unreadable kind) = err (GovError.io kind)
  load_from (bytes s) = load_bytes s

  -- `load_safe_config` of src/main.rs: the defaults replace a configuration that fails to load.
  pub load_safe_config : Found → Config
  load_safe_config found = elim (load_from found) [ ok c ↦ c | _ ↦ default_config ]

-- What a run on concrete arguments computes through.
unfoldable pub runs : Unit {0}
unfolding reject_if is_empty relative validate_rules validate load_bytes load_from load_safe_config
runs = tt
