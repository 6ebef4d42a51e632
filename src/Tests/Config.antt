-- ===== src/Tests/Config.antt =====
-- The theorems on src/config.rs at concrete values.
use agent_gov.Base.{◌≡◌, ◌↔◌, ◌-◌, ◌%◌, true, some, lit, arith}
use agent_gov.Config.{Config, default_config, validate, bytes, load_safe_config}
use agent_gov.Config.Spans.{serialize, parse, parse-serialize}
use agent_gov.Config.Validation.{IsValid, with_max_run, validate-IsValid, load_safe_config-IsValid}
use agent_gov.Error.{ok}

parse-serialize_example : parse (serialize 1500000007) ≡ some (1500000007 - 1500000007 % 1000000)
parse-serialize_example = parse-serialize 1500000007 (omega arith)

validate-IsValid_example :
    ((validate default_config ≡ ok tt) ↔ IsValid default_config)
    × (validate (with_max_run 0 default_config) ≡ validate default_config)
validate-IsValid_example = validate-IsValid default_config 0

-- A file that asks for nine slots.
abbrev greedy : Config
greedy = record default_config { scheduler = record default_config.scheduler { capacity = 9 } }

load_safe_config-IsValid_example :
    IsValid (load_safe_config (λ s. ok greedy) (λ s. true) (bytes (lit "capacity = 9")))
load_safe_config-IsValid_example =
    load_safe_config-IsValid (λ s. ok greedy) (λ s. true) (bytes (lit "capacity = 9"))
