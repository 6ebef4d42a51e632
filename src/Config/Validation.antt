-- ===== src/Config/Validation.antt =====
-- Which configurations `validate` of src/config.rs lets through, and what loading guarantees.
use agent_gov.Base.{
  ◌≤◌, ◌≡◌, refl, ◌≢◌, ◌↔◌, Bool, true, false, Option, none, some, List, [], ◌∷◌, Text, FilePath,
  is_absolute, ltb, length, subst, ◌*◌, All, arith, Bool-cases, inl, inr,
}
use agent_gov.Error.{Result, ok, err, panicked, >>=-eq-ok}
use agent_gov.Config.{
  Config, CustomRule, Duration, from_millis, from_secs, default_config, validate, validate_rules,
  reject_if, is_empty, relative, Found, absent, unreadable, bytes, load_from, load_safe_config,
}

abbrev pub RuleIsValid : CustomRule → Type 0
RuleIsValid r = (r.id ≢ []) × (r.argv_prefix ≢ [])

abbrev pub PathIsValid : Option FilePath → Type 0
PathIsValid none = Unit
PathIsValid (some p) = is_absolute p ≡ true

-- The bounds that the code enforces on a configuration. It enforces none on `max_run`, for which
-- docs/product-requirements.md gives one minute to four hours.
pub record IsValid (c : Config) : Type 0 where
  pub version : c.schema_version ≡ 1
  pub capacity_min : 1 ≤ c.scheduler.capacity
  pub capacity_max : c.scheduler.capacity ≤ 2
  pub queue_min : 1 ≤ c.scheduler.max_queue
  pub queue_max : c.scheduler.max_queue ≤ 64
  pub wait_min : from_secs 5 ≤ c.scheduler.max_wait
  pub wait_max : c.scheduler.max_wait ≤ from_secs 900
  pub timeout_min : from_millis 100 ≤ c.rtk.timeout
  pub timeout_max : c.rtk.timeout ≤ from_secs 2
  pub path : PathIsValid c.rtk.path
  pub rules : All RuleIsValid c.classification.rules

reject_if-eq-ok : (b : Bool) (m : Text) → reject_if b m ≡ ok tt → b ≡ false
unfolding reject_if
reject_if-eq-ok b m h = ground arith

is_empty-false : {A : Type 0} (xs : List A) → is_empty xs ≡ false → xs ≢ []
unfolding is_empty
is_empty-false xs h e = ground arith

is_empty-true : {A : Type 0} (xs : List A) → xs ≢ [] → is_empty xs ≡ false
unfolding is_empty
is_empty-true [] h = absurd (h refl)
is_empty-true (x ∷ xs) h = refl

rules_sound : (rules : List CustomRule) → validate_rules rules ≡ ok tt → All RuleIsValid rules
unfolding validate_rules
rules_sound [] h = tt
rules_sound (r ∷ rules) h = (
  (is_empty-false r.id (ground arith), is_empty-false r.argv_prefix (ground arith)),
  rules_sound rules (ground arith),
)

rules_complete : (rules : List CustomRule) → All RuleIsValid rules → validate_rules rules ≡ ok tt
unfolding validate_rules
rules_complete [] h = refl
rules_complete (r ∷ rules) h =
    rw (is_empty-true r.id h.0.0, is_empty-true r.argv_prefix h.0.1) (rules_complete rules h.1)

path_sound : (p : Option FilePath) → relative p ≡ false → PathIsValid p
unfolding relative
path_sound none h = tt
path_sound (some p) h = ground arith

path_complete : (p : Option FilePath) → PathIsValid p → relative p ≡ false
unfolding relative
path_complete none h = refl
path_complete (some p) h = rw h

validate_sound : (c : Config) → validate c ≡ ok tt → IsValid c
unfolding validate
validate_sound c h = record {
  version = ground arith;
  capacity_min = ground arith;
  capacity_max = ground arith;
  queue_min = ground arith;
  queue_max = ground arith;
  wait_min = ground arith;
  wait_max = ground arith;
  timeout_min = ground arith;
  timeout_max = ground arith;
  path = path_sound c.rtk.path (ground arith);
  rules = rules_sound c.classification.rules (ground arith);
}

validate_complete : (c : Config) → IsValid c → validate c ≡ ok tt
unfolding validate
validate_complete c v =
    ground (arith, path_complete c.rtk.path v.path, rules_complete c.classification.rules v.rules)

abbrev pub with_max_run : Duration → Config → Config
with_max_run d c = record c { scheduler = record c.scheduler { max_run = d } }

validate-max_run : (c : Config) (d : Duration) → validate (with_max_run d c) ≡ validate c
unfolding validate
validate-max_run c d = refl

-- A configuration passes exactly when its version is 1, the capacity is 1 or 2, the queue 1 to 64,
-- the wait 5 seconds to 15 minutes and the timeout of RTK 100 milliseconds to 2 seconds, its RTK path
-- is absolute if it is set, and each of its rules has an id and a prefix. The longest run is not
-- looked at: with any other `max_run` the same configuration has the same result.
pub validate-IsValid :
    (c : Config) (d : Duration)
    → ((validate c ≡ ok tt) ↔ IsValid c) × (validate (with_max_run d c) ≡ validate c)
validate-IsValid c d = ((validate_sound c, validate_complete c), validate-max_run c d)

default_config-IsValid : IsValid default_config
default_config-IsValid = record {
  version = refl;
  capacity_min = omega arith;
  capacity_max = omega arith;
  queue_min = omega arith;
  queue_max = omega arith;
  wait_min = omega arith;
  wait_max = omega arith;
  timeout_min = omega arith;
  timeout_max = omega arith;
  path = tt;
  rules = tt;
}

module _ (from_toml : Text → Result Config) (is_utf8 : Text → Bool) where
  load_from-IsValid :
      (found : Found) (c : Config) → load_from from_toml is_utf8 found ≡ ok c → IsValid c
  unfolding load_from
  load_from-IsValid absent c h = subst IsValid (cc) default_config-IsValid
  load_from-IsValid (unreadable kind) c h = absurd (cc)
  load_from-IsValid (bytes s) c h = elim (Bool-cases (ltb (64 * 1024) (length s))) [
    | inl large ↦ absurd (ground arith)
    | inr fits ↦ elim (Bool-cases (is_utf8 s)) [
      | inr no_text ↦ absurd (ground arith)
      | inl is_text ↦
          let (d, decoded, rest) = >>=-eq-ok (from_toml s) _ (rw (fits, is_text) at h) in
          let (u, passed, same) = >>=-eq-ok (validate d) _ rest in
          subst IsValid (ground arith) (validate_sound d passed)
    ]
  ]

  -- Whatever stands at the path, and whatever the decoder makes of it, the configuration that a
  -- command goes on with has version 1, a capacity of 1 or 2, a queue of 1 to 64, a wait of 5 seconds
  -- to 15 minutes, an RTK timeout of 100 milliseconds to 2 seconds, an absolute RTK path if any, and
  -- rules with an id and a prefix. Its longest run may be any.
  pub load_safe_config-IsValid :
      (found : Found) → IsValid (load_safe_config from_toml is_utf8 found)
  unfolding load_safe_config
  load_safe_config-IsValid found = go (load_from from_toml is_utf8 found) refl
    where
      go :
          (r : Result Config)
          → load_from from_toml is_utf8 found ≡ r
          → IsValid (elim r [ ok c ↦ c | _ ↦ default_config ])
      go (ok c) e = load_from-IsValid found c e
      go (err e') e = default_config-IsValid
      go panicked e = default_config-IsValid
