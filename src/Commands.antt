-- ===== src/Commands.antt =====
-- The command `config set-capacity` of src/main.rs, with `cancel` in a child, and the
-- exit code of the doctor's report (src/doctor.rs).
pub mod Configuring
pub mod Cancel
pub mod Run
pub mod Agents
use agent_gov.Base.{
  ℕ, zero, suc, ◌+◌, ◌≤◌, ◌<◌, ◌≡◌, refl, ◌≢◌, ap, sym, subst, ◌∙◌, ◌⊎◌, inl, inr, Bool, true,
  false, not, ◌&&◌, ◌||◌, Option, none, some, List, [], ◌∷◌, ◌++◌, Text, lit, text_eqb, any, length,
  if◌then◌else◌, if_true, if_false, decimal, arith, Bool-cases,
}
use agent_gov.Error.{
  Result, ok, err, panicked, GovError, invalid_input, temporary, ◌>>=◌, >>=-eq-ok, ok-injective,
}
use agent_gov.Scheduler.{Runtime, ActiveMetadata, capacity, control_name}
use agent_gov.Scheduler.Capacity.{Calls, DrainCalls, set_drain, set_capacity_transactional}
use agent_gov.Config.{Config}
use agent_gov.Config.Saving.{Write, save}
use agent_gov.Status.{active_metadata, slot_locked}

pub data Severity : Type 0 where
  fine warning error : Severity

pub record Check : Type 0 where
  pub name : Text
  pub severity : Severity
  pub detail : Text

is_error : Severity → Bool
is_error error = true
is_error s = false

is_warning : Severity → Bool
is_warning warning = true
is_warning s = false

-- `Report::exit_code`
pub report_exit_code : List Check → ℕ
report_exit_code checks =
    if any (λ c. is_error c.severity) checks
    then 2
    else if any (λ c. is_warning c.severity) checks
    then 1
    else 0

pub record_config_error : Text → List Check → List Check
record_config_error detail checks =
    record { name = lit "config"; severity = error; detail = detail } ∷ checks

-- A configuration that does not load makes the doctor fail.
record_config_error-exit_code :
    (detail : Text) (checks : List Check) → report_exit_code (record_config_error detail checks) ≡ 2
unfolding report_exit_code record_config_error is_error any
record_config_error-exit_code detail checks = refl

-- `config.scheduler.capacity = capacity`
abbrev pub with_capacity : ℕ → Config → Config
with_capacity n c = record c { scheduler = record c.scheduler { capacity = n } }

-- How the calls of `config set-capacity` end: of beginning the drain, of the change, of making ready and
-- of writing the configuration, and of ending the drain.
pub record ConfigureCalls : Type 0 where
  pub begin : DrainCalls
  pub change : Calls
  pub preparing : Option GovError
  pub store : Write
  pub resume : DrainCalls

module _ (display : GovError → Text) where
  -- `update?; resume?`
  report :
      Result (Unit {0})
      → Result (Unit {0}) × Runtime
      → Option Config
      → Result (Unit {0}) × (Runtime × Option Config)
  report (ok u) (resumed, r) stored = (resumed, (r, stored))
  report (err e) (resumed, r) stored = (err e, (r, stored))
  report panicked (resumed, r) stored = (panicked, (r, stored))

  -- After the change: a drain that the command itself began ends again.
  end_drain :
      Bool
      → DrainCalls
      → Result (Unit {0}) × (Runtime × Option Config)
      → Result (Unit {0}) × (Runtime × Option Config)
  end_drain began resume (ok u, (r, stored)) =
      report (ok u) (if began then set_drain false resume r else (ok tt, r)) stored
  end_drain began resume (err e, (r, stored)) =
      report (err e) (if began then set_drain false resume r else (ok tt, r)) stored
  end_drain began resume (panicked, q) = (panicked, q)

  -- The change, once the drain has begun: `set_drain(&runtime, true)?`.
  update :
      ℕ
      → Bool
      → ConfigureCalls
      → Config
      → Option Config
      → Result (Unit {0}) × Runtime
      → Result (Unit {0}) × (Runtime × Option Config)
  update n began calls c stored (ok u, r) = end_drain began calls.resume (
      set_capacity_transactional display (save (with_capacity n c) calls.preparing calls.store) n
        calls.change r stored)
  update n began calls c stored (err e, r) = (err e, (r, stored))
  update n began calls c stored (panicked, r) = (panicked, (r, stored))

  -- `config set-capacity N [--drain]`, on the runtime that is initialized, with the configuration that
  -- is loaded and the one that is stored.
  pub configure :
      ℕ
      → Bool
      → ConfigureCalls
      → Config
      → Runtime
      → Option Config
      → Result (Unit {0}) × (Runtime × Option Config)
  configure n drain calls c r stored =
      let began = drain && not r.draining in
      update n began calls c stored (if began then set_drain true calls.begin r else (ok tt, r))

-- What a run on concrete arguments computes through.
unfoldable pub runs : Unit {0}
unfolding is_error is_warning report_exit_code record_config_error report end_drain update configure
runs = tt
