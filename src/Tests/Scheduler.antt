-- ===== src/Tests/Scheduler.antt =====
-- The theorems on src/scheduler/, src/status.rs and the commands of src/main.rs at a concrete runtime.
use agent_gov.Base
use agent_gov.Base.{
  ℕ, ◌≤◌, ◌<◌, ◌+◌, ◌≡◌, refl, ◌≢◌, Bool, true, false, Option, none, some, List, [], ◌∷◌, Text, lit,
  length, All, arith, if◌then◌else◌, nat_eqb, ap,
}
use mathlib.Core.Option.{some-injective}
use agent_gov.Config
use agent_gov.Config.{Config, default_scheduler, default_config}
use agent_gov.Config.Saving
use agent_gov.Config.Saving.{Write, written, save}
use agent_gov.Error.{ok, GovError, io, other, permission_denied, json}
use agent_gov.Scheduler
use agent_gov.Scheduler.{Runtime, Slot, Waiter, ActiveMetadata, missing, holds, capacity, running}
use agent_gov.Scheduler.Acquire
use agent_gov.Scheduler.Acquire.{Client, round, acquired, Turn, acquire_loop, started}
use agent_gov.Scheduler.Acquire.Admission.{Started, round-Started}
use agent_gov.Scheduler.Acquire.Queue.{
  IsBounded, HasLeft, acquire_loop-IsBounded, acquire_loop-HasLeft,
}
use agent_gov.Scheduler.Capacity
use agent_gov.Scheduler.Capacity.{
  Calls, DrainCalls, set_capacity_transactional, IsIdle, set_capacity_transactional-IsIdle,
}
use agent_gov.Scheduler.Capacity.Ends.{Ends, set_capacity_transactional-Leaves}
use agent_gov.Status
use agent_gov.Status.{Status, Reports, Numbered, collect, collect-Reports}
use agent_gov.Commands.{ConfigureCalls, configure}
use agent_gov.Commands.Configuring.{Configured, configure-Configured}
use agent_gov.Commands.Cancel
use agent_gov.Commands.Cancel.{cancel, Cancellable, cancel-Cancellable}

abbrev job : Text
unfolding lit
job = lit "0123456789abcdef"

abbrev dead_job : Text
unfolding lit
dead_job = lit "00000000deadbeef"

-- Slot 0 runs a job of process 7; slot 1 has the file of a process that is dead.
abbrev slots : ℕ → Slot
unfolding lit
slots i =
    if nat_eqb i 0
    then record { lock = some 7; active = holds (running job (lit "a") 7 8 (lit "heavy")) }
    else record { lock = none; active = holds (running dead_job (lit "b") 9 10 (lit "heavy")) }

abbrev waiter : Waiter
unfolding lit
waiter = record { stamp = 5; owner = some (lit "c"); held = true }

abbrev gone : Waiter
gone = record { stamp = 3; owner = none; held = false }

abbrev busy : Runtime
busy = record {
  capacity_file = some 2;
  draining = false;
  slot = slots;
  waiters = gone ∷ waiter ∷ [];
  process_alive = λ pid. nat_eqb pid 7;
}

abbrev client : Client
unfolding lit
client = record { pid = 20; owner = lit "c"; job_id = lit "fedcba9876543210"; stamp = 6 }

round-Started_example :
    Started default_scheduler client
      (some 5)
      1
      busy
      (round default_scheduler client (some 5) busy).1
unfolding Base.runs Scheduler.runs Acquire.runs
round-Started_example = round-Started default_scheduler client (some 5) busy 1 refl

-- Nothing happens between the rounds.
abbrev quiet : Turn
quiet = record { others = λ r. r; late = false }

acquire_loop-IsBounded_example :
    IsBounded default_scheduler
      (acquire_loop default_scheduler client none (quiet ∷ quiet ∷ []) busy).1
acquire_loop-IsBounded_example =
    acquire_loop-IsBounded default_scheduler client none (quiet ∷ quiet ∷ []) busy
      ((λ s b. b), ((λ s b. b), tt)) (omega arith)

acquire_loop-HasLeft_example :
    HasLeft 5 (acquire_loop default_scheduler client (some 5) (quiet ∷ []) busy).1
unfolding Base.runs Scheduler.runs Acquire.runs
acquire_loop-HasLeft_example = acquire_loop-HasLeft default_scheduler client 5 (quiet ∷ []) busy tt

abbrev idle : Runtime
idle = record {
  capacity_file = some 1;
  draining = true;
  slot = λ i. record { lock = none; active = missing };
  waiters = [];
  process_alive = λ pid. false;
}

-- All calls go well, except that the queue lock cannot be unlocked in the end.
abbrev not_unlocked_calls : Calls
not_unlocked_calls = record {
  queue = none;
  listing = none;
  write = written;
  rollback = written;
  unlock = some (io other);
}

abbrev good_calls : Calls
good_calls = record not_unlocked_calls { unlock = none }

abbrev shown : GovError → Text
shown e = []

set_capacity_transactional-Leaves_example :
    Ends shown 2 default_config none written not_unlocked_calls idle none (
      set_capacity_transactional shown
        (save default_config none written)
        2
        not_unlocked_calls
        idle
        none)
set_capacity_transactional-Leaves_example =
    set_capacity_transactional-Leaves shown 2 default_config none written not_unlocked_calls idle
      none

changed :
    (set_capacity_transactional shown (save default_config none written) 2 good_calls idle none).1
    ≢ (idle, none)
unfolding Base.runs Scheduler.runs Capacity.runs Config.runs Saving.runs
changed h =
    let e : some 2 ≡ some 1 = ap (λ (q : Runtime × Option Config). q.0.capacity_file) h in
    let same : 2 ≡ 1 = some-injective _ _ e in omega (arith, same)

set_capacity_transactional-IsIdle_example : IsIdle 2 idle
set_capacity_transactional-IsIdle_example =
    set_capacity_transactional-IsIdle shown (save default_config none written) 2 good_calls idle
      none changed

abbrev no_error : DrainCalls
no_error = record { queue = none; change = none; unlock = none }

-- The drain that the command begins cannot be ended.
abbrev stays_drained : ConfigureCalls
stays_drained = record {
  begin = no_error;
  change = good_calls;
  preparing = none;
  store = written;
  resume = record no_error { change = some permission_denied };
}

configure-Configured_example :
    Configured 2 stays_drained default_config
      (record idle { draining = false })
      (configure shown 2 true stays_drained default_config (record idle { draining = false }) none)
configure-Configured_example =
    configure-Configured shown 2 stays_drained default_config (record idle { draining = false })
      true none

abbrev bad_json : GovError
bad_json = json []

cancel-Cancellable_example : Cancellable bad_json [] job busy 0
unfolding Base.runs Scheduler.runs Status.runs Cancel.runs
cancel-Cancellable_example = cancel-Cancellable bad_json [] job busy 0 refl

abbrev report : Status
report = record {
  schema_version = 1;
  capacity = 2;
  active =
      record { slot = 0; locked = true; metadata = some (running job (lit "a") 7 8 (lit "heavy")) }
      ∷ record {
        slot = 1;
        locked = false;
        metadata = some (running dead_job (lit "b") 9 10 (lit "heavy"));
      }
      ∷ [];
  waiting = 2;
  max_waiting = 8;
  draining = false;
}

collect-Reports_example :
    (capacity busy ≡ ok 2)
    × (length report.active ≡ 2)
    × Numbered bad_json 0 report.active
    × All (Reports bad_json busy) report.active
    × (report.waiting ≡ length busy.waiters)
    × (report.draining ≡ busy.draining)
unfolding Base.runs Scheduler.runs Status.runs
collect-Reports_example = collect-Reports bad_json busy 8 report refl
