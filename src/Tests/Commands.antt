-- ===== src/Tests/Commands.antt =====
-- The theorems on src/main.rs at concrete arguments.
use agent_gov.Base
use agent_gov.Base.{ℕ, ◌≡◌, refl, ◌≢◌, Bool, true, false, none, some, List, [], ◌∷◌, Text, lit, ◌∙◌}
use agent_gov.Error.{ok, err, io, other}
use agent_gov.Install.Hooks.{claude, cursor}
use agent_gov.Config.{default_scheduler}
use agent_gov.Scheduler
use agent_gov.Scheduler.{Runtime, holds, starting}
use agent_gov.Scheduler.Acquire
use agent_gov.Scheduler.Acquire.Locks.{IsWithoutLock}
use agent_gov.Supervisor
use agent_gov.Supervisor.{signaled, exited}
use agent_gov.Commands.Agents
use agent_gov.Commands.Agents.{parse_agents, IsSelection, parse_agents-IsSelection}
use agent_gov.Commands.Run
use agent_gov.Commands.Run.{RunArgs, Calls, IsAlone, run, run-IsWithoutLock}

parse_agents-IsSelection_example :
    IsSelection (cursor ∷ claude ∷ []) × ((cursor ∷ claude ∷ []) ≢ [])
unfolding Base.runs Agents.runs
parse_agents-IsSelection_example =
    parse_agents-IsSelection (lit " cursor,,claude , cursor") (cursor ∷ claude ∷ []) refl

-- One slot, whose file a process that has ended left behind.
abbrev open_slot : Runtime
unfolding lit starting
open_slot = record {
  capacity_file = some 1;
  draining = false;
  slot =
      λ i. record { lock = none; active = holds (starting (lit "0123456789abcdef") (lit "a") 7) };
  waiters = [];
  process_alive = λ pid. false;
}

-- The child ends with a code of 3, and the active file cannot be removed.
abbrev calls : Calls
unfolding lit
calls = record {
  number = λ s. 15;
  open_scheduler = ok default_scheduler;
  client = record { pid = 20; owner = lit "a"; job_id = lit "fedcba9876543210"; stamp = 1 };
  turns = record { others = λ r. r; late = false } ∷ [];
  supervise = λ slot owner label words r. (ok (Supervisor.direct (exited 3)), r);
  removed = false;
  spawn = λ program words. err (io other);
}

abbrev args : RunArgs
unfolding lit
args = record {
  pool = lit "heavy";
  owner = lit "a";
  label = lit "heavy";
  command = lit "cargo" ∷ lit "build" ∷ [];
}

run_code : (run calls args false open_slot).0 ≡ some (ok 3)
unfolding Base.runs Supervisor.runs Scheduler.runs Acquire.runs Run.runs
run_code = refl

no_lock : IsWithoutLock 20 open_slot
unfolding open_slot
no_lock i h = cc

run-IsWithoutLock_example : IsWithoutLock 20 (run calls args false open_slot).1
unfolding calls
run-IsWithoutLock_example =
    run-IsWithoutLock calls args false open_slot
      (record {
        between = ((λ s free. free), tt);
        during = λ slot label program words s free. free;
      })
      no_lock
