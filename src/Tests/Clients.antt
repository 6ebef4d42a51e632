-- ===== src/Tests/Clients.antt =====
-- The theorems on the clients of src/scheduler/ at concrete clients.
use agent_gov.Base
use agent_gov.Base.{
  ℕ, ◌≤◌, ◌≡◌, refl, true, false, Option, none, some, List, [], ◌∷◌, Text, lit, length, nat_eqb,
  inl,
}
use agent_gov.Config.{default_scheduler}
use agent_gov.Scheduler
use agent_gov.Scheduler.{Runtime, missing}
use agent_gov.Scheduler.Acquire
use agent_gov.Scheduler.Acquire.{Client, round}
use agent_gov.Scheduler.Clients.{System, gain, enters, stays, goes_on}
use agent_gov.Scheduler.Clients.Semaphore.{IsExclusive, Refines, Step-Refines, Steps-IsExclusive}

abbrev runtime : Runtime
runtime = record {
  capacity_file = some 2;
  draining = false;
  slot = λ i. record { lock = none; active = missing };
  waiters = [];
  process_alive = λ pid. true;
}

abbrev first : Client
unfolding lit
first = record { pid = 20; owner = lit "a"; job_id = lit "fedcba9876543210"; stamp = 6 }

abbrev second : Client
unfolding lit
second = record { pid = 22; owner = lit "b"; job_id = lit "0123456789abcdef"; stamp = 7 }

abbrev start : System
start = record { runtime = runtime; permits = [] }

abbrev entered : Client → System → System
entered p s = record {
  runtime = (round default_scheduler p none s.runtime).1;
  permits = gain p.pid (round default_scheduler p none s.runtime).0 s.permits;
}

nobody : IsExclusive start
nobody = record { held = tt; distinct = tt }

Step-Refines_example : Refines start (entered first start)
Step-Refines_example =
    Step-Refines start (entered first start) nobody (enters default_scheduler first none runtime [])

abbrev one : System
one = entered first start

abbrev two : System
two = entered second one

-- Both are let in.
both : two.permits ≡ record { slot = 1; pid = 22 } ∷ record { slot = 0; pid = 20 } ∷ []
unfolding Base.runs Scheduler.runs Acquire.runs gain
both = refl

Steps-IsExclusive_example : IsExclusive two × (length two.permits ≤ 2)
Steps-IsExclusive_example = Steps-IsExclusive start two nobody (
    goes_on one two
      (goes_on start one stays (enters default_scheduler first none start.runtime start.permits))
      (enters default_scheduler second none one.runtime one.permits))
