-- ===== src/Scheduler/Clients.antt =====
-- Several clients on one runtime directory: the steps that they, the kernel and the commands take, one
-- after another. A round of `acquire` in src/scheduler/mod.rs is one step, since it holds the queue lock.
pub mod Semaphore
use agent_gov.Base.{
  ℕ, ◌≡◌, Bool, true, false, not, Option, none, some, List, [], ◌∷◌, Text, nat_eqb, filter,
  if◌then◌else◌, inl, inr, ◌⊎◌,
}
use agent_gov.Config.{SchedulerConfig}
use agent_gov.Scheduler.{Runtime, Slot, Waiter, mark_running, drop_permit}
use agent_gov.Scheduler.Acquire.{Client, Round, acquired, waiting, refused, crashed, round}
use agent_gov.Scheduler.Capacity.{set_drain}

-- A permit that a process holds.
pub record Permit : Type 0 where
  pub slot : ℕ
  pub pid : ℕ

pub record System : Type 0 where
  pub runtime : Runtime
  pub permits : List Permit

-- What a round adds to the permits.
unfoldable pub gain : ℕ → Round → List Permit → List Permit
gain pid (acquired slot) ps = record { slot = slot; pid = pid } ∷ ps
gain pid (waiting stamp) ps = ps
gain pid (refused e) ps = ps
gain pid crashed ps = ps

unfoldable pub without_slot : ℕ → List Permit → List Permit
without_slot i ps = filter (λ p. not (nat_eqb p.slot i)) ps

unfoldable pub without_pid : ℕ → List Permit → List Permit
without_pid pid ps = filter (λ p. not (nat_eqb p.pid pid)) ps

unfoldable pub freed : ℕ → Option ℕ → Option ℕ
freed pid none = none
freed pid (some holder) = if nat_eqb holder pid then none else some holder

-- The kernel gives back the locks of a process that ends. The leases that it held are among those whose
-- lock is free from then on.
unfoldable pub end_process : ℕ → List Waiter → Runtime → Runtime
end_process pid waiters r = record r {
  slot = λ i. record (r.slot i) { lock = freed pid (r.slot i).lock };
  waiters = waiters;
  process_alive = λ q. if nat_eqb q pid then false else r.process_alive q;
}

abbrev pub IsIn : Permit → List Permit → Type 0
IsIn p [] = ⊥
IsIn p (q ∷ qs) = (p ≡ q) ⊎ IsIn p qs

-- A step of one client, of the kernel, or of a command.
pub data Step : System → System → Type 0 where
  enters :
      (c : SchedulerConfig) (p : Client) (lease : Option ℕ) (r : Runtime) (ps : List Permit)
      → Step
          (record { runtime = r; permits = ps })
          (record {
            runtime = (round c p lease r).1;
            permits = gain p.pid (round c p lease r).0 ps;
          })
  marks :
      (job_id owner label : Text) (child : ℕ) (p : Permit) (r : Runtime) (ps : List Permit)
      → IsIn p ps
      → Step
          (record { runtime = r; permits = ps })
          (record { runtime = mark_running job_id owner p.pid child label p.slot r; permits = ps })
  leaves :
      (p : Permit) (removed : Bool) (r : Runtime) (ps : List Permit)
      → IsIn p ps
      → Step
          (record { runtime = r; permits = ps })
          (record { runtime = drop_permit removed p.slot r; permits = without_slot p.slot ps })
  ends :
      (pid : ℕ) (waiters : List Waiter) (r : Runtime) (ps : List Permit)
      → Step
          (record { runtime = r; permits = ps })
          (record { runtime = end_process pid waiters r; permits = without_pid pid ps })
  begins :
      (alive : ℕ → Bool) (r : Runtime) (ps : List Permit)
      → Step
          (record { runtime = r; permits = ps })
          (record { runtime = record r { process_alive = alive }; permits = ps })
  leases :
      (waiters : List Waiter) (r : Runtime) (ps : List Permit)
      → Step
          (record { runtime = r; permits = ps })
          (record { runtime = record r { waiters = waiters }; permits = ps })
  resizes :
      (capacity : Option ℕ) (draining : Bool) (r : Runtime) (ps : List Permit)
      → Step
          (record { runtime = r; permits = ps })
          (record {
            runtime = record r { capacity_file = capacity; draining = draining };
            permits = ps;
          })

-- Runs of any length.
pub data Steps (s : System) : System → Type 0 where
  stays : Steps s s
  goes_on : (t u : System) → Steps s t → Step t u → Steps s u
