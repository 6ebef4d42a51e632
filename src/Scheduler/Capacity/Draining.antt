-- ===== src/Scheduler/Capacity/Draining.antt =====
-- What `set_drain` of src/scheduler/mod.rs leaves.
use agent_gov.Base.{◌≡◌, refl, Bool, true, false, Option, none, some}
use agent_gov.Error.{
  Result, ok, err, ErrorKind, not_found, permission_denied, already_exists, other, GovError,
}
use agent_gov.Scheduler.{Runtime}
use agent_gov.Scheduler.Capacity.{DrainCalls, set_drain, drain_from, create, raise, lower, unlocked}

-- Nothing but the drain flag may differ.
pub record IsFlagOnly (r r' : Runtime) : Type 0 where
  pub capacity : r'.capacity_file ≡ r.capacity_file
  pub slots : r'.slot ≡ r.slot
  pub waiters : r'.waiters ≡ r.waiters

-- How `set_drain` ends, by its result: the flag is as asked for; an error came before it could change;
-- it could not be changed; or it is as asked for and the queue lock could not be unlocked.
pub data Drained (enabled : Bool) (calls : DrainCalls) (r r' : Runtime)
    : Result (Unit {0}) → Type 0 where
  done : r'.draining ≡ enabled → Drained enabled calls r r' (ok tt)
  not_locked :
      (f e : GovError)
      → calls.queue ≡ some f
      → r'.draining ≡ r.draining
      → Drained enabled calls r r' (err e)
  not_changed :
      (kind : ErrorKind) (e : GovError)
      → calls.change ≡ some kind
      → r'.draining ≡ r.draining
      → Drained enabled calls r r' (err e)
  not_unlocked :
      (e : GovError)
      → calls.unlock ≡ some e
      → r'.draining ≡ enabled
      → Drained enabled calls r r' (err e)

-- The outcome of a call that changes the flag.
abbrev Outcome : Bool → DrainCalls → Runtime → Result (Unit {0}) × Runtime → Type 0
Outcome enabled calls r (o, r') = Drained enabled calls r r' o × IsFlagOnly r r'

flag_only : (r : Runtime) (flag : Bool) → IsFlagOnly r (record r { draining = flag })
flag_only r flag = record { capacity = refl; slots = refl; waiters = refl }

lower-Outcome :
    (calls : DrainCalls) (r : Runtime) (flag : Bool) (change : Option ErrorKind)
    → r.draining ≡ flag
    → calls.change ≡ change
    → Outcome false calls r (lower flag change r)
unfolding lower
lower-Outcome calls r false change d h = (done d, flag_only r r.draining)
lower-Outcome calls r true none d h = (done refl, flag_only r false)
lower-Outcome calls r true (some not_found) d h = (done refl, flag_only r false)
lower-Outcome calls r true (some permission_denied) d h =
    (not_changed permission_denied _ h refl, flag_only r r.draining)
lower-Outcome calls r true (some already_exists) d h =
    (not_changed already_exists _ h refl, flag_only r r.draining)
lower-Outcome calls r true (some other) d h = (not_changed other _ h refl, flag_only r r.draining)

unlocked-Outcome :
    (enabled : Bool) (calls : DrainCalls) (r r' : Runtime) (o : Result (Unit {0}))
    (unlock : Option GovError)
    → calls.unlock ≡ unlock
    → Drained enabled calls r r' o
    → IsFlagOnly r r'
    → Outcome enabled calls r (unlocked unlock (o, r'))
unfolding unlocked
unlocked-Outcome enabled calls r r' o none h d f = (d, f)
unlocked-Outcome enabled calls r r' _ (some e) h (done k) f = (not_unlocked e h k, f)
unlocked-Outcome enabled calls r r' _ (some e) h (not_locked f' g k same) f =
    (not_locked f' e k same, f)
unlocked-Outcome enabled calls r r' _ (some e) h (not_changed kind g k same) f =
    (not_changed kind e k same, f)
unlocked-Outcome enabled calls r r' _ (some e) h (not_unlocked g k same) f =
    (not_unlocked e h same, f)

create-Outcome :
    (calls : DrainCalls) (r : Runtime) (change : Option ErrorKind)
    → calls.change ≡ change
    → Outcome true calls r (create change calls.unlock r)
unfolding create
create-Outcome calls r none h =
    unlocked-Outcome true calls r (record r { draining = true }) (ok tt) calls.unlock refl
      (done refl) (flag_only r true)
create-Outcome calls r (some kind) h = (not_changed kind _ h refl, flag_only r r.draining)

raise-Outcome :
    (calls : DrainCalls) (r : Runtime) (flag : Bool)
    → r.draining ≡ flag
    → Outcome true calls r (raise flag calls r)
unfolding raise
raise-Outcome calls r true d =
    unlocked-Outcome true calls r r (ok tt) calls.unlock refl (done d) (flag_only r r.draining)
raise-Outcome calls r false d = create-Outcome calls r calls.change refl

drain_from-Outcome :
    (enabled : Bool) (calls : DrainCalls) (r : Runtime) (queue : Option GovError)
    → calls.queue ≡ queue
    → Outcome enabled calls r (drain_from queue enabled calls r)
unfolding drain_from
drain_from-Outcome enabled calls r (some e) h = (not_locked e e h refl, flag_only r r.draining)
drain_from-Outcome true calls r none h = raise-Outcome calls r r.draining refl
drain_from-Outcome false calls r none h =
    let (d, f) = lower-Outcome calls r r.draining calls.change refl refl in
    unlocked-Outcome false calls r _ _ calls.unlock refl d f

pub set_drain-Drained :
    (enabled : Bool) (calls : DrainCalls) (r : Runtime)
    → Drained enabled calls r (set_drain enabled calls r).1 (set_drain enabled calls r).0
unfolding set_drain
set_drain-Drained enabled calls r = (drain_from-Outcome enabled calls r calls.queue refl).0

pub set_drain-IsFlagOnly :
    (enabled : Bool) (calls : DrainCalls) (r : Runtime) → IsFlagOnly r (set_drain enabled calls r).1
unfolding set_drain
set_drain-IsFlagOnly enabled calls r = (drain_from-Outcome enabled calls r calls.queue refl).1
