-- ===== src/Scheduler/Acquire.antt =====
-- `Scheduler::acquire` of src/scheduler/mod.rs: one round under the queue lock, and the loop.
pub mod Admission
pub mod Queue
pub mod Locks
use agent_gov.Base.{
  ℕ, zero, suc, ◌+◌, ◌*◌, ◌/◌, ◌++◌, decimal, Bool, true, false, not, ◌&&◌, ◌||◌, Option, none,
  some, List, [], ◌∷◌, Text, lit, text_eq, text_eqb, nat_eqb, ltb, leb, min, if◌then◌else◌, length,
  filter,
}
use agent_gov.Config.{SchedulerConfig, Duration}
use agent_gov.Error.{Result, ok, err, panicked, GovError, temporary, ◌>>=◌}
use agent_gov.Scheduler.{Runtime, Waiter, try_slots, mark_starting}

-- The lease of a waiter that no process holds any more is removed.
pub prune_stale_waiters : Runtime → Runtime
prune_stale_waiters r = record r { waiters = filter (λ w. w.held) r.waiters }

remove_waiter : ℕ → List Waiter → List Waiter
remove_waiter stamp = filter (λ w. not (nat_eqb w.stamp stamp))

pub remove_lease : Option ℕ → Runtime → Runtime
remove_lease none r = r
remove_lease (some stamp) r = record r { waiters = remove_waiter stamp r.waiters }

-- The files are sorted by their names when they are listed.
insert_waiter : Waiter → List Waiter → List Waiter
insert_waiter w [] = w ∷ []
insert_waiter w (v ∷ vs) = if leb w.stamp v.stamp then w ∷ v ∷ vs else v ∷ insert_waiter w vs

pub create_lease : ℕ → Text → Runtime → Runtime
create_lease stamp owner r = record r {
  waiters = insert_waiter (record { stamp = stamp; owner = some owner; held = true }) r.waiters;
}

owned_by : Text → Option Text → Bool
owned_by owner none = false
owned_by owner (some o) = text_eqb o owner

pub owner_count : Text → List Waiter → ℕ
owner_count owner waiters = length (filter (λ w. owned_by owner w.owner) waiters)

abbrev as_secs : Duration → ℕ
as_secs d = d / 1000000000

pub enforce_admission : SchedulerConfig → Text → List Waiter → Result (Unit {0})
enforce_admission c owner waiters =
    if leb c.max_queue (length waiters)
    then err (
        temporary (
          lit "heavy queue is full; command was not started; retry after "
          ++ decimal (as_secs c.retry_after)
          ++ lit "s"))
    else if leb c.max_queued_per_owner (owner_count owner waiters)
    then err (temporary (lit "this agent already has a heavy workload queued"))
    else ok tt

-- With a lease the first waiter may try, without one only where nobody waits.
pub may_try : Option ℕ → List Waiter → Bool
may_try none [] = true
may_try none (w ∷ ws) = false
may_try (some stamp) [] = false
may_try (some stamp) (w ∷ ws) = nat_eqb w.stamp stamp

-- A process that asks for a slot, and what it draws in a round: a job id, and the stamp of a lease.
pub record Client : Type 0 where
  pub pid : ℕ
  pub owner : Text
  pub job_id : Text
  pub stamp : ℕ

-- How a round ends: with a slot, with a lease to wait on, or with an error.
pub data Round : Type 0 where
  acquired waiting : ℕ → Round
  refused : GovError → Round
  crashed : Round

admitted : Client → Runtime → Result (Unit {0}) → Round × Runtime
admitted p r (ok _) = (waiting p.stamp, create_lease p.stamp p.owner r)
admitted p r (err e) = (refused e, r)
admitted p r panicked = (crashed, r)

queue_up : SchedulerConfig → Client → Option ℕ → List Waiter → Runtime → Round × Runtime
queue_up c p (some stamp) waiters r = (waiting stamp, r)
queue_up c p none waiters r = admitted p r (enforce_admission c p.owner waiters)

settle :
    SchedulerConfig
    → Client
    → Option ℕ
    → List Waiter
    → Runtime
    → Result (Option ℕ × Runtime)
    → Round × Runtime
settle c p lease waiters before (ok (some slot, r)) =
    (acquired slot, mark_starting p.job_id p.owner p.pid slot (remove_lease lease r))
settle c p lease waiters before (ok (none, r)) = queue_up c p lease waiters r
settle c p lease waiters before (err e) = (refused e, before)
settle c p lease waiters before panicked = (crashed, before)

pub attempt : SchedulerConfig → Client → Option ℕ → Bool → Runtime → Round × Runtime
attempt c p lease false r = queue_up c p lease r.waiters r
attempt c p lease true r = settle c p lease r.waiters r (try_slots p.pid r)

-- What `acquire` does between taking the queue lock and giving it back.
pub round : SchedulerConfig → Client → Option ℕ → Runtime → Round × Runtime
round c p lease r =
    let pruned = prune_stale_waiters r in
    if pruned.draining
    then (refused (temporary (lit "governor is draining; retry later")), pruned)
    else attempt c p lease (may_try lease pruned.waiters) pruned

-- How a call ends, as far as its rounds go.
pub data Ending : Type 0 where
  started still_waiting : ℕ → Ending
  failed : GovError → Ending
  aborted : Ending

-- The others act between the rounds; `late` says whether the wait limit has passed after the round.
pub record Turn : Type 0 where
  pub others : Runtime → Runtime
  pub late : Bool

-- Behind the queue lock: a client that has waited too long, or that is refused, drops its lease.
timed_out : SchedulerConfig → GovError
timed_out c = temporary (
    lit "heavy slot unavailable after "
    ++ decimal (as_secs c.max_wait)
    ++ lit "s; command was not started; retry after "
    ++ decimal (as_secs c.retry_after)
    ++ lit "s")

pub finish :
    SchedulerConfig
    → Bool
    → Option ℕ
    → (ℕ → Runtime → Ending × Runtime)
    → Round × Runtime
    → Ending × Runtime
finish c late lease again (acquired slot, r) = (started slot, r)
finish c late lease again (refused e, r) = (failed e, remove_lease lease r)
finish c late lease again (crashed, r) = (aborted, r)
finish c late lease again (waiting stamp, r) =
    let next = again stamp r in
    if late then (failed (timed_out c), remove_lease (some stamp) r) else next

waits : Option ℕ → Ending
waits none = aborted
waits (some stamp) = still_waiting stamp

pub acquire_loop : SchedulerConfig → Client → Option ℕ → List Turn → Runtime → Ending × Runtime
acquire_loop c p lease [] r = (waits lease, r)
acquire_loop c p lease (turn ∷ turns) r =
    finish c turn.late lease (λ stamp r'. acquire_loop c p (some stamp) turns r')
      (round c p lease (turn.others r))

-- The pause doubles up to half a second, in milliseconds.
pub next_backoff : ℕ → ℕ
next_backoff backoff = min (backoff * 2) 500

-- What a run on concrete arguments computes through.
unfoldable pub runs : Unit {0}
unfolding prune_stale_waiters remove_waiter remove_lease insert_waiter create_lease owned_by
    owner_count enforce_admission may_try admitted queue_up settle attempt round timed_out finish
    waits acquire_loop next_backoff
runs = tt
