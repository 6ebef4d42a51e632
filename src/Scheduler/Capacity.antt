-- ===== src/Scheduler/Capacity.antt =====
-- `set_drain` and `set_capacity_transactional` of src/scheduler/mod.rs. How the calls of the operating
-- system end is given: opening and locking the queue lock, the writes, and the unlocking.
pub mod Ends
pub mod Draining
use agent_gov.Base.{
  ℕ, ◌≤◌, ◌≡◌, refl, ◌≢◌, ap, sym, ◌∙◌, ◌⊎◌, inl, inr, Bool, true, false, not, ◌||◌, Option, none,
  some, List, [], ◌∷◌, Text, lit, ◌++◌, ltb, if◌then◌else◌, arith,
}
use agent_gov.Config.{within}
use agent_gov.Config.Saving.{Write, written, not_written, not_synced}
use agent_gov.Error.{
  Result, ok, err, panicked, ErrorKind, not_found, GovError, temporary, internal, invalid_config,
}
use agent_gov.Scheduler.{Runtime, Waiter, capacity, checked_capacity, active_count}

-- How the calls of `set_drain` end, `none` where they succeed: opening and locking the queue lock;
-- creating or removing the flag; unlocking.
pub record DrainCalls : Type 0 where
  pub queue : Option GovError
  pub change : Option ErrorKind
  pub unlock : Option GovError

-- `unlock(&queue)?; result`
unlocked : Option GovError → Result (Unit {0}) × Runtime → Result (Unit {0}) × Runtime
unlocked none q = q
unlocked (some e) q = (err e, q.1)

create : Option ErrorKind → Option GovError → Runtime → Result (Unit {0}) × Runtime
create none unlock r = unlocked unlock (ok tt, record r { draining = true })
create (some kind) unlock r = (err (GovError.io kind), r)

-- A flag that is there is not created again; where creating it fails, its error is returned at once.
raise : Bool → DrainCalls → Runtime → Result (Unit {0}) × Runtime
raise true calls r = unlocked calls.unlock (ok tt, r)
raise false calls r = create calls.change calls.unlock r

-- Removing a flag that is not there gives `NotFound`, which is no error.
lower : Bool → Option ErrorKind → Runtime → Result (Unit {0}) × Runtime
lower false change r = (ok tt, r)
lower true none r = (ok tt, record r { draining = false })
lower true (some not_found) r = (ok tt, record r { draining = false })
lower true (some kind) r = (err (GovError.io kind), r)

drain_from : Option GovError → Bool → DrainCalls → Runtime → Result (Unit {0}) × Runtime
drain_from (some e) enabled calls r = (err e, r)
drain_from none true calls r = raise r.draining calls r
drain_from none false calls r = unlocked calls.unlock (lower r.draining calls.change r)

pub set_drain : Bool → DrainCalls → Runtime → Result (Unit {0}) × Runtime
set_drain enabled calls r = drain_from calls.queue enabled calls r

unfoldable pub write_capacity : ℕ → Runtime → Runtime
write_capacity n r = record r { capacity_file = some n }

nobody_waits : List Waiter → Bool
nobody_waits [] = true
nobody_waits (w ∷ ws) = false

-- How the calls of a change end: opening and locking the queue lock, listing the leases, writing the
-- capacity, writing the old capacity back, and unlocking.
pub record Calls : Type 0 where
  pub queue : Option GovError
  pub listing : Option GovError
  pub write : Write
  pub rollback : Write
  pub unlock : Option GovError

nobody_waits-nil : (ws : List Waiter) → nobody_waits ws ≡ true → ws ≡ []
unfolding nobody_waits
nobody_waits-nil [] h = refl
nobody_waits-nil (w ∷ ws) h = absurd (cc)

-- When the capacity may change.
pub record IsIdle (n : ℕ) (r : Runtime) : Type 0 where
  pub in_range : (1 ≤ n) × (n ≤ 2)
  pub drained : r.draining ≡ true
  pub nothing_runs : active_count r ≡ 0
  pub nothing_waits : r.waiters ≡ []

-- `persist` may change what is stored, of whatever type it is.
module _ {S : Type 0} (display : GovError → Text) (persist : S → Result (Unit {0}) × S) where
  rollback_failed : GovError → GovError → GovError
  rollback_failed e f = internal (
      lit "configuration write failed ("
      ++ display e
      ++ lit "); capacity rollback also failed ("
      ++ display f
      ++ lit ")")

  roll_back : ℕ → GovError → Write → Runtime → S → Result (Unit {0}) × (Runtime × S)
  roll_back previous e written r s = (err e, (write_capacity previous r, s))
  roll_back previous e (not_written f) r s = (err (rollback_failed e f), (r, s))
  roll_back previous e (not_synced f) r s =
      (err (rollback_failed e f), (write_capacity previous r, s))

  persisted : ℕ → Write → Result (Unit {0}) × S → Runtime → Result (Unit {0}) × (Runtime × S)
  persisted previous rollback (ok u, s) r = (ok tt, (r, s))
  persisted previous rollback (err e, s) r = roll_back previous e rollback r s
  persisted previous rollback (panicked, s) r = (panicked, (r, s))

  replace : ℕ → ℕ → Write → Write → Runtime → S → Result (Unit {0}) × (Runtime × S)
  replace previous n rollback written r s =
      persisted previous rollback (persist s) (write_capacity n r)
  replace previous n rollback (not_written e) r s = (err e, (r, s))
  replace previous n rollback (not_synced e) r s = (err e, (write_capacity n r, s))

  from_previous : Result ℕ → ℕ → Calls → Runtime → S → Result (Unit {0}) × (Runtime × S)
  from_previous (ok previous) n calls r s = replace previous n calls.rollback calls.write r s
  from_previous (err e) n calls r s = (err e, (r, s))
  from_previous panicked n calls r s = (panicked, (r, s))

  -- The leases are listed only where no job is active.
  from_listing : Option GovError → ℕ → Calls → Runtime → S → Result (Unit {0}) × (Runtime × S)
  from_listing (some e) n calls r s = (err e, (r, s))
  from_listing none n calls r s =
      if not (nobody_waits r.waiters)
      then (err (temporary (lit "capacity changes require an idle pool")), (r, s))
      else from_previous (capacity r) n calls r s

  -- What happens under the queue lock.
  change_capacity : ℕ → Calls → Runtime → S → Result (Unit {0}) × (Runtime × S)
  change_capacity n calls r s =
      if not r.draining
      then (err (temporary (lit "capacity changes require drain first")), (r, s))
      else if ltb 0 (active_count r)
      then (err (temporary (lit "capacity changes require an idle pool")), (r, s))
      else from_listing calls.listing n calls r s

  -- An error of unlocking is reported where the change itself has gone well.
  with_unlock :
      Option GovError → Result (Unit {0}) × (Runtime × S) → Result (Unit {0}) × (Runtime × S)
  with_unlock (some e) (ok u, q) = (err e, q)
  with_unlock none (ok u, q) = (ok u, q)
  with_unlock unlock (err e, q) = (err e, q)
  with_unlock unlock (panicked, q) = (panicked, q)

  from_queue : Option GovError → ℕ → Calls → Runtime → S → Result (Unit {0}) × (Runtime × S)
  from_queue (some e) n calls r s = (err e, (r, s))
  from_queue none n calls r s = with_unlock calls.unlock (change_capacity n calls r s)

  pub set_capacity_transactional : ℕ → Calls → Runtime → S → Result (Unit {0}) × (Runtime × S)
  set_capacity_transactional n calls r s =
      if not (within 1 2 n)
      then (err (invalid_config (lit "capacity must be 1 or 2")), (r, s))
      else from_queue calls.queue n calls r s

  guarded :
      (guard : Bool) (e : GovError) (r : Runtime) (s : S) (q : Result (Unit {0}) × (Runtime × S))
      → (if guard then (err e, (r, s)) else q).1 ≢ (r, s)
      → (guard ≡ false) × (q.1 ≢ (r, s))
  guarded true e r s q h = absurd (h refl)
  guarded false e r s q h = (refl, h)

  with_unlock-state :
      (u : Option GovError) (q : Result (Unit {0}) × (Runtime × S)) → (with_unlock u q).1 ≡ q.1
  unfolding with_unlock
  with_unlock-state (some e) (ok u, q) = refl
  with_unlock-state none (ok u, q) = refl
  with_unlock-state unlock (err e, q) = refl
  with_unlock-state unlock (panicked, q) = refl

  from_queue-changes :
      (queue : Option GovError) (n : ℕ) (calls : Calls) (r : Runtime) (s : S)
      → (from_queue queue n calls r s).1 ≢ (r, s)
      → (change_capacity n calls r s).1 ≢ (r, s)
  unfolding from_queue
  from_queue-changes (some e) n calls r s h = absurd (h refl)
  from_queue-changes none n calls r s h =
      λ e. h (with_unlock-state calls.unlock (change_capacity n calls r s) ∙ e)

  from_listing-changes :
      (listing : Option GovError) (n : ℕ) (calls : Calls) (r : Runtime) (s : S)
      → (from_listing listing n calls r s).1 ≢ (r, s)
      → nobody_waits r.waiters ≡ true
  unfolding from_listing
  from_listing-changes (some e) n calls r s h = absurd (h refl)
  from_listing-changes none n calls r s h =
      let (open_to_all, rest) = guarded (not (nobody_waits r.waiters)) _ r s _ h in ground arith

  pub set_capacity_transactional-IsIdle :
      (n : ℕ) (calls : Calls) (r : Runtime) (s : S)
      → (set_capacity_transactional n calls r s).1 ≢ (r, s)
      → IsIdle n r
  unfolding set_capacity_transactional change_capacity
  set_capacity_transactional-IsIdle n calls r s h =
      let (a, h₁) = guarded (not (within 1 2 n)) _ r s _ h in
      let h₂ = from_queue-changes calls.queue n calls r s h₁ in
      let (b, h₃) = guarded (not r.draining) _ r s _ h₂ in
      let (c, h₄) = guarded (ltb 0 (active_count r)) _ r s _ h₃ in
      record {
        in_range = ground arith;
        drained = ground arith;
        nothing_runs = ground arith;
        nothing_waits =
            nobody_waits-nil r.waiters (from_listing-changes calls.listing n calls r s h₄);
      }

-- What a run on concrete arguments computes through.
unfoldable pub runs : Unit {0}
unfolding raise create lower unlocked drain_from set_drain write_capacity nobody_waits
    rollback_failed roll_back persisted replace from_previous from_listing change_capacity
    with_unlock from_queue set_capacity_transactional
runs = tt
