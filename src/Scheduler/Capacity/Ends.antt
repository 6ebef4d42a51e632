-- ===== src/Scheduler/Capacity/Ends.antt =====
-- What `set_capacity_transactional` of src/scheduler/mod.rs leaves of the capacity and of the stored
-- configuration, when it stores the configuration with `Config::save`.
use agent_gov.Base.{
  ℕ, ◌≡◌, refl, ◌≢◌, ap, sym, Bool, true, false, not, Option, none, some, Text, lit, ltb,
  if◌then◌else◌, arith,
}
use agent_gov.Config.{Config, within, validate}
use agent_gov.Config.Saving.{
  Write, written, not_written, not_synced, save, Saved, saved, kept, unsynced, save-Saved,
}
use agent_gov.Error.{Result, ok, err, panicked, GovError}
use agent_gov.Scheduler.{Runtime, capacity, checked_capacity, active_count}
use agent_gov.Scheduler.Capacity.{
  Calls, write_capacity, nobody_waits, roll_back, persisted, replace, from_previous, from_listing,
  change_capacity, with_unlock, from_queue, set_capacity_transactional,
}

checked_capacity-file : (k n : ℕ) → checked_capacity k ≡ ok n → k ≡ n
unfolding checked_capacity
checked_capacity-file k n h = ground arith

capacity-file : (r : Runtime) (n : ℕ) → capacity r ≡ ok n → r.capacity_file ≡ some n
unfolding capacity
capacity-file r n h = go r.capacity_file h
  where
    go :
        (f : Option ℕ)
        → (elim f [
          | none ↦ err (GovError.runtime (lit "invalid runtime capacity"))
          | some k ↦ checked_capacity k
        ])
          ≡ ok n
        → f ≡ some n
    go none e = absurd (cc)
    go (some k) e = ap some (checked_capacity-file k n e)

checked_capacity-total : (k : ℕ) → checked_capacity k ≢ panicked
unfolding checked_capacity
checked_capacity-total k h = ground arith

capacity-total : (r : Runtime) → capacity r ≢ panicked
unfolding capacity
capacity-total r = go r.capacity_file
  where
    go :
        (f : Option ℕ)
        → elim f [
          | none ↦ err (GovError.runtime (lit "invalid runtime capacity"))
          | some k ↦ checked_capacity k
        ]
          ≢ panicked
    go none e = cc
    go (some k) e = checked_capacity-total k e

-- The new capacity is not taken back: its first write ended after the rename, or the write of the old
-- capacity failed.
pub data Kept (calls : Calls) : Type 0 where
  not_tried : (e : GovError) → calls.write ≡ not_synced e → Kept calls
  stuck : (e : GovError) → calls.rollback ≡ not_written e → Kept calls

-- What a change to the capacity `n` and the configuration `c` leaves, by its result. `store` is the end
-- of the write of the configuration.
pub data Leaves (n : ℕ) (c : Config) (store : Write) (calls : Calls) (r : Runtime)
    (s : Option Config) (r' : Runtime) (s' : Option Config) : Result (Unit {0}) → Type 0 where
  changed :
      validate c ≡ ok tt
      → r' ≡ write_capacity n r
      → s' ≡ some c
      → Leaves n c store calls r s r' s' (ok tt)
  unchanged : (e : GovError) → r' ≡ r → s' ≡ s → Leaves n c store calls r s r' s' (err e)
  not_unlocked :
      (e : GovError)
      → calls.unlock ≡ some e
      → r' ≡ write_capacity n r
      → s' ≡ some c
      → Leaves n c store calls r s r' s' (err e)
  capacity_only :
      (e : GovError)
      → Kept calls
      → r' ≡ write_capacity n r
      → s' ≡ s
      → Leaves n c store calls r s r' s' (err e)
  configuration_only :
      (e f : GovError)
      → store ≡ not_synced f
      → r' ≡ r
      → s' ≡ some c
      → Leaves n c store calls r s r' s' (err e)
  nothing_undone :
      (e f : GovError)
      → store ≡ not_synced f
      → Kept calls
      → r' ≡ write_capacity n r
      → s' ≡ some c
      → Leaves n c store calls r s r' s' (err e)

module _ (display : GovError → Text) (n : ℕ) (c : Config) (preparing : Option GovError)
    (store : Write) where
  -- The result and the state of a call, by `Leaves`.
  abbrev pub Ends :
      Calls → Runtime → Option Config → Result (Unit {0}) × (Runtime × Option Config) → Type 0
  Ends calls r s q = Leaves n c store calls r s q.1.0 q.1.1 q.0

  back :
      (previous : ℕ) (r : Runtime)
      → r.capacity_file ≡ some previous
      → write_capacity previous (write_capacity n r) ≡ r
  unfolding write_capacity
  back previous r same = ap (λ f. record r { capacity_file = f }) (sym same)

  -- The configuration was not stored.
  roll_back-kept :
      (previous : ℕ) (calls : Calls) (r : Runtime) (e : GovError) (s s' : Option Config) (w : Write)
      → r.capacity_file ≡ some previous
      → calls.rollback ≡ w
      → s' ≡ s
      → Ends calls r s
          (roll_back display (save c preparing store) previous e w (write_capacity n r) s')
  unfolding roll_back
  roll_back-kept previous calls r e s s' written same h k = unchanged e (back previous r same) k
  roll_back-kept previous calls r e s s' (not_written f) same h k =
      capacity_only _ (stuck f h) refl k
  roll_back-kept previous calls r e s s' (not_synced f) same h k =
      unchanged _ (back previous r same) k

  -- The configuration was stored, but an error came after that.
  roll_back-unsynced :
      (previous : ℕ) (calls : Calls) (r : Runtime) (e f : GovError) (s s' : Option Config)
      (w : Write)
      → r.capacity_file ≡ some previous
      → calls.rollback ≡ w
      → store ≡ not_synced f
      → s' ≡ some c
      → Ends calls r s
          (roll_back display (save c preparing store) previous e w (write_capacity n r) s')
  unfolding roll_back
  roll_back-unsynced previous calls r e f s s' written same h k l =
      configuration_only e f k (back previous r same) l
  roll_back-unsynced previous calls r e f s s' (not_written g) same h k l =
      nothing_undone _ f k (stuck g h) refl l
  roll_back-unsynced previous calls r e f s s' (not_synced g) same h k l =
      configuration_only _ f k (back previous r same) l

  persisted-Ends :
      (previous : ℕ) (calls : Calls) (r : Runtime) (s s' : Option Config) (o : Result (Unit {0}))
      → r.capacity_file ≡ some previous
      → Saved c store s s' o
      → Ends calls r s (
          persisted display
            (save c preparing store)
            previous
            calls.rollback
            (o, s')
            (write_capacity n r))
  unfolding persisted
  persisted-Ends previous calls r s s' _ same (saved valid new) = changed valid refl new
  persisted-Ends previous calls r s s' _ same (kept e old) =
      roll_back-kept previous calls r e s s' calls.rollback same refl old
  persisted-Ends previous calls r s s' _ same (unsynced e h new) =
      roll_back-unsynced previous calls r e e s s' calls.rollback same refl h new

  replace-Ends :
      (previous : ℕ) (calls : Calls) (r : Runtime) (s : Option Config) (w : Write)
      → r.capacity_file ≡ some previous
      → calls.write ≡ w
      → Ends calls r s (replace display (save c preparing store) previous n calls.rollback w r s)
  unfolding replace
  replace-Ends previous calls r s written same h =
      persisted-Ends previous calls r s _ _ same (save-Saved c preparing store s)
  replace-Ends previous calls r s (not_written e) same h = unchanged e refl refl
  replace-Ends previous calls r s (not_synced e) same h = capacity_only e (not_tried e h) refl refl

  from_previous-Ends :
      (calls : Calls) (r : Runtime) (s : Option Config) (p : Result ℕ)
      → capacity r ≡ p
      → Ends calls r s (from_previous display (save c preparing store) p n calls r s)
  unfolding from_previous
  from_previous-Ends calls r s (ok previous) h =
      replace-Ends previous calls r s calls.write (capacity-file r previous h) refl
  from_previous-Ends calls r s (err e) h = unchanged e refl refl
  from_previous-Ends calls r s panicked h = absurd (capacity-total r h)

  -- A guard that returns an error early leaves everything alone.
  refused-Ends :
      (calls : Calls) (r : Runtime) (s : Option Config) (guard : Bool) (e : GovError)
      (q : Result (Unit {0}) × (Runtime × Option Config))
      → Ends calls r s q
      → Ends calls r s (if guard then (err e, (r, s)) else q)
  refused-Ends calls r s true e q rest = unchanged e refl refl
  refused-Ends calls r s false e q rest = rest

  from_listing-Ends :
      (calls : Calls) (r : Runtime) (s : Option Config) (listing : Option GovError)
      → Ends calls r s (from_listing display (save c preparing store) listing n calls r s)
  unfolding from_listing
  from_listing-Ends calls r s (some e) = unchanged e refl refl
  from_listing-Ends calls r s none =
      refused-Ends calls r s (not (nobody_waits r.waiters)) _ _
        (from_previous-Ends calls r s (capacity r) refl)

  change_capacity-Ends :
      (calls : Calls) (r : Runtime) (s : Option Config)
      → Ends calls r s (change_capacity display (save c preparing store) n calls r s)
  unfolding change_capacity
  change_capacity-Ends calls r s = refused-Ends calls r s (not r.draining) _ _ (
      refused-Ends calls r s (ltb 0 (active_count r)) _ _
        (from_listing-Ends calls r s calls.listing))

  with_unlock-Ends :
      (calls : Calls) (r r' : Runtime) (s s' : Option Config) (o : Result (Unit {0}))
      (u : Option GovError)
      → calls.unlock ≡ u
      → Leaves n c store calls r s r' s' o
      → Ends calls r s (with_unlock display (save c preparing store) u (o, (r', s')))
  unfolding with_unlock
  with_unlock-Ends calls r r' s s' _ none h (changed v a b) = changed v a b
  with_unlock-Ends calls r r' s s' _ (some e) h (changed v a b) = not_unlocked e h a b
  with_unlock-Ends calls r r' s s' _ u h (unchanged e a b) = unchanged e a b
  with_unlock-Ends calls r r' s s' _ u h (not_unlocked e k a b) = not_unlocked e k a b
  with_unlock-Ends calls r r' s s' _ u h (capacity_only e k a b) = capacity_only e k a b
  with_unlock-Ends calls r r' s s' _ u h (configuration_only e f k a b) =
      configuration_only e f k a b
  with_unlock-Ends calls r r' s s' _ u h (nothing_undone e f k l a b) = nothing_undone e f k l a b

  from_queue-Ends :
      (calls : Calls) (r : Runtime) (s : Option Config) (queue : Option GovError)
      → Ends calls r s (from_queue display (save c preparing store) queue n calls r s)
  unfolding from_queue
  from_queue-Ends calls r s (some e) = unchanged e refl refl
  from_queue-Ends calls r s none =
      with_unlock-Ends calls r _ s _ _ calls.unlock refl (change_capacity-Ends calls r s)

  -- A change of the capacity that stores the configuration never panics. After a success the capacity
  -- is the new one and the configuration, which is valid, is stored. After an error nothing has
  -- changed, but for these cases: both have changed and the queue lock could not be unlocked; the
  -- capacity alone has changed, since its write failed after the rename or since putting the old one
  -- back failed; the configuration alone has changed, since its write failed after the rename; or both
  -- have changed by such failures together.
  pub set_capacity_transactional-Leaves :
      (calls : Calls) (r : Runtime) (s : Option Config)
      → Ends calls r s (set_capacity_transactional display (save c preparing store) n calls r s)
  unfolding set_capacity_transactional
  set_capacity_transactional-Leaves calls r s =
      refused-Ends calls r s (not (within 1 2 n)) _ _ (from_queue-Ends calls r s calls.queue)
