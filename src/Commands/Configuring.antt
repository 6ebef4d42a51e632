-- ===== src/Commands/Configuring.antt =====
-- What the command `config set-capacity` of src/main.rs leaves.
use agent_gov.Base.{
  ℕ, ◌≡◌, refl, ◌≢◌, ap, sym, ◌∙◌, ◌⊎◌, inl, inr, Bool, true, false, not, ◌&&◌, Option, some, Text,
  arith, Bool-cases,
}
use agent_gov.Config.{Config}
use agent_gov.Config.Saving.{Write}
use agent_gov.Error.{Result, ok, err, panicked, ErrorKind, GovError}
use agent_gov.Scheduler.{Runtime}
use agent_gov.Scheduler.Capacity.{Calls, write_capacity}
use agent_gov.Scheduler.Capacity.Draining.{
  IsFlagOnly, Drained, done, not_locked, not_changed, set_drain-Drained, set_drain-IsFlagOnly,
}
use agent_gov.Scheduler.Capacity.Ends.{
  Leaves, changed, unchanged, capacity_only, configuration_only, nothing_undone,
  set_capacity_transactional-Leaves,
}
use agent_gov.Commands.{ConfigureCalls, with_capacity, report, end_drain, update, configure}

-- A change of the capacity leaves the rest of the runtime alone.
record Kept (r r' : Runtime) : Type 0 where
  draining : r'.draining ≡ r.draining
  slots : r'.slot ≡ r.slot
  waiters : r'.waiters ≡ r.waiters

same-Kept : (r r' : Runtime) → r' ≡ r → Kept r r'
same-Kept r r' e = record {
  draining = ap (λ s. s.draining) e;
  slots = ap (λ s. s.slot) e;
  waiters = ap (λ s. s.waiters) e;
}

write_capacity-Kept : (n : ℕ) (r r' : Runtime) → r' ≡ write_capacity n r → Kept r r'
unfolding write_capacity
write_capacity-Kept n r r' e = record {
  draining = ap (λ s. s.draining) e;
  slots = ap (λ s. s.slot) e;
  waiters = ap (λ s. s.waiters) e;
}

module _ (n : ℕ) (c : Config) (store : Write) (calls : Calls) (r : Runtime) (s : Option Config)
    (r' : Runtime) (s' : Option Config) where
  Leaves-Kept : (o : Result (Unit {0})) → Leaves n c store calls r s r' s' o → Kept r r'
  Leaves-Kept _ (changed valid e new) = write_capacity-Kept n r r' e
  Leaves-Kept _ (unchanged f e old) = same-Kept r r' e
  Leaves-Kept _ (Leaves.not_unlocked f h e new) = write_capacity-Kept n r r' e
  Leaves-Kept _ (capacity_only f h e old) = write_capacity-Kept n r r' e
  Leaves-Kept _ (configuration_only f g h e new) = same-Kept r r' e
  Leaves-Kept _ (nothing_undone f g h k e new) = write_capacity-Kept n r r' e

  Leaves-applied :
      (o : Result (Unit {0}))
      → Leaves n c store calls r s r' s' o
      → o ≡ ok tt
      → (r'.capacity_file ≡ some n) × (s' ≡ some c)
  unfolding write_capacity
  Leaves-applied _ (changed valid e new) h = (ap (λ q. q.capacity_file) e, new)
  Leaves-applied _ (unchanged f e old) h = absurd (cc)
  Leaves-applied _ (Leaves.not_unlocked f k e new) h = absurd (cc)
  Leaves-applied _ (capacity_only f k e old) h = absurd (cc)
  Leaves-applied _ (configuration_only f g k e new) h = absurd (cc)
  Leaves-applied _ (nothing_undone f g k l e new) h = absurd (cc)

  Leaves-total : (o : Result (Unit {0})) → Leaves n c store calls r s r' s' o → o ≢ panicked
  Leaves-total _ (changed valid e new) h = cc
  Leaves-total _ (unchanged f e old) h = cc
  Leaves-total _ (Leaves.not_unlocked f k e new) h = cc
  Leaves-total _ (capacity_only f k e old) h = cc
  Leaves-total _ (configuration_only f g k e new) h = cc
  Leaves-total _ (nothing_undone f g k l e new) h = cc

-- What can keep the drain going that the command began.
pub data DrainFails (calls : ConfigureCalls) : Type 0 where
  begin_not_unlocked : (e : GovError) → calls.begin.unlock ≡ some e → DrainFails calls
  resume_not_locked : (e : GovError) → calls.resume.queue ≡ some e → DrainFails calls
  resume_not_changed : (kind : ErrorKind) → calls.resume.change ≡ some kind → DrainFails calls

-- What the result of the command says of the state that it leaves.
abbrev pub Reported :
    ℕ → ConfigureCalls → Config → Runtime → Result (Unit {0}) × (Runtime × Option Config) → Type 0
Reported n calls c r (ok u, (r', s')) =
    (r'.capacity_file ≡ some n) × (s' ≡ some (with_capacity n c)) × (r'.draining ≡ r.draining)
Reported n calls c r (err e, (r', s')) =
    (r'.draining ≡ r.draining) ⊎ ((r.draining ≡ false) × (r'.draining ≡ true) × DrainFails calls)
Reported n calls c r (panicked, q) = ⊥

-- What the command reports and leaves.
pub record Configured (n : ℕ) (calls : ConfigureCalls) (c : Config) (r : Runtime)
    (q : Result (Unit {0}) × (Runtime × Option Config)) : Type 0 where
  pub reported : Reported n calls c r q
  pub slots : q.1.0.slot ≡ r.slot
  pub waiters : q.1.0.waiters ≡ r.waiters

module _ (display : GovError → Text) (n : ℕ) (calls : ConfigureCalls) (c : Config)
    (r : Runtime) where
  abbrev AfterChange :
      Runtime → Runtime → Option Config → Option Config → Result (Unit {0}) → Type 0
  AfterChange before r' s s' o =
      Leaves n (with_capacity n c) calls.store calls.change before s r' s' o

  -- A drain that was not begun here is left as it is.
  end_drain-other :
      (s s' : Option Config) (r' : Runtime) (o : Result (Unit {0}))
      → AfterChange r r' s s' o
      → Configured n calls c r (end_drain display false calls.resume (o, (r', s')))
  unfolding end_drain report
  end_drain-other s s' r' (ok u) l =
      let kept = Leaves-Kept n _ _ _ r s r' s' _ l in
      let (applied, new) = Leaves-applied n _ _ _ r s r' s' _ l refl in
      record {
        reported = (applied, new, kept.draining);
        slots = kept.slots;
        waiters = kept.waiters;
      }
  end_drain-other s s' r' (err e) l =
      let kept = Leaves-Kept n _ _ _ r s r' s' _ l in
      record { reported = inl kept.draining; slots = kept.slots; waiters = kept.waiters }
  end_drain-other s s' r' panicked l = absurd (Leaves-total n _ _ _ r s r' s' _ l refl)

  -- What ending the drain leaves, after an error of the change.
  failed-Reported :
      (r₂ r₃ : Runtime) (s : Option Config) (e : GovError) (o : Result (Unit {0}))
      → r.draining ≡ false
      → r₂.draining ≡ true
      → Drained false calls.resume r₂ r₃ o
      → Reported n calls c r (err e, (r₃, s))
  failed-Reported r₂ r₃ s e _ open_before on (done off) = inl (off ∙ sym open_before)
  failed-Reported r₂ r₃ s e _ open_before on (not_locked f g h same) =
      inr (open_before, same ∙ on, resume_not_locked f h)
  failed-Reported r₂ r₃ s e _ open_before on (not_changed kind g h same) =
      inr (open_before, same ∙ on, resume_not_changed kind h)
  failed-Reported r₂ r₃ s e _ open_before on (Drained.not_unlocked g h off) =
      inl (off ∙ sym open_before)

  -- The same after the change itself has gone well.
  changed-Reported :
      (r₂ r₃ : Runtime) (s : Option Config) (o : Result (Unit {0}))
      → r.draining ≡ false
      → r₂.draining ≡ true
      → r₃.capacity_file ≡ some n
      → s ≡ some (with_capacity n c)
      → Drained false calls.resume r₂ r₃ o
      → Reported n calls c r (o, (r₃, s))
  changed-Reported r₂ r₃ s _ open_before on applied new (done off) =
      (applied, new, off ∙ sym open_before)
  changed-Reported r₂ r₃ s _ open_before on applied new (not_locked f g h same) =
      failed-Reported r₂ r₃ s g _ open_before on (not_locked f g h same)
  changed-Reported r₂ r₃ s _ open_before on applied new (not_changed kind g h same) =
      failed-Reported r₂ r₃ s g _ open_before on (not_changed kind g h same)
  changed-Reported r₂ r₃ s _ open_before on applied new (Drained.not_unlocked g h off) =
      failed-Reported r₂ r₃ s g _ open_before on (Drained.not_unlocked g h off)

  -- A drain that was begun here ends again.
  end_drain-own :
      (before r' : Runtime) (s s' : Option Config) (o : Result (Unit {0}))
      → r.draining ≡ false
      → before.draining ≡ true
      → IsFlagOnly r before
      → AfterChange before r' s s' o
      → Configured n calls c r (end_drain display true calls.resume (o, (r', s')))
  unfolding end_drain report
  end_drain-own before r' s s' (ok u) open_before on flag l =
      let kept = Leaves-Kept n _ _ _ before s r' s' _ l in
      let (applied, new) = Leaves-applied n _ _ _ before s r' s' _ l refl in
      let ends = set_drain-IsFlagOnly false calls.resume r' in
      record {
        reported =
            changed-Reported r' _ s' _ open_before (kept.draining ∙ on) (ends.capacity ∙ applied)
              new (set_drain-Drained false calls.resume r');
        slots = ends.slots ∙ kept.slots ∙ flag.slots;
        waiters = ends.waiters ∙ kept.waiters ∙ flag.waiters;
      }
  end_drain-own before r' s s' (err e) open_before on flag l =
      let kept = Leaves-Kept n _ _ _ before s r' s' _ l in
      let ends = set_drain-IsFlagOnly false calls.resume r' in
      record {
        reported =
            failed-Reported r' _ s' e _ open_before (kept.draining ∙ on)
              (set_drain-Drained false calls.resume r');
        slots = ends.slots ∙ kept.slots ∙ flag.slots;
        waiters = ends.waiters ∙ kept.waiters ∙ flag.waiters;
      }
  end_drain-own before r' s s' panicked open_before on flag l =
      absurd (Leaves-total n _ _ _ before s r' s' _ l refl)

  -- The command with a drain of its own.
  update-own :
      (before : Runtime) (s : Option Config) (o : Result (Unit {0}))
      → r.draining ≡ false
      → Drained true calls.begin r before o
      → IsFlagOnly r before
      → Configured n calls c r (update display n true calls c s (o, before))
  unfolding update
  update-own before s _ open_before (done on) flag =
      end_drain-own before _ s _ _ open_before on flag (
        set_capacity_transactional-Leaves display n (with_capacity n c) calls.preparing calls.store
          calls.change before s)
  update-own before s _ open_before (not_locked f e h same) flag = record {
    reported = inl same;
    slots = flag.slots;
    waiters = flag.waiters;
  }
  update-own before s _ open_before (not_changed kind e h same) flag = record {
    reported = inl same;
    slots = flag.slots;
    waiters = flag.waiters;
  }
  update-own before s _ open_before (Drained.not_unlocked e h on) flag = record {
    reported = inr (open_before, on, begin_not_unlocked e h);
    slots = flag.slots;
    waiters = flag.waiters;
  }

  -- `config set-capacity` never panics. After a success the capacity is the new one, the configuration
  -- with the new capacity is stored, and the governor drains exactly if it did before. After an error
  -- it drains exactly if it did before as well, unless it did not drain before and the command left its
  -- own drain on, which happens only where the queue lock could not be unlocked after the drain began,
  -- or where the drain could not be ended since the queue lock could not be opened and locked or the
  -- flag could not be removed. No slot and no waiter changes.
  pub configure-Configured :
      (drain : Bool) (s : Option Config)
      → Configured n calls c r (configure display n drain calls c r s)
  unfolding configure update
  configure-Configured drain s = elim (Bool-cases (drain && not r.draining)) [
    | inl e ↦ rw e (
        update-own _ s _ (ground arith) (set_drain-Drained true calls.begin r)
          (set_drain-IsFlagOnly true calls.begin r))
    | inr e ↦ rw e (
        end_drain-other s _ _ _ (
          set_capacity_transactional-Leaves display n (with_capacity n c) calls.preparing
            calls.store calls.change r s))
  ]
