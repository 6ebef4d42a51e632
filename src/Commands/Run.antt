-- ===== src/Commands/Run.antt =====
-- The command `run` of src/main.rs. Opening the scheduler, the child and its watching are arguments,
-- since they act on processes; the watching may change the runtime.
use agent_gov.Base.{
  ℕ, ◌≡◌, ◌≢◌, ap, sym, ◌∙◌, inl, inr, Bool, true, false, not, Option, none, some, List, [], ◌∷◌,
  All, Text, lit, text_eqb, nat_eqb, if◌then◌else◌, arith, Bool-cases,
}
use agent_gov.Config.{SchedulerConfig}
use agent_gov.Error.{Result, ok, err, panicked, io, not_found, permission_denied, invalid_input}
use agent_gov.Scheduler.{Runtime, drop_permit}
use agent_gov.Scheduler.Slots.{drop_permit-lock_self, drop_permit-ne}
use agent_gov.Scheduler.Acquire.{
  Client, Turn, Ending, started, still_waiting, failed, aborted, acquire_loop,
}
use agent_gov.Scheduler.Acquire.Locks.{
  IsWithoutLock, IsWithoutOther, LeavesLocks, acquire_loop-LeavesLocks,
}
use agent_gov.Supervisor.{Signal, ExitStatus, SupervisedExit, direct, exit_code}

pub record RunArgs : Type 0 where
  pub pool : Text
  pub owner : Text
  pub label : Text
  pub command : List Text

-- What `run` calls, and on what: the configuration that opening the scheduler gives; the process, as a
-- client of the scheduler; what happens around each of its rounds in `acquire`; `supervise` on a slot,
-- during which others act as well; whether the active file can be removed in the end; and the child
-- that runs ungoverned.
pub record Calls : Type 0 where
  pub number : Signal → ℕ
  pub open_scheduler : Result SchedulerConfig
  pub client : Client
  pub turns : List Turn
  pub supervise : ℕ → Text → Text → List Text → Runtime → Result SupervisedExit × Runtime
  pub removed : Bool
  pub spawn : Text → List Text → Result ExitStatus

module _ (calls : Calls) where
  pub spawn_result : Result ExitStatus → Result ℕ
  spawn_result (ok status) = ok (exit_code calls.number (direct status))
  spawn_result (err (io not_found)) = ok 127
  spawn_result (err (io permission_denied)) = ok 126
  spawn_result (err e) = err e
  spawn_result panicked = panicked

  -- An error of the operating system is one of starting the child.
  pub code_of : Result SupervisedExit → Result ℕ
  code_of (ok status) = ok (exit_code calls.number status)
  code_of (err (io kind)) = spawn_result (err (io kind))
  code_of (err e) = err e
  code_of panicked = panicked

  -- `drop(permit)` stands before the result is looked at.
  release : ℕ → Result SupervisedExit × Runtime → Option (Result ℕ) × Runtime
  release slot (status, r) = (some (code_of status), drop_permit calls.removed slot r)

  with_slot : RunArgs → Text → List Text → Ending × Runtime → Option (Result ℕ) × Runtime
  with_slot args program child_args (started slot, r) =
      release slot (calls.supervise slot args.label program child_args r)
  with_slot args program child_args (failed e, r) = (some (err e), r)
  with_slot args program child_args (still_waiting stamp, r) = (none, r)
  with_slot args program child_args (aborted, r) = (none, r)

  opened :
      RunArgs → Text → List Text → Result SchedulerConfig → Runtime → Option (Result ℕ) × Runtime
  opened args program child_args (ok c) r =
      with_slot args program child_args
        (acquire_loop c (record calls.client { owner = args.owner }) none calls.turns r)
  opened args program child_args (err e) r = (some (err e), r)
  opened args program child_args panicked r = (some panicked, r)

  run_command : RunArgs → Bool → List Text → Runtime → Option (Result ℕ) × Runtime
  run_command args active [] r = (some (err (invalid_input (lit "missing workload command"))), r)
  run_command args active (program ∷ child_args) r =
      if active
      then (some (spawn_result (calls.spawn program child_args)), r)
      else opened args program child_args calls.open_scheduler r

  -- `active` tells whether `AGENT_GOV_ACTIVE` is set. The result is `none` where the given turns are
  -- over and the process waits still.
  pub run : RunArgs → Bool → Runtime → Option (Result ℕ) × Runtime
  run args active r =
      if not (text_eqb args.pool (lit "heavy"))
      then (some (err (invalid_input (lit "the MVP supports only --pool heavy"))), r)
      else run_command args active args.command r

  -- The others never take the lock of a slot in the name of this process, and `supervise` and those who
  -- act during it leave it no lock but that of its slot.
  pub record IsAlone : Type 0 where
    pub between :
        All
          (λ turn.
            (s : Runtime)
            → IsWithoutLock calls.client.pid s
            → IsWithoutLock calls.client.pid (turn.others s))
          calls.turns
    pub during :
        (slot : ℕ) (label program : Text) (child_args : List Text) (s : Runtime)
        → IsWithoutOther calls.client.pid slot s
        → IsWithoutOther calls.client.pid slot (calls.supervise slot label program child_args s).1

  release-IsWithoutLock :
      (slot : ℕ) (status : Result SupervisedExit) (r : Runtime)
      → IsWithoutOther calls.client.pid slot r
      → IsWithoutLock calls.client.pid (release slot (status, r)).1
  unfolding release
  release-IsWithoutLock slot status r free i h = elim (Bool-cases (nat_eqb i slot)) [
    | inl e ↦
        let same : slot ≡ i = ground arith in
        cc (
          sym h
          ∙ ap (λ k. ((drop_permit calls.removed slot r).slot k).lock) (sym same)
          ∙ drop_permit-lock_self calls.removed slot r)
    | inr e ↦
        let ne : i ≢ slot = ground arith in
        free i ne (ap (λ s. s.lock) (sym (drop_permit-ne calls.removed r slot i ne)) ∙ h)
  ]

  with_slot-IsWithoutLock :
      (args : RunArgs) (program : Text) (child_args : List Text) (ending : Ending) (r : Runtime)
      → IsAlone
      → LeavesLocks calls.client.pid (ending, r)
      → IsWithoutLock calls.client.pid (with_slot args program child_args (ending, r)).1
  unfolding with_slot
  with_slot-IsWithoutLock args program child_args (started slot) r alone free =
      release-IsWithoutLock slot _ _ (alone.during slot args.label program child_args r free)
  with_slot-IsWithoutLock args program child_args (failed e) r alone free = free
  with_slot-IsWithoutLock args program child_args (still_waiting stamp) r alone free = free
  with_slot-IsWithoutLock args program child_args aborted r alone free = free

  opened-IsWithoutLock :
      (args : RunArgs) (program : Text) (child_args : List Text)
      (scheduler : Result SchedulerConfig) (r : Runtime)
      → IsAlone
      → IsWithoutLock calls.client.pid r
      → IsWithoutLock calls.client.pid (opened args program child_args scheduler r).1
  unfolding opened
  opened-IsWithoutLock args program child_args (ok c) r alone free =
      let client = record calls.client { owner = args.owner } in
      let q = acquire_loop c client none calls.turns r in
      with_slot-IsWithoutLock args program child_args q.0 q.1 alone
        (acquire_loop-LeavesLocks c client none calls.turns r alone.between free)
  opened-IsWithoutLock args program child_args (err e) r alone free = free
  opened-IsWithoutLock args program child_args panicked r alone free = free

  run_command-IsWithoutLock :
      (args : RunArgs) (active : Bool) (words : List Text) (r : Runtime)
      → IsAlone
      → IsWithoutLock calls.client.pid r
      → IsWithoutLock calls.client.pid (run_command args active words r).1
  unfolding run_command
  run_command-IsWithoutLock args active [] r alone free = free
  run_command-IsWithoutLock args true (program ∷ child_args) r alone free = free
  run_command-IsWithoutLock args false (program ∷ child_args) r alone free =
      opened-IsWithoutLock args program child_args calls.open_scheduler r alone free

  -- However `run` ends, it leaves no lock of a slot with its process: refused, unable to open the
  -- scheduler, turned away from the queue or timed out in it, or with a slot, whatever becomes of the
  -- child, and whether or not the active file can be removed. It is assumed that the process had none
  -- before, that the others never take one in its name, and that `supervise` takes none.
  pub run-IsWithoutLock :
      (args : RunArgs) (active : Bool) (r : Runtime)
      → IsAlone
      → IsWithoutLock calls.client.pid r
      → IsWithoutLock calls.client.pid (run args active r).1
  unfolding run
  run-IsWithoutLock args active r alone free =
      elim (Bool-cases (not (text_eqb args.pool (lit "heavy")))) [
        | inl e ↦ rw e free
        | inr e ↦ rw e (run_command-IsWithoutLock args active args.command r alone free)
      ]

-- What a run on concrete arguments computes through.
unfoldable pub runs : Unit {0}
unfolding spawn_result code_of release with_slot opened run_command run
runs = tt
