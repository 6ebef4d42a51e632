-- ===== src/Scheduler/Acquire/Locks.antt =====
-- What a round of `acquire` in src/scheduler/mod.rs does to the locks of the slots.
use agent_gov.Base.{
  ℕ, ◌<◌, ◌≡◌, refl, ◌≢◌, ap, sym, subst, ◌∙◌, inl, inr, Bool, true, false, Option, none, some,
  List, [], ◌∷◌, All, arith, Bool-cases, nat_eqb,
}
use agent_gov.Config.{SchedulerConfig}
use agent_gov.Error.{Result, ok, err, panicked, GovError, >>=-eq-ok, ok-injective}
use agent_gov.Scheduler.{
  Runtime, Slot, Waiter, set_slot, try_from, try_slots, capacity, mark_starting,
}
use agent_gov.Scheduler.Slots.{try_from-result}
use agent_gov.Scheduler.Acquire.{
  Client, Round, acquired, waiting, refused, crashed, round, attempt, settle, admitted, queue_up,
  may_try, prune_stale_waiters, remove_lease, create_lease, Ending, started, still_waiting, failed,
  aborted, Turn, finish, acquire_loop,
}
use agent_gov.Scheduler.Acquire
use agent_gov.Scheduler.Acquire.Admission.{
  capacity-range, try_slots-Got, round-draining, round-open, remove_lease-slot,
}

-- A slot that a process takes, or locks as they were.
pub data LockChange (pid : ℕ) (r r' : Runtime) : Round → Type 0 where
  took :
      (slot : ℕ)
      → slot < 2
      → (r.slot slot).lock ≡ none
      → (r'.slot slot).lock ≡ some pid
      → ((i : ℕ) → i ≢ slot → (r'.slot i).lock ≡ (r.slot i).lock)
      → LockChange pid r r' (acquired slot)
  waits :
      (stamp : ℕ)
      → ((i : ℕ) → (r'.slot i).lock ≡ (r.slot i).lock)
      → LockChange pid r r' (waiting stamp)
  fails :
      (e : GovError)
      → ((i : ℕ) → (r'.slot i).lock ≡ (r.slot i).lock)
      → LockChange pid r r' (refused e)
  aborts : ((i : ℕ) → (r'.slot i).lock ≡ (r.slot i).lock) → LockChange pid r r' crashed

-- Writing the active file of a slot leaves all locks.
pub set_active-lock :
    (r : Runtime) (i j : ℕ) (s : Slot)
    → s.lock ≡ (r.slot i).lock
    → ((set_slot r i s).slot j).lock ≡ (r.slot j).lock
unfolding set_slot
set_active-lock r i j s h = elim (Bool-cases (nat_eqb j i)) [
  | inl e ↦ let same : j ≡ i = ground arith in rw e (h ∙ ap (λ k. (r.slot k).lock) (sym same))
  | inr e ↦ rw e
]

admitted-LockChange :
    (p : Client) (r q : Runtime) (a : Result (Unit {0}))
    → ((i : ℕ) → (r.slot i).lock ≡ (q.slot i).lock)
    → LockChange p.pid q (admitted p r a).1 (admitted p r a).0
unfolding admitted create_lease
admitted-LockChange p r q (ok u) h = waits p.stamp h
admitted-LockChange p r q (err e) h = fails e h
admitted-LockChange p r q panicked h = aborts h

queue_up-LockChange :
    (c : SchedulerConfig) (p : Client) (lease : Option ℕ) (ws : List Waiter) (r q : Runtime)
    → ((i : ℕ) → (r.slot i).lock ≡ (q.slot i).lock)
    → LockChange p.pid q (queue_up c p lease ws r).1 (queue_up c p lease ws r).0
unfolding queue_up
queue_up-LockChange c p (some stamp) ws r q h = waits stamp h
queue_up-LockChange c p none ws r q h = admitted-LockChange p r q _ h

-- A search that finds no slot.
try_slots-none :
    (pid : ℕ) (r r' : Runtime)
    → try_slots pid r ≡ ok (none, r')
    → (i : ℕ) → (r'.slot i).lock ≡ (r.slot i).lock
unfolding try_slots
try_slots-none pid r r' h i =
    let (n, read, rest) = >>=-eq-ok (capacity r) _ h in
    let pair : try_from n 0 n pid r ≡ (none, r') = ok-injective _ _ rest in
    elim (try_from-result n 0 n pid r (capacity-range r n read).0) [
      | inl (nothing, clears) ↦
          sym (ap (λ (q : Option ℕ × Runtime). (q.1.slot i).lock) pair) ∙ clears.locks i
      | inr (found, e, got) ↦ absurd (cc (sym e ∙ ap (λ (q : Option ℕ × Runtime). q.0) pair))
    ]

settle-LockChange :
    (c : SchedulerConfig) (p : Client) (lease : Option ℕ) (ws : List Waiter) (r : Runtime)
    (tried : Result (Option ℕ × Runtime))
    → try_slots p.pid r ≡ tried
    → LockChange p.pid r (settle c p lease ws r tried).1 (settle c p lease ws r tried).0
unfolding settle mark_starting
settle-LockChange c p lease ws r (ok (none, r')) e =
    queue_up-LockChange c p lease ws r' r (try_slots-none p.pid r r' e)
settle-LockChange c p lease ws r (err g) e = fails g (λ i. refl)
settle-LockChange c p lease ws r panicked e = aborts (λ i. refl)
settle-LockChange c p lease ws r (ok (some slot, r')) e =
    let (n, read, got) = try_slots-Got p.pid slot r r' e in
    let (low, high) = capacity-range r n read in
    let kept : (i : ℕ)
        → ((mark_starting p.job_id p.owner p.pid slot (remove_lease lease r')).slot i).lock
          ≡ (r'.slot i).lock =
      λ i.
        set_active-lock (remove_lease lease r') slot i _ refl
        ∙ ap (λ s. s.lock) (remove_lease-slot lease r' i) in
    took slot (omega (arith, got.within, high)) got.unlocked (kept slot ∙ got.locked)
      (λ i ne. kept i ∙ got.others i ne)

attempt-LockChange :
    (c : SchedulerConfig) (p : Client) (lease : Option ℕ) (b : Bool) (r : Runtime)
    → LockChange p.pid r (attempt c p lease b r).1 (attempt c p lease b r).0
unfolding attempt
attempt-LockChange c p lease true r =
    settle-LockChange c p lease r.waiters r (try_slots p.pid r) refl
attempt-LockChange c p lease false r = queue_up-LockChange c p lease r.waiters r r (λ i. refl)

-- The change, as seen from a runtime with the same locks.
LockChange-before :
    (pid : ℕ) (q r r' : Runtime) (o : Round)
    → ((i : ℕ) → (q.slot i).lock ≡ (r.slot i).lock)
    → LockChange pid q r' o
    → LockChange pid r r' o
LockChange-before pid q r r' _ same (took slot low unlocked locked others) =
    took slot low (sym (same slot) ∙ unlocked) locked (λ i ne. others i ne ∙ same i)
LockChange-before pid q r r' _ same (waits stamp h) = waits stamp (λ i. h i ∙ same i)
LockChange-before pid q r r' _ same (fails e h) = fails e (λ i. h i ∙ same i)
LockChange-before pid q r r' _ same (aborts h) = aborts (λ i. h i ∙ same i)

-- A round takes one free slot for the process, or leaves all locks as they were.
pub round-LockChange :
    (c : SchedulerConfig) (p : Client) (lease : Option ℕ) (r : Runtime)
    → LockChange p.pid r (round c p lease r).1 (round c p lease r).0
unfolding prune_stale_waiters
round-LockChange c p lease r = elim (Bool-cases r.draining) [
  | inl d ↦
      subst (λ (q : Round × Runtime). LockChange p.pid r q.1 q.0)
        (sym (round-draining c p lease r d)) (fails _ (λ i. refl))
  | inr o ↦
      subst (λ (q : Round × Runtime). LockChange p.pid r q.1 q.0) (sym (round-open c p lease r o))
        (LockChange-before p.pid (prune_stale_waiters r) r _ _ (λ i. refl)
          (attempt-LockChange c p lease (may_try lease (prune_stale_waiters r).waiters)
            (prune_stale_waiters r)))
]

-- The process holds no lock of a slot, and none but that of one slot.
abbrev pub IsWithoutLock : ℕ → Runtime → Type 0
IsWithoutLock pid r = (i : ℕ) → (r.slot i).lock ≢ some pid

abbrev pub IsWithoutOther : ℕ → ℕ → Runtime → Type 0
IsWithoutOther pid slot r = (i : ℕ) → i ≢ slot → (r.slot i).lock ≢ some pid

-- A call of `acquire` that has given a slot leaves no other lock with the process, and one that has
-- not leaves none.
abbrev pub LeavesLocks : ℕ → Ending × Runtime → Type 0
LeavesLocks pid (started slot, r) = IsWithoutOther pid slot r
LeavesLocks pid (still_waiting stamp, r) = IsWithoutLock pid r
LeavesLocks pid (failed e, r) = IsWithoutLock pid r
LeavesLocks pid (aborted, r) = IsWithoutLock pid r

same-IsWithoutLock :
    (pid : ℕ) (r r' : Runtime)
    → ((i : ℕ) → (r'.slot i).lock ≡ (r.slot i).lock)
    → IsWithoutLock pid r
    → IsWithoutLock pid r'
same-IsWithoutLock pid r r' same free i h = free i (sym (same i) ∙ h)

finish-LeavesLocks :
    (c : SchedulerConfig) (pid : ℕ) (late : Bool) (lease : Option ℕ)
    (again : ℕ → Runtime → Ending × Runtime) (r r' : Runtime) (o : Round)
    → ((stamp : ℕ) (s : Runtime) → IsWithoutLock pid s → LeavesLocks pid (again stamp s))
    → LockChange pid r r' o
    → IsWithoutLock pid r
    → LeavesLocks pid (finish c late lease again (o, r'))
unfolding finish
finish-LeavesLocks c pid late lease again r r' _ later (took slot low unlocked locked others) free =
    λ i ne h. free i (sym (others i ne) ∙ h)
finish-LeavesLocks c pid late lease again r r' _ later (fails e same) free =
    same-IsWithoutLock pid r (remove_lease lease r')
      (λ i. ap (λ s. s.lock) (remove_lease-slot lease r' i) ∙ same i) free
finish-LeavesLocks c pid late lease again r r' _ later (aborts same) free =
    same-IsWithoutLock pid r r' same free
finish-LeavesLocks c pid true lease again r r' _ later (waits stamp same) free =
    same-IsWithoutLock pid r (remove_lease (some stamp) r')
      (λ i. ap (λ s. s.lock) (remove_lease-slot (some stamp) r' i) ∙ same i) free
finish-LeavesLocks c pid false lease again r r' _ later (waits stamp same) free =
    later stamp r' (same-IsWithoutLock pid r r' same free)

waits-LeavesLocks :
    (pid : ℕ) (lease : Option ℕ) (r : Runtime)
    → IsWithoutLock pid r
    → LeavesLocks pid (Acquire.waits lease, r)
unfolding Acquire.waits
waits-LeavesLocks pid none r free = free
waits-LeavesLocks pid (some stamp) r free = free

-- However `acquire` ends, the process holds the lock of the slot that it was given and no other, if the
-- others never take a lock in its name.
pub acquire_loop-LeavesLocks :
    (c : SchedulerConfig) (p : Client) (lease : Option ℕ) (turns : List Turn) (r : Runtime)
    → All
        (λ turn. (s : Runtime) → IsWithoutLock p.pid s → IsWithoutLock p.pid (turn.others s))
        turns
    → IsWithoutLock p.pid r
    → LeavesLocks p.pid (acquire_loop c p lease turns r)
unfolding acquire_loop
acquire_loop-LeavesLocks c p lease [] r others free = waits-LeavesLocks p.pid lease r free
acquire_loop-LeavesLocks c p lease (turn ∷ turns) r (here, later) free =
    finish-LeavesLocks c p.pid turn.late lease _ (turn.others r) _ _
      (λ stamp s without. acquire_loop-LeavesLocks c p (some stamp) turns s later without)
      (round-LockChange c p lease (turn.others r)) (here r free)
