-- ===== src/Scheduler/Acquire/Queue.antt =====
-- The queue of src/scheduler/mod.rs: its length and its leases.
use agent_gov.Base.{
  ℕ, suc, ◌≤◌, ◌<◌, ◌≡◌, refl, ◌≢◌, ap, sym, subst, ◌∙◌, inl, inr, Bool, true, false, not, Option,
  none, some, List, [], ◌∷◌, Text, nat_eqb, leb, length, filter, length-filter-le, arith,
  Bool-cases, All,
}
use agent_gov.Config.{SchedulerConfig}
use agent_gov.Error.{Result, ok, err, panicked, >>=-eq-ok, ok-injective}
use agent_gov.Scheduler.{Runtime, Waiter, set_slot, try_from, try_slots, capacity, mark_starting}
use agent_gov.Scheduler.Slots.{try_from-result}
use agent_gov.Scheduler.Acquire.{
  Client, Round, acquired, waiting, refused, crashed, round, attempt, settle, admitted, queue_up,
  enforce_admission, prune_stale_waiters, remove_lease, remove_waiter, create_lease, insert_waiter,
  owner_count, Ending, started, still_waiting, failed, aborted, Turn, finish, waits, acquire_loop,
}
use agent_gov.Scheduler.Acquire.Admission.{round-draining, round-open, capacity-range}

try_slots-waiters :
    (pid : ℕ) (r r' : Runtime) (found : Option ℕ)
    → try_slots pid r ≡ ok (found, r')
    → r'.waiters ≡ r.waiters
unfolding try_slots
try_slots-waiters pid r r' found h =
    let (n, read, rest) = >>=-eq-ok (capacity r) _ h in
    let pair : try_from n 0 n pid r ≡ (found, r') = ok-injective _ _ rest in
    let same = ap (λ (q : Option ℕ × Runtime). q.1.waiters) pair in
    elim (try_from-result n 0 n pid r (capacity-range r n read).0) [
      | inl (nothing, clears) ↦ sym same ∙ clears.waiters
      | inr (slot, e, got) ↦ sym same ∙ got.waiters
    ]

length-insert_waiter :
    (w : Waiter) (ws : List Waiter) → length (insert_waiter w ws) ≡ suc (length ws)
unfolding insert_waiter
length-insert_waiter w [] = refl
length-insert_waiter w (v ∷ vs) = elim (Bool-cases (leb w.stamp v.stamp)) [
  | inl e ↦ rw e refl
  | inr e ↦ rw e (ap suc (length-insert_waiter w vs))
]

enforce_admission-room :
    (c : SchedulerConfig) (owner : Text) (ws : List Waiter)
    → enforce_admission c owner ws ≡ ok tt
    → (length ws < c.max_queue) × (owner_count owner ws < c.max_queued_per_owner)
unfolding enforce_admission
enforce_admission-room c owner ws h = ground arith

-- The bound of the queue.
abbrev pub IsBounded : SchedulerConfig → Runtime → Type 0
IsBounded c r = length r.waiters ≤ c.max_queue

admitted-IsBounded :
    (c : SchedulerConfig) (p : Client) (r : Runtime) (a : Result (Unit {0}))
    → enforce_admission c p.owner r.waiters ≡ a
    → IsBounded c r
    → IsBounded c (admitted p r a).1
unfolding admitted create_lease
admitted-IsBounded c p r (ok tt) e b =
    subst (λ n. n ≤ c.max_queue) (sym (length-insert_waiter _ r.waiters))
      (enforce_admission-room c p.owner r.waiters e).0
admitted-IsBounded c p r (err g) e b = b
admitted-IsBounded c p r panicked e b = b

queue_up-IsBounded :
    (c : SchedulerConfig) (p : Client) (lease : Option ℕ) (ws : List Waiter) (r : Runtime)
    → r.waiters ≡ ws
    → IsBounded c r
    → IsBounded c (queue_up c p lease ws r).1
unfolding queue_up
queue_up-IsBounded c p (some stamp) ws r e b = b
queue_up-IsBounded c p none ws r e b =
    admitted-IsBounded c p r _ (ap (enforce_admission c p.owner) e) b

remove_lease-IsBounded :
    (c : SchedulerConfig) (lease : Option ℕ) (r : Runtime)
    → IsBounded c r
    → IsBounded c (remove_lease lease r)
unfolding remove_lease remove_waiter
remove_lease-IsBounded c none r b = b
remove_lease-IsBounded c (some stamp) r b =
    let shorter = length-filter-le (λ w. not (nat_eqb w.stamp stamp)) r.waiters in omega arith

prune-IsBounded :
    (c : SchedulerConfig) (r : Runtime) → IsBounded c r → IsBounded c (prune_stale_waiters r)
unfolding prune_stale_waiters
prune-IsBounded c r b = let shorter = length-filter-le (λ w. w.held) r.waiters in omega arith

settle-IsBounded :
    (c : SchedulerConfig) (p : Client) (lease : Option ℕ) (r : Runtime)
    (tried : Result (Option ℕ × Runtime))
    → try_slots p.pid r ≡ tried
    → IsBounded c r
    → IsBounded c (settle c p lease r.waiters r tried).1
unfolding settle mark_starting set_slot
settle-IsBounded c p lease r (err g) e b = b
settle-IsBounded c p lease r panicked e b = b
settle-IsBounded c p lease r (ok (some slot, r')) e b =
    remove_lease-IsBounded c lease r'
      (subst (λ ws. length ws ≤ c.max_queue) (sym (try_slots-waiters p.pid r r' (some slot) e)) b)
settle-IsBounded c p lease r (ok (none, r')) e b =
    let same = try_slots-waiters p.pid r r' none e in
    queue_up-IsBounded c p lease r.waiters r' same
      (subst (λ ws. length ws ≤ c.max_queue) (sym same) b)

attempt-IsBounded :
    (c : SchedulerConfig) (p : Client) (lease : Option ℕ) (turn : Bool) (r : Runtime)
    → IsBounded c r
    → IsBounded c (attempt c p lease turn r).1
unfolding attempt
attempt-IsBounded c p lease false r b = queue_up-IsBounded c p lease r.waiters r refl b
attempt-IsBounded c p lease true r b = settle-IsBounded c p lease r _ refl b

-- However a round ends, a queue within its bound stays within it.
pub round-IsBounded :
    (c : SchedulerConfig) (p : Client) (lease : Option ℕ) (r : Runtime)
    → IsBounded c r
    → IsBounded c (round c p lease r).1
round-IsBounded c p lease r b =
    let pruned = prune-IsBounded c r b in
    elim (Bool-cases r.draining) [
      | inl d ↦ subst (λ q. IsBounded c q.1) (sym (round-draining c p lease r d)) pruned
      | inr o ↦
          subst (λ q. IsBounded c q.1) (sym (round-open c p lease r o))
            (attempt-IsBounded c p lease _ (prune_stale_waiters r) pruned)
    ]

finish-IsBounded :
    (c : SchedulerConfig) (late : Bool) (lease : Option ℕ) (again : ℕ → Runtime → Ending × Runtime)
    (q : Round × Runtime)
    → ((stamp : ℕ) (r : Runtime) → IsBounded c r → IsBounded c (again stamp r).1)
    → IsBounded c q.1
    → IsBounded c (finish c late lease again q).1
unfolding finish
finish-IsBounded c late lease again (acquired slot, r) keeps b = b
finish-IsBounded c late lease again (refused e, r) keeps b = remove_lease-IsBounded c lease r b
finish-IsBounded c late lease again (crashed, r) keeps b = b
finish-IsBounded c true lease again (waiting stamp, r) keeps b =
    remove_lease-IsBounded c (some stamp) r b
finish-IsBounded c false lease again (waiting stamp, r) keeps b = keeps stamp r b

-- A call of `acquire` keeps the queue within its bound, as long as what the others do between its
-- rounds keeps it there.
pub acquire_loop-IsBounded :
    (c : SchedulerConfig) (p : Client) (lease : Option ℕ) (turns : List Turn) (r : Runtime)
    → All (λ turn. (s : Runtime) → IsBounded c s → IsBounded c (turn.others s)) turns
    → IsBounded c r
    → IsBounded c (acquire_loop c p lease turns r).1
unfolding acquire_loop waits
acquire_loop-IsBounded c p lease [] r others b = b
acquire_loop-IsBounded c p lease (turn ∷ turns) r (here, later) b =
    finish-IsBounded c turn.late lease _ _
      (λ stamp s bs. acquire_loop-IsBounded c p (some stamp) turns s later bs)
      (round-IsBounded c p lease _ (here r b))

-- No waiter has the stamp.
abbrev pub HasLeft : ℕ → Runtime → Type 0
HasLeft stamp r = All (λ w. w.stamp ≢ stamp) r.waiters

remove_waiter-All :
    (stamp : ℕ) (ws : List Waiter) → All (λ w. w.stamp ≢ stamp) (remove_waiter stamp ws)
unfolding remove_waiter filter
remove_waiter-All stamp [] = tt
remove_waiter-All stamp (w ∷ ws) = elim (Bool-cases (nat_eqb w.stamp stamp)) [
  | inl e ↦ rw e (remove_waiter-All stamp ws)
  | inr e ↦ rw e ((ground arith), remove_waiter-All stamp ws)
]

-- A call that is over.
abbrev pub IsOver : Ending → Type 0
IsOver (started slot) = Unit
IsOver (failed e) = Unit
IsOver (still_waiting stamp) = ⊥
IsOver aborted = ⊥

-- What a round owes to the lease it was given: a slot takes it away, and to wait keeps it.
abbrev Owes : ℕ → Round × Runtime → Type 0
Owes stamp (acquired slot, r) = HasLeft stamp r
Owes stamp (waiting s, r) = s ≡ stamp
Owes stamp (refused e, r) = Unit
Owes stamp (crashed, r) = Unit

attempt-Owes :
    (c : SchedulerConfig) (p : Client) (stamp : ℕ) (turn : Bool) (r : Runtime)
    → Owes stamp (attempt c p (some stamp) turn r)
unfolding attempt settle queue_up mark_starting set_slot remove_lease
attempt-Owes c p stamp false r = refl
attempt-Owes c p stamp true r = go (try_slots p.pid r)
  where
    go :
        (tried : Result (Option ℕ × Runtime))
        → Owes stamp (settle c p (some stamp) r.waiters r tried)
    go (ok (some slot, r')) = remove_waiter-All stamp r'.waiters
    go (ok (none, r')) = refl
    go (err e) = tt
    go panicked = tt

round-Owes :
    (c : SchedulerConfig) (p : Client) (stamp : ℕ) (r : Runtime)
    → Owes stamp (round c p (some stamp) r)
round-Owes c p stamp r = elim (Bool-cases r.draining) [
  | inl d ↦ subst (Owes stamp) (sym (round-draining c p (some stamp) r d)) tt
  | inr o ↦
      subst (Owes stamp) (sym (round-open c p (some stamp) r o))
        (attempt-Owes c p stamp _ (prune_stale_waiters r))
]

finish-HasLeft :
    (c : SchedulerConfig) (stamp : ℕ) (late : Bool) (again : ℕ → Runtime → Ending × Runtime)
    (q : Round × Runtime)
    → ((r : Runtime) → IsOver (again stamp r).0 → HasLeft stamp (again stamp r).1)
    → Owes stamp q
    → IsOver (finish c late (some stamp) again q).0
    → HasLeft stamp (finish c late (some stamp) again q).1
unfolding finish remove_lease
finish-HasLeft c stamp late again (acquired slot, r) later owes over = owes
finish-HasLeft c stamp late again (refused e, r) later owes over = remove_waiter-All stamp r.waiters
finish-HasLeft c stamp late again (crashed, r) later owes over = absurd over
finish-HasLeft c stamp true again (waiting s, r) later owes over =
    subst (λ k. HasLeft stamp (record r { waiters = remove_waiter k r.waiters })) (sym owes)
      (remove_waiter-All stamp r.waiters)
finish-HasLeft c stamp false again (waiting s, r) later owes over =
    subst (λ k. HasLeft stamp (again k r).1) (sym owes)
      (later r (subst (λ k. IsOver (again k r).0) owes over))

-- A client with a lease whose call is over, with a slot or with an error, has left the queue.
pub acquire_loop-HasLeft :
    (c : SchedulerConfig) (p : Client) (stamp : ℕ) (turns : List Turn) (r : Runtime)
    → IsOver (acquire_loop c p (some stamp) turns r).0
    → HasLeft stamp (acquire_loop c p (some stamp) turns r).1
unfolding acquire_loop waits
acquire_loop-HasLeft c p stamp [] r over = absurd over
acquire_loop-HasLeft c p stamp (turn ∷ turns) r over =
    finish-HasLeft c stamp turn.late _ (round c p (some stamp) (turn.others r))
      (λ s ov. acquire_loop-HasLeft c p stamp turns s ov) (round-Owes c p stamp (turn.others r))
      over
