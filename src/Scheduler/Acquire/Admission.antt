-- ===== src/Scheduler/Acquire/Admission.antt =====
-- Who gets a slot and who may queue: the rounds of `acquire` in src/scheduler/mod.rs.
use agent_gov.Base.{
  ℕ, ◌≤◌, ◌<◌, ◌≡◌, refl, ◌≢◌, ap, sym, subst, ◌∙◌, inl, inr, Bool, true, false, Option, none, some,
  List, [], ◌∷◌, lit, if_true, if_false, arith, Bool-cases,
}
use mathlib.Core.Path.{subst₂}
use mathlib.Core.Option.{some-injective}
use agent_gov.Config.{SchedulerConfig}
use agent_gov.Error.{Result, ok, err, panicked, GovError, temporary, >>=-eq-ok, ok-injective}
use agent_gov.Scheduler.{
  Runtime, Waiter, holds, starting, try_from, try_slots, capacity, checked_capacity, mark_starting,
}
use agent_gov.Scheduler.Slots.{Got, IsVacant, try_from-result, set_slot_self}
use agent_gov.Scheduler.Acquire.{
  Client, acquired, refused, round, attempt, settle, admitted, queue_up, may_try,
  prune_stale_waiters, remove_lease,
}

checked_capacity-range : (k n : ℕ) → checked_capacity k ≡ ok n → (1 ≤ n) × (n ≤ 2)
unfolding checked_capacity
checked_capacity-range k n h = ground arith

-- A capacity that is read is 1 or 2.
pub capacity-range : (r : Runtime) (n : ℕ) → capacity r ≡ ok n → (1 ≤ n) × (n ≤ 2)
unfolding capacity
capacity-range r n h = go r.capacity_file h
  where
    go :
        (f : Option ℕ)
        → (elim f [
          | none ↦ err (GovError.runtime (lit "invalid runtime capacity"))
          | some k ↦ checked_capacity k
        ])
          ≡ ok n
        → (1 ≤ n) × (n ≤ 2)
    go none e = absurd (cc)
    go (some k) e = checked_capacity-range k n e

-- A search that finds a slot.
pub try_slots-Got :
    (pid slot : ℕ) (r r' : Runtime)
    → try_slots pid r ≡ ok (some slot, r')
    → (n : ℕ) × (capacity r ≡ ok n) × Got n pid slot r r'
unfolding try_slots
try_slots-Got pid slot r r' h =
    let (n, read, rest) = >>=-eq-ok (capacity r) _ h in
    let pair : try_from n 0 n pid r ≡ (some slot, r') = ok-injective _ _ rest in
    elim (try_from-result n 0 n pid r (capacity-range r n read).0) [
      | inl (nothing, clears) ↦
          absurd (cc (sym nothing ∙ ap (λ (q : Option ℕ × Runtime). q.0) pair))
      | inr (found, e, got) ↦
          let same : found ≡ slot =
            some-injective _ _ (sym e ∙ ap (λ (q : Option ℕ × Runtime). q.0) pair) in
          (
            n,
            read,
            subst₂ (λ k q. Got n pid k r q) same (ap (λ (q : Option ℕ × Runtime). q.1) pair) got,
          )
    ]

-- The turn of a client: with a lease it stands first, without one nobody waits.
abbrev pub ItsTurn : Option ℕ → List Waiter → Type 0
ItsTurn none waiters = waiters ≡ []
ItsTurn (some stamp) waiters =
    (w : Waiter) × (ws : List Waiter) × (waiters ≡ w ∷ ws) × (w.stamp ≡ stamp)

may_try-ItsTurn :
    (lease : Option ℕ) (waiters : List Waiter)
    → may_try lease waiters ≡ true
    → ItsTurn lease waiters
unfolding may_try
may_try-ItsTurn none [] h = refl
may_try-ItsTurn none (w ∷ ws) h = absurd (cc)
may_try-ItsTurn (some stamp) [] h = absurd (cc)
may_try-ItsTurn (some stamp) (w ∷ ws) h = (w, ws, refl, ground arith)

admitted-waits :
    (p : Client) (r : Runtime) (a : Result (Unit {0})) (slot : ℕ)
    → (admitted p r a).0 ≢ acquired slot
unfolding admitted
admitted-waits p r (ok u) slot h = cc
admitted-waits p r (err e) slot h = cc
admitted-waits p r panicked slot h = cc

queue_up-waits :
    (c : SchedulerConfig) (p : Client) (lease : Option ℕ) (waiters : List Waiter) (r : Runtime)
    (slot : ℕ)
    → (queue_up c p lease waiters r).0 ≢ acquired slot
unfolding queue_up
queue_up-waits c p (some stamp) waiters r slot h = cc
queue_up-waits c p none waiters r slot h = admitted-waits p r _ slot h

-- What a client has got that may start its workload.
pub record Started (c : SchedulerConfig) (p : Client) (lease : Option ℕ) (slot : ℕ) (r r' : Runtime)
    : Type 0 where
  pub open_for_work : r.draining ≡ false
  pub in_turn : ItsTurn lease (prune_stale_waiters r).waiters
  pub within : (n : ℕ) × (capacity r ≡ ok n) × (slot < n)
  pub unlocked : (r.slot slot).lock ≡ none
  pub was_vacant : IsVacant r (r.slot slot).active
  pub locked : (r'.slot slot).lock ≡ some p.pid
  pub recorded : (r'.slot slot).active ≡ holds (starting p.job_id p.owner p.pid)

pub remove_lease-slot :
    (lease : Option ℕ) (r : Runtime) (i : ℕ) → (remove_lease lease r).slot i ≡ r.slot i
unfolding remove_lease
remove_lease-slot none r i = refl
remove_lease-slot (some stamp) r i = refl

mark_starting-slot :
    (p : Client) (i : ℕ) (r : Runtime)
    → (mark_starting p.job_id p.owner p.pid i r).slot i
      ≡ record (r.slot i) { active = holds (starting p.job_id p.owner p.pid) }
unfolding mark_starting
mark_starting-slot p i r = set_slot_self r i _

settle-Started :
    (c : SchedulerConfig) (p : Client) (lease : Option ℕ) (slot : ℕ) (r : Runtime)
    (tried : Result (Option ℕ × Runtime))
    → r.draining ≡ false
    → may_try lease (prune_stale_waiters r).waiters ≡ true
    → try_slots p.pid (prune_stale_waiters r) ≡ tried
    → (settle c p lease (prune_stale_waiters r).waiters (prune_stale_waiters r) tried).0
      ≡ acquired slot
    → Started c p lease slot r
        (settle c p lease (prune_stale_waiters r).waiters (prune_stale_waiters r) tried).1
unfolding settle prune_stale_waiters capacity
settle-Started c p lease slot r (ok (none, r')) o t e h =
    absurd (queue_up-waits c p lease _ r' slot h)
settle-Started c p lease slot r (err g) o t e h = absurd (cc)
settle-Started c p lease slot r panicked o t e h = absurd (cc)
settle-Started c p lease slot r (ok (some found, r')) o t e h =
    let (n, read, got) = try_slots-Got p.pid found (prune_stale_waiters r) r' e in
    let same : found ≡ slot = ground arith in
    subst
      (λ k.
        Started c p lease k r (mark_starting p.job_id p.owner p.pid found (remove_lease lease r')))
      same
      (record {
        open_for_work = o;
        in_turn = may_try-ItsTurn lease _ t;
        within = (n, read, got.within);
        unlocked = got.unlocked;
        was_vacant = got.was_vacant;
        locked =
            ap (λ s. s.lock) (mark_starting-slot p found (remove_lease lease r'))
            ∙ ap (λ s. s.lock) (remove_lease-slot lease r' found)
            ∙ got.locked;
        recorded = ap (λ s. s.active) (mark_starting-slot p found (remove_lease lease r'));
      })

attempt-Started :
    (c : SchedulerConfig) (p : Client) (lease : Option ℕ) (r : Runtime) (slot : ℕ) (turn : Bool)
    → r.draining ≡ false
    → may_try lease (prune_stale_waiters r).waiters ≡ turn
    → (attempt c p lease turn (prune_stale_waiters r)).0 ≡ acquired slot
    → Started c p lease slot r (attempt c p lease turn (prune_stale_waiters r)).1
unfolding attempt
attempt-Started c p lease r slot true o t h = settle-Started c p lease slot r _ o t refl h
attempt-Started c p lease r slot false o t h =
    absurd (queue_up-waits c p lease _ (prune_stale_waiters r) slot h)

-- A draining governor turns everybody away.
pub round-draining :
    (c : SchedulerConfig) (p : Client) (lease : Option ℕ) (r : Runtime)
    → r.draining ≡ true
    → round c p lease r
      ≡ (refused (temporary (lit "governor is draining; retry later")), prune_stale_waiters r)
unfolding round prune_stale_waiters
round-draining c p lease r h = if_true r.draining _ _ h

-- Otherwise it is up to the queue.
pub round-open :
    (c : SchedulerConfig) (p : Client) (lease : Option ℕ) (r : Runtime)
    → r.draining ≡ false
    → round c p lease r
      ≡ attempt c p lease (may_try lease (prune_stale_waiters r).waiters) (prune_stale_waiters r)
unfolding round prune_stale_waiters
round-open c p lease r h = if_false r.draining _ _ h

-- A client that a round of `acquire` gives a slot: the governor is not draining (the code turns away
-- also a client that waits already), it is the client's turn (without a lease nobody waits, with one
-- it is the first in the queue), the slot is one of the capacity, nobody held its lock, its active
-- file named no living supervisor and no living child, and afterwards the lock is the client's and the
-- file says that it is starting.
pub round-Started :
    (c : SchedulerConfig) (p : Client) (lease : Option ℕ) (r : Runtime) (slot : ℕ)
    → (round c p lease r).0 ≡ acquired slot
    → Started c p lease slot r (round c p lease r).1
round-Started c p lease r slot h = elim (Bool-cases r.draining) [
  | inl d ↦ absurd (cc (round-draining c p lease r d))
  | inr o ↦
      let e = round-open c p lease r o in
      subst (λ q. Started c p lease slot r q.1) (sym e)
        (attempt-Started c p lease r slot _ o refl (subst (λ q. q.0 ≡ acquired slot) e h))
]
