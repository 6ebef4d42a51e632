-- ===== src/Scheduler/Clients/Semaphore.antt =====
-- The clients of src/scheduler/ together are a semaphore: two permits at most, and none for the same slot.
use agent_gov.Base.{
  ℕ, suc, ◌≤◌, ◌<◌, ◌≡◌, refl, ◌≢◌, ap, sym, ◌∙◌, inl, inr, Bool, true, not, Option, some, List, [],
  ◌∷◌, All, filter, length, if_false, arith, Bool-cases, nat_eqb, Text,
}
use agent_gov.Scheduler.{Runtime, mark_running, drop_permit}
use agent_gov.Scheduler.Slots.{drop_permit-ne}
use agent_gov.Scheduler.Acquire.{Round}
use agent_gov.Scheduler.Acquire.Locks.{
  LockChange, took, waits, fails, aborts, round-LockChange, set_active-lock,
}
use agent_gov.Scheduler.Clients.{
  Permit, System, gain, without_slot, without_pid, freed, end_process, Step, enters, marks, leaves,
  ends, begins, leases, resizes, Steps, stays, goes_on,
}

-- The abstract semaphore, by the number of its permits: it grants one while fewer than two are out, and
-- takes any back.
pub data SemaphoreStep : ℕ → ℕ → Type 0 where
  grant : (n : ℕ) → n < 2 → SemaphoreStep n (suc n)
  release : (n m : ℕ) → m ≤ n → SemaphoreStep n m

-- No two permits are for one slot.
abbrev pub Distinct : List Permit → Type 0
Distinct [] = Unit
Distinct (p ∷ ps) = All (λ q. q.slot ≢ p.slot) ps × Distinct ps

-- The lock of the slot is the permit's.
abbrev pub IsHeld : Runtime → Permit → Type 0
IsHeld r p = ((r.slot p.slot).lock ≡ some p.pid) × (p.slot < 2)

pub record IsExclusive (s : System) : Type 0 where
  pub held : All (IsHeld s.runtime) s.permits
  pub distinct : Distinct s.permits

All-weaken :
    (P Q : Permit → Type 0) (ps : List Permit) → ((p : Permit) → P p → Q p) → All P ps → All Q ps
All-weaken P Q [] f h = tt
All-weaken P Q (p ∷ ps) f h = (f p h.0, All-weaken P Q ps f h.1)

All-filter :
    (P Q : Permit → Type 0) (b : Permit → Bool) (ps : List Permit)
    → ((p : Permit) → b p ≡ true → P p → Q p)
    → All P ps
    → All Q (filter b ps)
unfolding filter
All-filter P Q b [] f h = tt
All-filter P Q b (p ∷ ps) f h = elim (Bool-cases (b p)) [
  | inl e ↦ rw e (f p e h.0, All-filter P Q b ps f h.1)
  | inr e ↦ rw e (All-filter P Q b ps f h.1)
]

Distinct-filter : (b : Permit → Bool) (ps : List Permit) → Distinct ps → Distinct (filter b ps)
unfolding filter
Distinct-filter b [] h = tt
Distinct-filter b (p ∷ ps) h = elim (Bool-cases (b p)) [
  | inl e ↦ rw e (
    All-filter (λ q. q.slot ≢ p.slot) (λ q. q.slot ≢ p.slot) b ps (λ q k ne. ne) h.0,
    Distinct-filter b ps h.1,
  )
  | inr e ↦ rw e (Distinct-filter b ps h.1)
]

length-filter : (b : Permit → Bool) (ps : List Permit) → length (filter b ps) ≤ length ps
unfolding filter
length-filter b [] = omega arith
length-filter b (p ∷ ps) = elim (Bool-cases (b p)) [
  | inl e ↦ rw e (omega (arith, length-filter b ps))
  | inr e ↦ rw e (omega (arith, length-filter b ps))
]

-- There are no three slots.
at_most_two : (r : Runtime) (ps : List Permit) → All (IsHeld r) ps → Distinct ps → length ps ≤ 2
at_most_two r [] h d = omega arith
at_most_two r (p ∷ []) h d = omega arith
at_most_two r (p ∷ q ∷ []) h d = omega arith
at_most_two r (p ∷ q ∷ s ∷ ps) h d =
    let pq = d.0.0 in
    let ps' = d.0.1.0 in
    let qs = d.1.0.0 in
    let a = h.0.1 in
    let b = h.1.0.1 in let c = h.1.1.0.1 in absurd (ground (arith, pq, ps', qs, a, b, c))

-- A change of the runtime that leaves the locks.
IsHeld-same :
    (r r' : Runtime) (ps : List Permit)
    → ((i : ℕ) → (r'.slot i).lock ≡ (r.slot i).lock)
    → All (IsHeld r) ps
    → All (IsHeld r') ps
IsHeld-same r r' ps same h =
    All-weaken (IsHeld r) (IsHeld r') ps (λ p k. (same p.slot ∙ k.0, k.1)) h

-- A step of the system is a step of the semaphore, and keeps the permits exclusive.
abbrev pub Refines : System → System → Type 0
Refines s t = SemaphoreStep (length s.permits) (length t.permits) × IsExclusive t

still :
    (r r' : Runtime) (ps : List Permit)
    → ((i : ℕ) → (r'.slot i).lock ≡ (r.slot i).lock)
    → IsExclusive (record { runtime = r; permits = ps })
    → Refines (record { runtime = r; permits = ps }) (record { runtime = r'; permits = ps })
still r r' ps same h = (
  release (length ps) (length ps) (omega arith),
  record { held = IsHeld-same r r' ps same h.held; distinct = h.distinct },
)

enters-Refines :
    (pid : ℕ) (r r' : Runtime) (o : Round) (ps : List Permit)
    → LockChange pid r r' o
    → IsExclusive (record { runtime = r; permits = ps })
    → Refines
        (record { runtime = r; permits = ps })
        (record { runtime = r'; permits = gain pid o ps })
unfolding gain
enters-Refines pid r r' _ ps (waits stamp same) h = still r r' ps same h
enters-Refines pid r r' _ ps (fails e same) h = still r r' ps same h
enters-Refines pid r r' _ ps (aborts same) h = still r r' ps same h
enters-Refines pid r r' _ ps (took slot low unlocked locked others) h =
    let ne : (q : Permit) → IsHeld r q → q.slot ≢ slot =
      λ q k same. cc (sym (k.0) ∙ ap (λ i. (r.slot i).lock) same ∙ unlocked) in
    let held' : All (IsHeld r') ps =
      All-weaken (IsHeld r) (IsHeld r') ps (λ q k. (others q.slot (ne q k) ∙ k.0, k.1)) h.held in
    let distinct' : Distinct (record { slot = slot; pid = pid } ∷ ps) =
      (All-weaken (IsHeld r) (λ q. q.slot ≢ slot) ps ne h.held, h.distinct) in
    let two =
      at_most_two r' (record { slot = slot; pid = pid } ∷ ps) ((locked, low), held') distinct' in
    (
      grant (length ps) (omega (arith, two)),
      record { held = ((locked, low), held'); distinct = distinct' },
    )

drop_permit-lock :
    (removed : Bool) (r : Runtime) (i j : ℕ)
    → j ≢ i
    → ((drop_permit removed i r).slot j).lock ≡ (r.slot j).lock
drop_permit-lock removed r i j ne = ap (λ s. s.lock) (drop_permit-ne removed r i j ne)

mark_running-lock :
    (job_id owner label : Text) (pid child i : ℕ) (r : Runtime) (j : ℕ)
    → ((mark_running job_id owner pid child label i r).slot j).lock ≡ (r.slot j).lock
unfolding mark_running
mark_running-lock job_id owner label pid child i r j = set_active-lock r i j _ refl

not_same : (i j : ℕ) → not (nat_eqb i j) ≡ true → i ≢ j
not_same i j h = ground arith

freed-other :
    (pid holder : ℕ) (l : Option ℕ) → l ≡ some holder → holder ≢ pid → freed pid l ≡ some holder
unfolding freed
freed-other pid holder l h ne = rw h (if_false (nat_eqb holder pid) _ _ (ground arith))

-- The clients refine the semaphore: every step of a client, of the kernel or of a command is a step of
-- the semaphore on the number of permits, and keeps every permit holding its slot's lock alone.
pub Step-Refines : (s t : System) → IsExclusive s → Step s t → Refines s t
unfolding without_slot without_pid end_process
Step-Refines _ _ h (enters c p lease r ps) =
    enters-Refines p.pid r _ _ ps (round-LockChange c p lease r) h
Step-Refines _ _ h (marks job_id owner label child p r ps mine) =
    still r _ ps (λ i. mark_running-lock job_id owner label p.pid child p.slot r i) h
Step-Refines _ _ h (leaves p removed r ps mine) = (
  release (length ps) _ (length-filter _ ps),
  record {
    held =
        All-filter (IsHeld r) (IsHeld (drop_permit removed p.slot r))
          (λ q. not (nat_eqb q.slot p.slot)) ps
          (λ q other k.
            (drop_permit-lock removed r p.slot q.slot (not_same q.slot p.slot other) ∙ k.0, k.1))
          h.held;
    distinct = Distinct-filter _ ps h.distinct;
  },
)
Step-Refines _ _ h (ends pid waiters r ps) = (
  release (length ps) _ (length-filter _ ps),
  record {
    held =
        All-filter (IsHeld r) (IsHeld (end_process pid waiters r)) (λ q. not (nat_eqb q.pid pid)) ps
          (λ q other k.
            (freed-other pid q.pid (r.slot q.slot).lock k.0 (not_same q.pid pid other), k.1))
          h.held;
    distinct = Distinct-filter _ ps h.distinct;
  },
)
Step-Refines _ _ h (begins alive r ps) = still r _ ps (λ i. refl) h
Step-Refines _ _ h (leases waiters r ps) = still r _ ps (λ i. refl) h
Step-Refines _ _ h (resizes capacity draining r ps) = still r _ ps (λ i. refl) h

-- From a system whose permits are exclusive, as one without permits, no run of steps, in whatever order
-- the clients take them, with crashes and changes of the capacity between, comes to more than two
-- permits, two permits for one slot, or a permit whose slot somebody else has locked.
pub Steps-IsExclusive :
    (s t : System) → IsExclusive s → Steps s t → IsExclusive t × (length t.permits ≤ 2)
Steps-IsExclusive s _ h stays = (h, at_most_two s.runtime s.permits h.held h.distinct)
Steps-IsExclusive s _ h (goes_on t u before last) =
    let (mid, few) = Steps-IsExclusive s t h before in
    let (step, after) = Step-Refines t u mid last in
    (after, at_most_two u.runtime u.permits after.held after.distinct)
