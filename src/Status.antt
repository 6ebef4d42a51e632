-- ===== src/Status.antt =====
-- src/status.rs: what `agent-gov status` reports of the runtime directory. An active file that cannot
-- be parsed fails with the error of the JSON library, which is an argument.
use agent_gov.Base.{
  ℕ, zero, suc, ◌≡◌, refl, ap, subst, Bool, true, false, Option, none, some, List, [], ◌∷◌, ◌++◌,
  Text, lit, length, filter, if◌then◌else◌, decimal, All,
}
use agent_gov.Error.{Result, ok, err, GovError, ◌>>=◌, >>=-eq-ok, ok-injective}
use agent_gov.Scheduler.{Runtime, ActiveMetadata, ActiveFile, missing, unreadable, holds, capacity}

pub record SlotStatus : Type 0 where
  pub slot : ℕ
  pub locked : Bool
  pub metadata : Option ActiveMetadata

pub record Status : Type 0 where
  pub schema_version : ℕ
  pub capacity : ℕ
  pub active : List SlotStatus
  pub waiting : ℕ
  pub max_waiting : ℕ
  pub draining : Bool

is_held : Option ℕ → Bool
is_held none = false
is_held (some pid) = true

-- `Runtime::slot_locked`: the lock cannot be taken.
pub slot_locked : Runtime → ℕ → Bool
slot_locked r i = is_held (r.slot i).lock

pub metadata_line : ℕ → Option ActiveMetadata → List Text
metadata_line slot none = []
metadata_line slot (some m) =
    (lit "  slot-"
      ++ decimal slot
      ++ lit ": job "
      ++ m.job_id
      ++ lit ", pid "
      ++ decimal m.supervisor_pid
      ++ lit ", class "
      ++ m.label)
    ∷ []

slot_lines : List SlotStatus → List Text
slot_lines [] = []
slot_lines (s ∷ ss) = metadata_line s.slot s.metadata ++ slot_lines ss

pub join : Text → List Text → Text
join separator [] = []
join separator (l ∷ ls) = l ++ rest ls
  where
    rest : List Text → Text
    rest [] = []
    rest (k ∷ ks) = separator ++ k ++ rest ks

pub human : Status → Text
human s = join (10 ∷ []) (
    (lit "policy: enforce"
      ∷ (lit "heavy capacity: " ++ decimal s.capacity)
      ∷ (lit "active: "
          ++ decimal (length (filter (λ i. i.locked) s.active))
          ++ lit "/"
          ++ decimal s.capacity)
      ∷ [])
    ++ slot_lines s.active
    ++ ((lit "waiting: " ++ decimal s.waiting ++ lit "/" ++ decimal s.max_waiting)
        ∷ (lit "draining: " ++ (if s.draining then lit "yes" else lit "no"))
        ∷ []))

module _ (bad_json : GovError) where
  unfoldable pub parsed : ActiveFile → Result (Option ActiveMetadata)
  parsed missing = ok none
  parsed unreadable = err bad_json
  parsed (holds m) = ok (some m)

  unfoldable pub active_metadata : Runtime → ℕ → Result (Option ActiveMetadata)
  active_metadata r i = parsed (r.slot i).active

  -- The slots from one on, as many as are left.
  collect_from : Runtime → ℕ → ℕ → Result (List SlotStatus)
  collect_from r i zero = ok []
  collect_from r i (suc left) = do
    m ← active_metadata r i
    rest ← collect_from r (suc i) left
    ok (record { slot = i; locked = slot_locked r i; metadata = m } ∷ rest)

  pub collect : Runtime → ℕ → Result Status
  collect r max_waiting = do
    n ← capacity r
    active ← collect_from r 0 n
    ok (record {
      schema_version = 1;
      capacity = n;
      active = active;
      waiting = length r.waiters;
      max_waiting = max_waiting;
      draining = r.draining;
    })

  -- A line of the report tells what is in the slot.
  pub record Reports (r : Runtime) (s : SlotStatus) : Type 0 where
    pub lock : s.locked ≡ slot_locked r s.slot
    pub file : active_metadata r s.slot ≡ ok s.metadata

  -- The slots of a report, in order.
  abbrev pub Numbered : ℕ → List SlotStatus → Type 0
  Numbered i [] = Unit
  Numbered i (s ∷ ss) = (s.slot ≡ i) × Numbered (suc i) ss

  collect_from-Reports :
      (r : Runtime) (i left : ℕ) (active : List SlotStatus)
      → collect_from r i left ≡ ok active
      → (length active ≡ left) × Numbered i active × All (Reports r) active
  unfolding collect_from
  collect_from-Reports r i zero [] h = (refl, tt, tt)
  collect_from-Reports r i zero (s ∷ ss) h = absurd (cc)
  collect_from-Reports r i (suc left) active h =
      let (m, read, more) = >>=-eq-ok (active_metadata r i) _ h in
      let (rest, later, last) = >>=-eq-ok (collect_from r (suc i) left) _ more in
      let (len, nums, all_rest) = collect_from-Reports r (suc i) left rest later in
      subst (λ l. (length l ≡ suc left) × Numbered i l × All (Reports r) l) (ok-injective _ _ last)
        (ap suc len, (refl, nums), (record { lock = refl; file = read }, all_rest))

  -- A report that is made: its capacity is the one of the runtime, it lists every slot below the
  -- capacity once and in order, each with whether its lock is held and with what its active file
  -- holds, and it counts the waiters and tells of a drain.
  pub collect-Reports :
      (r : Runtime) (max_waiting : ℕ) (s : Status)
      → collect r max_waiting ≡ ok s
      → (capacity r ≡ ok s.capacity)
        × (length s.active ≡ s.capacity)
        × Numbered 0 s.active
        × All (Reports r) s.active
        × (s.waiting ≡ length r.waiters)
        × (s.draining ≡ r.draining)
  unfolding collect
  collect-Reports r max_waiting s h =
      let (n, read, more) = >>=-eq-ok (capacity r) _ h in
      let (active, listed, last) = >>=-eq-ok (collect_from r 0 n) _ more in
      let (len, nums, reports) = collect_from-Reports r 0 n active listed in
      let same = ok-injective _ _ last in
      subst
        (λ t.
          (capacity r ≡ ok t.capacity)
          × (length t.active ≡ t.capacity)
          × Numbered 0 t.active
          × All (Reports r) t.active
          × (t.waiting ≡ length r.waiters)
          × (t.draining ≡ r.draining))
        same (read, len, nums, reports, refl, refl)

-- What a run on concrete arguments computes through.
unfoldable pub runs : Unit {0}
unfolding is_held slot_locked metadata_line slot_lines join human parsed active_metadata
    collect_from collect
runs = tt
