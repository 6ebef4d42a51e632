-- ===== src/Scheduler.antt =====
-- src/scheduler/: the runtime directory as a state, and the operations on its slots. The directory is
-- private to one user, and its files are read and written without errors of the operating system;
-- what the program does with the content of a file is modelled. The control sockets are left out.
pub mod Acquire
pub mod Capacity
pub mod Clients
pub mod Slots
use agent_gov.Base.{
  ℕ, zero, suc, ◌+◌, ◌%◌, Bool, true, false, not, ◌&&◌, ◌||◌, Option, none, some, List, [], ◌∷◌,
  Text, lit, nat_eqb, ltb, leb, if◌then◌else◌, length, all, is_hexdigit, ◌++◌, FilePath,
}
use agent_gov.Config.{within}
use agent_gov.Error.{Result, ok, err, panicked, GovError, runtime, internal, ◌>>=◌}

pub record ActiveMetadata : Type 0 where
  pub schema_version : ℕ
  pub state : Text
  pub job_id : Text
  pub owner : Text
  pub supervisor_pid : ℕ
  pub child_pid : Option ℕ
  pub label : Text

unfoldable pub starting : Text → Text → ℕ → ActiveMetadata
starting job_id owner supervisor_pid = record {
  schema_version = 1;
  state = lit "starting";
  job_id = job_id;
  owner = owner;
  supervisor_pid = supervisor_pid;
  child_pid = none;
  label = lit "heavy";
}

unfoldable pub running : Text → Text → ℕ → ℕ → Text → ActiveMetadata
running job_id owner supervisor_pid child_pid label = record {
  schema_version = 1;
  state = lit "running";
  job_id = job_id;
  owner = owner;
  supervisor_pid = supervisor_pid;
  child_pid = some child_pid;
  label = label;
}

-- The file `active/slot-N.json`.
pub data ActiveFile : Type 0 where
  missing unreadable : ActiveFile
  holds : ActiveMetadata → ActiveFile

-- A slot: who holds the lock of its file, and its active file.
pub record Slot : Type 0 where
  pub lock : Option ℕ
  pub active : ActiveFile

-- A lease file: the number in its name, by which the files are sorted, its owner if it can be read,
-- and whether a live process holds its lock.
pub record Waiter : Type 0 where
  pub stamp : ℕ
  pub owner : Option Text
  pub held : Bool

-- `capacity_file` is what the file parses to.
pub record Runtime : Type 0 where
  pub capacity_file : Option ℕ
  pub draining : Bool
  pub slot : ℕ → Slot
  pub waiters : List Waiter
  pub process_alive : ℕ → Bool

pub checked_capacity : ℕ → Result ℕ
checked_capacity n =
    if within 1 2 n then ok n else err (runtime (lit "runtime capacity must be 1 or 2"))

pub capacity : Runtime → Result ℕ
capacity r = elim r.capacity_file [
  | none ↦ err (runtime (lit "invalid runtime capacity"))
  | some n ↦ checked_capacity n
]

pub set_slot : Runtime → ℕ → Slot → Runtime
set_slot r i s = record r { slot = λ j. if nat_eqb j i then s else r.slot j }

abbrev pub child_alive : (ℕ → Bool) → Option ℕ → Bool
child_alive alive none = false
child_alive alive (some pid) = alive pid

abbrev pub is_alive : Runtime → ActiveMetadata → Bool
is_alive r m = r.process_alive m.supervisor_pid || child_alive r.process_alive m.child_pid

quarantine : Runtime → ℕ → ActiveFile → Bool × Runtime
quarantine r i missing = (false, r)
quarantine r i unreadable = (true, r)
quarantine r i (holds m) =
    if is_alive r m
    then (true, r)
    else (false, set_slot r i (record (r.slot i) { active = missing }))

-- A slot is left alone while the process that its file names lives, and cleared once it is dead.
pub slot_quarantined : Runtime → ℕ → Bool × Runtime
slot_quarantined r i = quarantine r i (r.slot i).active

is_free : Option ℕ → Bool
is_free none = true
is_free (some pid) = false

-- The rounds of `try_slots` that are left, from an offset on.
pub try_from : ℕ → ℕ → ℕ → ℕ → Runtime → Option ℕ × Runtime
try_from zero offset capacity pid r = (none, r)
try_from (suc rounds) offset capacity pid r =
    let slot = (pid + offset) % capacity in
    let (quarantined, cleared) = slot_quarantined r slot in
    let later = try_from rounds (offset + 1) capacity pid cleared in
    if quarantined || not (is_free (cleared.slot slot).lock)
    then later
    else (some slot, set_slot cleared slot (record (cleared.slot slot) { lock = some pid }))

pub try_slots : ℕ → Runtime → Result (Option ℕ × Runtime)
try_slots pid r = do n ← capacity r; ok (try_from n 0 n pid r)

-- `control_path`: a job id that could leave the directory is refused.
unfoldable pub control_name : Text → Text → Result Text
control_name namespace job_id =
    if not (nat_eqb (length job_id) 16) || not (all is_hexdigit job_id)
    then err (runtime (lit "invalid job id in runtime metadata"))
    else ok (namespace ++ lit "-" ++ job_id ++ lit ".sock")

-- `Permit::mark_starting`, `Permit::mark_running`, and the three effects of dropping a permit, in
-- their order: the active file goes first, the lock last.
pub mark_starting : Text → Text → ℕ → ℕ → Runtime → Runtime
mark_starting job_id owner pid i r =
    set_slot r i (record (r.slot i) { active = holds (starting job_id owner pid) })

pub mark_running : Text → Text → ℕ → ℕ → Text → ℕ → Runtime → Runtime
mark_running job_id owner pid child label i r =
    set_slot r i (record (r.slot i) { active = holds (running job_id owner pid child label) })

-- An active file that cannot be removed stays: the error is ignored.
pub remove_active : Bool → ℕ → Runtime → Runtime
remove_active true i r = set_slot r i (record (r.slot i) { active = missing })
remove_active false i r = r

-- The lock is free afterwards even if unlocking fails, since the file of the lock is closed.
pub unlock_slot : ℕ → Runtime → Runtime
unlock_slot i r = set_slot r i (record (r.slot i) { lock = none })

-- `removed` says whether the active file could be removed.
pub drop_permit : Bool → ℕ → Runtime → Runtime
drop_permit removed i r = unlock_slot i (remove_active removed i r)

has_file : ActiveFile → Bool
has_file missing = false
has_file file = true

pub active_count : Runtime → ℕ
active_count r =
    (if has_file (r.slot 0).active then 1 else 0) + (if has_file (r.slot 1).active then 1 else 0)

-- What a run on concrete arguments computes through.
unfoldable pub runs : Unit {0}
unfolding starting running checked_capacity capacity set_slot quarantine slot_quarantined is_free
    try_from try_slots control_name mark_starting mark_running remove_active unlock_slot drop_permit
    has_file active_count
runs = tt
