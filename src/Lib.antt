-- ===== src/Lib.antt =====
-- Agent Governor (agent-gov) keeps the heavy build commands of coding agents from overloading a machine.
-- A hook reads the shell command that an agent is about to run, and puts a call of `agent-gov run` in
-- front of each heavy command in it; that call waits for one of one or two slots, runs the command, and
-- gives the slot back.
--
-- The parts and the files that model them:
--   Base        texts as lists of bytes, lists, decimal numbers, file names
--   Error       src/error.rs: `GovError`, `exit_code`; results with a case for a panic
--   Config      src/config.rs: the configuration, `default_config`, `validate`, `load_from`,
--               `load_safe_config` (src/main.rs); Config/Spans: durations as text;
--               Config/Saving: `save`
--   Shell       src/shell/: Classify (classify.rs, `classify_argv`, `normalize`), Parse (parse.rs,
--               `analyze`, `walk`), Compare (parse.rs, `rewrite_preserves_structure`), Rewrite
--               (rewrite.rs, `rewrite`, `quote_posix`, `safe_owner`)
--   Json        the JSON values that the hook reads and writes
--   Hook        src/hook/mod.rs: `handle`, `choose`, `consult_rtk`; Hook/Rtk: src/hook/rtk.rs
--   Scheduler   src/scheduler/: the runtime directory as a record `Runtime`, `try_slots`,
--               `slot_quarantined`, permits; Acquire (`acquire`: one round under the queue lock, and the
--               loop), Capacity (`set_drain`, `set_capacity_transactional`), Clients (several clients, the
--               kernel and the commands on one runtime, step by step)
--   Status      src/status.rs: `collect`, `human`
--   Commands    src/main.rs: `configure`, `cancel` up to its request (Cancel), `run` (Run),
--               `parse_agents` (Agents); the exit code of src/doctor.rs
--   Install     src/install/mod.rs: `install`, `uninstall`; Files (`write_atomic` of
--               src/scheduler/runtime.rs over a disk whose writes fail), Commit (`commit_settings`,
--               `rollback_settings`), Manifest (`install_manifest`, `uninstall_action`, `read_manifest`),
--               Hooks (which hooks are whose), Patch (`patch_claude`, `patch_cursor` and back);
--               Prepared, Stored and RoundTrip relate preparing, committing and uninstalling
--   Doctor      src/doctor.rs: `Report::run`, `check_rtk`, `check_hook`, `human`
--   Supervisor  src/supervisor.rs: the loop of `supervise`, `exit_code`
--   Tests       runs and theorems at concrete data
--
-- How the parts interact: the hook analyses a command with Shell.Parse, whose segments Shell.Classify has
-- classified, asks RTK, compares RTK's rewrite with Shell.Compare, and rewrites with Shell.Rewrite. The
-- command that results is a call of Scheduler.Acquire, whose rounds work on a `Runtime` between which
-- other clients act; Capacity and the commands work on the same `Runtime`, and Status reads it.
--
-- The installer puts the hook into the settings of the agents: it prepares all settings, which only reads,
-- and commits them one by one, each with a backup and a manifest; an error takes back what was written. A
-- `Disk` tells how each of its next writes ends. The supervisor runs a command while it has a slot: a
-- `World` tells for each round of its loop what signals and requests have come, what the clock shows at
-- each reading, and whether the child has ended, which may hang on the signals it was sent.
--
-- Numbers are natural numbers; the one place where their width matters, the parsing of a duration, checks
-- it. A text is its bytes, so that spans are byte offsets as in the source, and a slice or an insertion
-- off a character boundary is a panic. Loops are structural: `normalize_loop` has the number of arguments
-- as its fuel, of which each round uses one up; `try_from` counts the slots; `acquire_loop` goes over a
-- list of turns, one for each round, in which the other clients act. The loop of the
-- supervisor is on fuel, one unit a round; the theorem on its end says how many rounds are enough.
--
-- Not modelled: what libraries do (the Bash grammar, the word splitter, JSON and TOML, SHA-256), which are
-- arguments; spawning processes, terminals, sockets, locks of files, directories and file permissions, which
-- are operating system calls whose ends are arguments where the logic depends on them; the errors of reading
-- the runtime directory and of writing it, but for `set_drain` and a change of the capacity, where it is
-- given how each call ends.
pub mod Base
pub mod Error
pub mod Config
pub mod Shell
pub mod Json
pub mod Hook
pub mod Scheduler
pub mod Status
pub mod Commands
pub mod Install
pub mod Doctor
pub mod Supervisor
pub mod Tests
