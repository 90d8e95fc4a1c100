-- ===== src/Lib.antt =====
-- Pitchfork supervises daemons: it starts them in the order of their dependencies, keeps what it
-- knows of them in a state file, and stops them in the reverse order. This library models the parts
-- of its Rust sources that decide what happens; processes, sockets, files, the terminal and the
-- libraries it calls are parameters where a model needs them.
--
-- The parts, and where they are:
--   * Prelude, Text, Map: what the modules share. A string is the list of its code points
--     (Text); `u32` printing and parsing are in Text/Decimal; a `BTreeMap` is the list of its
--     entries in the order of the keys (Map), with its laws in Map/Laws.
--   * DaemonId: src/daemon_id.rs and `is_valid_daemon_id` of src/daemon.rs. `try_new`, `parse`,
--     `from_safe_path`, `qualified`, `safe_path`, `validate_component` and `validate_qualified_id`
--     have the names of the source; `panicked` is the panic of an `unwrap` or `expect`.
--   * Config: the values of a configuration, of src/config_types.rs and src/pitchfork_toml.rs.
--   * Deps: src/deps.rs. `resolve_dependencies` is `collect` (the queue), `add_nodes` and `add_all`
--     (the graph), `process_levels` with `process_level` and `release` (the levels); and
--     `compute_reverse_stop_order_with_config`, which uses it. Names that are close to an unknown
--     one are those of `find_similar_daemon` in src/error.rs.
--   * Daemon: `Daemon`, `RunOptions` and `to_run_options` of src/daemon.rs, src/daemon_status.rs;
--     Daemon/Options: `UpsertDaemonOpts` of src/supervisor/state.rs and the merge of `upsert_daemon`.
--   * State: src/state_file.rs, one function for each method of `StateFile`; State/Access: the
--     methods of `Supervisor` in src/supervisor/state.rs, each one step, since it holds the lock;
--     State/Saving: `write`, `write_unlocked`, `write_raw` and, of src/supervisor/mod.rs,
--     `flush_state`; State/Ops: the changes as data, so that a run is a list of them.
--   * Migration: `looks_like_old_format` and `migrate_old_format` of src/state_file.rs, on the table of
--     daemons; the values of the TOML library are a parameter.
--   * Autostop: src/supervisor/autostop.rs: `leave_dir`, `cancel_pending_autostops_for_dir` and
--     `process_pending_autostops`, on the state, the deadlines and the notifications of the
--     supervisor. `stop` is any function, and its calls are recorded.
--   * Retry: src/supervisor/retry.rs: `check_retry`, with the runs and the hooks it starts recorded.
--   * Ipc: the messages of src/ipc/mod.rs.
--   * Lifecycle: src/supervisor/lifecycle.rs. Run is `run`, with its attempts; Launch is `run_once` up
--     to the process and its answer, and Launch/Environment the environment of the process; Ready is
--     the loop that watches a process, one function for each branch of the `select!` (`react`), and the
--     branches that can be taken are `enabled`; Exit is what the same task does once the process has
--     exited (`exit_path`); Stop is `stop`; Ports is `check_ports_available`; Identity is the user that a
--     process runs as.
--   * Batch: src/ipc/batch.rs: `build_run_options` with `to_run_options` of src/pitchfork_toml.rs,
--     Batch/Start for `start_daemons` and Batch/Stop for `stop_daemons`, both on top of Deps; Paths is
--     the part of `std::path` that it uses.
--   * Toml: src/pitchfork_toml.rs. Toml/Namespaces is the namespace of a file, Toml/Parse is `parse_str`
--     and `read`, on what the TOML library makes of a file, Toml/Merge is `merge`, `list_paths_from`,
--     `all_merged_from` and `all_merged_all_namespaces`, and Toml/Resolve and Toml/Commands are the
--     functions `resolve_*`, from what a user writes to identifiers.
--   * DaemonList: src/daemon_list.rs, the daemons of the state and of the configuration as one list, on
--     top of State and Toml.
--   * Limits: `check_resource_limits` and its rounds in `interval_watch`, of src/supervisor/watchers.rs.
--   * Cron: `check_cron_schedules` and `register_config_cron_daemons` of src/supervisor/watchers.rs.
--
-- A batch asks the supervisor to run and stop daemons; running one (Lifecycle) writes to the state
-- (State/Access), which autostop and retries read, and which is saved (State/Saving). How these follow
-- one another is the lists of events and the functions for what other tasks do in the meantime.
--
-- State is passed from step to step. An error is a value: Result of Prelude/Results, with the errors
-- of src/error.rs as constructors, without the texts that are only printed.
--
-- Fuel: `collect` takes as many rounds as there are requested daemons and dependencies in the
-- configuration; each round takes one entry off the queue, and each daemon puts its dependencies on
-- it once. `process_levels` takes one round more than there are daemons to start; each round but the
-- last removes one daemon at least. `digits` takes n + 1 rounds for n. `search` takes
-- one round more than there are daemons, each with another candidate. `bump_from` takes a round for
-- each offset up to the maximum, and `attempts_from` one for each attempt, as the loops of the source
-- do. Elsewhere loops are recursion on a list.
--
-- Parameters: the order in which a hash set is iterated (any permutation), the fuzzy matcher, the
-- serializer, the outcome of each step on the disk, the table of processes, and the configuration
-- where it is read anew; the measured use of memory and processors, and
-- the times of a schedule; for a life cycle also the ports in use, the users, the process that is
-- spawned, how a kill ends, the events of a watch in their order, and what other tasks do to the
-- state while one waits; for a batch the answer to each task and the template library; for a
-- configuration the files, the TOML library and the generated settings. A path is the text of its
-- normal form, an instant is a number, and the float of a CPU limit is its bit pattern, with
-- the order of `f32` in Limits.
--
-- Not modelled: reading the state file as a whole; the raw forms of the values of a configuration
-- and its writing; the watching of files and the other timers; the reading and logging of output and the polling for
-- the port that a process listens on; the transport of messages; the proxy, the web server, the log
-- store and the user interfaces. They are input and output for the most part, or stand on the parts
-- that are here.
pub mod Prelude
pub mod Text
pub mod Map
pub mod DaemonId
pub mod Config
pub mod Similar
pub mod Deps
pub mod Daemon
pub mod State
pub mod Autostop
pub mod Retry
pub mod Migration
pub mod Ipc
pub mod Lifecycle
pub mod Paths
pub mod Batch
pub mod Toml
pub mod DaemonList
pub mod Limits
pub mod Cron
