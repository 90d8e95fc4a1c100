-- ===== src/Lifecycle/Launch.antt =====
-- `run_once` of src/supervisor/lifecycle.rs: one attempt to run a daemon. What the operating system
-- and the settings give is the record Host; the environment of the process is in Environment.
pub mod Environment
pub mod State
pub mod Moved
use pitchfork.Prelude.{
  ℕ, ◌+◌, ◌-◌, ◌==◌, ltb, Bool, true, false, not, ◌&&◌, ◌||◌, Option, none, some, List, [], ◌∷◌,
  ◌++◌, if◌then◌else◌, is_empty, Result, ok, err, ◌>>=◌,
}
use pitchfork.Text.{Text, codes}
use pitchfork.Text.Trim.{trim}
use pitchfork.DaemonId.{DaemonId}
use pitchfork.Config.{FilePath, PortConfig, PortBump, ReadyPort, Duration}
use pitchfork.Daemon.{Daemon, running, RunOptions, and_then, unwrap_or, or_else}
use pitchfork.Daemon.Options.{UpsertDaemonOpts, Procs, from_run_options}
use pitchfork.Map.{is_some}
use pitchfork.State.{StateFile}
use pitchfork.State.Access.{upsert_daemon}
use pitchfork.Ipc.{
  IpcResponse, port_conflict, no_available_port, daemon_failed, daemon_start, daemon_ready,
  daemon_failed_with_code, Failure, shell_is_empty, shell_unreadable, exited_immediately, identity,
}
use pitchfork.Lifecycle.Ports.{u16_mod, PortError, contains_port, first_port, check_ports_available}
use pitchfork.Lifecycle.Ports
use pitchfork.Lifecycle.Identity.{RunIdentity, Users, resolve_run_identity}
use pitchfork.Lifecycle.Ready.{Notice, ready, failed}
use pitchfork.Lifecycle.Run.{Launch, not_spawned}

-- What is spawned.
pub record Command : Type 0 where
  pub program : Text
  pub args : List Text
  pub dir : FilePath
  pub env : List (Text × Text)
  pub identity : RunIdentity
  pub pty : Bool

-- A process is not spawned, or has ended before its identifier is known, or has one.
pub data Spawned : Type 0 where
  refused ended : Spawned
  started : (pid : ℕ) → Spawned

pub record Host : Type 0 where
  pub is_port_in_use : (offset port : ℕ) → Bool
  pub identify_port_owner : ℕ → ℕ × Text
  pub shell : Text
  pub split : Text → Option (List Text)
  pub join : List Text → Text
  pub mise : Bool
  pub resolve_mise_bin : Option Text
  pub users : Users
  pub supervisor_user : Text
  pub uid : ℕ
  pub gid : ℕ
  pub sudo_uid : Option Text
  pub sudo_gid : Option Text
  pub spawn : Command → Spawned
  pub procs : Procs

abbrev pub non_empty : Text → Option Text
non_empty s = if is_empty s then none else some s

-- The port that a daemon is expected to be ready on, if it has no other check.
unfoldable pub implicit_port : RunOptions → (resolved : List ℕ) → Option ℕ
implicit_port opts [] = none
implicit_port opts (p ∷ ports) =
    if not (is_some opts.ready_output)
      && not (is_some opts.ready_http)
      && not (is_some opts.ready_cmd)
      && not (is_some opts.ready_delay)
      && not (p == 0)
    then some p
    else none

-- The configured port of the check, moved as the expected ports are if it is one of them.
unfoldable pub moved_port : (configured : ℕ) (expected resolved : List ℕ) → ℕ
unfolding contains_port
moved_port configured expected resolved =
    let bump_offset = first_port resolved - first_port expected in
    if contains_port configured expected
      && ltb 0 bump_offset
      && ltb (configured + bump_offset) u16_mod
    then configured + bump_offset
    else configured

abbrev pub as_port : Option ReadyPort → Option ℕ
as_port ready_port = and_then ready_port (λ p. p.port)

unfoldable pub ready_port_of : RunOptions → (expected resolved : List ℕ) → Option ℕ
unfolding implicit_port moved_port
ready_port_of opts expected resolved = elim (as_port opts.ready_port) [
  | some configured ↦ some (moved_port configured expected resolved)
  | none ↦ implicit_port opts resolved
]

abbrev pub expected_ports : RunOptions → List ℕ
expected_ports opts = elim opts.port [ none ↦ [] | some p ↦ p.expect ]

abbrev pub bump_of : RunOptions → PortBump
bump_of opts = elim opts.port [ none ↦ record { attempts = 0 } | some p ↦ p.bump ]

abbrev pub port_response : PortError → IpcResponse
port_response (Ports.in_use port process pid) = port_conflict port process pid
port_response (Ports.no_available_port start_port attempts) = no_available_port start_port attempts

abbrev pub answer : Daemon → Option Notice → IpcResponse
answer daemon none = daemon_start daemon
answer daemon (some ready) = daemon_ready daemon
answer daemon (some (failed code)) = daemon_failed_with_code code

module _ (h : Host) where
  -- A port that is checked for readiness and taken by another process.
  unfoldable pub conflict : Option ℕ → Option IpcResponse
  conflict none = none
  conflict (some port) =
      if ltb 0 port && h.is_port_in_use 0 port
      then some (port_conflict port (h.identify_port_owner port).1 (h.identify_port_owner port).0)
      else none

  -- The ports of the daemon, and the one of its readiness check.
  unfoldable pub resolve_ports : RunOptions → Result IpcResponse (List ℕ × Option ℕ)
  unfolding ready_port_of conflict
  resolve_ports opts =
      let expected = expected_ports opts in
      let bump = (bump_of opts).attempts in
      if not (is_empty expected)
      then elim (check_ports_available h.is_port_in_use h.identify_port_owner expected (ltb 0 bump)
          bump) [
            | ok resolved ↦ ok (resolved, ready_port_of opts expected resolved)
            | err e ↦ err (port_response e)
          ]
      else elim (conflict (as_port opts.ready_port)) [
        | some response ↦ err response
        | none ↦ ok ([], as_port opts.ready_port)
      ]

  unfoldable pub shell_parts : Result Failure (Text × List Text)
  shell_parts = elim (h.split h.shell) [
    | none ↦ err shell_unreadable
    | some parts ↦ elim parts [ [] ↦ err shell_is_empty | program ∷ args ↦ ok (program, args) ]
  ]

  abbrev pub run_script : RunOptions → Text
  run_script opts = unwrap_or opts.run (h.join opts.cmd)

  unfoldable pub program_args : RunOptions → Text × List Text → Text × List Text
  program_args opts (shell_program, shell_args) =
      let plain : Text × List Text = (shell_program, shell_args ++ run_script opts ∷ []) in
      if unwrap_or opts.mise h.mise
      then elim h.resolve_mise_bin [
        | some mise_bin ↦ (
          mise_bin,
          codes "x" ∷ codes "--" ∷ shell_program ∷ (shell_args ++ run_script opts ∷ []),
        )
        | none ↦ plain
      ]
      else plain

  unfoldable pub resolve_effective_run_identity : Option Text → Result Failure RunIdentity
  resolve_effective_run_identity daemon_user =
      elim (resolve_run_identity h.users
        (or_else (and_then daemon_user (λ user. non_empty (trim user)))
          (non_empty (trim h.supervisor_user)))
        h.uid h.gid h.sudo_uid h.sudo_gid) [ ok i ↦ ok i | err e ↦ err (identity e) ]

  -- What the daemon becomes once it has a process.
  unfoldable pub launched_opts : RunOptions → ℕ → List ℕ → Option ℕ → UpsertDaemonOpts
  unfolding from_run_options
  launched_opts opts pid resolved ready_port = record (from_run_options opts running) {
    pid = some pid;
    cmd = some opts.cmd;
    ready_port = elim ready_port [
      | none ↦ none
      | some p ↦ some (record {
        port = some p;
        template = none;
        timeout = and_then opts.ready_port (λ rp. rp.timeout);
      })
    ];
    port =
        if is_empty (expected_ports opts) && (bump_of opts).attempts == 0
        then none
        else some (record { expect = expected_ports opts; bump = bump_of opts });
    resolved_port = resolved;
  }

  -- The environment of the process is made by `environment`.
  unfoldable pub command :
      (RunOptions → List ℕ → List (Text × Text)) → RunOptions → List ℕ → Result Failure Command
  unfolding shell_parts program_args resolve_effective_run_identity
  command environment opts resolved = do
    shell ← shell_parts
    i ← resolve_effective_run_identity opts.user
    ok (record {
      program = (program_args opts shell).0;
      args = (program_args opts shell).1;
      dir = opts.dir;
      env = environment opts resolved;
      identity = i;
      pty = unwrap_or opts.pty false;
    })

  -- `watch` is what the loop that watches the process tells, if the caller waits for it, and what
  -- becomes of the state until then.
  unfoldable pub launch_process :
      (watch : RunOptions → ℕ → List ℕ → Option ℕ → StateFile → StateFile × Option Notice)
      → RunOptions
      → List ℕ
      → Option ℕ
      → Spawned
      → StateFile
      → StateFile × Launch
  unfolding launched_opts
  launch_process watch opts resolved ready_port refused s = (s, err not_spawned)
  launch_process watch opts resolved ready_port ended s = (s, ok (daemon_failed exited_immediately))
  launch_process watch opts resolved ready_port (started pid) s =
      let (s', daemon) = upsert_daemon h.procs (launched_opts opts pid resolved ready_port) s in
      let (t, notice) = watch opts pid resolved ready_port s' in
      (t, ok (answer daemon (if opts.wait_ready then notice else none)))

  unfoldable pub run_once :
      (environment : RunOptions → List ℕ → List (Text × Text))
      (watch : RunOptions → ℕ → List ℕ → Option ℕ → StateFile → StateFile × Option Notice)
      → RunOptions
      → StateFile
      → StateFile × Launch
  run_once environment watch opts s = elim (resolve_ports opts) [
    | err response ↦ (s, ok response)
    | ok (resolved, ready_port) ↦ elim (command environment opts resolved) [
      | err failure ↦ (s, ok (daemon_failed failure))
      | ok cmd ↦ launch_process watch opts resolved ready_port (h.spawn cmd) s
    ]
  ]
