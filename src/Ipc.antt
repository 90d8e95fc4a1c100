-- ===== src/Ipc.antt =====
-- src/ipc/mod.rs: the messages between a client and the supervisor. An error is a constructor, where
-- the source has the text that is printed.
use pitchfork.Prelude.{ℕ, Option, List, ℤ}
use pitchfork.Text.{Text}
use pitchfork.DaemonId.{DaemonId}
use pitchfork.Config.{FilePath}
use pitchfork.Daemon.{Daemon, RunOptions}
use pitchfork.Autostop.{LevelFilter}
use pitchfork.State.Access.{StateError, ProjectSessionInfo}

pub data IpcRequest : Type 0 where
  connect : IpcRequest
  connect_v2 : (version : Text) → IpcRequest
  clean : IpcRequest
  stop : (id : DaemonId) → IpcRequest
  get_active_daemons get_disabled_daemons : IpcRequest
  run : (opts : RunOptions) → IpcRequest
  enable disable : (id : DaemonId) → IpcRequest
  update_shell_dir : (shell_pid : ℕ) (dir : FilePath) → IpcRequest
  get_notifications sync_mdns reload_config : IpcRequest
  project_enter project_leave : (pid : ℕ) (dir : FilePath) → IpcRequest
  get_project_sessions : IpcRequest
  invalid : (error : Text) → IpcRequest

-- Why a daemon cannot run as the user that it is configured for.
pub data IdentityError : Type 0 where
  invalid_uid user_lookup_failed unknown_user name_has_nul : (user : Text) → IdentityError
  not_permitted : (user : Text) (current_uid current_gid uid gid : ℕ) → IdentityError

-- Why a daemon was not started.
pub data Failure : Type 0 where
  shell_is_empty shell_unreadable exited_immediately : Failure
  identity : (e : IdentityError) → Failure

pub data ErrorMessage : Type 0 where
  cannot_stop_supervisor spawn_failed : ErrorMessage
  invalid_request : (error : Text) → ErrorMessage
  state_error : (e : StateError) → ErrorMessage

pub data IpcResponse : Type 0 where
  done : IpcResponse
  connect_ok : (version : Text) → IpcResponse
  affirmed denied : IpcResponse
  error : (message : ErrorMessage) → IpcResponse
  notifications : List (LevelFilter × Text) → IpcResponse
  active_daemons : List Daemon → IpcResponse
  disabled_daemons : List DaemonId → IpcResponse
  daemon_already_running : IpcResponse
  daemon_start : (daemon : Daemon) → IpcResponse
  daemon_failed : (error : Failure) → IpcResponse
  port_conflict : (port : ℕ) (process : Text) (pid : ℕ) → IpcResponse
  no_available_port : (start_port attempts : ℕ) → IpcResponse
  daemon_ready : (daemon : Daemon) → IpcResponse
  daemon_failed_with_code : (exit_code : Option ℤ) → IpcResponse
  daemon_was_not_running mdns_synced config_reloaded : IpcResponse
  daemon_stop_failed : (pid : ℕ) → IpcResponse
  daemon_not_running daemon_not_found : IpcResponse
  project_sessions : List ProjectSessionInfo → IpcResponse
