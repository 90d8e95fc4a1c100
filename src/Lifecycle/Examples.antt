-- ===== src/Lifecycle/Examples.antt =====
-- Runs of src/supervisor/lifecycle.rs on small inputs.
use pitchfork.Prelude.{
  ℕ, ◌+◌, ◌==◌, ◌≡◌, ◌≤◌, ◌<◌, refl, Bool, true, false, ◌||◌, none, some, [], ◌∷◌, arith, ok, err,
  pos,
}
use pitchfork.Text.{Text, codes}
use pitchfork.Text.Decimal.{parse_u32}
use pitchfork.DaemonId.{DaemonId}
use pitchfork.Config.{StopConfig}
use pitchfork.Daemon.{Daemon, running, RunOptions, Configs, to_run_options}
use pitchfork.Daemon.Options.{Procs, UpsertDaemonOpts, builder, merge}
use pitchfork.Map.{id_key}
use pitchfork.State.{StateFile, empty_state, insert_daemon}
use pitchfork.Ipc.{daemon_failed_with_code}
use pitchfork.Lifecycle.Ports.{in_use, no_available_port, check_ports_available, u16_mod}
use pitchfork.Lifecycle.Ports.Resolved.{
  Outcome, check_ports_available-Outcome, check_ports_available_single,
}
use pitchfork.Lifecycle.Identity.{
  Users, no_such_user, resolve_run_identity, resolve_run_identity-IsRoot,
}
use pitchfork.Lifecycle.Stop.{Killed, stop}
use pitchfork.Lifecycle.Stop.Outcome.{Answers, stop-Answers}
use pitchfork.Lifecycle.Exit.{Meanwhile}
use pitchfork.Lifecycle.Ready.{
  OutputHook, Checks, output, http_timed_out, http_answers, watch, rounds, round, react, enabled,
  fail_if_exhausted, any_ready_check_remaining, fire_output_hook, check_output,
}
use pitchfork.Lifecycle.Ready.Notices.{IsSound, rounds-IsSound}
use pitchfork.Lifecycle.Ready.Marks.{AllSpent}
use pitchfork.Lifecycle.Ready.Timeouts.{rounds-AllSpent}
use pitchfork.Lifecycle.Ready.Debounce.{Spaced, rounds-Spaced}
use pitchfork.Lifecycle.Run.{Launch, Running}
use pitchfork.Lifecycle.Launch.{Host, started}
use pitchfork.Lifecycle.Launch.Environment.{ProxySettings, environment, value_of}
use pitchfork.Lifecycle.Launch.Environment.Protected.{
  retry_count, name_of, told, environment-Metadata,
}

-- Port 3000 is taken.
abbrev taken : ℕ → ℕ → Bool
taken offset port = port == 3000

abbrev owner : ℕ → ℕ × Text
owner port = (7, codes "web")

bumped : check_ports_available taken owner (3000 ∷ 3001 ∷ []) true 5 ≡ ok (3001 ∷ 3002 ∷ [])
unfolding check_ports_available
bumped = refl

refused : check_ports_available taken owner (3000 ∷ []) false 0 ≡ err (in_use 3000 (codes "web") 7)
unfolding check_ports_available
refused = refl

check_ports_available-Outcome_example :
    Outcome taken
      (3000 ∷ 3001 ∷ [])
      true
      0
      6
      (no_available_port 3000 6)
      (check_ports_available taken owner (3000 ∷ 3001 ∷ []) true 5)
check_ports_available-Outcome_example =
    check_ports_available-Outcome taken (3000 ∷ 3001 ∷ []) owner true 5

check_ports_available_single_example :
    (q : ℕ) × (3001 ∷ [] ≡ q ∷ []) × (3000 ≤ q) × (q ≤ 3000 + 5) × (q < u16_mod)
unfolding check_ports_available
check_ports_available_single_example =
    check_ports_available_single taken owner true 5 3000 (3001 ∷ []) (omega arith) (omega arith)
      refl

-- The ports 65535 and 3001 are taken: the next offset but one is past the end of the range, and only
-- a port that is exactly 0 ends the search.
abbrev two_taken : ℕ → ℕ → Bool
two_taken offset port = port == 65535 || port == 3001

wraps_around : check_ports_available two_taken owner (65535 ∷ 3000 ∷ []) true 5 ≡ ok (1 ∷ 3002 ∷ [])
unfolding check_ports_available
wraps_around = refl

abbrev nobody : Users
nobody = record { from_uid = λ uid. no_such_user; from_name = λ name. no_such_user }

resolve_run_identity-IsRoot_example : ◌≡◌ {A = ℕ} 0 0
unfolding resolve_run_identity parse_u32
resolve_run_identity-IsRoot_example =
    resolve_run_identity-IsRoot nobody none 0 0 (some (codes "5")) (some (codes "6")) {uid = 5}
      {gid = 6} {username = none} refl

abbrev api : DaemonId
api = record { namespace = codes "g"; name = codes "api" }

abbrev procs : Procs
procs = record { title = λ pid. none; start_time = λ pid. none; is_running = λ pid. true }

abbrev opts : UpsertDaemonOpts
opts = record (builder api) {
  pid = some 41;
  status = running;
  cmd = some (codes "serve" ∷ []);
  retry = some (record { count = 2 });
}

abbrev api_daemon : Daemon
api_daemon = merge procs opts none

abbrev state : StateFile
state = insert_daemon api api_daemon (empty_state (codes "/state.toml"))

-- The process is killed.
abbrev kill : ℕ → StopConfig → StateFile → Killed
kill pid config s = record { state = s; failed = false; procs = procs }

stop-Answers_example : Answers procs kill api state (stop procs kill api state)
stop-Answers_example = stop-Answers procs kill api state

-- Nobody does anything in the meantime.
abbrev quiet : Meanwhile
quiet = record { drain = λ s. s; wait = λ s. s; look = λ s. s }

abbrev checks : Checks
checks = record {
  wait_ready = true;
  ready_output = none;
  pattern = none;
  ready_http = some (record { url = codes "http://localhost"; status = []; timeout = some 5 });
  ready_port = none;
  ready_port_config = none;
  ready_cmd = none;
  ready_delay = none;
  has_port_config = false;
  expected_port = none;
  on_output_hook = some (record { filter = none; regex = none; debounce = 10 });
}

rounds-IsSound_example :
    IsSound checks
      (rounds checks (watch checks) (http_answers (some 503) ∷ http_answers (some 200) ∷ []))
rounds-IsSound_example =
    rounds-IsSound checks (http_answers (some 503) ∷ http_answers (some 200) ∷ [])

rounds-AllSpent_example : AllSpent checks (http_timed_out ∷ [])
unfolding rounds round react enabled watch fail_if_exhausted any_ready_check_remaining
rounds-AllSpent_example = rounds-AllSpent checks (http_timed_out ∷ []) refl

abbrev hook : OutputHook
hook = record { filter = none; regex = none; debounce = 10 }

rounds-Spaced_example :
    Spaced 10
      (rounds checks (watch checks) (output [] 1 ∷ output [] 5 ∷ output [] 11 ∷ [])).on_output
rounds-Spaced_example =
    rounds-Spaced checks hook refl (output [] 1 ∷ output [] 5 ∷ output [] 11 ∷ [])

fired_twice :
    (rounds checks (watch checks) (output [] 1 ∷ output [] 5 ∷ output [] 11 ∷ [])).on_output
    ≡ 11 ∷ 1 ∷ []
unfolding rounds round react enabled watch fire_output_hook check_output
fired_twice = refl

abbrev no_configs : Configs
no_configs = record { all_merged_from = λ dir. none; all_merged_all_namespaces = none }

abbrev run_opts : RunOptions
run_opts = record (to_run_options no_configs (codes "/") api_daemon (codes "serve" ∷ [])) {
  wait_ready = true;
}

-- Each attempt fails.
abbrev fails : RunOptions → StateFile → StateFile × Launch
fails o s = (s, ok (daemon_failed_with_code (some (pos 1))))

abbrev idle : Running
idle = record {
  state = empty_state (codes "/state.toml");
  pending_autostops = [];
  tries = [];
  retry_hooks = [];
  sleeps = [];
}

abbrev sleep : ℕ → StateFile → StateFile
sleep secs s = s

abbrev pub host : Host
host = record {
  is_port_in_use = taken;
  identify_port_owner = owner;
  shell = codes "sh -c";
  split = λ s. some (codes "sh" ∷ codes "-c" ∷ []);
  join = λ words. codes "serve";
  mise = false;
  resolve_mise_bin = none;
  users = nobody;
  supervisor_user = [];
  uid = 1000;
  gid = 1000;
  sudo_uid = none;
  sudo_gid = none;
  spawn = λ cmd. started 41;
  procs = procs;
}

abbrev proxy : ProxySettings
proxy = record {
  original_path = some (codes "/bin");
  enable = true;
  https = false;
  port = 8080;
  tld = codes "localhost";
  lan = false;
  lan_ip = [];
  ca_path = none;
  is_registered = λ slug. false;
}

environment-Metadata_example :
    value_of (name_of retry_count) (environment proxy run_opts (3000 ∷ []))
    ≡ some (told retry_count run_opts)
environment-Metadata_example = environment-Metadata proxy run_opts (3000 ∷ []) retry_count
