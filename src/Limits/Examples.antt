-- ===== src/Limits/Examples.antt =====
-- Rounds of src/supervisor/watchers.rs for a daemon with a limit of 50% that uses 90%.
use pitchfork.Prelude.{◌≡◌, refl, none, some, List, [], ◌∷◌, pos}
use pitchfork.Text.{codes, text_eq}
use pitchfork.DaemonId.{id_eq}
use pitchfork.Daemon.{Daemon, running, stopped}
use pitchfork.Map.{get, insert, remove, retain, values, id_key}
use pitchfork.State.{StateFile, empty_state}
use pitchfork.State.Access.{get_daemon}
use pitchfork.Deps.{elem}
use pitchfork.DaemonList.{build_placeholder_daemon}
use pitchfork.Lifecycle.Stop.{default_stop}
use pitchfork.Toml.Parse.{daemon_of}
use pitchfork.Toml.Examples.{db, base, with}
use pitchfork.Limits.{Tick, Kill, stop_for_resource_violation, watch}

abbrev busy_db : Daemon
busy_db = record (build_placeholder_daemon db (daemon_of 10 base [] (with []))) {
  pid = some 41;
  status = running;
  cpu_limit = some (record { bits = 1112014848 });
}

abbrev state_of : Daemon → StateFile
state_of d = record (empty_state (codes "/s")) { daemons = (db, d) ∷ [] }

abbrev tick_of : Daemon → Tick
tick_of d = record {
  state = state_of d;
  stats_of = λ pid. some (record { memory_bytes = 4096; cpu_percent = 1119092736 });
  later = λ id. state_of d;
  cpu_violation_threshold = pos 2;
}

abbrev busy : Tick
busy = tick_of busy_db

abbrev idle : Tick
idle = tick_of (record busy_db { pid = none; status = stopped })

abbrev killed : List Kill
killed = record { id = db; pid = 41; stop = default_stop } ∷ []

one_sample : (watch (busy ∷ [])).1 ≡ []
unfolding watch get_daemon insert remove retain values get id_eq text_eq build_placeholder_daemon
    daemon_of elem stop_for_resource_violation
one_sample = refl

two_samples : (watch (busy ∷ busy ∷ [])).1 ≡ killed
unfolding watch get_daemon insert remove retain values get id_eq text_eq build_placeholder_daemon
    daemon_of elem stop_for_resource_violation
two_samples = refl

-- A round without a daemon to check keeps the count of the sample before it.
samples_around_idle : (watch (busy ∷ idle ∷ busy ∷ [])).1 ≡ killed
unfolding watch get_daemon insert remove retain values get id_eq text_eq build_placeholder_daemon
    daemon_of elem stop_for_resource_violation
samples_around_idle = refl
