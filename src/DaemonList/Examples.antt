-- ===== src/DaemonList/Examples.antt =====
-- The list of src/daemon_list.rs for a project with one daemon in the state and one that is only configured.
use pitchfork.Prelude.{◌≡◌, refl, List, [], ◌∷◌, ok}
use pitchfork.Text.{codes}
use pitchfork.Daemon.{Daemon}
use pitchfork.State.{StateFile, empty_state}
use pitchfork.Toml.Parse.{daemon_of}
use pitchfork.Toml.Examples.{surroundings, files, merged, db, web, registry, base, with, merges}
use pitchfork.DaemonList.{
  DaemonListEntry, find_entry, build_placeholder_daemon, get_all_daemons_direct, get_daemon_direct,
}
use pitchfork.DaemonList.Direct.{get_daemon_direct-find_entry}

abbrev tracked_db : Daemon
tracked_db = build_placeholder_daemon db (daemon_of 10 base [] (with []))

abbrev state : StateFile
state = record (empty_state (codes "/s")) { daemons = (db, tracked_db) ∷ [] }

get_daemon_direct-find_entry_example :
    (list : List DaemonListEntry) × (get_all_daemons_direct surroundings files registry state
      ≡ ok list)
    × (get_daemon_direct surroundings files registry state web ≡ ok (find_entry web list))
unfolding build_placeholder_daemon empty_state
get_daemon_direct-find_entry_example =
    get_daemon_direct-find_entry surroundings files registry state web merged (refl, tt) merges
