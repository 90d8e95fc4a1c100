-- ===== src/State/Upsert.antt =====
-- What `upsert_daemon` of src/supervisor/state.rs makes of a daemon.
use pitchfork.Prelude.{
  ℕ, ◌≡◌, refl, ◌∙◌, ap, Bool, true, false, ◌||◌, Option, none, some, List, [], ◌∷◌, if◌then◌else◌,
  ==_iff, is_empty,
}
use pitchfork.Text.{Text}
use pitchfork.DaemonId.{DaemonId, id_eq, id_eq_iff}
use pitchfork.Config.{FilePath}
use pitchfork.Daemon.{Daemon, DaemonStatus, Configs, to_run_options, or_else, unwrap_or}
use pitchfork.Daemon.Options.{UpsertDaemonOpts, Procs, builder, from_run_options, merge, recorded}
use pitchfork.Map.{Map, get, insert, id_key}
use pitchfork.Map.Laws.{get-insert, insert-insert}
use pitchfork.State.{StateFile, insert_daemon, mark_dirty}
use pitchfork.State.Access.{upsert_daemon, get_daemon}

or_else_same {ℓ} : {A : Type ℓ} (o : Option A) → or_else o o ≡ o
or_else_same none = refl
or_else_same (some a) = refl

or_same : (b : Bool) → (b || b) ≡ b
or_same true = refl
or_same false = refl

or_again : (b c : Bool) → (b || (b || c)) ≡ (b || c)
or_again true c = refl
or_again false c = refl

or_else_again {ℓ} : {A : Type ℓ} (o p : Option A) → or_else o (or_else o p) ≡ or_else o p
or_else_again none p = refl
or_else_again (some a) p = refl

unwrap_or_again {ℓ} :
    {A : Type ℓ} (o : Option A) (a : A) → unwrap_or o (unwrap_or o a) ≡ unwrap_or o a
unwrap_or_again none a = refl
unwrap_or_again (some b) a = refl

given_again {ℓ} :
    {A : Type ℓ} (l other : List A)
    → (if is_empty l then (if is_empty l then other else l) else l)
      ≡ (if is_empty l then other else l)
given_again [] other = refl
given_again (x ∷ l) other = refl

-- What was recorded for a process is recorded for it again.
recorded_again {ℓ} :
    {A : Type ℓ} (pid : Option ℕ) (cached : ℕ → Option A) (existing : Option Daemon)
    (field : Daemon → Option A) (d : Daemon)
    → d.pid ≡ pid
    → field d ≡ recorded pid cached existing field
    → recorded pid cached (some d) field ≡ recorded pid cached existing field
recorded_again none cached existing field d same h = refl
recorded_again (some p) cached existing field d same h =
    rw (same, (==_iff p p).1 refl) (rw h (or_else_again (cached p) _))

-- A daemon is found as it was upserted last, and every other daemon as it was.
pub get_daemon-upsert_daemon :
    (procs : Procs) (opts : UpsertDaemonOpts) (other : DaemonId) (s : StateFile)
    → get_daemon other ((upsert_daemon procs opts s).0)
      ≡ (if id_eq opts.id other then some ((upsert_daemon procs opts s).1) else get_daemon other s)
unfolding get_daemon upsert_daemon insert_daemon mark_dirty
get_daemon-upsert_daemon procs opts other s =
    get-insert opts.id other (merge procs opts (get opts.id s.daemons)) s.daemons

-- A daemon that is upserted with the options made from its own state is the daemon that it was, but
-- for the status and the command that are given, the process with its title, start time and port,
-- which are forgotten, the directory, which is the current one if it had none, and the mark of a
-- registration from the configuration, which goes.
restarted :
    (procs : Procs) (configs : Configs) (cwd : FilePath) (d : Daemon) (cmd : List Text)
    (status : DaemonStatus)
    → merge procs (from_run_options (to_run_options configs cwd d cmd) status) (some d) ≡ record d {
      title = none;
      pid = none;
      start_time = none;
      status = status;
      dir = some (unwrap_or d.dir cwd);
      cmd = some cmd;
      active_port = none;
      config_registered = false;
    }
unfolding merge from_run_options to_run_options builder
restarted procs configs cwd d cmd status = simp (or_else_same, or_same)

merge_twice :
    (procs : Procs) (opts : UpsertDaemonOpts) (existing : Option Daemon)
    → merge procs opts (some (merge procs opts existing)) ≡ merge procs opts existing
unfolding merge
merge_twice procs opts existing =
    rw
      (
        recorded_again opts.pid procs.title existing (λ d. d.title) (merge procs opts existing) refl
            refl,
        recorded_again opts.pid procs.start_time existing (λ d. d.start_time)
            (merge procs opts existing) refl refl,
      )
      (simp (or_else_again, unwrap_or_again, or_again, given_again))

-- Upserting twice is upserting once, for the state and for the daemon returned.
upsert_twice :
    (procs : Procs) (opts : UpsertDaemonOpts) (s : StateFile)
    → upsert_daemon procs opts ((upsert_daemon procs opts s).0) ≡ upsert_daemon procs opts s
unfolding upsert_daemon insert_daemon mark_dirty
upsert_twice procs opts s =
    ap (λ found. entry (merge procs opts found) (insert opts.id first s.daemons)) same
    ∙ ap (λ d. entry d (insert opts.id first s.daemons))
        (merge_twice procs opts (get opts.id s.daemons))
    ∙ ap (λ m. (record s { daemons = m; dirty = true }, first))
        (insert-insert opts.id first first s.daemons)
  where
    first : Daemon
    first = merge procs opts (get opts.id s.daemons)

    entry : Daemon → Map DaemonId Daemon → StateFile × Daemon
    entry d m = (record s { daemons = insert opts.id d m; dirty = true }, d)

    same : get opts.id (insert opts.id first s.daemons) ≡ some first
    same = get-insert opts.id opts.id first s.daemons ∙ rw ((id_eq_iff opts.id opts.id).1 refl) refl
