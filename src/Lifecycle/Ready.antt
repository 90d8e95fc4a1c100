-- ===== src/Lifecycle/Ready.antt =====
-- src/supervisor/lifecycle.rs, in `run_once`: the loop that watches a process until it exits, and the
-- readiness checks that it makes. An event is one branch of the `select!`; which events come, and in
-- which order, is left open, so that the bias of the loop to the exit is one of the orders. A timer or
-- a probe is armed or not; a channel end is there or not.
pub mod Rounds
pub mod Notices
pub mod Debounce
pub mod Marks
pub mod Timeouts
use pitchfork.Prelude.{
  ℕ, zero, suc, ◌+◌, ◌-◌, ◌==◌, leb, Bool, true, false, not, ◌&&◌, ◌||◌, Option, none, some, List,
  [], ◌∷◌, if◌then◌else◌, ℤ, pos, any, is_empty,
}
use pitchfork.Text.{Text, contains}
use pitchfork.Config.{Duration, ReadyHttp, ReadyCmd, ReadyPort, ReadyOutput}
use pitchfork.Daemon.{and_then}
use pitchfork.Map.{is_some}
use pitchfork.Lifecycle.Exit.{ExitStatus, exited, signalled, wait_failed, success}

-- The hook on output: its filter, and its pattern as compiled.
pub record OutputHook : Type 0 where
  pub filter : Option Text
  pub regex : Option (Text → Bool)
  pub debounce : Duration

-- What stays the same while the loop runs. `pattern` is the compiled pattern of `ready_output`, if it
-- compiles; `wait_ready` is whether the caller waits.
pub record Checks : Type 0 where
  pub wait_ready : Bool
  pub ready_output : Option ReadyOutput
  pub pattern : Option (Text → Bool)
  pub ready_http : Option ReadyHttp
  pub ready_port : Option ℕ
  pub ready_port_config : Option ReadyPort
  pub ready_cmd : Option ReadyCmd
  pub ready_delay : Option ℕ
  pub has_port_config : Bool
  pub expected_port : Option ℕ
  pub on_output_hook : Option OutputHook

-- What is sent to the caller that waits.
pub data Notice : Type 0 where
  ready : Notice
  failed : (code : Option ℤ) → Notice

-- How the active port is found: written directly, or by a task that looks for it.
pub data ActivePort : Type 0 where
  direct : (port : ℕ) → ActivePort
  detected : ActivePort

-- The variables of the loop; and what it has done: the notices sent, how often the hook of readiness
-- was fired, when the hook on output was, the last one first, the ports that were set, and whether
-- the process was killed because no check was left.
pub record Watch : Type 0 where
  pub ready_notified : Bool
  pub ready_tx : Bool
  pub output_exhausted : Bool
  pub http_exhausted : Bool
  pub port_exhausted : Bool
  pub cmd_exhausted : Bool
  pub output_deadline : Bool
  pub http_deadline : Bool
  pub port_deadline : Bool
  pub cmd_deadline : Bool
  pub http_check_interval : Bool
  pub port_check_interval : Bool
  pub cmd_probe : Bool
  pub cmd_respawn_delay : Bool
  pub delay_timer : Bool
  pub active_port_spawned : Bool
  pub on_output_last_fired : Option ℕ
  pub exit_status : Option ExitStatus
  pub over : Bool
  pub notices : List Notice
  pub on_ready : ℕ
  pub on_output : List ℕ
  pub active_ports : List ActivePort
  pub killed : Bool

pub data Event : Type 0 where
  process_exits : (status : ExitStatus) → Event
  output : (line : Text) (now : ℕ) → Event
  http_timed_out output_timed_out port_timed_out cmd_timed_out : Event
  http_answers : (status : Option ℕ) → Event
  port_probed : (listening : Bool) → Event
  respawn : Event
  cmd_ends : (succeeded : Bool) → Event
  delay_elapsed : (running : Bool) → Event
  flush : Event

abbrev pub has_timeout {ℓ} : {A : Type ℓ} → Option A → (A → Option Duration) → Bool
has_timeout check timeout = is_some (and_then check timeout)

-- A check that is configured can still succeed.
abbrev pub remains {ℓ} : {A : Type ℓ} → Option A → (A → Option Duration) → (exhausted : Bool) → Bool
remains none timeout exhausted = false
remains (some a) timeout exhausted = not (is_some (timeout a)) || not exhausted

unfoldable pub any_ready_check_remaining :
    Option ReadyOutput
    → Bool
    → Option ReadyPort
    → Bool
    → Option ReadyHttp
    → Bool
    → Option ReadyCmd
    → Bool
    → Bool
any_ready_check_remaining out output_exhausted port port_exhausted http http_exhausted cmd
      cmd_exhausted =
    remains out (λ o. o.timeout) output_exhausted
    || remains port (λ p. p.timeout) port_exhausted
    || remains http (λ h. h.timeout) http_exhausted
    || remains cmd (λ c. c.timeout) cmd_exhausted

abbrev pub contains_status : ℕ → List ℕ → Bool
contains_status status statuses = any (λ s. s == status) statuses

-- `ReadyHttp::accepts_status`
unfoldable pub accepts_status : ReadyHttp → ℕ → Bool
accepts_status http status =
    if is_empty http.status
    then leb 200 status && leb status 299
    else contains_status status http.status

abbrev pub accepted : Option ReadyHttp → Option ℕ → Bool
accepted (some http) (some status) = accepts_status http status
accepted (some http) none = false
accepted none status = false

abbrev pub matches : Option (Text → Bool) → Text → Bool
matches none line = false
matches (some p) line = p line

-- The line is one for the hook on output.
abbrev pub hook_matches : OutputHook → Text → Bool
hook_matches h line = elim h.filter [
  | some substr ↦ contains line substr
  | none ↦ elim h.regex [ some re ↦ re line | none ↦ true ]
]

-- The last firing is long enough ago; the time between two instants is not negative.
abbrev pub may_fire : Duration → Option ℕ → ℕ → Bool
may_fire debounce none now = true
may_fire debounce (some t) now = leb debounce (now - t)

module _ (c : Checks) where
  -- Before the first round. A probe is started, and the port looked for, at once.
  unfoldable pub watch : Watch
  watch =
      let at_once =
        c.has_port_config
        && not (is_some c.pattern)
        && not (is_some c.ready_http)
        && not (is_some c.ready_port)
        && not (is_some c.ready_cmd)
        && not (is_some c.ready_delay) in
      record {
        ready_notified = false;
        ready_tx = c.wait_ready;
        output_exhausted = false;
        http_exhausted = false;
        port_exhausted = false;
        cmd_exhausted = false;
        output_deadline = has_timeout c.ready_output (λ o. o.timeout);
        http_deadline = has_timeout c.ready_http (λ h. h.timeout);
        port_deadline = has_timeout c.ready_port_config (λ p. p.timeout);
        cmd_deadline = has_timeout c.ready_cmd (λ x. x.timeout);
        http_check_interval = is_some c.ready_http;
        port_check_interval = is_some c.ready_port;
        cmd_probe = is_some c.ready_cmd;
        cmd_respawn_delay = false;
        delay_timer = is_some c.ready_delay;
        active_port_spawned = at_once;
        on_output_last_fired = none;
        exit_status = none;
        over = false;
        notices = [];
        on_ready = 0;
        on_output = [];
        active_ports = if at_once then detected ∷ [] else [];
        killed = false;
      }

  -- `ready_tx.take()`, and what is sent through it.
  abbrev pub send : Notice → Watch → Watch
  send n w = if w.ready_tx then record w { ready_tx = false; notices = n ∷ w.notices } else w

  abbrev pub clear_deadlines : Watch → Watch
  clear_deadlines w = record w {
    output_deadline = false;
    http_deadline = false;
    port_deadline = false;
    cmd_deadline = false;
  }

  -- The daemon is ready: the caller is told and the hook is fired.
  abbrev pub become_ready : Watch → Watch
  become_ready w =
      let w' = send ready (record w { ready_notified = true }) in
      record (clear_deadlines w') { on_ready = w'.on_ready + 1 }

  abbrev pub set_active_port : ActivePort → Watch → Watch
  set_active_port p w =
      if not w.active_port_spawned && c.has_port_config
      then record w { active_port_spawned = true; active_ports = p ∷ w.active_ports }
      else w

  -- A check has timed out: without another one that can succeed the process is killed.
  unfoldable pub fail_if_exhausted : Watch → Watch
  fail_if_exhausted w =
      let w' = send (failed (some (pos 124))) (record w { cmd_probe = false }) in
      if any_ready_check_remaining c.ready_output w.output_exhausted c.ready_port_config
        w.port_exhausted c.ready_http w.http_exhausted c.ready_cmd w.cmd_exhausted
      then w
      else record w' { killed = true; over = true }

  -- The code that is sent if the process ends before it is ready.
  abbrev pub exit_notice : ExitStatus → Notice
  exit_notice status = if success status then ready else elim status [
    | exited code ↦ failed (some code)
    | signalled ↦ failed none
    | wait_failed ↦ failed none
  ]

  unfoldable pub on_exit : ExitStatus → Watch → Watch
  on_exit status w =
      let w' = record w { exit_status = some status; over = true } in
      if w.ready_notified then w' else send (exit_notice status) w'

  unfoldable pub check_output : Text → Watch → Watch
  check_output line w =
      if not w.ready_notified && not w.output_exhausted && matches c.pattern line
      then set_active_port detected (record (become_ready w) { cmd_probe = false })
      else w

  unfoldable pub fire_output_hook : Text → ℕ → Watch → Watch
  fire_output_hook line now w = elim c.on_output_hook [
    | none ↦ w
    | some h ↦
        (if hook_matches h line && may_fire h.debounce w.on_output_last_fired now
          then record w { on_output_last_fired = some now; on_output = now ∷ w.on_output }
          else w)
  ]

  unfoldable pub on_http : Option ℕ → Watch → Watch
  on_http status w =
      if accepted c.ready_http status
      then set_active_port detected
          (record (become_ready w) { http_check_interval = false; cmd_probe = false })
      else w

  abbrev pub same_port : Option ℕ → ℕ → Bool
  same_port none port = false
  same_port (some p) port = p == port

  unfoldable pub on_port : Bool → Watch → Watch
  on_port listening w = elim c.ready_port [
    | none ↦ w
    | some port ↦
        (if listening
          then set_active_port (if same_port c.expected_port port then direct port else detected)
              (record (become_ready w) { port_check_interval = false; cmd_probe = false })
          else w)
  ]

  unfoldable pub on_cmd : Bool → Watch → Watch
  on_cmd succeeded w =
      if succeeded
      then set_active_port detected
          (record (become_ready w) { cmd_probe = false; cmd_respawn_delay = false })
      else record w { cmd_probe = false; cmd_respawn_delay = true }

  -- The delay is the check only where no other one is.
  unfoldable pub on_delay : (running : Bool) → Watch → Watch
  on_delay running w =
      let alone =
        not w.ready_notified
        && not (is_some c.pattern)
        && not (is_some c.ready_http)
        && not (is_some c.ready_port)
        && not (is_some c.ready_cmd) in
      let w' =
        if alone
        then record (clear_deadlines
            (if not (is_some w.exit_status) && running then become_ready w else w)) {
              cmd_probe = false;
            }
        else w in
      set_active_port detected (record w' { delay_timer = false })

  -- The branch can be taken: what it waits for is there, and its condition holds.
  unfoldable pub enabled : Watch → Event → Bool
  enabled w (process_exits status) = true
  enabled w (output line now) = true
  enabled w http_timed_out = w.http_deadline && not w.ready_notified && is_some c.ready_http
  enabled w output_timed_out = w.output_deadline && not w.ready_notified && is_some c.ready_output
  enabled w port_timed_out = w.port_deadline && not w.ready_notified && is_some c.ready_port
  enabled w cmd_timed_out = w.cmd_deadline && not w.ready_notified && is_some c.ready_cmd
  enabled w (http_answers status) =
      w.http_check_interval && not w.ready_notified && is_some c.ready_http && not w.http_exhausted
  enabled w (port_probed listening) =
      w.port_check_interval && not w.ready_notified && is_some c.ready_port && not w.port_exhausted
  enabled w respawn =
      w.cmd_respawn_delay
      && not w.ready_notified
      && is_some c.ready_cmd
      && not w.cmd_exhausted
      && not w.cmd_probe
  enabled w (cmd_ends succeeded) =
      w.cmd_probe && not w.ready_notified && is_some c.ready_cmd && not w.cmd_exhausted
  enabled w (delay_elapsed running) = w.delay_timer
  enabled w flush = true

  unfoldable pub react : Watch → Event → Watch
  unfolding fail_if_exhausted on_exit check_output fire_output_hook on_http on_port on_cmd on_delay
  react w (process_exits status) = on_exit status w
  react w (output line now) = fire_output_hook line now (check_output line w)
  react w http_timed_out =
      fail_if_exhausted
        (record w { http_exhausted = true; http_deadline = false; http_check_interval = false })
  react w output_timed_out =
      fail_if_exhausted (record w { output_exhausted = true; output_deadline = false })
  react w port_timed_out =
      fail_if_exhausted
        (record w { port_exhausted = true; port_deadline = false; port_check_interval = false })
  react w cmd_timed_out = fail_if_exhausted (record w {
    cmd_exhausted = true;
    cmd_deadline = false;
    cmd_probe = false;
    cmd_respawn_delay = false;
  })
  react w (http_answers status) = on_http status w
  react w (port_probed listening) = on_port listening w
  react w respawn = record w { cmd_probe = true; cmd_respawn_delay = false }
  react w (cmd_ends succeeded) = on_cmd succeeded w
  react w (delay_elapsed running) = on_delay running w
  react w flush = w

  -- A round of the loop; nothing happens once it is over.
  unfoldable pub round : Watch → Event → Watch
  unfolding react enabled
  round w e = if not w.over && enabled w e then react w e else w

  unfoldable pub rounds : Watch → List Event → Watch
  unfolding round
  rounds w [] = w
  rounds w (e ∷ es) = rounds (round w e) es
