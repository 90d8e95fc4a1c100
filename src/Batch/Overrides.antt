-- ===== src/Batch/Overrides.antt =====
-- What the options of a start request change, in `build_run_options` of src/ipc/batch.rs.
use pitchfork.Prelude.{ℕ, ◌≡◌, refl, Option, none, some, List}
use pitchfork.Text.{Text}
use pitchfork.Config.{ReadyHttp, ReadyCmd, ReadyOutput, ReadyPort, PortBump, PortConfig}
use pitchfork.Daemon.{RunOptions, or_else}
use pitchfork.Batch.{
  StartOptions, override, merge_ready_http_override, merge_ready_cmd_override,
  merge_ready_output_override, override_port, override_expected, override_bump,
}

or_else-again : {A : Type 0} (a b : Option A) → or_else a (or_else a b) ≡ or_else a b
or_else-again none b = refl
or_else-again (some a) b = refl

http-again :
    (c : Option ReadyHttp) (u : Option Text)
    → merge_ready_http_override (merge_ready_http_override c u) u ≡ merge_ready_http_override c u
unfolding merge_ready_http_override
http-again c none = refl
http-again none (some url) = refl
http-again (some c) (some url) = refl

cmd-again :
    (c : Option ReadyCmd) (u : Option Text)
    → merge_ready_cmd_override (merge_ready_cmd_override c u) u ≡ merge_ready_cmd_override c u
unfolding merge_ready_cmd_override
cmd-again c none = refl
cmd-again none (some cmd) = refl
cmd-again (some c) (some cmd) = refl

output-again :
    (c : Option ReadyOutput) (u : Option Text)
    → merge_ready_output_override (merge_ready_output_override c u) u
      ≡ merge_ready_output_override c u
unfolding merge_ready_output_override
output-again c none = refl
output-again none (some pattern) = refl
output-again (some c) (some pattern) = refl

port-again :
    (c : Option ReadyPort) (p : Option ℕ) → override_port (override_port c p) p ≡ override_port c p
port-again c none = refl
port-again none (some port) = refl
port-again (some c) (some port) = refl

ports-again :
    (c : Option PortConfig) (e : Option (List ℕ)) (b : Option PortBump)
    → override_bump b (override_expected e (override_bump b (override_expected e c)))
      ≡ override_bump b (override_expected e c)
ports-again c none none = refl
ports-again c (some e) none = refl
ports-again c none (some b) = refl
ports-again c (some e) (some b) = refl

-- Applying the options of a start request to options that they were applied to changes nothing.
override-again :
    (opts : StartOptions) (o : RunOptions) → override opts (override opts o) ≡ override opts o
unfolding override
override-again opts o = λ i. record o {
  shell_pid = opts.shell_pid;
  force = opts.force;
  ready_delay = or_else-again opts.delay o.ready_delay i;
  ready_output = output-again o.ready_output opts.output i;
  ready_http = http-again o.ready_http opts.http i;
  ready_port = port-again o.ready_port opts.port i;
  ready_cmd = cmd-again o.ready_cmd opts.cmd i;
  port = ports-again o.port opts.expected_port opts.auto_bump_port i;
}
