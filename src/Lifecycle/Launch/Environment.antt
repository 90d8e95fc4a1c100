-- ===== src/Lifecycle/Launch/Environment.antt =====
-- The environment that `run_once` of src/supervisor/lifecycle.rs gives a process, as the assignments
-- in their order: of two for one variable the later one counts. The settings of the proxy, and what
-- is asked of the file system and the registry of slugs, are parameters.
pub mod Protected
use pitchfork.Prelude.{
  ℕ, zero, suc, ◌+◌, ◌==◌, ltb, Bool, true, false, not, ◌&&◌, ◌||◌, Option, none, some, List, [],
  ◌∷◌, ◌++◌, if◌then◌else◌, is_empty,
}
use pitchfork.Text.{Text, codes, text_eq}
use pitchfork.Text.Decimal.{to_string}
use pitchfork.DaemonId.{qualified}
use pitchfork.Daemon.{RunOptions, and_then, unwrap_or}
use pitchfork.Lifecycle.Ports.{u16_mod}

-- The settings of the proxy; `ca_path` is the certificate that is used, if its file is there, and
-- `is_registered` asks the registry of slugs.
pub record ProxySettings : Type 0 where
  pub original_path : Option Text
  pub enable : Bool
  pub https : Bool
  pub port : ℕ
  pub tld : Text
  pub lan : Bool
  pub lan_ip : Text
  pub ca_path : Option Text
  pub is_registered : Text → Bool

abbrev pub Assignments : Type 0
Assignments = List (Text × Text)

abbrev pub given : Option Text → (Text → Assignments) → Assignments
given none f = []
given (some t) f = f t

abbrev pub set_if : Bool → Text → Text → Assignments
set_if b key value = if b then (key, value) ∷ [] else []

-- PORT0, PORT1 and so on.
unfoldable pub numbered_ports : ℕ → List ℕ → Assignments
numbered_ports i [] = []
numbered_ports i (p ∷ ports) =
    (codes "PORT" ++ to_string i, to_string p) ∷ numbered_ports (suc i) ports

unfoldable pub port_env : List ℕ → Assignments
unfolding numbered_ports
port_env [] = []
port_env (p ∷ ports) = (codes "PORT", to_string p) ∷ numbered_ports 0 (p ∷ ports)

module _ (s : ProxySettings) where
  abbrev pub lan_enabled : Bool
  lan_enabled = s.lan || not (is_empty s.lan_ip)

  abbrev pub proxy_tld : Text
  proxy_tld = if lan_enabled then codes "local" else s.tld

  abbrev pub should_force_loopback_host : Option Text → Bool
  should_force_loopback_host none = false
  should_force_loopback_host (some slug) = s.enable && s.is_registered slug

  -- No suffix for the port that the scheme has anyway.
  abbrev pub port_suffix : Text
  port_suffix =
      if (s.https && s.port == 443) || (not s.https && s.port == 80)
      then []
      else codes ":" ++ to_string s.port

  unfoldable pub build_pitchfork_url : Option Text → Option Text
  build_pitchfork_url none = none
  build_pitchfork_url (some slug) =
      if s.enable && ltb 0 s.port && ltb s.port u16_mod
      then some (
          (if s.https then codes "https" else codes "http")
          ++ (codes "://" ++ (slug ++ (codes "." ++ (proxy_tld ++ port_suffix)))))
      else none

  unfoldable pub inject_proxy_env : Option Text → Assignments
  unfolding build_pitchfork_url
  inject_proxy_env slug =
      set_if (should_force_loopback_host slug && not lan_enabled) (codes "HOST") (codes "127.0.0.1")
      ++ (given (build_pitchfork_url slug) (λ url. (codes "PITCHFORK_URL", url) ∷ [])
          ++ (given (if s.enable && s.https then s.ca_path else none)
                (λ path. (codes "NODE_EXTRA_CA_CERTS", path) ∷ [])
              ++ (set_if s.enable (codes "__VITE_ADDITIONAL_SERVER_ALLOWED_HOSTS")
                    (codes "." ++ proxy_tld)
                  ++ set_if lan_enabled (codes "PITCHFORK_LAN") (codes "1"))))

  -- What comes after the variables of the configuration.
  unfoldable pub metadata : RunOptions → List ℕ → Assignments
  metadata opts resolved =
      (codes "PITCHFORK_DAEMON_ID", qualified opts.id)
      ∷ (codes "PITCHFORK_DAEMON_NAMESPACE", opts.id.namespace)
      ∷ (codes "PITCHFORK_RETRY_COUNT", to_string opts.retry_count)
      ∷ (port_env resolved ++ inject_proxy_env opts.slug)

  unfoldable pub environment : RunOptions → List ℕ → Assignments
  environment opts resolved =
      given s.original_path (λ path. (codes "PATH", path) ∷ [])
      ++ (unwrap_or opts.env [] ++ metadata opts resolved)

-- The value of a variable: that of its last assignment.
unfoldable pub value_of : Text → Assignments → Option Text
value_of key [] = none
value_of key ((k, v) ∷ env) = elim (value_of key env) [
  | some later ↦ some later
  | none ↦ (if text_eq k key then some v else none)
]
