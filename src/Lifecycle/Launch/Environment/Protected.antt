-- ===== src/Lifecycle/Launch/Environment/Protected.antt =====
-- The variables of a process that its configuration cannot change, of src/supervisor/lifecycle.rs.
use pitchfork.Prelude.{
  ℕ, suc, ◌≡◌, refl, Bool, true, false, Option, none, some, List, [], ◌∷◌, ◌++◌, arith,
}
use pitchfork.Text.{Text, codes, text_eq}
use pitchfork.Text.Decimal.{to_string}
use pitchfork.DaemonId.{qualified}
use pitchfork.Daemon.{RunOptions, unwrap_or}
use pitchfork.Lifecycle.Launch.Environment.{
  ProxySettings, Assignments, given, set_if, numbered_ports, port_env, inject_proxy_env, metadata,
  environment, value_of,
}

-- A later assignment counts.
value_of-append :
    (key : Text) (xs ys : Assignments)
    → value_of key (xs ++ ys) ≡ elim (value_of key ys) [ some v ↦ some v | none ↦ value_of key xs ]
unfolding value_of
value_of-append key [] ys = ground arith
value_of-append key ((k, v) ∷ xs) ys = ground (arith, value_of-append key xs ys)

value_of-later :
    (key : Text) (xs ys : Assignments) {v : Text}
    → value_of key ys ≡ some v
    → value_of key (xs ++ ys) ≡ some v
value_of-later key xs ys h = ground (arith, value_of-append key xs ys)

value_of-earlier :
    (key : Text) (xs ys : Assignments) {v : Text}
    → value_of key ys ≡ none
    → value_of key xs ≡ some v
    → value_of key (xs ++ ys) ≡ some v
value_of-earlier key xs ys h k = ground (arith, value_of-append key xs ys)

value_of-absent :
    (key : Text) (xs ys : Assignments)
    → value_of key xs ≡ none
    → value_of key ys ≡ none
    → value_of key (xs ++ ys) ≡ none
value_of-absent key xs ys h k = ground (arith, value_of-append key xs ys)

set_if-absent :
    (key : Text) (b : Bool) (k v : Text)
    → text_eq k key ≡ false
    → value_of key (set_if b k v) ≡ none
unfolding value_of
set_if-absent key true k v h = rw h refl
set_if-absent key false k v h = refl

given-absent :
    (key : Text) (o : Option Text) (k : Text)
    → text_eq k key ≡ false
    → value_of key (given o (λ t. (k, t) ∷ [])) ≡ none
unfolding value_of
given-absent key none k h = refl
given-absent key (some t) k h = rw h refl

-- The variables that tell a process which daemon it is.
pub data Metadata : Type 0 where
  daemon_id namespace retry_count : Metadata

abbrev pub name_of : Metadata → Text
name_of daemon_id = codes "PITCHFORK_DAEMON_ID"
name_of namespace = codes "PITCHFORK_DAEMON_NAMESPACE"
name_of retry_count = codes "PITCHFORK_RETRY_COUNT"

abbrev pub told : Metadata → RunOptions → Text
told daemon_id opts = qualified opts.id
told namespace opts = opts.id.namespace
told retry_count opts = to_string opts.retry_count

numbered_ports-absent :
    (m : Metadata) (i : ℕ) (ports : List ℕ) → value_of (name_of m) (numbered_ports i ports) ≡ none
unfolding value_of numbered_ports text_eq
numbered_ports-absent m i [] = refl
numbered_ports-absent daemon_id i (p ∷ ports) =
    rw (numbered_ports-absent daemon_id (suc i) ports) refl
numbered_ports-absent namespace i (p ∷ ports) =
    rw (numbered_ports-absent namespace (suc i) ports) refl
numbered_ports-absent retry_count i (p ∷ ports) =
    rw (numbered_ports-absent retry_count (suc i) ports) refl

port_env-absent : (m : Metadata) (ports : List ℕ) → value_of (name_of m) (port_env ports) ≡ none
unfolding port_env value_of text_eq
port_env-absent m [] = refl
port_env-absent daemon_id (p ∷ ports) = rw (numbered_ports-absent daemon_id 0 (p ∷ ports)) refl
port_env-absent namespace (p ∷ ports) = rw (numbered_ports-absent namespace 0 (p ∷ ports)) refl
port_env-absent retry_count (p ∷ ports) = rw (numbered_ports-absent retry_count 0 (p ∷ ports)) refl

-- The key is none of the proxy's.
abbrev IsForeign : Text → Type 0
IsForeign key =
    (text_eq (codes "HOST") key ≡ false)
    × (text_eq (codes "PITCHFORK_URL") key ≡ false)
    × (text_eq (codes "NODE_EXTRA_CA_CERTS") key ≡ false)
    × (text_eq (codes "__VITE_ADDITIONAL_SERVER_ALLOWED_HOSTS") key ≡ false)
    × (text_eq (codes "PITCHFORK_LAN") key ≡ false)

name_of-IsForeign : (m : Metadata) → IsForeign (name_of m)
unfolding text_eq
name_of-IsForeign daemon_id = (refl, refl, refl, refl, refl)
name_of-IsForeign namespace = (refl, refl, refl, refl, refl)
name_of-IsForeign retry_count = (refl, refl, refl, refl, refl)

inject_proxy_env-absent :
    (s : ProxySettings) (key : Text) (slug : Option Text)
    → IsForeign key
    → value_of key (inject_proxy_env s slug) ≡ none
unfolding inject_proxy_env
inject_proxy_env-absent s key slug (host, url, certs, vite, lan) =
    value_of-absent key _ _ (set_if-absent key _ _ _ host) (
      value_of-absent key _ _ (given-absent key _ _ url) (
        value_of-absent key _ _ (given-absent key _ _ certs)
          (value_of-absent key _ _ (set_if-absent key _ _ _ vite) (set_if-absent key _ _ _ lan))))

module _ (s : ProxySettings) (opts : RunOptions) (resolved : List ℕ) where
  rest_absent :
      (m : Metadata)
      → value_of (name_of m) (port_env resolved ++ inject_proxy_env s opts.slug) ≡ none
  rest_absent m =
      value_of-absent (name_of m) (port_env resolved) (inject_proxy_env s opts.slug)
        (port_env-absent m resolved)
        (inject_proxy_env-absent s (name_of m) opts.slug (name_of-IsForeign m))

  abbrev rest : Assignments
  rest = port_env resolved ++ inject_proxy_env s opts.slug

  abbrev identity : Assignments
  identity =
      (name_of daemon_id, qualified opts.id)
      ∷ (name_of namespace, opts.id.namespace)
      ∷ (name_of retry_count, to_string opts.retry_count)
      ∷ []

  metadata-told :
      (m : Metadata) → value_of (name_of m) (metadata s opts resolved) ≡ some (told m opts)
  unfolding metadata value_of text_eq
  metadata-told daemon_id =
      value_of-earlier (name_of daemon_id) identity rest (rest_absent daemon_id) refl
  metadata-told namespace =
      value_of-earlier (name_of namespace) identity rest (rest_absent namespace) refl
  metadata-told retry_count =
      value_of-earlier (name_of retry_count) identity rest (rest_absent retry_count) refl

-- Whatever the configuration sets, a process finds the identifier and the namespace of its daemon and
-- the number of the attempt in its environment.
pub environment-Metadata :
    (s : ProxySettings) (opts : RunOptions) (resolved : List ℕ) (m : Metadata)
    → value_of (name_of m) (environment s opts resolved) ≡ some (told m opts)
unfolding environment metadata
environment-Metadata s opts resolved m =
    value_of-later (name_of m) _ _
      (value_of-later (name_of m) (unwrap_or opts.env []) _ (metadata-told s opts resolved m))
