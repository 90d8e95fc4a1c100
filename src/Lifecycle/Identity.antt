-- ===== src/Lifecycle/Identity.antt =====
-- `resolve_run_identity` of src/supervisor/lifecycle.rs: the user that a daemon runs as. The users
-- that the operating system knows are a parameter.
use pitchfork.Prelude.{
  ℕ, ◌≡◌, ◌==◌, Bool, false, ◌&&◌, ◌||◌, Option, none, some, arith, if◌then◌else◌, all, Result, ok,
  err, ◌>>=◌, ◌>>◌, refuse, not,
}
use pitchfork.Text.{Text, contains_char}
use pitchfork.Text.Decimal.{is_digit, parse_u32}
use pitchfork.Daemon.{and_then}
use pitchfork.Ipc.{
  IdentityError, invalid_uid, user_lookup_failed, unknown_user, name_has_nul, not_permitted,
}

pub data RunIdentity : Type 0 where
  inherit : RunIdentity
  switch : (uid gid : ℕ) (username : Option Text) → RunIdentity

pub record User : Type 0 where
  pub name : Text
  pub uid : ℕ
  pub gid : ℕ

-- A lookup finds a user, finds none, or fails.
pub data Lookup : Type 0 where
  found : (user : User) → Lookup
  no_such_user lookup_failed : Lookup

pub record Users : Type 0 where
  pub from_uid : ℕ → Lookup
  pub from_name : Text → Lookup

-- `CString::new`
abbrev pub c_string : Text → Option Text
c_string s = if contains_char s 0 then none else some s

unfoldable pub run_identity_from_user_record : User → Result IdentityError RunIdentity
run_identity_from_user_record user = elim (c_string user.name) [
  | none ↦ err (name_has_nul user.name)
  | some username ↦ ok (switch user.uid user.gid (some username))
]

abbrev pub identity_of : Text → Lookup → Result IdentityError RunIdentity
identity_of name (found user) = run_identity_from_user_record user
identity_of name no_such_user = err (unknown_user name)
identity_of name lookup_failed = err (user_lookup_failed name)

abbrev pub matches : RunIdentity → (uid gid : ℕ) → Bool
matches inherit uid gid = false
matches (switch u g username) uid gid = u == uid && g == gid

unfoldable pub ensure_can_use_identity :
    Text → RunIdentity → (current_uid current_gid : ℕ) → Result IdentityError (Unit {0})
ensure_can_use_identity user inherit current_uid current_gid = ok tt
ensure_can_use_identity user (switch uid gid username) current_uid current_gid =
    refuse (not ((uid == current_uid && gid == current_gid) || current_uid == 0))
      (not_permitted user current_uid current_gid uid gid)

module _ (users : Users) where
  unfoldable pub resolve_configured_user : Text → Result IdentityError RunIdentity
  unfolding run_identity_from_user_record
  resolve_configured_user user =
      if all is_digit user
      then elim (parse_u32 user) [
        | none ↦ err (invalid_uid user)
        | some uid ↦ identity_of user (users.from_uid uid)
      ]
      else identity_of user (users.from_name user)

  -- The name is left out where the user is not known or its name has a nul.
  abbrev pub name_of : Lookup → Option Text
  name_of (found user) = c_string user.name
  name_of no_such_user = none
  name_of lookup_failed = none

  unfoldable pub resolve_sudo_identity : Option Text → Option Text → Option RunIdentity
  resolve_sudo_identity sudo_uid sudo_gid = and_then (and_then sudo_uid parse_u32) (λ uid.
      and_then (and_then sudo_gid parse_u32)
        (λ gid. some (switch uid gid (name_of (users.from_uid uid)))))

  unfoldable pub resolve_run_identity :
      (configured : Option Text) (current_uid current_gid : ℕ) (sudo_uid sudo_gid : Option Text)
      → Result IdentityError RunIdentity
  unfolding resolve_configured_user ensure_can_use_identity resolve_sudo_identity
  resolve_run_identity none current_uid current_gid sudo_uid sudo_gid =
      if current_uid == 0
      then elim (resolve_sudo_identity sudo_uid sudo_gid) [
        | some identity ↦ ok identity
        | none ↦ ok inherit
      ]
      else ok inherit
  resolve_run_identity (some user) current_uid current_gid sudo_uid sudo_gid = do
    identity ← resolve_configured_user user
    ensure_can_use_identity user identity current_uid current_gid
    ok (if matches identity current_uid current_gid then inherit else identity)

  -- Only a supervisor that runs as root starts a daemon as another user.
  pub resolve_run_identity-IsRoot :
      (configured : Option Text) (current_uid current_gid : ℕ) (sudo_uid sudo_gid : Option Text)
      {uid gid : ℕ} {username : Option Text}
      → resolve_run_identity configured current_uid current_gid sudo_uid sudo_gid
        ≡ ok (switch uid gid username)
      → current_uid ≡ 0
  unfolding resolve_run_identity ensure_can_use_identity
  resolve_run_identity-IsRoot none current_uid current_gid sudo_uid sudo_gid h = ground arith
  resolve_run_identity-IsRoot (some user) current_uid current_gid sudo_uid sudo_gid h = ground arith
