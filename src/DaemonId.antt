-- ===== src/DaemonId.antt =====
-- src/daemon_id.rs: the identifier of a daemon, its two printed forms and their parsers; and
-- `is_valid_daemon_id` of src/daemon.rs. The proofs are in the modules below.

pub mod Component
pub mod RoundTrip
pub mod Accepted
mod Examples
use pitchfork.Prelude.{
  ℕ, ◌≡◌, ◌↔◌, Bool, true, false, not, ◌&&◌, ◌||◌, Option, none, some, List, [], ◌∷◌, ◌++◌, arith,
  ◌==◌, leb, ltb, if◌then◌else◌, is_empty, all, Result, ok, err, ◌>>=◌, ◌>>◌, refuse, is_ok,
}
use pitchfork.Text.{
  Text, codes, text_eq, text_eq_iff, text_le, ends_with_char, starts_with, contains, contains_char,
  count_char, split_once,
}

-- `panicked` is no error of the source: it is the panic of an `unwrap` or `expect` on `None`.
pub data DaemonIdError : Type 0 where
  panicked : DaemonIdError
  empty : DaemonIdError
  empty_component : (component : Text) → DaemonIdError
  path_separator : (id : Text) (sep : ℕ) → DaemonIdError
  parent_dir_ref reserved_sequence leading_trailing_dash : (id : Text) → DaemonIdError
  contains_space : (id : Text) → DaemonIdError
  current_dir : DaemonIdError
  invalid_chars missing_namespace : (id : Text) → DaemonIdError
  invalid_safe_path : (path : Text) → DaemonIdError

pub record DaemonId : Type 0 where
  pub namespace : Text
  pub name : Text

abbrev pub slash : ℕ
slash = b'/'

abbrev pub dash : ℕ
dash = b'-'

abbrev pub dot : ℕ
dot = b'.'

abbrev pub backslash : ℕ
backslash = 92

abbrev pub double_dash : Text
double_dash = dash ∷ dash ∷ []

abbrev pub double_dot : Text
double_dot = dot ∷ dot ∷ []

unfoldable pub is_ascii_alphanumeric : ℕ → Bool
is_ascii_alphanumeric c =
    (leb b'0' c && leb c b'9') || (leb b'A' c && leb c b'Z') || (leb b'a' c && leb c b'z')

unfoldable pub is_component_char : ℕ → Bool
unfolding is_ascii_alphanumeric
is_component_char c = is_ascii_alphanumeric c || c == b'_' || c == dash || c == dot

unfoldable pub validate_component : Text → Text → Result DaemonIdError (Unit {0})
validate_component s component_name = do
  refuse (is_empty s) (empty_component component_name)
  refuse (contains_char s slash) (path_separator s slash)
  refuse (contains_char s backslash) (path_separator s backslash)
  refuse (contains s double_dot) (parent_dir_ref s)
  refuse (contains s double_dash) (reserved_sequence s)
  refuse (starts_with s (dash ∷ []) || ends_with_char s dash) (leading_trailing_dash s)
  refuse (contains_char s b' ') (contains_space s)
  refuse (text_eq s (dot ∷ [])) current_dir
  refuse (not (all is_component_char s)) (invalid_chars s)
  ok tt

abbrev pub namespace_label : Text
namespace_label = codes "namespace"

abbrev pub name_label : Text
name_label = codes "name"

unfoldable pub try_new : Text → Text → Result DaemonIdError DaemonId
try_new namespace name = do
  validate_component namespace namespace_label
  validate_component name name_label
  ok (record { namespace = namespace; name = name })

-- `c.is_ascii() && !c.is_ascii_control()`
unfoldable pub is_printable_ascii : ℕ → Bool
is_printable_ascii c = ltb c 128 && not (ltb c 32 || c == 127)

-- What `validate_qualified_id` does with the pieces around the first '/'.
abbrev pub validate_parts : Text → Option (Text × Text) → Result DaemonIdError (Unit {0})
validate_parts s none = err panicked
validate_parts s (some (ns, name)) = do
  refuse (is_empty ns || is_empty name) (path_separator s slash)
  validate_component ns namespace_label
  validate_component name name_label
  ok tt

unfoldable pub validate_qualified_id : Text → Result DaemonIdError (Unit {0})
validate_qualified_id s = do
  refuse (is_empty s) empty
  refuse (contains_char s backslash) (path_separator s backslash)
  refuse (contains_char s b' ') (contains_space s)
  refuse (not (all is_printable_ascii s)) (invalid_chars s)
  refuse (count_char s slash == 0) (missing_namespace s)
  refuse (ltb 1 (count_char s slash)) (path_separator s slash)
  validate_parts s (split_once s (slash ∷ []))

abbrev pub parse_parts : Option (Text × Text) → Result DaemonIdError DaemonId
parse_parts none = err panicked
parse_parts (some (ns, name)) = ok (record { namespace = ns; name = name })

unfoldable pub parse : Text → Result DaemonIdError DaemonId
parse s = do validate_qualified_id s; parse_parts (split_once s (slash ∷ []))

abbrev pub safe_path_parts : Text → Option (Text × Text) → Result DaemonIdError DaemonId
safe_path_parts s none = err (invalid_safe_path s)
safe_path_parts s (some (ns, name)) = do
  validate_component ns namespace_label
  validate_component name name_label
  ok (record { namespace = ns; name = name })

unfoldable pub from_safe_path : Text → Result DaemonIdError DaemonId
from_safe_path s = safe_path_parts s (split_once s double_dash)

unfoldable pub qualified : DaemonId → Text
qualified id = id.namespace ++ (slash ∷ id.name)

unfoldable pub safe_path : DaemonId → Text
safe_path id = id.namespace ++ (dash ∷ dash ∷ id.name)

abbrev pub global : Text
global = codes "global"

-- The identifier of the supervisor itself.
abbrev pub pitchfork_id : DaemonId
pitchfork_id = record { namespace = global; name = codes "pitchfork" }

unfoldable pub is_valid_daemon_id : Text → Bool
is_valid_daemon_id id =
    if contains_char id slash then is_ok (parse id) else is_ok (try_new global id)

-- The derived `PartialEq` and `Ord`: by namespace, then by name.
unfoldable pub id_eq : DaemonId → DaemonId → Bool
id_eq a b = text_eq a.namespace b.namespace && text_eq a.name b.name

unfoldable pub id_le : DaemonId → DaemonId → Bool
id_le a b =
    if text_eq a.namespace b.namespace
    then text_le a.name b.name
    else text_le a.namespace b.namespace

pub id_eq_iff : (a b : DaemonId) → (id_eq a b ≡ true) ↔ (a ≡ b)
unfolding id_eq
id_eq_iff a b = ground (arith, text_eq_iff a.namespace b.namespace, text_eq_iff a.name b.name)
