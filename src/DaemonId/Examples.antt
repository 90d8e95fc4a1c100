-- ===== src/DaemonId/Examples.antt =====
-- Runs of src/daemon_id.rs on concrete texts.
use pitchfork.Prelude.{◌≡◌, ◌↔◌, true, refl, ok}
use pitchfork.Text.{
  codes, text_eq, contains, contains_char, strip_prefix, ends_with_char, split_once, count_char,
}
use pitchfork.DaemonId.{
  DaemonId, validate_component, try_new, parse, qualified, safe_path, from_safe_path,
  is_valid_daemon_id, is_component_char, is_printable_ascii, validate_qualified_id,
}
use pitchfork.DaemonId.RoundTrip.{IsId, parse_iff, from_safe_path_iff}

abbrev api : DaemonId
api = record { namespace = codes "my-app"; name = codes "api.v2" }

api_text : parse (codes "my-app/api.v2") ≡ ok api
unfolding parse validate_qualified_id validate_component contains contains_char strip_prefix
    ends_with_char text_eq is_component_char is_printable_ascii split_once count_char
api_text = refl

-- Nothing but the parser knows a leading dash from one inside.
dashed_text : from_safe_path (codes "my-app--api.v2") ≡ ok api
unfolding from_safe_path validate_component contains contains_char strip_prefix ends_with_char
    text_eq is_component_char split_once
dashed_text = refl

valid_text : is_valid_daemon_id (codes "worker_1") ≡ true
unfolding is_valid_daemon_id try_new validate_component contains contains_char strip_prefix
    ends_with_char text_eq is_component_char
valid_text = refl

api-IsId : IsId api
api-IsId = ((parse_iff (codes "my-app/api.v2") api).0 api_text).1

parse_iff_example :
    (parse (codes "my-app/api.v2") ≡ ok api) ↔ ((qualified api ≡ codes "my-app/api.v2") × IsId api)
parse_iff_example = parse_iff (codes "my-app/api.v2") api

from_safe_path_iff_example :
    (from_safe_path (codes "my-app--api.v2") ≡ ok api)
    ↔ ((safe_path api ≡ codes "my-app--api.v2") × IsId api)
from_safe_path_iff_example = from_safe_path_iff (codes "my-app--api.v2") api
