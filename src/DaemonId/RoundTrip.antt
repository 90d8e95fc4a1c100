-- ===== src/DaemonId/RoundTrip.antt =====
-- The two printed forms of an identifier and their parsers, `parse` and `from_safe_path` of
-- src/daemon_id.rs.
use pitchfork.Prelude.{
  ℕ, ◌≡◌, ◌↔◌, inl, inr, true, false, [], ◌∷◌, ◌++◌, arith, sym, subst, Option-cases, is_empty, all,
  all-imp, all-append, is_empty-append, ok, some,
}
use pitchfork.Text.{Text, split_once, contains_char, count_char}
use pitchfork.Text.Search.{
  split_once_char, split_once_pair, split_once-eq-some, contains_char-append, count_char-append,
  count_char-absent,
}
use pitchfork.DaemonId.{
  DaemonId, slash, dash, backslash, double_dash, validate_component, is_component_char,
  is_printable_ascii, validate_qualified_id, parse, from_safe_path, qualified, safe_path,
  namespace_label, name_label,
}
use pitchfork.DaemonId.Component.{
  IsComponent, Passes, Passes-iff, IsComponent→Passes, validate_component_iff,
}

pub record IsId (id : DaemonId) : Type 0 where
  pub namespace : IsComponent id.namespace
  pub name : IsComponent id.name

-- What an accepted character is, for the weaker tests on a whole identifier.
component_char_printable : (c : ℕ) → is_component_char c ≡ true → is_printable_ascii c ≡ true
unfolding is_component_char is_printable_ascii
component_char_printable c h = ground arith

all-printable : (s : Text) → all is_component_char s ≡ true → all is_printable_ascii s ≡ true
all-printable s = all-imp is_component_char is_printable_ascii s component_char_printable

module _ (ns name : Text) (p : Passes ns) (q : Passes name) where
  abbrev whole : Text
  whole = ns ++ (slash ∷ name)

  whole_filled : is_empty whole ≡ false
  whole_filled = is_empty-append ns (slash ∷ name) p.filled

  whole_absent :
      (c : ℕ)
      → contains_char ns c ≡ false
      → contains_char (slash ∷ name) c ≡ false
      → contains_char whole c ≡ false
  whole_absent = contains_char-append ns (slash ∷ name)

  whole_printable : all is_printable_ascii whole ≡ true
  unfolding is_printable_ascii
  whole_printable =
      all-append is_printable_ascii ns (slash ∷ name) (all-printable ns p.allowed)
        (all-printable name q.allowed)

  whole_slashes : count_char whole slash ≡ 1
  unfolding count_char
  whole_slashes = omega (
    arith,
    count_char-append ns (slash ∷ name) slash,
    count_char-absent ns slash p.slashes,
    count_char-absent name slash q.slashes,
  )

  whole_split : split_once whole (slash ∷ []) ≡ some (ns, name)
  whole_split = split_once_char ns name slash p.slashes

  whole_valid : validate_qualified_id whole ≡ ok tt
  unfolding validate_qualified_id contains_char
  whole_valid = rw (
    whole_filled,
    whole_absent backslash p.backslashes q.backslashes,
    whole_absent b' ' p.spaces q.spaces,
    whole_printable,
    whole_slashes,
    whole_split,
    p.filled,
    q.filled,
    (Passes-iff ns namespace_label).1 p,
    (Passes-iff name name_label).1 q,
  )

parse-qualified : (id : DaemonId) → IsId id → parse (qualified id) ≡ ok id
unfolding parse qualified
parse-qualified id v =
    let p = IsComponent→Passes id.namespace v.namespace in
    let q = IsComponent→Passes id.name v.name in
    rw (whole_valid id.namespace id.name p q, whole_split id.namespace id.name p q)

-- The test on the whole text says of its two pieces that they are components.
validate_qualified_id-parts :
    (s ns name : Text)
    → split_once s (slash ∷ []) ≡ some (ns, name)
    → validate_qualified_id s ≡ ok tt
    → (validate_component ns namespace_label ≡ ok tt) × (validate_component name name_label ≡ ok tt)
unfolding validate_qualified_id
validate_qualified_id-parts s ns name e h = ground arith

parse_sound : (s : Text) (id : DaemonId) → parse s ≡ ok id → (qualified id ≡ s) × IsId id
unfolding parse qualified
parse_sound s id h = elim (Option-cases (split_once s (slash ∷ []))) [
  | inl e ↦ ground arith
  | inr ((ns, name), e) ↦
      let valid : validate_qualified_id s ≡ ok tt = ground arith in
      let (p, q) = validate_qualified_id-parts s ns name e valid in
      let same : id ≡ record { namespace = ns; name = name } = ground arith in
      rw same (
        sym (split_once-eq-some s (slash ∷ []) ns name e),
        record {
          namespace = (validate_component_iff ns namespace_label).0 p;
          name = (validate_component_iff name name_label).0 q;
        },
      )
]

-- `parse` accepts the qualified forms of valid identifiers and nothing else.
pub parse_iff : (s : Text) (id : DaemonId) → (parse s ≡ ok id) ↔ ((qualified id ≡ s) × IsId id)
parse_iff s id = (parse_sound s id, λ (e, v). subst (λ t. parse t ≡ ok id) e (parse-qualified id v))

from_safe_path-safe_path : (id : DaemonId) → IsId id → from_safe_path (safe_path id) ≡ ok id
unfolding from_safe_path safe_path
from_safe_path-safe_path id v =
    let p = IsComponent→Passes id.namespace v.namespace in
    rw (
      split_once_pair id.namespace id.name dash p.reserved p.trailing,
      (validate_component_iff id.namespace namespace_label).1 v.namespace,
      (validate_component_iff id.name name_label).1 v.name,
    )

from_safe_path_sound :
    (s : Text) (id : DaemonId) → from_safe_path s ≡ ok id → (safe_path id ≡ s) × IsId id
unfolding from_safe_path safe_path
from_safe_path_sound s id h = elim (Option-cases (split_once s double_dash)) [
  | inl e ↦ ground arith
  | inr ((ns, name), e) ↦
      let p : validate_component ns namespace_label ≡ ok tt = ground arith in
      let q : validate_component name name_label ≡ ok tt = ground arith in
      let same : id ≡ record { namespace = ns; name = name } = ground arith in
      rw same (
        sym (split_once-eq-some s double_dash ns name e),
        record {
          namespace = (validate_component_iff ns namespace_label).0 p;
          name = (validate_component_iff name name_label).0 q;
        },
      )
]

-- `from_safe_path` accepts the safe paths of valid identifiers and nothing else.
pub from_safe_path_iff :
    (s : Text) (id : DaemonId) → (from_safe_path s ≡ ok id) ↔ ((safe_path id ≡ s) × IsId id)
from_safe_path_iff s id = (
  from_safe_path_sound s id,
  λ (e, v). subst (λ t. from_safe_path t ≡ ok id) e (from_safe_path-safe_path id v),
)

-- Valid identifiers with one safe path are one.
safe_path_injective : (a b : DaemonId) → IsId a → IsId b → safe_path a ≡ safe_path b → a ≡ b
safe_path_injective a b va vb e =
    cc (from_safe_path-safe_path a va, from_safe_path-safe_path b vb, e)
