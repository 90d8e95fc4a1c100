-- ===== src/DaemonId/Accepted.antt =====
-- `try_new` and `is_valid_daemon_id`: which texts stand for a daemon; and the `unwrap` calls of
-- src/daemon_id.rs.
use pitchfork.Prelude.{
  ◌≡◌, ◌≢◌, ◌↔◌, ◌⊎◌, inl, inr, true, [], ◌∷◌, arith, refl, subst, Bool-cases, Option-cases, ok,
  err, none, is_ok-cases,
}
use pitchfork.Text.{
  Text, text_eq, split_once, contains, contains_char, strip_prefix, ends_with_char,
}
use pitchfork.Text.Search.{split_once_char-none, contains_char-middle}
use pitchfork.DaemonId.{
  is_component_char, DaemonId, slash, panicked, validate_component, validate_qualified_id, parse,
  try_new, qualified, is_valid_daemon_id, global, namespace_label, name_label,
}
use pitchfork.DaemonId.Component.{IsComponent, IsComponent→Passes, validate_component_iff}
use pitchfork.DaemonId.RoundTrip.{IsId, parse_iff}

-- `try_new` returns the identifier of its two arguments exactly when both are components.
pub try_new_iff :
    (ns name : Text) (id : DaemonId)
    → (try_new ns name ≡ ok id)
      ↔ ((id ≡ record { namespace = ns; name = name }) × IsComponent ns × IsComponent name)
try_new_iff ns name id = (
  λ h.
      let (p, q, e) = parts h in
      (
        e,
        (validate_component_iff ns namespace_label).0 p,
        (validate_component_iff name name_label).0 q,
      ),
  λ (e, p, q).
      whole ((validate_component_iff ns namespace_label).1 p)
        ((validate_component_iff name name_label).1 q) e,
)
  where
    parts :
        try_new ns name ≡ ok id
        → (validate_component ns namespace_label ≡ ok tt)
          × (validate_component name name_label ≡ ok tt)
          × (id ≡ record { namespace = ns; name = name })
    parts h = unfold try_new in ground arith

    whole :
        validate_component ns namespace_label ≡ ok tt
        → validate_component name name_label ≡ ok tt
        → id ≡ record { namespace = ns; name = name }
        → try_new ns name ≡ ok id
    whole p q e = unfold try_new in rw (p, q, e)

global-accepted : validate_component global namespace_label ≡ ok tt
unfolding validate_component contains contains_char strip_prefix ends_with_char text_eq
    is_component_char
global-accepted = refl

pub global-IsComponent : IsComponent global
global-IsComponent = (validate_component_iff global namespace_label).0 global-accepted

-- A text names a daemon exactly when it is the qualified form of a valid identifier, or one
-- component, the name of a daemon of the namespace "global".
is_valid_daemon_id_iff :
    (s : Text)
    → (is_valid_daemon_id s ≡ true)
      ↔ (((id : DaemonId) × IsId id × (qualified id ≡ s)) ⊎ IsComponent s)
unfolding is_valid_daemon_id
is_valid_daemon_id_iff s = (
  λ h. elim (Bool-cases (contains_char s slash)) [
    | inl slashed ↦
        let (id, e) = is_ok-cases (parse s) (rw slashed at h) in
        let (same, v) = (parse_iff s id).0 e in inl (id, v, same)
    | inr plain ↦
        let (id, e) = is_ok-cases (try_new global s) (rw plain at h) in
        inr ((try_new_iff global s id).0 e).2
  ],
  elim [
    | inl (id, v, same) ↦ rw (slashed id s same, (parse_iff s id).1 (same, v))
    | inr v ↦ rw (
      (IsComponent→Passes s v).slashes,
      (try_new_iff global s (record { namespace = global; name = s })).1
          (refl, global-IsComponent, v),
    )
  ],
)
  where
    slashed : (id : DaemonId) (t : Text) → qualified id ≡ t → contains_char t slash ≡ true
    slashed id t e =
        subst (λ u. contains_char u slash ≡ true) e
          (unfold qualified in contains_char-middle id.namespace id.name slash)

validate_component-ne-panicked : (s label : Text) → validate_component s label ≢ err panicked
unfolding validate_component
validate_component-ne-panicked s label h = ground arith

validate_qualified_id-ne-panicked : (s : Text) → validate_qualified_id s ≢ err panicked
unfolding validate_qualified_id
validate_qualified_id-ne-panicked s h = elim (Option-cases (split_once s (slash ∷ []))) [
  | inl e ↦ ground (arith, split_once_char-none s slash e)
  | inr ((ns, name), e) ↦ ground (
    arith,
    validate_component-ne-panicked ns namespace_label,
    validate_component-ne-panicked name name_label,
  )
]

-- What passes the validation has a slash to split at.
valid-has_slash : (s : Text) → validate_qualified_id s ≡ ok tt → split_once s (slash ∷ []) ≢ none
unfolding validate_qualified_id
valid-has_slash s h e = ground arith

-- On no text does `parse` reach the panic of its `expect`, or that of the `unwrap` in the
-- validation before it.
parse-ne-panicked : (s : Text) → parse s ≢ err panicked
unfolding parse
parse-ne-panicked s h = ground (arith, validate_qualified_id-ne-panicked s, valid-has_slash s)
