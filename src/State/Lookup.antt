-- ===== src/State/Lookup.antt =====
-- What the lookups of src/state_file.rs and src/supervisor/state.rs find after a change.
use pitchfork.Prelude.{
  ℕ, ◌^◌, ◌<◌, ◌≡◌, refl, sym, ◌∙◌, ◌&&◌, none, some, [], ◌∷◌, arith, Bool-cases, Option-cases, inl,
  inr, if◌then◌else◌, ◌==◌, ap, ==_iff,
}
use pitchfork.Text.{Text, text_eq, text_eq_iff}
use pitchfork.Text.Decimal.{to_string, to_string_injective}
use pitchfork.Config.{FilePath}
use pitchfork.Daemon.{unwrap_or}
use pitchfork.Map.{get, insert, remove, text_key, Map}
use pitchfork.Map.Laws.{get-insert, get-remove, get-modify, remove_absent}
use pitchfork.State.{
  StateFile, ProjectSession, Sessions, set_shell_dir, remove_shell_dir, set_project_session,
  remove_project_session, get_project_session, path_key, sessions_of, put_sessions, mark_dirty,
}
use pitchfork.State.Access.{get_shell_dir}

-- The keys of two process numbers are the same text if they are the same number.
to_string_eq : (m n : ℕ) → m < 2 ^ 32 → n < 2 ^ 32 → text_eq (to_string m) (to_string n) ≡ (m == n)
to_string_eq m n p q =
    ground (arith, text_eq_iff (to_string m) (to_string n), to_string_injective m n p q, ==_iff m n)

-- For `u32` numbers: a shell is found in the directory that it was set to last, and every other shell
-- where it was.
get_shell_dir-set_shell_dir :
    (pid other : ℕ) (dir : FilePath) (s : StateFile)
    → pid < 2 ^ 32
    → other < 2 ^ 32
    → get_shell_dir other (set_shell_dir pid dir s)
      ≡ (if pid == other then some dir else get_shell_dir other s)
unfolding get_shell_dir set_shell_dir mark_dirty
get_shell_dir-set_shell_dir pid other dir s p q = ground (
  arith,
  get-insert (to_string pid) (to_string other) dir s.shell_dirs,
  to_string_eq pid other p q,
)

-- For `u32` numbers: a shell that is removed is not found, and every other shell is where it was.
get_shell_dir-remove_shell_dir :
    (pid other : ℕ) (s : StateFile)
    → pid < 2 ^ 32
    → other < 2 ^ 32
    → get_shell_dir other ((remove_shell_dir pid s).0)
      ≡ (if pid == other then none else get_shell_dir other s)
unfolding get_shell_dir remove_shell_dir mark_dirty
get_shell_dir-remove_shell_dir pid other s p q =
    ground
      (arith, get-remove (to_string pid) (to_string other) s.shell_dirs, to_string_eq pid other p q)

-- A host process without an entry has no sessions.
get_project_session-sessions_of :
    (pid : ℕ) (dir : FilePath) (s : StateFile)
    → get_project_session pid dir s ≡ get ⦃k = path_key⦄ dir (sessions_of (to_string pid) s)
unfolding get_project_session get
get_project_session-sessions_of pid dir s =
    elim (Option-cases (get (to_string pid) s.project_sessions)) [
      | inl no_host ↦ rw (no_host, get_project_session) refl
      | inr (inner, host) ↦ rw (host, get_project_session) refl
    ]

found_by :
    (pid other : ℕ) (dir : FilePath) (s : StateFile)
    → pid ≡ other
    → get ⦃k = path_key⦄ dir (sessions_of (to_string pid) s) ≡ get_project_session other dir s
found_by pid other dir s same =
    ap (λ n. get ⦃k = path_key⦄ dir (sessions_of (to_string n) s)) same
    ∙ sym (get_project_session-sessions_of other dir s)

sessions_of-set_project_session :
    (pid other : ℕ) (dir : FilePath) (value : ProjectSession) (s : StateFile)
    → pid < 2 ^ 32
    → other < 2 ^ 32
    → sessions_of (to_string other) ((set_project_session pid dir value s).0) ≡ (
        if pid == other
        then insert ⦃k = path_key⦄ dir value (sessions_of (to_string pid) s)
        else sessions_of (to_string other) s)
unfolding set_project_session mark_dirty
sessions_of-set_project_session pid other dir value s p q = elim (Bool-cases (pid == other)) [
  | inl same ↦
      rw
        (get-insert (to_string pid) (to_string other)
          (insert ⦃k = path_key⦄ dir value (sessions_of (to_string pid) s)) s.project_sessions)
        (rw (to_string_eq pid other p q, same) refl)
  | inr apart ↦
      rw
        (get-insert (to_string pid) (to_string other)
          (insert ⦃k = path_key⦄ dir value (sessions_of (to_string pid) s)) s.project_sessions)
        (rw (to_string_eq pid other p q, apart) refl)
]

-- For `u32` numbers: the session of `pid` and `dir` is what it was set to last, and every other
-- session is as it was.
pub get_project_session-set_project_session :
    (pid other : ℕ) (dir elsewhere : FilePath) (value : ProjectSession) (s : StateFile)
    → pid < 2 ^ 32
    → other < 2 ^ 32
    → get_project_session other elsewhere ((set_project_session pid dir value s).0) ≡ (
        if (pid == other) && text_eq dir elsewhere
        then some value
        else get_project_session other elsewhere s)
get_project_session-set_project_session pid other dir elsewhere value s p q =
    get_project_session-sessions_of other elsewhere ((set_project_session pid dir value s).0)
    ∙ ap (λ inner. get ⦃k = path_key⦄ elsewhere inner)
        (sessions_of-set_project_session pid other dir value s p q)
    ∙ elim (Bool-cases (pid == other)) [
      | inl same ↦ rw same (
          get-insert ⦃k = path_key⦄ dir elsewhere value (sessions_of (to_string pid) s)
          ∙ ap (λ found. if text_eq dir elsewhere then some value else found)
              (found_by pid other elsewhere s ((==_iff pid other).0 same)))
      | inr apart ↦ rw apart (sym (get_project_session-sessions_of other elsewhere s))
    ]

-- Setting a session returns the one that there was.
pub set_project_session-previous :
    (pid : ℕ) (dir : FilePath) (value : ProjectSession) (s : StateFile)
    → (set_project_session pid dir value s).1 ≡ get_project_session pid dir s
unfolding set_project_session
set_project_session-previous pid dir value s = sym (get_project_session-sessions_of pid dir s)

sessions_of-put_sessions :
    (pid other : ℕ) (inner old : Sessions) (m : Map Text Sessions)
    → pid < 2 ^ 32
    → other < 2 ^ 32
    → get (to_string pid) m ≡ some old
    → unwrap_or (get (to_string other) (put_sessions (to_string pid) inner m)) []
      ≡ (if pid == other then inner else unwrap_or (get (to_string other) m) [])
sessions_of-put_sessions pid other [] old m p q h = elim (Bool-cases (pid == other)) [
  | inl same ↦
      rw (get-remove (to_string pid) (to_string other) m)
        (rw (to_string_eq pid other p q, same) refl)
  | inr apart ↦
      rw (get-remove (to_string pid) (to_string other) m)
        (rw (to_string_eq pid other p q, apart) refl)
]
sessions_of-put_sessions pid other (e ∷ inner) old m p q h = elim (Bool-cases (pid == other)) [
  | inl same ↦ rw (get-modify (to_string pid) (to_string other) (λ _. e ∷ inner) m) (
      rw (to_string_eq pid other p q, same)
        (rw (ap (λ n. get (to_string n) m) (sym ((==_iff pid other).0 same)) ∙ h) refl))
  | inr apart ↦
      rw (get-modify (to_string pid) (to_string other) (λ _. e ∷ inner) m)
        (rw (to_string_eq pid other p q, apart) refl)
]

-- A removal that finds nothing leaves the sessions of every host process.
untouched :
    (pid other : ℕ) (dir : FilePath) (s : StateFile)
    → get ⦃k = path_key⦄ dir (sessions_of (to_string pid) s) ≡ none
    → sessions_of (to_string other) s ≡ (
        if pid == other
        then remove ⦃k = path_key⦄ dir (sessions_of (to_string pid) s)
        else sessions_of (to_string other) s)
untouched pid other dir s h = elim (Bool-cases (pid == other)) [
  | inl same ↦ rw same (
      ap (λ n. sessions_of (to_string n) s) (sym ((==_iff pid other).0 same))
      ∙ sym (remove_absent ⦃k = path_key⦄ dir (sessions_of (to_string pid) s) h))
  | inr apart ↦ rw apart refl
]

sessions_of-remove_project_session :
    (pid other : ℕ) (dir : FilePath) (s : StateFile)
    → pid < 2 ^ 32
    → other < 2 ^ 32
    → sessions_of (to_string other) ((remove_project_session pid dir s).0) ≡ (
        if pid == other
        then remove ⦃k = path_key⦄ dir (sessions_of (to_string pid) s)
        else sessions_of (to_string other) s)
unfolding remove_project_session mark_dirty get
sessions_of-remove_project_session pid other dir s p q =
    elim (Option-cases (get (to_string pid) s.project_sessions)) [
      | inl no_host ↦
          at_other {t = s} (ground (arith, no_host)) ∙ untouched pid other dir s (rw no_host refl)
      | inr (inner, host) ↦ elim (Option-cases (get ⦃k = path_key⦄ dir inner)) [
        | inl absent ↦
            at_other {t = s} (ground (arith, host, absent))
            ∙ untouched pid other dir s (rw host absent)
        | inr (value, present) ↦
            at_other
              {t = mark_dirty (record s {
                project_sessions =
                    put_sessions (to_string pid) (remove ⦃k = path_key⦄ dir inner)
                      s.project_sessions;
              })}
              (ground (arith, host, present))
            ∙ sessions_of-put_sessions pid other (remove ⦃k = path_key⦄ dir inner) inner
                s.project_sessions p q host
            ∙ ap
                (λ old.
                  if pid == other
                  then remove ⦃k = path_key⦄ dir old
                  else sessions_of (to_string other) s)
                (sym (ap (λ o. unwrap_or o []) host))
      ]
    ]
  where
    at_other :
        {t : StateFile}
        → (remove_project_session pid dir s).0 ≡ t
        → sessions_of (to_string other) ((remove_project_session pid dir s).0)
          ≡ sessions_of (to_string other) t
    at_other e = ap (λ t. sessions_of (to_string other) t) e

-- For `u32` numbers: a session that is removed is not found, and every other session is as it was.
pub get_project_session-remove_project_session :
    (pid other : ℕ) (dir elsewhere : FilePath) (s : StateFile)
    → pid < 2 ^ 32
    → other < 2 ^ 32
    → get_project_session other elsewhere ((remove_project_session pid dir s).0) ≡ (
        if (pid == other) && text_eq dir elsewhere
        then none
        else get_project_session other elsewhere s)
get_project_session-remove_project_session pid other dir elsewhere s p q =
    get_project_session-sessions_of other elsewhere ((remove_project_session pid dir s).0)
    ∙ ap (λ inner. get ⦃k = path_key⦄ elsewhere inner)
        (sessions_of-remove_project_session pid other dir s p q)
    ∙ elim (Bool-cases (pid == other)) [
      | inl same ↦ rw same (
          get-remove ⦃k = path_key⦄ dir elsewhere (sessions_of (to_string pid) s)
          ∙ ap (λ found. if text_eq dir elsewhere then none else found)
              (found_by pid other elsewhere s ((==_iff pid other).0 same)))
      | inr apart ↦ rw apart (sym (get_project_session-sessions_of other elsewhere s))
    ]
