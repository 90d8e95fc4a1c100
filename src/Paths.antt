-- ===== src/Paths.antt =====
-- `std::path::Path` of the standard library, on paths in their normal form: no separator at the end
-- but that of the root, and none doubled.
use pitchfork.Prelude.{◌==◌, Bool, ◌||◌, Option, none, some, [], ◌∷◌, ◌++◌, if◌then◌else◌, is_empty}
use mathlib.Core.List.{reverse}
use pitchfork.Text.{Text, text_eq}
use pitchfork.DaemonId.{slash}
use pitchfork.Config.{FilePath}
use pitchfork.Autostop.{segments, is_prefix}

-- The parts before and after the last separator.
unfoldable pub rsplit_slash : Text → Option (Text × Text)
rsplit_slash [] = none
rsplit_slash (c ∷ s) = elim (rsplit_slash s) [
  | some (before, after) ↦ some (c ∷ before, after)
  | none ↦ (if c == slash then some ([], s) else none)
]

abbrev pub root : FilePath
root = slash ∷ []

unfoldable pub parent : FilePath → Option FilePath
unfolding rsplit_slash
parent path = if is_empty path || text_eq path root then none else elim (rsplit_slash path) [
  | none ↦ some []
  | some (before, after) ↦ some (if is_empty before then root else before)
]

unfoldable pub file_name : FilePath → Option Text
unfolding rsplit_slash
file_name path =
    if is_empty path || text_eq path root
    then none
    else elim (rsplit_slash path) [ none ↦ some path | some (before, after) ↦ some after ]

-- `join`: an absolute path replaces the other one.
unfoldable pub join : FilePath → FilePath → FilePath
join base [] = base
join base (c ∷ path) =
    if c == slash || is_empty base
    then c ∷ path
    else (if text_eq base root then root ++ c ∷ path else base ++ slash ∷ c ∷ path)

-- `ends_with`, for a relative path: by the last names.
unfoldable pub path_ends_with : FilePath → FilePath → Bool
path_ends_with path end = is_prefix (reverse (segments [] end)) (reverse (segments [] path))
