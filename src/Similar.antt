-- ===== src/Similar.antt =====
-- `find_similar_daemon` of src/error.rs: a name that is close to one that is not known.
use pitchfork.Prelude.{Option, none, some, List, [], ◌∷◌, ◌++◌, if◌then◌else◌, ℤ, pos, leb_ℤ}
use pitchfork.Text.{Text, codes}

-- The fuzzy matcher, a library: the score of a candidate for a name, if there is one.
abbrev pub FuzzyMatch : Type 0
FuzzyMatch = (candidate name : Text) → Option ℤ

-- `max_by_key`: of several candidates with the best score, the last.
abbrev pub better : Option (Text × ℤ) → Text × ℤ → Option (Text × ℤ)
better none y = some y
better (some x) y = if leb_ℤ x.1 y.1 then some y else some x

unfoldable pub best_match : FuzzyMatch → Text → List Text → Option (Text × ℤ) → Option (Text × ℤ)
best_match fuzzy_match name [] best = best
best_match fuzzy_match name (c ∷ cs) best =
    best_match fuzzy_match name cs
      (elim (fuzzy_match c name) [ none ↦ best | some score ↦ better best (c, score) ])

unfoldable pub find_similar_daemon : FuzzyMatch → Text → List Text → Option Text
unfolding best_match
find_similar_daemon fuzzy_match name available = elim (best_match fuzzy_match name available none) [
  | none ↦ none
  | some (candidate, score) ↦
      if leb_ℤ score (pos 0)
      then none
      else some (codes "did you mean '" ++ (candidate ++ codes "'?"))
]
