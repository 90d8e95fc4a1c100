-- ===== src/Deps/Release.antt =====
-- What one daemon's start does to the degrees: the inner loop of step 3 of `resolve_dependencies`
-- in src/deps.rs.
use pitchfork.Prelude.{
  ℕ, suc, ◌+◌, ◌-◌, ◌≤◌, ◌≡◌, true, ◌&&◌, Option, some, [], ◌∷◌, ◌++◌, arith, refl, ap, ◌∙◌, ltb,
  ◌==◌, if◌then◌else◌, ok, Bool-cases, inl, inr,
}
use pitchfork.DaemonId.{DaemonId, id_eq, id_eq_iff}
use pitchfork.Deps.{Ids, elem, update, release}
use pitchfork.Deps.Count.{count, count-append, count_self, elem_self, elem-tail}

-- Whether taking `k` from `n` is what brings it to 0.
abbrev pub fires : ℕ → ℕ → ℕ
fires n k = if ltb 0 n && n == k then 1 else 0

-- Every release lowers the degree of its daemon, which was not 0, and the daemons whose degree came
-- to 0 are those of the next level.
pub record Released (to_start ids : Ids) (f : DaemonId → ℕ) (next : Ids)
    (r : (DaemonId → Option ℕ) × Ids) : Type 0 where
  pub degrees : (x : DaemonId) → elem x to_start ≡ true → r.0 x ≡ some (f x - count x ids)
  pub freed : (x : DaemonId) → count x r.1 ≡ count x next + fires (f x) (count x ids)

lowered : (DaemonId → ℕ) → DaemonId → DaemonId → ℕ
lowered f id x = if id_eq id x then f x - 1 else f x

freed_step :
    (id x : DaemonId) (ids next : Ids) (f : DaemonId → ℕ)
    → f id ≡ suc (f id - 1)
    → count x (id ∷ ids) ≤ f x
    → count x (if f id - 1 == 0 then next ++ id ∷ [] else next)
        + fires (lowered f id x) (count x ids)
      ≡ count x next + fires (f x) (count x (id ∷ ids))
unfolding count lowered
freed_step id x ids next f e enough = elim (Bool-cases (id_eq id x)) [
  | inl same ↦ ground (arith, count-append x next (id ∷ []), id_eq_iff id x)
  | inr other ↦ ground (arith, count-append x next (id ∷ []))
]

module _ (to_start : Ids) where
  pub release_lem :
      (ids : Ids) (f : DaemonId → ℕ) (in_degree : DaemonId → Option ℕ) (next : Ids)
      → ((x : DaemonId) → elem x ids ≡ true → elem x to_start ≡ true)
      → ((x : DaemonId) → count x ids ≤ f x)
      → ((x : DaemonId) → elem x to_start ≡ true → in_degree x ≡ some (f x))
      → (r : (DaemonId → Option ℕ) × Ids) × (release ids in_degree next ≡ ok r)
        × Released to_start ids f next r
  unfolding release count lowered
  release_lem [] f in_degree next sub enough degs = (
    (in_degree, next),
    refl,
    record { degrees = λ x m. degs x m ∙ ap some (omega arith); freed = λ x. ground arith },
  )
  release_lem (id ∷ ids) f in_degree next sub enough degs =
      let n : ℕ = f id - 1 in
      let e : f id ≡ suc n = omega (arith, enough id, count_self id ids) in
      let next' : Ids = if n == 0 then next ++ id ∷ [] else next in
      let (r, run, rest) =
        release_lem ids (lowered f id) (update in_degree id n) next'
          (λ x m. sub x (elem-tail x id ids m)) (λ x. ground (arith, enough x))
          (λ x m. ground (arith, degs x m, id_eq_iff id x)) in
      (
        r,
        rw (degs id (sub id (elem_self id ids)) ∙ ap some e, release) run,
        record {
          degrees = λ x m. rest.degrees x m ∙ ap some (ground (arith, enough x));
          freed = λ x. rest.freed x ∙ freed_step id x ids next f e (enough x);
        },
      )
