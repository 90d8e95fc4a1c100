-- ===== src/Batch/Start/Loop.antt =====
-- What the loops of `start_daemons` in src/ipc/batch.rs leave alone, and what they launch.
use pitchfork.Prelude.{
  ℕ, ◌≡◌, refl, Bool, true, false, Option, List, [], ◌∷◌, arith, Option-cases, Bool-cases, inl, inr,
  keep, is_empty,
}
use pitchfork.DaemonId.{DaemonId, id_eq_iff}
use pitchfork.Config.{PitchforkTomlDaemon, Daemons}
use pitchfork.Daemon.{Daemon, RunOptions}
use pitchfork.Deps.{Ids, elem, get}
use pitchfork.Deps.Count.{count-keep, elem-eq-count}
use pitchfork.Deps.Edges.{IsConfigured}
use pitchfork.Batch.{Surroundings, StartOptions}
use pitchfork.Batch.Start.{
  TaskResult, Ports, Task, Batch, settle, await_all, spawn_all, ids_of, spawn_adhoc, may_replace,
  find_daemon,
}

pub keep-elem :
    (x : DaemonId) (p : DaemonId → Bool) (l : Ids)
    → elem x l ≡ true
    → p x ≡ true
    → elem x (keep p l) ≡ true
keep-elem x p l m h =
    ground (arith, elem-eq-count x (keep p l), elem-eq-count x l, count-keep p x l)

pub keep-none :
    (x : DaemonId) (p : DaemonId → Bool) (l : Ids)
    → elem x l ≡ true
    → is_empty (keep p l) ≡ true
    → p x ≡ false
keep-none x p l m e = elim (Bool-cases (p x)) [
  | inr out ↦ out
  | inl kept ↦ absurd (not_in_empty (keep p l) e (keep-elem x p l m kept))
]
  where
    not_in_empty : (l : Ids) → is_empty l ≡ true → elem x l ≡ true → ⊥
    not_in_empty [] e m = unfold elem in cc
    not_in_empty (y ∷ l) e m = cc

module _ (w : Surroundings) (run : RunOptions → TaskResult)
    (render : Daemons → Ports → DaemonId → PitchforkTomlDaemon → Option PitchforkTomlDaemon)
    (pt : Daemons) (disabled requested : Ids) (opts : StartOptions) (running : Ids)
    (ports_of : DaemonId → Option (List ℕ)) where
  abbrev await : List Task → Batch → Batch
  await tasks b = await_all w run render pt disabled requested opts running ports_of tasks b

  pub await_all-levels : (tasks : List Task) (b : Batch) → (await tasks b).levels ≡ b.levels
  unfolding await_all settle
  await_all-levels [] b = refl
  await_all-levels ((id, o) ∷ tasks) b = await_all-levels tasks _

  -- A failure is not forgotten.
  pub await_all-any_failed :
      (tasks : List Task) (b : Batch) → (await tasks b).any_failed ≡ false → b.any_failed ≡ false
  unfolding await_all settle
  await_all-any_failed [] b h = h
  await_all-any_failed ((id, o) ∷ tasks) b h = ground (arith, await_all-any_failed tasks _ h)

  abbrev spawn : Ids → Ports → List Task × Bool
  spawn ids ports = spawn_all w run render pt disabled requested opts running ports_of ids ports

  abbrev launched : List Task → Ids
  launched tasks = ids_of w run render pt disabled requested opts running ports_of tasks

  pub spawned_only :
      (ids : Ids) (ports : Ports) (x : DaemonId)
      → elem x (launched (spawn ids ports).0) ≡ true
      → elem x ids ≡ true
  unfolding spawn_all elem
  spawned_only [] ports x h = h
  spawned_only (id ∷ ids) ports x h = elim (Option-cases (get id pt)) [
    | inl unknown ↦ ground (arith, spawned_only ids ports x, h, unknown)
    | inr (d, known) ↦ elim (Option-cases (render pt ports id d)) [
      | inl broken ↦ ground (arith, spawned_only ids ports x, h, known, broken)
      | inr (rendered, fine) ↦ ground (arith, spawned_only ids ports x, h, known, fine)
    ]
  ]

  -- If nothing is broken, each daemon that is configured is spawned.
  pub all_spawned :
      (ids : Ids) (ports : Ports) (x : DaemonId)
      → IsConfigured pt ids
      → (spawn ids ports).1 ≡ false
      → elem x ids ≡ true
      → elem x (launched (spawn ids ports).0) ≡ true
  unfolding spawn_all elem
  all_spawned [] ports x c h m = m
  all_spawned (id ∷ ids) ports x c h m =
      let (d, known) = c id (ground (arith, id_eq_iff id id)) in
      let rest : IsConfigured pt ids = λ y n. c y (ground (arith, n)) in
      elim (Option-cases (render pt ports id d)) [
        | inl broken ↦ absurd (ground (arith, h, known, broken))
        | inr (rendered, fine) ↦ ground (arith, all_spawned ids ports x rest, h, m, known, fine)
      ]

  abbrev spawn_saved : RunOptions → List Daemon → Ids → List Task
  spawn_saved default adhoc ids =
      spawn_adhoc w run render pt disabled requested opts running ports_of default adhoc ids

  -- A daemon that is not configured is started only if it is asked for.
  pub saved_only :
      (default : RunOptions) (adhoc : List Daemon) (ids : Ids) (x : DaemonId)
      → elem x (launched (spawn_saved default adhoc ids)) ≡ true
      → elem x ids ≡ true
  unfolding spawn_adhoc elem
  saved_only default adhoc [] x h = h
  saved_only default adhoc (id ∷ ids) x h =
      elim (Bool-cases (may_replace w run render pt disabled requested opts running ports_of id)) [
        | inr keeps ↦ ground (arith, saved_only default adhoc ids x, h, keeps)
        | inl replaces ↦ elim (Option-cases (find_daemon id adhoc)) [
          | inl unknown ↦ ground (arith, saved_only default adhoc ids x, h, replaces, unknown)
          | inr (d, known) ↦ elim (Option-cases d.cmd) [
            | inl no_cmd ↦
                ground (arith, saved_only default adhoc ids x, h, replaces, known, no_cmd)
            | inr (cmd, has) ↦
                ground (arith, saved_only default adhoc ids x, h, replaces, known, has)
          ]
        ]
      ]
