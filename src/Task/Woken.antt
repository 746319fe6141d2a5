-- ===== src/Task/Woken.antt =====
-- Finish of Kernel/task.cpp: the task that waits for the one that ends has the processor again.
use mikan_os_x.Base.{
  ℕ, ◌<◌, ◌≤◌, ◌≡◌, ◌≢◌, refl, ◌⊎◌, ap, sym, ◌∙◌, true, false, List, [], ◌∷◌, ◌++◌, none, some,
  arith, length, Bool-cases, inl, inr, lookup, remove, ℕ_discrete, dec_lt,
}
use mikan_os_x.Task.{
  Task, TaskManager, find_task, set_level, set_running, set_context, update_task, max_level,
}
use mikan_os_x.Task.Schedule.{current_task, wakeup}
use mikan_os_x.Task.Counts.{
  count, find_task-id, find_task_self, find_task-update_task, is_empty-count,
}
use mikan_os_x.Task.Invariant.{AtTop, running_ne_nil}
use mikan_os_x.Task.Rotation.{count-rotated}
use mikan_os_x.Task.Switch.{finish, wake_waiter, switch_task}
use mikan_os_x.Task.Calls.{IsSound, switched, switch_task_lem, switch_task-AtTop}
use mikan_os_x.Task.Ending.{ended, find-ended, ended-finish_waiter, finish_current, finish-IsSound}
use mikan_os_x.Task.Turns.{switches, switches-turn}

-- Where a task stands in a queue.
count-split :
    (t : ℕ) (q : List ℕ)
    → 0 < count t q
    → (before : List ℕ) × (after : List ℕ) × (q ≡ before ++ t ∷ after)
count-split t [] h = absurd (omega arith)
count-split t (x ∷ xs) h = elim (ℕ_discrete x t) [
  | yes e ↦ ([], xs, rw e refl)
  | no ne ↦
      let (before, after, split) = count-split t xs (ground (arith, h, ne)) in
      (x ∷ before, after, ap (x ∷◌) split)
]

module _ {C : Type 0} where
  wakeup-runs :
      (task : Task C) (m : TaskManager C)
      → find_task task.id m.tasks ≡ some task
      → (y : Task C) × (find_task task.id (wakeup task none m).tasks ≡ some y)
        × (y.running ≡ true)
        × (y.level ≡ task.level)
  unfolding wakeup
  wakeup-runs task m found = elim (Bool-cases task.running) [
    | inl runs ↦ rw runs (task, found, runs, refl)
    | inr sleeps ↦ rw sleeps (
      set_running true (set_level task.level task),
      ground (
        arith,
        found,
        find_task-update_task task.id task.id (λ x. set_running true (set_level task.level x))
            m.tasks (λ y. refl),
      ),
      refl,
      refl,
    )
  ]

  wake_waiter-runs :
      (k w : ℕ) (x : Task C) (m : TaskManager C)
      → lookup k m.finish_waiter ≡ some w
      → find_task w m.tasks ≡ some x
      → (y : Task C) × (find_task w (wake_waiter k m).tasks ≡ some y)
        × (y.running ≡ true)
        × (y.level ≡ x.level)
  unfolding wake_waiter
  wake_waiter-runs k w x m waits there =
      let m' = record m { finish_waiter = remove k m.finish_waiter } in
      let (y, found, runs, level) = wakeup-runs x m' (find_task_self w m.tasks x there) in
      rw (waits, wake_waiter, there)
        (
          y,
          ap (λ u. find_task u (wakeup x none m').tasks) (sym (find_task-id w m.tasks x there))
              ∙ found,
          runs,
          level,
        )

  -- SwitchTask takes no task out of a queue.
  count-switch_task :
      (idle : ℕ) (ctx : C) (m : TaskManager C) (l u : ℕ)
      → IsSound idle m
      → count u ((switch_task ctx m).1.running l) ≡ count u (m.running l)
  count-switch_task idle ctx m l u v = go (m.running m.current_level) refl
    where
      go :
          (q : List ℕ)
          → m.running m.current_level ≡ q
          → count u ((switch_task ctx m).1.running l) ≡ count u (m.running l)
      go [] e = absurd (running_ne_nil idle m v.inv e)
      go (t ∷ rest) e = rw (switch_task_lem ctx m t rest e) (
          unfold switched in
          omega (
            arith,
            count-rotated false (record m { tasks = update_task t (set_context ctx) m.tasks }) t
                rest l u e,
          ))

  -- After some number of timer switches the task runs, whatever contexts they find.
  abbrev pub HasTurn : ℕ → TaskManager C → Type 0
  HasTurn w m =
      (n : ℕ) × ((ctxs : List C) → length ctxs ≡ n → current_task (switches ctxs m) ≡ some w)

  switch-HasTurn :
      (idle w l : ℕ) (ctx : C) (m : TaskManager C)
      → IsSound idle m
      → l ≤ max_level
      → count w (m.running l) ≡ 1
      → let m2 = (switch_task ctx m).1 in
        AtTop m2 × ((l < m2.current_level) ⊎ ((m2.current_level ≡ l) × HasTurn w m2))
  switch-HasTurn idle w l ctx m v low once =
      let m2 = (switch_task ctx m).1 in
      let up = (switch_task-AtTop idle ctx m v).1 in
      let still : count w (m2.running l) ≡ 1 = count-switch_task idle ctx m l w v ∙ once in
      let there = is_empty-count w (m2.running l) (omega (arith, still)) in
      (
        up,
        elim (dec_lt l m2.current_level) [
          | yes higher ↦ inl higher
          | no other ↦ elim (dec_lt m2.current_level l) [
            | yes above ↦ absurd (ground (arith, up.none_above l above low, there))
            | no below ↦
                let same : m2.current_level ≡ l = omega (arith, other, below) in
                let (before, after, split) = count-split w (m2.running l) (omega (arith, still)) in
                inr (
                  same,
                  (
                    length before,
                    λ ctxs n. switches-turn ctxs m2 before after w up.quiet (rw same split) n,
                  ),
                )
          ]
        ],
      )

  -- When a task ends by Finish, the task that had asked for its end by WaitFinish is running at the
  -- level that it had, and stands once in the queue of this level. The next SwitchTask goes to the
  -- highest level that has a task, which is a higher one, or the waiter's, and then the waiter has
  -- the processor after some number of timer switches.
  pub finish-wakes :
      (idle exit_code t w : ℕ) (m : TaskManager C) (x : Task C) (ctx : C)
      → IsSound idle m
      → current_task m ≡ some t
      → t ≢ idle
      → lookup t m.finish_waiter ≡ some w
      → find_task w m.tasks ≡ some x
      → w ≢ t
      → let m' = (finish exit_code m).1 in
        (y : Task C) × (find_task w m'.tasks ≡ some y)
        × (y.running ≡ true)
        × (y.level ≡ x.level)
        × (count w (m'.running x.level) ≡ 1)
        × AtTop (switch_task ctx m').1
        × ((x.level < (switch_task ctx m').1.current_level)
            ⊎ (((switch_task ctx m').1.current_level ≡ x.level) × HasTurn w (switch_task ctx m').1))
  finish-wakes idle exit_code t w m x ctx v runs other waits there ne =
      let m' = (finish exit_code m).1 in
      let (rest, e, after) = finish_current exit_code t m runs in
      let sound = finish-IsSound idle exit_code t m v runs other in
      let woken =
        wake_waiter-runs t w x (ended exit_code m t rest)
          (ap (lookup t) (ended-finish_waiter exit_code m t rest) ∙ waits)
          (ground (arith, find-ended idle exit_code m t rest v e other w, there, ne)) in
      let (y, found, running, level) = woken in
      let found' : find_task w m'.tasks ≡ some y = rw after found in
      let once : count w (m'.running x.level) ≡ 1 =
        ground (arith, sound.inv.queued x.level w, found', running, level) in
      let (top, turn) = switch-HasTurn idle w x.level ctx m' sound (v.inv.levels w x there) once in
      (y, found', running, level, once, top, turn)
