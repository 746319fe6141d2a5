-- ===== src/Task/Waking.antt =====
-- Wakeup and ChangeLevelRunning keep the invariant of the scheduler.

use mikan_os_x.Base.{
  ℕ, ◌≤◌, ◌≡◌, ◌≢◌, refl, true, false, ◌==◌, ltb, List, [], ◌∷◌, ◌++◌, some, arith, if◌then◌else◌,
  ℕ_discrete, ap,
}
use mikan_os_x.Task.{
  Task, TaskManager, find_task, update_task, max_level, set_queue, set_level, set_running,
}
use mikan_os_x.Task.Counts.{
  expected, expected_of, count-append, is_empty-append, find_task-update_task,
}
use mikan_os_x.Task.Invariant.{Inv, Idles}

module _ {C : Type 0} where
  -- What a task is expected in after a write to it.
  pub expected-update_task :
      (t u l : ℕ) (f : Task C → Task C) (xs : List (Task C)) (x : Task C)
      → ((y : Task C) → (f y).id ≡ y.id)
      → find_task t xs ≡ some x
      → expected (update_task t f xs) l u
        ≡ (if t == u then expected_of (some (f x)) l else expected xs l u)
  expected-update_task t u l f xs x keep e = ground (arith, find_task-update_task t u f xs keep, e)

  pub levels-update_task :
      (t : ℕ) (f : Task C → Task C) (xs : List (Task C)) (x : Task C)
      → ((y : Task C) → (f y).id ≡ y.id)
      → find_task t xs ≡ some x
      → (f x).level ≤ max_level
      → ((u : ℕ) (y : Task C) → find_task u xs ≡ some y → y.level ≤ max_level)
      → (u : ℕ) (y : Task C) → find_task u (update_task t f xs) ≡ some y
      → y.level ≤ max_level
  levels-update_task t f xs x keep e le all u y e' = elim (ℕ_discrete t u) [
    | yes same ↦
        let p : some (f x) ≡ some y = ground (arith, find_task-update_task t u f xs keep, e, e') in
        ground (arith, p)
    | no other ↦ all u y (ground (arith, find_task-update_task t u f xs keep, e'))
  ]

  -- A write to another task than the idle one leaves that as it is.
  pub Idles-update_task :
      (idle t : ℕ) (f : Task C → Task C) (m m' : TaskManager C)
      → ((y : Task C) → (f y).id ≡ y.id)
      → t ≢ idle
      → m'.tasks ≡ update_task t f m.tasks
      → Idles idle m
      → Idles idle m'
  Idles-update_task idle t f m m' keep ne e i = record {
    task = i.task;
    found = ground (arith, find_task-update_task t idle f m.tasks keep, i.found, e);
    runs = i.runs;
    lowest = i.lowest;
  }

  -- A sleeping task that is put at the end of a queue.
  module _ (idle level : ℕ) (task : Task C) (m : TaskManager C) (v : Inv idle m)
      (found : find_task task.id m.tasks ≡ some task) (sleeps : task.running ≡ false)
      (low : level ≤ max_level) where
    unfoldable pub woken : TaskManager C
    woken = record m {
      tasks = update_task task.id (λ x. set_running true (set_level level x)) m.tasks;
      running = set_queue level (m.running level ++ task.id ∷ []) m.running;
      level_changed = if ltb m.current_level level then true else m.level_changed;
    }

    not_idle : task.id ≢ idle
    not_idle e =
        ground (arith, v.idles.found, found, v.idles.runs, sleeps, ap (λ t. find_task t m.tasks) e)

    pub woken-Inv : Inv idle woken
    unfolding woken
    woken-Inv = record {
      queued = λ l u. ground (
        arith,
        v.queued l u,
        v.queued level u,
        found,
        sleeps,
        count-append u (m.running level) (task.id ∷ []),
        expected-update_task task.id u l (λ x. set_running true (set_level level x)) m.tasks task
            (λ y. refl) found,
      );
      levels =
          levels-update_task task.id (λ x. set_running true (set_level level x)) m.tasks task
            (λ y. refl) found low v.levels;
      idles =
          Idles-update_task idle task.id (λ x. set_running true (set_level level x)) m woken
            (λ y. refl) not_idle refl v.idles;
      top = v.top;
      busy = ground (arith, v.busy, is_empty-append task.id (m.running level));
      settled = λ q l p r.
          let quiet : m.level_changed ≡ false = ground (arith, q) in
          ground (arith, q, v.settled quiet l p r);
    }
