-- ===== src/Task/Boot.antt =====
-- The constructor of TaskManager: the task that boots the kernel, and the idle task.
use mikan_os_x.Base.{ℕ, refl, true, false, [], ◌∷◌, ◌++◌, arith}
use mikan_os_x.Task.{
  TaskManager, find_task, update_task, new_task, set_level, set_running, set_queue, max_level,
}
use mikan_os_x.Task.Invariant.{Inv}
use mikan_os_x.Task.Ids.{Numbered}

module _ {C : Type 0} where
  -- The members as they are declared: no task, current_level_ at kMaxLevel.
  abbrev no_tasks : TaskManager C
  no_tasks = record {
    tasks = [];
    latest_id = 0;
    running = λ l. [];
    current_level = max_level;
    level_changed = false;
    finish_tasks = [];
    finish_waiter = [];
  }

  -- NewTask().SetLevel(level).SetRunning(true) and running_[level].push_back
  abbrev started : C → ℕ → TaskManager C → TaskManager C
  started context level m =
      let (id, m') = new_task context m in
      record m' {
        tasks = update_task id (λ x. set_running true (set_level level x)) m'.tasks;
        running = set_queue level (m'.running level ++ id ∷ []) m'.running;
      }

  -- TaskManager::TaskManager. `fresh` is the context of a new task, `idle` that of InitContext.
  unfoldable pub boot : C → C → TaskManager C
  boot fresh idle = started idle 0 (started fresh no_tasks.current_level no_tasks)

  pub boot-Inv : (fresh idle : C) → Inv 2 (boot fresh idle) × Numbered (boot fresh idle)
  unfolding boot new_task find_task update_task
  boot-Inv fresh idle = (
    record {
      queued = λ l t. ground arith;
      levels = λ t x e. ground arith;
      idles = record { task = _; found = refl; runs = refl; lowest = refl };
      top = omega arith;
      busy = refl;
      settled = λ q l p r. absurd (omega arith);
    },
    omega arith,
  )
