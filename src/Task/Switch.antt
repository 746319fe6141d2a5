-- ===== src/Task/Switch.antt =====
-- The operations of TaskManager that may give the processor to another task.
-- SwitchContext and RestoreContext are asmfunc.asm's. Here an operation takes `cpu`, the context
-- that the running task would save, and returns the context that is loaded, or `none` where the
-- caller goes on.
use mikan_os_x.Base.{
  ℕ, true, false, not, ◌==◌, if◌then◌else◌, List, [], ◌∷◌, ◌++◌, Option, none, some, lookup, insert,
  remove,
}
use mathlib.Core.Option
use mikan_os_x.Base.Fault.{Code, success, no_such_task}
use mikan_os_x.Message.{Message}
use mikan_os_x.Task.{Task, TaskManager, find_task, update_task, set_running, set_context, set_queue}
use mikan_os_x.Task.Schedule.{erase, current_task, rotate_current_run_queue, wakeup}

-- How a round of the loop of WaitFinish ends: with the exit code, or the caller sleeps and tries
-- again when it runs the next time.
pub data Waiting (C : Type 0) : Type 0 where
  finished : (exit_code : ℕ) → Waiting C
  asleep : (loaded : Option C) → Waiting C

module _ {C : Type 0} where
  -- CurrentTask().Context()
  unfoldable pub current_context : TaskManager C → Option C
  current_context m = elim (current_task m) [
    | none ↦ none
    | some t ↦ Option.map (λ x. x.context) (find_task t m.tasks)
  ]

  -- A task that gives up the processor: its context is saved and the next one's loaded.
  unfoldable pub suspend : C → TaskManager C → Option C × TaskManager C
  suspend cpu m = elim (rotate_current_run_queue true m) [
    | none ↦ (none, m)
    | some (t, m') ↦
        let saved = record m' { tasks = update_task t (set_context cpu) m'.tasks } in
        (current_context saved, saved)
  ]

  -- TaskManager::Sleep(Task*)
  unfoldable pub sleep : C → Task C → TaskManager C → Option C × TaskManager C
  sleep cpu task m =
      let stopped = record m { tasks = update_task task.id (set_running false) m.tasks } in
      let erased = record stopped {
        running = set_queue task.level (erase (m.running task.level) task.id) m.running;
      } in
      if not task.running then (none, m) else elim (current_task m) [
        | none ↦ (none, erased)
        | some front ↦ if task.id == front then suspend cpu stopped else (none, erased)
      ]

  -- TaskManager::SwitchTask: the timer's interrupt hands over the context that it found.
  unfoldable pub switch_task : C → TaskManager C → Option C × TaskManager C
  switch_task current_ctx m = elim (current_task m) [
    | none ↦ (none, m)
    | some t ↦
        let saved = record m { tasks = update_task t (set_context current_ctx) m.tasks } in
        elim (rotate_current_run_queue false saved) [
          | none ↦ (none, saved)
          | some (t', m') ↦ elim (current_task m') [
            | none ↦ (none, m')
            | some next ↦ (if next == t' then none else current_context m', m')
          ]
        ]
  ]

  -- TaskManager::Sleep(uint64_t)
  unfoldable pub sleep_id : C → ℕ → TaskManager C → Code × Option C × TaskManager C
  sleep_id cpu id m = elim (find_task id m.tasks) [
    | none ↦ (no_such_task, none, m)
    | some task ↦ let (loaded, m') = sleep cpu task m in (success, loaded, m')
  ]

  -- TaskManager::Wakeup(uint64_t, int)
  unfoldable pub wakeup_id : ℕ → Option ℕ → TaskManager C → Code × TaskManager C
  wakeup_id id level m = elim (find_task id m.tasks) [
    | none ↦ (no_such_task, m)
    | some task ↦ (success, wakeup task level m)
  ]

  -- msgs_.push_back(msg)
  abbrev pub post : Message → Task C → Task C
  post msg task = record task { msgs = task.msgs ++ msg ∷ [] }

  -- TaskManager::SendMessage, with Task::SendMessage
  unfoldable pub send_message : ℕ → Message → TaskManager C → Code × TaskManager C
  send_message id msg m = elim (find_task id m.tasks) [
    | none ↦ (no_such_task, m)
    | some task ↦ (
      success,
      wakeup (post msg task) none (record m { tasks = update_task id (post msg) m.tasks }),
    )
  ]

  -- tasks_.erase(it)
  unfoldable pub erase_task : ℕ → List (Task C) → List (Task C)
  erase_task t [] = []
  erase_task t (x ∷ xs) = if x.id == t then xs else x ∷ erase_task t xs

  -- The end of Finish: the task that waits for `id`, if any, is woken up.
  unfoldable pub wake_waiter : ℕ → TaskManager C → TaskManager C
  wake_waiter id m = elim (lookup id m.finish_waiter) [
    | none ↦ m
    | some waiter ↦
        let m' = record m { finish_waiter = remove id m.finish_waiter } in
        elim (find_task waiter m.tasks) [ none ↦ m' | some task ↦ wakeup task none m' ]
  ]

  -- TaskManager::Finish; the exit code is the bit pattern of an int.
  unfoldable pub finish : ℕ → TaskManager C → Option C × TaskManager C
  unfolding wake_waiter
  finish exit_code m = elim (rotate_current_run_queue true m) [
    | none ↦ (none, m)
    | some (t, m') ↦
        let ended = wake_waiter t (record m' {
          tasks = erase_task t m'.tasks;
          finish_tasks = insert t exit_code m'.finish_tasks;
        }) in
        (current_context ended, ended)
  ]

  -- One round of TaskManager::WaitFinish.
  unfoldable pub wait_finish : C → ℕ → TaskManager C → Waiting C × TaskManager C
  wait_finish cpu task_id m = elim (lookup task_id m.finish_tasks) [
    | some exit_code ↦
        (finished exit_code, record m { finish_tasks = remove task_id m.finish_tasks })
    | none ↦ elim (current_task m) [
      | none ↦ (asleep none, m)
      | some t ↦
          let m' = record m { finish_waiter = insert task_id t m.finish_waiter } in
          elim (find_task t m.tasks) [
            | none ↦ (asleep none, m')
            | some task ↦ let (loaded, m2) = sleep cpu task m' in (asleep loaded, m2)
          ]
    ]
  ]
