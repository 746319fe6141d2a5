-- ===== src/Task.antt =====
-- Kernel/task.hpp and task.cpp: tasks, their mailboxes and the state of the scheduler.
pub mod Schedule
pub mod Switch
pub mod Counts
pub mod Invariant
pub mod Rotation
pub mod Waking
pub mod Levels
pub mod Touch
pub mod Sleeping
pub mod Ids
pub mod Boot
pub mod Numbers
pub mod Ending
pub mod Calls
pub mod Reach
pub mod Turns
pub mod Woken
mod Tests
use mikan_os_x.Base.{
  ℕ, ◌+◌, Bool, true, false, ◌==◌, if◌then◌else◌, List, [], ◌∷◌, ◌++◌, Option, none, some, add64,
}
use mikan_os_x.Message.{Message}

-- A Task* is the task's id: `latest_id_` gives each task its own. `C` is what a TaskContext holds;
-- only asmfunc.asm looks into it.
pub record Task (C : Type 0) : Type 0 where
  pub id : ℕ
  pub context : C
  pub msgs : List Message
  pub level : ℕ
  pub running : Bool

-- TaskManager::kMaxLevel and Task::kDefaultLevel
abbrev pub max_level : ℕ
max_level = 3

abbrev pub default_level : ℕ
default_level = 1

-- `running_` is an array of kMaxLevel + 1 deques, here a function of the level; levels past
-- kMaxLevel are out of range in the source. The two maps are association lists by task id.
pub record TaskManager (C : Type 0) : Type 0 where
  pub tasks : List (Task C)
  pub latest_id : ℕ
  pub running : ℕ → List ℕ
  pub current_level : ℕ
  pub level_changed : Bool
  pub finish_tasks : List (ℕ × ℕ)
  pub finish_waiter : List (ℕ × ℕ)

-- running_[l] = q
abbrev pub set_queue : ℕ → List ℕ → (ℕ → List ℕ) → ℕ → List ℕ
set_queue l q running k = if l == k then q else running k

module _ {C : Type 0} where
  -- std::find_if over `tasks_`
  unfoldable pub find_task : ℕ → List (Task C) → Option (Task C)
  find_task t [] = none
  find_task t (x ∷ xs) = if x.id == t then some x else find_task t xs

  -- A write through a Task*.
  unfoldable pub update_task : ℕ → (Task C → Task C) → List (Task C) → List (Task C)
  update_task t f [] = []
  update_task t f (x ∷ xs) = if x.id == t then f x ∷ xs else x ∷ update_task t f xs

  -- TaskManager::NewTask, with the context of a new Task
  unfoldable pub new_task : C → TaskManager C → ℕ × TaskManager C
  new_task fresh m =
      let id = add64 m.latest_id 1 in
      let task : Task C = record {
        id = id;
        context = fresh;
        msgs = [];
        level = default_level;
        running = false;
      } in
      (id, record m { latest_id = id; tasks = m.tasks ++ task ∷ [] })

  -- Task::SetLevel, SetRunning
  abbrev pub set_level : ℕ → Task C → Task C
  set_level l task = record task { level = l }

  abbrev pub set_running : Bool → Task C → Task C
  set_running r task = record task { running = r }

  abbrev pub set_context : C → Task C → Task C
  set_context c task = record task { context = c }

  -- Task::ReceiveMessage
  unfoldable pub receive_message : Task C → Option Message × Task C
  receive_message task = elim task.msgs [
    | [] ↦ (none, task)
    | msg ∷ rest ↦ (some msg, record task { msgs = rest })
  ]
