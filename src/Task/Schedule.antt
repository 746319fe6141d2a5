-- ===== src/Task/Schedule.antt =====
-- The operations of TaskManager that choose which task runs.
use mikan_os_x.Base.{
  ℕ, zero, suc, Bool, true, false, ◌||◌, ◌==◌, ltb, if◌then◌else◌, List, [], ◌∷◌, ◌++◌, Option,
  none, some,
}
use mikan_os_x.Task.{Task, TaskManager, update_task, set_level, set_running, set_queue, max_level}

-- Erase: std::remove and erase of a value
unfoldable pub erase : List ℕ → ℕ → List ℕ
erase [] value = []
erase (x ∷ xs) value = if x == value then erase xs value else x ∷ erase xs value

abbrev pub is_empty : List ℕ → Bool
is_empty [] = true
is_empty (x ∷ xs) = false

-- The loop of RotateCurrentRunQueue from level `n - 1` down; `level` stays where all are empty.
unfoldable pub highest : (ℕ → List ℕ) → ℕ → ℕ → ℕ
highest running zero level = level
highest running (suc lv) level =
    let rest = highest running lv level in if is_empty (running lv) then rest else lv

-- front() of a deque; undefined in the source where it is empty.
abbrev pub front? : List ℕ → Option ℕ
front? [] = none
front? (t ∷ rest) = some t

unfoldable pub requeue : Bool → ℕ → List ℕ → List ℕ
requeue current_sleep t rest = if current_sleep then rest else rest ++ t ∷ []

module _ {C : Type 0} where
  -- CurrentTask().ID()
  abbrev pub current_task : TaskManager C → Option ℕ
  current_task m = front? (m.running m.current_level)

  -- The second half of RotateCurrentRunQueue.
  unfoldable pub settle_level : TaskManager C → TaskManager C
  settle_level m =
      if m.level_changed
      then record m {
        level_changed = false;
        current_level = highest m.running (suc max_level) m.current_level;
      }
      else m

  -- RotateCurrentRunQueue: the task that ran, and the new state; `none` where the deque is empty.
  unfoldable pub rotate_current_run_queue : Bool → TaskManager C → Option (ℕ × TaskManager C)
  unfolding settle_level requeue
  rotate_current_run_queue current_sleep m = elim (m.running m.current_level) [
    | [] ↦ none
    | t ∷ rest ↦
        let q = requeue current_sleep t rest in
        some (
          t,
          settle_level (record m {
            running = set_queue m.current_level q m.running;
            level_changed = m.level_changed || is_empty q;
          }),
        )
  ]

  -- The level that becomes the task's; ChangeLevelRunning past its first test. In a sound state the
  -- queue of the current level has a task; front() of an empty one is undefined in the source, and
  -- changes nothing here.
  unfoldable pub move_to_level : ℕ → ℕ → ℕ → TaskManager C → TaskManager C
  move_to_level t old level m = elim (m.running m.current_level) [
    | [] ↦ m
    | front ∷ rest ↦
        if t == front
        then (let popped = set_queue m.current_level rest m.running in
            record m {
              running = set_queue level (t ∷ popped level) popped;
              tasks = update_task t (set_level level) m.tasks;
              current_level = level;
              level_changed = if ltb level m.current_level then true else m.level_changed;
            })
        else (let erased = set_queue old (erase (m.running old) t) m.running in
            record m {
              running = set_queue level (erased level ++ t ∷ []) erased;
              tasks = update_task t (set_level level) m.tasks;
              level_changed = if ltb m.current_level level then true else m.level_changed;
            })
  ]

  -- ChangeLevelRunning; `none` is a negative level.
  unfoldable pub change_level_running : Task C → Option ℕ → TaskManager C → TaskManager C
  unfolding move_to_level
  change_level_running task none m = m
  change_level_running task (some level) m =
      if level == task.level then m else move_to_level task.id task.level level m

  -- TaskManager::Wakeup(Task*, int); `none` is a negative level.
  unfoldable pub wakeup : Task C → Option ℕ → TaskManager C → TaskManager C
  unfolding change_level_running
  wakeup task level? m =
      if task.running
      then change_level_running task level? m
      else (let level : ℕ = elim level? [ none ↦ task.level | some l ↦ l ] in
          record m {
            tasks = update_task task.id (λ x. set_running true (set_level level x)) m.tasks;
            running = set_queue level (m.running level ++ task.id ∷ []) m.running;
            level_changed = if ltb m.current_level level then true else m.level_changed;
          })
