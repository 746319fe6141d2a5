-- ===== src/Task/Invariant.antt =====
-- What holds of the scheduler between its operations.
use mikan_os_x.Base.{ℕ, ◌≤◌, ◌<◌, ◌≡◌, ◌≢◌, true, false, [], some, arith, ap}
use mikan_os_x.Task.{Task, TaskManager, find_task, max_level}
use mikan_os_x.Task.Schedule.{is_empty}
use mikan_os_x.Task.Counts.{count, expected, is_empty-count}

module _ {C : Type 0} where
  -- The idle task waits at level 0 and never stops.
  pub record Idles (idle : ℕ) (m : TaskManager C) : Type 0 where
    pub task : Task C
    pub found : find_task idle m.tasks ≡ some task
    pub runs : task.running ≡ true
    pub lowest : task.level ≡ 0

  -- Every running task stands exactly once in the run queues, in that of its level; a task that
  -- sleeps stands in none. The current level has a task, and unless a change is noted in
  -- `level_changed` no higher level has one.
  pub record Inv (idle : ℕ) (m : TaskManager C) : Type 0 where
    pub queued : (l t : ℕ) → count t (m.running l) ≡ expected m.tasks l t
    pub levels : (t : ℕ) (x : Task C) → find_task t m.tasks ≡ some x → x.level ≤ max_level
    pub idles : Idles idle m
    pub top : m.current_level ≤ max_level
    pub busy : is_empty (m.running m.current_level) ≡ false
    pub settled :
        m.level_changed ≡ false
        → (l : ℕ) → m.current_level < l
        → l ≤ max_level
        → is_empty (m.running l) ≡ true

  -- The state after a scheduling decision: the current level is the highest that has a task.
  pub record AtTop (m : TaskManager C) : Type 0 where
    pub quiet : m.level_changed ≡ false
    pub top : m.current_level ≤ max_level
    pub busy : is_empty (m.running m.current_level) ≡ false
    pub none_above : (l : ℕ) → m.current_level < l → l ≤ max_level → is_empty (m.running l) ≡ true

  pub Idles-busy :
      (idle : ℕ) (m : TaskManager C)
      → Idles idle m
      → count idle (m.running 0) ≡ expected m.tasks 0 idle
      → is_empty (m.running 0) ≡ false
  Idles-busy idle m i e =
      is_empty-count idle (m.running 0) (ground (arith, i.found, i.runs, i.lowest))

  -- front() is called on no empty deque.
  pub running_ne_nil : (idle : ℕ) (m : TaskManager C) → Inv idle m → m.running m.current_level ≢ []
  running_ne_nil idle m v e = let busy = v.busy in cc (ap is_empty e)
