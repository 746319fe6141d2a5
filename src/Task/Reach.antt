-- ===== src/Task/Reach.antt =====
-- The scheduler as a transition system: the calls that the kernel makes, from boot on.
use mikan_os_x.Base.{ℕ, ◌<◌, ◌-◌, ◌^◌, ◌≡◌, ◌≢◌, ◌⊎◌, Option, none, some}
use mikan_os_x.Message.{Message}
use mikan_os_x.Task.{TaskManager, new_task}
use mikan_os_x.Task.Schedule.{current_task}
use mikan_os_x.Task.Switch.{switch_task, sleep_id, wakeup_id, send_message, finish, wait_finish}
use mikan_os_x.Task.Levels.{IsLevel}
use mikan_os_x.Task.Calls.{
  IsSound, new_task-IsSound, switch_task-AtTop, sleep_id-IsSound, wakeup_id-IsSound,
  send_message-IsSound,
}
use mikan_os_x.Task.Ending.{finish-IsSound, wait_finish-IsSound}
use mikan_os_x.Task.Boot.{boot, boot-Inv}

module _ {C : Type 0} where
  -- One call. Of the idle task it asks that nobody puts it to sleep or on another level, and that
  -- it neither ends nor waits for a task, which its code (a loop of hlt) does not do.
  pub data Step (idle : ℕ) (m : TaskManager C) : TaskManager C → Type 0 where
    creates : (fresh : C) → m.latest_id < 2 ^ 64 - 1 → Step idle m (new_task fresh m).1
    switches : (ctx : C) → Step idle m (switch_task ctx m).1
    sleeps : (cpu : C) (id : ℕ) → id ≢ idle → Step idle m (sleep_id cpu id m).2
    wakes :
        (id : ℕ) (level? : Option ℕ)
        → IsLevel level?
        → (level? ≡ none) ⊎ (id ≢ idle)
        → Step idle m (wakeup_id id level? m).1
    sends : (id : ℕ) (msg : Message) → Step idle m (send_message id msg m).1
    finishes :
        (exit_code t : ℕ) → current_task m ≡ some t → t ≢ idle → Step idle m (finish exit_code m).1
    waits :
        (cpu : C) (task_id t : ℕ)
        → current_task m ≡ some t
        → t ≢ idle
        → Step idle m (wait_finish cpu task_id m).1

  pub data Reaches (idle : ℕ) (m : TaskManager C) : TaskManager C → Type 0 where
    here : Reaches idle m m
    next : {m' m2 : TaskManager C} → Reaches idle m m' → Step idle m' m2 → Reaches idle m m2

  Step-IsSound :
      (idle : ℕ) {m m' : TaskManager C} → IsSound idle m → Step idle m m' → IsSound idle m'
  Step-IsSound idle {m} v (creates fresh h) = new_task-IsSound idle fresh m v h
  Step-IsSound idle {m} v (switches ctx) = (switch_task-AtTop idle ctx m v).0
  Step-IsSound idle {m} v (sleeps cpu id ne) = sleep_id-IsSound idle cpu id m v ne
  Step-IsSound idle {m} v (wakes id level? low other) =
      wakeup_id-IsSound idle id level? m v low other
  Step-IsSound idle {m} v (sends id msg) = send_message-IsSound idle id msg m v
  Step-IsSound idle {m} v (finishes exit_code t runs ne) =
      finish-IsSound idle exit_code t m v runs ne
  Step-IsSound idle {m} v (waits cpu task_id t runs ne) =
      wait_finish-IsSound idle task_id t cpu m v runs ne

  Reaches-IsSound :
      (idle : ℕ) {m m' : TaskManager C} → IsSound idle m → Reaches idle m m' → IsSound idle m'
  Reaches-IsSound idle v here = v
  Reaches-IsSound idle v (next r s) = Step-IsSound idle (Reaches-IsSound idle v r) s

  -- In every state that the kernel's calls lead to from the scheduler's construction, with levels
  -- up to 3 and calls that neither stop nor move the idle task, the invariant holds: each running
  -- task stands exactly once in the run queues, in that of its level, each sleeping one in none,
  -- some task is there to run, and no higher level has one unless a change is noted.
  pub boot-IsSound :
      (fresh idle_context : C) {m : TaskManager C}
      → Reaches 2 (boot fresh idle_context) m
      → IsSound 2 m
  boot-IsSound fresh idle_context r =
      let (inv, numbered) = boot-Inv fresh idle_context in
      Reaches-IsSound 2 (record { inv = inv; numbered = numbered }) r
