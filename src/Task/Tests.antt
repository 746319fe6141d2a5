-- ===== src/Task/Tests.antt =====
-- A scheduler with four tasks: 1 and 3 at level 3, 4 asleep, 2 idle. Contexts are numbers.
use mikan_os_x.Base.{
  true, ℕ, ◌≡◌, refl, inr, false, [], ◌∷◌, some, arith, lookup, insert, ◌==◌, if◌then◌else◌,
}
use mikan_os_x.Task.{Task, TaskManager, find_task, new_task, update_task}
use mikan_os_x.Task.Schedule.{rotate_current_run_queue, highest, current_task, wakeup}
use mikan_os_x.Task.Switch.{suspend, finished, finish, wait_finish, sleep, switch_task, wakeup_id}
use mikan_os_x.Task.Invariant.{AtTop}
use mikan_os_x.Task.Boot.{boot}
use mikan_os_x.Task.Calls.{IsSound, switch_task-AtTop}
use mikan_os_x.Task.Ending.{finish_lem}
use mikan_os_x.Base.{◌<◌, ◌⊎◌}
use mikan_os_x.Task.Woken.{finish-wakes, HasTurn}
use mikan_os_x.Task.Invariant.{AtTop}
use mikan_os_x.Task.Counts.{count}
use mikan_os_x.Task.Turns.{switches, switches-turn}
use mikan_os_x.Task.Reach.{Reaches, here, next, creates, wakes, waits, boot-IsSound}

-- The state after `new TaskManager`.
booted : TaskManager ℕ
unfolding boot
booted = boot 0 7

-- Task 3 is made and woken up at level 2.
started : TaskManager ℕ
unfolding booted
started = (wakeup_id 3 (some 2) (new_task 0 booted).1).1

started-Reaches : Reaches 2 (boot 0 7) started
unfolding started booted
started-Reaches =
    next (next here (creates 0 (unfold boot new_task in omega arith)))
      (wakes 3 (some 2) (omega arith) (inr (omega arith)))

boot-IsSound_example : IsSound 2 started
boot-IsSound_example = boot-IsSound 0 7 started-Reaches

switch_task-AtTop_example : IsSound 2 (switch_task 5 started).1 × AtTop (switch_task 5 started).1
switch_task-AtTop_example = switch_task-AtTop 2 5 started (boot-IsSound 0 7 started-Reaches)

-- The boot task waits for task 3, which is the next to run.
waiting : TaskManager ℕ
unfolding started
waiting = (wait_finish 11 3 started).1

waiting-Reaches : Reaches 2 (boot 0 7) waiting
unfolding waiting update_task
waiting-Reaches = next started-Reaches (
    waits 11 3 1 (unfold started booted boot new_task wakeup_id wakeup find_task in refl)
      (omega arith))

waiting_current : current_task waiting ≡ some 3
unfolding waiting started booted boot new_task wakeup_id wakeup find_task wait_finish sleep lookup
    update_task suspend rotate_current_run_queue highest
waiting_current = refl

-- The boot task as it waits.
abbrev boot_asleep : Task ℕ
boot_asleep = record { id = 1; context = 11; msgs = []; level = 3; running = false }

waiting_for : lookup 3 waiting.finish_waiter ≡ some 1
unfolding waiting started booted boot new_task wakeup_id wakeup find_task wait_finish sleep lookup
    insert update_task suspend rotate_current_run_queue highest
waiting_for = refl

waiting_boot : find_task 1 waiting.tasks ≡ some boot_asleep
unfolding waiting started booted boot new_task wakeup_id wakeup find_task wait_finish sleep lookup
    insert update_task suspend rotate_current_run_queue highest
waiting_boot = refl

finish-wakes_example :
    let m' = (finish 42 waiting).1 in
    (y : Task ℕ) × (find_task 1 m'.tasks ≡ some y)
    × (y.running ≡ true)
    × (y.level ≡ boot_asleep.level)
    × (count 1 (m'.running boot_asleep.level) ≡ 1)
    × AtTop (switch_task 13 m').1
    × ((boot_asleep.level < (switch_task 13 m').1.current_level)
        ⊎ (((switch_task 13 m').1.current_level ≡ boot_asleep.level)
            × HasTurn 1 (switch_task 13 m').1))
finish-wakes_example =
    finish-wakes 2 42 3 1 waiting boot_asleep 13 (boot-IsSound 0 7 waiting-Reaches) waiting_current
      (omega arith) waiting_for waiting_boot (omega arith)

finish_lem_example : (wait_finish 1 3 (finish 42 waiting).1).0 ≡ finished 42
finish_lem_example =
    (finish_lem 2 42 3 1 waiting (boot-IsSound 0 7 waiting-Reaches) waiting_current (omega arith)).0

-- Three tasks at level 2; the tasks themselves play no part.
abbrev trio : TaskManager ℕ
trio = record {
  tasks = [];
  latest_id = 5;
  running = λ l. if l == 2 then 3 ∷ 4 ∷ 5 ∷ [] else [];
  current_level = 2;
  level_changed = false;
  finish_tasks = [];
  finish_waiter = [];
}

switches-turn_example : current_task (switches (0 ∷ 0 ∷ []) trio) ≡ some 5
switches-turn_example = switches-turn (0 ∷ 0 ∷ []) trio (3 ∷ 4 ∷ []) [] 5 refl refl refl
