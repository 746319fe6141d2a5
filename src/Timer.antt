-- ===== src/Timer.antt =====
-- Kernel/timer.hpp and timer.cpp: the timers, and what the timer's interrupt does with them. The
-- registers of the local APIC are not modelled.
pub mod Turn
mod Tests
use mikan_os_x.Base.{
  ℕ, zero, suc, ◌+◌, ◌-◌, ◌^◌, Bool, true, false, ◌==◌, ltb, if◌then◌else◌, List, [], ◌∷◌, Option,
  none, some, add64, length,
}
use mikan_os_x.Base.Int.{ℤ, pos, negsuc}
use mikan_os_x.Message.{Message, Arg}
use mikan_os_x.Task.{TaskManager}
use mikan_os_x.Task.Switch.{send_message, switch_task}

pub record Timer : Type 0 where
  pub timeout : ℕ
  pub value : ℤ
  pub task_id : ℕ

-- kTaskTimerPeriod is kTimerFreq * 0.02, kTaskTimerValue the largest int.
abbrev pub task_timer_period : ℕ
task_timer_period = 2

abbrev pub task_timer_value : ℕ
task_timer_value = 2147483647

-- `timers_`, the earliest timer first, as operator< orders them. std::priority_queue does not say
-- which of two equal ones comes first; here it is the one that was pushed first.
pub record TimerManager : Type 0 where
  pub tick : ℕ
  pub timers : List Timer

unfoldable pub push : Timer → List Timer → List Timer
push t [] = t ∷ []
push t (x ∷ xs) = if ltb t.timeout x.timeout then t ∷ x ∷ xs else x ∷ push t xs

-- The constructor puts in a timer that never ends.
unfoldable pub create : TimerManager
create = record {
  tick = 0;
  timers = record { timeout = 2 ^ 64 - 1; value = pos 0; task_id = 0 } ∷ [];
}

unfoldable pub add_timer : Timer → TimerManager → TimerManager
add_timer t m = record m { timers = push t m.timers }

abbrev pub is_task_timer : Timer → Bool
is_task_timer t = elim t.value [ pos n ↦ n == task_timer_value | negsuc n ↦ false ]

abbrev pub renewed : ℕ → Timer
renewed now = record {
  timeout = add64 now task_timer_period;
  value = pos task_timer_value;
  task_id = 1;
}

module _ {C : Type 0} where
  -- SendMessage of a timer that ends
  unfoldable pub notify : Timer → TaskManager C → TaskManager C
  notify t tasks =
      (send_message t.task_id (record { src_task = 0; arg = Arg.timer_timeout t.timeout t.value })
        tasks).1

  -- The loop of Tick: whether the task timer ended, the timers and the tasks. `none` where it takes
  -- the top of an empty queue, or runs out of fuel.
  unfoldable pub tick_loop :
      ℕ → ℕ → Bool → List Timer → TaskManager C → Option (Bool × List Timer × TaskManager C)
  tick_loop zero now ended timers tasks = none
  tick_loop (suc fuel) now ended [] tasks = none
  tick_loop (suc fuel) now ended (t ∷ rest) tasks =
      let renewing = tick_loop fuel now true (push (renewed now) rest) tasks in
      let sending = tick_loop fuel now ended rest (notify t tasks) in
      if ltb now t.timeout
      then some (ended, t ∷ rest, tasks)
      else if is_task_timer t
      then renewing
      else sending

  -- Each round takes out a timer that has ended, and puts in none that has.
  unfoldable pub tick : TimerManager → TaskManager C → Option (Bool × TimerManager × TaskManager C)
  tick m tasks = finished (tick_loop (suc (length m.timers)) now false m.timers tasks)
    where
      now : ℕ
      now = add64 m.tick 1

      finished :
          Option (Bool × List Timer × TaskManager C) → Option (Bool × TimerManager × TaskManager C)
      finished none = none
      finished (some (ended, timers, tasks')) =
          some (ended, record { tick = now; timers = timers }, tasks')

  -- LAPICTimerOnInterrupt, with the context on the stack: the task timer makes the tasks take
  -- turns.
  unfoldable pub lapic_timer_on_interrupt :
      C → TimerManager → TaskManager C → Option (TimerManager × TaskManager C)
  lapic_timer_on_interrupt ctx m tasks = elim (tick m tasks) [
    | none ↦ none
    | some result ↦ some (result.1, if result.0 then (switch_task ctx result.2).1 else result.2)
  ]
