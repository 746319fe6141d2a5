-- ===== src/Timer/Tests.antt =====
-- The task timer and another timer end, and the last timer stays.
use mikan_os_x.Base.{ℕ, ◌≡◌, refl, ◌^◌, ◌-◌, [], ◌∷◌, ◌++◌, List, some, arith}
use mikan_os_x.Base.Int.{pos}
use mikan_os_x.Task.{TaskManager}
use mikan_os_x.Task.Boot.{boot}
use mikan_os_x.Timer.{Timer, TimerManager, tick}
use mikan_os_x.Timer.Turn.{tick_lem, has_task_timer, kept, notify_all, AllBy, AllAfter}

abbrev ended : List Timer
ended =
    record { timeout = 4; value = pos 2147483647; task_id = 1 }
    ∷ record { timeout = 5; value = pos 1; task_id = 2 }
    ∷ []

abbrev later : List Timer
later = record { timeout = 2 ^ 64 - 1; value = pos 0; task_id = 0 } ∷ []

abbrev clock : TimerManager
clock = record { tick = 4; timers = ended ++ later }

ended-AllBy : AllBy 5 ended
unfolding AllBy
ended-AllBy = (omega arith, (omega arith, tt))

later-AllAfter : AllAfter 5 later
unfolding AllAfter
later-AllAfter = (omega arith, tt)

abbrev tasks : TaskManager ℕ
tasks = boot 0 7

tick_lem_example :
    (tick clock tasks
      ≡ some (
        has_task_timer ended,
        record { tick = 5; timers = kept 5 ended later },
        notify_all ended tasks,
      ))
    × AllAfter 5 (kept 5 ended later)
tick_lem_example =
    tick_lem clock ended later tasks refl (omega arith) ended-AllBy (omega arith) later-AllAfter
