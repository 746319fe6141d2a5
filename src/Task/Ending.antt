-- ===== src/Task/Ending.antt =====
-- Finish and WaitFinish: how a task ends, and how its exit code reaches the task that waits.

use mikan_os_x.Base.{
  ℕ, ◌<◌, ◌≡◌, ◌≢◌, refl, ap, sym, ◌∙◌, true, ◌||◌, List, [], ◌∷◌, Option, none, some, arith, ◌==◌,
  if◌then◌else◌, Bool-cases, Option-cases, inl, inr, lookup, insert, remove, lookup-insert,
}
use mikan_os_x.Task.{Task, TaskManager, find_task, set_level, set_running}
use mikan_os_x.Task.Schedule.{is_empty, current_task, wakeup, settle_level, requeue}
use mikan_os_x.Task.Counts.{count, expected, find_task-id, find_task_self, find_task-update_task}
use mikan_os_x.Task.Invariant.{Inv, running_ne_nil, Idles, AtTop}
use mikan_os_x.Task.Rotation.{rotated, rotated-tasks, rotate_lem, count-rotated, rotated-AtTop}
use mikan_os_x.Task.Switch.{finished, finish, wake_waiter, erase_task, wait_finish}
use mikan_os_x.Task.Levels.{wakeup-Inv}
use mikan_os_x.Task.Sleeping.{sleep-Inv}
use mikan_os_x.Task.Ids.{Numbered, Rising-erase_task, find_task-erase_task}
use mikan_os_x.Task.Numbers.{wakeup-Numbered, rotated-Numbered, sleep-Numbered}
use mikan_os_x.Task.Calls.{IsSound}

module _ {C : Type 0} where
  -- The state once the task that ran has left the queues and the table.
  pub ended : ℕ → TaskManager C → ℕ → List ℕ → TaskManager C
  ended exit_code m t rest =
      let after = rotated true m t rest in
      record after {
        tasks = erase_task t after.tasks;
        finish_tasks = insert t exit_code after.finish_tasks;
      }

  finish_eq :
      (exit_code : ℕ) (m : TaskManager C) (t : ℕ) (rest : List ℕ)
      → m.running m.current_level ≡ t ∷ rest
      → (finish exit_code m).1 ≡ wake_waiter t (ended exit_code m t rest)
  unfolding finish ended
  finish_eq exit_code m t rest e = rw (rotate_lem true m t rest e, finish)

  module _ (idle exit_code : ℕ) (m : TaskManager C) (t : ℕ) (rest : List ℕ) (v : IsSound idle m)
      (e : m.running m.current_level ≡ t ∷ rest) (other : t ≢ idle) where
    ended-tasks : (ended exit_code m t rest).tasks ≡ erase_task t m.tasks
    unfolding ended
    ended-tasks = ap (erase_task t) (rotated-tasks true m t rest)

    pub find-ended :
        (u : ℕ)
        → find_task u (ended exit_code m t rest).tasks
          ≡ (if t == u then none else find_task u m.tasks)
    find-ended u = rw ended-tasks (find_task-erase_task t u 0 m.latest_id m.tasks v.numbered)

    ended_queued :
        (l u : ℕ)
        → count u ((ended exit_code m t rest).running l)
          ≡ expected (ended exit_code m t rest).tasks l u
    ended_queued l u =
        unfold ended in
        ground (
          arith,
          v.inv.queued l u,
          v.inv.queued m.current_level u,
          ap (count u) e,
          find-ended u,
          count-rotated true m t rest l u e,
        )

    ended-Idles : Idles idle (ended exit_code m t rest)
    ended-Idles = record {
      task = v.inv.idles.task;
      found = ground (arith, find-ended idle, v.inv.idles.found);
      runs = v.inv.idles.runs;
      lowest = v.inv.idles.lowest;
    }

    ended-Inv : Inv idle (ended exit_code m t rest)
    ended-Inv =
        let bottom : 0 < count idle ((ended exit_code m t rest).running 0) =
          ground
            (arith, ended_queued 0 idle, ended-Idles.found, ended-Idles.runs, ended-Idles.lowest) in
        let up : AtTop (rotated true m t rest) =
          rotated-AtTop true m idle t rest v.inv.top v.inv.settled (unfold ended in bottom) in
        record {
          queued = ended_queued;
          levels = λ u x f. v.inv.levels u x (ground (arith, f, find-ended u));
          idles = ended-Idles;
          top = unfold ended in up.top;
          busy = unfold ended in up.busy;
          settled = unfold ended in λ _. up.none_above;
        }

    ended-Numbered : Numbered (ended exit_code m t rest)
    unfolding ended
    ended-Numbered =
        Rising-erase_task t 0 (rotated true m t rest).latest_id (rotated true m t rest).tasks
          (rotated-Numbered true m t rest v.numbered)

  -- The exit codes and the waiters are nothing to the invariant.
  same-Inv :
      (idle : ℕ) (m m' : TaskManager C)
      → m'.tasks ≡ m.tasks
      → m'.running ≡ m.running
      → m'.current_level ≡ m.current_level
      → m'.level_changed ≡ m.level_changed
      → Inv idle m
      → Inv idle m'
  same-Inv idle m m' tasks running current changed v = record {
    queued = rw (tasks, running) v.queued;
    levels = rw tasks v.levels;
    idles = record {
      task = v.idles.task;
      found = rw tasks v.idles.found;
      runs = v.idles.runs;
      lowest = v.idles.lowest;
    };
    top = rw current v.top;
    busy = rw (running, current) v.busy;
    settled = rw (running, current, changed) v.settled;
  }

  wake_waiter-IsSound :
      (idle t : ℕ) (m : TaskManager C) → IsSound idle m → IsSound idle (wake_waiter t m)
  unfolding wake_waiter
  wake_waiter-IsSound idle t m v = elim (Option-cases (lookup t m.finish_waiter)) [
    | inl nobody ↦ rw (nobody, wake_waiter) v
    | inr (w, waits) ↦
        let m' = record m { finish_waiter = remove t m.finish_waiter } in
        let inv = same-Inv idle m m' refl refl refl refl v.inv in
        elim (Option-cases (find_task w m.tasks)) [
          | inl gone ↦ rw (waits, wake_waiter, gone) (record { inv = inv; numbered = v.numbered })
          | inr (x, there) ↦
              rw (waits, wake_waiter, there)
                (record {
                  inv =
                      wakeup-Inv idle x none m' inv (find_task_self w m.tasks x there) tt
                        (inl refl);
                  numbered = wakeup-Numbered x none m' v.numbered;
                })
        ]
  ]

  -- Finish of any task but the idle one keeps the invariant.
  pub finish-IsSound :
      (idle exit_code t : ℕ) (m : TaskManager C)
      → IsSound idle m
      → current_task m ≡ some t
      → t ≢ idle
      → IsSound idle (finish exit_code m).1
  finish-IsSound idle exit_code t m v runs other = go (m.running m.current_level) refl
    where
      go : (q : List ℕ) → m.running m.current_level ≡ q → IsSound idle (finish exit_code m).1
      go [] e = absurd (running_ne_nil idle m v.inv e)
      go (front ∷ rest) e =
          let same : front ≡ t = ground (arith, runs, e) in
          let other' : front ≢ idle = λ p. other (sym same ∙ p) in
          rw (finish_eq exit_code m front rest e) (
            wake_waiter-IsSound idle front (ended exit_code m front rest) (record {
              inv = ended-Inv idle exit_code m front rest v e other';
              numbered = ended-Numbered idle exit_code m front rest v e other';
            }))

  -- One round of WaitFinish keeps the invariant, for any caller but the idle task.
  pub wait_finish-IsSound :
      (idle task_id t : ℕ) (cpu : C) (m : TaskManager C)
      → IsSound idle m
      → current_task m ≡ some t
      → t ≢ idle
      → IsSound idle (wait_finish cpu task_id m).1
  unfolding wait_finish
  wait_finish-IsSound idle task_id t cpu m v runs other =
      elim (Option-cases (lookup task_id m.finish_tasks)) [
        | inr (code, there) ↦
            rw (there, wait_finish)
              (record { inv = same-Inv idle m _ refl refl refl refl v.inv; numbered = v.numbered })
        | inl none_yet ↦
            let m' = record m { finish_waiter = insert task_id t m.finish_waiter } in
            let inv = same-Inv idle m m' refl refl refl refl v.inv in
            elim (Option-cases (find_task t m.tasks)) [
              | inl gone ↦
                  rw (none_yet, wait_finish, runs, gone)
                    (record { inv = inv; numbered = v.numbered })
              | inr (x, there) ↦
                  let same = find_task-id t m.tasks x there in
                  rw (none_yet, wait_finish, runs, there)
                    (record {
                      inv =
                          (sleep-Inv idle cpu x m' inv (find_task_self t m.tasks x there)
                            (λ p. other (sym same ∙ p))).0;
                      numbered = sleep-Numbered cpu x m' v.numbered;
                    })
            ]
      ]

  wakeup-finish_tasks :
      (task : Task C) (level? : Option ℕ) (m : TaskManager C)
      → (wakeup task level? m).finish_tasks ≡ m.finish_tasks
  unfolding wakeup
  wakeup-finish_tasks task none m = ground arith
  wakeup-finish_tasks task (some l) m = ground arith

  wake_waiter-finish_tasks :
      (t : ℕ) (m : TaskManager C) → (wake_waiter t m).finish_tasks ≡ m.finish_tasks
  unfolding wake_waiter
  wake_waiter-finish_tasks t m = elim (Option-cases (lookup t m.finish_waiter)) [
    | inl nobody ↦ rw (nobody, wake_waiter)
    | inr (w, waits) ↦ elim (Option-cases (find_task w m.tasks)) [
      | inl gone ↦ rw (waits, wake_waiter, gone)
      | inr (x, there) ↦ rw (waits, wake_waiter, there) (wakeup-finish_tasks x none _)
    ]
  ]

  wakeup-none :
      (t : ℕ) (x : Task C) (m : TaskManager C)
      → find_task t m.tasks ≡ none
      → find_task t (wakeup x none m).tasks ≡ none
  unfolding wakeup
  wakeup-none t x m e = elim (Bool-cases x.running) [
    | inl runs ↦ rw runs e
    | inr sleeps ↦ rw sleeps (
        ground (
          arith,
          e,
          λ (same : x.id ≡ t). ap (λ k. find_task k m.tasks) same,
          find_task-update_task x.id t (λ y. set_running true (set_level x.level y)) m.tasks
              (λ y. refl),
        ))
  ]

  wake_waiter-none :
      (t k : ℕ) (m : TaskManager C)
      → find_task t m.tasks ≡ none
      → find_task t (wake_waiter k m).tasks ≡ none
  unfolding wake_waiter
  wake_waiter-none t k m e = elim (Option-cases (lookup k m.finish_waiter)) [
    | inl nobody ↦ rw (nobody, wake_waiter) e
    | inr (w, waits) ↦ elim (Option-cases (find_task w m.tasks)) [
      | inl gone ↦ rw (waits, wake_waiter, gone) e
      | inr (x, there) ↦ rw (waits, wake_waiter, there) (wakeup-none t x _ e)
    ]
  ]

  pub ended-finish_waiter :
      (exit_code : ℕ) (m : TaskManager C) (t : ℕ) (rest : List ℕ)
      → (ended exit_code m t rest).finish_waiter ≡ m.finish_waiter
  unfolding ended settle_level
  ended-finish_waiter exit_code m t rest =
      elim (Bool-cases (m.level_changed || is_empty (requeue true t rest))) [
        | inl e ↦ rw e
        | inr e ↦ rw e
      ]

  -- Finish takes the task that runs out of the table and the queues, and ends in waking its waiter.
  pub finish_current :
      (exit_code t : ℕ) (m : TaskManager C)
      → current_task m ≡ some t
      → (rest : List ℕ) × (m.running m.current_level ≡ t ∷ rest)
        × ((finish exit_code m).1 ≡ wake_waiter t (ended exit_code m t rest))
  finish_current exit_code t m runs = go (m.running m.current_level) refl
    where
      go :
          (q : List ℕ)
          → m.running m.current_level ≡ q
          → (rest : List ℕ) × (m.running m.current_level ≡ t ∷ rest)
            × ((finish exit_code m).1 ≡ wake_waiter t (ended exit_code m t rest))
      go [] e = absurd (ground (arith, runs, e))
      go (front ∷ rest) e =
          let same : front ≡ t = ground (arith, runs, e) in
          let e' : m.running m.current_level ≡ t ∷ rest = rw same at e in
          (rest, e', finish_eq exit_code m t rest e')

  -- When the running task, other than the idle one, ends by Finish, its exit code is what the
  -- next round of WaitFinish for its id returns, no task has its id any more, and its id stands
  -- in no run queue.
  pub finish_lem :
      (idle exit_code t : ℕ) (cpu : C) (m : TaskManager C)
      → IsSound idle m
      → current_task m ≡ some t
      → t ≢ idle
      → ((wait_finish cpu t (finish exit_code m).1).0 ≡ finished exit_code)
        × (find_task t (finish exit_code m).1.tasks ≡ none)
        × ((l : ℕ) → count t ((finish exit_code m).1.running l) ≡ 0)
  unfolding wait_finish
  finish_lem idle exit_code t cpu m v runs other =
      let (rest, e, after) = finish_current exit_code t m runs in
      let sound = finish-IsSound idle exit_code t m v runs other in
      let code : lookup t (finish exit_code m).1.finish_tasks ≡ some exit_code =
        rw (after, wake_waiter-finish_tasks t (ended exit_code m t rest))
          (unfold ended in
            ground (arith, lookup-insert (rotated true m t rest).finish_tasks t t exit_code)) in
      let left : find_task t (finish exit_code m).1.tasks ≡ none = rw after (
        wake_waiter-none t t (ended exit_code m t rest)
          (ground (arith, find-ended idle exit_code m t rest v e other t))) in
      (rw (code, wait_finish), left, λ l. ground (arith, sound.inv.queued l t, left))
