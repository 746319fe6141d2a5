-- ===== src/Task/Sleeping.antt =====
-- Sleep keeps the invariant of the scheduler, of the task that runs and of any other.

use mikan_os_x.Base.{
  ℕ, ◌≤◌, ◌≡◌, ◌≢◌, refl, true, false, ◌==◌, List, [], ◌∷◌, some, arith, if◌then◌else◌, Bool-cases,
  inl, inr, ◌⊎◌, ℕ_discrete, ap, ◌∙◌,
}
use mikan_os_x.Task.{
  Task, TaskManager, find_task, update_task, max_level, set_queue, set_context, set_running,
}
use mikan_os_x.Task.Schedule.{erase, current_task}
use mikan_os_x.Task.Switch.{sleep, suspend}
use mikan_os_x.Task.Counts.{count, expected, count-erase}
use mikan_os_x.Task.Invariant.{Inv, running_ne_nil, Idles, AtTop}
use mikan_os_x.Task.Rotation.{rotated, rotate_lem, rotated-tasks, count-rotated, rotated-AtTop}
use mikan_os_x.Task.Waking.{expected-update_task, levels-update_task, Idles-update_task}
use mikan_os_x.Task.Touch.{touch-Inv}
use mikan_os_x.Task.Levels.{is_empty-erase, is_empty-erase_empty}

module _ {C : Type 0} where
  module _ (idle : ℕ) (task : Task C) (m : TaskManager C) (v : Inv idle m)
      (found : find_task task.id m.tasks ≡ some task) (runs : task.running ≡ true)
      (other : task.id ≢ idle) where
    stopped : TaskManager C
    stopped = record m { tasks = update_task task.id (set_running false) m.tasks }

    expected_stopped :
        (l u : ℕ) → expected stopped.tasks l u ≡ (if task.id == u then 0 else expected m.tasks l u)
    unfolding stopped
    expected_stopped l u =
        ground (
          arith,
          expected-update_task task.id u l (set_running false) m.tasks task (λ y. refl) found,
        )

    stopped-Idles : Idles idle stopped
    unfolding stopped
    stopped-Idles =
        Idles-update_task idle task.id (set_running false) m stopped (λ y. refl) other refl v.idles

    stopped_levels : (u : ℕ) (y : Task C) → find_task u stopped.tasks ≡ some y → y.level ≤ max_level
    unfolding stopped
    stopped_levels =
        levels-update_task task.id (set_running false) m.tasks task (λ y. refl) found
          (v.levels task.id task found) v.levels

    -- The task that runs goes to sleep.
    front_asleep :
        (rest : List ℕ)
        → m.running m.current_level ≡ task.id ∷ rest
        → Inv idle (rotated true stopped task.id rest) × AtTop (rotated true stopped task.id rest)
    front_asleep rest e =
        let after = rotated true stopped task.id rest in
        let tasks : after.tasks ≡ stopped.tasks = rotated-tasks true stopped task.id rest in
        let queued : (l u : ℕ) → count u (after.running l) ≡ expected after.tasks l u = λ l u.
          unfold stopped in
          ground (
            arith,
            tasks,
            expected_stopped l u,
            v.queued l u,
            v.queued m.current_level u,
            ap (count u) e,
            found,
            count-rotated true stopped task.id rest l u e,
          ) in
        let idles : Idles idle after = record {
          task = stopped-Idles.task;
          found = rw tasks stopped-Idles.found;
          runs = stopped-Idles.runs;
          lowest = stopped-Idles.lowest;
        } in
        let up : AtTop after =
          rotated-AtTop true stopped idle task.id rest (unfold stopped in v.top)
            (unfold stopped in v.settled)
            (ground (arith, queued 0 idle, idles.found, idles.runs, idles.lowest)) in
        (
          record {
            queued = queued;
            levels = λ u x f. stopped_levels u x (rw tasks at f);
            idles = idles;
            top = up.top;
            busy = up.busy;
            settled = λ _. up.none_above;
          },
          up,
        )

    erased : TaskManager C
    unfolding stopped
    erased = record stopped {
      running = set_queue task.level (erase (m.running task.level) task.id) m.running;
    }

    -- Another task goes to sleep.
    other_asleep :
        (front : ℕ) (rest : List ℕ)
        → m.running m.current_level ≡ front ∷ rest
        → front ≢ task.id
        → Inv idle erased
    unfolding erased
    other_asleep front rest e differ = record {
      queued = λ l u. ground (
        arith,
        expected_stopped l u,
        v.queued l u,
        v.queued task.level u,
        count-erase u task.id (m.running task.level),
        found,
      );
      levels = stopped_levels;
      idles = record {
        task = stopped-Idles.task;
        found = stopped-Idles.found;
        runs = stopped-Idles.runs;
        lowest = stopped-Idles.lowest;
      };
      top = v.top;
      busy = elim (ℕ_discrete task.level m.current_level) [
        | yes same ↦ ground (
          arith,
          is_empty-erase task.id front rest differ,
          ap (λ q. erase q task.id) (ap m.running same ∙ e),
        )
        | no differs ↦ ground (arith, v.busy)
      ];
      settled = λ q l p r. ground (
        arith,
        v.settled q l p r,
        is_empty-erase_empty task.id (m.running l),
        λ (same : task.level ≡ l). ap m.running same,
      );
    }

  -- The state that a task leaves behind when it gives up the processor.
  unfoldable pub suspended : C → TaskManager C → ℕ → List ℕ → TaskManager C
  suspended cpu m t rest =
      let after = rotated true m t rest in
      record after { tasks = update_task t (set_context cpu) after.tasks }

  pub suspend_lem :
      (cpu : C) (m : TaskManager C) (t : ℕ) (rest : List ℕ)
      → m.running m.current_level ≡ t ∷ rest
      → (suspend cpu m).1 ≡ suspended cpu m t rest
  unfolding suspend suspended
  suspend_lem cpu m t rest e = rw (rotate_lem true m t rest e, suspend)

  suspended-Inv :
      (idle : ℕ) (cpu : C) (m : TaskManager C) (t : ℕ) (rest : List ℕ)
      → Inv idle (rotated true m t rest) × AtTop (rotated true m t rest)
      → Inv idle (suspended cpu m t rest) × AtTop (suspended cpu m t rest)
  unfolding suspended
  suspended-Inv idle cpu m t rest (v, up) = (
    touch-Inv idle t (set_context cpu) (rotated true m t rest) (λ y. refl) (λ y. refl) (λ y. refl)
        v,
    record { quiet = up.quiet; top = up.top; busy = up.busy; none_above = up.none_above },
  )

  -- Sleep keeps the invariant of the scheduler for every task but the idle one, and when the task
  -- that runs goes to sleep, the next one is of the highest level that has a task.
  pub sleep-Inv :
      (idle : ℕ) (cpu : C) (task : Task C) (m : TaskManager C)
      → Inv idle m
      → find_task task.id m.tasks ≡ some task
      → task.id ≢ idle
      → Inv idle (sleep cpu task m).1
        × (task.running ≡ true → current_task m ≡ some task.id → AtTop (sleep cpu task m).1)
  unfolding sleep stopped erased
  sleep-Inv idle cpu task m v found other =
      go (m.running m.current_level) refl (Bool-cases task.running)
    where
      go :
          (q : List ℕ)
          → m.running m.current_level ≡ q
          → (task.running ≡ true) ⊎ (task.running ≡ false)
          → Inv idle (sleep cpu task m).1
            × (task.running ≡ true → current_task m ≡ some task.id → AtTop (sleep cpu task m).1)
      go q e (inr sleeps) = rw (sleep, sleeps) (v, λ h. cc)
      go [] e (inl runs) = absurd (running_ne_nil idle m v e)
      go (front ∷ rest) e (inl runs) = elim (ℕ_discrete front task.id) [
        | no differ ↦
            let t : (task.id == front) ≡ false = ground arith in
            rw (sleep, runs, e, t)
              (
                other_asleep idle task m v found runs other front rest e differ,
                λ h k. absurd (ground (arith, differ, k)),
              )
        | yes same ↦
            let t : (task.id == front) ≡ true = ground arith in
            let e' : m.running m.current_level ≡ task.id ∷ rest = rw same at e in
            let (w, up) =
              suspended-Inv idle cpu (stopped idle task m v found runs other) task.id rest
                (front_asleep idle task m v found runs other rest e') in
            rw
              (
                sleep,
                runs,
                e,
                t,
                suspend_lem cpu (stopped idle task m v found runs other) task.id rest e',
              )
              (w, λ h k. up)
      ]
