-- ===== src/Task/Touch.antt =====
-- Writes to a task that the scheduler does not look at.

use mikan_os_x.Base.{ℕ, ◌≤◌, ◌≡◌, refl, some, arith, inl, inr, Option-cases, ℕ_discrete, ap, ◌∙◌}
use mikan_os_x.Task.{Task, TaskManager, find_task, update_task, max_level}
use mikan_os_x.Task.Counts.{expected, find_task-update_task}
use mikan_os_x.Task.Invariant.{Inv, Idles}
use mikan_os_x.Task.Waking.{levels-update_task, Idles-update_task}

module _ {C : Type 0} where
  -- A write to a task that keeps its id, its level and whether it runs moves no task.
  pub touch-Inv :
      (idle t : ℕ) (f : Task C → Task C) (m : TaskManager C)
      → ((y : Task C) → (f y).id ≡ y.id)
      → ((y : Task C) → (f y).level ≡ y.level)
      → ((y : Task C) → (f y).running ≡ y.running)
      → Inv idle m
      → Inv idle (record m { tasks = update_task t f m.tasks })
  touch-Inv idle t f m kid klevel kruns v = record {
    queued = λ l u. ground (arith, v.queued l u, same_expected l u);
    levels = kept;
    idles = still;
    top = v.top;
    busy = v.busy;
    settled = v.settled;
  }
    where
      same_expected : (l u : ℕ) → expected (update_task t f m.tasks) l u ≡ expected m.tasks l u
      same_expected l u = elim (Option-cases (find_task t m.tasks)) [
        | inl missing ↦ ground (arith, missing, find_task-update_task t u f m.tasks kid)
        | inr (x, there) ↦ ground (
          arith,
          there,
          klevel x,
          kruns x,
          λ (e : t ≡ u). ap (λ k. find_task k m.tasks) e,
          find_task-update_task t u f m.tasks kid,
        )
      ]

      kept :
          (u : ℕ) (y : Task C)
          → find_task u (update_task t f m.tasks) ≡ some y
          → y.level ≤ max_level
      kept u y e = elim (Option-cases (find_task t m.tasks)) [
        | inl missing ↦
            v.levels u y (ground (arith, e, missing, find_task-update_task t u f m.tasks kid))
        | inr (x, there) ↦
            levels-update_task t f m.tasks x kid there (rw (klevel x) (v.levels t x there)) v.levels
              u y e
      ]

      still : Idles idle (record m { tasks = update_task t f m.tasks })
      still = elim (ℕ_discrete t idle) [
        | no ne ↦ Idles-update_task idle t f m _ kid ne refl v.idles
        | yes same ↦ record {
          task = f v.idles.task;
          found = ground (arith, same, v.idles.found, find_task-update_task t idle f m.tasks kid);
          runs = kruns v.idles.task ∙ v.idles.runs;
          lowest = klevel v.idles.task ∙ v.idles.lowest;
        }
      ]
