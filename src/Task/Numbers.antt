-- ===== src/Task/Numbers.antt =====
-- No operation of the scheduler but NewTask and Finish changes which ids the tasks have.
use mikan_os_x.Base.{
  ℕ, ◌≡◌, refl, Bool, true, false, ◌||◌, List, [], ◌∷◌, Option, none, some, arith, Bool-cases, inl,
  inr,
}
use mikan_os_x.Task.{Task, TaskManager, update_task, set_level, set_running, set_context}
use mikan_os_x.Task.Schedule.{wakeup, settle_level, requeue, is_empty}
use mikan_os_x.Task.Rotation.{rotated, rotated-tasks, rotate_none}
use mikan_os_x.Task.Switch.{sleep, suspend}
use mikan_os_x.Task.Sleeping.{suspended, suspend_lem}
use mikan_os_x.Task.Ids.{Numbered, Rising-update_task}

module _ {C : Type 0} where
  pub update-Numbered :
      (t : ℕ) (f : Task C → Task C) (m m' : TaskManager C)
      → ((y : Task C) → (f y).id ≡ y.id)
      → m'.tasks ≡ update_task t f m.tasks
      → m'.latest_id ≡ m.latest_id
      → Numbered m
      → Numbered m'
  update-Numbered t f m m' keep e e' r =
      rw (e, e') (Rising-update_task t 0 m.latest_id f m.tasks keep r)

  pub wakeup-Numbered :
      (task : Task C) (level? : Option ℕ) (m : TaskManager C)
      → Numbered m
      → Numbered (wakeup task level? m)
  unfolding wakeup
  wakeup-Numbered task none m r = ground (
    arith,
    Rising-update_task task.id 0 m.latest_id (λ x. set_running true (set_level task.level x))
        m.tasks (λ y. refl) r,
  )
  wakeup-Numbered task (some l) m r = ground (
    arith,
    Rising-update_task task.id 0 m.latest_id (λ x. set_running true (set_level l x)) m.tasks
        (λ y. refl) r,
    Rising-update_task task.id 0 m.latest_id (set_level l) m.tasks (λ y. refl) r,
  )

  pub rotated-latest_id :
      (s : Bool) (m : TaskManager C) (t : ℕ) (rest : List ℕ)
      → (rotated s m t rest).latest_id ≡ m.latest_id
  unfolding settle_level
  rotated-latest_id s m t rest =
      elim (Bool-cases (m.level_changed || is_empty (requeue s t rest))) [
        | inl e ↦ rw e
        | inr e ↦ rw e
      ]

  pub rotated-Numbered :
      (s : Bool) (m : TaskManager C) (t : ℕ) (rest : List ℕ)
      → Numbered m
      → Numbered (rotated s m t rest)
  rotated-Numbered s m t rest r = rw (rotated-tasks s m t rest, rotated-latest_id s m t rest) r

  suspend-Numbered : (cpu : C) (m : TaskManager C) → Numbered m → Numbered (suspend cpu m).1
  suspend-Numbered cpu m r = go (m.running m.current_level) refl
    where
      go : (q : List ℕ) → m.running m.current_level ≡ q → Numbered (suspend cpu m).1
      go [] e = unfold suspend in rw (rotate_none true m e, suspend) r
      go (t ∷ rest) e = rw (suspend_lem cpu m t rest e) (
          unfold suspended in
          Rising-update_task t 0 (rotated true m t rest).latest_id (set_context cpu)
            (rotated true m t rest).tasks (λ y. refl) (rotated-Numbered true m t rest r))

  pub sleep-Numbered :
      (cpu : C) (task : Task C) (m : TaskManager C) → Numbered m → Numbered (sleep cpu task m).1
  unfolding sleep
  sleep-Numbered cpu task m r =
      let stopped = record m { tasks = update_task task.id (set_running false) m.tasks } in
      let r' : Numbered stopped =
        Rising-update_task task.id 0 m.latest_id (set_running false) m.tasks (λ y. refl) r in
      ground (arith, r', suspend-Numbered cpu stopped r')
