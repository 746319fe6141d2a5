-- ===== src/Task/Calls.antt =====
-- What the scheduler's callers may rely on: each call keeps the invariant.
use mikan_os_x.Base.{
  ℕ, ◌<◌, ◌-◌, ◌^◌, ◌≡◌, ◌≢◌, refl, add64, sym, ◌∙◌, false, List, [], ◌∷◌, Option, none, some,
  arith, Option-cases, inl, inr, ◌⊎◌,
}
use mikan_os_x.Message.{Message}
use mikan_os_x.Task.{
  Task, TaskManager, find_task, update_task, new_task, set_context, default_level,
}
use mikan_os_x.Task.Schedule.{current_task}
use mikan_os_x.Task.Counts.{find_task-id, find_task_self, find_task-update_task}
use mikan_os_x.Task.Invariant.{Inv, running_ne_nil, AtTop}
use mikan_os_x.Task.Rotation.{rotated, rotate_lem, rotated-Inv}
use mikan_os_x.Task.Switch.{switch_task, sleep_id, wakeup_id, send_message, post}
use mikan_os_x.Task.Levels.{wakeup-Inv, IsLevel}
use mikan_os_x.Task.Sleeping.{sleep-Inv}
use mikan_os_x.Task.Touch.{touch-Inv}
use mikan_os_x.Task.Ids.{
  Numbered, new_task-Numbered, expected-append, find_task-append, find_task-append_cases,
}
use mikan_os_x.Task.Numbers.{update-Numbered, wakeup-Numbered, rotated-Numbered, sleep-Numbered}

module _ {C : Type 0} where
  -- The invariant, for a manager whose tasks have rising ids.
  pub record IsSound (idle : ℕ) (m : TaskManager C) : Type 0 where
    pub inv : Inv idle m
    pub numbered : Numbered m

  pub new_task-IsSound :
      (idle : ℕ) (fresh : C) (m : TaskManager C)
      → IsSound idle m
      → m.latest_id < 2 ^ 64 - 1
      → IsSound idle (new_task fresh m).1
  new_task-IsSound idle fresh m v h = record {
    inv =
        unfold new_task in
        record {
          queued = λ l u. ground (arith, v.inv.queued l u, expected-append u l m.tasks made refl);
          levels = λ u x e. elim (find_task-append_cases u m.tasks x made e) [
            | inl old ↦ v.inv.levels u x old
            | inr new ↦ rw new (omega arith)
          ];
          idles = record {
            task = v.inv.idles.task;
            found = find_task-append idle m.tasks v.inv.idles.task _ v.inv.idles.found;
            runs = v.inv.idles.runs;
            lowest = v.inv.idles.lowest;
          };
          top = v.inv.top;
          busy = v.inv.busy;
          settled = v.inv.settled;
        };
    numbered = new_task-Numbered fresh m h v.numbered;
  }
    where
      made : Task C
      made = record {
        id = add64 m.latest_id 1;
        context = fresh;
        msgs = [];
        level = default_level;
        running = false;
      }

  -- The state after SwitchTask, where a task runs.
  unfoldable pub switched : C → TaskManager C → ℕ → List ℕ → TaskManager C
  switched ctx m t rest =
      rotated false (record m { tasks = update_task t (set_context ctx) m.tasks }) t rest

  pub switch_task_lem :
      (ctx : C) (m : TaskManager C) (t : ℕ) (rest : List ℕ)
      → m.running m.current_level ≡ t ∷ rest
      → (switch_task ctx m).1 ≡ switched ctx m t rest
  unfolding switch_task switched
  switch_task_lem ctx m t rest e =
      let saved = record m { tasks = update_task t (set_context ctx) m.tasks } in
      rw (e, switch_task, rotate_lem false saved t rest e)
        (elim (Option-cases (current_task (rotated false saved t rest))) [
          | inl e' ↦ rw e'
          | inr (next, e') ↦ rw e'
        ])

  -- SwitchTask keeps the invariant, and the task that runs next is of the highest level that has
  -- one.
  pub switch_task-AtTop :
      (idle : ℕ) (ctx : C) (m : TaskManager C)
      → IsSound idle m
      → IsSound idle (switch_task ctx m).1 × AtTop (switch_task ctx m).1
  switch_task-AtTop idle ctx m v = go (m.running m.current_level) refl
    where
      go :
          (q : List ℕ)
          → m.running m.current_level ≡ q
          → IsSound idle (switch_task ctx m).1 × AtTop (switch_task ctx m).1
      go [] e = absurd (running_ne_nil idle m v.inv e)
      go (t ∷ rest) e =
          let saved = record m { tasks = update_task t (set_context ctx) m.tasks } in
          let inv =
            touch-Inv idle t (set_context ctx) m (λ y. refl) (λ y. refl) (λ y. refl) v.inv in
          let numbered =
            update-Numbered t (set_context ctx) m saved (λ y. refl) refl refl v.numbered in
          let (w, up) = rotated-Inv saved idle t rest inv e in
          rw (switch_task_lem ctx m t rest e) (
            unfold switched in
            (record { inv = w; numbered = rotated-Numbered false saved t rest numbered }, up))

  pub sleep_id-IsSound :
      (idle : ℕ) (cpu : C) (id : ℕ) (m : TaskManager C)
      → IsSound idle m
      → id ≢ idle
      → IsSound idle (sleep_id cpu id m).2
  unfolding sleep_id
  sleep_id-IsSound idle cpu id m v ne = elim (Option-cases (find_task id m.tasks)) [
    | inl missing ↦ rw (missing, sleep_id) v
    | inr (x, there) ↦
        let same = find_task-id id m.tasks x there in
        rw (there, sleep_id)
          (record {
            inv =
                (sleep-Inv idle cpu x m v.inv (find_task_self id m.tasks x there)
                  (λ e. ne (sym same ∙ e))).0;
            numbered = sleep-Numbered cpu x m v.numbered;
          })
  ]

  pub wakeup_id-IsSound :
      (idle id : ℕ) (level? : Option ℕ) (m : TaskManager C)
      → IsSound idle m
      → IsLevel level?
      → (level? ≡ none) ⊎ (id ≢ idle)
      → IsSound idle (wakeup_id id level? m).1
  unfolding wakeup_id
  wakeup_id-IsSound idle id level? m v low other = elim (Option-cases (find_task id m.tasks)) [
    | inl missing ↦ rw (missing, wakeup_id) v
    | inr (x, there) ↦
        let same = find_task-id id m.tasks x there in
        rw (there, wakeup_id)
          (record {
            inv =
                wakeup-Inv idle x level? m v.inv (find_task_self id m.tasks x there) low
                  (elim other [ inl e ↦ inl e | inr ne ↦ inr (λ e. ne (sym same ∙ e)) ]);
            numbered = wakeup-Numbered x level? m v.numbered;
          })
  ]

  pub send_message-IsSound :
      (idle id : ℕ) (msg : Message) (m : TaskManager C)
      → IsSound idle m
      → IsSound idle (send_message id msg m).1
  unfolding send_message
  send_message-IsSound idle id msg m v = elim (Option-cases (find_task id m.tasks)) [
    | inl missing ↦ rw (missing, send_message) v
    | inr (x, there) ↦
        let same = find_task-id id m.tasks x there in
        let m' = record m { tasks = update_task id (post msg) m.tasks } in
        let found : find_task x.id m'.tasks ≡ some (post msg x) =
          rw same
            (ground (arith, there, find_task-update_task id id (post msg) m.tasks (λ y. refl))) in
        let numbered = update-Numbered id (post msg) m m' (λ y. refl) refl refl v.numbered in
        rw (there, send_message)
          (record {
            inv =
                wakeup-Inv idle (post msg x) none m'
                  (touch-Inv idle id (post msg) m (λ y. refl) (λ y. refl) (λ y. refl) v.inv) found
                  tt (inl refl);
            numbered = wakeup-Numbered (post msg x) none m' numbered;
          })
  ]
