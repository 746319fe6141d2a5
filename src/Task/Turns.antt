-- ===== src/Task/Turns.antt =====
-- Round robin: among the tasks of the current level each has its turn.
use mikan_os_x.Base.{
  ℕ, ◌≡◌, refl, ◌∙◌, false, List, [], ◌∷◌, ◌++◌, append_assoc, some, arith, length,
}
use mikan_os_x.Task.{TaskManager}
use mikan_os_x.Task.Schedule.{current_task, settle_level, requeue}
use mikan_os_x.Task.Counts.{is_empty-append}
use mikan_os_x.Task.Switch.{switch_task}
use mikan_os_x.Task.Calls.{switched, switch_task_lem}

module _ {C : Type 0} where
  -- The timer's interrupts, each with the context that it found.
  pub switches : List C → TaskManager C → TaskManager C
  switches [] m = m
  switches (ctx ∷ ctxs) m = switches ctxs (switch_task ctx m).1

  switch_task_turn :
      (ctx : C) (m : TaskManager C) (t : ℕ) (rest : List ℕ)
      → m.running m.current_level ≡ t ∷ rest
      → m.level_changed ≡ false
      → let m' = (switch_task ctx m).1 in
        (m'.running m'.current_level ≡ rest ++ t ∷ []) × (m'.level_changed ≡ false)
  switch_task_turn ctx m t rest e quiet = rw (switch_task_lem ctx m t rest e) (
      unfold switched settle_level requeue in
      rw (quiet, is_empty-append t rest) (ground arith, refl))

  -- With no change of levels noted, a task that stands behind `before` in the run queue of the
  -- current level is the one that runs after as many timer switches as `before` has tasks.
  pub switches-turn :
      (ctxs : List C) (m : TaskManager C) (before after : List ℕ) (t : ℕ)
      → m.level_changed ≡ false
      → m.running m.current_level ≡ before ++ t ∷ after
      → length ctxs ≡ length before
      → current_task (switches ctxs m) ≡ some t
  unfolding switches
  switches-turn [] m [] after t quiet e n = ground (arith, e)
  switches-turn [] m (b ∷ bs) after t quiet e n = absurd (omega (arith, n))
  switches-turn (ctx ∷ ctxs) m [] after t quiet e n = absurd (omega (arith, n))
  switches-turn (ctx ∷ ctxs) m (b ∷ bs) after t quiet e n =
      let (queue, quiet') = switch_task_turn ctx m b (bs ++ t ∷ after) e quiet in
      switches-turn ctxs (switch_task ctx m).1 bs (after ++ b ∷ []) t quiet'
        (queue ∙ append_assoc bs (t ∷ after) (b ∷ [])) (omega (arith, n))
