-- ===== src/Task/Rotation.antt =====
-- RotateCurrentRunQueue: who runs next.
use mikan_os_x.Base.{
  ℕ, ◌+◌, ◌≤◌, ◌<◌, ◌≡◌, refl, Bool, true, false, ◌&&◌, ◌||◌, ◌==◌, List, [], ◌∷◌, none, some,
  arith, if◌then◌else◌, Bool-cases, inl, inr, ℕ_discrete, ap, sym, ◌∙◌,
}
use mikan_os_x.Task.{TaskManager, max_level, set_queue}
use mikan_os_x.Task.Schedule.{is_empty, settle_level, requeue, rotate_current_run_queue}
use mikan_os_x.Task.Counts.{count, expected, is_empty-count, highest_lem, count-append}
use mikan_os_x.Task.Invariant.{AtTop, Inv, Idles}

count-requeue :
    (s : Bool) (t u : ℕ) (rest : List ℕ)
    → count u (requeue s t rest) + (if s && (t == u) then 1 else 0) ≡ count u (t ∷ rest)
unfolding requeue
count-requeue true t u rest = ground arith
count-requeue false t u rest = ground (arith, count-append u rest (t ∷ []))

or-false : (a b : Bool) → (a || b) ≡ false → (a ≡ false) × (b ≡ false)
or-false a b h = ground arith

module _ {C : Type 0} where
  settle_level-AtTop :
      (m : TaskManager C)
      → m.current_level ≤ max_level
      → is_empty (m.running 0) ≡ false
      → (m.level_changed ≡ false → is_empty (m.running m.current_level) ≡ false)
      → (m.level_changed ≡ false
          → (l : ℕ) → m.current_level < l
          → l ≤ max_level
          → is_empty (m.running l) ≡ true)
      → AtTop (settle_level m)
  unfolding settle_level
  settle_level-AtTop m top bottom busy above = elim (Bool-cases m.level_changed) [
    | inr quiet ↦
        rw quiet (record { quiet = refl; top = top; busy = busy quiet; none_above = above quiet })
    | inl changed ↦
        let h = highest_lem m.running 4 m.current_level 0 (omega arith) bottom in
        rw changed (record {
          quiet = refl;
          top = omega arith;
          busy = h.1;
          none_above = λ l p q. h.2 l p (omega arith);
        })
  ]

  -- The run queues after the front task was taken off its queue, and put at the end unless it
  -- sleeps.
  abbrev pub rotated : Bool → TaskManager C → ℕ → List ℕ → TaskManager C
  rotated current_sleep m t rest =
      let q = requeue current_sleep t rest in
      settle_level (record m {
        running = set_queue m.current_level q m.running;
        level_changed = m.level_changed || is_empty q;
      })

  pub rotate_lem :
      (s : Bool) (m : TaskManager C) (t : ℕ) (rest : List ℕ)
      → m.running m.current_level ≡ t ∷ rest
      → rotate_current_run_queue s m ≡ some (t, rotated s m t rest)
  unfolding rotate_current_run_queue
  rotate_lem s m t rest e = rw (e, rotate_current_run_queue)

  pub rotate_none :
      (s : Bool) (m : TaskManager C)
      → m.running m.current_level ≡ []
      → rotate_current_run_queue s m ≡ none
  unfolding rotate_current_run_queue
  rotate_none s m e = rw (e, rotate_current_run_queue)

  pub rotated-running :
      (s : Bool) (m : TaskManager C) (t : ℕ) (rest : List ℕ) (l : ℕ)
      → (rotated s m t rest).running l ≡ set_queue m.current_level (requeue s t rest) m.running l
  unfolding settle_level
  rotated-running s m t rest l =
      elim (Bool-cases (m.level_changed || is_empty (requeue s t rest))) [
        | inl e ↦ rw e
        | inr e ↦ rw e
      ]

  pub rotated-tasks :
      (s : Bool) (m : TaskManager C) (t : ℕ) (rest : List ℕ) → (rotated s m t rest).tasks ≡ m.tasks
  unfolding settle_level
  rotated-tasks s m t rest = elim (Bool-cases (m.level_changed || is_empty (requeue s t rest))) [
    | inl e ↦ rw e
    | inr e ↦ rw e
  ]

  -- The counts after a rotation: one place less for a front task that sleeps.
  pub count-rotated :
      (s : Bool) (m : TaskManager C) (t : ℕ) (rest : List ℕ) (l u : ℕ)
      → m.running m.current_level ≡ t ∷ rest
      → count u ((rotated s m t rest).running l)
          + (if s && (t == u) && (m.current_level == l) then 1 else 0)
        ≡ count u (m.running l)
  count-rotated s m t rest l u e =
      rw (rotated-running s m t rest l) (elim (ℕ_discrete m.current_level l) [
        | yes p ↦
            let here : count u (m.running l) ≡ count u (t ∷ rest) =
              ap (count u) (ap m.running (sym p) ∙ e) in
            ground (arith, here, count-requeue s t u rest)
        | no p ↦ ground arith
      ])

  pub rotated-AtTop :
      (s : Bool) (m : TaskManager C) (idle t : ℕ) (rest : List ℕ)
      → m.current_level ≤ max_level
      → (m.level_changed ≡ false
          → (l : ℕ) → m.current_level < l
          → l ≤ max_level
          → is_empty (m.running l) ≡ true)
      → 0 < count idle ((rotated s m t rest).running 0)
      → AtTop (rotated s m t rest)
  rotated-AtTop s m idle t rest top settled bottom =
      settle_level-AtTop _ top (is_empty-count idle _ (rw (rotated-running s m t rest 0) at bottom))
        (λ h. let q = (or-false m.level_changed (is_empty (requeue s t rest)) h).1 in ground arith)
        (λ h l p q.
          let above = settled (or-false m.level_changed (is_empty (requeue s t rest)) h).0 l p q in
          ground arith)

  -- When the task that runs stays runnable, a rotation keeps the invariant, and the new current
  -- level is the highest that has a task.
  pub rotated-Inv :
      (m : TaskManager C) (idle t : ℕ) (rest : List ℕ)
      → Inv idle m
      → m.running m.current_level ≡ t ∷ rest
      → Inv idle (rotated false m t rest) × AtTop (rotated false m t rest)
  rotated-Inv m idle t rest v e =
      let tasks = rotated-tasks false m t rest in
      let queued : (l u : ℕ)
          → count u ((rotated false m t rest).running l)
            ≡ expected (rotated false m t rest).tasks l u =
        λ l u. ground (arith, tasks, v.queued l u, count-rotated false m t rest l u e) in
      let idles : Idles idle (rotated false m t rest) = record {
        task = v.idles.task;
        found = rw tasks v.idles.found;
        runs = v.idles.runs;
        lowest = v.idles.lowest;
      } in
      let up =
        rotated-AtTop false m idle t rest v.top v.settled
          (ground (arith, queued 0 idle, idles.found, idles.runs, idles.lowest)) in
      (
        record {
          queued = queued;
          levels = λ u x f. v.levels u x (rw tasks at f);
          idles = idles;
          top = up.top;
          busy = up.busy;
          settled = λ _. up.none_above;
        },
        up,
      )
