-- ===== src/Task/Levels.antt =====
-- ChangeLevelRunning and Wakeup keep the invariant of the scheduler.

use mikan_os_x.Base.{
  ℕ, ◌≤◌, ◌<◌, ◌≡◌, ◌≢◌, refl, true, false, ◌==◌, ltb, List, [], ◌∷◌, ◌++◌, Option, none, some,
  arith, if◌then◌else◌, Bool-cases, inl, inr, ◌⊎◌, ℕ_discrete, ap, ◌∙◌,
}
use mikan_os_x.Task.{Task, TaskManager, find_task, update_task, max_level, set_queue, set_level}
use mikan_os_x.Task.Schedule.{is_empty, erase, wakeup, move_to_level}
use mikan_os_x.Task.Counts.{count, expected, count-append, count-erase, is_empty-append}
use mikan_os_x.Task.Invariant.{Inv, running_ne_nil}
use mikan_os_x.Task.Waking.{
  expected-update_task, levels-update_task, Idles-update_task, woken, woken-Inv,
}

-- A level that a caller may give: none, or one of the run queues'.
abbrev pub IsLevel : Option ℕ → Type 0
IsLevel none = Unit {0}
IsLevel (some l) = l ≤ max_level

pub is_empty-erase :
    (t front : ℕ) (rest : List ℕ) → front ≢ t → is_empty (erase (front ∷ rest) t) ≡ false
unfolding erase
is_empty-erase t front rest ne = ground arith

pub is_empty-erase_empty : (t : ℕ) (xs : List ℕ) → is_empty xs ≡ true → is_empty (erase xs t) ≡ true
unfolding erase
is_empty-erase_empty t [] h = refl
is_empty-erase_empty t (x ∷ xs) h = cc

module _ {C : Type 0} where
  -- A running task that moves to another level.
  module _ (idle level : ℕ) (task : Task C) (m : TaskManager C) (v : Inv idle m)
      (found : find_task task.id m.tasks ≡ some task) (runs : task.running ≡ true)
      (low : level ≤ max_level) (ne : level ≢ task.level) (other : task.id ≢ idle) where
    front_moved : ℕ → List ℕ → TaskManager C
    front_moved front rest =
        let popped = set_queue m.current_level rest m.running in
        record m {
          running = set_queue level (task.id ∷ popped level) popped;
          tasks = update_task task.id (set_level level) m.tasks;
          current_level = level;
          level_changed = if ltb level m.current_level then true else m.level_changed;
        }

    at_level :
        (t : ℕ) (rest : List ℕ)
        → m.running m.current_level ≡ t ∷ rest
        → t ≡ task.id
        → task.level ≡ m.current_level
    at_level t rest e same = ground (arith, v.queued m.current_level task.id, found, runs, e, same)

    front_moved-Inv :
        (front : ℕ) (rest : List ℕ)
        → m.running m.current_level ≡ front ∷ rest
        → front ≡ task.id
        → Inv idle (front_moved front rest)
    unfolding front_moved
    front_moved-Inv front rest e same =
        let old = at_level front rest e same in
        record {
          queued = λ l u. ground (
            arith,
            v.queued l u,
            v.queued level u,
            v.queued m.current_level u,
            e,
            ap (count u) e,
            found,
            runs,
            same,
            old,
            expected-update_task task.id u l (set_level level) m.tasks task (λ y. refl) found,
          );
          levels =
              levels-update_task task.id (set_level level) m.tasks task (λ y. refl) found low
                v.levels;
          idles =
              Idles-update_task idle task.id (set_level level) m (front_moved front rest)
                (λ y. refl) other refl v.idles;
          top = low;
          busy = ground arith;
          settled = λ q l p r.
              let quiet : m.level_changed ≡ false = ground (arith, q) in
              ground (arith, q, v.settled quiet l, p, r, old);
        }

    back_moved : TaskManager C
    back_moved =
        let erased = set_queue task.level (erase (m.running task.level) task.id) m.running in
        record m {
          running = set_queue level (erased level ++ task.id ∷ []) erased;
          tasks = update_task task.id (set_level level) m.tasks;
          level_changed = if ltb m.current_level level then true else m.level_changed;
        }

    back_queued : (l u : ℕ) → count u (back_moved.running l) ≡ expected back_moved.tasks l u
    unfolding back_moved
    back_queued l u = ground (
      arith,
      v.queued l u,
      v.queued level u,
      v.queued task.level u,
      found,
      runs,
      count-append u (m.running level) (task.id ∷ []),
      count-erase u task.id (m.running task.level),
      count-erase u task.id (m.running l),
      expected-update_task task.id u l (set_level level) m.tasks task (λ y. refl) found,
    )

    back_busy :
        (front : ℕ) (rest : List ℕ)
        → m.running m.current_level ≡ front ∷ rest
        → front ≢ task.id
        → is_empty (back_moved.running m.current_level) ≡ false
    unfolding back_moved
    back_busy front rest e differ = elim (ℕ_discrete level m.current_level) [
      | yes here ↦ ground (arith, here, is_empty-append task.id (m.running level))
      | no away ↦ elim (ℕ_discrete task.level m.current_level) [
        | yes same ↦ ground (
          arith,
          is_empty-erase task.id front rest differ,
          ap (λ q. erase q task.id) (ap m.running same ∙ e),
        )
        | no differs ↦ ground (arith, e)
      ]
    ]

    back_settled :
        back_moved.level_changed ≡ false
        → (l : ℕ) → back_moved.current_level < l
        → l ≤ max_level
        → is_empty (back_moved.running l) ≡ true
    unfolding back_moved
    back_settled q l p r =
        let quiet : m.level_changed ≡ false = ground (arith, q) in
        ground (
          arith,
          q,
          p,
          v.settled quiet l p r,
          ap m.running,
          is_empty-erase_empty task.id (m.running l),
          λ (e : task.level ≡ l). ap m.running e,
        )

    back_moved-Inv :
        (front : ℕ) (rest : List ℕ)
        → m.running m.current_level ≡ front ∷ rest
        → front ≢ task.id
        → Inv idle back_moved
    back_moved-Inv front rest e differ = record {
      queued = back_queued;
      levels =
          unfold back_moved in
          levels-update_task task.id (set_level level) m.tasks task (λ y. refl) found low v.levels;
      idles =
          unfold back_moved in
          (Idles-update_task idle task.id (set_level level) m back_moved (λ y. refl) other refl
            v.idles);
      top = unfold back_moved in v.top;
      busy = unfold back_moved in (back_busy front rest e differ);
      settled = back_settled;
    }

  move_to_level-Inv :
      (idle level : ℕ) (task : Task C) (m : TaskManager C)
      → Inv idle m
      → find_task task.id m.tasks ≡ some task
      → task.running ≡ true
      → level ≤ max_level
      → level ≢ task.level
      → task.id ≢ idle
      → Inv idle (move_to_level task.id task.level level m)
  unfolding move_to_level front_moved back_moved
  move_to_level-Inv idle level task m v found runs low ne other =
      go (m.running m.current_level) refl
    where
      go :
          (q : List ℕ)
          → m.running m.current_level ≡ q
          → Inv idle (move_to_level task.id task.level level m)
      go [] e = absurd (running_ne_nil idle m v e)
      go (front ∷ rest) e = elim (ℕ_discrete front task.id) [
        | yes same ↦
            let t : (task.id == front) ≡ true = ground arith in
            rw (e, move_to_level, t)
              (front_moved-Inv idle level task m v found runs low ne other front rest e same)
        | no differ ↦
            let t : (task.id == front) ≡ false = ground arith in
            rw (e, move_to_level, t)
              (back_moved-Inv idle level task m v found runs low ne other front rest e differ)
      ]

  -- Wakeup, at the task's level or at one that is given, keeps the invariant of the scheduler,
  -- whether the task sleeps, runs at that level or has to move, for every task but the idle one;
  -- for that too, where no level is given.
  pub wakeup-Inv :
      (idle : ℕ) (task : Task C) (level? : Option ℕ) (m : TaskManager C)
      → Inv idle m
      → find_task task.id m.tasks ≡ some task
      → IsLevel level?
      → (level? ≡ none) ⊎ (task.id ≢ idle)
      → Inv idle (wakeup task level? m)
  unfolding wakeup
  wakeup-Inv idle task level? m v found low other = go level? low other (Bool-cases task.running)
    where
      go :
          (l : Option ℕ)
          → IsLevel l
          → (l ≡ none) ⊎ (task.id ≢ idle)
          → (task.running ≡ true) ⊎ (task.running ≡ false)
          → Inv idle (wakeup task l m)
      go none p _ (inl runs) = rw runs v
      go none p _ (inr sleeps) = rw sleeps (
          unfold woken in
          woken-Inv idle task.level task m v found sleeps (v.levels task.id task found))
      go (some l) p _ (inr sleeps) =
          rw sleeps (unfold woken in woken-Inv idle l task m v found sleeps p)
      go (some l) p (inl none_given) (inl runs) = absurd (cc)
      go (some l) p (inr other) (inl runs) = rw runs (elim (ℕ_discrete l task.level) [
        | yes same ↦ let t : (l == task.level) ≡ true = ground arith in rw t v
        | no ne ↦
            let t : (l == task.level) ≡ false = ground arith in
            rw t (move_to_level-Inv idle l task m v found runs p ne other)
      ])
