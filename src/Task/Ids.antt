-- ===== src/Task/Ids.antt =====
-- The ids of the tasks rise along `tasks_`, so that a Task* and an id are one and the same.
use mikan_os_x.Base.{
  ℕ, ◌+◌, ◌≤◌, ◌<◌, ◌≡◌, refl, ◌-◌, ap, inr, ◌⊎◌, List, [], ◌∷◌, ◌++◌, none, some, arith, ◌==◌,
  if◌then◌else◌, false, ◌^◌, add64,
}
use mikan_os_x.Task.{Task, TaskManager, find_task, update_task, new_task}
use mikan_os_x.Task.Switch.{erase_task}
use mikan_os_x.Task.Counts.{expected}

module _ {C : Type 0} where
  -- Rising ids above `lo`, up to `hi`.
  abbrev pub Rising : ℕ → ℕ → List (Task C) → Type 0
  Rising lo hi [] = Unit
  Rising lo hi (x ∷ xs) = (lo < x.id) × (x.id ≤ hi) × Rising x.id hi xs

  Rising-low : (lo lo' hi : ℕ) (xs : List (Task C)) → lo ≤ lo' → Rising lo' hi xs → Rising lo hi xs
  Rising-low lo lo' hi [] le r = tt
  Rising-low lo lo' hi (x ∷ xs) le r = (omega arith, r.1, r.2)

  pub Rising-update_task :
      (t lo hi : ℕ) (f : Task C → Task C) (xs : List (Task C))
      → ((y : Task C) → (f y).id ≡ y.id)
      → Rising lo hi xs
      → Rising lo hi (update_task t f xs)
  unfolding update_task
  Rising-update_task t lo hi f [] keep r = tt
  Rising-update_task t lo hi f (x ∷ xs) keep r =
      ground (arith, keep x, Rising-update_task t x.id hi f xs keep r.2)

  Rising-append :
      (lo hi : ℕ) (xs : List (Task C)) (y : Task C)
      → lo ≤ hi
      → y.id ≡ hi + 1
      → Rising lo hi xs
      → Rising lo (hi + 1) (xs ++ y ∷ [])
  Rising-append lo hi [] y le e r = (omega arith, omega arith, tt)
  Rising-append lo hi (x ∷ xs) y le e r =
      (r.0, omega (arith, r.1), Rising-append x.id hi xs y r.1 e r.2)

  pub Rising-erase_task :
      (t lo hi : ℕ) (xs : List (Task C)) → Rising lo hi xs → Rising lo hi (erase_task t xs)
  unfolding erase_task
  Rising-erase_task t lo hi [] r = tt
  Rising-erase_task t lo hi (x ∷ xs) r =
      ground (
        arith,
        Rising-erase_task t x.id hi xs r.2,
        Rising-low lo x.id hi xs (omega (arith, r.0)) r.2,
      )

  find_task-low : (t hi : ℕ) (xs : List (Task C)) → Rising t hi xs → find_task t xs ≡ none
  unfolding find_task
  find_task-low t hi [] r = refl
  find_task-low t hi (x ∷ xs) r =
      ground (arith, r.0, find_task-low t hi xs (Rising-low t x.id hi xs (omega (arith, r.0)) r.2))

  pub find_task-erase_task :
      (t u lo hi : ℕ) (xs : List (Task C))
      → Rising lo hi xs
      → find_task u (erase_task t xs) ≡ (if t == u then none else find_task u xs)
  unfolding find_task erase_task
  find_task-erase_task t u lo hi [] r = ground arith
  find_task-erase_task t u lo hi (x ∷ xs) r = ground (
    arith,
    find_task-erase_task t u x.id hi xs r.2,
    find_task-low x.id hi xs r.2,
    λ (e : x.id ≡ u). ap (λ k. find_task k xs) e,
  )

  -- The ids of the manager's tasks.
  abbrev pub Numbered : TaskManager C → Type 0
  Numbered m = Rising 0 m.latest_id m.tasks

  -- A new task has an id that no task had, as long as fewer than 2 ^ 64 - 1 were made.
  pub new_task-Numbered :
      (fresh : C) (m : TaskManager C)
      → m.latest_id < 2 ^ 64 - 1
      → Numbered m
      → Numbered (new_task fresh m).1
  unfolding new_task
  new_task-Numbered fresh m h r =
      let e : add64 m.latest_id 1 ≡ m.latest_id + 1 = omega arith in
      rw e (Rising-append 0 m.latest_id m.tasks _ (omega arith) refl r)

  -- A task at the end of the table that does not run is expected in no queue.
  pub expected-append :
      (u l : ℕ) (xs : List (Task C)) (y : Task C)
      → y.running ≡ false
      → expected (xs ++ y ∷ []) l u ≡ expected xs l u
  unfolding find_task
  expected-append u l [] y sleeps = ground arith
  expected-append u l (x ∷ xs) y sleeps = ground (arith, expected-append u l xs y sleeps)

  pub find_task-append :
      (u : ℕ) (xs : List (Task C)) (x y : Task C)
      → find_task u xs ≡ some x
      → find_task u (xs ++ y ∷ []) ≡ some x
  unfolding find_task
  find_task-append u [] x y e = absurd (cc)
  find_task-append u (z ∷ xs) x y e = ground (arith, find_task-append u xs x y)

  pub find_task-append_cases :
      (u : ℕ) (xs : List (Task C)) (x y : Task C)
      → find_task u (xs ++ y ∷ []) ≡ some x
      → (find_task u xs ≡ some x) ⊎ (x ≡ y)
  unfolding find_task
  find_task-append_cases u [] x y e = inr (ground arith)
  find_task-append_cases u (z ∷ xs) x y e = ground (arith, find_task-append_cases u xs x y)
