-- ===== src/Task/Counts.antt =====
-- How often a task stands in a run queue, and reads of the task table after a write.
use mikan_os_x.Base.{
  ℕ, zero, suc, ◌+◌, ◌<◌, ◌≡◌, ◌≢◌, refl, true, false, ◌&&◌, ◌==◌, if◌then◌else◌, List, [], ◌∷◌,
  ◌++◌, Option, none, some, arith, ◌∙◌, Bool-cases, inl, inr, ap, ℕ_discrete,
}
use mathlib.Core.Option
use mikan_os_x.Task.{Task, find_task, update_task}
use mikan_os_x.Task.Schedule.{erase, is_empty, highest}

abbrev pub count : ℕ → List ℕ → ℕ
count t [] = 0
count t (x ∷ xs) = (if x == t then 1 else 0) + count t xs

pub count-append : (t : ℕ) (xs ys : List ℕ) → count t (xs ++ ys) ≡ count t xs + count t ys
count-append t [] ys = omega arith
count-append t (x ∷ xs) ys = omega (arith, count-append t xs ys)

pub count-erase :
    (t u : ℕ) (xs : List ℕ) → count t (erase xs u) ≡ (if u == t then 0 else count t xs)
unfolding erase
count-erase t u [] = ground arith
count-erase t u (x ∷ xs) = ground (arith, count-erase t u xs)

pub is_empty-count : (t : ℕ) (xs : List ℕ) → 0 < count t xs → is_empty xs ≡ false
is_empty-count t [] h = absurd (omega arith)
is_empty-count t (x ∷ xs) h = refl

pub is_empty-append : (t : ℕ) (xs : List ℕ) → is_empty (xs ++ t ∷ []) ≡ false
is_empty-append t [] = refl
is_empty-append t (x ∷ xs) = refl

-- RotateCurrentRunQueue's search finds the highest level with a task.
pub highest_lem :
    (running : ℕ → List ℕ) (n level l : ℕ)
    → l < n
    → is_empty (running l) ≡ false
    → (highest running n level < n)
      × (is_empty (running (highest running n level)) ≡ false)
      × ((k : ℕ) → highest running n level < k → k < n → is_empty (running k) ≡ true)
unfolding highest
highest_lem running zero level l h e = absurd (omega arith)
highest_lem running (suc n) level l h e = elim (Bool-cases (is_empty (running n))) [
  | inr here ↦ rw here (omega arith, here, λ k p q. absurd (omega arith))
  | inl none_here ↦
      let ne : l ≢ n = λ (same : l ≡ n). cc (ap (λ k. is_empty (running k)) same) in
      let ih = highest_lem running n level l (omega arith) e in
      rw none_here (
        omega arith,
        ih.1,
        λ k p q. elim (ℕ_discrete k n) [
          | yes top ↦ rw top none_here
          | no below ↦ ih.2 k p (omega arith)
        ],
      )
]

module _ {C : Type 0} where
  -- A write through a Task* that keeps the id changes what that id reads, and nothing else.
  pub find_task-update_task :
      (t u : ℕ) (f : Task C → Task C) (xs : List (Task C))
      → ((x : Task C) → (f x).id ≡ x.id)
      → find_task u (update_task t f xs)
        ≡ (if t == u then Option.map f (find_task t xs) else find_task u xs)
  unfolding find_task update_task
  find_task-update_task t u f [] keep = ground arith
  find_task-update_task t u f (x ∷ xs) keep =
      ground (arith, keep x, find_task-update_task t u f xs keep)

  pub find_task-id : (t : ℕ) (xs : List (Task C)) (x : Task C) → find_task t xs ≡ some x → x.id ≡ t
  unfolding find_task
  find_task-id t [] x e = absurd (cc)
  find_task-id t (y ∷ xs) x e = ground (arith, find_task-id t xs x)

  pub find_task_self :
      (t : ℕ) (xs : List (Task C)) (x : Task C)
      → find_task t xs ≡ some x
      → find_task x.id xs ≡ some x
  find_task_self t xs x e = ap (λ k. find_task k xs) (find_task-id t xs x e) ∙ e

  -- How often a task is to stand in the queue of a level: once if it runs at that level.
  abbrev pub expected_of : Option (Task C) → ℕ → ℕ
  expected_of none l = 0
  expected_of (some x) l = if x.running && (x.level == l) then 1 else 0

  abbrev pub expected : List (Task C) → ℕ → ℕ → ℕ
  expected tasks l t = expected_of (find_task t tasks) l
