-- ===== src/Timer/Turn.antt =====
-- Which timers a Tick ends, and what becomes of the others.
use mikan_os_x.Base.{
  ℕ, zero, suc, ◌+◌, ◌-◌, ◌^◌, ◌<◌, ◌≤◌, ◌≡◌, refl, ap, Bool, true, false, ◌||◌, ltb, if◌then◌else◌,
  List, [], ◌∷◌, ◌++◌, some, add64, length, length-append, arith, Bool-cases, inl, inr,
}
use mikan_os_x.Task.{TaskManager}
use mikan_os_x.Timer.{Timer, TimerManager, push, renewed, is_task_timer, notify, tick_loop, tick}

unfoldable pub AllBy : ℕ → List Timer → Type 0
AllBy now [] = Unit
AllBy now (t ∷ ts) = (t.timeout ≤ now) × AllBy now ts

unfoldable pub AllAfter : ℕ → List Timer → Type 0
AllAfter now [] = Unit
AllAfter now (t ∷ ts) = (now < t.timeout) × AllAfter now ts

-- A new timer that ends later goes behind those that have ended.
push-behind :
    (now : ℕ) (t : Timer) (ended later : List Timer)
    → now < t.timeout
    → AllBy now ended
    → push t (ended ++ later) ≡ ended ++ push t later
unfolding push AllBy
push-behind now t [] later h by = refl
push-behind now t (x ∷ xs) later h by =
    let f : ltb t.timeout x.timeout ≡ false = let first = by.0 in ground arith in
    rw f (ap (x ∷◌) (push-behind now t xs later h by.1))

push-AllAfter :
    (now : ℕ) (t : Timer) (later : List Timer)
    → now < t.timeout
    → AllAfter now later
    → AllAfter now (push t later)
unfolding push AllAfter
push-AllAfter now t [] h after = (h, tt)
push-AllAfter now t (x ∷ xs) h after = elim (Bool-cases (ltb t.timeout x.timeout)) [
  | inl e ↦ rw e (h, after)
  | inr e ↦ rw e (after.0, push-AllAfter now t xs h after.1)
]

-- The timers that stay: one more for each task timer that ends.
pub kept : ℕ → List Timer → List Timer → List Timer
kept now [] later = later
kept now (t ∷ ended) later =
    if is_task_timer t then kept now ended (push (renewed now) later) else kept now ended later

pub has_task_timer : List Timer → Bool
has_task_timer [] = false
has_task_timer (t ∷ ended) = is_task_timer t || has_task_timer ended

kept-AllAfter :
    (now : ℕ) (ended later : List Timer)
    → now < 2 ^ 64 - 2
    → AllAfter now later
    → AllAfter now (kept now ended later)
unfolding kept
kept-AllAfter now [] later h after = after
kept-AllAfter now (t ∷ ended) later h after = elim (Bool-cases (is_task_timer t)) [
  | inl e ↦ rw e (
      kept-AllAfter now ended (push (renewed now) later) h
        (push-AllAfter now (renewed now) later (omega arith) after))
  | inr e ↦ rw e (kept-AllAfter now ended later h after)
]

or-true : (b : Bool) → (b || true) ≡ true
or-true true = refl
or-true false = refl

or-false : (b : Bool) → (b || false) ≡ b
or-false true = refl
or-false false = refl

push-length : (t : Timer) (ts : List Timer) → 0 < length (push t ts)
unfolding push
push-length t [] = omega arith
push-length t (x ∷ xs) = elim (Bool-cases (ltb t.timeout x.timeout)) [
  | inl e ↦ rw e (omega arith)
  | inr e ↦ rw e (omega arith)
]

module _ {C : Type 0} where
  -- The messages, in the order of the timers.
  pub notify_all : List Timer → TaskManager C → TaskManager C
  notify_all [] tasks = tasks
  notify_all (t ∷ ended) tasks =
      notify_all ended (if is_task_timer t then tasks else notify t tasks)

  tick_loop_lem :
      (fuel now : ℕ) (flag : Bool) (ended later : List Timer) (tasks : TaskManager C)
      → length ended < fuel
      → now < 2 ^ 64 - 2
      → AllBy now ended
      → 0 < length later
      → AllAfter now later
      → tick_loop fuel now flag (ended ++ later) tasks
        ≡ some (flag || has_task_timer ended, kept now ended later, notify_all ended tasks)
  unfolding tick_loop kept has_task_timer notify_all AllBy AllAfter
  tick_loop_lem zero now flag ended later tasks h small by more after = absurd (omega arith)
  tick_loop_lem (suc fuel) now flag [] [] tasks h small by more after = absurd (omega arith)
  tick_loop_lem (suc fuel) now flag [] (next ∷ later) tasks h small by more after =
      let t : ltb now next.timeout ≡ true = let first = after.0 in ground arith in
      rw (t, or-false flag) refl
  tick_loop_lem (suc fuel) now flag (t ∷ ended) later tasks h small by more after =
      let f : ltb now t.timeout ≡ false = let first = by.0 in ground arith in
      elim (Bool-cases (is_task_timer t)) [
        | inl e ↦
            let due : now < (renewed now).timeout = omega arith in
            rw (f, e, push-behind now (renewed now) ended later due by.1, or-true flag)
              (tick_loop_lem fuel now true ended (push (renewed now) later) tasks (omega arith)
                small by.1 (push-length (renewed now) later)
                (push-AllAfter now (renewed now) later due after))
        | inr e ↦
            rw (f, e)
              (tick_loop_lem fuel now flag ended later (notify t tasks) (omega arith) small by.1
                more after)
      ]

  tick-eq :
      (m : TimerManager) (ended later : List Timer) (tasks : TaskManager C)
      → m.timers ≡ ended ++ later
      → m.tick < 2 ^ 64 - 3
      → AllBy (m.tick + 1) ended
      → 0 < length later
      → AllAfter (m.tick + 1) later
      → tick m tasks
        ≡ some (
          has_task_timer ended,
          record { tick = m.tick + 1; timers = kept (m.tick + 1) ended later },
          notify_all ended tasks,
        )
  unfolding tick
  tick-eq m ended later tasks split small by more after =
      let e : add64 m.tick 1 ≡ m.tick + 1 = omega arith in
      let l : length (ended ++ later) ≡ length ended + length later = length-append ended later in
      rw
        (
          e,
          split,
          tick_loop_lem (suc (length (ended ++ later))) (m.tick + 1) false ended later tasks
              (omega arith) (omega arith) by more after,
        )
        (ap
          (λ k. some (
            has_task_timer ended,
            record { tick = k; timers = kept (m.tick + 1) ended later },
            notify_all ended tasks,
          ))
          e)

  -- Tick, when the timers are those that end by the new time and then those, at least one, that
  -- end later, and the time is below 2 ^ 64 - 3: it returns, tells whether a task timer was among
  -- the ended ones, sends a message for each other ended one in their order, and keeps the later
  -- ones with a renewed task timer for each ended task timer; none of these has ended.
  pub tick_lem :
      (m : TimerManager) (ended later : List Timer) (tasks : TaskManager C)
      → m.timers ≡ ended ++ later
      → m.tick < 2 ^ 64 - 3
      → AllBy (m.tick + 1) ended
      → 0 < length later
      → AllAfter (m.tick + 1) later
      → (tick m tasks
          ≡ some (
            has_task_timer ended,
            record { tick = m.tick + 1; timers = kept (m.tick + 1) ended later },
            notify_all ended tasks,
          ))
        × AllAfter (m.tick + 1) (kept (m.tick + 1) ended later)
  tick_lem m ended later tasks split small by more after = (
    tick-eq m ended later tasks split small by more after,
    kept-AllAfter (m.tick + 1) ended later (omega arith) after,
  )
