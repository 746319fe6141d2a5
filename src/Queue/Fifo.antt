-- ===== src/Queue/Fifo.antt =====
-- Sequences of calls of an ArrayQueue, and the bounded FIFO that they are compared with.
use mikan_os_x.Base.{ℕ, List, [], ◌∷◌, ◌++◌, Option, none, some, length, ◌==◌, if◌then◌else◌}
use mikan_os_x.Base.Fault.{Code, success, full, empty}
use mikan_os_x.Queue.{ArrayQueue, push, pop, front, size}

pub data Call {ℓ} (A : Type ℓ) : Type ℓ where
  pushes : A → Call A
  pops : Call A
  fronts : Call A
  counts : Call A

-- What a caller sees of each call: an error code, a value, or a number.
pub data Reply {ℓ} (A : Type ℓ) : Type ℓ where
  code : Code → Reply A
  value : Option A → Reply A
  number : ℕ → Reply A

module _ {ℓ} {A : Type ℓ} where
  -- A client asks for the front only when Count is not 0.
  unfoldable pub run : List (Call A) → ArrayQueue A → List (Reply A)
  run [] q = []
  run (pushes v ∷ cs) q = let (c, q') = push v q in code c ∷ run cs q'
  run (pops ∷ cs) q = let (c, q') = pop q in code c ∷ run cs q'
  run (fronts ∷ cs) q = value (if size q == 0 then none else front q) ∷ run cs q
  run (counts ∷ cs) q = number (size q) ∷ run cs q

  -- The FIFO of at most `room` values, oldest first.
  unfoldable pub fifo : ℕ → List (Call A) → List A → List (Reply A)
  fifo room [] xs = []
  fifo room (pushes v ∷ cs) xs =
      let refused = code full ∷ fifo room cs xs in
      let taken = code success ∷ fifo room cs (xs ++ v ∷ []) in
      if length xs == room then refused else taken
  fifo room (pops ∷ cs) [] = code empty ∷ fifo room cs []
  fifo room (pops ∷ cs) (x ∷ xs) = code success ∷ fifo room cs xs
  fifo room (fronts ∷ cs) [] = value none ∷ fifo room cs []
  fifo room (fronts ∷ cs) (x ∷ xs) = value (some x) ∷ fifo room cs (x ∷ xs)
  fifo room (counts ∷ cs) xs = number (length xs) ∷ fifo room cs xs
