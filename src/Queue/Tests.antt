-- ===== src/Queue/Tests.antt =====
-- An ArrayQueue over an array of three cells.
use mikan_os_x.Base.{ℕ, ◌≡◌, refl, List, [], ◌∷◌, some, arith}
use mikan_os_x.Base.Fault.{success, full, empty}
use mikan_os_x.Queue.{ArrayQueue, of_array, init, push, pop, front, size}
use mikan_os_x.Queue.Fifo.{Call, pushes, pops, fronts, counts, run, fifo, code, value, number}
use mikan_os_x.Queue.Refine.{Represents, init-Represents, run-eq-fifo}

abbrev fresh : ArrayQueue ℕ
fresh = record { items = 0 ∷ 0 ∷ 0 ∷ []; read_pos = 0; write_pos = 0; count = 0; capacity = 3 }

-- 8, then 9, round the end of the array
abbrev wrapped : ArrayQueue ℕ
wrapped = record { items = 9 ∷ 7 ∷ 8 ∷ []; read_pos = 2; write_pos = 1; count = 2; capacity = 3 }

abbrev script : List (Call ℕ)
script = pushes 1 ∷ pushes 2 ∷ fronts ∷ pops ∷ pops ∷ counts ∷ pops ∷ pops ∷ []

of_array-fresh : of_array (0 ∷ 0 ∷ 0 ∷ []) ≡ fresh
unfolding of_array
of_array-fresh = refl

run-wrapped :
    run script wrapped
    ≡ code success
      ∷ code full
      ∷ value (some 8)
      ∷ code success
      ∷ code success
      ∷ number 1
      ∷ code success
      ∷ code empty
      ∷ []
unfolding run push pop front size
run-wrapped = refl

wrapped-Represents : Represents wrapped (8 ∷ 9 ∷ [])
wrapped-Represents = record {
  values = (refl, (refl, tt));
  counted = refl;
  bounded = omega arith;
  storage = omega arith;
  read_in = omega arith;
  write_at = refl;
  small = omega arith;
}

run-eq-fifo_example : run script wrapped ≡ fifo 3 script (8 ∷ 9 ∷ [])
run-eq-fifo_example = run-eq-fifo script wrapped (8 ∷ 9 ∷ []) wrapped-Represents

init-Represents_example : Represents {A = ℕ} (init (0 ∷ 0 ∷ 0 ∷ []) 3) []
init-Represents_example =
    init-Represents {A = ℕ} (0 ∷ 0 ∷ 0 ∷ []) 3 (omega arith) (omega arith) (omega arith)
