-- ===== src/Queue.antt =====
-- Kernel/queue.hpp: ArrayQueue, a FIFO over an array that the caller owns.
pub mod Window
pub mod Fifo
pub mod Refine
mod Tests
use mikan_os_x.Base.{
  ℕ, ◌-◌, ◌+◌, Bool, List, [], ◌∷◌, Option, none, some, get_elem?, length, set, ◌==◌, add64, sub64,
  if◌then◌else◌,
}
use mikan_os_x.Base.Fault.{Code, success, full, empty}

-- The fields of ArrayQueue. A write or a read outside the array is undefined in the source: `set`
-- then changes nothing and `front` has no value, and the invariant rules both out.
pub record ArrayQueue {ℓ} (A : Type ℓ) : Type ℓ where
  pub items : List A
  pub read_pos : ℕ
  pub write_pos : ℕ
  pub count : ℕ
  pub capacity : ℕ

-- `++pos; if (pos == capacity_) pos = 0;`
pub advance : ℕ → ℕ → ℕ
advance capacity pos = let pos' = add64 pos 1 in if pos' == capacity then 0 else pos'

module _ {ℓ} {A : Type ℓ} where
  -- ArrayQueue(T* buf, size_t size)
  pub init : List A → ℕ → ArrayQueue A
  init buf size = record { items = buf; read_pos = 0; write_pos = 0; count = 0; capacity = size }

  -- ArrayQueue(std::array<T, N>& buf)
  pub of_array : List A → ArrayQueue A
  unfolding init
  of_array buf = init buf (length buf)

  pub push : A → ArrayQueue A → Code × ArrayQueue A
  unfolding advance
  push value q = if q.count == q.capacity then (full, q) else (
    success,
    record q {
      items = set q.items q.write_pos value;
      count = add64 q.count 1;
      write_pos = advance q.capacity q.write_pos;
    },
  )

  -- `--count_` is reached only when the count is not 0.
  pub pop : ArrayQueue A → Code × ArrayQueue A
  unfolding advance
  pop q =
      if q.count == 0
      then (empty, q)
      else (success, record q { count = sub64 q.count 1; read_pos = advance q.capacity q.read_pos })

  unfoldable pub size : ArrayQueue A → ℕ
  size q = q.count

  pub room : ArrayQueue A → ℕ
  room q = q.capacity

  pub front : ArrayQueue A → Option A
  front q = get_elem? q.items q.read_pos
