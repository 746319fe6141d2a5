-- ===== src/Memory/Single.antt =====
-- Allocate of one frame, as the page tables use it.
use mikan_os_x.Base.{
  ℕ, ◌+◌, ◌<◌, ◌≤◌, ◌^◌, ◌≡◌, ap, sym, ◌∙◌, true, false, ◌==◌, if◌then◌else◌, none, some, arith,
  Bool-cases, inl, inr,
}
use mikan_os_x.Base.Fault.{success, no_enough_memory}
use mikan_os_x.Memory.{BitmapMemoryManager, get_bit, allocate, Allocation, null_frame}
use mikan_os_x.Memory.Ranges.{IsValid}
use mikan_os_x.Memory.FirstFit.{Allocates, granted, refused, allocate-Allocates}

-- Allocate(1). It always has a result, so that the first case is never met.
unfoldable pub take_frame : BitmapMemoryManager → Allocation
take_frame m = elim (allocate 1 m) [ none ↦ ((null_frame, no_enough_memory), m) | some r ↦ r ]

-- The manager is valid, and its range does not begin past 64 bits.
pub record IsManager (m : BitmapMemoryManager) : Type 0 where
  pub valid : IsValid m
  pub begins : m.range_begin < 2 ^ 64

-- Every frame of the range is in use.
abbrev pub IsFull : BitmapMemoryManager → Type 0
IsFull m = (f : ℕ) → m.range_begin ≤ f → f < m.range_end → get_bit m f ≡ true

-- A frame that was free is marked, and no other; or nothing changes, as the manager is full.
pub data Takes (m : BitmapMemoryManager) : Allocation → Type 0 where
  took :
      (s : ℕ) (m' : BitmapMemoryManager)
      → get_bit m s ≡ false
      → s < 2 ^ 25
      → ((f : ℕ) → get_bit m' f ≡ (if s == f then true else get_bit m f))
      → IsManager m'
      → Takes m ((s, success), m')
  full : IsFull m → Takes m ((null_frame, no_enough_memory), m)

pub take_frame-Takes : (m : BitmapMemoryManager) → IsManager m → Takes m (take_frame m)
unfolding take_frame
take_frame-Takes m ok =
    let (r, e, w) = allocate-Allocates m 1 ok.valid ok.begins (omega arith) in
    rw (e, take_frame) (go r w)
  where
    go : (r : Allocation) → Allocates m 1 r → Takes m r
    go _ (refused none_free) = full (λ f low high. elim (Bool-cases (get_bit m f)) [
      | inl used ↦ used
      | inr clear ↦ absurd (
          none_free f low (λ i lt.
            let e : f + i ≡ f = omega arith in (omega (arith, high), ap (get_bit m) e ∙ clear)))
    ])
    go _ (granted s m' first bits v top bottom) =
        let (below, clear) = first.1 0 (omega arith) in
        let e : s + 0 ≡ s = omega arith in
        took s m' (ap (get_bit m) (sym e) ∙ clear) (omega (arith, ok.valid.in_map, ok.valid.lines))
          (λ f. ground (arith, bits f)) (record { valid = v; begins = omega (arith, ok.begins) })
