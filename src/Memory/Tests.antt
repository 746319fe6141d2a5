-- ===== src/Memory/Tests.antt =====
-- A manager with a map of two words, whose range is the frames 1 to 99.
use mikan_os_x.Base.{◌≡◌, refl, ◌^◌, ◌-◌, [], ◌∷◌, some, arith}
use mikan_os_x.Base.Fault.{success}
use mikan_os_x.Memory.{
  BitmapMemoryManager, Allocation, allocate, free, get_bit, set_bits, probe, search_from, set_bit,
  mark_allocated,
}
use mikan_os_x.Base.{List, true, inl}
use mikan_os_x.Memory.Start.{
  MemoryDescriptor, is_available, mark_map, Fits, Reserved, mark_map-Reserved,
}
use mikan_os_x.Memory.Ranges.{IsValid}
use mikan_os_x.Memory.FirstFit.{Allocates, allocate-Allocates, free-allocate}

-- The frames 0, 1 and 4 to 63 are in use.
abbrev sample : BitmapMemoryManager
sample = record { alloc_map = (2 ^ 64 - 1 - 12) ∷ 0 ∷ []; range_begin = 1; range_end = 100 }

sample-IsValid : IsValid sample
sample-IsValid = omega arith

abbrev after_two : BitmapMemoryManager
after_two = record sample { alloc_map = (2 ^ 64 - 1) ∷ 0 ∷ [] }

allocate_two : allocate 2 sample ≡ some ((2, success), after_two)
unfolding allocate search_from probe get_bit set_bits set_bit mark_allocated
allocate_two = refl

allocate-Allocates_example : (r : Allocation) × (allocate 3 sample ≡ some r) × Allocates sample 3 r
allocate-Allocates_example = allocate-Allocates sample 3 sample-IsValid (omega arith) (omega arith)

free-allocate_example : get_bit (free 2 2 after_two).1 3 ≡ get_bit sample 3
free-allocate_example =
    free-allocate sample after_two 2 2 sample-IsValid (omega arith) (omega arith) allocate_two 3

-- Frames of the firmware's code (type 5), then free memory.
abbrev firmware_map : List MemoryDescriptor
firmware_map =
    record { type = 5; physical_start = 8192; number_of_pages = 3 }
    ∷ record { type = 7; physical_start = 20480; number_of_pages = 40 }
    ∷ []

firmware_map-Fits : Fits 2 firmware_map
unfolding Fits
firmware_map-Fits = (omega arith, omega arith, (omega arith, omega arith, tt))

firmware_frame : Reserved firmware_map 4
unfolding Reserved is_available
firmware_frame = inl (refl, omega arith, omega arith)

mark_map-Reserved_example : get_bit (mark_map 0 firmware_map sample).1 4 ≡ true
mark_map-Reserved_example = mark_map-Reserved firmware_map sample 4 firmware_map-Fits firmware_frame
