-- ===== src/Segment/Tests.antt =====
-- A small memory, with the TSS at an address above 2 ^ 32.
use mikan_os_x.Base.{◌+◌, ◌^◌, ◌≡◌, refl, List, ℕ, [], ◌∷◌, replicate, arith}
use mikan_os_x.Memory.{BitmapMemoryManager}
use mikan_os_x.Memory.Ranges.{IsValid}
use mikan_os_x.Segment.{
  Tables, initialize_tss, setup_segments, to_data, set_code_segment, set_data_segment,
}
use mikan_os_x.Segment.Stacks.{Ready, initialize_tss-Ready}

abbrev no_segments : List ℕ
no_segments = replicate 7 0

segments :
    setup_segments no_segments
    ≡ 0 ∷ 0x00af9a000000ffff ∷ 0x00cf92000000ffff ∷ 0x00cff2000000ffff ∷ 0x00affa000000ffff ∷ 0 ∷ 0
      ∷ []
unfolding setup_segments to_data set_code_segment set_data_segment
segments = refl

-- The frames 0 to 3 are in use.
abbrev small : BitmapMemoryManager
small = record { alloc_map = 15 ∷ 0 ∷ []; range_begin = 1; range_end = 100 }

small-IsValid : IsValid small
small-IsValid = omega arith

abbrev tables : Tables
tables = record { gdt = no_segments; tss = replicate 26 0; manager = small }

initialize_tss-Ready_example : Ready (2 ^ 32 + 4096) tables (initialize_tss (2 ^ 32 + 4096) tables)
initialize_tss-Ready_example =
    initialize_tss-Ready (2 ^ 32 + 4096) tables small-IsValid (omega arith) refl refl
