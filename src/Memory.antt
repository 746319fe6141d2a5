-- ===== src/Memory.antt =====
-- Kernel/memory_manager.hpp and .cpp: BitmapMemoryManager, the allocator of 4 KiB frames.
pub mod Bitmap
pub mod Ranges
pub mod FirstFit
pub mod Start
pub mod Single
mod Tests
use mikan_os_x.Base.{
  ℕ, zero, suc, ◌-◌, ◌+◌, ◌*◌, ◌/◌, ◌%◌, ◌^◌, Bool, true, false, not, List, [], ◌∷◌, Option, none,
  some, get_or, length, set, replicate, bit_and, bit_or, ◌==◌, ltb, leb, add64, sub64,
  if◌then◌else◌,
}
use mikan_os_x.Base.Bits.{bit_at}
use mikan_os_x.Base.Fault.{Code, success, no_enough_memory}

abbrev pub bytes_per_frame : ℕ
bytes_per_frame = 4096

abbrev pub frame_count : ℕ
frame_count = 128 * (1024 * 1024 * 1024) / bytes_per_frame

abbrev pub bits_per_map_line : ℕ
bits_per_map_line = 64

-- kNullFrame
abbrev pub null_frame : ℕ
null_frame = 2 ^ 64 - 1

-- A FrameID is its number. `alloc_map` is an array of 64-bit words; an index past its end is
-- undefined in the source, and reads 0 or writes nothing here.
pub record BitmapMemoryManager : Type 0 where
  pub alloc_map : List ℕ
  pub range_begin : ℕ
  pub range_end : ℕ

-- BitmapMemoryManager()
pub create : BitmapMemoryManager
create = record {
  alloc_map = replicate (frame_count / bits_per_map_line) 0;
  range_begin = 0;
  range_end = frame_count;
}

-- ~x on a word of 64 bits
abbrev pub complement : ℕ → ℕ
complement x = 2 ^ 64 - 1 - x

unfoldable pub get_bit : BitmapMemoryManager → ℕ → Bool
get_bit m frame =
    let line_index = frame / bits_per_map_line in
    let bit_index = frame % bits_per_map_line in
    not (bit_and (get_or m.alloc_map line_index 0) (2 ^ bit_index) == 0)

pub set_bit : ℕ → Bool → BitmapMemoryManager → BitmapMemoryManager
set_bit frame allocated m =
    let line_index = frame / bits_per_map_line in
    let bit_index = frame % bits_per_map_line in
    let line = get_or m.alloc_map line_index 0 in
    record m {
      alloc_map = set m.alloc_map line_index (
          if allocated
          then bit_or line (2 ^ bit_index)
          else bit_and line (complement (2 ^ bit_index)));
    }

-- The loop of Free and of MarkAllocated, with the rounds that are left and the index `i`.
pub set_bits : Bool → ℕ → ℕ → ℕ → BitmapMemoryManager → BitmapMemoryManager
set_bits allocated start zero i m = m
set_bits allocated start (suc rounds) i m =
    set_bits allocated start rounds (i + 1) (set_bit (add64 start i) allocated m)

pub mark_allocated : ℕ → ℕ → BitmapMemoryManager → BitmapMemoryManager
mark_allocated start num_frames = set_bits true start num_frames 0

pub free : ℕ → ℕ → BitmapMemoryManager → Code × BitmapMemoryManager
free start num_frames m = (success, set_bits false start num_frames 0 m)

pub set_memory_range : ℕ → ℕ → BitmapMemoryManager → BitmapMemoryManager
set_memory_range begin end m = record m { range_begin = begin; range_end = end }

-- How the inner loop of Allocate ends: past the range, at an allocated frame, or with i ==
-- num_frames.
pub data Probe : Type 0 where
  beyond : Probe
  taken : ℕ → Probe
  fits : Probe

-- The inner loop of Allocate, with the rounds that are left and the index `i`.
pub probe : BitmapMemoryManager → ℕ → ℕ → ℕ → Probe
probe m start zero i = fits
probe m start (suc rounds) i =
    let frame = add64 start i in
    let rest = probe m start rounds (i + 1) in
    if leb m.range_end frame then beyond else if get_bit m frame then taken i else rest

-- The outer loop of Allocate. The outer `none` is fuel that ran out; the inner one kNoEnoughMemory.
pub search_from : ℕ → BitmapMemoryManager → ℕ → ℕ → Option (Option ℕ)
search_from zero m start num_frames = none
search_from (suc fuel) m start num_frames = elim (probe m start num_frames 0) [
  | beyond ↦ some none
  | taken i ↦ search_from fuel m (add64 start (i + 1)) num_frames
  | fits ↦ some (some start)
]

-- The rounds that are enough for Allocate.
abbrev pub search_fuel : BitmapMemoryManager → ℕ
search_fuel m = m.range_end - m.range_begin + 1

-- WithError<FrameID> and the changed manager
abbrev pub Allocation : Type 0
Allocation = (ℕ × Code) × BitmapMemoryManager

pub conclude : BitmapMemoryManager → ℕ → Option ℕ → Allocation
conclude m num_frames none = ((null_frame, no_enough_memory), m)
conclude m num_frames (some start) = ((start, success), mark_allocated start num_frames m)

pub allocate : ℕ → BitmapMemoryManager → Option Allocation
unfolding conclude
allocate num_frames m = elim (search_from (search_fuel m) m m.range_begin num_frames) [
  | none ↦ none
  | some found ↦ some (conclude m num_frames found)
]

pub record MemoryStat : Type 0 where
  pub allocated_frames : ℕ
  pub total_frames : ℕ

-- std::bitset<64>(line).count(), from the bit `k - 1` down
pub ones : ℕ → ℕ → ℕ
ones zero line = 0
ones (suc k) line = bit_at k line + ones k line

-- The loop of Stat, with the lines that are left and the index `i`.
pub sum_lines : List ℕ → ℕ → ℕ → ℕ
sum_lines alloc_map zero i = 0
sum_lines alloc_map (suc rounds) i =
    ones bits_per_map_line (get_or alloc_map i 0) + sum_lines alloc_map rounds (i + 1)

pub stat : BitmapMemoryManager → MemoryStat
stat m = record {
  allocated_frames =
      sum_lines m.alloc_map (m.range_end / bits_per_map_line - m.range_begin / bits_per_map_line)
        (m.range_begin / bits_per_map_line);
  total_frames = sub64 m.range_end m.range_begin;
}
