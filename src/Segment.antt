-- ===== src/Segment.antt =====
-- Kernel/segment.hpp and segment.cpp: the descriptors of the GDT, and the task state segment (TSS)
-- with the stacks of the interrupts.
use mikan_os_x.Base.{
  ℕ, ◌+◌, ◌*◌, ◌/◌, ◌%◌, ◌^◌, ◌==◌, if◌then◌else◌, List, [], ◌∷◌, set, replicate, Option, none,
  some, add64, mul64, word32,
}
use mikan_os_x.Base.Fault.{Code, success}
use mikan_os_x.Memory.{BitmapMemoryManager, Allocation, allocate, bytes_per_frame}
pub mod Fields
pub mod Stacks
mod Tests

-- One step after another, where the first one may end the kernel.
infixr 1 ◌>>=◌
abbrev pub ◌>>=◌ : {A B : Type 0} → Option A → (A → Option B) → Option B
none >>= next = none
some a >>= next = next a

-- SegmentDescriptor::bits
pub record Segment : Type 0 where
  pub limit_low : ℕ
  pub base_low : ℕ
  pub base_middle : ℕ
  pub descriptor_type : ℕ
  pub system_segment : ℕ
  pub descriptor_privilege_level : ℕ
  pub present : ℕ
  pub limit_high : ℕ
  pub available : ℕ
  pub long_mode : ℕ
  pub default_operation_size : ℕ
  pub granularity : ℕ
  pub base_high : ℕ

-- SegmentDescriptor::data, with the fields from the lowest bit on
unfoldable pub to_data : Segment → ℕ
to_data s =
    s.limit_low
    + 2 ^ 16
      * (s.base_low
          + 2 ^ 16
            * (s.base_middle
                + 2 ^ 8
                  * (s.descriptor_type
                      + 2 ^ 4
                        * (s.system_segment
                            + 2
                              * (s.descriptor_privilege_level
                                  + 2 ^ 2
                                    * (s.present
                                        + 2
                                          * (s.limit_high
                                              + 2 ^ 4
                                                * (s.available
                                                    + 2
                                                      * (s.long_mode
                                                          + 2
                                                            * (s.default_operation_size
                                                            + 2
                                                            * (s.granularity
                                                            + 2 * s.base_high)))))))))))

-- DescriptorType
abbrev pub tss_available : ℕ
tss_available = 9

abbrev pub read_write : ℕ
read_write = 2

abbrev pub execute_read : ℕ
execute_read = 10

-- SetCodeSegment; a field keeps the low bits of what is written to it.
unfoldable pub set_code_segment : (descriptor_type privilege base limit : ℕ) → Segment
set_code_segment descriptor_type privilege base limit = record {
  limit_low = limit % 2 ^ 16;
  base_low = base % 2 ^ 16;
  base_middle = base / 2 ^ 16 % 2 ^ 8;
  descriptor_type = descriptor_type % 2 ^ 4;
  system_segment = 1;
  descriptor_privilege_level = privilege % 2 ^ 2;
  present = 1;
  limit_high = limit / 2 ^ 16 % 2 ^ 4;
  available = 0;
  long_mode = 1;
  default_operation_size = 0;
  granularity = 1;
  base_high = base / 2 ^ 24 % 2 ^ 8;
}

unfoldable pub set_data_segment : (descriptor_type privilege base limit : ℕ) → Segment
set_data_segment descriptor_type privilege base limit =
    record (set_code_segment descriptor_type privilege base limit) {
      long_mode = 0;
      default_operation_size = 1;
    }

unfoldable pub set_system_segment : (descriptor_type privilege base limit : ℕ) → Segment
set_system_segment descriptor_type privilege base limit =
    record (set_code_segment descriptor_type privilege base limit) {
      system_segment = 0;
      long_mode = 0;
    }

-- `gdt`, by the data of its 7 descriptors, after SetupSegments; LoadGDT and the segment registers
-- are the processor's.
unfoldable pub setup_segments : List ℕ → List ℕ
setup_segments gdt =
    let first = set gdt 0 0 in
    let second = set first 1 (to_data (set_code_segment execute_read 0 0 0xfffff)) in
    let third = set second 2 (to_data (set_data_segment read_write 0 0 0xfffff)) in
    let fourth = set third 3 (to_data (set_data_segment read_write 3 0 0xfffff)) in
    set fourth 4 (to_data (set_code_segment execute_read 3 0 0xfffff))

-- SetTSS on the 32-bit words of the TSS
unfoldable pub set_tss : ℕ → ℕ → List ℕ → List ℕ
set_tss index value tss = set (set tss index (value % 2 ^ 32)) (index + 1) (word32 (value / 2 ^ 32))

-- AllocateStackArea: the end of the stack; no result where it ends the kernel by exit(1).
unfoldable pub stack_end : ℕ → Option Allocation → Option (ℕ × BitmapMemoryManager)
stack_end num_4kframes none = none
stack_end num_4kframes (some ((stk, success), m)) =
    some (add64 (mul64 stk bytes_per_frame) (num_4kframes * 4096), m)
stack_end num_4kframes (some ((stk, _), m)) = none

unfoldable pub allocate_stack_area : ℕ → BitmapMemoryManager → Option (ℕ × BitmapMemoryManager)
allocate_stack_area num_4kframes m = stack_end num_4kframes (allocate num_4kframes m)

abbrev pub ist_for_timer : ℕ
ist_for_timer = 1

-- kTSS >> 3
abbrev pub tss_index : ℕ
tss_index = 5

-- What InitializeTSS changes.
pub record Tables : Type 0 where
  pub gdt : List ℕ
  pub tss : List ℕ
  pub manager : BitmapMemoryManager

-- The descriptor of the TSS at `tss_addr`, in two entries of the GDT; its size is 26 * 4 bytes.
unfoldable pub set_tss_descriptor : ℕ → List ℕ → List ℕ
set_tss_descriptor tss_addr gdt =
    set (set gdt tss_index (to_data (set_system_segment tss_available 0 (tss_addr % 2 ^ 32) 103)))
      (tss_index + 1) (tss_addr / 2 ^ 32)

-- InitializeTSS, with the TSS at `tss_addr`; LoadTR is the processor's.
unfoldable pub initialize_tss : ℕ → Tables → Option Tables
initialize_tss tss_addr t = do
  (rsp0, m1) ← allocate_stack_area 8 t.manager
  (ist, m2) ← allocate_stack_area 8 m1
  some (record {
    gdt = set_tss_descriptor tss_addr t.gdt;
    tss = set_tss (7 + 2 * ist_for_timer) ist (set_tss 1 rsp0 t.tss);
    manager = m2;
  })
