-- ===== src/Usb/Ring.antt =====
-- Kernel/usb/xhci/ring.hpp and ring.cpp: the producer's side of a command or transfer ring. The
-- memory of a ring is a list of TRBs.
pub mod Cycle
use mikan_os_x.Base.{
  ℕ, zero, suc, ◌+◌, ◌-◌, ◌*◌, ◌/◌, ◌%◌, ◌^◌, ◌<◌, ◌≤◌, ◌≡◌, refl, ap, ◌∙◌, max, Option, none, some,
  Bool, true, false, not, ltb, ◌==◌, if◌then◌else◌, List, [], ◌∷◌, length, set, get_or, replicate,
  length-set, length-replicate, get_or-set_self, get_or-set_ne, add64, sub64, bit_and, bit_or,
  arith, ℕ_discrete,
}
use mikan_os_x.Base.{◌≢◌}
use mikan_os_x.Base.Bits.{bit_at-low, bit_at, bit_at-bit_or, bit_at-bit_and}
use mikan_os_x.Base.Fault.{Code, success, no_enough_memory}
use mikan_os_x.Usb.Alloc.{alloc_mem}

-- std::array<uint32_t, 4>
pub record Trb : Type 0 where
  pub data0 : ℕ
  pub data1 : ℕ
  pub data2 : ℕ
  pub data3 : ℕ

abbrev pub zero_trb : Trb
zero_trb = record { data0 = 0; data1 = 0; data2 = 0; data3 = 0 }

-- `buf` is what lies at `address`, the pointer buf_.
pub record Ring : Type 0 where
  pub address : ℕ
  pub buf : List Trb
  pub buf_size : ℕ
  pub cycle_bit : Bool
  pub write_index : ℕ

abbrev pub bit : Bool → ℕ
bit true = 1
bit false = 0

-- Initialize, with the pool and alloc_ptr of AllocMem. A TRB has 16 bytes.
unfoldable pub initialize : ℕ → ℕ → ℕ → Ring → (Code × Ring) × ℕ
initialize pool pointer size ring = granted (alloc_mem pool pointer (16 * size) 64 (64 * 1024))
  where
    granted : Option ℕ × ℕ → (Code × Ring) × ℕ
    granted (none, after) = (
      (
        no_enough_memory,
        record { address = 0; buf = []; buf_size = size; cycle_bit = true; write_index = 0 },
      ),
      after,
    )
    granted (some address, after) = (
      (
        success,
        record {
          address = address;
          buf = replicate size zero_trb;
          buf_size = size;
          cycle_bit = true;
          write_index = 0;
        },
      ),
      after,
    )

-- (data[3] & 0xfffffffeu) | static_cast<uint32_t>(cycle_bit_)
unfoldable pub with_cycle : Bool → Trb → Trb
with_cycle cycle trb = record trb { data3 = bit_or (bit_and trb.data3 (2 ^ 32 - 2)) (bit cycle) }

unfoldable pub copy_to_last : Trb → Ring → Ring
copy_to_last trb ring = record ring {
  buf = set ring.buf ring.write_index (with_cycle ring.cycle_bit trb);
}

-- LinkTRB{buf_} with toggle_cycle: the pointer without its low four bits, type 6 from bit 10 on.
unfoldable pub link_trb : ℕ → Trb
link_trb address = record {
  data0 = address / 16 * 16 % 2 ^ 32;
  data1 = address / 2 ^ 32 % 2 ^ 32;
  data2 = 0;
  data3 = 6 * 2 ^ 10 + 2;
}

unfoldable pub close_lap : Ring → Ring
close_lap ring =
    if ring.write_index == sub64 ring.buf_size 1
    then record (copy_to_last (link_trb ring.address) ring) {
      write_index = 0;
      cycle_bit = not ring.cycle_bit;
    }
    else ring

-- Push: the index of the TRB that it returns a pointer to, and the ring.
unfoldable pub push : Trb → Ring → ℕ × Ring
push trb ring =
    let written = copy_to_last trb ring in
    (ring.write_index, close_lap (record written { write_index = add64 ring.write_index 1 }))
