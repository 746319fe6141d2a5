-- ===== src/Acpi.antt =====
-- The tables of the firmware, Kernel/acpi.hpp and Kernel/acpi.cpp: their checksums and the search
-- for the FADT.
use mikan_os_x.Base.{
  ℕ, zero, suc, ◌+◌, ◌-◌, ◌*◌, ◌/◌, ◌%◌, ◌^◌, Bool, true, false, not, ◌&&◌, ◌==◌, if◌then◌else◌,
  List, [], ◌∷◌, Option, none, some, add64, sub64,
}
pub mod Checksum
pub mod Search
mod Tests

-- The bytes of the memory, by address.
abbrev pub Bytes : Type 0
Bytes = ℕ → ℕ

-- The loop of SumBytes, at address `at` with `sum` so far; a uint8_t wraps around.
unfoldable pub sum_loop : (rounds at : ℕ) → Bytes → ℕ → ℕ
sum_loop zero at m sum = sum
sum_loop (suc rounds) at m sum = sum_loop rounds (suc at) m ((sum + m at) % 2 ^ 8)

unfoldable pub sum_bytes : Bytes → ℕ → ℕ → ℕ
sum_bytes m at bytes = sum_loop bytes at m 0

-- A field of n bytes at an address, the lowest byte first.
unfoldable pub field : (n at : ℕ) → Bytes → ℕ
field zero at m = 0
field (suc n) at m = m at + 2 ^ 8 * field n (suc at) m

-- strncmp with a literal of as many characters as are compared, none of them 0.
unfoldable pub has_signature : List ℕ → ℕ → Bytes → Bool
has_signature [] at m = true
has_signature (c ∷ cs) at m = (m at == c) && has_signature cs (suc at) m

abbrev pub rsd_ptr : List ℕ
rsd_ptr = 82 ∷ 83 ∷ 68 ∷ 32 ∷ 80 ∷ 84 ∷ 82 ∷ 32 ∷ []

-- RSDP::IsValid
unfoldable pub rsdp_is_valid : ℕ → Bytes → Bool
rsdp_is_valid at m =
    if not (has_signature rsd_ptr at m)
    then false
    else if not (m (at + 15) == 2)
    then false
    else if not (sum_bytes m at 20 == 0)
    then false
    else sum_bytes m at 36 == 0

abbrev pub xsdt_address : ℕ → Bytes → ℕ
xsdt_address at m = field 8 (at + 24) m

-- The field `length` of a DescriptionHeader
unfoldable pub table_length : ℕ → Bytes → ℕ
table_length at m = field 4 (at + 4) m

-- DescriptionHeader::IsValid
unfoldable pub is_valid : List ℕ → ℕ → Bytes → Bool
is_valid expected_signature at m =
    if not (has_signature expected_signature at m)
    then false
    else sum_bytes m at (table_length at m) == 0

-- XSDT::operator[]: the address of the table that entry i points to
unfoldable pub entry : Bytes → ℕ → ℕ → ℕ
entry m xsdt i = field 8 (add64 xsdt (36 + 8 * i)) m

-- XSDT::Count; a length below 36 wraps around
unfoldable pub count : Bytes → ℕ → ℕ
count m xsdt = sub64 (table_length xsdt m) 36 / 8

abbrev pub xsdt_signature : List ℕ
xsdt_signature = 88 ∷ 83 ∷ 68 ∷ 84 ∷ []

abbrev pub facp : List ℕ
facp = 70 ∷ 65 ∷ 67 ∷ 80 ∷ []

-- The loop of Initialize from entry i on: `fadt`, 0 for a null pointer. From a length of 36 on
-- there are fewer than 2 ^ 29 entries, so that `i`, an int, does not overflow.
unfoldable pub find_fadt : (rounds i : ℕ) → Bytes → ℕ → ℕ
find_fadt zero i m xsdt = 0
find_fadt (suc rounds) i m xsdt =
    let rest = find_fadt rounds (suc i) m xsdt in
    if is_valid facp (entry m xsdt i) m then entry m xsdt i else rest

-- Initialize: the address of the FADT, and no result where it ends the kernel by exit(1)
unfoldable pub initialize : ℕ → Bytes → Option ℕ
initialize rsdp m =
    let xsdt = xsdt_address rsdp m in
    let fadt = find_fadt (count m xsdt) 0 m xsdt in
    if not (rsdp_is_valid rsdp m)
    then none
    else if not (is_valid xsdt_signature xsdt m)
    then none
    else if fadt == 0
    then none
    else some fadt
