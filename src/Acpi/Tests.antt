-- ===== src/Acpi/Tests.antt =====
-- A firmware's tables: the RSDP at 0, the XSDT at 64 with one entry, the FADT at 128.
use mikan_os_x.Base.{
  ℕ, ◌^◌, ◌<◌, ◌≡◌, ◌==◌, if◌then◌else◌, refl, List, [], ◌∷◌, some, false, true, arith, inr,
}
use mikan_os_x.Acpi.{
  Bytes, initialize, is_valid, facp, xsdt_address, table_length, field, sum_bytes, sum_loop,
  has_signature, rsdp_is_valid, entry, count, find_fadt,
}
use mikan_os_x.Acpi.Checksum.{changed, is_valid-changed}
use mikan_os_x.Acpi.Search.{Finds, initialize-Finds}

-- The bytes that are not 0, with their addresses.
abbrev written : List (ℕ × ℕ)
written =
    (0, 82)
    ∷ (1, 83)
    ∷ (2, 68)
    ∷ (3, 32)
    ∷ (4, 80)
    ∷ (5, 84)
    ∷ (6, 82)
    ∷ (7, 32)
    ∷ (8, 223)
    ∷ (15, 2)
    ∷ (24, 64)
    ∷ (32, 192)
    ∷ (64, 88)
    ∷ (65, 83)
    ∷ (66, 68)
    ∷ (67, 84)
    ∷ (68, 44)
    ∷ (73, 17)
    ∷ (100, 128)
    ∷ (128, 70)
    ∷ (129, 65)
    ∷ (130, 67)
    ∷ (131, 80)
    ∷ (132, 40)
    ∷ (137, 190)
    ∷ []

abbrev memory_of : List (ℕ × ℕ) → Bytes
memory_of [] a = 0
memory_of ((at, v) ∷ more) a = let rest = memory_of more a in if a == at then v else rest

abbrev firmware : Bytes
firmware = memory_of written

bytes_lem : (a : ℕ) → firmware a < 2 ^ 8
bytes_lem a = ground arith

finds_fadt : initialize 0 firmware ≡ some 128
unfolding initialize find_fadt count entry is_valid table_length rsdp_is_valid has_signature field
    sum_bytes sum_loop
finds_fadt = refl

valid_fadt : is_valid facp 128 firmware ≡ true
unfolding is_valid table_length has_signature field sum_bytes sum_loop
valid_fadt = refl

fadt_length : table_length 128 firmware ≡ 40
unfolding table_length field
fadt_length = refl

xsdt_length : table_length (xsdt_address 0 firmware) firmware ≡ 44
unfolding table_length field
xsdt_length = refl

initialize-Finds_example : Finds 0 firmware (initialize 0 firmware)
initialize-Finds_example = initialize-Finds 0 firmware bytes_lem (omega (arith, xsdt_length))

is_valid-changed_example : is_valid facp 128 (changed 160 7 firmware) ≡ false
is_valid-changed_example =
    is_valid-changed facp 128 160 7 firmware valid_fadt (omega arith) (omega (arith, fadt_length))
      (inr (omega arith)) (omega arith) (omega arith) (ground arith)
