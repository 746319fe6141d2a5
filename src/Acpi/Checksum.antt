-- ===== src/Acpi/Checksum.antt =====
-- What the checksums of Kernel/acpi.cpp detect.
use mikan_os_x.Base.{
  ℕ, zero, suc, ◌+◌, ◌%◌, ◌^◌, ◌≤◌, ◌<◌, ◌≡◌, ◌≢◌, ◌⊎◌, inl, inr, refl, true, false, ◌==◌,
  if◌then◌else◌, List, arith, Bool-cases,
}
use mikan_os_x.Acpi.{Bytes, sum_loop, sum_bytes, field, table_length, is_valid}

-- The memory with one byte changed.
abbrev pub changed : ℕ → ℕ → Bytes → Bytes
changed p v m a = if a == p then v else m a

-- The sum of the bytes, with no wrap-around.
unfoldable pub total : (n at : ℕ) → Bytes → ℕ
total zero at m = 0
total (suc n) at m = m at + total n (suc at) m

sum_loop-total :
    (rounds at sum : ℕ) (m : Bytes)
    → sum < 2 ^ 8
    → sum_loop rounds at m sum ≡ (sum + total rounds at m) % 2 ^ 8
unfolding sum_loop total
sum_loop-total zero at sum m h = omega arith
sum_loop-total (suc rounds) at sum m h =
    let rest = sum_loop-total rounds (suc at) ((sum + m at) % 2 ^ 8) m (omega arith) in
    omega (arith, rest)

-- SumBytes is the sum of the bytes modulo 256.
pub sum_bytes-total : (m : Bytes) (at n : ℕ) → sum_bytes m at n ≡ total n at m % 2 ^ 8
unfolding sum_bytes
sum_bytes-total m at n = omega (arith, sum_loop-total n at 0 m (omega arith))

total-outside : (n at p v : ℕ) (m : Bytes) → p < at → total n at (changed p v m) ≡ total n at m
unfolding total
total-outside zero at p v m h = refl
total-outside (suc n) at p v m h =
    let rest = total-outside n (suc at) p v m (omega arith) in ground (arith, rest)

total-changed :
    (n at p v : ℕ) (m : Bytes)
    → at ≤ p
    → p < at + n
    → total n at (changed p v m) + m p ≡ total n at m + v
unfolding total
total-changed zero at p v m l h = absurd (omega arith)
total-changed (suc n) at p v m l h = elim (Bool-cases (at == p)) [
  | inl here ↦
      let e : at ≡ p = ground (arith, here) in
      let rest = total-outside n (suc at) p v m (omega arith) in rw (here, rest, e) (omega arith)
  | inr later ↦
      let rest = total-changed n (suc at) p v m (ground (arith, later)) (omega arith) in
      rw later (omega (arith, rest))
]

field-outside :
    (n at p v : ℕ) (m : Bytes) → (p < at) ⊎ (at + n ≤ p) → field n at (changed p v m) ≡ field n at m
unfolding field
field-outside zero at p v m h = refl
field-outside (suc n) at p v m h =
    let rest = field-outside n (suc at) p v m (ground arith) in
    let off : (at == p) ≡ false = ground arith in rw (off, rest) refl

-- A valid table in which one byte is changed to another value is not valid any more, wherever in
-- the table the byte is, the field `length` excepted.
pub is_valid-changed :
    (expected_signature : List ℕ) (at p v : ℕ) (m : Bytes)
    → is_valid expected_signature at m ≡ true
    → at ≤ p
    → p < at + table_length at m
    → (p < at + 4) ⊎ (at + 8 ≤ p)
    → m p < 2 ^ 8
    → v < 2 ^ 8
    → v ≢ m p
    → is_valid expected_signature at (changed p v m) ≡ false
unfolding is_valid table_length
is_valid-changed expected_signature at p v m valid from to off old new other =
    let n = table_length at m in
    let len = field-outside 4 (at + 4) p v m (ground arith) in
    let before = sum_bytes-total m at n in
    let after = sum_bytes-total (changed p v m) at n in
    let moved = total-changed n at p v m from to in
    let sums : sum_bytes m at n ≡ 0 = ground (arith, valid) in
    let bad : sum_bytes (changed p v m) at n ≢ 0 = omega (arith, before, after, moved, sums) in
    rw len (ground (arith, bad))
