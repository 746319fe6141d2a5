-- ===== src/Paging/Address.antt =====
-- LinearAddress4Level of Kernel/paging.hpp: the number of a page, and the address of the next
-- entry.
use mikan_os_x.Base.{ℕ, zero, suc, ◌+◌, ◌*◌, ◌/◌, ◌%◌, ◌^◌, ◌<◌, ◌≤◌, ◌≡◌, subst, arith}
use mikan_os_x.Paging.{LinearAddress, part, set_part, clear_below, next_entry}
use native.Mathlib.Nat.{pow-suc, div-eq_of_lt-le, mod-add-div', add-mul, mul-le-mul_right}

-- The number of a page among those that a table of a level covers, 512 to the power of the level.
abbrev pub page_number : ℕ → LinearAddress → ℕ
page_number zero a = 0
page_number (suc level) a = part (suc level) a * 512 ^ level + page_number level a

-- Each index has 9 bits.
pub record IsAddress (a : LinearAddress) : Type 0 where
  pub page_lt : a.page < 512
  pub dir_lt : a.dir < 512
  pub pdp_lt : a.pdp < 512
  pub pml4_lt : a.pml4 < 512

pub part-lt : (level : ℕ) (a : LinearAddress) → level < 4 → IsAddress a → part (suc level) a < 512
unfolding part
part-lt zero a h ok = ok.page_lt
part-lt (suc zero) a h ok = ok.dir_lt
part-lt (suc (suc zero)) a h ok = ok.pdp_lt
part-lt (suc (suc (suc zero))) a h ok = ok.pml4_lt
part-lt (suc (suc (suc (suc level)))) a h ok = omega arith

-- A digit over 512 and the rest below it.
digit-lt : (i r w : ℕ) → i < 512 → r < w → i * w + r < 512 * w
digit-lt i r w h low = omega (arith, mul-le-mul_right {m = i} {n = 511} w (omega arith))

pub digit-split : (i w p : ℕ) → i * w ≤ p → p < i * w + w → (p / w ≡ i) × (i * w + p % w ≡ p)
digit-split i w p low high =
    let d : p / w ≡ i = div-eq_of_lt-le {k = i} w {m = p} low (omega (arith, add-mul i 1 w)) in
    let e : p % w + i * w ≡ p = subst (λ q. p % w + q * w ≡ p) d (mod-add-div' p w) in
    (d, omega (arith, e))

pub page_number-lt :
    (level : ℕ) (a : LinearAddress) → level ≤ 4 → IsAddress a → page_number level a < 512 ^ level
page_number-lt zero a h ok = omega arith
page_number-lt (suc level) a h ok =
    let low = page_number-lt level a (omega arith) ok in
    let here = part-lt level a (omega arith) ok in
    omega (
      arith,
      digit-lt (part (suc level) a) (page_number level a) (512 ^ level) here low,
      pow-suc 512 level,
    )

-- The address of the next entry.
pub next_entry_lem :
    (level i : ℕ) (a : LinearAddress)
    → level < 4
    → i < 511
    → IsAddress a
    → (part (suc level) (next_entry (suc level) i a) ≡ i + 1)
      × (page_number level (next_entry (suc level) i a) ≡ 0)
      × IsAddress (next_entry (suc level) i a)
unfolding next_entry clear_below set_part part
next_entry_lem zero i a h lt ok = omega arith
next_entry_lem (suc zero) i a h lt ok = omega arith
next_entry_lem (suc (suc zero)) i a h lt ok = omega arith
next_entry_lem (suc (suc (suc zero))) i a h lt ok = omega arith
next_entry_lem (suc (suc (suc (suc level)))) i a h lt ok = absurd (omega arith)
