-- ===== src/Memory/Bitmap.antt =====
-- GetBit after SetBit: the words of the bitmap as a set of frames.
use mathlib.Core.Bool.{not}
use native.Mathlib.Nat.{one-le-pow, pow-suc}
use mikan_os_x.Base.{
  ℕ, zero, suc, ◌*◌, ◌/◌, ◌%◌, ◌^◌, ◌<◌, ◌≡◌, Bool, true, false, arith, get_or, length, length-set,
  bit_and, bit_or, ◌==◌, if◌then◌else◌, ℕ_discrete, sym, get_or-set_self, get_or-set_ne,
}
use mikan_os_x.Base.Bits.{
  bit_at, bit_at-le, bit_at-bit_or, bit_at-bit_and, bit_at-pow_self, bit_at-pow_ne,
  bit_at-complement, bit_and-pow_eq_zero, bit_and-pow_ne_zero,
}
use mikan_os_x.Memory.{BitmapMemoryManager, get_bit, set_bit, complement}

-- The frames that the bitmap has a bit for.
abbrev pub InMap : BitmapMemoryManager → ℕ → Type 0
InMap m f = f < 64 * length m.alloc_map

pow-lt : (b n : ℕ) → b < n → 2 ^ b < 2 ^ n
pow-lt zero zero h = absurd (omega arith)
pow-lt (suc b) zero h = absurd (omega arith)
pow-lt zero (suc n) h = omega (arith, pow-suc 2 n, one-le-pow n 2)
pow-lt (suc b) (suc n) h = omega (arith, pow-suc 2 n, pow-suc 2 b, pow-lt b n (omega arith))

is_one : ℕ → Bool
is_one b = b == 1

mask-is_one : (k w : ℕ) → not (bit_and w (2 ^ k) == 0) ≡ is_one (bit_at k w)
unfolding is_one
mask-is_one k w = elim (ℕ_discrete (bit_at k w) 0) [
  | yes e ↦ ground (arith, bit_and-pow_eq_zero k w e)
  | no ne ↦ ground (arith, bit_at-le k w, bit_and-pow_ne_zero k w (omega (arith, bit_at-le k w)))
]

get_bit_lem :
    (m : BitmapMemoryManager) (f : ℕ)
    → get_bit m f ≡ is_one (bit_at (f % 64) (get_or m.alloc_map (f / 64) 0))
unfolding get_bit
get_bit_lem m f = mask-is_one (f % 64) (get_or m.alloc_map (f / 64) 0)

-- The word that SetBit writes.
updated : ℕ → ℕ → Bool → ℕ
updated k w allocated = if allocated then bit_or w (2 ^ k) else bit_and w (complement (2 ^ k))

bit_at-updated :
    (k j w : ℕ) (allocated : Bool)
    → k < 64
    → j < 64
    → is_one (bit_at j (updated k w allocated))
      ≡ (if k == j then allocated else is_one (bit_at j w))
unfolding updated is_one
bit_at-updated k j w true hk hj = elim (ℕ_discrete k j) [
  | yes e ↦ rw (← e, bit_at-bit_or k w (2 ^ k), bit_at-pow_self k) (ground (arith, bit_at-le k w))
  | no ne ↦
      rw (bit_at-bit_or j w (2 ^ k), bit_at-pow_ne j k (λ e. ne (sym e)))
        (ground (arith, bit_at-le j w))
]
bit_at-updated k j w false hk hj = elim (ℕ_discrete k j) [
  | yes e ↦ ground (
    arith,
    bit_at-bit_and j w (complement (2 ^ k)),
    bit_at-complement 64 j (2 ^ k) hj (pow-lt k 64 hk),
    bit_at-pow_self k,
    bit_at-le j w,
  )
  | no ne ↦ ground (
    arith,
    bit_at-bit_and j w (complement (2 ^ k)),
    bit_at-complement 64 j (2 ^ k) hj (pow-lt k 64 hk),
    bit_at-pow_ne j k (λ e. ne (sym e)),
    bit_at-le j w,
  )
]

-- After SetBit(f) a frame reads as set, and every other frame as before.
pub get_bit-set_bit :
    (m : BitmapMemoryManager) (f g : ℕ) (allocated : Bool)
    → InMap m f
    → get_bit (set_bit f allocated m) g ≡ (if f == g then allocated else get_bit m g)
unfolding set_bit updated
get_bit-set_bit m f g allocated h = elim (ℕ_discrete (f / 64) (g / 64)) [
  | yes e ↦ ground (
    arith,
    get_bit_lem (set_bit f allocated m) g,
    get_bit_lem m g,
    get_or-set_self m.alloc_map (f / 64)
        (updated (f % 64) (get_or m.alloc_map (f / 64) 0) allocated) 0 (omega arith),
    bit_at-updated (f % 64) (g % 64) (get_or m.alloc_map (f / 64) 0) allocated (omega arith)
        (omega arith),
  )
  | no ne ↦ ground (
    arith,
    get_bit_lem (set_bit f allocated m) g,
    get_bit_lem m g,
    get_or-set_ne m.alloc_map (f / 64) (g / 64)
        (updated (f % 64) (get_or m.alloc_map (f / 64) 0) allocated) 0 ne,
  )
]

pub length-set_bit :
    (m : BitmapMemoryManager) (f : ℕ) (allocated : Bool)
    → length (set_bit f allocated m).alloc_map ≡ length m.alloc_map
unfolding set_bit
length-set_bit m f allocated = length-set m.alloc_map _ _
