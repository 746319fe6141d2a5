-- ===== src/Usb/Alloc.antt =====
-- Kernel/usb/memory.cpp: the allocator of the USB driver, which only moves a pointer forward.
use mikan_os_x.Base.{
  ℕ, zero, suc, ◌+◌, ◌-◌, ◌*◌, ◌/◌, ◌^◌, ◌<◌, ◌≤◌, ◌≡◌, refl, ap, sym, ◌∙◌, Option, none, some,
  true, false, ltb, if◌then◌else◌, add64, sub64, bit_and, arith, dec_lt, ℕ_discrete, subst, ◌⊎◌,
  inl, inr,
}
use mikan_os_x.Base.Bits.{bit_and_step}
use native.Mathlib.Nat.{
  pow-suc, one-le-pow, div-div-eq-div-mul, div-eq_of_lt-le, mod-lt, mod-add-div', mul_assoc,
  dvd_refl, dvd_trans, dvd-mul_right_of_dvd, dvd-mul_left, pow-le-pow_right, add-mul,
}
use Prim.Native.Nat.{◌∣◌}

abbrev pub pool_size : ℕ
pool_size = 4096 * 32

-- Ceil<uintptr_t>; the alignment is not 0.
unfoldable pub ceil : ℕ → ℕ → ℕ
ceil value alignment = bit_and (sub64 (add64 value alignment) 1) (2 ^ 64 - 1 - (alignment - 1))

-- alloc_ptr after the two constraints.
unfoldable pub align : ℕ → ℕ → ℕ
align pointer alignment = if ltb 0 alignment then ceil pointer alignment else pointer

unfoldable pub avoid : ℕ → ℕ → ℕ → ℕ
avoid pointer size boundary =
    if ltb 0 boundary
    then if ltb (ceil pointer boundary) (add64 pointer size) then ceil pointer boundary else pointer
    else pointer

-- AllocMem on alloc_ptr, with the address of memory_pool: the block or nullptr, and alloc_ptr.
unfoldable pub alloc_mem : ℕ → ℕ → ℕ → ℕ → ℕ → Option ℕ × ℕ
alloc_mem pool pointer size alignment boundary =
    let start = avoid (align pointer alignment) size boundary in
    if ltb (pool + pool_size) (add64 start size)
    then (none, start)
    else (some start, add64 start size)

-- x & ~(2 ^ k - 1) at width n.
bit_and-all : (n x : ℕ) → x < 2 ^ n → bit_and x (2 ^ n - 1) ≡ x
bit_and-all zero x lt = let e : x ≡ 0 = omega arith in rw e
bit_and-all (suc n) x lt =
    let e : (2 ^ suc n - 1) / 2 ≡ 2 ^ n - 1 = omega (arith, pow-suc 2 n, one-le-pow n 2) in
    omega (
      arith,
      bit_and_step x (2 ^ suc n - 1),
      ap (bit_and (x / 2)) e,
      pow-suc 2 n,
      one-le-pow n 2,
      bit_and-all n (x / 2) (omega (arith, pow-suc 2 n)),
    )

bit_and-mask : (n k x : ℕ) → k ≤ n → x < 2 ^ n → bit_and x (2 ^ n - 2 ^ k) ≡ x / 2 ^ k * 2 ^ k
bit_and-mask n zero x h lt = omega (arith, bit_and-all n x lt)
bit_and-mask zero (suc k) x h lt = absurd (omega arith)
bit_and-mask (suc n) (suc k) x h lt =
    let e : (2 ^ suc n - 2 ^ suc k) / 2 ≡ 2 ^ n - 2 ^ k = omega (arith, pow-suc 2 n, pow-suc 2 k) in
    let d : x / 2 / 2 ^ k ≡ x / 2 ^ suc k =
      div-div-eq-div-mul x 2 (2 ^ k) ∙ ap (λ t. x / t) (omega (arith, pow-suc 2 k)) in
    omega (
      arith,
      bit_and_step x (2 ^ suc n - 2 ^ suc k),
      ap (bit_and (x / 2)) e,
      bit_and-mask n k (x / 2) (omega arith) (omega (arith, pow-suc 2 n)),
      ap (λ (t : ℕ). t * 2 ^ k * 2) d,
      pow-suc 2 n,
      pow-suc 2 k,
      mul_assoc (x / 2 ^ suc k) (2 ^ k) 2,
      ap (λ (t : ℕ). x / 2 ^ suc k * t) (pow-suc 2 k),
    )

pow_mono : (k j : ℕ) → k ≤ j → 2 ^ k ≤ 2 ^ j
pow_mono k j h = pow-le-pow_right (omega arith) {i = k} {j = j} h

pow-dvd-pow : (k j : ℕ) → k ≤ j → 2 ^ k ∣ 2 ^ j
pow-dvd-pow k zero h = let e : k ≡ 0 = omega arith in rw e (dvd_refl 1)
pow-dvd-pow k (suc j) h = elim (ℕ_discrete k (suc j)) [
  | yes e ↦ rw e (dvd_refl (2 ^ suc j))
  | no more ↦
      subst (λ t. 2 ^ k ∣ t) (sym (pow-suc 2 j))
        (dvd-mul_right_of_dvd (2 ^ k) (pow-dvd-pow k j (omega arith)) 2)
]

-- The least multiple of d from x on.
round_up : ℕ → ℕ → ℕ
round_up x d = (x + (d - 1)) / d * d

round_up-bounds : (x d : ℕ) → 0 < d → (x ≤ round_up x d) × (round_up x d < x + d)
unfolding round_up
round_up-bounds x d h = (
  omega (arith, mod-add-div' (x + (d - 1)) d, mod-lt (x + (d - 1)) h),
  omega (arith, mod-add-div' (x + (d - 1)) d, mod-lt (x + (d - 1)) h),
)

round_up-dvd : (x d : ℕ) → d ∣ round_up x d
unfolding round_up
round_up-dvd x d = dvd-mul_left d ((x + (d - 1)) / d)

ceil-round_up : (k x : ℕ) → k < 63 → x < 2 ^ 63 → ceil x (2 ^ k) ≡ round_up x (2 ^ k)
unfolding ceil round_up
ceil-round_up k x h lt =
    let small : 2 ^ k ≤ 2 ^ 63 = pow_mono k 63 (omega arith) in
    let e : sub64 (add64 x (2 ^ k)) 1 ≡ x + (2 ^ k - 1) = omega (arith, one-le-pow k 2) in
    let m : 2 ^ 64 - 1 - (2 ^ k - 1) ≡ 2 ^ 64 - 2 ^ k = omega (arith, one-le-pow k 2) in
    rw (e, m) (bit_and-mask 64 k (x + (2 ^ k - 1)) (omega arith) (omega (arith, one-le-pow k 2)))

zero_or_suc : (n : ℕ) → (n ≡ 0) ⊎ ((m : ℕ) × (n ≡ suc m))
zero_or_suc zero = inl refl
zero_or_suc (suc m) = inr (m, refl)

between_multiples : (q d y : ℕ) → q * d ≤ y → y < q * d + d → y / d ≡ q
between_multiples q d y low high = div-eq_of_lt-le d low (omega (arith, add-mul q 1 d))

-- A block that ends below the next multiple of d.
below-round_up :
    (x size d : ℕ) → 0 < d → 0 < size → x + size ≤ round_up x d → (x + size - 1) / d ≡ x / d
unfolding round_up
below-round_up x size d pos some_bytes h =
    let (above, below) = round_up-bounds x d pos in
    elim (zero_or_suc ((x + (d - 1)) / d)) [
      | inl e ↦ absurd (omega (arith, ap (λ (t : ℕ). t * d) e))
      | inr (q, e) ↦
          let r : (x + (d - 1)) / d * d ≡ q * d + d =
            ap (λ (t : ℕ). t * d) e ∙ omega (arith, add-mul q 1 d) in
          between_multiples q d (x + size - 1) (omega arith) (omega arith)
          ∙ sym (between_multiples q d x (omega arith) (omega arith))
    ]

-- A block from a multiple of d on that is no longer than d.
from-round_up :
    (x size d : ℕ) → 0 < size → size ≤ d → (round_up x d + size - 1) / d ≡ round_up x d / d
unfolding round_up
from-round_up x size d some_bytes h =
    let q = (x + (d - 1)) / d in
    between_multiples q d (q * d + size - 1) (omega arith) (omega arith)
    ∙ sym (between_multiples q d (q * d) (omega arith) (omega arith))

-- The pointer after both constraints.
IsPlaced : ℕ → ℕ → ℕ → ℕ → ℕ → Type 0
IsPlaced pointer size k j start =
    (pointer ≤ start)
    × (start < pointer + 2 ^ k + 2 ^ j)
    × (2 ^ k ∣ start)
    × ((start + size - 1) / 2 ^ j ≡ start / 2 ^ j)

avoid-IsPlaced :
    (pointer size k j : ℕ)
    → k ≤ j
    → j < 32
    → pointer < 2 ^ 60
    → 0 < size
    → size ≤ 2 ^ j
    → IsPlaced pointer size k j (avoid (align pointer (2 ^ k)) size (2 ^ j))
unfolding IsPlaced avoid align
avoid-IsPlaced pointer size k j h small low some_bytes short =
    let (p, q) = round_up-bounds pointer (2 ^ k) (one-le-pow k 2 (omega arith)) in
    let (p', q') =
      round_up-bounds (round_up pointer (2 ^ k)) (2 ^ j) (one-le-pow j 2 (omega arith)) in
    let kj : 2 ^ k ≤ 2 ^ j = pow_mono k j h in
    let jw : 2 ^ j ≤ 2 ^ 32 = pow_mono j 32 (omega arith) in
    let e : ceil pointer (2 ^ k) ≡ round_up pointer (2 ^ k) =
      ceil-round_up k pointer (omega arith) (omega arith) in
    let e' : ceil (round_up pointer (2 ^ k)) (2 ^ j) ≡ round_up (round_up pointer (2 ^ k)) (2 ^ j) =
      ceil-round_up j (round_up pointer (2 ^ k)) (omega arith) (omega arith) in
    let t : ltb 0 (2 ^ k) ≡ true = ground (arith, one-le-pow k 2) in
    let t' : ltb 0 (2 ^ j) ≡ true = ground (arith, one-le-pow j 2) in
    let d : 2 ^ k ∣ round_up pointer (2 ^ k) = round_up-dvd pointer (2 ^ k) in
    let d' : 2 ^ k ∣ round_up (round_up pointer (2 ^ k)) (2 ^ j) =
      dvd_trans (2 ^ k) (pow-dvd-pow k j h) (round_up-dvd (round_up pointer (2 ^ k)) (2 ^ j)) in
    elim (dec_lt (round_up (round_up pointer (2 ^ k)) (2 ^ j)) (round_up pointer (2 ^ k) + size)) [
      | yes over ↦
          let c : avoid (align pointer (2 ^ k)) size (2 ^ j)
              ≡ round_up (round_up pointer (2 ^ k)) (2 ^ j) =
            rw (t, t', e, e') ground arith in
          rw c (
            omega arith,
            omega arith,
            d',
            from-round_up (round_up pointer (2 ^ k)) size (2 ^ j) some_bytes short,
          )
      | no inside ↦
          let c : avoid (align pointer (2 ^ k)) size (2 ^ j) ≡ round_up pointer (2 ^ k) =
            rw (t, t', e, e') ground arith in
          rw c (
            omega arith,
            omega arith,
            d,
            below-round_up (round_up pointer (2 ^ k)) size (2 ^ j) (omega (arith, one-le-pow j 2))
                some_bytes (omega arith),
          )
    ]

-- What AllocMem may answer.
pub Outcome : ℕ → ℕ → ℕ → ℕ → ℕ → Option ℕ × ℕ → Type 0
Outcome pool pointer size k j (none, after) = pool + pool_size < pointer + 2 ^ k + 2 ^ j + size
Outcome pool pointer size k j (some start, after) =
    (2 ^ k ∣ start)
    × (pointer ≤ start)
    × (start + size ≤ pool + pool_size)
    × ((start + size - 1) / 2 ^ j ≡ start / 2 ^ j)
    × (after ≡ start + size)

-- AllocMem of `size` bytes, aligned to 2 ^ k and not across a multiple of 2 ^ j, with k ≤ j < 32,
-- 0 < size ≤ 2 ^ j and alloc_ptr in a pool below 2 ^ 59: a block that is granted is a multiple of
-- 2 ^ k, starts no lower than alloc_ptr was and ends no higher than the pool, its first and last
-- byte lie between the same multiples of 2 ^ j, and alloc_ptr is its end; nullptr is returned
-- only if alloc_ptr and the block with 2 ^ k + 2 ^ j spare bytes exceed the pool.
pub alloc_mem_lem :
    (pool pointer size k j : ℕ)
    → k ≤ j
    → j < 32
    → pool ≤ pointer
    → pointer ≤ pool + pool_size
    → pool < 2 ^ 59
    → 0 < size
    → size ≤ 2 ^ j
    → Outcome pool pointer size k j (alloc_mem pool pointer size (2 ^ k) (2 ^ j))
unfolding alloc_mem Outcome IsPlaced
alloc_mem_lem pool pointer size k j h small low high far some_bytes short =
    let start = avoid (align pointer (2 ^ k)) size (2 ^ j) in
    let kj : 2 ^ k ≤ 2 ^ j = pow_mono k j h in
    let jw : 2 ^ j ≤ 2 ^ 32 = pow_mono j 32 (omega arith) in
    let (above, near, aligned, inside) =
      avoid-IsPlaced pointer size k j h small (omega arith) some_bytes short in
    elim (dec_lt (pool + pool_size) (start + size)) [
      | yes over ↦
          let c : ltb (pool + pool_size) (add64 start size) ≡ true = ground arith in
          rw c (omega arith)
      | no fine ↦
          let c : ltb (pool + pool_size) (add64 start size) ≡ false = ground arith in
          rw c (aligned, above, omega arith, inside, omega arith)
    ]
