-- ===== src/Base/Bits.antt =====
-- Single bits of a word under `&`, `|` and `~`, at every position.
use Prim.Native.Nat.{digits, bitwise, bit_and-bitwise, bit_or-bitwise, bit_xor-bitwise, differ}
use Prim.Native.Nat.{ℕ, zero, suc, ◌+◌, ◌-◌, ◌*◌, ◌/◌, ◌%◌, ◌^◌, ◌≤◌, ◌<◌, min, max}
use Prim.Native.Nat.{bit_and, bit_or, bit_xor}
use mathlib.Core.Path.{subst, ◌≡◌, refl, ap}
use mathlib.Core.Logic.{◌≢◌}
use mathlib.Core.WellFounded
use native.Mathlib.Omega.{arith}
use native.Mathlib.Decide.{dec_lt, ℕ_discrete}
use mathlib.Core.Path.{sym, ◌∙◌}
use native.Mathlib.Nat.{pow-suc, one-le-pow, mul_assoc, div-div-eq-div-mul, mod-add-div'}
use mikan_os_x.Base.Order.{lt_wf}

-- `digits` takes one from its fuel for each digit; the first number itself is fuel enough.
module _ (rest : ℕ → ℕ) (op : ℕ → ℕ → ℕ) where
  spare_fuel : (fuel x y : ℕ) → x ≤ fuel → digits rest op (suc fuel) x y ≡ digits rest op fuel x y
  spare_fuel (suc fuel) (suc x) y h =
      ap (λ t. t * 2 + op (suc x % 2) (y % 2)) (spare_fuel fuel (suc x / 2) (y / 2) (omega arith))
  spare_fuel (suc fuel) zero y h = refl
  spare_fuel zero x y h = let none_left : x ≡ 0 = omega arith in rw none_left

  enough_fuel : (fuel x y : ℕ) → x ≤ fuel → digits rest op fuel x y ≡ bitwise rest op x y
  enough_fuel zero x y h = let none_left : x ≡ 0 = omega arith in rw none_left
  enough_fuel (suc fuel) x y h = elim (ℕ_discrete x (suc fuel)) [
    | yes all ↦ rw all
    | no spare ↦ spare_fuel fuel x y (omega arith) ∙ enough_fuel fuel x y (omega arith)
  ]

  -- The lowest digit of a result, and the result for the digits above it.
  lowest_digit :
      (x y : ℕ)
      → 0 < x
      → bitwise rest op x y ≡ bitwise rest op (x / 2) (y / 2) * 2 + op (x % 2) (y % 2)
  lowest_digit zero y h = elim h [ ]
  lowest_digit (suc x) y h =
      ap (λ t. t * 2 + op (suc x % 2) (y % 2)) (enough_fuel x (suc x / 2) (y / 2) (omega arith))

bit_or_step : (x y : ℕ) → bit_or x y ≡ bit_or (x / 2) (y / 2) * 2 + max (x % 2) (y % 2)
bit_or_step x y = elim (dec_lt 0 x) [
  | yes pos ↦
      bit_or-bitwise x y
      ∙ lowest_digit (λ b. b) max x y pos
      ∙ ap (λ t. t * 2 + max (x % 2) (y % 2)) (sym (bit_or-bitwise (x / 2) (y / 2)))
  | no zero_x ↦
      let e : x ≡ 0 = omega arith in
      rw e (omega (arith, bit_or-bitwise 0 y, bit_or-bitwise 0 (y / 2)))
]

pub bit_and_step : (x y : ℕ) → bit_and x y ≡ bit_and (x / 2) (y / 2) * 2 + min (x % 2) (y % 2)
bit_and_step x y = elim (dec_lt 0 x) [
  | yes pos ↦
      bit_and-bitwise x y
      ∙ lowest_digit (λ b. 0) min x y pos
      ∙ ap (λ t. t * 2 + min (x % 2) (y % 2)) (sym (bit_and-bitwise (x / 2) (y / 2)))
  | no zero_x ↦
      let e : x ≡ 0 = omega arith in
      rw e (omega (arith, bit_and-bitwise 0 y, bit_and-bitwise 0 (y / 2)))
]

differ-bits : (a b : ℕ) → a ≤ 1 → b ≤ 1 → differ a b ≡ (a + b) % 2
differ-bits zero b p q = omega arith
differ-bits (suc zero) zero p q = refl
differ-bits (suc zero) (suc zero) p q = refl
differ-bits (suc zero) (suc (suc b)) p q = absurd (omega arith)
differ-bits (suc (suc a)) b p q = absurd (omega arith)

bit_xor_step : (x y : ℕ) → bit_xor x y ≡ bit_xor (x / 2) (y / 2) * 2 + (x + y) % 2
bit_xor_step x y = elim (dec_lt 0 x) [
  | yes pos ↦
      let low : differ (x % 2) (y % 2) ≡ (x + y) % 2 =
        omega (arith, differ-bits (x % 2) (y % 2) (omega arith) (omega arith)) in
      bit_xor-bitwise x y
      ∙ lowest_digit (λ b. b) differ x y pos
      ∙ ap (λ t. t * 2 + differ (x % 2) (y % 2)) (sym (bit_xor-bitwise (x / 2) (y / 2)))
      ∙ ap (λ t. bit_xor (x / 2) (y / 2) * 2 + t) low
  | no zero_x ↦
      let e : x ≡ 0 = omega arith in
      rw e (omega (arith, bit_xor-bitwise 0 y, bit_xor-bitwise 0 (y / 2)))
]

div-pow-suc : (i a : ℕ) → a / 2 ^ suc i ≡ a / 2 / 2 ^ i
div-pow-suc i a =
    ap (λ t. a / t) (omega (arith, pow-suc 2 i)) ∙ sym (div-div-eq-div-mul a 2 (2 ^ i))

-- A bit of an exclusive or.
pub bit_xor-bit : (i a b : ℕ) → bit_xor a b / 2 ^ i % 2 ≡ (a / 2 ^ i % 2 + b / 2 ^ i % 2) % 2
bit_xor-bit zero a b = omega (arith, bit_xor_step a b)
bit_xor-bit (suc i) a b =
    let half : bit_xor a b / 2 ≡ bit_xor (a / 2) (b / 2) = omega (arith, bit_xor_step a b) in
    rw (div-pow-suc i (bit_xor a b), div-pow-suc i a, div-pow-suc i b, half)
      (bit_xor-bit i (a / 2) (b / 2))

-- The bit at position k, as 0 or 1.
pub bit_at : ℕ → ℕ → ℕ
bit_at zero a = a % 2
bit_at (suc k) a = bit_at k (a / 2)

pub bit_at-low : (a : ℕ) → bit_at 0 a ≡ a % 2
unfolding bit_at
bit_at-low a = refl

pub bit_at-le : (k a : ℕ) → bit_at k a ≤ 1
unfolding bit_at
bit_at-le zero a = omega arith
bit_at-le (suc k) a = bit_at-le k (a / 2)

pub bit_at-bit_or : (k a b : ℕ) → bit_at k (bit_or a b) ≡ max (bit_at k a) (bit_at k b)
unfolding bit_at
bit_at-bit_or zero a b = omega (arith, bit_or_step a b)
bit_at-bit_or (suc k) a b =
    let e : bit_or a b / 2 ≡ bit_or (a / 2) (b / 2) = omega (arith, bit_or_step a b) in
    rw e (bit_at-bit_or k (a / 2) (b / 2))

pub bit_at-bit_and : (k a b : ℕ) → bit_at k (bit_and a b) ≡ min (bit_at k a) (bit_at k b)
unfolding bit_at
bit_at-bit_and zero a b = omega (arith, bit_and_step a b)
bit_at-bit_and (suc k) a b =
    let e : bit_and a b / 2 ≡ bit_and (a / 2) (b / 2) = omega (arith, bit_and_step a b) in
    rw e (bit_at-bit_and k (a / 2) (b / 2))

pub bit_at-zero : (k : ℕ) → bit_at k 0 ≡ 0
unfolding bit_at
bit_at-zero zero = refl
bit_at-zero (suc k) = bit_at-zero k

half-pow : (n : ℕ) → 2 ^ suc n / 2 ≡ 2 ^ n
half-pow n = omega (arith, pow-suc 2 n)

-- 1 << k has the bit k and no other.
pub bit_at-pow_self : (k : ℕ) → bit_at k (2 ^ k) ≡ 1
unfolding bit_at
bit_at-pow_self zero = refl
bit_at-pow_self (suc k) = rw (half-pow k) (bit_at-pow_self k)

pub bit_at-pow_ne : (k j : ℕ) → k ≢ j → bit_at k (2 ^ j) ≡ 0
unfolding bit_at
bit_at-pow_ne zero zero h = absurd (h refl)
bit_at-pow_ne zero (suc j) h = omega (arith, pow-suc 2 j)
bit_at-pow_ne (suc k) zero h = bit_at-zero k
bit_at-pow_ne (suc k) (suc j) h = rw (half-pow j) (bit_at-pow_ne k j (λ e. h (ap suc e)))

-- ~x at width n flips each bit below n.
pub bit_at-complement : (n k x : ℕ) → k < n → x < 2 ^ n → bit_at k (2 ^ n - 1 - x) ≡ 1 - bit_at k x
unfolding bit_at
bit_at-complement zero k x h lt = absurd (omega arith)
bit_at-complement (suc n) zero x h lt = omega (arith, pow-suc 2 n)
bit_at-complement (suc n) (suc k) x h lt =
    let e : (2 ^ suc n - 1 - x) / 2 ≡ 2 ^ n - 1 - x / 2 = omega (arith, pow-suc 2 n) in
    rw e (bit_at-complement n k (x / 2) (omega arith) (omega (arith, pow-suc 2 n)))

-- Every law below goes from the halves of a number to the number.
by_halves {ℓ} : (P : ℕ → Type ℓ) → P 0 → ((x : ℕ) → 0 < x → P (x / 2) → P x) → (x : ℕ) → P x
by_halves P base up x = WellFounded.induction lt_wf {C = P} x λ n ih. elim (dec_lt 0 n) [
  | yes pos ↦ up n pos (ih (n / 2) (omega arith))
  | no none_left ↦ let e : n ≡ 0 = omega arith in rw e base
]

bit_and-zero : (a : ℕ) → bit_and a 0 ≡ 0
bit_and-zero = by_halves (λ n. bit_and n 0 ≡ 0) refl (λ n pos half. omega (arith, bit_and_step n 0))

-- a & (1 << k) is the bit k in its place.
pub bit_and-pow : (k a : ℕ) → bit_and a (2 ^ k) ≡ bit_at k a * 2 ^ k
unfolding bit_at
bit_and-pow zero a = omega (arith, bit_and_step a 1, bit_and-zero (a / 2))
bit_and-pow (suc k) a = omega (
  arith,
  bit_and_step a (2 ^ suc k),
  pow-suc 2 k,
  ap (bit_and (a / 2)) (half-pow k),
  bit_and-pow k (a / 2),
  ap (λ (t : ℕ). bit_at k (a / 2) * t) (pow-suc 2 k),
)

pub bit_and-pow_eq_zero : (k a : ℕ) → bit_at k a ≡ 0 → bit_and a (2 ^ k) ≡ 0
bit_and-pow_eq_zero k a h = rw (bit_and-pow k a, h) (omega arith)

pub bit_and-pow_ne_zero : (k a : ℕ) → bit_at k a ≡ 1 → bit_and a (2 ^ k) ≢ 0
bit_and-pow_ne_zero k a h e =
    omega (arith, bit_and-pow k a, ap (λ (t : ℕ). t * 2 ^ k) h, one-le-pow k 2)

-- The results stay within the width.
pub bit_or-lt-pow : (n a b : ℕ) → a < 2 ^ n → b < 2 ^ n → bit_or a b < 2 ^ n
bit_or-lt-pow zero a b p q =
    let e : a ≡ 0 = omega arith in let e' : b ≡ 0 = omega arith in rw (e, e') (omega arith)
bit_or-lt-pow (suc n) a b p q = omega (
  arith,
  bit_or_step a b,
  pow-suc 2 n,
  bit_or-lt-pow n (a / 2) (b / 2) (omega (arith, pow-suc 2 n)) (omega (arith, pow-suc 2 n)),
)

pub bit_and-le : (a b : ℕ) → bit_and a b ≤ a
bit_and-le =
    by_halves (λ n. (b : ℕ) → bit_and n b ≤ n) (λ b. omega (arith, bit_and-bitwise 0 b))
      (λ n pos half b. omega (arith, bit_and_step n b, half (b / 2)))

bit_or-zero : (n : ℕ) → bit_or n 0 ≡ n
bit_or-zero = by_halves (λ n. bit_or n 0 ≡ n) refl (λ n pos half. omega (arith, bit_or_step n 0))

-- Bits that stand above and below a position do not overlap.
pub bit_or-add : (n a c : ℕ) → c < 2 ^ n → bit_or (a * 2 ^ n) c ≡ a * 2 ^ n + c
bit_or-add zero a c h = let z : c ≡ 0 = omega arith in rw z (omega (arith, bit_or-zero (a * 2 ^ 0)))
bit_or-add (suc n) a c h =
    let p : a * 2 ^ suc n ≡ a * 2 ^ n * 2 =
      ap (λ t. a * t) (pow-suc 2 n) ∙ omega (arith, mul_assoc a (2 ^ n) 2) in
    let d : a * 2 ^ n * 2 / 2 ≡ a * 2 ^ n = omega arith in
    let rest = bit_or-add n a (c / 2) (omega (arith, pow-suc 2 n)) in
    let s = bit_or_step (a * 2 ^ n * 2) c in rw p (s ∙ rw (d, rest) (omega arith))

-- A mask of ones keeps the lowest bits.
pub bit_and-ones : (n a : ℕ) → bit_and a (2 ^ n - 1) ≡ a % 2 ^ n
bit_and-ones zero a = omega (arith, bit_and-zero a)
bit_and-ones (suc n) a =
    let half : (2 ^ suc n - 1) / 2 ≡ 2 ^ n - 1 = omega (arith, pow-suc 2 n) in
    let s = bit_and_step a (2 ^ suc n - 1) in
    let q : a / 2 / 2 ^ n ≡ a / 2 ^ suc n =
      div-div-eq-div-mul a 2 (2 ^ n) ∙ ap (λ t. a / t) (omega (arith, pow-suc 2 n)) in
    let product : a / 2 ^ suc n * 2 ^ suc n ≡ a / 2 ^ suc n * 2 ^ n * 2 =
      ap (λ t. a / 2 ^ suc n * t) (pow-suc 2 n)
      ∙ omega (arith, mul_assoc (a / 2 ^ suc n) (2 ^ n) 2) in
    let upper : a / 2 % 2 ^ n + a / 2 ^ suc n * 2 ^ n ≡ a / 2 =
      subst (λ t. a / 2 % 2 ^ n + t * 2 ^ n ≡ a / 2) q (mod-add-div' (a / 2) (2 ^ n)) in
    s
    ∙ rw (half, bit_and-ones n (a / 2))
        (omega (
          arith,
          product,
          upper,
          mod-add-div' a (2 ^ suc n),
          pow-suc 2 n,
          one-le-pow n 2 (omega arith),
        ))
