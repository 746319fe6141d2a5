-- ===== src/Memory/Ranges.antt =====
-- MarkAllocated and Free: loops of SetBit over a range of frames.
use mikan_os_x.Base.{
  ℕ, zero, suc, ◌+◌, ◌*◌, ◌^◌, ◌≤◌, ◌≡◌, refl, ◌∙◌, Bool, ◌&&◌, arith, length, ltb, leb,
  if◌then◌else◌, add64,
}
use mikan_os_x.Memory.{BitmapMemoryManager, get_bit, set_bit, set_bits}
use mikan_os_x.Memory.Bitmap.{get_bit-set_bit, length-set_bit}

-- The array is no longer than that of the source, and Allocate is kept inside it.
pub record IsValid (m : BitmapMemoryManager) : Type 0 where
  pub lines : length m.alloc_map ≤ 2 ^ 19
  pub in_map : m.range_end ≤ 64 * length m.alloc_map

abbrev pub within : ℕ → ℕ → ℕ → Bool
within start n f = leb start f && ltb f (start + n)

pub length-set_bits :
    (allocated : Bool) (start n i : ℕ) (m : BitmapMemoryManager)
    → length (set_bits allocated start n i m).alloc_map ≡ length m.alloc_map
unfolding set_bits
length-set_bits allocated start zero i m = refl
length-set_bits allocated start (suc n) i m =
    length-set_bits allocated start n (i + 1) (set_bit (add64 start i) allocated m)
    ∙ length-set_bit m (add64 start i) allocated

pub get_bit-set_bits :
    (allocated : Bool) (start n i : ℕ) (m : BitmapMemoryManager) (g : ℕ)
    → length m.alloc_map ≤ 2 ^ 19
    → start + i + n ≤ 64 * length m.alloc_map
    → get_bit (set_bits allocated start n i m) g
      ≡ (if within (start + i) n g then allocated else get_bit m g)
unfolding set_bits
get_bit-set_bits allocated start zero i m g small fits = ground arith
get_bit-set_bits allocated start (suc n) i m g small fits =
    let e : add64 start i ≡ start + i = omega arith in
    let m' = set_bit (add64 start i) allocated m in
    ground (
      arith,
      e,
      length-set_bit m (add64 start i) allocated,
      get_bit-set_bit m (add64 start i) g allocated (omega arith),
      get_bit-set_bits allocated start n (i + 1) m' g,
    )

-- The fields that SetBit leaves alone.
pub set_bits-range_end :
    (allocated : Bool) (start n i : ℕ) (m : BitmapMemoryManager)
    → (set_bits allocated start n i m).range_end ≡ m.range_end
unfolding set_bits set_bit
set_bits-range_end allocated start zero i m = refl
set_bits-range_end allocated start (suc n) i m =
    set_bits-range_end allocated start n (i + 1) (set_bit (add64 start i) allocated m)

pub set_bits-range_begin :
    (allocated : Bool) (start n i : ℕ) (m : BitmapMemoryManager)
    → (set_bits allocated start n i m).range_begin ≡ m.range_begin
unfolding set_bits set_bit
set_bits-range_begin allocated start zero i m = refl
set_bits-range_begin allocated start (suc n) i m =
    set_bits-range_begin allocated start n (i + 1) (set_bit (add64 start i) allocated m)

pub set_bits-IsValid :
    (allocated : Bool) (start n i : ℕ) (m : BitmapMemoryManager)
    → IsValid m
    → IsValid (set_bits allocated start n i m)
set_bits-IsValid allocated start n i m v = record {
  lines = omega (arith, length-set_bits allocated start n i m, v.lines);
  in_map = omega (
    arith,
    length-set_bits allocated start n i m,
    set_bits-range_end allocated start n i m,
    v.in_map,
  );
}
