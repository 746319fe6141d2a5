-- ===== src/Segment/Fields.antt =====
-- What the processor reads in the descriptors of Kernel/segment.cpp.
use mikan_os_x.Base.{
  ℕ, ◌+◌, ◌*◌, ◌/◌, ◌%◌, ◌^◌, ◌<◌, ◌≡◌, refl, ◌==◌, if◌then◌else◌, ◌∙◌, List, length, set, get_or,
  get_or-set_self, get_or-set_ne, length-set, arith,
}
use mikan_os_x.Segment.{to_data, set_code_segment, set_system_segment, set_tss_descriptor, set_tss}

-- Bits 16 to 39 and 56 to 63 of a descriptor.
abbrev pub base_of : ℕ → ℕ
base_of data_word = data_word / 2 ^ 16 % 2 ^ 24 + 2 ^ 24 * (data_word / 2 ^ 56 % 2 ^ 8)

-- Bits 0 to 15 and 48 to 51.
abbrev pub limit_field : ℕ → ℕ
limit_field data_word = data_word % 2 ^ 16 + 2 ^ 16 * (data_word / 2 ^ 48 % 2 ^ 4)

-- How far a segment goes: with bit 55, the granularity, the limit counts pages of 4096 bytes.
abbrev pub limit_of : ℕ → ℕ
limit_of data_word =
    if data_word / 2 ^ 55 % 2 == 1
    then limit_field data_word * 4096 + 4095
    else limit_field data_word

base-system :
    (descriptor_type privilege base limit : ℕ)
    → base < 2 ^ 32
    → base_of (to_data (set_system_segment descriptor_type privilege base limit)) ≡ base
unfolding to_data set_system_segment set_code_segment
base-system descriptor_type privilege base limit h = omega arith

limit-system :
    (descriptor_type privilege base limit : ℕ)
    → limit < 2 ^ 20
    → limit_field (to_data (set_system_segment descriptor_type privilege base limit)) ≡ limit
unfolding to_data set_system_segment set_code_segment
limit-system descriptor_type privilege base limit h = omega arith

granularity-system :
    (descriptor_type privilege base limit : ℕ)
    → to_data (set_system_segment descriptor_type privilege base limit) / 2 ^ 55 % 2 ≡ 1
unfolding to_data set_system_segment set_code_segment
granularity-system descriptor_type privilege base limit = omega arith

-- The address of the TSS, in two entries of the GDT.
abbrev pub tss_base : List ℕ → ℕ
tss_base gdt = base_of (get_or gdt 5 0) + 2 ^ 32 * get_or gdt 6 0

pub set_tss_descriptor_lem :
    (tss_addr : ℕ) (gdt : List ℕ)
    → length gdt ≡ 7
    → (tss_base (set_tss_descriptor tss_addr gdt) ≡ tss_addr)
      × (limit_field (get_or (set_tss_descriptor tss_addr gdt) 5 0) ≡ 103)
      × (limit_of (get_or (set_tss_descriptor tss_addr gdt) 5 0) ≡ 103 * 4096 + 4095)
unfolding set_tss_descriptor
set_tss_descriptor_lem tss_addr gdt e =
    let word = to_data (set_system_segment 9 0 (tss_addr % 2 ^ 32) 103) in
    let gdt' = set gdt 5 word in
    let upper = tss_addr / 2 ^ 32 in
    let low : get_or (set gdt' 6 upper) 5 0 ≡ word =
      get_or-set_ne gdt' 6 5 upper 0 (λ e. omega (arith, e))
      ∙ get_or-set_self gdt 5 word 0 (omega (arith, e)) in
    let high : get_or (set gdt' 6 upper) 6 0 ≡ upper =
      get_or-set_self gdt' 6 upper 0 (omega (arith, e, length-set gdt 5 word)) in
    let base = base-system 9 0 (tss_addr % 2 ^ 32) 103 (omega arith) in
    let limit = limit-system 9 0 (tss_addr % 2 ^ 32) 103 (omega arith) in
    (
      rw (low, high, base) (omega arith),
      rw low limit,
      rw (low, granularity-system 9 0 (tss_addr % 2 ^ 32) 103, limit) refl,
    )

-- A stack pointer of the TSS, in two words.
abbrev pub stack_of : ℕ → List ℕ → ℕ
stack_of i tss = get_or tss i 0 + 2 ^ 32 * get_or tss (i + 1) 0

pub set_tss_lem :
    (i v : ℕ) (tss : List ℕ) → i + 1 < length tss → v < 2 ^ 64 → stack_of i (set_tss i v tss) ≡ v
unfolding set_tss
set_tss_lem i v tss h b =
    let tss' = set tss i (v % 2 ^ 32) in
    let upper = v / 2 ^ 32 % 2 ^ 32 in
    let low : get_or (set tss' (i + 1) upper) i 0 ≡ v % 2 ^ 32 =
      get_or-set_ne tss' (i + 1) i upper 0 (λ e. omega (arith, e))
      ∙ get_or-set_self tss i (v % 2 ^ 32) 0 (omega arith) in
    let high : get_or (set tss' (i + 1) upper) (i + 1) 0 ≡ upper =
      get_or-set_self tss' (i + 1) upper 0 (omega (arith, length-set tss i (v % 2 ^ 32))) in
    rw (low, high) (omega arith)

pub set_tss-other :
    (i j v : ℕ) (tss : List ℕ) → j + 1 < i → stack_of j (set_tss i v tss) ≡ stack_of j tss
unfolding set_tss
set_tss-other i j v tss h =
    let tss' = set tss i (v % 2 ^ 32) in
    let upper = v / 2 ^ 32 % 2 ^ 32 in
    let same = λ (k : ℕ) (l : k < i).
      (get_or-set_ne tss' (i + 1) k upper 0 (λ e. omega (arith, e, l))
        ∙ get_or-set_ne tss i k (v % 2 ^ 32) 0 (λ e. omega (arith, e, l))) in
    rw (same j (omega arith), same (j + 1) (omega arith)) refl

pub length-set_tss : (i v : ℕ) (tss : List ℕ) → length (set_tss i v tss) ≡ length tss
unfolding set_tss
length-set_tss i v tss =
    length-set (set tss i (v % 2 ^ 32)) (i + 1) (v / 2 ^ 32 % 2 ^ 32)
    ∙ length-set tss i (v % 2 ^ 32)
