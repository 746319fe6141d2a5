-- ===== src/Segment/Stacks.antt =====
-- InitializeTSS of Kernel/segment.cpp: the stacks that it takes, and where it writes them.
use mikan_os_x.Base.{
  ℕ, ◌+◌, ◌-◌, ◌*◌, ◌%◌, ◌^◌, ◌<◌, ◌≤◌, ◌≡◌, ◌⊎◌, inl, inr, refl, ap, ◌∙◌, true, length, get_or,
  Option, none, some, dec_lt, arith,
}
use mikan_os_x.Base.Fault.{success}
use mikan_os_x.Memory.{BitmapMemoryManager, Allocation, get_bit}
use mikan_os_x.Memory.Ranges.{IsValid}
use mikan_os_x.Memory.FirstFit.{Allocates, granted, refused, allocate-Allocates, IsFree}
use mikan_os_x.Segment.{
  Tables, allocate_stack_area, stack_end, initialize_tss, ◌>>=◌, set_tss, set_tss_descriptor,
}
use mikan_os_x.Segment.Fields.{
  tss_base, limit_field, limit_of, stack_of, set_tss_descriptor_lem, set_tss_lem, set_tss-other,
  length-set_tss,
}

-- No run of 8 frames is free in the range.
abbrev pub IsFull : BitmapMemoryManager → Type 0
IsFull m = (f : ℕ) → m.range_begin ≤ f → ¬ IsFree m f 8

-- The outcome of AllocateStackArea for 8 frames.
data Stack (m : BitmapMemoryManager) : Option (ℕ × BitmapMemoryManager) → Type 0 where
  taken :
      (s : ℕ) (m' : BitmapMemoryManager)
      → Allocates m 8 ((s, success), m')
      → s < 2 ^ 25
      → IsFree m s 8
      → ((f : ℕ) → s ≤ f → f < s + 8 → get_bit m' f ≡ true)
      → IsValid m'
      → m'.range_begin ≡ m.range_begin
      → Stack m (some (4096 * (s + 8), m'))
  ends : IsFull m → Stack m none

allocate_stack_area_lem :
    (m : BitmapMemoryManager)
    → IsValid m
    → m.range_begin < 2 ^ 64
    → Stack m (allocate_stack_area 8 m)
unfolding allocate_stack_area stack_end
allocate_stack_area_lem m v h =
    let (r, e, w) = allocate-Allocates m 8 v h (omega arith) in rw e (go r w)
  where
    go : (r : Allocation) → Allocates m 8 r → Stack m (stack_end 8 (some r))
    go _ (refused full) = ends full
    go _ (granted s m' first bits v' e b) =
        let bound : s < 2 ^ 25 = omega (arith, (first.1 0 (omega arith)).0, v.lines, v.in_map) in
        let address : (s * 4096 % 2 ^ 64 + 8 * 4096) % 2 ^ 64 ≡ 4096 * (s + 8) = omega arith in
        rw address (
          taken s m' (granted s m' first bits v' e b) bound first.1
            (λ f l k. bits f ∙ ground (arith, l, k)) v' b)

-- Stacks of which the second one was free when the first one was taken do not overlap.
apart :
    (s1 s2 : ℕ) (m : BitmapMemoryManager)
    → ((f : ℕ) → s1 ≤ f → f < s1 + 8 → get_bit m f ≡ true)
    → IsFree m s2 8
    → (s1 + 8 ≤ s2) ⊎ (s2 + 8 ≤ s1)
apart s1 s2 m used free = elim (dec_lt s2 (s1 + 8)) [
  | no a ↦ inl (omega arith)
  | yes a ↦ elim (dec_lt s1 (s2 + 8)) [
    | no b ↦ inr (omega arith)
    | yes b ↦ elim (dec_lt s2 s1) [
      | yes c ↦ absurd (meet s1 (omega arith) (omega arith) (omega arith) (omega arith))
      | no c ↦ absurd (meet s2 (omega arith) (omega arith) (omega arith) (omega arith))
    ]
  ]
]
  where
    meet : (f : ℕ) → s1 ≤ f → f < s1 + 8 → s2 ≤ f → f < s2 + 8 → ⊥
    meet f l k l2 k2 =
        let e : s2 + (f - s2) ≡ f = omega arith in
        cc ((free (f - s2) (omega arith)).1, used f l k, ap (get_bit m) e)

-- What InitializeTSS promises of its result.
pub Ready : ℕ → Tables → Option Tables → Type 0
Ready tss_addr t none =
    IsFull t.manager
    ⊎ ((s : ℕ) × (m : BitmapMemoryManager) × Allocates t.manager 8 ((s, success), m) × IsFull m)
Ready tss_addr t (some t') =
    (s1 : ℕ) × (s2 : ℕ) × (m : BitmapMemoryManager) × Allocates t.manager 8 ((s1, success), m)
    × Allocates m 8 ((s2, success), t'.manager)
    × ((s1 + 8 ≤ s2) ⊎ (s2 + 8 ≤ s1))
    × (stack_of 1 t'.tss ≡ 4096 * (s1 + 8))
    × (stack_of 9 t'.tss ≡ 4096 * (s2 + 8))
    × (tss_base t'.gdt ≡ tss_addr)
    × (limit_field (get_or t'.gdt 5 0) ≡ 103)
    × (limit_of (get_or t'.gdt 5 0) ≡ 103 * 4096 + 4095)

-- InitializeTSS takes two runs of 8 frames that do not overlap, writes the end of the first one to
-- RSP0 and of the second one to IST1, and the descriptor of the TSS has its address and 103 in the
-- field of its limit, which the processor takes for 104 pages, since the granularity is set; it
-- ends the kernel only where no run of 8 frames is free.
pub initialize_tss-Ready :
    (tss_addr : ℕ) (t : Tables)
    → IsValid t.manager
    → t.manager.range_begin < 2 ^ 64
    → length t.gdt ≡ 7
    → length t.tss ≡ 26
    → Ready tss_addr t (initialize_tss tss_addr t)
unfolding initialize_tss Ready
initialize_tss-Ready tss_addr t v h g w =
    first (allocate_stack_area 8 t.manager) refl (allocate_stack_area_lem t.manager v h)
  where
    second :
        (s1 : ℕ) (m1 : BitmapMemoryManager) (r : Option (ℕ × BitmapMemoryManager))
        → Allocates t.manager 8 ((s1, success), m1)
        → s1 < 2 ^ 25
        → ((f : ℕ) → s1 ≤ f → f < s1 + 8 → get_bit m1 f ≡ true)
        → Stack m1 r
        → Ready tss_addr t (
            r >>= λ x. some (record {
              gdt = set_tss_descriptor tss_addr t.gdt;
              tss = set_tss 9 x.0 (set_tss 1 (4096 * (s1 + 8)) t.tss);
              manager = x.1;
            }))
    second s1 m1 _ got b used (ends full) = inr (s1, m1, got, full)
    second s1 m1 _ got b used (taken s2 m2 got2 b2 free _ _ _) =
        let old = set_tss 1 (4096 * (s1 + 8)) t.tss in
        let len = length-set_tss 1 (4096 * (s1 + 8)) t.tss in
        let rsp0 =
          set_tss-other 9 1 (4096 * (s2 + 8)) old (omega arith)
          ∙ set_tss_lem 1 (4096 * (s1 + 8)) t.tss (omega (arith, w)) (omega (arith, b)) in
        let ist = set_tss_lem 9 (4096 * (s2 + 8)) old (omega (arith, w, len)) (omega (arith, b2)) in
        let (base, field, limit) = set_tss_descriptor_lem tss_addr t.gdt g in
        (s1, s2, m1, got, got2, apart s1 s2 m1 used free, rsp0, ist, base, field, limit)

    first :
        (r : Option (ℕ × BitmapMemoryManager))
        → allocate_stack_area 8 t.manager ≡ r
        → Stack t.manager r
        → Ready tss_addr t (initialize_tss tss_addr t)
    first _ e (ends full) = rw e (inl full)
    first _ e (taken s1 m1 got b free used v1 b1) = rw e (
        second s1 m1 (allocate_stack_area 8 m1) got b used
          (allocate_stack_area_lem m1 v1 (omega (arith, b1, h))))
