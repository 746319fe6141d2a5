-- ===== src/Memory/Start.antt =====
-- InitializeMemoryManager and InitializeHeap of Kernel/memory_manager.cpp, over the memory map of
-- Kernel/memory_map.hpp that the UEFI firmware gives.
use mikan_os_x.Base.{
  ℕ, ◌+◌, ◌-◌, ◌*◌, ◌/◌, ◌^◌, ◌<◌, ◌≤◌, ◌≡◌, refl, sym, ◌∙◌, Bool, true, false, ◌==◌, ◌||◌, ltb,
  if◌then◌else◌, List, [], ◌∷◌, Option, none, some, add64, mul64, arith, length, Bool-cases, inl,
  inr, ◌⊎◌, subst,
}
use mikan_os_x.Base.Fault.{Code, success}
use mikan_os_x.Memory.{
  BitmapMemoryManager, create, mark_allocated, set_memory_range, allocate, get_bit, bytes_per_frame,
}
use mikan_os_x.Memory.Ranges.{within, get_bit-set_bits, length-set_bits}

-- What the code reads of a MemoryDescriptor.
pub record MemoryDescriptor : Type 0 where
  pub type : ℕ
  pub physical_start : ℕ
  pub number_of_pages : ℕ

-- IsAvailable: kEfiBootServicesCode, kEfiBootServicesData and kEfiConventionalMemory.
unfoldable pub is_available : ℕ → Bool
is_available type = (type == 3) || (type == 4) || (type == 7)

abbrev pub uefi_page_size : ℕ
uefi_page_size = 4096

unfoldable pub physical_end : MemoryDescriptor → ℕ
physical_end d = add64 d.physical_start (mul64 d.number_of_pages uefi_page_size)

-- The gap before a descriptor, then its own frames.
unfoldable pub mark_gap : ℕ → MemoryDescriptor → BitmapMemoryManager → BitmapMemoryManager
mark_gap available_end d m =
    if ltb available_end d.physical_start
    then mark_allocated (available_end / bytes_per_frame)
        ((d.physical_start - available_end) / bytes_per_frame) m
    else m

unfoldable pub mark_pages : MemoryDescriptor → BitmapMemoryManager → BitmapMemoryManager
mark_pages d m =
    if is_available d.type
    then m
    else mark_allocated (d.physical_start / bytes_per_frame)
        (mul64 d.number_of_pages uefi_page_size / bytes_per_frame) m

-- The loop over the map: available_end and the manager.
unfoldable pub mark_map : ℕ → List MemoryDescriptor → BitmapMemoryManager → ℕ × BitmapMemoryManager
mark_map available_end [] m = (available_end, m)
mark_map available_end (d ∷ ds) m =
    mark_map (if is_available d.type then physical_end d else available_end) ds
      (mark_pages d (mark_gap available_end d m))

abbrev pub heap_frames : ℕ
heap_frames = 64 * 512

-- InitializeHeap: program_break and program_break_end. The outer `none` is Allocate without a
-- result.
unfoldable pub initialize_heap : BitmapMemoryManager → Option ((Code × ℕ × ℕ) × BitmapMemoryManager)
initialize_heap m = started (allocate heap_frames m)
  where
    breaks : ℕ → Code → Code × ℕ × ℕ
    breaks frame success = (
      success,
      mul64 frame bytes_per_frame,
      add64 (mul64 frame bytes_per_frame) (heap_frames * bytes_per_frame),
    )
    breaks frame error = (error, 0, 0)

    started :
        Option ((ℕ × Code) × BitmapMemoryManager) → Option ((Code × ℕ × ℕ) × BitmapMemoryManager)
    started none = none
    started (some ((frame, code), m')) = some (breaks frame code, m')

-- InitializeMemoryManager up to the log and exit(1) on an error of InitializeHeap.
unfoldable pub initialize_memory_manager :
    List MemoryDescriptor → Option ((Code × ℕ × ℕ) × BitmapMemoryManager)
initialize_memory_manager descriptors =
    let marked = mark_map 0 descriptors create in
    initialize_heap (set_memory_range 1 (marked.0 / bytes_per_frame) marked.1)

-- The frames of a descriptor lie in the map of the manager, which is as long as that of the source.
unfoldable pub Fits : ℕ → List MemoryDescriptor → Type 0
Fits lines [] = Unit
Fits lines (d ∷ ds) =
    (d.physical_start + d.number_of_pages * 4096 ≤ lines * 262144)
    × (lines ≤ 2 ^ 19)
    × Fits lines ds

-- In a descriptor that is not available.
unfoldable pub Reserved : List MemoryDescriptor → ℕ → Type 0
Reserved [] f = ⊥
Reserved (d ∷ ds) f =
    ((is_available d.type ≡ false)
      × (d.physical_start / 4096 ≤ f)
      × (f < d.physical_start / 4096 + d.number_of_pages))
    ⊎ Reserved ds f

marks :
    (start n : ℕ) (m : BitmapMemoryManager) (f : ℕ)
    → length m.alloc_map ≤ 2 ^ 19
    → start + n ≤ 64 * length m.alloc_map
    → get_bit (mark_allocated start n m) f ≡ (if within start n f then true else get_bit m f)
unfolding mark_allocated
marks start n m f low inside = ground (arith, get_bit-set_bits true start n 0 m f low)

length-marks :
    (start n : ℕ) (m : BitmapMemoryManager)
    → length (mark_allocated start n m).alloc_map ≡ length m.alloc_map
unfolding mark_allocated
length-marks start n m = length-set_bits true start n 0 m

-- No mark is ever taken away.
Keeps : BitmapMemoryManager → BitmapMemoryManager → Type 0
Keeps m m' =
    (length m'.alloc_map ≡ length m.alloc_map)
    × ((f : ℕ) → get_bit m f ≡ true → get_bit m' f ≡ true)

Keeps-all : (m : BitmapMemoryManager) → Keeps m m
unfolding Keeps
Keeps-all m = (refl, λ f h. h)

kept_length : (m m' : BitmapMemoryManager) → Keeps m m' → length m'.alloc_map ≡ length m.alloc_map
unfolding Keeps
kept_length m m' k = k.0

kept_marks :
    (m m' : BitmapMemoryManager) → Keeps m m' → (f : ℕ) → get_bit m f ≡ true → get_bit m' f ≡ true
unfolding Keeps
kept_marks m m' k = k.1

Keeps-trans : (m m' m2 : BitmapMemoryManager) → Keeps m m' → Keeps m' m2 → Keeps m m2
unfolding Keeps
Keeps-trans m m' m2 k k' = (k'.0 ∙ k.0, λ f h. k'.1 f (k.1 f h))

marks-Keeps :
    (start n : ℕ) (m : BitmapMemoryManager)
    → length m.alloc_map ≤ 2 ^ 19
    → start + n ≤ 64 * length m.alloc_map
    → Keeps m (mark_allocated start n m)
unfolding Keeps
marks-Keeps start n m low inside =
    (length-marks start n m, λ f h. ground (arith, marks start n m f low inside, h))

gap-Keeps :
    (available_end : ℕ) (d : MemoryDescriptor) (m : BitmapMemoryManager)
    → length m.alloc_map ≤ 2 ^ 19
    → d.physical_start + d.number_of_pages * 4096 ≤ length m.alloc_map * 262144
    → Keeps m (mark_gap available_end d m)
unfolding mark_gap
gap-Keeps available_end d m low inside = elim (Bool-cases (ltb available_end d.physical_start)) [
  | inl e ↦
      let before : available_end < d.physical_start = ground arith in
      rw e (
        marks-Keeps (available_end / 4096) ((d.physical_start - available_end) / 4096) m low
          (omega arith))
  | inr e ↦ rw e (Keeps-all m)
]

pages-Keeps :
    (d : MemoryDescriptor) (m : BitmapMemoryManager)
    → length m.alloc_map ≤ 2 ^ 19
    → d.physical_start + d.number_of_pages * 4096 ≤ length m.alloc_map * 262144
    → Keeps m (mark_pages d m)
      × ((f : ℕ)
          → is_available d.type ≡ false
          → d.physical_start / 4096 ≤ f
          → f < d.physical_start / 4096 + d.number_of_pages
          → get_bit (mark_pages d m) f ≡ true)
unfolding mark_pages
pages-Keeps d m low inside =
    let n : mul64 d.number_of_pages 4096 / 4096 ≡ d.number_of_pages = omega arith in
    elim (Bool-cases (is_available d.type)) [
      | inl e ↦ rw e (Keeps-all m, λ f no. absurd (ground (arith, no)))
      | inr e ↦
          rw (e, n)
            (
              marks-Keeps (d.physical_start / 4096) d.number_of_pages m low (omega arith),
              λ f no from below.
                  ground (arith, marks (d.physical_start / 4096) d.number_of_pages m f low),
            )
    ]

mark_map-Keeps :
    (available_end : ℕ) (ds : List MemoryDescriptor) (m : BitmapMemoryManager)
    → Fits (length m.alloc_map) ds
    → Keeps m (mark_map available_end ds m).1
      × ((f : ℕ) → Reserved ds f → get_bit (mark_map available_end ds m).1 f ≡ true)
unfolding mark_map Reserved Fits
mark_map-Keeps available_end [] m fit = (Keeps-all m, λ f h. absurd h)
mark_map-Keeps available_end (d ∷ ds) m (inside, low, rest) =
    let gap = mark_gap available_end d m in
    let g : Keeps m gap = gap-Keeps available_end d m low inside in
    let (p, own) = pages-Keeps d gap (subst (λ l. l ≤ 2 ^ 19) (sym (kept_length m gap g)) low) (
      subst (λ l. d.physical_start + d.number_of_pages * 4096 ≤ l * 262144)
        (sym (kept_length m gap g)) inside) in
    let here = mark_pages d gap in
    let same : length here.alloc_map ≡ length m.alloc_map =
      kept_length gap here p ∙ kept_length m gap g in
    let next = if is_available d.type then physical_end d else available_end in
    let (q, later) = mark_map-Keeps next ds here (subst (λ l. Fits l ds) (sym same) rest) in
    (
      Keeps-trans m here (mark_map next ds here).1 (Keeps-trans m gap here g p) q,
      λ f h. elim h [
        | inl own_frame ↦
            kept_marks here (mark_map next ds here).1 q f
              (own f own_frame.0 own_frame.1 own_frame.2)
        | inr r ↦ later f r
      ],
    )

-- After the loop of InitializeMemoryManager every frame of a descriptor of the map that is not
-- available is marked as allocated, whatever the order of the descriptors, if these end inside
-- the bitmap and the bitmap is no longer than that of the source.
pub mark_map-Reserved :
    (ds : List MemoryDescriptor) (m : BitmapMemoryManager) (f : ℕ)
    → Fits (length m.alloc_map) ds
    → Reserved ds f
    → get_bit (mark_map 0 ds m).1 f ≡ true
mark_map-Reserved ds m f fit r = (mark_map-Keeps 0 ds m fit).1 f r
