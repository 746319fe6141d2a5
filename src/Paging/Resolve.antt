-- ===== src/Paging/Resolve.antt =====
-- How HandlePageFault of Kernel/paging.cpp ends.
use mikan_os_x.Base.{
  ℕ, ◌+◌, ◌-◌, ◌%◌, ◌^◌, ◌<◌, ◌≤◌, ◌≡◌, refl, true, false, ltb, leb, ◌&&◌, List, [], ◌∷◌, ◌++◌, ap,
  Option, none, some, arith, inl, inr, Bool-cases, subst,
}
use mathlib.Core.List.{Memᴰ}
use mathlib.Core.List.Memᴰ
use mikan_os_x.Base.Fault.{Code, success, already_allocated, index_out_of_range, no_enough_memory}
use mikan_os_x.Memory.{get_bit}
use mikan_os_x.Paging.{of_value, Machine, setup_page_maps}
use mikan_os_x.Paging.Address.{IsAddress}
use mikan_os_x.Paging.Frames.{Levels, IsTabled}
use mikan_os_x.Paging.Setup.{SetsUp, setup_page_maps-SetsUp, mapped, out_of_frames}
use mikan_os_x.Paging.Copy.{Reaches, Copies, copy_one_page-Copies}
use mikan_os_x.Paging.Fault.{
  FileMapping, Space, Load, find_file_mapping, aligned, prepare_page_cache, fill_cache, frame_of,
  load_mapping, load_missing, copy_one_page, fault_bit, handle_page_fault,
}

-- The address lies in the file mapping.
abbrev pub Covers : FileMapping → ℕ → Type 0
Covers f v = (f.vaddr_begin ≤ v) × (v < f.vaddr_end)

-- The first of the mappings that the address lies in.
abbrev pub IsFirst : ℕ → List FileMapping → FileMapping → Type 0
IsFirst v fmaps f =
    (before : List FileMapping) × (after : List FileMapping) × (fmaps ≡ before ++ f ∷ after)
    × Covers f v
    × ((g : FileMapping) → Memᴰ g before → ¬ Covers g v)

data Finds (v : ℕ) (fmaps : List FileMapping) : Option FileMapping → Type 0 where
  found : (f : FileMapping) → IsFirst v fmaps f → Finds v fmaps (some f)
  missed : ((f : FileMapping) → Memᴰ f fmaps → ¬ Covers f v) → Finds v fmaps none

skip-none :
    (v : ℕ) (f : FileMapping) (fmaps : List FileMapping)
    → ¬ Covers f v
    → ((g : FileMapping) → Memᴰ g fmaps → ¬ Covers g v)
    → (g : FileMapping) → Memᴰ g (f ∷ fmaps)
    → ¬ Covers g v
skip-none v f fmaps other none_of g (Memᴰ.head e) c = other (subst (λ x. Covers x v) e c)
skip-none v f fmaps other none_of g (Memᴰ.tail mem) c = none_of g mem c

skip-Finds :
    (v : ℕ) (f : FileMapping) (fmaps : List FileMapping)
    → ¬ Covers f v
    → (o : Option FileMapping) → Finds v fmaps o
    → Finds v (f ∷ fmaps) o
skip-Finds v f fmaps other _ (found g (before, after, split, covers, skipped)) =
    found g (f ∷ before, after, ap (f ∷◌) split, covers, skip-none v f before other skipped)
skip-Finds v f fmaps other _ (missed none_of) = missed (skip-none v f fmaps other none_of)

find_file_mapping-Finds :
    (v : ℕ) (fmaps : List FileMapping) → Finds v fmaps (find_file_mapping fmaps v)
unfolding find_file_mapping
find_file_mapping-Finds v [] = missed (λ f mem. absurd (Memᴰ.not-nil mem))
find_file_mapping-Finds v (f ∷ fmaps) =
    elim (Bool-cases (leb f.vaddr_begin v && ltb v f.vaddr_end)) [
      | inl inside ↦
          rw inside
            (found f ([], fmaps, refl, ground (arith, inside), λ g mem. absurd (Memᴰ.not-nil mem)))
      | inr outside ↦ rw outside (
          skip-Finds v f fmaps (λ c. ground arith) (find_file_mapping fmaps v)
            (find_file_mapping-Finds v fmaps))
    ]

-- The address of the page of 4096 bytes that the address lies in.
abbrev pub IsPage : ℕ → ℕ → Type 0
IsPage v page = (page % 4096 ≡ 0) × (page ≤ v) × (v < page + 4096)

-- The offset of the page from the beginning of the mapping, as a word of 64 bits.
abbrev pub IsOffset : FileMapping → ℕ → ℕ → Type 0
IsOffset f page offset = (offset < 2 ^ 64) × ((offset + f.vaddr_begin) % 2 ^ 64 ≡ page % 2 ^ 64)

-- The address is not of the task's demand paging range.
abbrev pub IsOutside : Space → ℕ → Type 0
IsOutside task v = ¬ ((task.dpaging_begin ≤ v) × (v < task.dpaging_end))

-- What HandlePageFault does, by the fault's error code and the address.
pub data Resolves (load : Load) (task : Space) (levels : Levels) (error_code v : ℕ) (m : Machine)
    : Code × Machine → Type 0 where
  copied :
      (r : Code × Machine)
      → fault_bit 0 error_code ≡ true
      → fault_bit 1 error_code ≡ true
      → fault_bit 2 error_code ≡ true
      → Copies (of_value v) m r
      → Resolves load task levels error_code v m r
  rejected :
      fault_bit 0 error_code ≡ true
      → (fault_bit 1 error_code && fault_bit 2 error_code) ≡ false
      → Resolves load task levels error_code v m (already_allocated, m)
  paged :
      (r : Code × Machine)
      → fault_bit 0 error_code ≡ false
      → task.dpaging_begin ≤ v
      → v < task.dpaging_end
      → SetsUp true levels m (of_value v) 1 r
      → Resolves load task levels error_code v m r
  loaded :
      (f : FileMapping) (page offset : ℕ) (m' : Machine)
      → fault_bit 0 error_code ≡ false
      → IsOutside task v
      → IsFirst v task.file_maps f
      → IsPage v page
      → IsOffset f page offset
      → SetsUp true levels m (of_value page) 1 (success, m')
      → Resolves load task levels error_code v m (success, load f.fd page 4096 offset m')
  no_page :
      (f : FileMapping) (page : ℕ) (m' : Machine)
      → fault_bit 0 error_code ≡ false
      → IsOutside task v
      → IsFirst v task.file_maps f
      → IsPage v page
      → SetsUp true levels m (of_value page) 1 (no_enough_memory, m')
      → Resolves load task levels error_code v m (no_enough_memory, m')
  nowhere :
      fault_bit 0 error_code ≡ false
      → IsOutside task v
      → ((f : FileMapping) → Memᴰ f task.file_maps → ¬ Covers f v)
      → Resolves load task levels error_code v m (index_out_of_range, m)

aligned-IsAddress :
    (v : ℕ)
    → IsAddress (of_value v)
      × IsAddress (of_value (aligned v))
      × ((of_value (aligned v)).pml4 ≡ (of_value v).pml4)
unfolding of_value
aligned-IsAddress v = (
  record {
    page_lt = omega arith;
    dir_lt = omega arith;
    pdp_lt = omega arith;
    pml4_lt = omega arith;
  },
  record {
    page_lt = omega arith;
    dir_lt = omega arith;
    pdp_lt = omega arith;
    pml4_lt = omega arith;
  },
  omega arith,
)

aligned-IsPage : (v : ℕ) → IsPage v (aligned v)
aligned-IsPage v = (omega arith, omega arith, omega arith)

offset_lem :
    (v : ℕ) (f : FileMapping)
    → Covers f v
    → IsOffset f (aligned v) ((aligned v + 2 ^ 64 - f.vaddr_begin) % 2 ^ 64)
offset_lem v f covers = (omega arith, omega (arith, covers))

cache-Resolves :
    (load : Load) (task : Space) (levels : Levels) (error_code v : ℕ) (m : Machine)
    (f : FileMapping)
    → fault_bit 0 error_code ≡ false
    → IsOutside task v
    → IsFirst v task.file_maps f
    → (r : Code × Machine) → SetsUp true levels m (of_value (aligned v)) 1 r
    → Resolves load task levels error_code v m (fill_cache load f v r)
unfolding fill_cache
cache-Resolves load task levels error_code v m f absent out first _
      (mapped m' levels' ok ext maps) =
    loaded f (aligned v) ((aligned v + 2 ^ 64 - f.vaddr_begin) % 2 ^ 64) m' absent out first
      (aligned-IsPage v) (offset_lem v f first.3) (mapped m' levels' ok ext maps)
cache-Resolves load task levels error_code v m f absent out first _
      (out_of_frames m' levels' ok ext full) =
    no_page f (aligned v) m' absent out first (aligned-IsPage v)
      (out_of_frames m' levels' ok ext full)

mapping-Resolves :
    (load : Load) (task : Space) (levels : Levels) (error_code v : ℕ) (m : Machine)
    → fault_bit 0 error_code ≡ false
    → IsOutside task v
    → SetsUp true levels m
        (of_value (aligned v))
        1
        (setup_page_maps (of_value (aligned v)) 1 true m)
    → (o : Option FileMapping) → Finds v task.file_maps o
    → Resolves load task levels error_code v m (load_mapping load v m o)
unfolding load_mapping prepare_page_cache
mapping-Resolves load task levels error_code v m absent out set _ (missed none_of) =
    nowhere absent out none_of
mapping-Resolves load task levels error_code v m absent out set _ (found f first) =
    cache-Resolves load task levels error_code v m f absent out first
      (setup_page_maps (of_value (aligned v)) 1 true m) set

-- HandlePageFault, for an address in the upper half: a write by a user program to a page that is
-- present gets a copy of the page; any other fault at a present page is kAlreadyAllocated, and
-- nothing changes; else an address of the demand paging range gets its page; an address outside of
-- it, but in a file mapping, gets its page, into which 4096 bytes of the file of the first
-- such mapping are loaded, from the page's distance to the beginning of the mapping on; where no
-- frame is free for a page, the result is kNoEnoughMemory; and any other address is
-- kIndexOutOfRange, and nothing changes. The tables are as SetupPageMaps and CopyOnePage need them.
pub handle_page_fault-Resolves :
    (load : Load) (task : Space) (levels : Levels) (error_code v : ℕ) (m : Machine)
    → IsTabled levels m
    → levels m.cr3 ≡ 4
    → 256 ≤ (of_value v).pml4
    → (fault_bit 0 error_code ≡ true → Reaches 4 (of_value v) m.pages m.cr3)
    → (fault_bit 0 error_code ≡ true
        → get_bit m.manager (frame_of 4 (of_value v) m.pages m.cr3) ≡ true)
    → Resolves load task levels error_code v m (handle_page_fault load task error_code v m)
unfolding handle_page_fault load_missing
handle_page_fault-Resolves load task levels error_code v m ok top high reach used =
    let (fine, fine', same) = aligned-IsAddress v in
    let load_it =
      setup_page_maps-SetsUp true levels m (of_value (aligned v)) 1 ok top fine'
        (omega (arith, same, high)) in
    elim (Bool-cases (fault_bit 0 error_code)) [
      | inl present ↦ elim (Bool-cases (fault_bit 1 error_code)) [
        | inl write ↦ elim (Bool-cases (fault_bit 2 error_code)) [
          | inl user ↦
              rw (present, write, user)
                (copied (copy_one_page v m) present write user
                  (copy_one_page-Copies levels m v ok top high (reach present) (used present)))
          | inr kernel ↦ rw (present, write, kernel) (rejected present (rw (write, kernel) refl))
        ]
        | inr read ↦ rw (present, read) (rejected present (rw read refl))
      ]
      | inr absent ↦
          rw absent (elim (Bool-cases (leb task.dpaging_begin v && ltb v task.dpaging_end)) [
            | inl inside ↦ rw inside (
                paged (setup_page_maps (of_value v) 1 true m) absent (ground arith) (ground arith)
                  (setup_page_maps-SetsUp true levels m (of_value v) 1 ok top fine high))
            | inr outside ↦ rw outside (
                mapping-Resolves load task levels error_code v m absent (λ c. ground arith)
                  (load_it) (find_file_mapping task.file_maps v)
                  (find_file_mapping-Finds v task.file_maps))
          ])
    ]
