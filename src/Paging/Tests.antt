-- ===== src/Paging/Tests.antt =====
-- A machine whose tables are the frames 4 to 7 and lead from entry 256 to the page in frame 8.
use mikan_os_x.Base.{
  ℕ, ◌≤◌, ◌≡◌, ◌-◌, ◌+◌, ◌*◌, ◌^◌, refl, true, some, ◌==◌, if◌then◌else◌, [], ◌∷◌, arith,
}
use mikan_os_x.Base.Fault.{success}
use mikan_os_x.Memory.{BitmapMemoryManager, get_bit}
use mikan_os_x.Memory.Single.{IsManager}
use mikan_os_x.Paging.{of_value, PageMapEntry, null_entry, Machine, setup_page_maps, part}
use mikan_os_x.Paging.Address.{IsAddress}
use mikan_os_x.Paging.Frames.{Levels, IsTabled}
use mikan_os_x.Paging.Setup.{SetsUp, setup_page_maps-SetsUp}
use mikan_os_x.Paging.Copy.{Reaches, Copies, copy_one_page-Copies}
use mikan_os_x.Paging.Clean.{clean_page_maps}
use mikan_os_x.Paging.Clears.{IsClearable}
use mikan_os_x.Paging.Drops.{Cleans}
use mikan_os_x.Paging.Cleaned.{Emptied, clean_page_maps-Cleans}
use mikan_os_x.Paging.Fault.{
  FileMapping, Space, Load, find_file_mapping, copy_one_page, frame_of, handle_page_fault,
}
use mikan_os_x.Paging.Resolve.{Resolves, handle_page_fault-Resolves}
use mikan_os_x.Paging.Identity.{
  Tables, setup_identity_page_table, Translates, setup_identity_page_table-Translates,
}
use mikan_os_x.Base.{subst}
use mikan_os_x.Paging.CopyMaps.{copy_page_maps}
use mikan_os_x.Paging.Shared.{Source}
use mikan_os_x.Paging.Copied.{Copied, copy_page_maps-Copied}

abbrev manager : BitmapMemoryManager
manager = record { alloc_map = (2 ^ 64 - 1 - 12) ∷ 0 ∷ []; range_begin = 1; range_end = 100 }

abbrev entry : ℕ → PageMapEntry
entry frame = record { present = true; writable = true; user = true; flags = 0; addr = frame }

abbrev at_entry : ℕ → ℕ → ℕ → PageMapEntry
at_entry index frame i = if i == index then entry frame else null_entry

abbrev machine : Machine
machine = record {
  pages = λ f i.
      if f == 4
      then at_entry 256 5 i
      else if f == 5
      then at_entry 0 6 i
      else if f == 6
      then at_entry 0 7 i
      else if f == 7
      then at_entry 0 8 i
      else null_entry;
  manager = manager;
  cr3 = 4;
}

abbrev levels : Levels
levels f = if f == 4 then 4 else if f == 5 then 3 else if f == 6 then 2 else if f == 7 then 1 else 0

-- The first address of the upper half.
abbrev user_base : ℕ
user_base = 2 ^ 64 - 2 ^ 47

manager-IsManager : IsManager manager
manager-IsManager = record { valid = omega arith; begins = omega arith }

in_use :
    (get_bit manager 4 ≡ true)
    × (get_bit manager 5 ≡ true)
    × (get_bit manager 6 ≡ true)
    × (get_bit manager 7 ≡ true)
unfolding get_bit
in_use = (refl, refl, refl, refl)

machine-IsTabled : IsTabled levels machine
machine-IsTabled =
    let (b4, b5, b6, b7) = in_use in
    record {
      manager_ok = manager-IsManager;
      marked = λ f h. ground (arith, b4, b5, b6, b7);
      linked = λ f i level e low here. ground arith;
    }

user_base-IsAddress : IsAddress (of_value user_base)
unfolding of_value
user_base-IsAddress = record {
  page_lt = omega arith;
  dir_lt = omega arith;
  pdp_lt = omega arith;
  pml4_lt = omega arith;
}

user_base-high : 256 ≤ (of_value user_base).pml4
unfolding of_value
user_base-high = omega arith

setup_page_maps-SetsUp_example :
    SetsUp true levels machine
      (of_value user_base)
      3
      (setup_page_maps (of_value user_base) 3 true machine)
setup_page_maps-SetsUp_example =
    setup_page_maps-SetsUp true levels machine (of_value user_base) 3 machine-IsTabled refl
      user_base-IsAddress user_base-high

machine-IsClearable : IsClearable levels machine
machine-IsClearable = record {
  valid = manager-IsManager.valid;
  linked = λ f i level e low here. ground arith;
  owned = λ f i pos low here writes. ground arith;
}

clean_page_maps-Cleans_example :
    (m' : Machine) × (clean_page_maps (of_value user_base) machine ≡ (success, m'))
    × Cleans levels (of_value user_base) 4 machine.cr3 (of_value user_base).pml4 machine m'
    × Emptied 4 (of_value user_base) machine.cr3 machine m'
clean_page_maps-Cleans_example =
    clean_page_maps-Cleans (of_value user_base) levels machine machine-IsClearable refl
      user_base-IsAddress user_base-high

user_base-Reaches : Reaches 4 (of_value user_base) machine.pages machine.cr3
unfolding Reaches of_value part
user_base-Reaches = (refl, (refl, (refl, (refl, tt))))

user_page_in_use :
    get_bit manager (frame_of 4 (of_value user_base) machine.pages machine.cr3) ≡ true
unfolding get_bit frame_of of_value part
user_page_in_use = refl

copy_one_page-Copies_example : Copies (of_value user_base) machine (copy_one_page user_base machine)
copy_one_page-Copies_example =
    copy_one_page-Copies levels machine user_base machine-IsTabled refl user_base-high
      user_base-Reaches user_page_in_use

-- A Load that marks the frame 90 with the offset in the file.
abbrev marks : Load
marks fd address len offset m = record m {
  pages = λ f i. if f == 90 then entry (fd + offset) else m.pages f i;
}

-- Two mappings, of which the first one does not reach the second page.
abbrev first_page : FileMapping
first_page = record { fd = 3; vaddr_begin = user_base; vaddr_end = user_base + 4096 }

abbrev both_pages : FileMapping
both_pages = record { fd = 5; vaddr_begin = user_base; vaddr_end = user_base + 8192 }

abbrev space : Space
space = record {
  dpaging_begin = user_base + 2 ^ 20;
  dpaging_end = user_base + 2 ^ 21;
  file_maps = first_page ∷ both_pages ∷ [];
}

-- An address in the second page, which is not present.
abbrev second_page : ℕ
second_page = user_base + 4096 + 100

second_page-high : 256 ≤ (of_value second_page).pml4
unfolding of_value
second_page-high = omega arith

handle_page_fault-Resolves_example :
    Resolves marks space levels 6 second_page machine
      (handle_page_fault marks space 6 second_page machine)
handle_page_fault-Resolves_example =
    handle_page_fault-Resolves marks space levels 6 second_page machine machine-IsTabled refl
      second_page-high (λ present. absurd (ground (arith, present)))
      (λ present. absurd (ground (arith, present)))

second_mapping : find_file_mapping space.file_maps second_page ≡ some both_pages
unfolding find_file_mapping
second_mapping = refl

-- Tables with other words before.
abbrev old_tables : Tables
old_tables = record { pml4_table = λ i. 7; pdp_table = λ i. 7; page_directory = λ i j. 7 }

setup_identity_page_table-Translates_example :
    Translates
      (5 * 2 ^ 12)
      (6 * 2 ^ 12)
      (setup_identity_page_table (5 * 2 ^ 12) (6 * 2 ^ 12) old_tables)
      5000000000
      5000000000
setup_identity_page_table-Translates_example =
    setup_identity_page_table-Translates 5 6 old_tables 5000000000 (omega arith)

-- The table in frame 9 is to become a copy of the one in frame 4.
frame_7-Source : Source 0 machine.pages machine 9 7 0
unfolding Source
frame_7-Source = (in_use.3, (λ e. omega (arith, e)), (λ i. refl))

frame_6-Source : Source 1 machine.pages machine 9 6 0
unfolding Source
frame_6-Source = (
  in_use.2,
  (λ e. omega (arith, e)),
  (λ i. refl),
  (λ i low lt here.
      let leads : 7 ≡ (machine.pages 6 i).addr = ground (arith, here) in
      subst (λ c. Source 0 machine.pages machine 9 c 0) leads frame_7-Source),
)

frame_5-Source : Source 2 machine.pages machine 9 5 0
unfolding Source
frame_5-Source = (
  in_use.1,
  (λ e. omega (arith, e)),
  (λ i. refl),
  (λ i low lt here.
      let leads : 6 ≡ (machine.pages 5 i).addr = ground (arith, here) in
      subst (λ c. Source 1 machine.pages machine 9 c 0) leads frame_6-Source),
)

frame_4-Source : Source 3 machine.pages machine 9 4 256
unfolding Source
frame_4-Source = (
  in_use.0,
  (λ e. omega (arith, e)),
  (λ i. refl),
  (λ i low lt here.
      let leads : 5 ≡ (machine.pages 4 i).addr = ground (arith, here) in
      subst (λ c. Source 2 machine.pages machine 9 c 0) leads frame_5-Source),
)

nine_in_use : get_bit manager 9 ≡ true
unfolding get_bit
nine_in_use = refl

copy_page_maps-Copied_example :
    Copied 3 machine.pages machine 9 4 256 (copy_page_maps 4 256 9 4 machine)
copy_page_maps-Copied_example =
    copy_page_maps-Copied 3 256 machine 9 4 manager-IsManager nine_in_use (omega arith)
      frame_4-Source
