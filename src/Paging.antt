-- ===== src/Paging.antt =====
-- Kernel/paging.hpp and paging.cpp: the page tables. A page of physical memory is its 512 words,
-- read as PageMapEntry; a pointer to a page is the number of its frame.
pub mod Address
pub mod Clean
pub mod Drops
pub mod Cleaned
pub mod Clears
pub mod Copied
pub mod CopyMaps
pub mod Copy
pub mod Fault
pub mod Frames
pub mod Identity
pub mod Maps
pub mod Resolve
pub mod Setup
pub mod Shared
pub mod SharedPages
pub mod SharedTables
mod Tests
use mikan_os_x.Base.{
  ℕ, zero, suc, ◌+◌, ◌-◌, ◌*◌, ◌/◌, ◌%◌, ◌^◌, Bool, true, false, ◌==◌, ltb, leb, ◌&&◌,
  if◌then◌else◌, List, [], ◌∷◌, Option, none, some,
}
use mikan_os_x.Base.Fault.{Code, success, already_allocated, index_out_of_range, is_error}
use mikan_os_x.Memory.{BitmapMemoryManager, Allocation, free}
use mikan_os_x.Memory.Single.{take_frame}

-- The union LinearAddress4Level by its bit fields.
pub record LinearAddress : Type 0 where
  pub offset : ℕ
  pub page : ℕ
  pub dir : ℕ
  pub pdp : ℕ
  pub pml4 : ℕ
  pub high : ℕ

-- The fields of `value`.
unfoldable pub of_value : ℕ → LinearAddress
of_value v = record {
  offset = v % 2 ^ 12;
  page = v / 2 ^ 12 % 2 ^ 9;
  dir = v / 2 ^ 21 % 2 ^ 9;
  pdp = v / 2 ^ 30 % 2 ^ 9;
  pml4 = v / 2 ^ 39 % 2 ^ 9;
  high = v / 2 ^ 48 % 2 ^ 16;
}

unfoldable pub part : ℕ → LinearAddress → ℕ
part zero a = a.offset
part (suc zero) a = a.page
part (suc (suc zero)) a = a.dir
part (suc (suc (suc zero))) a = a.pdp
part (suc (suc (suc (suc zero)))) a = a.pml4
part _ a = 0

unfoldable pub set_part : ℕ → ℕ → LinearAddress → LinearAddress
set_part zero v a = record a { offset = v % 2 ^ 12 }
set_part (suc zero) v a = record a { page = v % 2 ^ 9 }
set_part (suc (suc zero)) v a = record a { dir = v % 2 ^ 9 }
set_part (suc (suc (suc zero))) v a = record a { pdp = v % 2 ^ 9 }
set_part (suc (suc (suc (suc zero)))) v a = record a { pml4 = v % 2 ^ 9 }
set_part _ v a = a

-- The union PageMapEntry. `flags` are the bits that no code here reads or writes by themselves.
pub record PageMapEntry : Type 0 where
  pub present : Bool
  pub writable : Bool
  pub user : Bool
  pub flags : ℕ
  pub addr : ℕ

abbrev pub null_entry : PageMapEntry
null_entry = record { present = false; writable = false; user = false; flags = 0; addr = 0 }

-- SetPointer, for a page; the field has 40 bits.
abbrev pub set_pointer : ℕ → PageMapEntry → PageMapEntry
set_pointer frame e = record e { addr = frame % 2 ^ 40 }

abbrev pub Pages : Type 0
Pages = ℕ → ℕ → PageMapEntry

-- Physical memory, the manager of its frames, and the table that CR3 points to.
pub record Machine : Type 0 where
  pub pages : Pages
  pub manager : BitmapMemoryManager
  pub cr3 : ℕ

abbrev pub with_entry : ℕ → ℕ → PageMapEntry → Pages → Pages
with_entry frame index e pages f i =
    if frame == f then if index == i then e else pages f i else pages f i

abbrev pub with_page : ℕ → (ℕ → PageMapEntry) → Pages → Pages
with_page frame page pages f i = if frame == f then page i else pages f i

unfoldable pub write_entry : ℕ → ℕ → PageMapEntry → Machine → Machine
write_entry frame index e m = record m { pages = with_entry frame index e m.pages }

-- WithError<PageMapEntry*>
abbrev pub Answer : Type 0
Answer = (ℕ × Code) × Machine

-- NewPageMap, after Allocate: a frame of zeros.
unfoldable pub zeroed : Machine → Allocation → Answer
zeroed m ((frame, code), manager) =
    if is_error code then ((0, code), record m { manager = manager }) else (
      (frame, success),
      record m { manager = manager; pages = with_page frame (λ i. null_entry) m.pages },
    )

unfoldable pub new_page_map : Machine → Answer
new_page_map m = zeroed m (take_frame m.manager)

-- SetNewPageMapIfNotPresent, for the entry at an index of a table, after NewPageMap.
unfoldable pub link_child : ℕ → ℕ → Answer → Answer
link_child table index ((child, code), m) = if is_error code then ((0, code), m) else (
  (child, success),
  write_entry table index (record (set_pointer child (m.pages table index)) { present = true }) m,
)

unfoldable pub set_new_page_map_if_not_present : ℕ → ℕ → Machine → Answer
set_new_page_map_if_not_present table index m =
    if (m.pages table index).present
    then (((m.pages table index).addr, success), m)
    else link_child table index (new_page_map m)

-- The bits that SetupPageMap sets in an entry.
abbrev pub open_entry : Bool → PageMapEntry → PageMapEntry
open_entry writable e = record e { user = true; writable = writable }

-- `addr` at the next entry of a level, and at 0 on the levels below.
unfoldable pub clear_below : ℕ → LinearAddress → LinearAddress
clear_below zero a = a
clear_below (suc zero) a = a
clear_below (suc (suc level)) a = clear_below (suc level) (set_part (suc level) 0 a)

unfoldable pub next_entry : ℕ → ℕ → LinearAddress → LinearAddress
next_entry level index a = clear_below level (set_part level (index + 1) a)

-- What one round of SetupPageMap does below an entry: the pages that remain.
abbrev pub Below : Type 0
Below = ℕ → LinearAddress → ℕ → Machine → Answer

-- The pages that remain after the table below, whose error leaves the count as it was.
unfoldable pub remaining : ℕ → Answer → Answer
remaining n ((rest, code), m) = if is_error code then ((n, code), m) else ((rest, success), m)

-- A round of the loop of SetupPageMap, after SetNewPageMapIfNotPresent: on level 1 it sets up a
-- page, on the levels above the table below.
unfoldable pub open_child : ℕ → Bool → Below → ℕ → LinearAddress → ℕ → Answer → Answer
open_child level writable below table a n ((child, code), m) =
    let opened = λ (w : Bool).
      write_entry table (part level a) (open_entry w (m.pages table (part level a))) m in
    if is_error code
    then ((n, code), m)
    else if level == 1
    then ((n - 1, success), opened writable)
    else remaining n (below child a n (opened true))

unfoldable pub setup_entry : ℕ → Bool → Below → ℕ → LinearAddress → ℕ → Machine → Answer
setup_entry level writable below table a n m =
    open_child level writable below table a n
      (set_new_page_map_if_not_present table (part level a) m)

-- The end of a round: an error and entry 511 end the loop.
unfoldable pub go_on : ℕ → (ℕ → Machine → Answer) → Answer → Answer
go_on index again ((rest, code), m) =
    if is_error code
    then ((rest, code), m)
    else if index == 511
    then ((rest, success), m)
    else again rest m

-- The loop. It ends at entry 511 at the latest, so that 512 rounds are enough.
unfoldable pub setup_loop : ℕ → ℕ → Bool → Below → ℕ → LinearAddress → ℕ → Machine → Answer
setup_loop zero level writable below table a n m = ((n, success), m)
setup_loop (suc rounds) level writable below table a n m =
    let round =
      go_on (part level a)
        (λ rest m'.
          setup_loop rounds level writable below table (next_entry level (part level a) a) rest m')
        (setup_entry level writable below table a n m) in
    if n == 0 then ((0, success), m) else round

-- SetupPageMap, for a level from 1 on.
unfoldable pub setup_page_map : ℕ → Bool → Below
setup_page_map zero writable table a n m = ((n, success), m)
setup_page_map (suc level) writable table a n m =
    setup_loop 512 (suc level) writable
      (λ child a' n' m'. setup_page_map level writable child a' n' m') table a n m

unfoldable pub setup_page_maps : LinearAddress → ℕ → Bool → Machine → Code × Machine
setup_page_maps a n writable m =
    let result = setup_page_map 4 writable m.cr3 a n m in (result.0.1, result.1)
