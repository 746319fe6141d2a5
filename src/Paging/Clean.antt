-- ===== src/Paging/Clean.antt =====
-- CleanPageMap and CleanPageMaps of Kernel/paging.cpp: the pages of an application are given back.
use mikan_os_x.Base.{ℕ, zero, suc, ◌-◌, ltb, if◌then◌else◌}
use mikan_os_x.Base.Fault.{Code, success, is_error}
use mikan_os_x.Memory.{BitmapMemoryManager, free}
use mikan_os_x.Paging.{LinearAddress, part, PageMapEntry, Machine, null_entry, write_entry}

-- The entry is cleared, once its frame is free.
unfoldable pub clear_entry : ℕ → ℕ → Machine → Code × BitmapMemoryManager → Code × Machine
clear_entry table i m (code, manager) =
    if is_error code
    then (code, record m { manager = manager })
    else (success, write_entry table i null_entry (record m { manager = manager }))

-- What follows the table below: a writable entry owns the frame that it leads to.
unfoldable pub release : ℕ → ℕ → PageMapEntry → Code × Machine → Code × Machine
release table i entry (code, m) =
    if is_error code
    then (code, m)
    else if entry.writable
    then clear_entry table i m (free entry.addr 1 m.manager)
    else (success, write_entry table i null_entry m)

unfoldable pub clean_entry : ℕ → (ℕ → Machine → Code × Machine) → ℕ → ℕ → Machine → Code × Machine
clean_entry level below table i m =
    let cleaned =
      release table i (m.pages table i)
        (if ltb 1 level then below (m.pages table i).addr m else (success, m)) in
    if (m.pages table i).present then cleaned else (success, m)

-- An error ends the loop.
unfoldable pub unless_error : (Machine → Code × Machine) → Code × Machine → Code × Machine
unless_error again (code, m) = if is_error code then (code, m) else again m

-- The entries from `i` on, one in each round.
unfoldable pub clean_loop :
    ℕ → ℕ → (ℕ → Machine → Code × Machine) → ℕ → ℕ → Machine → Code × Machine
clean_loop zero level below table i m = (success, m)
clean_loop (suc rounds) level below table i m =
    unless_error (λ m'. clean_loop rounds level below table (suc i) m')
      (clean_entry level below table i m)

-- CleanPageMap, for a level from 1 on: the entries of each table from the address's part on.
unfoldable pub clean_page_map : ℕ → LinearAddress → ℕ → Machine → Code × Machine
clean_page_map zero a table m = (success, m)
clean_page_map (suc level) a table m =
    clean_loop (512 - part (suc level) a) (suc level) (λ t m'. clean_page_map level a t m') table
      (part (suc level) a) m

unfoldable pub clean_page_maps : LinearAddress → Machine → Code × Machine
clean_page_maps a m = clean_page_map 4 a m.cr3 m

unfoldable pub free_page_map : ℕ → Machine → Code × Machine
free_page_map table m =
    let freed = free table 1 m.manager in (freed.0, record m { manager = freed.1 })
