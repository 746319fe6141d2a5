-- ===== src/Paging/CopyMaps.antt =====
-- CopyPageMaps of Kernel/paging.cpp: the tables of a new process lead to the pages of the old one.
use mikan_os_x.Base.{ℕ, zero, suc, ◌-◌, false, if◌then◌else◌}
use mikan_os_x.Base.Fault.{Code, success, is_error}
use mikan_os_x.Paging.{PageMapEntry, Machine, set_pointer, write_entry, Answer, new_page_map}
use mikan_os_x.Paging.Clean.{unless_error}

-- A page is shared, and the copy of its entry is read-only.
abbrev pub read_only : PageMapEntry → PageMapEntry
read_only e = record e { writable = false }

-- The entries of a table on level 1.
unfoldable pub share_pages : ℕ → ℕ → ℕ → ℕ → Machine → Machine
share_pages zero dest src i m = m
share_pages (suc rounds) dest src i m =
    share_pages rounds dest src (suc i)
      (if (m.pages src i).present then write_entry dest i (read_only (m.pages src i)) m else m)

-- A table that is present gets a copy, after NewPageMap.
unfoldable pub fill_table : (ℕ → ℕ → Machine → Code × Machine) → ℕ → ℕ → ℕ → Answer → Code × Machine
fill_table below dest src i ((table, code), m) =
    let filled =
      below table (m.pages src i).addr (write_entry dest i (set_pointer table (m.pages src i)) m) in
    if is_error code then (code, m) else filled

unfoldable pub copy_entry :
    (ℕ → ℕ → Machine → Code × Machine) → ℕ → ℕ → ℕ → Machine → Code × Machine
copy_entry below dest src i m =
    if (m.pages src i).present then fill_table below dest src i (new_page_map m) else (success, m)

unfoldable pub copy_loop :
    ℕ → (ℕ → ℕ → Machine → Code × Machine) → ℕ → ℕ → ℕ → Machine → Code × Machine
copy_loop zero below dest src i m = (success, m)
copy_loop (suc rounds) below dest src i m =
    unless_error (λ m'. copy_loop rounds below dest src (suc i) m') (copy_entry below dest src i m)

-- CopyPageMaps, for a level from 1 on.
unfoldable pub copy_page_maps : ℕ → ℕ → ℕ → ℕ → Machine → Code × Machine
copy_page_maps zero start dest src m = (success, m)
copy_page_maps (suc zero) start dest src m = (success, share_pages (512 - start) dest src start m)
copy_page_maps (suc (suc level)) start dest src m =
    copy_loop (512 - start) (λ d s m'. copy_page_maps (suc level) 0 d s m') dest src start m
