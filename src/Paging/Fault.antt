-- ===== src/Paging/Fault.antt =====
-- HandlePageFault of Kernel/paging.cpp and the functions that it calls, and FileMapping of
-- task.hpp.
use mikan_os_x.Base.{
  ℕ, zero, suc, ◌+◌, ◌-◌, ◌*◌, ◌/◌, ◌%◌, ◌^◌, Bool, true, ◌==◌, ltb, leb, ◌&&◌, if◌then◌else◌, List,
  [], ◌∷◌, Option, none, some,
}
use mikan_os_x.Base.Fault.{Code, success, already_allocated, index_out_of_range, is_error}
use mikan_os_x.Paging.{
  LinearAddress, of_value, part, set_pointer, Pages, Machine, with_page, write_entry, Answer,
  new_page_map, setup_page_maps,
}

pub record FileMapping : Type 0 where
  pub fd : ℕ
  pub vaddr_begin : ℕ
  pub vaddr_end : ℕ

-- What a page fault reads of the current task: its demand paging range and its file mappings.
pub record Space : Type 0 where
  pub dpaging_begin : ℕ
  pub dpaging_end : ℕ
  pub file_maps : List FileMapping

-- Load of the task's file descriptors, by the number of the descriptor: `len` bytes from a file
-- offset to an address.
abbrev pub Load : Type 0
Load = (fd address len offset : ℕ) → Machine → Machine

unfoldable pub find_file_mapping : List FileMapping → ℕ → Option FileMapping
find_file_mapping [] causal_vaddr = none
find_file_mapping (m ∷ fmaps) causal_vaddr =
    let next = find_file_mapping fmaps causal_vaddr in
    if leb m.vaddr_begin causal_vaddr && ltb causal_vaddr m.vaddr_end then some m else next

-- `value` with offset 0.
abbrev pub aligned : ℕ → ℕ
aligned value = value / 2 ^ 12 * 2 ^ 12

-- The file is read, once its page is set up. `file_offset` is a 64-bit difference.
unfoldable pub fill_cache : Load → FileMapping → ℕ → Code × Machine → Code × Machine
fill_cache load m causal_vaddr (code, machine) = if is_error code then (code, machine) else (
  success,
  load m.fd (aligned causal_vaddr) 4096 ((aligned causal_vaddr + 2 ^ 64 - m.vaddr_begin) % 2 ^ 64)
      machine,
)

unfoldable pub prepare_page_cache : Load → FileMapping → ℕ → Machine → Code × Machine
prepare_page_cache load m causal_vaddr machine =
    fill_cache load m causal_vaddr
      (setup_page_maps (of_value (aligned causal_vaddr)) 1 true machine)

-- SetPageContent, for a level from 1 on. There is no TLB in the model.
unfoldable pub set_page_content : ℕ → LinearAddress → ℕ → ℕ → Machine → Code × Machine
set_page_content zero a content table m = (success, m)
set_page_content (suc zero) a content table m = (
  success,
  write_entry table (part 1 a)
      (record (set_pointer content (m.pages table (part 1 a))) { writable = true }) m,
)
set_page_content (suc (suc level)) a content table m =
    set_page_content (suc level) a content (m.pages table (part (suc (suc level)) a)).addr m

-- The frame that the tables from a level on lead to: where the processor reads at an address.
unfoldable pub frame_of : ℕ → LinearAddress → Pages → ℕ → ℕ
frame_of zero a pages table = table
frame_of (suc level) a pages table = frame_of level a pages (pages table (part (suc level) a)).addr

-- CopyOnePage, after NewPageMap.
unfoldable pub copy_to : ℕ → Answer → Code × Machine
copy_to causal_addr ((p, code), m) =
    let copied = set_page_content 4 (of_value causal_addr) p m.cr3 (record m {
      pages = with_page p (m.pages (frame_of 4 (of_value causal_addr) m.pages m.cr3)) m.pages;
    }) in
    if is_error code then (code, m) else copied

unfoldable pub copy_one_page : ℕ → Machine → Code × Machine
copy_one_page causal_addr m = copy_to causal_addr (new_page_map m)

-- What FindFileMapping finds is loaded.
unfoldable pub load_mapping : Load → ℕ → Machine → Option FileMapping → Code × Machine
load_mapping load causal_addr m none = (index_out_of_range, m)
load_mapping load causal_addr m (some mapping) = prepare_page_cache load mapping causal_addr m

-- A fault at an address of the current task that is not present.
unfoldable pub load_missing : Load → Space → ℕ → Machine → Code × Machine
load_missing load task causal_addr m =
    if leb task.dpaging_begin causal_addr && ltb causal_addr task.dpaging_end
    then setup_page_maps (of_value causal_addr) 1 true m
    else load_mapping load causal_addr m (find_file_mapping task.file_maps causal_addr)

-- Bit `i` of the error code.
abbrev pub fault_bit : ℕ → ℕ → Bool
fault_bit i error_code = error_code / 2 ^ i % 2 == 1

unfoldable pub handle_page_fault : Load → Space → ℕ → ℕ → Machine → Code × Machine
handle_page_fault load task error_code causal_addr m =
    if fault_bit 0 error_code && fault_bit 1 error_code && fault_bit 2 error_code
    then copy_one_page causal_addr m
    else if fault_bit 0 error_code
    then (already_allocated, m)
    else load_missing load task causal_addr m
