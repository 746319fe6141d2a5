-- ===== src/Paging/Copy.antt =====
-- CopyOnePage of Kernel/paging.cpp: the page that was written to gets a frame of its own.
use mikan_os_x.Base.{
  ℕ, zero, suc, ◌^◌, ◌<◌, ◌≤◌, ◌≡◌, ◌≢◌, refl, ap, sym, ◌∙◌, subst, true, false, ◌==◌,
  if◌then◌else◌, arith, ◌⊎◌,
}
use mikan_os_x.Base.Fault.{Code, success, no_enough_memory}
use mikan_os_x.Memory.{BitmapMemoryManager, get_bit, Allocation}
use mikan_os_x.Memory.Single.{take_frame, IsFull, Takes, took, full, take_frame-Takes}
use mikan_os_x.Paging.{
  LinearAddress, of_value, part, Pages, Machine, null_entry, set_pointer, with_page, write_entry,
  new_page_map, zeroed,
}
use mikan_os_x.Paging.Frames.{Levels, first_entry, IsTabled}
use mikan_os_x.Paging.Fault.{set_page_content, frame_of, copy_to, copy_one_page}

-- The entries of an address are present from a level on.
unfoldable pub Reaches : ℕ → LinearAddress → Pages → ℕ → Type 0
Reaches zero a pages table = Unit
Reaches (suc level) a pages table =
    ((pages table (part (suc level) a)).present ≡ true)
    × Reaches level a pages (pages table (part (suc level) a)).addr

-- The table on level 1.
unfoldable pub last_table : ℕ → LinearAddress → Pages → ℕ → ℕ
last_table zero a pages table = table
last_table (suc level) a pages table =
    last_table level a pages (pages table (part (suc (suc level)) a)).addr

set_page_content_lem :
    (level : ℕ) (a : LinearAddress) (content table : ℕ) (m : Machine)
    → set_page_content (suc level) a content table m ≡ (
      success,
      write_entry
          (last_table level a m.pages table)
          (part 1 a)
          (record (set_pointer content (m.pages (last_table level a m.pages table) (part 1 a))) {
            writable = true;
          })
          m,
    )
unfolding set_page_content last_table
set_page_content_lem zero a content table m = refl
set_page_content_lem (suc level) a content table m =
    set_page_content_lem level a content (m.pages table (part (suc (suc level)) a)).addr m

-- Tables above level 1 decide which table is reached.
last_table-same :
    (level : ℕ) (a : LinearAddress) (levels : Levels) (m : Machine) (pages : Pages) (table : ℕ)
    → IsTabled levels m
    → levels table ≡ suc level
    → first_entry (suc level) ≤ part (suc level) a
    → level < 4
    → Reaches (suc level) a m.pages table
    → ((f i : ℕ) → 1 < levels f → pages f i ≡ m.pages f i)
    → (last_table level a pages table ≡ last_table level a m.pages table)
      × (frame_of (suc level) a pages table
          ≡ (pages (last_table level a m.pages table) (part 1 a)).addr)
      × (levels (last_table level a m.pages table) ≡ 1)
unfolding last_table frame_of Reaches
last_table-same zero a levels m pages table ok at low h here same = (refl, refl, at)
last_table-same (suc level) a levels m pages table ok at low h (here, below) same =
    let i = part (suc (suc level)) a in
    let child = ok.linked table i level at low here in
    let e : (pages table i).addr ≡ (m.pages table i).addr =
      ap (λ x. x.addr) (same table i (omega (arith, at))) in
    let (t, f, l) =
      last_table-same level a levels m pages (m.pages table i).addr ok child (ground arith)
        (omega arith) below same in
    (ap (last_table level a pages) e ∙ t, ap (frame_of (suc level) a pages) e ∙ f, l)

-- How CopyOnePage ends.
pub data Copies (a : LinearAddress) (m : Machine) : Code × Machine → Type 0 where
  copied :
      (s : ℕ) (m' : Machine)
      → get_bit m.manager s ≡ false
      → get_bit m'.manager s ≡ true
      → m'.cr3 ≡ m.cr3
      → frame_of 4 a m'.pages m'.cr3 ≡ s
      → ((i : ℕ) → m'.pages s i ≡ m.pages (frame_of 4 a m.pages m.cr3) i)
      → ((m'.pages (last_table 3 a m.pages m.cr3) a.page).writable ≡ true)
      → ((f i : ℕ)
          → f ≢ s
          → (f ≢ last_table 3 a m.pages m.cr3) ⊎ (i ≢ a.page)
          → m'.pages f i ≡ m.pages f i)
      → Copies a m (success, m')
  no_frame : IsFull m.manager → Copies a m (no_enough_memory, m)

copied_at :
    (levels : Levels) (m : Machine) (v s f0 table f : ℕ) (manager : BitmapMemoryManager)
    → IsTabled levels m
    → levels m.cr3 ≡ 4
    → 256 ≤ (of_value v).pml4
    → Reaches 4 (of_value v) m.pages m.cr3
    → levels s ≡ 0
    → levels table ≡ 1
    → f0 ≢ s
    → f ≡ f0
    → f0 ≡ frame_of 4 (of_value v) m.pages m.cr3
    → table ≡ last_table 3 (of_value v) m.pages m.cr3
    → get_bit m.manager s ≡ false
    → s < 2 ^ 25
    → get_bit manager s ≡ (if s == s then true else get_bit m.manager s)
    → Copies (of_value v) m (
        set_page_content 4 (of_value v) s m.cr3 (record {
          pages =
              with_page s
                (with_page s (λ i. null_entry) m.pages f)
                (with_page s (λ i. null_entry) m.pages);
          manager = manager;
          cr3 = m.cr3;
        }))
unfolding write_entry part
copied_at levels m v s f0 table f manager ok top high here fresh low apart same e0 e1 clear small
      bit =
    let a = of_value v in
    let pages : Pages =
      with_page s (with_page s (λ i. null_entry) m.pages f)
        (with_page s (λ i. null_entry) m.pages) in
    let m1 : Machine = record { pages = pages; manager = manager; cr3 = m.cr3 } in
    let written = λ (t : ℕ).
      write_entry t (part 1 a) (record (set_pointer s (pages t (part 1 a))) { writable = true })
        m1 in
    let (t1, e, l) =
      last_table-same 3 a levels m pages m.cr3 ok top high (omega arith) here
        (λ f i h. ground arith) in
    let path : set_page_content 4 a s m.cr3 m1 ≡ (success, written table) =
      set_page_content_lem 3 a s m.cr3 m1 ∙ ap (λ t. (success, written t)) (t1 ∙ sym e1) in
    let (t2, e2, l2) =
      last_table-same 3 a levels m (written table).pages m.cr3 ok top high (omega arith) here
        (λ f i h. ground arith) in
    subst (Copies a m) (sym path) (
      copied s (written table) clear (ground arith) refl (ground arith) (λ i. ground arith)
        (ground arith) (λ f i h other. ground arith))

copy_to-Copies :
    (levels : Levels) (m : Machine) (v : ℕ)
    → IsTabled levels m
    → levels m.cr3 ≡ 4
    → 256 ≤ (of_value v).pml4
    → Reaches 4 (of_value v) m.pages m.cr3
    → get_bit m.manager (frame_of 4 (of_value v) m.pages m.cr3) ≡ true
    → (r : Allocation) → Takes m.manager r
    → Copies (of_value v) m (copy_to v (zeroed m r))
unfolding copy_to zeroed part
copy_to-Copies levels m v ok top high here used _ (full all) = no_frame all
copy_to-Copies levels m v ok top high here used _ (took s manager clear small bits fine) =
    let a = of_value v in
    let f0 = frame_of 4 a m.pages m.cr3 in
    let zero_page = with_page s (λ i. null_entry) m.pages in
    let fresh : levels s ≡ 0 = ground (arith, ok.marked s) in
    let (t0, e0, l0) =
      last_table-same 3 a levels m m.pages m.cr3 ok top high (omega arith) here (λ f i h. refl) in
    let (tz, ez, lz) =
      last_table-same 3 a levels m zero_page m.cr3 ok top high (omega arith) here
        (λ f i h. ground arith) in
    let same_frame : frame_of 4 a zero_page m.cr3 ≡ f0 = ground (arith, e0, ez) in
    copied_at levels m v s f0 (last_table 3 a m.pages m.cr3) (frame_of 4 a zero_page m.cr3) manager
      ok top high here fresh l0 (ground arith) same_frame refl refl clear small (bits s)

-- CopyOnePage, for an address in the upper half whose entries are present on all four levels and
-- whose page is in use, returns in one of two ways. Either a frame that was free is taken, the
-- address leads to it, it holds what the page held before, its entry is writable, and no other word
-- of memory changes. Or it returns kNoEnoughMemory and changes nothing, and the manager has no free
-- frame.
pub copy_one_page-Copies :
    (levels : Levels) (m : Machine) (v : ℕ)
    → IsTabled levels m
    → levels m.cr3 ≡ 4
    → 256 ≤ (of_value v).pml4
    → Reaches 4 (of_value v) m.pages m.cr3
    → get_bit m.manager (frame_of 4 (of_value v) m.pages m.cr3) ≡ true
    → Copies (of_value v) m (copy_one_page v m)
unfolding copy_one_page new_page_map
copy_one_page-Copies levels m v ok top high here used =
    copy_to-Copies levels m v ok top high here used (take_frame m.manager)
      (take_frame-Takes m.manager ok.manager_ok)
