-- ===== src/Paging/Identity.antt =====
-- SetupIdentityPageTable of Kernel/paging.cpp: the kernel's own tables.
use mikan_os_x.Base.Bits.{bit_or-add}
use mikan_os_x.Base.{
  ℕ, zero, suc, ◌+◌, ◌*◌, ◌/◌, ◌%◌, ◌^◌, ◌<◌, ◌≡◌, refl, ◌==◌, leb, ltb, ◌&&◌, if◌then◌else◌,
  bit_or, true, ◌∙◌, arith,
}

-- kPageSize2M, kPageSize1G and kPageDirectoryCount.
abbrev pub page_size_2m : ℕ
page_size_2m = 512 * 4096

abbrev pub page_size_1g : ℕ
page_size_1g = 512 * page_size_2m

abbrev pub page_directory_count : ℕ
page_directory_count = 64

-- The arrays of the kernel's tables, by index.
pub record Tables : Type 0 where
  pub pml4_table : ℕ → ℕ
  pub pdp_table : ℕ → ℕ
  pub page_directory : ℕ → ℕ → ℕ

-- A store to an array.
abbrev pub stored : ℕ → ℕ → (ℕ → ℕ) → ℕ → ℕ
stored index word array i = if i == index then word else array i

-- An entry of pml4_table or pdp_table, for the address of a table: present and writable.
unfoldable pub table_word : ℕ → ℕ
table_word address = bit_or address 0x003

-- page_directory[i_pdpt][i_pd]: present, writable, and a page of 2 MB.
unfoldable pub page_word : ℕ → ℕ → ℕ
page_word i_pdpt i_pd = bit_or (i_pdpt * page_size_1g + i_pd * page_size_2m) 0x083

-- The inner loop, on one directory.
unfoldable pub fill_directory : (rounds i_pd i_pdpt : ℕ) → (ℕ → ℕ) → ℕ → ℕ
fill_directory zero i_pd i_pdpt directory = directory
fill_directory (suc rounds) i_pd i_pdpt directory =
    fill_directory rounds (suc i_pd) i_pdpt (stored i_pd (page_word i_pdpt i_pd) directory)

-- The outer loop, with page_directory at an address; each directory has 4096 bytes.
unfoldable pub fill_pdp : (rounds i_pdpt directory_addr : ℕ) → Tables → Tables
fill_pdp zero i_pdpt directory_addr t = t
fill_pdp (suc rounds) i_pdpt directory_addr t =
    fill_pdp rounds (suc i_pdpt) directory_addr (record t {
      pdp_table = stored i_pdpt (table_word (directory_addr + i_pdpt * 4096)) t.pdp_table;
      page_directory = λ i.
          if i == i_pdpt
          then fill_directory 512 0 i_pdpt (t.page_directory i)
          else t.page_directory i;
    })

-- SetupIdentityPageTable, with pdp_table and page_directory at their addresses; the registers are
-- the processor's.
unfoldable pub setup_identity_page_table : (pdp_addr directory_addr : ℕ) → Tables → Tables
setup_identity_page_table pdp_addr directory_addr t =
    fill_pdp page_directory_count 0 directory_addr
      (record t { pml4_table = stored 0 (table_word pdp_addr) t.pml4_table })

fill_directory_lem :
    (rounds i_pd i_pdpt j : ℕ) (directory : ℕ → ℕ)
    → fill_directory rounds i_pd i_pdpt directory j
      ≡ (if leb i_pd j && ltb j (i_pd + rounds) then page_word i_pdpt j else directory j)
unfolding fill_directory
fill_directory_lem zero i_pd i_pdpt j directory = ground arith
fill_directory_lem (suc rounds) i_pd i_pdpt j directory =
    fill_directory_lem rounds (suc i_pd) i_pdpt j (stored i_pd (page_word i_pdpt i_pd) directory)
    ∙ ground arith

fill_pdp_lem :
    (rounds i_pdpt directory_addr i j : ℕ) (t : Tables)
    → let t' = fill_pdp rounds i_pdpt directory_addr t in
      let filled = leb i_pdpt i && ltb i (i_pdpt + rounds) in
      (t'.pml4_table i ≡ t.pml4_table i)
      × (t'.pdp_table i
          ≡ (if filled then table_word (directory_addr + i * 4096) else t.pdp_table i))
      × (t'.page_directory i j
          ≡ (if filled && ltb j 512 then page_word i j else t.page_directory i j))
unfolding fill_pdp
fill_pdp_lem zero i_pdpt directory_addr i j t = (refl, ground arith, ground arith)
fill_pdp_lem (suc rounds) i_pdpt directory_addr i j t =
    let t1 : Tables = record t {
      pdp_table = stored i_pdpt (table_word (directory_addr + i_pdpt * 4096)) t.pdp_table;
      page_directory = λ i.
          if i == i_pdpt
          then fill_directory 512 0 i_pdpt (t.page_directory i)
          else t.page_directory i;
    } in
    let (a, b, c) = fill_pdp_lem rounds (suc i_pdpt) directory_addr i j t1 in
    (
      a,
      b ∙ ground arith,
      c ∙ ground (arith, fill_directory_lem 512 0 i_pdpt j (t.page_directory i)),
    )

-- The address of the table or page that a word leads to, for tables and for pages of 2 MB.
abbrev pub table_of : ℕ → ℕ
table_of word = word / 2 ^ 12 * 2 ^ 12

abbrev pub large_page : ℕ → ℕ
large_page word = word / 2 ^ 21 * 2 ^ 21

-- The processor's walk from pml4_table: the words at the address's parts, each present and writable
-- and for the kernel only, lead to pdp_table, to a directory of the array, and to a page of 2 MB;
-- `p` is the physical address there.
pub record Translates (pdp_addr directory_addr : ℕ) (t : Tables) (v p : ℕ) : Type 0 where
  pub pdp : table_of (t.pml4_table (v / 2 ^ 39 % 2 ^ 9)) ≡ pdp_addr
  pub pdp_flags : t.pml4_table (v / 2 ^ 39 % 2 ^ 9) % 2 ^ 12 ≡ 3
  pub index : ℕ
  pub in_array : index < page_directory_count
  pub directory : table_of (t.pdp_table (v / 2 ^ 30 % 2 ^ 9)) ≡ directory_addr + index * 4096
  pub directory_flags : t.pdp_table (v / 2 ^ 30 % 2 ^ 9) % 2 ^ 12 ≡ 3
  pub page : large_page (t.page_directory index (v / 2 ^ 21 % 2 ^ 9)) + v % 2 ^ 21 ≡ p
  pub page_flags : t.page_directory index (v / 2 ^ 21 % 2 ^ 9) % 2 ^ 21 ≡ 0x083

table_word_lem : (a : ℕ) → table_word (a * 2 ^ 12) ≡ a * 2 ^ 12 + 3
unfolding table_word
table_word_lem a = bit_or-add 12 a 3 (omega arith)

page_word_lem :
    (v : ℕ)
    → v < page_directory_count * page_size_1g
    → page_word (v / 2 ^ 30) (v / 2 ^ 21 % 2 ^ 9) ≡ v / 2 ^ 21 * 2 ^ 21 + 0x083
unfolding page_word
page_word_lem v h =
    let e : v / 2 ^ 30 * page_size_1g + v / 2 ^ 21 % 2 ^ 9 * page_size_2m ≡ v / 2 ^ 21 * 2 ^ 21 =
      omega arith in
    rw (e, bit_or-add 21 (v / 2 ^ 21) 0x083 (omega arith)) refl

-- After SetupIdentityPageTable, with pdp_table and page_directory on pages of their own, the
-- processor translates each address below 64 GB to itself, whatever the tables held before.
pub setup_identity_page_table-Translates :
    (pdp_page directory_page : ℕ) (t : Tables) (v : ℕ)
    → v < page_directory_count * page_size_1g
    → Translates
        (pdp_page * 2 ^ 12)
        (directory_page * 2 ^ 12)
        (setup_identity_page_table (pdp_page * 2 ^ 12) (directory_page * 2 ^ 12) t)
        v
        v
unfolding setup_identity_page_table
setup_identity_page_table-Translates pdp_page directory_page t v h =
    let t0 : Tables = record t {
      pml4_table = stored 0 (table_word (pdp_page * 2 ^ 12)) t.pml4_table;
    } in
    let addr = directory_page * 2 ^ 12 in
    let top : v / 2 ^ 39 % 2 ^ 9 ≡ 0 = omega arith in
    let gb : v / 2 ^ 30 % 2 ^ 9 ≡ v / 2 ^ 30 = omega arith in
    let (pml4, _, _) = fill_pdp_lem 64 0 addr 0 0 t0 in
    let (_, pdp, dir) = fill_pdp_lem 64 0 addr (v / 2 ^ 30) (v / 2 ^ 21 % 2 ^ 9) t0 in
    let low : v / 2 ^ 30 < 64 = omega arith in
    let e4 : (fill_pdp 64 0 addr t0).pml4_table 0 ≡ pdp_page * 2 ^ 12 + 3 =
      pml4 ∙ table_word_lem pdp_page in
    let filled : (leb 0 (v / 2 ^ 30) && ltb (v / 2 ^ 30) 64) ≡ true = ground (arith, low) in
    let short : ltb (v / 2 ^ 21 % 2 ^ 9) 512 ≡ true = ground arith in
    let addr_lem : addr + v / 2 ^ 30 * 4096 ≡ (directory_page + v / 2 ^ 30) * 2 ^ 12 =
      omega arith in
    let e3 : (fill_pdp 64 0 addr t0).pdp_table (v / 2 ^ 30)
        ≡ (directory_page + v / 2 ^ 30) * 2 ^ 12 + 3 =
      pdp ∙ rw (filled, addr_lem) (table_word_lem (directory_page + v / 2 ^ 30)) in
    let e2 : (fill_pdp 64 0 addr t0).page_directory (v / 2 ^ 30) (v / 2 ^ 21 % 2 ^ 9)
        ≡ v / 2 ^ 21 * 2 ^ 21 + 0x083 =
      dir ∙ rw (filled, short) (page_word_lem v h) in
    record {
      pdp = rw (top, e4) (omega arith);
      pdp_flags = rw (top, e4) (omega arith);
      index = v / 2 ^ 30;
      in_array = low;
      directory = rw (gb, e3) (omega arith);
      directory_flags = rw (gb, e3) (omega arith);
      page = rw e2 (omega arith);
      page_flags = rw e2 (omega arith);
    }
