-- ===== src/Paging/Setup.antt =====
-- SetupPageMaps of Kernel/paging.cpp: the pages that it makes present, by their numbers.
use mikan_os_x.Base.{
  ℕ, zero, suc, ◌+◌, ◌-◌, ◌*◌, ◌/◌, ◌^◌, ◌<◌, ◌≤◌, ◌≡◌, ◌≢◌, refl, sym, ◌∙◌, subst, Bool, true,
  false, ◌==◌, if◌then◌else◌, arith, ℕ_discrete, dec_lt,
}
use mikan_os_x.Base.Fault.{Code, success, no_enough_memory}
use mikan_os_x.Memory.Single.{IsFull}
use mikan_os_x.Paging.{
  LinearAddress, part, next_entry, Machine, write_entry, open_entry, Answer, Below,
  set_new_page_map_if_not_present, open_child, setup_entry, go_on, setup_loop, setup_page_map,
  setup_page_maps,
}
use mikan_os_x.Paging.Frames.{
  Levels, first_entry, IsTabled, Extends, Extends-refl, Extends-trans, Enters, Prepares, prepared,
  refused, prepare-Prepares,
}
use native.Mathlib.Nat.{pow-suc, one-le-pow, add-mul, mul-le-mul_right, le-div_iff_mul-le}
use mikan_os_x.Paging.Address.{page_number, IsAddress, part-lt, page_number-lt, next_entry_lem}
use mikan_os_x.Paging.Maps.{Maps, Maps-Extends, Fills, filled, stopped, page-Fills, below-Fills}

-- What SetupPageMap does on a level.
Sets : ℕ → Bool → Below → Type 0
Sets level writable below =
    (levels : Levels) (m : Machine) (table n : ℕ) (a : LinearAddress)
    → IsTabled levels m
    → levels table ≡ level
    → IsAddress a
    → first_entry level ≤ part level a
    → Fills level writable levels m table (page_number level a) (512 ^ level) n (below table a n m)

-- A round, after SetNewPageMapIfNotPresent.
open_child-Fills :
    (level : ℕ) (writable : Bool) (below : Below) (levels : Levels) (m : Machine) (table n : ℕ)
    (a : LinearAddress)
    → level < 4
    → levels table ≡ suc level
    → IsAddress a
    → IsTabled levels m
    → 0 < n
    → (0 < level → Sets level writable below)
    → (answer : Answer) → Prepares level writable levels m table (part (suc level) a) answer
    → Fills
        (suc level)
        writable
        levels
        m
        table
        (part (suc level) a * 512 ^ level + page_number level a)
        (part (suc level) a * 512 ^ level + 512 ^ level)
        n
        (open_child (suc level) writable below table a n answer)
unfolding open_child Sets
open_child-Fills level writable below levels m table n a h at fine ok pos sets _ (refused full) =
    stopped n m levels ok (Extends-refl writable levels m) refl full
open_child-Fills zero writable below levels m table n a h at fine ok pos sets _
      (prepared child m' levels' e) =
    page-Fills writable levels m table (part 1 a) child n levels'
      (write_entry table (part 1 a) (open_entry writable (m'.pages table (part 1 a))) m') pos e
open_child-Fills (suc level) writable below levels m table n a h at fine ok pos sets _
      (prepared child m' levels' e) =
    let i = part (suc (suc level)) a in
    let opened = λ (w : Bool). write_entry table i (open_entry w (m'.pages table i)) m' in
    let upper : (suc (suc level) == 1) ≡ false = ground arith in
    let e' : Enters (suc level) writable levels m table i child levels' (opened true) =
      subst
        (λ b.
          Enters (suc level) writable levels m table i child levels'
            (opened (if b then writable else true)))
        upper e in
    rw upper (
      below-Fills level writable levels m table i child (page_number (suc level) a) n levels'
        (opened true) (omega arith) at e' (below child a n (opened true))
        (sets (omega arith) levels' (opened true) child n a e'.tabled (e'.child_level (omega arith))
          fine (ground arith)))

-- Two parts, one after the other, when the first leaves pages.
joined :
    (level : ℕ) (writable : Bool) (levels : Levels) (m : Machine) (table first mid last n rest : ℕ)
    (levels' : Levels) (m' : Machine)
    → level < 4
    → levels' table ≡ suc level
    → first ≤ mid
    → mid ≤ last
    → ((p : ℕ) → first ≤ p → first_entry (suc level) ≤ p / 512 ^ level)
    → rest ≡ n - (mid - first)
    → IsTabled levels' m'
    → Extends writable levels m levels' m'
    → m'.cr3 ≡ m.cr3
    → ((p : ℕ) → first ≤ p → p < mid → p < first + n → Maps (suc level) writable m'.pages table p)
    → (a : Answer) → Fills (suc level) writable levels' m' table mid last rest a
    → Fills (suc level) writable levels m table first last n a
joined level writable levels m table first mid last n rest levels' m' h at low high start count ok
      ext same maps _ (stopped rest2 m2 levels2 ok2 ext2 same2 full) =
    stopped rest2 m2 levels2 ok2 (Extends-trans ext ext2) (same2 ∙ same) full
joined level writable levels m table first mid last n rest levels' m' h at low high start count ok
      ext same maps _ (filled rest2 m2 levels2 ok2 ext2 same2 count2 maps2) =
    filled rest2 m2 levels2 ok2 (Extends-trans ext ext2) (same2 ∙ same)
      (omega (arith, count, count2))
      (λ p from below less. elim (dec_lt p mid) [
        | yes early ↦
            Maps-Extends level writable levels' levels2 m' m2 table p h ok ext2 at (start p from)
              (maps p from early less)
        | no late ↦ maps2 p (omega (arith, late)) below (omega (arith, late, count))
      ])

-- Two parts, one after the other.
go_on-Fills :
    (level index : ℕ) (writable : Bool) (levels : Levels) (m : Machine) (table first mid last n : ℕ)
    (again : ℕ → Machine → Answer)
    → level < 4
    → levels table ≡ suc level
    → first ≤ mid
    → mid ≤ last
    → ((p : ℕ) → first ≤ p → first_entry (suc level) ≤ p / 512 ^ level)
    → (index ≡ 511 → mid ≡ last)
    → (index ≢ 511
        → (rest : ℕ) (m' : Machine) (levels' : Levels) → IsTabled levels' m'
        → levels' table ≡ suc level
        → Fills (suc level) writable levels' m' table mid last rest (again rest m'))
    → (a : Answer) → Fills (suc level) writable levels m table first mid n a
    → Fills (suc level) writable levels m table first last n (go_on index again a)
unfolding go_on
go_on-Fills level index writable levels m table first mid last n again h at low high start done more
      _ (stopped rest m' levels' ok ext same full) =
    stopped rest m' levels' ok ext same full
go_on-Fills level index writable levels m table first mid last n again h at low high start done more
      _ (filled rest m' levels' ok ext same count maps) =
    elim (ℕ_discrete index 511) [
      | yes e ↦ rw e (
          filled rest m' levels' ok ext same (omega (arith, done e, count))
            (λ p from below less. maps p from (omega (arith, done e)) less))
      | no ne ↦
          let apart : (index == 511) ≡ false = ground arith in
          let at' : levels' table ≡ suc level = ext.tables table (omega (arith, at)) ∙ at in
          rw apart (
            joined level writable levels m table first mid last n rest levels' m' h at' low high
              start count ok ext same maps (again rest m') (more ne rest m' levels' ok at'))
    ]

start_le :
    (level : ℕ) (a : LinearAddress) (p : ℕ)
    → first_entry (suc level) ≤ part (suc level) a
    → page_number (suc level) a ≤ p
    → first_entry (suc level) ≤ p / 512 ^ level
start_le level a p low from =
    let pos : 0 < 512 ^ level = one-le-pow level 512 (omega arith) in
    let here : part (suc level) a * 512 ^ level ≤ p = omega (arith, from) in
    let le = (le-div_iff_mul-le {k = 512 ^ level} {x = part (suc level) a} {y = p} pos).1 here in
    omega (arith, le, low)

setup_loop-Fills :
    (rounds level : ℕ) (writable : Bool) (below : Below) (levels : Levels) (m : Machine)
    (table n : ℕ) (a : LinearAddress)
    → level < 4
    → levels table ≡ suc level
    → IsAddress a
    → IsTabled levels m
    → first_entry (suc level) ≤ part (suc level) a
    → 512 ≤ rounds + part (suc level) a
    → (0 < level → Sets level writable below)
    → Fills
        (suc level)
        writable
        levels
        m
        table
        (page_number (suc level) a)
        (512 ^ suc level)
        n
        (setup_loop rounds (suc level) writable below table a n m)
unfolding setup_loop setup_entry
setup_loop-Fills zero level writable below levels m table n a h at fine ok low enough sets =
    absurd (omega (arith, part-lt level a h fine))
setup_loop-Fills (suc rounds) level writable below levels m table n a h at fine ok low enough sets =
    let i = part (suc level) a in
    let w = 512 ^ level in
    let i_lt = part-lt level a h fine in
    let p_lt = page_number-lt level a (omega arith) fine in
    let power : 512 ^ suc level ≡ 512 * w = omega (arith, pow-suc 512 level) in
    elim (ℕ_discrete n 0) [
      | yes e ↦ rw e (
          filled 0 m levels ok (Extends-refl writable levels m) refl (omega arith)
            (λ p from under less. absurd (omega (arith, less, from))))
      | no ne ↦
          let some_left : (n == 0) ≡ false = ground arith in
          rw some_left (
            go_on-Fills level i writable levels m table (page_number (suc level) a) (i * w + w)
              (512 ^ suc level) n
              (λ rest m'.
                setup_loop rounds (suc level) writable below table (next_entry (suc level) i a) rest
                  m')
              h at (omega (arith, p_lt))
              (omega (arith, power, mul-le-mul_right {m = i} {n = 511} w (omega (arith, i_lt))))
              (λ p from. start_le level a p low from) (λ e. rw e (omega (arith, power)))
              (λ more rest m' levels' ok' at'.
                let (next_i, next_low, fine') =
                  next_entry_lem level i a h (omega (arith, i_lt, more)) fine in
                subst
                  (λ mid. Fills (suc level) writable levels' m' table mid (512 ^ suc level) rest (
                    setup_loop rounds (suc level) writable below table (next_entry (suc level) i a)
                      rest m'))
                  (rw (next_i, next_low) (omega (arith, add-mul i 1 w)))
                  (setup_loop-Fills rounds level writable below levels' m' table rest
                    (next_entry (suc level) i a) h at' fine' ok' (omega (arith, next_i, low))
                    (omega (arith, next_i, enough)) sets))
              (open_child (suc level) writable below table a n
                (set_new_page_map_if_not_present table i m))
              (open_child-Fills level writable below levels m table n a h at fine ok (omega arith)
                sets (set_new_page_map_if_not_present table i m)
                (prepare-Prepares level writable levels m table i ok at low)))
    ]

setup_page_map-Sets :
    (level : ℕ) (writable : Bool)
    → 0 < level
    → level ≤ 4
    → Sets level writable (setup_page_map level writable)
unfolding setup_page_map Sets
setup_page_map-Sets zero writable pos h levels m table n a ok at fine low = absurd (omega arith)
setup_page_map-Sets (suc level) writable pos h levels m table n a ok at fine low =
    setup_loop-Fills 512 level writable (setup_page_map level writable) levels m table n a
      (omega arith) at fine ok low (omega arith)
      (λ some_level. setup_page_map-Sets level writable some_level (omega arith))

-- How SetupPageMaps ends.
pub data SetsUp (writable : Bool) (levels : Levels) (m : Machine) (a : LinearAddress) (n : ℕ)
    : Code × Machine → Type 0 where
  mapped :
      (m' : Machine) (levels' : Levels)
      → IsTabled levels' m'
      → Extends writable levels m levels' m'
      → ((p : ℕ)
          → page_number 4 a ≤ p
          → p < page_number 4 a + n
          → p < 512 ^ 4
          → Maps 4 writable m'.pages m'.cr3 p)
      → SetsUp writable levels m a n (success, m')
  out_of_frames :
      (m' : Machine) (levels' : Levels)
      → IsTabled levels' m'
      → Extends writable levels m levels' m'
      → IsFull m'.manager
      → SetsUp writable levels m a n (no_enough_memory, m')

-- SetupPageMaps, for an address in the upper half and any number of pages, in a state whose tables
-- lead to tables and are marked in the bitmap, returns in one of two ways. Either it succeeds, and
-- each of the `n` pages from the address on, to the end of the address space, is mapped: its
-- entries on all four levels are present, for the user, and writable, on level 1 as was asked for.
-- Or it returns kNoEnoughMemory, and the manager has no free frame. In both cases what was a table
-- remains one, what was open remains open and leads to the same page, and the tables lead to tables
-- again.
pub setup_page_maps-SetsUp :
    (writable : Bool) (levels : Levels) (m : Machine) (a : LinearAddress) (n : ℕ)
    → IsTabled levels m
    → levels m.cr3 ≡ 4
    → IsAddress a
    → 256 ≤ a.pml4
    → SetsUp writable levels m a n (setup_page_maps a n writable m)
unfolding setup_page_maps part Sets
setup_page_maps-SetsUp writable levels m a n ok top fine high =
    go (setup_page_map 4 writable m.cr3 a n m) (
      setup_page_map-Sets 4 writable (omega arith) (omega arith) levels m m.cr3 n a ok top fine
        high)
  where
    go :
        (answer : Answer)
        → Fills 4 writable levels m m.cr3 (page_number 4 a) (512 ^ 4) n answer
        → SetsUp writable levels m a n (answer.0.1, answer.1)
    go _ (filled rest m' levels' ok' ext same count maps) =
        mapped m' levels' ok' ext (λ p low under high'.
          subst (λ t. Maps 4 writable m'.pages t p) (sym same) (maps p low high' under))
    go _ (stopped rest m' levels' ok' ext same full) = out_of_frames m' levels' ok' ext full
