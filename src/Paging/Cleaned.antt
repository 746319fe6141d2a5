-- ===== src/Paging/Cleaned.antt =====
-- What CleanPageMaps of Kernel/paging.cpp leaves behind.
use mikan_os_x.Base.{
  ℕ, zero, suc, ◌+◌, ◌-◌, ◌<◌, ◌≤◌, ◌≡◌, refl, ap, sym, ◌∙◌, subst, true, false, arith, ℕ_discrete,
}
use mikan_os_x.Base.Fault.{Code, success}
use mikan_os_x.Memory.{get_bit, free}
use mikan_os_x.Paging.{LinearAddress, part, Machine}
use mikan_os_x.Paging.Address.{IsAddress, part-lt}
use mikan_os_x.Paging.Frames.{Levels, first_entry}
use mikan_os_x.Paging.Clean.{unless_error, clean_loop, clean_page_map, clean_page_maps}
use mikan_os_x.Paging.Drops.{Cleans, Leaves, clean_entry-Drops}
use mikan_os_x.Paging.Clears.{IsClearable, Settled, Clears-refl, Clears-trans, Clears-IsClearable}

-- What the table below is left as.
abbrev Cleaner : Levels → LinearAddress → ℕ → (ℕ → Machine → Code × Machine) → Type 0
Cleaner levels a level below =
    (m : Machine) (child : ℕ)
    → IsClearable levels m
    → levels child ≡ level
    → Leaves (Cleans levels a level child (part level a) m) (below child m)

clean_loop-Cleans :
    (rounds : ℕ) (levels : Levels) (a : LinearAddress) (level table i : ℕ)
    (below : ℕ → Machine → Code × Machine) (m : Machine)
    → levels table ≡ suc level
    → first_entry (suc level) ≤ i
    → rounds + i ≡ 512
    → IsClearable levels m
    → (0 < level → Cleaner levels a level below)
    → Leaves (Cleans levels a (suc level) table i m) (clean_loop rounds (suc level) below table i m)
unfolding clean_loop unless_error
clean_loop-Cleans zero levels a level table i below m at low e ok cleans = (
  m,
  refl,
  record {
    clears = Clears-refl levels a (suc level) m ok.valid;
    gone = λ j h lt. absurd (omega arith);
    others = λ j lt. refl;
    released = λ j h lt. absurd (omega arith);
  },
)
clean_loop-Cleans (suc rounds) levels a level table i below m at low e ok cleans =
    let (m1, eq, d) =
      clean_entry-Drops levels a level table i below m at low ok
        (λ pos child l. cleans pos m child ok l) in
    let ok1 = Clears-IsClearable ok d.clears in
    let (m2, eq2, c) =
      clean_loop-Cleans rounds levels a level table (suc i) below m1 at (omega (arith, low))
        (omega (arith, e)) ok1 cleans in
    rw eq (
      m2,
      eq2,
      (record {
        clears = Clears-trans d.clears c.clears;
        gone = λ j h lt. elim (ℕ_discrete j i) [
          | yes same ↦ rw same (ap (λ x. x.present) (c.others i (omega arith)) ∙ d.gone)
          | no ne ↦ c.gone j (omega (arith, ne)) lt
        ];
        others = λ j lt. c.others j (omega arith) ∙ d.others j (λ same. omega arith);
        released = λ j h lt here writes. elim (ℕ_discrete j i) [
          | yes same ↦
              subst (λ k. get_bit m2.manager (m.pages table k).addr ≡ false) (sym same)
                (c.clears.freed (m.pages table i).addr (
                  d.released (subst (λ k. (m.pages table k).present ≡ true) same here)
                    (subst (λ k. (m.pages table k).writable ≡ true) same writes)))
          | no ne ↦
              let kept = d.others j ne in
              subst (λ x. get_bit m2.manager x.addr ≡ false) kept
                (c.released j (omega (arith, ne)) lt (ap (λ x. x.present) kept ∙ here)
                  (ap (λ x. x.writable) kept ∙ writes))
        ];
      }),
    )

clean_page_map-Cleaner :
    (level : ℕ) (a : LinearAddress) (levels : Levels)
    → 0 < level
    → level < 4
    → IsAddress a
    → Cleaner levels a level (clean_page_map level a)
unfolding clean_page_map
clean_page_map-Cleaner zero a levels pos h fine m child ok at = absurd (omega arith)
clean_page_map-Cleaner (suc level) a levels pos h fine m child ok at =
    clean_loop-Cleans (512 - part (suc level) a) levels a level child (part (suc level) a)
      (clean_page_map level a) m at (ground arith)
      (omega (arith, part-lt level a (omega arith) fine)) ok
      (λ some_level. clean_page_map-Cleaner level a levels some_level (omega arith) fine)

-- The entries of a table from the address's part on are not present, and for each of them that was
-- present, the frame of a writable one is free, and the same holds of the table that it led to.
pub Emptied : ℕ → LinearAddress → ℕ → Machine → Machine → Type 0
Emptied zero a table m m' = Unit
Emptied (suc level) a table m m' =
    (j : ℕ)
    → part (suc level) a ≤ j
    → j < 512
    → ((m'.pages table j).present ≡ false)
      × ((m.pages table j).present ≡ true
          → ((m.pages table j).writable ≡ true → get_bit m'.manager (m.pages table j).addr ≡ false)
            × Emptied level a (m.pages table j).addr m m')

first_entry_lem :
    (level j : ℕ) (a : LinearAddress)
    → level ≤ 4
    → 256 ≤ a.pml4
    → part level a ≤ j
    → first_entry level ≤ j
unfolding part
first_entry_lem level j a h high low = elim (ℕ_discrete level 4) [
  | yes e ↦ let low' : a.pml4 ≤ j = rw e at low in rw e (omega (arith, high, low'))
  | no ne ↦ ground (arith, ne)
]

Settled-Emptied :
    (level : ℕ) (levels : Levels) (a : LinearAddress) (table : ℕ) (m m' : Machine)
    → IsClearable levels m
    → Settled levels a m m'
    → levels table ≡ level
    → level ≤ 4
    → 256 ≤ a.pml4
    → ((j : ℕ) → part level a ≤ j → j < 512 → (m'.pages table j).present ≡ false)
    → Emptied level a table m m'
unfolding Emptied
Settled-Emptied zero levels a table m m' ok settled at h high gone = tt
Settled-Emptied (suc zero) levels a table m m' ok settled at h high gone = λ j low lt.
    (gone j low lt, λ here. ((settled table j (omega (arith, at)) here (gone j low lt)).0, tt))
Settled-Emptied (suc (suc level)) levels a table m m' ok settled at h high gone = λ j low lt. (
  gone j low lt,
  λ here.
      let (free, below) = settled table j (omega (arith, at)) here (gone j low lt) in
      let first = first_entry_lem (suc (suc level)) j a h high low in
      (
        free,
        Settled-Emptied (suc level) levels a (m.pages table j).addr m m' ok settled
            (ok.linked table j level at first here) (omega arith) high (below level at),
      ),
)

-- CleanPageMaps, for an address in the upper half, in a state whose tables lead to tables and whose
-- writable entries lead to frames of the map, succeeds. Through all four levels, from the topmost
-- table down, no entry from the address's part of the level on remains present, and the frame that
-- each present and writable one of them led to, table or page, is free. The entries of the topmost
-- table before that part remain as they were, no word changes outside the page tables, no entry
-- changes but to one that is not present, and no frame that was free is in use.
pub clean_page_maps-Cleans :
    (a : LinearAddress) (levels : Levels) (m : Machine)
    → IsClearable levels m
    → levels m.cr3 ≡ 4
    → IsAddress a
    → 256 ≤ a.pml4
    → (m' : Machine) × (clean_page_maps a m ≡ (success, m'))
      × Cleans levels a 4 m.cr3 a.pml4 m m'
      × Emptied 4 a m.cr3 m m'
unfolding clean_page_maps clean_page_map part
clean_page_maps-Cleans a levels m ok at fine high =
    let (m', e, c) =
      clean_loop-Cleans (512 - a.pml4) levels a 3 m.cr3 a.pml4 (clean_page_map 3 a) m at high
        (omega (arith, fine.pml4_lt)) ok
        (λ pos. clean_page_map-Cleaner 3 a levels (omega arith) (omega arith) fine) in
    (
      m',
      e,
      c,
      Settled-Emptied 4 levels a m.cr3 m m' ok c.clears.settled at (omega arith) high c.gone,
    )
