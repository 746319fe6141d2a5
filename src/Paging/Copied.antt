-- ===== src/Paging/Copied.antt =====
-- How CopyPageMaps of Kernel/paging.cpp ends.
use mikan_os_x.Base.{
  ℕ, zero, suc, ◌+◌, ◌-◌, ◌<◌, ◌≤◌, ◌≡◌, ◌≢◌, ap, sym, ◌∙◌, subst, true, false, if◌then◌else◌,
  arith, inl, inr, Bool-cases,
}
use mikan_os_x.Base.Fault.{Code, success, no_enough_memory}
use mikan_os_x.Memory.{get_bit, Allocation}
use mikan_os_x.Memory.Single.{take_frame, IsManager, IsFull, Takes, took, full, take_frame-Takes}
use mikan_os_x.Paging.{Pages, Machine, null_entry, with_page, zeroed, new_page_map}
use mikan_os_x.Paging.Clean.{unless_error}
use mikan_os_x.Paging.CopyMaps.{share_pages, fill_table, copy_entry, copy_loop, copy_page_maps}
use mikan_os_x.Paging.Shared.{Keeps, Source, Shares, Source-Keeps, Keeps-refl, Keeps-trans}
use mikan_os_x.Paging.SharedPages.{share_pages-Shares}
use mikan_os_x.Paging.SharedTables.{
  Opens, opened, opened-Opens, Opens-Keeps, entry-Shares, joined-Shares,
}

-- How CopyPageMaps ends.
pub data Copied (level : ℕ) (s : Pages) (m : Machine) (dest src start : ℕ)
    : Code × Machine → Type 0 where
  copied :
      (m' : Machine)
      → Keeps dest start m m'
      → Shares level s m m' dest src start
      → Copied level s m dest src start (success, m')
  stopped :
      (m' : Machine)
      → Keeps dest start m m'
      → IsFull m'.manager
      → Copied level s m dest src start (no_enough_memory, m')

-- After the table below.
below-Copied :
    (level : ℕ) (s : Pages) (m m1 : Machine) (dest src i f : ℕ) (again : Machine → Code × Machine)
    → get_bit m.manager dest ≡ true
    → Opens s m m1 dest src i f
    → ((m2 : Machine) → Keeps dest i m m2 → Copied (suc level) s m2 dest src (suc i) (again m2))
    → (r : Code × Machine) → Copied level s m1 f (s src i).addr 0 r
    → Copied (suc level) s m dest src i (unless_error again r)
unfolding unless_error
below-Copied level s m m1 dest src i f again used o rest _ (stopped m2 k all) =
    stopped m2 (Opens-Keeps o k) all
below-Copied level s m m1 dest src i f again used o rest _ (copied m2 k shares) =
    go (again m2) (rest m2 (Opens-Keeps o k))
  where
    go :
        (r : Code × Machine)
        → Copied (suc level) s m2 dest src (suc i) r
        → Copied (suc level) s m dest src i r
    go _ (stopped m3 k3 all) = stopped m3 (Keeps-trans (Opens-Keeps o k) (omega arith) k3) all
    go _ (copied m3 k3 shares3) = copied m3 (Keeps-trans (Opens-Keeps o k) (omega arith) k3) (
        joined-Shares level s m m2 m3 dest src i (Opens-Keeps o k)
          (λ here. entry-Shares level s m m1 m2 m3 dest src i f used o k shares k3) shares3)

-- What a copy of tables does on a level.
CopiesLevel : ℕ → Pages → (ℕ → ℕ → Machine → Code × Machine) → Type 0
CopiesLevel level s below =
    (m : Machine) (dest src : ℕ)
    → IsManager m.manager
    → get_bit m.manager dest ≡ true
    → Source level s m dest src 0
    → Copied level s m dest src 0 (below dest src m)

-- A round with a table that is present.
present-Copied :
    (level : ℕ) (s : Pages) (m : Machine) (dest src i : ℕ)
    (below : ℕ → ℕ → Machine → Code × Machine) (again : Machine → Code × Machine)
    → i < 512
    → IsManager m.manager
    → get_bit m.manager dest ≡ true
    → Source (suc level) s m dest src i
    → (s src i).present ≡ true
    → CopiesLevel level s below
    → ((m2 : Machine) → Keeps dest i m m2 → Copied (suc level) s m2 dest src (suc i) (again m2))
    → (r : Allocation) → Takes m.manager r
    → Copied
        (suc level)
        s
        m
        dest
        src
        i
        (unless_error again (fill_table below dest src i (zeroed m r)))
unfolding fill_table zeroed unless_error Source CopiesLevel opened
present-Copied level s m dest src i below again lt ok used source here copies rest _ (full all) =
    stopped m (Keeps-refl dest i m ok) all
present-Copied level s m dest src i below again lt ok used (used_s, other, same, deep) here copies
      rest _ (took f manager clear small bits fine) =
    let o = opened-Opens s m dest src i f manager used used_s (same i) clear small bits fine in
    let m1 = opened dest src i f manager m in
    let apart : src ≢ f = λ e. ground (arith, used_s, clear, e) in
    let addr : (with_page f (λ j. null_entry) m.pages src i).addr ≡ (s src i).addr =
      ground (arith, apart, same i) in
    let source1 =
      Source-Keeps level s m m1 dest f (s src i).addr 0 0 (deep i (omega arith) lt here)
        (λ g j h ne. o.others g j h (inl ne))
        (λ g h ne. (o.grows g h, λ e. ground (arith, h, clear, e))) (omega arith) in
    subst (λ c. Copied (suc level) s m dest src i (unless_error again (below f c m1))) (sym addr)
      (below-Copied level s m m1 dest src i f again used o rest (below f (s src i).addr m1)
        (copies m1 f (s src i).addr o.manager_ok o.used source1))

-- A round without one.
absent-Copied :
    (level : ℕ) (s : Pages) (m : Machine) (dest src i : ℕ)
    → IsManager m.manager
    → (s src i).present ≡ false
    → (r : Code × Machine) → Copied (suc level) s m dest src (suc i) r
    → Copied (suc level) s m dest src i r
absent-Copied level s m dest src i ok absent _ (stopped m' k all) =
    stopped m' (Keeps-trans (Keeps-refl dest i m ok) (omega arith) k) all
absent-Copied level s m dest src i ok absent _ (copied m' k shares) =
    copied m' (Keeps-trans (Keeps-refl dest i m ok) (omega arith) k) (
      joined-Shares level s m m m' dest src i (Keeps-refl dest i m ok)
        (λ here. absurd (ground (arith, here, absent))) shares)

copy_loop-Copied :
    (rounds level i : ℕ) (s : Pages) (m : Machine) (dest src : ℕ)
    (below : ℕ → ℕ → Machine → Code × Machine)
    → rounds + i ≡ 512
    → IsManager m.manager
    → get_bit m.manager dest ≡ true
    → Source (suc level) s m dest src i
    → CopiesLevel level s below
    → Copied (suc level) s m dest src i (copy_loop rounds below dest src i m)
unfolding copy_loop copy_entry new_page_map Shares Source unless_error
copy_loop-Copied zero level i s m dest src below e ok used source copies =
    copied m (Keeps-refl dest i m ok) (λ j low lt here. absurd (omega arith))
copy_loop-Copied (suc rounds) level i s m dest src below e ok used source copies =
    let again = λ (m' : Machine). copy_loop rounds below dest src (suc i) m' in
    let (used_s, other, same, deep) : Source (suc level) s m dest src i = source in
    let next = λ (m2 : Machine) (k : Keeps dest i m m2).
      copy_loop-Copied rounds level (suc i) s m2 dest src below (omega (arith, e)) k.manager_ok
        (k.bits dest used)
        (Source-Keeps (suc level) s m m2 dest dest src i (suc i) source
          (λ g j h ne. k.kept g j h (inl ne)) (λ g h ne. (k.bits g h, ne)) (omega arith))
        copies in
    elim (Bool-cases (m.pages src i).present) [
      | inl present ↦
          subst
            (λ b. Copied (suc level) s m dest src i (
              unless_error again
                (if b then fill_table below dest src i (new_page_map m) else (success, m))))
            (sym present)
            (present-Copied level s m dest src i below again (omega (arith, e)) ok used source
              (ap (λ x. x.present) (sym (same i)) ∙ present) copies next (take_frame m.manager)
              (take_frame-Takes m.manager ok))
      | inr absent ↦
          subst
            (λ b. Copied (suc level) s m dest src i (
              unless_error again
                (if b then fill_table below dest src i (new_page_map m) else (success, m))))
            (sym absent)
            (absent-Copied level s m dest src i ok (ap (λ x. x.present) (sym (same i)) ∙ absent)
              (again m) (next m (Keeps-refl dest i m ok)))
    ]

copied_from :
    (level start : ℕ) (s : Pages) (m : Machine) (dest src : ℕ)
    → IsManager m.manager
    → get_bit m.manager dest ≡ true
    → start ≤ 512
    → Source level s m dest src start
    → Copied level s m dest src start (copy_page_maps (suc level) start dest src m)
unfolding copy_page_maps Source CopiesLevel
copied_from zero start s m dest src ok used le (used_s, other, same) =
    let (k, shares) =
      share_pages-Shares (512 - start) start s m dest src (omega arith) ok other same used in
    copied (share_pages (512 - start) dest src start m) k shares
copied_from (suc level) start s m dest src ok used le source =
    copy_loop-Copied (512 - start) level start s m dest src
      (λ d c m'. copy_page_maps (suc level) 0 d c m') (omega arith) ok used source
      (λ m' d c ok' used' source'. copied_from level 0 s m' d c ok' used' (omega arith) source')

-- CopyPageMaps, for a level from 1 on, a table in use to copy to, and tables in use, other than it,
-- to copy, returns in one of two ways. Either it succeeds, and each entry from `start` on that was
-- present has its copy: on level 1 a read-only entry for the same page, above it an entry with the
-- same bits for a table that was free before and copies in turn the table below, whole. Or it
-- returns kNoEnoughMemory, and no frame is free. In both cases no word of a frame in use changes
-- but the entries of the copy from `start` on, so that the copied tables and the pages remain, and
-- no frame is given back.
pub copy_page_maps-Copied :
    (level start : ℕ) (m : Machine) (dest src : ℕ)
    → IsManager m.manager
    → get_bit m.manager dest ≡ true
    → start ≤ 512
    → Source level m.pages m dest src start
    → Copied level m.pages m dest src start (copy_page_maps (suc level) start dest src m)
copy_page_maps-Copied level start m dest src ok used le source =
    copied_from level start m.pages m dest src ok used le source
