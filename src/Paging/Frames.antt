-- ===== src/Paging/Frames.antt =====
-- Which frames are page tables of which level, and what one round of SetupPageMap does to them.
use mikan_os_x.Base.{
  ℕ, suc, ◌-◌, ◌%◌, ◌^◌, ◌<◌, ◌≤◌, ◌≡◌, refl, sym, ◌∙◌, subst, Bool, true, false, ◌==◌,
  if◌then◌else◌, arith, inl, inr, Bool-cases,
}
use mikan_os_x.Base.Fault.{success, no_enough_memory}
use mikan_os_x.Memory.{BitmapMemoryManager, get_bit, Allocation}
use mikan_os_x.Memory.Single.{take_frame, IsManager, IsFull, Takes, took, full, take_frame-Takes}
use mikan_os_x.Paging.{
  PageMapEntry, Machine, null_entry, set_pointer, with_page, write_entry, new_page_map, zeroed,
  link_child, set_new_page_map_if_not_present, open_entry, Answer,
}

-- The level of each frame, 0 for one that is no page table.
abbrev pub Levels : Type 0
Levels = ℕ → ℕ

-- The first entry of a table on a level that leads to user space: the kernel's half of the topmost
-- table may lead to tables of other kinds.
abbrev pub first_entry : ℕ → ℕ
first_entry level = if level == 4 then 256 else 0

-- Tables are marked as allocated, and an entry that is present leads to a table of the level below.
pub record IsTabled (levels : Levels) (m : Machine) : Type 0 where
  pub manager_ok : IsManager m.manager
  pub marked : (f : ℕ) → 0 < levels f → get_bit m.manager f ≡ true
  pub linked :
      (f i level : ℕ)
      → levels f ≡ suc (suc level)
      → first_entry (suc (suc level)) ≤ i
      → (m.pages f i).present ≡ true
      → levels (m.pages f i).addr ≡ suc level

-- An entry as SetupPageMap leaves it: on level 1 it is writable if that was asked for.
abbrev pub IsOpen : ℕ → Bool → PageMapEntry → Type 0
IsOpen level writable e =
    (e.present ≡ true) × (e.user ≡ true) × (e.writable ≡ (if level == 1 then writable else true))

-- What later steps keep: tables remain tables, and open entries remain open and lead where they
-- led.
pub record Extends (writable : Bool) (levels : Levels) (m : Machine) (levels' : Levels)
    (m' : Machine) : Type 0 where
  pub tables : (f : ℕ) → 0 < levels f → levels' f ≡ levels f
  pub opened :
      (f i : ℕ)
      → 0 < levels f
      → IsOpen (levels f) writable (m.pages f i)
      → ((m'.pages f i).addr ≡ (m.pages f i).addr) × IsOpen (levels f) writable (m'.pages f i)

pub Extends-refl :
    (writable : Bool) (levels : Levels) (m : Machine) → Extends writable levels m levels m
Extends-refl writable levels m = record { tables = λ f h. refl; opened = λ f i h o. (refl, o) }

pub Extends-trans :
    {writable : Bool} {levels : Levels} {m : Machine} {levels' : Levels} {m' : Machine}
    {levels2 : Levels} {m2 : Machine}
    → Extends writable levels m levels' m'
    → Extends writable levels' m' levels2 m2
    → Extends writable levels m levels2 m2
Extends-trans {writable} {levels} {m} {levels'} {m'} {levels2} {m2} p q = record {
  tables = λ f h. let e = p.tables f h in q.tables f (omega (arith, e)) ∙ e;
  opened = λ f i h o.
      let (a, o') = p.opened f i h o in
      let e = p.tables f h in
      let (b, o2) =
        q.opened f i (omega (arith, e))
          (subst (λ l. IsOpen l writable (m'.pages f i)) (sym e) o') in
      (b ∙ a, subst (λ l. IsOpen l writable (m2.pages f i)) e o2);
}

-- One entry of a table of some level is opened: its child is a table of the level below.
pub record Enters (level : ℕ) (writable : Bool) (levels : Levels) (m : Machine) (table i child : ℕ)
    (levels' : Levels) (m' : Machine) : Type 0 where
  pub tabled : IsTabled levels' m'
  pub extends : Extends writable levels m levels' m'
  pub leads : (m'.pages table i).addr ≡ child
  pub open_now : IsOpen (suc level) writable (m'.pages table i)
  pub child_level : 0 < level → levels' child ≡ level
  pub same_cr3 : m'.cr3 ≡ m.cr3

-- An entry that is present gets its bits.
present-Enters :
    (level : ℕ) (writable : Bool) (levels : Levels) (m : Machine) (table i : ℕ)
    → IsTabled levels m
    → levels table ≡ suc level
    → first_entry (suc level) ≤ i
    → (m.pages table i).present ≡ true
    → Enters level writable levels m table i (m.pages table i).addr levels (
        write_entry table i
          (open_entry (if suc level == 1 then writable else true) (m.pages table i))
          m)
unfolding write_entry
present-Enters level writable levels m table i ok at low here = record {
  tabled = record {
    manager_ok = ok.manager_ok;
    marked = ok.marked;
    linked = λ f j l e h p. ground (arith, ok.linked f j l, ok.linked table i l);
  };
  extends = record { tables = λ f h. refl; opened = λ f j h o. ground arith };
  leads = ground arith;
  open_now = ground arith;
  child_level = λ h. ground (arith, ok.linked table i (level - 1));
  same_cr3 = refl;
}

-- A frame that was free becomes the child of an entry that is not present.
linked_page : ℕ → ℕ → ℕ → BitmapMemoryManager → Machine → Machine
linked_page table i s manager m =
    write_entry table i
      (record (set_pointer s (with_page s (λ j. null_entry) m.pages table i)) { present = true })
      (record m { manager = manager; pages = with_page s (λ j. null_entry) m.pages })

absent-Enters :
    (level : ℕ) (writable : Bool) (levels : Levels) (m : Machine) (table i s : ℕ)
    (manager : BitmapMemoryManager)
    → IsTabled levels m
    → levels table ≡ suc level
    → first_entry (suc level) ≤ i
    → (m.pages table i).present ≡ false
    → get_bit m.manager s ≡ false
    → s < 2 ^ 25
    → ((f : ℕ) → get_bit manager f ≡ (if s == f then true else get_bit m.manager f))
    → IsManager manager
    → Enters level writable levels m table i s
        (λ f. if s == f then level else levels f)
        (write_entry table i
          (open_entry
            (if suc level == 1 then writable else true)
            ((linked_page table i s manager m).pages table i))
          (linked_page table i s manager m))
unfolding write_entry linked_page
absent-Enters level writable levels m table i s manager ok at low here clear small bits fine =
    let fresh : levels s ≡ 0 = ground (arith, ok.marked s) in
    let apart : (s == table) ≡ false = ground arith in
    let short : s % 2 ^ 40 ≡ s = omega arith in
    record {
      tabled = record {
        manager_ok = fine;
        marked = λ f h. ground (arith, bits f, ok.marked f);
        linked = λ f j l e h p. ground (arith, ok.linked f j l);
      };
      extends = record { tables = λ f h. ground arith; opened = λ f j h o. ground arith };
      leads = ground arith;
      open_now = ground arith;
      child_level = λ h. ground arith;
      same_cr3 = refl;
    }

-- How SetNewPageMapIfNotPresent ends, and the entry once it is opened.
pub data Prepares (level : ℕ) (writable : Bool) (levels : Levels) (m : Machine) (table i : ℕ)
    : Answer → Type 0 where
  prepared :
      (child : ℕ) (m' : Machine) (levels' : Levels)
      → Enters level writable levels m table i child levels' (
          write_entry table i
            (open_entry (if suc level == 1 then writable else true) (m'.pages table i))
            m')
      → Prepares level writable levels m table i ((child, success), m')
  refused : IsFull m.manager → Prepares level writable levels m table i ((0, no_enough_memory), m)

link-Prepares :
    (level : ℕ) (writable : Bool) (levels : Levels) (m : Machine) (table i : ℕ)
    → IsTabled levels m
    → levels table ≡ suc level
    → first_entry (suc level) ≤ i
    → (m.pages table i).present ≡ false
    → (a : Allocation) → Takes m.manager a
    → Prepares level writable levels m table i (link_child table i (zeroed m a))
unfolding link_child zeroed linked_page
link-Prepares level writable levels m table i ok at low absent _ (full all) = refused all
link-Prepares level writable levels m table i ok at low absent _
      (took s manager clear small bits fine) =
    prepared s (linked_page table i s manager m) (λ f. if s == f then level else levels f)
      (absent-Enters level writable levels m table i s manager ok at low absent clear small bits
        fine)

pub prepare-Prepares :
    (level : ℕ) (writable : Bool) (levels : Levels) (m : Machine) (table i : ℕ)
    → IsTabled levels m
    → levels table ≡ suc level
    → first_entry (suc level) ≤ i
    → Prepares level writable levels m table i (set_new_page_map_if_not_present table i m)
unfolding set_new_page_map_if_not_present new_page_map
prepare-Prepares level writable levels m table i ok at low =
    elim (Bool-cases (m.pages table i).present) [
      | inl here ↦ rw here (
          prepared (m.pages table i).addr m levels
            (present-Enters level writable levels m table i ok at low here))
      | inr absent ↦ rw absent (
          link-Prepares level writable levels m table i ok at low absent (take_frame m.manager)
            (take_frame-Takes m.manager ok.manager_ok))
    ]
