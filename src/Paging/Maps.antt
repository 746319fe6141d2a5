-- ===== src/Paging/Maps.antt =====
-- What a part of SetupPageMap of Kernel/paging.cpp makes present.
use mikan_os_x.Base.{
  ℕ, zero, suc, ◌+◌, ◌-◌, ◌*◌, ◌/◌, ◌%◌, ◌^◌, ◌<◌, ◌≤◌, ◌≡◌, sym, ◌∙◌, subst, Bool, arith,
}
use mikan_os_x.Base.Fault.{success, no_enough_memory}
use mikan_os_x.Memory.Single.{IsFull}
use mikan_os_x.Paging.{Pages, Machine, Answer, remaining}
use mikan_os_x.Paging.Frames.{Levels, first_entry, IsTabled, IsOpen, Extends, Extends-trans, Enters}
use mikan_os_x.Paging.Address.{digit-split}

-- The tables lead from a frame to a page that is present for the user, writable if that was asked
-- for.
unfoldable pub Maps : ℕ → Bool → Pages → ℕ → ℕ → Type 0
Maps zero writable pages table p = Unit
Maps (suc level) writable pages table p =
    IsOpen (suc level) writable (pages table (p / 512 ^ level))
    × Maps level writable pages (pages table (p / 512 ^ level)).addr (p % 512 ^ level)

pub Maps-Extends :
    (level : ℕ) (writable : Bool) (levels levels' : Levels) (m m' : Machine) (table p : ℕ)
    → level < 4
    → IsTabled levels m
    → Extends writable levels m levels' m'
    → levels table ≡ suc level
    → first_entry (suc level) ≤ p / 512 ^ level
    → Maps (suc level) writable m.pages table p
    → Maps (suc level) writable m'.pages table p
unfolding Maps
Maps-Extends zero writable levels levels' m m' table p h ok ext at high maps =
    let o =
      ext.opened table (p / 512 ^ 0) (omega (arith, at))
        (subst (λ l. IsOpen l writable (m.pages table (p / 512 ^ 0))) (sym at) maps.0) in
    (subst (λ l. IsOpen l writable (m'.pages table (p / 512 ^ 0))) at o.1, tt)
Maps-Extends (suc level) writable levels levels' m m' table p h ok ext at high (open_now, below) =
    let i = p / 512 ^ suc level in
    let o =
      ext.opened table i (omega (arith, at))
        (subst (λ l. IsOpen l writable (m.pages table i)) (sym at) open_now) in
    let child : levels (m.pages table i).addr ≡ suc level =
      ok.linked table i level at high open_now.0 in
    (
      subst (λ l. IsOpen l writable (m'.pages table i)) at o.1,
      subst (λ c. Maps (suc level) writable m'.pages c (p % 512 ^ suc level)) (sym o.0)
          (Maps-Extends level writable levels levels' m m' (m.pages table i).addr
            (p % 512 ^ suc level) (omega arith) ok ext child (ground arith) below),
    )

-- How a part of SetupPageMap ends that goes over the pages from `first` below `last`.
pub data Fills (level : ℕ) (writable : Bool) (levels : Levels) (m : Machine)
    (table first last n : ℕ) : Answer → Type 0 where
  filled :
      (rest : ℕ) (m' : Machine) (levels' : Levels)
      → IsTabled levels' m'
      → Extends writable levels m levels' m'
      → m'.cr3 ≡ m.cr3
      → rest ≡ n - (last - first)
      → ((p : ℕ) → first ≤ p → p < last → p < first + n → Maps level writable m'.pages table p)
      → Fills level writable levels m table first last n ((rest, success), m')
  stopped :
      (rest : ℕ) (m' : Machine) (levels' : Levels)
      → IsTabled levels' m'
      → Extends writable levels m levels' m'
      → m'.cr3 ≡ m.cr3
      → IsFull m'.manager
      → Fills level writable levels m table first last n ((rest, no_enough_memory), m')

-- The page that is entered on level 1.
pub page-Fills :
    (writable : Bool) (levels : Levels) (m : Machine) (table i child n : ℕ) (levels' : Levels)
    (m' : Machine)
    → 0 < n
    → Enters 0 writable levels m table i child levels' m'
    → Fills 1 writable levels m table
        (i * 512 ^ 0 + 0)
        (i * 512 ^ 0 + 512 ^ 0)
        n
        ((n - 1, success), m')
unfolding Maps
page-Fills writable levels m table i child n levels' m' pos e =
    filled (n - 1) m' levels' e.tabled e.extends e.same_cr3 (omega arith) (λ p low high less.
      (subst (λ j. IsOpen 1 writable (m'.pages table j)) (omega arith) e.open_now, tt))

-- The table below an entry.
pub below-Fills :
    (level : ℕ) (writable : Bool) (levels : Levels) (m : Machine) (table i child first n : ℕ)
    (levels' : Levels) (m' : Machine)
    → level < 3
    → levels table ≡ suc (suc level)
    → Enters (suc level) writable levels m table i child levels' m'
    → (a : Answer) → Fills (suc level) writable levels' m' child first (512 ^ suc level) n a
    → Fills
        (suc (suc level))
        writable
        levels
        m
        table
        (i * 512 ^ suc level + first)
        (i * 512 ^ suc level + 512 ^ suc level)
        n
        (remaining n a)
unfolding remaining Maps
below-Fills level writable levels m table i child first n levels' m' h at e _
      (stopped rest m2 levels2 ok ext same full) =
    stopped n m2 levels2 ok (Extends-trans e.extends ext) (same ∙ e.same_cr3) full
below-Fills level writable levels m table i child first n levels' m' h at e _
      (filled rest m2 levels2 ok ext same count maps) =
    let here : levels' table ≡ suc (suc level) = e.extends.tables table (omega (arith, at)) ∙ at in
    let o =
      ext.opened table i (omega (arith, here))
        (subst (λ l. IsOpen l writable (m'.pages table i)) (sym here) e.open_now) in
    filled rest m2 levels2 ok (Extends-trans e.extends ext) (same ∙ e.same_cr3)
      (omega (arith, count))
      (λ p low high less.
        let (quot, digits) = digit-split i (512 ^ suc level) p (omega arith) (omega arith) in
        (
          subst (λ j. IsOpen (suc (suc level)) writable (m2.pages table j)) (sym quot)
              (subst (λ l. IsOpen l writable (m2.pages table i)) here o.1),
          subst
              (λ j.
                Maps (suc level) writable m2.pages (m2.pages table j).addr (p % 512 ^ suc level))
              (sym quot)
              (subst (λ c. Maps (suc level) writable m2.pages c (p % 512 ^ suc level))
                (sym (o.0 ∙ e.leads))
                (maps (p % 512 ^ suc level) (omega (arith, digits)) (omega (arith, digits, high))
                  (omega (arith, digits)))),
        ))
