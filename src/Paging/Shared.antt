-- ===== src/Paging/Shared.antt =====
-- What CopyPageMaps of Kernel/paging.cpp may write, and the tables of their own over shared pages.
use mikan_os_x.Base.{
  ℕ, zero, suc, ◌<◌, ◌≤◌, ◌≡◌, ◌≢◌, refl, ap, ◌∙◌, true, false, arith, ◌⊎◌, inl, inr,
}
use mikan_os_x.Memory.{get_bit}
use mikan_os_x.Memory.Single.{IsManager}
use mikan_os_x.Paging.{Pages, Machine, set_pointer}

-- A step may write the entries of one table from an index on, and frames that were free.
pub record Keeps (dest start : ℕ) (m m' : Machine) : Type 0 where
  pub manager_ok : IsManager m'.manager
  pub bits : (f : ℕ) → get_bit m.manager f ≡ true → get_bit m'.manager f ≡ true
  pub kept :
      (f i : ℕ) → get_bit m.manager f ≡ true → (f ≢ dest) ⊎ (i < start) → m'.pages f i ≡ m.pages f i
  pub same_cr3 : m'.cr3 ≡ m.cr3

-- The tables below a table, for entries from an index on: they are in use, they are not the copy,
-- and hold what they held at first, the entries `s`.
unfoldable pub Source : ℕ → Pages → Machine → ℕ → ℕ → ℕ → Type 0
Source zero s m dest src start =
    (get_bit m.manager src ≡ true) × (src ≢ dest) × ((i : ℕ) → m.pages src i ≡ s src i)
Source (suc level) s m dest src start =
    (get_bit m.manager src ≡ true)
    × (src ≢ dest)
    × ((i : ℕ) → m.pages src i ≡ s src i)
    × ((i : ℕ)
        → start ≤ i
        → i < 512
        → (s src i).present ≡ true
        → Source level s m dest (s src i).addr 0)

pub Source-Keeps :
    (level : ℕ) (s : Pages) (m m' : Machine) (dest dest' src start first : ℕ)
    → Source level s m dest src start
    → ((f i : ℕ) → get_bit m.manager f ≡ true → f ≢ dest → m'.pages f i ≡ m.pages f i)
    → ((f : ℕ)
        → get_bit m.manager f ≡ true
        → f ≢ dest
        → (get_bit m'.manager f ≡ true) × (f ≢ dest'))
    → start ≤ first
    → Source level s m' dest' src first
unfolding Source
Source-Keeps zero s m m' dest dest' src start first (used, other, same) kept bits le =
    ((bits src used other).0, (bits src used other).1, (λ i. kept src i used other ∙ same i))
Source-Keeps (suc level) s m m' dest dest' src start first (used, other, same, below) kept bits le =
    (
      (bits src used other).0,
      (bits src used other).1,
      (λ i. kept src i used other ∙ same i),
      (λ i low lt here.
          Source-Keeps level s m m' dest dest' (s src i).addr 0 0
            (below i (omega (arith, le, low)) lt here) kept bits (omega arith)),
    )

-- The copy: on level 1 read-only entries for the same pages, above it entries for tables of its
-- own, which were free in `m` and are in use in `m'`.
unfoldable pub Shares : ℕ → Pages → Machine → Machine → ℕ → ℕ → ℕ → Type 0
Shares zero s m m' dest src start =
    (i : ℕ)
    → start ≤ i
    → i < 512
    → (s src i).present ≡ true
    → m'.pages dest i ≡ record (s src i) { writable = false }
Shares (suc level) s m m' dest src start =
    (i : ℕ)
    → start ≤ i
    → i < 512
    → (s src i).present ≡ true
    → (child : ℕ) × (m'.pages dest i ≡ set_pointer child (s src i))
      × ((m'.pages dest i).addr ≡ child)
      × (get_bit m.manager child ≡ false)
      × (get_bit m'.manager child ≡ true)
      × Shares level s m m' child (s src i).addr 0

-- Later steps keep a copy whose tables were free at first and are in use.
pub Shares-later :
    (level : ℕ) (s : Pages) (m0 m1 m2 m3 : Machine) (dest src start : ℕ)
    → ((f : ℕ) → get_bit m1.manager f ≡ false → get_bit m0.manager f ≡ false)
    → ((f : ℕ) → get_bit m2.manager f ≡ true → get_bit m3.manager f ≡ true)
    → ((f i : ℕ)
        → get_bit m1.manager f ≡ false
        → get_bit m2.manager f ≡ true
        → m3.pages f i ≡ m2.pages f i)
    → ((i : ℕ) → start ≤ i → m3.pages dest i ≡ m2.pages dest i)
    → Shares level s m1 m2 dest src start
    → Shares level s m0 m3 dest src start
unfolding Shares
Shares-later zero s m0 m1 m2 m3 dest src start back bits kept top shares =
    λ i low lt here. top i low ∙ shares i low lt here
Shares-later (suc level) s m0 m1 m2 m3 dest src start back bits kept top shares = λ i low lt here.
    let (child, entry, leads, clear, used, below) = shares i low lt here in
    (
      child,
      top i low ∙ entry,
      ap (λ x. x.addr) (top i low) ∙ leads,
      back child clear,
      bits child used,
      Shares-later level s m0 m1 m2 m3 child (s src i).addr 0 back bits kept
          (λ j h. kept child j clear used) below,
    )

pub Keeps-refl : (dest start : ℕ) (m : Machine) → IsManager m.manager → Keeps dest start m m
Keeps-refl dest start m ok = record {
  manager_ok = ok;
  bits = λ f h. h;
  kept = λ f i h o. refl;
  same_cr3 = refl;
}

pub Keeps-trans :
    {dest start first : ℕ} {m m1 m2 : Machine}
    → Keeps dest start m m1
    → start ≤ first
    → Keeps dest first m1 m2
    → Keeps dest start m m2
Keeps-trans {dest} {start} {first} {m} {m1} {m2} p le q = record {
  manager_ok = q.manager_ok;
  bits = λ f h. q.bits f (p.bits f h);
  kept = λ f i h o.
      let o' : (f ≢ dest) ⊎ (i < first) = elim o [
        | inl other ↦ inl other
        | inr lt ↦ inr (omega (arith, lt, le))
      ] in
      q.kept f i (p.bits f h) o' ∙ p.kept f i h o;
  same_cr3 = q.same_cr3 ∙ p.same_cr3;
}
