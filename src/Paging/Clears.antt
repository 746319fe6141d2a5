-- ===== src/Paging/Clears.antt =====
-- What CleanPageMap of Kernel/paging.cpp may change.
use mikan_os_x.Base.{
  ℕ, suc, ◌<◌, ◌≤◌, ◌≡◌, refl, ap, sym, ◌∙◌, subst, true, false, arith, ◌⊎◌, inl, inr,
}
use mikan_os_x.Memory.{get_bit}
use mikan_os_x.Memory.Ranges.{IsValid}
use mikan_os_x.Paging.{LinearAddress, part, Machine}
use mikan_os_x.Paging.Frames.{Levels, first_entry}

-- Entries that are present lead to tables of the level below, and writable ones to frames of the
-- map.
pub record IsClearable (levels : Levels) (m : Machine) : Type 0 where
  pub valid : IsValid m.manager
  pub linked :
      (f i level : ℕ)
      → levels f ≡ suc (suc level)
      → first_entry (suc (suc level)) ≤ i
      → (m.pages f i).present ≡ true
      → levels (m.pages f i).addr ≡ suc level
  pub owned :
      (f i : ℕ)
      → 0 < levels f
      → first_entry (levels f) ≤ i
      → (m.pages f i).present ≡ true
      → (m.pages f i).writable ≡ true
      → (m.pages f i).addr < m.manager.range_end

-- A present entry that was cleared is settled: the frame of a writable one is free, and the table
-- that it led to has no present entry from the address's part on.
abbrev pub Settled : Levels → LinearAddress → Machine → Machine → Type 0
Settled levels a m m' =
    (f i : ℕ)
    → 0 < levels f
    → (m.pages f i).present ≡ true
    → (m'.pages f i).present ≡ false
    → ((m.pages f i).writable ≡ true → get_bit m'.manager (m.pages f i).addr ≡ false)
      × ((level : ℕ)
          → levels f ≡ suc (suc level)
          → (j : ℕ) → part (suc level) a ≤ j
          → j < 512
          → (m'.pages (m.pages f i).addr j).present ≡ false)

-- Entries of tables up to a level may be cleared, and frames freed, and what is cleared is settled;
-- nothing else changes.
pub record Clears (levels : Levels) (a : LinearAddress) (top : ℕ) (m m' : Machine) : Type 0 where
  pub kept : (f i : ℕ) → (levels f ≡ 0) ⊎ (top < levels f) → m'.pages f i ≡ m.pages f i
  pub cleared : (f i : ℕ) → (m'.pages f i ≡ m.pages f i) ⊎ ((m'.pages f i).present ≡ false)
  pub valid : IsValid m'.manager
  pub same_end : m'.manager.range_end ≡ m.manager.range_end
  pub same_cr3 : m'.cr3 ≡ m.cr3
  pub freed : (f : ℕ) → get_bit m.manager f ≡ false → get_bit m'.manager f ≡ false
  pub settled : Settled levels a m m'

-- A cleared entry stays so.
pub Clears-gone :
    {levels : Levels} {a : LinearAddress} {top : ℕ} {m m' : Machine}
    → Clears levels a top m m'
    → (f i : ℕ) → (m.pages f i).present ≡ false
    → (m'.pages f i).present ≡ false
Clears-gone p f i h = elim (p.cleared f i) [
  | inl same ↦ ap (λ x. x.present) same ∙ h
  | inr gone ↦ gone
]

pub Clears-refl :
    (levels : Levels) (a : LinearAddress) (top : ℕ) (m : Machine)
    → IsValid m.manager
    → Clears levels a top m m
Clears-refl levels a top m v = record {
  kept = λ f i h. refl;
  cleared = λ f i. inl refl;
  valid = v;
  same_end = refl;
  same_cr3 = refl;
  freed = λ f h. h;
  settled = λ f i pos here gone. absurd (ground (arith, here, gone));
}

pub Clears-trans :
    {levels : Levels} {a : LinearAddress} {top : ℕ} {m m' m2 : Machine}
    → Clears levels a top m m'
    → Clears levels a top m' m2
    → Clears levels a top m m2
Clears-trans {levels} {a} {top} {m} {m'} {m2} p q = record {
  kept = λ f i h. q.kept f i h ∙ p.kept f i h;
  cleared = λ f i. elim (q.cleared f i) [
    | inr gone ↦ inr gone
    | inl e ↦ elim (p.cleared f i) [
      | inl e' ↦ inl (e ∙ e')
      | inr gone ↦ inr (ap (λ x. x.present) e ∙ gone)
    ]
  ];
  valid = q.valid;
  same_end = q.same_end ∙ p.same_end;
  same_cr3 = q.same_cr3 ∙ p.same_cr3;
  freed = λ f h. q.freed f (p.freed f h);
  settled = λ f i pos here gone. elim (p.cleared f i) [
    | inl same ↦
        let here' : (m'.pages f i).present ≡ true = ap (λ x. x.present) same ∙ here in
        subst
          (λ x.
            (x.writable ≡ true → get_bit m2.manager x.addr ≡ false)
            × ((level : ℕ)
                → levels f ≡ suc (suc level)
                → (j : ℕ) → part (suc level) a ≤ j
                → j < 512
                → (m2.pages x.addr j).present ≡ false))
          same (q.settled f i pos here' gone)
    | inr away ↦
        let (free, below) = p.settled f i pos here away in
        (
          λ w. q.freed (m.pages f i).addr (free w),
          λ level e j l h. Clears-gone q (m.pages f i).addr j (below level e j l h),
        )
  ];
}

pub Clears-raise :
    {levels : Levels} {a : LinearAddress} {top : ℕ} {m m' : Machine}
    → Clears levels a top m m'
    → Clears levels a (suc top) m m'
Clears-raise p = record {
  kept = λ f i h. p.kept f i (elim h [ inl z ↦ inl z | inr up ↦ inr (omega (arith, up)) ]);
  cleared = p.cleared;
  valid = p.valid;
  same_end = p.same_end;
  same_cr3 = p.same_cr3;
  freed = p.freed;
  settled = p.settled;
}

pub Clears-IsClearable :
    {levels : Levels} {a : LinearAddress} {top : ℕ} {m m' : Machine}
    → IsClearable levels m
    → Clears levels a top m m'
    → IsClearable levels m'
Clears-IsClearable {levels} {a} {top} {m} {m'} ok p = record {
  valid = p.valid;
  linked = λ f i level e low here. elim (p.cleared f i) [
    | inl same ↦
        subst (λ x. levels x.addr ≡ suc level) (sym same)
          (ok.linked f i level e low (ap (λ x. x.present) (sym same) ∙ here))
    | inr gone ↦ ground arith
  ];
  owned = λ f i pos low here writes. elim (p.cleared f i) [
    | inl same ↦ ground (arith, ok.owned f i, p.same_end)
    | inr gone ↦ ground arith
  ];
}
