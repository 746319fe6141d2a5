-- ===== src/Paging/Drops.antt =====
-- What one round of CleanPageMap of Kernel/paging.cpp leaves behind.
use mikan_os_x.Base.{
  ℕ, suc, ◌-◌, ◌<◌, ◌≤◌, ◌≡◌, ◌≢◌, refl, ap, sym, ◌∙◌, subst, true, false, ◌==◌, ltb, if◌then◌else◌,
  arith, ◌⊎◌, inl, inr, Bool-cases, ℕ_discrete,
}
use mikan_os_x.Base.Fault.{Code, success}
use mikan_os_x.Memory.{BitmapMemoryManager, get_bit, free}
use mikan_os_x.Memory.Ranges.{IsValid, within}
use mikan_os_x.Memory.FirstFit.{free_lem, free-range_end}
use mikan_os_x.Paging.{LinearAddress, part, Machine, null_entry, with_entry, write_entry}
use mikan_os_x.Paging.Frames.{Levels, first_entry}
use mikan_os_x.Paging.Clean.{clear_entry, release, clean_entry}
use mikan_os_x.Paging.Clears.{IsClearable, Clears, Clears-refl, Clears-trans, Clears-raise}

-- One entry is cleared: it is not present, and the frame of a writable one is free.
pub record Drops (levels : Levels) (a : LinearAddress) (level : ℕ) (table i : ℕ) (m m' : Machine)
    : Type 0 where
  pub clears : Clears levels a level m m'
  pub gone : (m'.pages table i).present ≡ false
  pub others : (j : ℕ) → j ≢ i → m'.pages table j ≡ m.pages table j
  pub released :
      (m.pages table i).present ≡ true
      → (m.pages table i).writable ≡ true
      → get_bit m'.manager (m.pages table i).addr ≡ false

-- The entries of a table from `i` on are cleared.
pub record Cleans (levels : Levels) (a : LinearAddress) (level : ℕ) (table i : ℕ) (m m' : Machine)
    : Type 0 where
  pub clears : Clears levels a level m m'
  pub gone : (j : ℕ) → i ≤ j → j < 512 → (m'.pages table j).present ≡ false
  pub others : (j : ℕ) → j < i → m'.pages table j ≡ m.pages table j
  pub released :
      (j : ℕ)
      → i ≤ j
      → j < 512
      → (m.pages table j).present ≡ true
      → (m.pages table j).writable ≡ true
      → get_bit m'.manager (m.pages table j).addr ≡ false

-- A call that succeeds and leaves a machine of some kind.
abbrev pub Leaves : (Machine → Type 0) → Code × Machine → Type 0
Leaves P r = (m' : Machine) × (r ≡ (success, m')) × P m'

-- What the call for the table below has to leave, where there is one.
abbrev BelowGone : LinearAddress → ℕ → ℕ → Machine → Type 0
BelowGone a level child m =
    (l : ℕ)
    → level ≡ suc l
    → (j : ℕ) → part (suc l) a ≤ j
    → j < 512
    → (m.pages child j).present ≡ false

dropped-Drops :
    (levels : Levels) (a : LinearAddress) (level table i : ℕ) (m m1 : Machine)
    (manager : BitmapMemoryManager)
    → levels table ≡ suc level
    → Clears levels a level m m1
    → IsValid manager
    → manager.range_end ≡ m1.manager.range_end
    → ((f : ℕ) → get_bit m1.manager f ≡ false → get_bit manager f ≡ false)
    → ((m.pages table i).writable ≡ true → get_bit manager (m.pages table i).addr ≡ false)
    → BelowGone a level (m.pages table i).addr m1
    → Drops levels a
        (suc level)
        table
        i
        m
        (write_entry table i null_entry (record m1 { manager = manager }))
unfolding write_entry
dropped-Drops levels a level table i m m1 manager at p v end bits out below = record {
  clears = Clears-trans (Clears-raise p) (record {
    kept = λ f j h. ground arith;
    cleared = λ f j. written f j;
    valid = v;
    same_end = end;
    same_cr3 = refl;
    freed = bits;
    settled = λ f j pos here gone. settle f j here gone;
  });
  gone = ground arith;
  others = λ j ne. ground (arith, p.kept table j (inr (omega (arith, at))));
  released = λ here writes. out writes;
}
  where
    written :
        (f j : ℕ)
        → (with_entry table i null_entry m1.pages f j ≡ m1.pages f j)
          ⊎ ((with_entry table i null_entry m1.pages f j).present ≡ false)
    written f j = elim (Bool-cases (table == f)) [
      | inr ne ↦ inl (ground arith)
      | inl e ↦ elim (Bool-cases (i == j)) [
        | inr ne ↦ inl (ground arith)
        | inl e' ↦ inr (ground arith)
      ]
    ]

    own : m1.pages table i ≡ m.pages table i
    own = p.kept table i (inr (omega (arith, at)))

    settle :
        (f j : ℕ)
        → (m1.pages f j).present ≡ true
        → (with_entry table i null_entry m1.pages f j).present ≡ false
        → ((m1.pages f j).writable ≡ true → get_bit manager (m1.pages f j).addr ≡ false)
          × ((l : ℕ)
              → levels f ≡ suc (suc l)
              → (k : ℕ) → part (suc l) a ≤ k
              → k < 512
              → (with_entry table i null_entry m1.pages (m1.pages f j).addr k).present ≡ false)
    settle f j here gone = elim (ℕ_discrete f table) [
      | no ne ↦ absurd (ground (arith, here, gone, ne))
      | yes ef ↦ elim (ℕ_discrete j i) [
        | no ne ↦ absurd (ground (arith, here, gone, ne))
        | yes ej ↦
            rw (ef, ej, own)
              (
                out,
                λ l e k low h. elim (written (m.pages table i).addr k) [
                  | inl same ↦ ap (λ x. x.present) same ∙ below l (omega (arith, at, e)) k low h
                  | inr away ↦ away
                ],
              )
      ]
    ]

clear_entry-Drops :
    (levels : Levels) (a : LinearAddress) (level table i : ℕ) (m m1 : Machine) (code : Code)
    (manager : BitmapMemoryManager)
    → levels table ≡ suc level
    → Clears levels a level m m1
    → code ≡ success
    → IsValid manager
    → manager.range_end ≡ m1.manager.range_end
    → ((f : ℕ)
        → get_bit manager f
          ≡ (if within (m.pages table i).addr 1 f then false else get_bit m1.manager f))
    → BelowGone a level (m.pages table i).addr m1
    → Leaves (Drops levels a (suc level) table i m) (clear_entry table i m1 (code, manager))
unfolding clear_entry
clear_entry-Drops levels a level table i m m1 code manager at p e v end bits below = rw e (
  write_entry table i null_entry (record m1 { manager = manager }),
  refl,
  dropped-Drops levels a level table i m m1 manager at p v end (λ f h. ground (arith, bits f))
      (λ h. ground (arith, bits (m.pages table i).addr)) below,
)

release-Drops :
    (levels : Levels) (a : LinearAddress) (level table i : ℕ) (m m1 : Machine)
    → levels table ≡ suc level
    → first_entry (suc level) ≤ i
    → IsClearable levels m
    → (m.pages table i).present ≡ true
    → Clears levels a level m m1
    → BelowGone a level (m.pages table i).addr m1
    → Leaves
        (Drops levels a (suc level) table i m)
        (release table i (m.pages table i) (success, m1))
unfolding release
release-Drops levels a level table i m m1 at low ok here p below =
    elim (Bool-cases (m.pages table i).writable) [
      | inr fixed ↦ rw fixed (
        write_entry table i null_entry m1,
        refl,
        dropped-Drops levels a level table i m m1 m1.manager at p p.valid refl (λ f h. h)
            (λ h. ground arith) below,
      )
      | inl writes ↦
          let owned =
            ok.owned table i (omega (arith, at)) (subst (λ l. first_entry l ≤ i) (sym at) low) here
              writes in
          let (code, bits, v) =
            free_lem m1.manager (m.pages table i).addr 1 p.valid
              (omega (arith, owned, p.same_end, p.valid.in_map)) in
          rw writes (
            clear_entry-Drops levels a level table i m m1
              (free (m.pages table i).addr 1 m1.manager).0
              (free (m.pages table i).addr 1 m1.manager).1 at p code v
              (free-range_end m1.manager (m.pages table i).addr 1) bits below)
    ]

pub clean_entry-Drops :
    (levels : Levels) (a : LinearAddress) (level table i : ℕ) (below : ℕ → Machine → Code × Machine)
    (m : Machine)
    → levels table ≡ suc level
    → first_entry (suc level) ≤ i
    → IsClearable levels m
    → (0 < level
        → (child : ℕ) → levels child ≡ level
        → Leaves (Cleans levels a level child (part level a) m) (below child m))
    → Leaves (Drops levels a (suc level) table i m) (clean_entry (suc level) below table i m)
unfolding clean_entry release
clean_entry-Drops levels a level table i below m at low ok cleans =
    elim (Bool-cases (m.pages table i).present) [
      | inr absent ↦ rw absent (
        m,
        refl,
        record {
          clears = Clears-refl levels a (suc level) m ok.valid;
          gone = absent;
          others = λ j ne. refl;
          released = λ here. ground arith;
        },
      )
      | inl here ↦ rw here (elim (ℕ_discrete level 0) [
        | yes z ↦
            let bottom : ltb 1 (suc level) ≡ false = ground (arith, z) in
            rw bottom (
              release-Drops levels a level table i m m at low ok here
                (Clears-refl levels a level m ok.valid) (λ l e. absurd (omega (arith, z, e))))
        | no nz ↦
            let upper : ltb 1 (suc level) ≡ true = ground (arith, nz) in
            let child : levels (m.pages table i).addr ≡ level =
              ground (arith, nz, ok.linked table i (level - 1)) in
            let (m1, e1, p) = cleans (omega (arith, nz)) (m.pages table i).addr child in
            rw (upper, e1)
              (release-Drops levels a level table i m m1 at low ok here p.clears
                (λ l e j l' h. p.gone j (subst (λ k. part k a ≤ j) (sym e) l') h))
      ])
    ]
