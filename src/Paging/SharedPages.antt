-- ===== src/Paging/SharedPages.antt =====
-- The last level of CopyPageMaps of Kernel/paging.cpp.
use mikan_os_x.Base.{
  ℕ, zero, suc, ◌+◌, ◌≡◌, ◌≢◌, refl, ap, sym, ◌∙◌, subst, true, false, if◌then◌else◌, arith, ◌⊎◌,
  inl, inr, Bool-cases, ℕ_discrete,
}
use mikan_os_x.Memory.{get_bit}
use mikan_os_x.Memory.Single.{IsManager}
use mikan_os_x.Paging.{PageMapEntry, Pages, Machine, write_entry}
use mikan_os_x.Paging.CopyMaps.{read_only, share_pages}
use mikan_os_x.Paging.Shared.{Keeps, Shares, Keeps-refl, Keeps-trans}

-- One entry of the last level.
record Sets (s : Pages) (m m1 : Machine) (dest src i : ℕ) : Type 0 where
  same_manager : m1.manager ≡ m.manager
  same_cr3 : m1.cr3 ≡ m.cr3
  others : (f j : ℕ) → (f ≢ dest) ⊎ (j ≢ i) → m1.pages f j ≡ m.pages f j
  entry : (s src i).present ≡ true → m1.pages dest i ≡ read_only (s src i)

written-Sets :
    (s : Pages) (m : Machine) (dest src i : ℕ) (e : PageMapEntry)
    → e ≡ read_only (s src i)
    → Sets s m (write_entry dest i e m) dest src i
unfolding write_entry
written-Sets s m dest src i e same = record {
  same_manager = refl;
  same_cr3 = refl;
  others = λ f j o. elim o [ inl ne ↦ ground (arith, ne) | inr ne ↦ ground (arith, ne) ];
  entry = λ here. ground (arith, same);
}

share_entry-Sets :
    (s : Pages) (m : Machine) (dest src i : ℕ)
    → m.pages src i ≡ s src i
    → Sets s m
        (if (m.pages src i).present then write_entry dest i (read_only (m.pages src i)) m else m)
        dest
        src
        i
share_entry-Sets s m dest src i same =
    let shared = write_entry dest i (read_only (m.pages src i)) m in
    elim (Bool-cases (m.pages src i).present) [
      | inr absent ↦
          let none_here : (s src i).present ≡ false = ap (λ x. x.present) (sym same) ∙ absent in
          subst (λ b. Sets s m (if b then shared else m) dest src i) (sym absent)
            (record {
              same_manager = refl;
              same_cr3 = refl;
              others = λ f j o. refl;
              entry = λ here. absurd (ground (arith, here, none_here));
            })
      | inl present ↦
          subst (λ b. Sets s m (if b then shared else m) dest src i) (sym present)
            (written-Sets s m dest src i (read_only (m.pages src i)) (ap read_only same))
    ]

-- The last level.
pub share_pages-Shares :
    (rounds i : ℕ) (s : Pages) (m : Machine) (dest src : ℕ)
    → rounds + i ≡ 512
    → IsManager m.manager
    → src ≢ dest
    → ((j : ℕ) → m.pages src j ≡ s src j)
    → get_bit m.manager dest ≡ true
    → Keeps dest i m (share_pages rounds dest src i m)
      × Shares zero s m (share_pages rounds dest src i m) dest src i
unfolding share_pages Shares
share_pages-Shares zero i s m dest src e ok other same used =
    (Keeps-refl dest i m ok, λ j low lt here. absurd (omega arith))
share_pages-Shares (suc rounds) i s m dest src e ok other same used =
    let m1 =
      if (m.pages src i).present then write_entry dest i (read_only (m.pages src i)) m else m in
    let step = share_entry-Sets s m dest src i (same i) in
    let (k, sh) =
      share_pages-Shares rounds (suc i) s m1 dest src (omega (arith, e))
        (subst IsManager (sym step.same_manager) ok) other
        (λ j. step.others src j (inl other) ∙ same j)
        (subst (λ b. get_bit b dest ≡ true) (sym step.same_manager) used) in
    let one : Keeps dest i m m1 = record {
      manager_ok = subst IsManager (sym step.same_manager) ok;
      bits = λ f h. subst (λ b. get_bit b f ≡ true) (sym step.same_manager) h;
      kept = λ f j h o.
          step.others f j (elim o [ inl ne ↦ inl ne | inr lt ↦ inr (omega (arith, lt)) ]);
      same_cr3 = step.same_cr3;
    } in
    (
      Keeps-trans one (omega arith) k,
      λ j low lt here. elim (ℕ_discrete j i) [
        | yes at ↦
            subst (λ c. (share_pages rounds dest src (suc i) m1).pages dest c ≡ read_only (s src c))
              (sym at)
              (k.kept dest i (one.bits dest used) (inr (omega arith))
                ∙ step.entry (subst (λ c. (s src c).present ≡ true) at here))
        | no ne ↦ sh j (omega (arith, ne)) lt here
      ],
    )
