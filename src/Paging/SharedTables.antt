-- ===== src/Paging/SharedTables.antt =====
-- A new table in a copy that CopyPageMaps of Kernel/paging.cpp makes.
use mikan_os_x.Base.{
  ℕ, suc, ◌%◌, ◌^◌, ◌<◌, ◌≡◌, ◌≢◌, refl, ap, sym, ◌∙◌, subst, true, false, ◌==◌, if◌then◌else◌,
  arith, ◌⊎◌, inl, inr, Bool-cases, ℕ_discrete,
}
use mikan_os_x.Memory.{BitmapMemoryManager, get_bit}
use mikan_os_x.Memory.Single.{IsManager}
use mikan_os_x.Paging.{Pages, Machine, null_entry, set_pointer, with_page, write_entry}
use mikan_os_x.Paging.Shared.{Keeps, Shares, Shares-later}

-- An entry that leads to a new table.
pub record Opens (s : Pages) (m m1 : Machine) (dest src i f : ℕ) : Type 0 where
  pub manager_ok : IsManager m1.manager
  pub clear : get_bit m.manager f ≡ false
  pub used : get_bit m1.manager f ≡ true
  pub small : f < 2 ^ 25
  pub grows : (g : ℕ) → get_bit m.manager g ≡ true → get_bit m1.manager g ≡ true
  pub others :
      (g j : ℕ) → get_bit m.manager g ≡ true → (g ≢ dest) ⊎ (j ≢ i) → m1.pages g j ≡ m.pages g j
  pub entry : m1.pages dest i ≡ set_pointer f (s src i)
  pub same_cr3 : m1.cr3 ≡ m.cr3

-- The machine once the entry is written.
unfoldable pub opened : ℕ → ℕ → ℕ → ℕ → BitmapMemoryManager → Machine → Machine
opened dest src i f manager m =
    write_entry dest i (set_pointer f (with_page f (λ j. null_entry) m.pages src i))
      (record m { manager = manager; pages = with_page f (λ j. null_entry) m.pages })

pub opened-Opens :
    (s : Pages) (m : Machine) (dest src i f : ℕ) (manager : BitmapMemoryManager)
    → get_bit m.manager dest ≡ true
    → get_bit m.manager src ≡ true
    → m.pages src i ≡ s src i
    → get_bit m.manager f ≡ false
    → f < 2 ^ 25
    → ((g : ℕ) → get_bit manager g ≡ (if f == g then true else get_bit m.manager g))
    → IsManager manager
    → Opens s m (opened dest src i f manager m) dest src i f
unfolding opened write_entry
opened-Opens s m dest src i f manager used_d used_s same clear small bits fine = record {
  manager_ok = fine;
  clear = clear;
  used = ground (arith, bits f);
  small = small;
  grows = λ g h. ground (arith, bits g);
  others = λ g j h o. elim o [ inl ne ↦ ground (arith, ne) | inr ne ↦ ground (arith, ne) ];
  entry = ground (arith, same);
  same_cr3 = refl;
}

pub Opens-Keeps :
    {s : Pages} {m m1 m2 : Machine} {dest src i f : ℕ}
    → Opens s m m1 dest src i f
    → Keeps f 0 m1 m2
    → Keeps dest i m m2
Opens-Keeps {m} {f} o k = record {
  manager_ok = k.manager_ok;
  bits = λ g h. k.bits g (o.grows g h);
  kept = λ g j h side.
      let apart : g ≢ f = λ e. ground (arith, h, o.clear, e) in
      k.kept g j (o.grows g h) (inl apart)
      ∙ o.others g j h (elim side [ inl ne ↦ inl ne | inr lt ↦ inr (omega (arith, lt)) ]);
  same_cr3 = k.same_cr3 ∙ o.same_cr3;
}

-- What the entry leads to, after the rest of the loop.
pub entry-Shares :
    (level : ℕ) (s : Pages) (m m1 m2 m3 : Machine) (dest src i f : ℕ)
    → get_bit m.manager dest ≡ true
    → Opens s m m1 dest src i f
    → Keeps f 0 m1 m2
    → Shares level s m1 m2 f (s src i).addr 0
    → Keeps dest (suc i) m2 m3
    → (child : ℕ) × (m3.pages dest i ≡ set_pointer child (s src i))
      × ((m3.pages dest i).addr ≡ child)
      × (get_bit m.manager child ≡ false)
      × (get_bit m3.manager child ≡ true)
      × Shares level s m m3 child (s src i).addr 0
entry-Shares level s m m1 m2 m3 dest src i f used o k shares k3 =
    let apart : f ≢ dest = λ e. ground (arith, used, o.clear, e) in
    let apart' : dest ≢ f = λ e. apart (sym e) in
    let used1 = o.grows dest used in
    let entry : m3.pages dest i ≡ set_pointer f (s src i) =
      k3.kept dest i (k.bits dest used1) (inr (omega arith))
      ∙ k.kept dest i used1 (inl apart')
      ∙ o.entry in
    let short : f % 2 ^ 40 ≡ f = omega (arith, o.small) in
    (
      f,
      entry,
      ap (λ x. x.addr) entry ∙ short,
      o.clear,
      k3.bits f (k.bits f o.used),
      Shares-later level s m m1 m2 m3 f (s src i).addr 0
          (λ g free. elim (Bool-cases (get_bit m.manager g)) [
            | inr clear ↦ clear
            | inl marked ↦ absurd (ground (arith, free, o.grows g marked))
          ])
          k3.bits
          (λ g j free marked. k3.kept g j marked (inl (λ e. ground (arith, free, used1, e))))
          (λ j h. k3.kept f j (k.bits f o.used) (inl apart)) shares,
    )

pub was-free :
    {dest start : ℕ} {m m' : Machine}
    → Keeps dest start m m'
    → (g : ℕ) → get_bit m'.manager g ≡ false
    → get_bit m.manager g ≡ false
was-free {m} k g free = elim (Bool-cases (get_bit m.manager g)) [
  | inr clear ↦ clear
  | inl marked ↦ absurd (ground (arith, free, k.bits g marked))
]

-- The entries from the next one on, and one more.
pub joined-Shares :
    (level : ℕ) (s : Pages) (m m2 m3 : Machine) (dest src i : ℕ)
    → Keeps dest i m m2
    → ((s src i).present ≡ true
        → (child : ℕ) × (m3.pages dest i ≡ set_pointer child (s src i))
          × ((m3.pages dest i).addr ≡ child)
          × (get_bit m.manager child ≡ false)
          × (get_bit m3.manager child ≡ true)
          × Shares level s m m3 child (s src i).addr 0)
    → Shares (suc level) s m2 m3 dest src (suc i)
    → Shares (suc level) s m m3 dest src i
unfolding Shares
joined-Shares level s m m2 m3 dest src i k one more = λ j low lt here. elim (ℕ_discrete j i) [
  | yes at ↦
      subst
        (λ c.
          (child : ℕ) × (m3.pages dest c ≡ set_pointer child (s src c))
          × ((m3.pages dest c).addr ≡ child)
          × (get_bit m.manager child ≡ false)
          × (get_bit m3.manager child ≡ true)
          × Shares level s m m3 child (s src c).addr 0)
        (sym at) (one (subst (λ c. (s src c).present ≡ true) at here))
  | no ne ↦
      let (child, entry, leads, clear, used, below) = more j (omega (arith, ne)) lt here in
      (
        child,
        entry,
        leads,
        was-free k child clear,
        used,
        Shares-later level s m m2 m3 m3 child (s src j).addr 0 (was-free k) (λ g h. h)
            (λ g a b c. refl) (λ a h. refl) below,
      )
]
