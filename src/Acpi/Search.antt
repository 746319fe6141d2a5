-- ===== src/Acpi/Search.antt =====
-- What Initialize of Kernel/acpi.cpp finds.
use mikan_os_x.Base.{
  ℕ, zero, suc, ◌+◌, ◌-◌, ◌/◌, ◌^◌, ◌≤◌, ◌<◌, ◌≡◌, ◌≢◌, ◌⊎◌, inl, inr, refl, Bool, true, false,
  ◌==◌, Option, none, some, arith, Bool-cases,
}
use mikan_os_x.Acpi.{
  Bytes, rsdp_is_valid, xsdt_address, is_valid, entry, count, xsdt_signature, facp, find_fadt,
  initialize, table_length, field,
}

-- Whether entry i points to a valid FADT.
abbrev pub is_fadt : Bytes → ℕ → ℕ → Bool
is_fadt m xsdt i = is_valid facp (entry m xsdt i) m

-- Entry j is the first one from i on, and before n, that points to a valid FADT.
abbrev pub IsFirst : Bytes → ℕ → (i n j : ℕ) → Type 0
IsFirst m xsdt i n j =
    (i ≤ j)
    × (j < n)
    × (is_fadt m xsdt j ≡ true)
    × ((k : ℕ) → i ≤ k → k < j → is_fadt m xsdt k ≡ false)

-- There is no such entry.
abbrev pub HasNone : Bytes → ℕ → (i n : ℕ) → Type 0
HasNone m xsdt i n = (k : ℕ) → i ≤ k → k < n → is_fadt m xsdt k ≡ false

not_here :
    (m : Bytes) (xsdt i k : ℕ)
    → is_fadt m xsdt i ≡ false
    → i ≤ k
    → (suc i ≤ k → is_fadt m xsdt k ≡ false)
    → is_fadt m xsdt k ≡ false
not_here m xsdt i k other l later = elim (Bool-cases (i == k)) [
  | inl same ↦ let e : k ≡ i = ground (arith, same) in rw e other
  | inr after ↦ later (ground (arith, after))
]

find_fadt_lem :
    (rounds i n : ℕ) (m : Bytes) (xsdt : ℕ)
    → i + rounds ≡ n
    → (HasNone m xsdt i n × (find_fadt rounds i m xsdt ≡ 0))
      ⊎ ((j : ℕ) × IsFirst m xsdt i n j × (find_fadt rounds i m xsdt ≡ entry m xsdt j))
unfolding find_fadt
find_fadt_lem zero i n m xsdt en = inl ((λ k l h. absurd (omega (arith, l, h))), refl)
find_fadt_lem (suc rounds) i n m xsdt en = elim (Bool-cases (is_fadt m xsdt i)) [
  | inl here ↦
      inr (i, (omega arith, omega arith, here, λ k l h. absurd (omega (arith, l, h))), rw here refl)
  | inr other ↦ elim (find_fadt_lem rounds (suc i) n m xsdt (omega (arith, en))) [
    | inl (all, e) ↦
        inl ((λ k l h. not_here m xsdt i k other l (λ s. all k s (omega (arith, h)))), rw other e)
    | inr (j, (l, h, valid, before), e) ↦ inr (
      j,
      (
        omega (arith, l),
        omega (arith, h),
        valid,
        λ k s t. not_here m xsdt i k other s (λ r. before k r t),
      ),
      rw other e,
    )
  ]
]

-- What Initialize promises of its result.
pub Finds : ℕ → Bytes → Option ℕ → Type 0
Finds rsdp m none =
    let xsdt = xsdt_address rsdp m in
    let n = (table_length xsdt m - 36) / 8 in
    (rsdp_is_valid rsdp m ≡ false)
    ⊎ ((is_valid xsdt_signature xsdt m ≡ false)
        ⊎ (HasNone m xsdt 0 n ⊎ ((j : ℕ) × IsFirst m xsdt 0 n j × (entry m xsdt j ≡ 0))))
Finds rsdp m (some fadt) =
    let xsdt = xsdt_address rsdp m in
    (rsdp_is_valid rsdp m ≡ true)
    × (is_valid xsdt_signature xsdt m ≡ true)
    × ((j : ℕ) × IsFirst m xsdt 0 ((table_length xsdt m - 36) / 8) j
        × (fadt ≡ entry m xsdt j)
        × (fadt ≢ 0))

-- A length of four bytes, without the header.
count_lem :
    (m : Bytes) (xsdt : ℕ)
    → ((a : ℕ) → m a < 2 ^ 8)
    → 36 ≤ table_length xsdt m
    → count m xsdt ≡ (table_length xsdt m - 36) / 8
unfolding count table_length field
count_lem m xsdt bytes h =
    let a = bytes (xsdt + 4) in
    let b = bytes (suc (xsdt + 4)) in
    let c = bytes (suc (suc (xsdt + 4))) in
    let d = bytes (suc (suc (suc (xsdt + 4)))) in omega (arith, a, b, c, d, h)

-- With an XSDT of at least the length of its header, Initialize goes on only where the RSDP and the
-- XSDT are valid, with the first of the entries of the XSDT that is a valid FADT; it ends the
-- kernel only where one of the two is not valid, no entry is a valid FADT, or the first one is the
-- null pointer.
pub initialize-Finds :
    (rsdp : ℕ) (m : Bytes)
    → ((a : ℕ) → m a < 2 ^ 8)
    → 36 ≤ table_length (xsdt_address rsdp m) m
    → Finds rsdp m (initialize rsdp m)
unfolding initialize Finds
initialize-Finds rsdp m bytes h =
    let xsdt = xsdt_address rsdp m in
    let n = (table_length xsdt m - 36) / 8 in
    elim (Bool-cases (rsdp_is_valid rsdp m)) [
      | inr bad ↦ rw bad (inl bad)
      | inl good ↦ elim (Bool-cases (is_valid xsdt_signature xsdt m)) [
        | inr bad ↦ rw (good, bad) (inr (inl bad))
        | inl well ↦
            rw (good, well, count_lem m xsdt bytes h)
              (elim (find_fadt_lem n 0 n m xsdt (omega arith)) [
                | inl (all, e) ↦ rw e (inr (inr (inl all)))
                | inr (j, first, e) ↦ elim (Bool-cases (entry m xsdt j == 0)) [
                  | inl null ↦ rw (e, null) (inr (inr (inr (j, first, ground (arith, null)))))
                  | inr there ↦ rw (e, there) (good, well, (j, first, refl, ground (arith, there)))
                ]
              ])
      ]
    ]
