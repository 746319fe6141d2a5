-- ===== src/Fat/Chain.antt =====
-- Chains of clusters in the file allocation table.
use mikan_os_x.Base.{
  ℕ, zero, suc, ◌+◌, ◌<◌, ◌≡◌, ◌≢◌, refl, sym, ◌∙◌, subst, true, false, ◌==◌, if◌then◌else◌, List,
  [], ◌∷◌, get_or, set, length, arith, get_or-set_self, get_or-set_ne, inl, inr, ◌⊎◌, ℕ_discrete,
}
use mikan_os_x.Fat.{is_end}

-- The clusters from one to the end of its chain. Past the table an entry reads as 1.
pub data Chain (table : List ℕ) : ℕ → List ℕ → Type 0 where
  last :
      {cluster : ℕ}
      → cluster < length table
      → is_end (get_or table cluster 1) ≡ true
      → Chain table cluster (cluster ∷ [])
  link :
      {cluster next : ℕ} {rest : List ℕ}
      → cluster < length table
      → get_or table cluster 1 ≡ next
      → is_end next ≡ false
      → next ≢ 0
      → Chain table next rest
      → Chain table cluster (cluster ∷ rest)

unfoldable pub Avoids : ℕ → List ℕ → Type 0
Avoids i [] = Unit
Avoids i (x ∷ xs) = (i ≢ x) × Avoids i xs

unfoldable pub AllFree : List ℕ → List ℕ → Type 0
AllFree table [] = Unit
AllFree table (x ∷ xs) = (get_or table x 1 ≡ 0) × AllFree table xs

-- An entry that is not free is none of the free ones.
pub used-Avoids :
    (table : List ℕ) (i : ℕ) (xs : List ℕ) → get_or table i 1 ≢ 0 → AllFree table xs → Avoids i xs
unfolding Avoids AllFree
used-Avoids table i [] used free = tt
used-Avoids table i (x ∷ xs) used free = (
  λ e. used (subst (λ k. get_or table k 1 ≡ 0) (sym e) free.0),
  used-Avoids table i xs used free.1,
)

-- How many of so many entries from a candidate on are free.
unfoldable pub free_count : ℕ → ℕ → List ℕ → ℕ
free_count zero candidate table = 0
free_count (suc fuel) candidate table =
    (if get_or table candidate 1 == 0 then 1 else 0) + free_count fuel (suc candidate) table

was_used :
    (table : List ℕ) (current candidate : ℕ)
    → (get_or table current 1 ≢ 0) ⊎ (current < candidate)
    → current ≡ candidate
    → get_or table current 1 ≢ 0
was_used table current candidate (inl used) e = used
was_used table current candidate (inr below) e = absurd (omega arith)

pub free_count-set :
    (fuel candidate current value : ℕ) (table : List ℕ)
    → current < length table
    → value ≢ 0
    → (get_or table current 1 ≢ 0) ⊎ (current < candidate)
    → free_count fuel candidate (set table current value) ≡ free_count fuel candidate table
unfolding free_count
free_count-set zero candidate current value table inside used below = refl
free_count-set (suc fuel) candidate current value table inside used below =
    let later : (get_or table current 1 ≢ 0) ⊎ (current < suc candidate) = elim below [
      | inl a ↦ inl a
      | inr b ↦ inr (omega arith)
    ] in
    let rest = free_count-set fuel (suc candidate) current value table inside used later in
    elim (ℕ_discrete current candidate) [
      | yes same ↦
          let new : get_or (set table current value) candidate 1 ≡ value =
            subst (λ k. get_or (set table current value) k 1 ≡ value) same
              (get_or-set_self table current value 1 inside) in
          let old : get_or table candidate 1 ≢ 0 =
            subst (λ k. get_or table k 1 ≢ 0) same (was_used table current candidate below same) in
          ground (arith, new, old, rest, used)
      | no differ ↦ ground (arith, get_or-set_ne table current candidate value 1 differ, rest)
    ]

-- A write to an entry that is none of these leaves them free.
pub still_free :
    (table : List ℕ) (current value : ℕ) (xs : List ℕ)
    → Avoids current xs
    → AllFree (set table current value) xs
    → AllFree table xs
unfolding Avoids AllFree
still_free table current value [] avoids free = tt
still_free table current value (x ∷ xs) avoids free = (
  sym (get_or-set_ne table current x value 1 avoids.0) ∙ free.0,
  still_free table current value xs avoids.1 free.1,
)
