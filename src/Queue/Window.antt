-- ===== src/Queue/Window.antt =====
-- The cells of an ArrayQueue that hold its values, going round at the end of the array.
use mikan_os_x.Base.{
  ℕ, ◌-◌, ◌+◌, ◌<◌, ◌≤◌, ◌≡◌, List, [], ◌∷◌, ◌++◌, some, arith, get_elem?, length, set,
  get_elem?-set_self, get_elem?-set_ne, ◌==◌, ltb, ◌∙◌, if◌then◌else◌,
}

-- The cell after `i` in an array of `slots` cells.
abbrev pub next : ℕ → ℕ → ℕ
next slots i = if i + 1 == slots then 0 else i + 1

-- The cell `n` places after `i`, for `n` up to `slots`.
abbrev pub after : ℕ → ℕ → ℕ → ℕ
after slots i n = if ltb (i + n) slots then i + n else i + n - slots

module _ {ℓ} {A : Type ℓ} where
  -- The cells from `i` on hold these values.
  abbrev pub Holds : List A → ℕ → ℕ → List A → Type ℓ
  Holds cells slots i [] = Unit
  Holds cells slots i (x ∷ xs) = (get_elem? cells i ≡ some x) × Holds cells slots (next slots i) xs

  -- A write just past the values appends one.
  pub Holds-set :
      (cells : List A) (slots i w : ℕ) (xs : List A) (v : A)
      → slots ≤ length cells
      → i < slots
      → length xs < slots
      → w ≡ after slots i (length xs)
      → Holds cells slots i xs
      → Holds (set cells w v) slots i (xs ++ v ∷ [])
  Holds-set cells slots i w [] v fits hi hn e h =
      (let e' : w ≡ i = ground arith in rw e' (get_elem?-set_self cells i v (omega arith)), tt)
  Holds-set cells slots i w (x ∷ xs) v fits hi hn e h = (
    get_elem?-set_ne cells v (λ (p : w ≡ i). ground arith) ∙ h.0,
    Holds-set cells slots (next slots i) w xs v fits (ground arith) (omega arith) (ground arith)
        h.1,
  )
