-- ===== src/Usb/ArrayMap.antt =====
-- Kernel/usb/arraymap.hpp: a map in a fixed array of slots.
use mikan_os_x.Base.{
  ℕ, ◌+◌, ◌<◌, ◌≤◌, ◌≡◌, refl, Bool, true, false, ◌==◌, if◌then◌else◌, List, [], ◌∷◌, Option, none,
  some, arith,
}

-- An entry of `table_`: a slot with no key is free, and keeps the value that it had. A key stands
-- for its bits, which `==` compares.
abbrev pub Slot {ℓ} : Type ℓ → Type ℓ
Slot V = Option ℕ × V

-- The test of Get and of Delete.
abbrev pub has_key : Option ℕ → ℕ → Bool
has_key none key = false
has_key (some k) key = k == key

abbrev pub is_free : Option ℕ → Bool
is_free none = true
is_free (some k) = false

module _ {ℓ} {V : Type ℓ} where
  unfoldable pub get : ℕ → List (Slot V) → Option V
  get key [] = none
  get key ((k, v) ∷ rest) = if has_key k key then some v else get key rest

  -- A full table is left as it is.
  unfoldable pub put : ℕ → V → List (Slot V) → List (Slot V)
  put key value [] = []
  put key value ((k, v) ∷ rest) =
      if is_free k then (some key, value) ∷ rest else (k, v) ∷ put key value rest

  unfoldable pub delete : ℕ → List (Slot V) → List (Slot V)
  delete key [] = []
  delete key ((k, v) ∷ rest) = if has_key k key then (none, v) ∷ rest else (k, v) ∷ delete key rest

  -- How many slots are free, and how many have a key.
  unfoldable pub free_slots : List (Slot V) → ℕ
  free_slots [] = 0
  free_slots ((k, v) ∷ rest) = (if is_free k then 1 else 0) + free_slots rest

  unfoldable pub occurrences : ℕ → List (Slot V) → ℕ
  occurrences key [] = 0
  occurrences key ((k, v) ∷ rest) = (if has_key k key then 1 else 0) + occurrences key rest

  -- With a free slot, Put of a key that the map does not have adds exactly this entry.
  pub get-put :
      (key sought : ℕ) (value : V) (t : List (Slot V))
      → 0 < free_slots t
      → get key t ≡ none
      → get sought (put key value t) ≡ (if key == sought then some value else get sought t)
  unfolding get put free_slots
  get-put key sought value [] room new = absurd (omega arith)
  get-put key sought value ((none, v) ∷ rest) room new = ground arith
  get-put key sought value ((some k, v) ∷ rest) room new =
      ground (arith, new, get-put key sought value rest)

  occurrences-get : (key : ℕ) (t : List (Slot V)) → occurrences key t ≡ 0 → get key t ≡ none
  unfolding occurrences get
  occurrences-get key [] h = refl
  occurrences-get key ((k, v) ∷ rest) h = ground (arith, occurrences-get key rest)

  -- Where a key stands in at most one slot, Delete takes exactly its entry out of the map.
  pub get-delete :
      (key sought : ℕ) (t : List (Slot V))
      → occurrences key t ≤ 1
      → get sought (delete key t) ≡ (if key == sought then none else get sought t)
  unfolding get delete occurrences
  get-delete key sought [] once = ground arith
  get-delete key sought ((none, v) ∷ rest) once = ground (arith, get-delete key sought rest)
  get-delete key sought ((some k, v) ∷ rest) once =
      ground (arith, get-delete key sought rest, occurrences-get key rest)
