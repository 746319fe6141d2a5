-- ===== src/Layer/Stack.antt =====
-- What std::find, erase and insert do to a stack of pointers.
use mikan_os_x.Base.{
  ℕ, zero, suc, ◌+◌, ◌-◌, ◌<◌, ◌≤◌, ◌≡◌, ◌≢◌, refl, ap, Bool, ◌==◌, if◌then◌else◌, List, [], ◌∷◌,
  Option, none, some, arith, length, leb, Bool-cases, inl, inr,
}

-- The position of the first entry that is x.
unfoldable pub index_of : ℕ → List ℕ → Option ℕ
index_of x [] = none
index_of x (y ∷ ys) =
    if y == x then some 0 else elim (index_of x ys) [ none ↦ none | some i ↦ some (suc i) ]

-- erase at the position that std::find gives, if there is one
unfoldable pub erase : ℕ → List ℕ → List ℕ
erase x [] = []
erase x (y ∷ ys) = if y == x then ys else y ∷ erase x ys

-- insert at begin() + n; the source has n ≤ size()
unfoldable pub insert_at : ℕ → ℕ → List ℕ → List ℕ
insert_at zero x ys = x ∷ ys
insert_at (suc n) x [] = x ∷ []
insert_at (suc n) x (y ∷ ys) = y ∷ insert_at n x ys

-- std::find_if from the end
unfoldable pub reverse_find : (ℕ → Bool) → List ℕ → Option ℕ
reverse_find wanted [] = none
reverse_find wanted (y ∷ ys) = elim (reverse_find wanted ys) [
  | some found ↦ some found
  | none ↦ if wanted y then some y else none
]

unfoldable pub count : ℕ → List ℕ → ℕ
count x [] = 0
count x (y ∷ ys) = (if y == x then 1 else 0) + count x ys

pub count-erase :
    (x z : ℕ) (ys : List ℕ) → count z (erase x ys) ≡ (if z == x then count z ys - 1 else count z ys)
unfolding count erase
count-erase x z [] = ground arith
count-erase x z (y ∷ ys) = ground (arith, count-erase x z ys)

pub count-insert_at :
    (n x z : ℕ) (ys : List ℕ) → count z (insert_at n x ys) ≡ (if z == x then 1 else 0) + count z ys
unfolding count insert_at
count-insert_at zero x z ys = ground arith
count-insert_at (suc n) x z [] = ground arith
count-insert_at (suc n) x z (y ∷ ys) = ground (arith, count-insert_at n x z ys)

pub index_of-none : (x : ℕ) (ys : List ℕ) → index_of x ys ≡ none → count x ys ≡ 0
unfolding index_of count
index_of-none x [] h = refl
index_of-none x (y ∷ ys) h = ground (arith, index_of-none x ys)

pub index_of-some :
    (x i : ℕ) (ys : List ℕ) → index_of x ys ≡ some i → (0 < count x ys) × (i < length ys)
unfolding index_of count
index_of-some x i [] h = absurd (ground arith)
index_of-some x zero (y ∷ ys) h = (ground arith, omega arith)
index_of-some x (suc i) (y ∷ ys) h =
    (ground (arith, index_of-some x i ys), ground (arith, index_of-some x i ys))

-- Where x is put it is found, if it was nowhere before.
pub index_of-insert_at :
    (n x : ℕ) (ys : List ℕ)
    → count x ys ≡ 0
    → n ≤ length ys
    → index_of x (insert_at n x ys) ≡ some n
unfolding index_of insert_at count
index_of-insert_at zero x ys h le = ground arith
index_of-insert_at (suc n) x [] h le = absurd (omega arith)
index_of-insert_at (suc n) x (y ∷ ys) h le = ground (arith, index_of-insert_at n x ys)

-- Another entry moves up if x is put at or below it.
pub index_of-insert_other :
    (n x z i : ℕ) (ys : List ℕ)
    → x ≢ z
    → index_of z ys ≡ some i
    → index_of z (insert_at n x ys) ≡ some (if leb n i then suc i else i)
unfolding index_of insert_at
index_of-insert_other zero x z i ys ne h = ground arith
index_of-insert_other (suc n) x z i [] ne h = absurd (ground arith)
index_of-insert_other (suc n) x z zero (y ∷ ys) ne h = ground arith
index_of-insert_other (suc n) x z (suc i) (y ∷ ys) ne h =
    ground (arith, index_of-insert_other n x z i ys)

-- Taking x out again gives what was there.
pub erase-insert_at : (n x : ℕ) (ys : List ℕ) → count x ys ≡ 0 → erase x (insert_at n x ys) ≡ ys
unfolding erase insert_at count
erase-insert_at zero x ys h = ground arith
erase-insert_at (suc n) x [] h = ground arith
erase-insert_at (suc n) x (y ∷ ys) h = ground (arith, erase-insert_at n x ys)

pub erase-none : (x : ℕ) (ys : List ℕ) → count x ys ≡ 0 → erase x ys ≡ ys
unfolding erase count
erase-none x [] h = refl
erase-none x (y ∷ ys) h = ground (arith, erase-none x ys)

pub length-erase : (x : ℕ) (ys : List ℕ) → 0 < count x ys → suc (length (erase x ys)) ≡ length ys
unfolding erase count
length-erase x [] h = absurd (omega arith)
length-erase x (y ∷ ys) h = elim (Bool-cases (y == x)) [
  | inl e ↦ rw e
  | inr e ↦ rw e (ap suc (length-erase x ys (ground arith)))
]

pub length-insert_at : (n x : ℕ) (ys : List ℕ) → length (insert_at n x ys) ≡ suc (length ys)
unfolding insert_at
length-insert_at zero x ys = refl
length-insert_at (suc n) x [] = refl
length-insert_at (suc n) x (y ∷ ys) = ap suc (length-insert_at n x ys)
