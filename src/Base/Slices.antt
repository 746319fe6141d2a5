-- ===== src/Base/Slices.antt =====
-- The first entries of a list and the others, of lists put together.
use Prim.Native.Nat.{ℕ, zero, suc, ◌+◌, ◌-◌, ◌≤◌}
use mathlib.Core.Path.{◌≡◌, refl, ap, sym, ◌∙◌}
use mathlib.Core.List.{List, [], ◌∷◌, ◌++◌}
use native.Mathlib.Omega.{arith}
use mikan_os_x.Base.Lists.{length, take, drop}

pub take-append-all {ℓ} :
    {A : Type ℓ} (n : ℕ) (xs ys : List A)
    → length xs ≤ n
    → take n (xs ++ ys) ≡ xs ++ take (n - length xs) ys
take-append-all n [] ys h = ap (λ k. take k ys) (omega arith)
take-append-all zero (x ∷ xs) ys h = absurd (omega arith)
take-append-all (suc n) (x ∷ xs) ys h =
    let e : suc n - suc (length xs) ≡ n - length xs = omega arith in
    rw e (ap (x ∷◌) (take-append-all n xs ys (omega arith)))

pub drop-append-all {ℓ} :
    {A : Type ℓ} (n : ℕ) (xs ys : List A)
    → length xs ≤ n
    → drop n (xs ++ ys) ≡ drop (n - length xs) ys
drop-append-all n [] ys h = ap (λ k. drop k ys) (omega arith)
drop-append-all zero (x ∷ xs) ys h = absurd (omega arith)
drop-append-all (suc n) (x ∷ xs) ys h =
    let e : suc n - suc (length xs) ≡ n - length xs = omega arith in
    rw e (drop-append-all n xs ys (omega arith))

abbrev nothing {ℓ} : {A : Type ℓ} → List A
nothing = []

drop-nil {ℓ} : {A : Type ℓ} (n : ℕ) → drop n (nothing {A = A}) ≡ []
drop-nil zero = refl
drop-nil (suc n) = refl

pub drop-drop {ℓ} : {A : Type ℓ} (n k : ℕ) (xs : List A) → drop n (drop k xs) ≡ drop (k + n) xs
drop-drop n zero xs = ap (λ m. drop m xs) (omega arith)
drop-drop n (suc k) [] = drop-nil n ∙ sym (drop-nil (suc k + n))
drop-drop n (suc k) (x ∷ xs) =
    let e : suc k + n ≡ suc (k + n) = omega arith in rw e (drop-drop n k xs)

pub take-all {ℓ} : {A : Type ℓ} (n : ℕ) (xs : List A) → length xs ≤ n → take n xs ≡ xs
take-all zero [] h = refl
take-all zero (x ∷ xs) h = absurd (omega arith)
take-all (suc n) [] h = refl
take-all (suc n) (x ∷ xs) h = ap (x ∷◌) (take-all n xs (omega arith))
