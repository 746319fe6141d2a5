-- ===== src/Console/Grid.antt =====
-- The rows of the buffer of Kernel/console.cpp.
use mikan_os_x.Base.{
  ℕ, zero, suc, ◌≤◌, ◌≡◌, refl, ap, sym, ◌∙◌, List, [], ◌∷◌, ◌++◌, get_or, set, length, map, arith,
  append_assoc, drop, subst, length-append,
}
use mikan_os_x.Console.{Console, write_string, shift_rows, clear_last, empty_row}

pub set-middle {ℓ} :
    {A : Type ℓ} (xs ys : List A) (y v : A) → set (xs ++ y ∷ ys) (length xs) v ≡ xs ++ v ∷ ys
set-middle [] ys y v = refl
set-middle (x ∷ xs) ys y v = ap (x ∷◌) (set-middle xs ys y v)

pub get_or-middle {ℓ} :
    {A : Type ℓ} (xs ys : List A) (y d : A) → get_or (xs ++ y ∷ ys) (length xs) d ≡ y
get_or-middle [] ys y d = refl
get_or-middle (x ∷ xs) ys y d = get_or-middle xs ys y d

pub drop-append {ℓ} :
    {A : Type ℓ} (n : ℕ) (xs ys : List A) → n ≤ length xs → drop n (xs ++ ys) ≡ drop n xs ++ ys
drop-append zero xs ys h = refl
drop-append (suc n) [] ys h = absurd (omega arith)
drop-append (suc n) (x ∷ xs) ys h = drop-append n xs ys (omega arith)

pub length-map {ℓ κ} :
    {A : Type ℓ} {B : Type κ} (f : A → B) (xs : List A) → length (map f xs) ≡ length xs
length-map f [] = refl
length-map f (x ∷ xs) = ap suc (length-map f xs)

pub map-append {ℓ κ} :
    {A : Type ℓ} {B : Type κ} (f : A → B) (xs ys : List A) → map f (xs ++ ys) ≡ map f xs ++ map f ys
map-append f [] ys = refl
map-append f (x ∷ xs) ys = ap (f x ∷◌) (map-append f xs ys)

-- The last of some rows.
abbrev pub last_row : List ℕ → List (List ℕ) → List ℕ
last_row y [] = y
last_row y (z ∷ zs) = last_row z zs

-- The loop moves the rows behind one up by one; the last one stays too.
pub shift_rows_lem :
    (zs xs : List (List ℕ)) (y : List ℕ) (k : Console)
    → k.buffer ≡ xs ++ y ∷ zs
    → (shift_rows (length zs) (length xs) k).buffer ≡ xs ++ (zs ++ last_row y zs ∷ [])
unfolding shift_rows
shift_rows_lem [] xs y k e = e
shift_rows_lem (z ∷ zs) xs y k e =
    let n = length xs in
    let grown : length (xs ++ z ∷ []) ≡ suc n = omega (arith, length-append xs (z ∷ [])) in
    let grown' : length (xs ++ y ∷ []) ≡ suc n = omega (arith, length-append xs (y ∷ [])) in
    let next : get_or k.buffer (suc n) [] ≡ z =
      ap (λ b. get_or b (suc n) []) (e ∙ sym (append_assoc xs (y ∷ []) (z ∷ zs)))
      ∙ ap (λ i. get_or ((xs ++ y ∷ []) ++ z ∷ zs) i []) (sym grown')
      ∙ get_or-middle (xs ++ y ∷ []) zs z [] in
    let k' : Console = record k {
      buffer = set k.buffer n (get_or k.buffer (suc n) []);
      draws = k.draws ++ write_string n (get_or k.buffer (suc n) []) ∷ [];
    } in
    let moved : k'.buffer ≡ (xs ++ z ∷ []) ++ z ∷ zs =
      ap (λ v. set k.buffer n v) next
      ∙ ap (λ b. set b n z) e
      ∙ set-middle xs (z ∷ zs) y z
      ∙ sym (append_assoc xs (z ∷ []) (z ∷ zs)) in
    ap (λ i. (shift_rows (length zs) i k').buffer) (sym grown)
    ∙ shift_rows_lem zs (xs ++ z ∷ []) z k' moved
    ∙ append_assoc xs (z ∷ []) (zs ++ last_row z zs ∷ [])

pub shift_rows-same :
    (n i : ℕ) (k : Console)
    → ((shift_rows n i k).has_window ≡ k.has_window)
      × ((shift_rows n i k).cursor_row ≡ k.cursor_row)
      × ((shift_rows n i k).cursor_column ≡ k.cursor_column)
unfolding shift_rows
shift_rows-same zero i k = (refl, refl, refl)
shift_rows-same (suc n) i k = shift_rows-same n (suc i) (record k {
  buffer = set k.buffer i (get_or k.buffer (suc i) []);
  draws = k.draws ++ write_string i (get_or k.buffer (suc i) []) ∷ [];
})

pub drop-suc-map :
    (f : List ℕ → List ℕ) (n : ℕ) (xs : List (List ℕ))
    → drop 1 (map f (drop n xs)) ≡ map f (drop (suc n) xs)
drop-suc-map f zero [] = refl
drop-suc-map f zero (x ∷ xs) = refl
drop-suc-map f (suc n) [] = refl
drop-suc-map f (suc n) (x ∷ xs) = drop-suc-map f n xs

-- The whole of a scroll: the first row goes, and the last one is empty.
pub scrolled_lem :
    (upper : List (List ℕ)) (y : List ℕ) (k : Console)
    → length upper ≡ 24
    → k.buffer ≡ upper ++ y ∷ []
    → (clear_last (shift_rows 24 0 k)).buffer ≡ drop 1 upper ++ y ∷ empty_row ∷ []
unfolding clear_last
scrolled_lem [] y k h e = absurd (omega arith)
scrolled_lem (u ∷ us) y k h e =
    let zs = us ++ y ∷ [] in
    let size : length zs ≡ 24 = omega (arith, length-append us (y ∷ [])) in
    let shifted : (shift_rows 24 0 k).buffer ≡ zs ++ last_row u zs ∷ [] =
      subst (λ n. (shift_rows n 0 k).buffer ≡ zs ++ last_row u zs ∷ []) size
        (shift_rows_lem zs [] u k e) in
    ap (λ b. set b 24 empty_row) shifted
    ∙ ap (λ n. set (zs ++ last_row u zs ∷ []) n empty_row) (sym size)
    ∙ set-middle zs [] (last_row u zs) empty_row
    ∙ append_assoc us (y ∷ []) (empty_row ∷ [])
