-- ===== src/Fat/Name.antt =====
-- Kernel/fat.cpp: the elements of a path and the 8.3 names of directory entries. A C string is
-- the list of its characters before the 0.
use mikan_os_x.Base.{
  ℕ, suc, ◌+◌, ◌-◌, ◌≤◌, ◌≡◌, ◌≢◌, refl, ap, sym, ◌∙◌, Bool, true, false, ◌==◌, ltb, leb, ◌&&◌,
  if◌then◌else◌, List, [], ◌∷◌, ◌++◌, Option, none, some, set, take, drop, length, replicate,
  take-all, append-nil, arith,
}

-- toupper in the C locale
unfoldable pub toupper : ℕ → ℕ
toupper c = if leb 97 c && leb c 122 then c - 32 else c

-- strchr: what stands before and behind the first c.
unfoldable pub split_first : ℕ → List ℕ → Option (List ℕ × List ℕ)
split_first c [] = none
split_first c (x ∷ xs) =
    if x == c
    then some ([], xs)
    else elim (split_first c xs) [ none ↦ none | some parts ↦ some (x ∷ parts.0, parts.1) ]

-- NextPathElement: the element, what follows the slash if there is one, and whether there is.
unfoldable pub next_path_element : List ℕ → List ℕ × Option (List ℕ) × Bool
next_path_element path = elim (split_first 47 path) [
  | none ↦ (path, none, false)
  | some parts ↦ (parts.0, some parts.1, true)
]

-- strrchr
unfoldable pub split_last : ℕ → List ℕ → Option (List ℕ × List ℕ)
split_last c [] = none
split_last c (x ∷ xs) = elim (split_last c xs) [
  | some parts ↦ some (x ∷ parts.0, parts.1)
  | none ↦ if x == c then some ([], xs) else none
]

-- The spaces at the end of a field become zeros, where the string ends.
unfoldable pub strip : List ℕ → List ℕ
strip [] = []
strip (x ∷ xs) = elim (strip xs) [ [] ↦ if x == 32 then [] else x ∷ [] | y ∷ ys ↦ x ∷ y ∷ ys ]

-- ReadName
unfoldable pub read_name : List ℕ → List ℕ × List ℕ
read_name name = (strip (take 8 name), strip (take 3 (drop 8 name)))

-- FormatName
unfoldable pub format_name : List ℕ → List ℕ
format_name name =
    let parts = read_name name in elim parts.1 [ [] ↦ parts.0 | c ∷ cs ↦ parts.0 ++ 46 ∷ c ∷ cs ]

unfoldable pub blank : List ℕ
blank = replicate 11 32

-- entry.name[i] = toupper(...) for each character, from i on
unfoldable pub write_upper : List ℕ → ℕ → List ℕ → List ℕ
write_upper [] i field = field
write_upper (c ∷ cs) i field = write_upper cs (suc i) (set field i (toupper c))

-- SetFileName: the name field of the entry.
unfoldable pub set_file_name : List ℕ → List ℕ
set_file_name name = elim (split_last 46 name) [
  | none ↦ write_upper (take 8 name) 0 blank
  | some parts ↦ write_upper (take 3 parts.1) 8 (write_upper (take 8 parts.0) 0 blank)
]

-- The loop of NameIsEqual, from a position in name83 on: a dot sets i83 to 7, and the loop adds 1.
unfoldable pub fill83 : List ℕ → ℕ → List ℕ → List ℕ
fill83 [] i field = field
fill83 (c ∷ cs) i field =
    let dotted = fill83 cs 8 field in
    let written = fill83 cs (suc i) (set field i (toupper c)) in
    if ltb i 11 then if c == 46 then dotted else written else field

-- memcmp(a, b, 11) == 0
unfoldable pub same_bytes : List ℕ → List ℕ → Bool
same_bytes [] [] = true
same_bytes (x ∷ xs) (y ∷ ys) = (x == y) && same_bytes xs ys
same_bytes _ _ = false

unfoldable pub name_is_equal : List ℕ → List ℕ → Bool
name_is_equal entry name = same_bytes entry (fill83 name 0 blank)

unfoldable pub NoDot : List ℕ → Type 0
NoDot [] = Unit
NoDot (c ∷ cs) = (c ≢ 46) × NoDot cs

same_bytes_refl : (xs : List ℕ) → same_bytes xs xs ≡ true
unfolding same_bytes
same_bytes_refl [] = refl
same_bytes_refl (x ∷ xs) = let e : (x == x) ≡ true = ground arith in rw (e, same_bytes_refl xs) refl

-- Characters other than dots are written one after the other.
fill83-plain :
    (cs rest : List ℕ) (i : ℕ) (field : List ℕ)
    → NoDot cs
    → i + length cs ≤ 11
    → fill83 (cs ++ rest) i field ≡ fill83 rest (i + length cs) (write_upper cs i field)
unfolding fill83 write_upper NoDot
fill83-plain [] rest i field plain fit = ap (λ k. fill83 rest k field) (omega arith)
fill83-plain (c ∷ cs) rest i field plain fit =
    let t : ltb i 11 ≡ true = ground arith in
    let f : (c == 46) ≡ false = let ne = plain.0 in ground (arith, ne) in
    let next : suc i + length cs ≡ i + suc (length cs) = omega arith in
    rw (t, f)
      (fill83-plain cs rest (suc i) (set field i (toupper c)) plain.1 (omega arith)
        ∙ ap (λ k. fill83 rest k (write_upper cs (suc i) (set field i (toupper c)))) next)

split_last-none : (cs : List ℕ) → NoDot cs → split_last 46 cs ≡ none
unfolding split_last NoDot
split_last-none [] plain = refl
split_last-none (c ∷ cs) plain =
    let f : (c == 46) ≡ false = let ne = plain.0 in ground (arith, ne) in
    rw (split_last-none cs plain.1, f) refl

split_last-dot :
    (base ext : List ℕ) → NoDot ext → split_last 46 (base ++ 46 ∷ ext) ≡ some (base, ext)
unfolding split_last
split_last-dot [] ext plain = rw (split_last-none ext plain) refl
split_last-dot (c ∷ cs) ext plain = rw (split_last-dot cs ext plain) refl

fill83-end : (i : ℕ) (field : List ℕ) → fill83 [] i field ≡ field
unfolding fill83
fill83-end i field = refl

fill83-dot :
    (ext : List ℕ) (i : ℕ) (field : List ℕ) → i ≤ 8 → fill83 (46 ∷ ext) i field ≡ fill83 ext 8 field
unfolding fill83
fill83-dot ext i field h = let t : ltb i 11 ≡ true = ground arith in rw (t, fill83) refl

-- An entry named by SetFileName is found by NameIsEqual under the same name: for a name of up to
-- 8 characters, a dot and an extension of up to 3, neither with a dot in it.
pub name_is_equal-set_file_name :
    (base ext : List ℕ)
    → NoDot base
    → NoDot ext
    → length base ≤ 8
    → length ext ≤ 3
    → name_is_equal (set_file_name (base ++ 46 ∷ ext)) (base ++ 46 ∷ ext) ≡ true
unfolding name_is_equal set_file_name
name_is_equal-set_file_name base ext plain plain' short short' =
    let field = write_upper ext 8 (write_upper base 0 blank) in
    let set_to : set_file_name (base ++ 46 ∷ ext) ≡ field =
      rw
        (
          split_last-dot base ext plain',
          set_file_name,
          take-all 3 ext short',
          take-all 8 base short,
        )
        refl in
    let filled : fill83 (base ++ 46 ∷ ext) 0 blank ≡ field =
      fill83-plain base (46 ∷ ext) 0 blank plain (omega arith)
      ∙ fill83-dot ext (0 + length base) (write_upper base 0 blank) (omega arith)
      ∙ ap (λ cs. fill83 cs 8 (write_upper base 0 blank)) (sym (append-nil ext))
      ∙ fill83-plain ext [] 8 (write_upper base 0 blank) plain' (omega arith)
      ∙ fill83-end (8 + length ext) field in
    rw (set_to, filled) (same_bytes_refl field)
