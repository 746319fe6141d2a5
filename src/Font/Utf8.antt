-- ===== src/Font/Utf8.antt =====
-- ConvertUTF8To32 of Kernel/font.cpp against the encoding of UTF-8, and WriteString on encoded
-- text.
use mikan_os_x.Base.{
  ℕ, zero, suc, ◌+◌, ◌-◌, ◌*◌, ◌/◌, ◌%◌, ◌^◌, ◌<◌, ◌≤◌, ◌≡◌, refl, ap, sym, ◌∙◌, bit_and, bit_or,
  true, false, ◌==◌, ltb, if◌then◌else◌, List, [], ◌∷◌, ◌++◌, some, drop, arith, length, dec_lt,
  append_assoc, subst, drop-append-all,
}
use mikan_os_x.Base.Bits.{bit_or-add, bit_and-ones}
use mikan_os_x.Graphics.{Vector2D}
use mikan_os_x.Font.{
  count_utf8_size, char32, field, convert_two, convert_three, convert_four, convert_utf8_to_32,
  columns, Glyphs, put_glyph, column, write_next, write_string,
}

-- The bytes of a code point in UTF-8.
abbrev pub encode : ℕ → List ℕ
encode c =
    if ltb c 0x80
    then c ∷ []
    else if ltb c 0x800
    then (0xc0 + c / 2 ^ 6) ∷ (0x80 + c % 2 ^ 6) ∷ []
    else if ltb c 0x10000
    then (0xe0 + c / 2 ^ 12) ∷ (0x80 + c / 2 ^ 6 % 2 ^ 6) ∷ (0x80 + c % 2 ^ 6) ∷ []
    else ((0xf0 + c / 2 ^ 18)
        ∷ (0x80 + c / 2 ^ 12 % 2 ^ 6)
        ∷ (0x80 + c / 2 ^ 6 % 2 ^ 6)
        ∷ (0x80 + c % 2 ^ 6)
        ∷ [])

-- The sign of a char does not reach its lowest bits.
low_bits : (n c : ℕ) → n ≤ 6 → (c + (2 ^ 32 - 2 ^ 8)) % 2 ^ n ≡ c % 2 ^ n
low_bits zero c h = omega arith
low_bits (suc zero) c h = omega arith
low_bits (suc (suc zero)) c h = omega arith
low_bits (suc (suc (suc zero))) c h = omega arith
low_bits (suc (suc (suc (suc zero)))) c h = omega arith
low_bits (suc (suc (suc (suc (suc zero))))) c h = omega arith
low_bits (suc (suc (suc (suc (suc (suc zero)))))) c h = omega arith
low_bits (suc (suc (suc (suc (suc (suc (suc n))))))) c h = absurd (omega arith)

field_lem :
    (n mask shift c : ℕ) → mask ≡ 2 ^ n - 1 → n ≤ 6 → field mask shift c ≡ c % 2 ^ n * 2 ^ shift
field_lem n mask shift c e le =
    let e' : bit_and (char32 c) mask ≡ char32 c % 2 ^ n = rw e (bit_and-ones n (char32 c)) in
    ap (λ t. t * 2 ^ shift) (e' ∙ ground (arith, low_bits n c))

join : (n a c : ℕ) (x y : ℕ) → x ≡ a * 2 ^ n → y ≡ c → c < 2 ^ n → bit_or x y ≡ a * 2 ^ n + c
join n a c x y e e' h = rw (e, e') (bit_or-add n a c h)

sizes :
    (a : ℕ)
    → (0xc0 ≤ a → a < 0xe0 → count_utf8_size a ≡ 2)
      × (0xe0 ≤ a → a < 0xf0 → count_utf8_size a ≡ 3)
      × (0xf0 ≤ a → a < 0xf8 → count_utf8_size a ≡ 4)
unfolding count_utf8_size
sizes a = ((λ p q. ground arith), (λ p q. ground arith), (λ p q. ground arith))

one_byte : (c : ℕ) (s : List ℕ) → c < 0x80 → convert_utf8_to_32 (c ∷ s) ≡ some (c, 1)
unfolding convert_utf8_to_32 count_utf8_size
one_byte c s h = let e : ltb c 0x80 ≡ true = ground arith in rw e refl

two_bytes :
    (c : ℕ) (s : List ℕ)
    → 0x80 ≤ c
    → c < 0x800
    → convert_utf8_to_32 ((0xc0 + c / 2 ^ 6) ∷ (0x80 + c % 2 ^ 6) ∷ s) ≡ some (c, 2)
unfolding convert_utf8_to_32 convert_two
two_bytes c s low high =
    let e = (sizes (0xc0 + c / 2 ^ 6)).0 (omega arith) (omega arith) in
    let f =
      join 6 (c / 2 ^ 6) (c % 2 ^ 6) (field 0x1f 6 (0xc0 + c / 2 ^ 6))
        (field 0x3f 0 (0x80 + c % 2 ^ 6))
        (field_lem 5 0x1f 6 (0xc0 + c / 2 ^ 6) refl (omega arith) ∙ omega arith)
        (field_lem 6 0x3f 0 (0x80 + c % 2 ^ 6) refl (omega arith) ∙ omega arith) (omega arith) in
    rw e (ap (λ x. some (x, 2)) (f ∙ omega arith))

three_bytes :
    (c : ℕ) (s : List ℕ)
    → c < 0x10000
    → convert_utf8_to_32 ((0xe0 + c / 2 ^ 12) ∷ (0x80 + c / 2 ^ 6 % 2 ^ 6) ∷ (0x80 + c % 2 ^ 6) ∷ s)
      ≡ some (c, 3)
unfolding convert_utf8_to_32 convert_three
three_bytes c s high =
    let b0 = 0xe0 + c / 2 ^ 12 in
    let b1 = 0x80 + c / 2 ^ 6 % 2 ^ 6 in
    let b2 = 0x80 + c % 2 ^ 6 in
    let e = (sizes b0).1 (omega arith) (omega arith) in
    let f =
      join 12 (c / 2 ^ 12) (c / 2 ^ 6 % 2 ^ 6 * 2 ^ 6) (field 0x0f 12 b0) (field 0x3f 6 b1)
        (field_lem 4 0x0f 12 b0 refl (omega arith) ∙ omega arith)
        (field_lem 6 0x3f 6 b1 refl (omega arith) ∙ omega arith) (omega arith) in
    let g =
      join 6 (c / 2 ^ 6) (c % 2 ^ 6) (bit_or (field 0x0f 12 b0) (field 0x3f 6 b1)) (field 0x3f 0 b2)
        (f ∙ omega arith) (field_lem 6 0x3f 0 b2 refl (omega arith) ∙ omega arith) (omega arith) in
    rw e (ap (λ x. some (x, 3)) (g ∙ omega arith))

four_bytes :
    (c : ℕ) (s : List ℕ)
    → c < 0x200000
    → convert_utf8_to_32 (
        (0xf0 + c / 2 ^ 18)
        ∷ (0x80 + c / 2 ^ 12 % 2 ^ 6)
        ∷ (0x80 + c / 2 ^ 6 % 2 ^ 6)
        ∷ (0x80 + c % 2 ^ 6)
        ∷ s)
      ≡ some (c, 4)
unfolding convert_utf8_to_32 convert_four
four_bytes c s high =
    let b0 = 0xf0 + c / 2 ^ 18 in
    let b1 = 0x80 + c / 2 ^ 12 % 2 ^ 6 in
    let b2 = 0x80 + c / 2 ^ 6 % 2 ^ 6 in
    let b3 = 0x80 + c % 2 ^ 6 in
    let e = (sizes b0).2 (omega arith) (omega arith) in
    let x0 = field 0x07 18 b0 in
    let x1 = field 0x3f 12 b1 in
    let x2 = field 0x3f 6 b2 in
    let f =
      join 18 (c / 2 ^ 18) (c / 2 ^ 12 % 2 ^ 6 * 2 ^ 12) x0 x1
        (field_lem 3 0x07 18 b0 refl (omega arith) ∙ omega arith)
        (field_lem 6 0x3f 12 b1 refl (omega arith) ∙ omega arith) (omega arith) in
    let g =
      join 12 (c / 2 ^ 12) (c / 2 ^ 6 % 2 ^ 6 * 2 ^ 6) (bit_or x0 x1) x2 (f ∙ omega arith)
        (field_lem 6 0x3f 6 b2 refl (omega arith) ∙ omega arith) (omega arith) in
    let k =
      join 6 (c / 2 ^ 6) (c % 2 ^ 6) (bit_or (bit_or x0 x1) x2) (field 0x3f 0 b3) (g ∙ omega arith)
        (field_lem 6 0x3f 0 b3 refl (omega arith) ∙ omega arith) (omega arith) in
    rw e (ap (λ x. some (x, 4)) (k ∙ omega arith))

-- ConvertUTF8To32 undoes the encoding of UTF-8: from the bytes of a code point below 2^21, whatever
-- follows them, it returns the code point and the number of its bytes.
pub convert_utf8_to_32-encode :
    (c : ℕ) (s : List ℕ)
    → c < 0x200000
    → convert_utf8_to_32 (encode c ++ s) ≡ some (c, length (encode c))
convert_utf8_to_32-encode c s h = elim (dec_lt c 0x80) [
  | yes one ↦ let e : ltb c 0x80 ≡ true = ground arith in rw e (one_byte c s one)
  | no more ↦
      let e : ltb c 0x80 ≡ false = ground (arith, more) in
      rw e (elim (dec_lt c 0x800) [
        | yes two ↦
            let e2 : ltb c 0x800 ≡ true = ground arith in
            rw e2 (two_bytes c s (omega (arith, more)) two)
        | no more2 ↦
            let e2 : ltb c 0x800 ≡ false = ground (arith, more2) in
            rw e2 (elim (dec_lt c 0x10000) [
              | yes three ↦
                  let e3 : ltb c 0x10000 ≡ true = ground arith in rw e3 (three_bytes c s three)
              | no more3 ↦
                  let e3 : ltb c 0x10000 ≡ false = ground (arith, more3) in rw e3 (four_bytes c s h)
            ])
      ])
]

encode-head : (c : ℕ) → 0 < c → (a : ℕ) × (l : List ℕ) × (encode c ≡ a ∷ l) × ((a == 0) ≡ false)
encode-head c pos = elim (dec_lt c 0x80) [
  | yes one ↦ let e : ltb c 0x80 ≡ true = ground arith in rw e (c, [], refl, ground arith)
  | no more ↦
      let e : ltb c 0x80 ≡ false = ground (arith, more) in
      rw e (elim (dec_lt c 0x800) [
        | yes two ↦
            let e2 : ltb c 0x800 ≡ true = ground arith in
            rw e2 (0xc0 + c / 2 ^ 6, (0x80 + c % 2 ^ 6) ∷ [], refl, ground arith)
        | no more2 ↦
            let e2 : ltb c 0x800 ≡ false = ground (arith, more2) in
            rw e2 (elim (dec_lt c 0x10000) [
              | yes three ↦
                  let e3 : ltb c 0x10000 ≡ true = ground arith in
                  rw e3 (
                    0xe0 + c / 2 ^ 12,
                    (0x80 + c / 2 ^ 6 % 2 ^ 6) ∷ (0x80 + c % 2 ^ 6) ∷ [],
                    refl,
                    ground arith,
                  )
              | no more3 ↦
                  let e3 : ltb c 0x10000 ≡ false = ground (arith, more3) in
                  rw e3 (
                    0xf0 + c / 2 ^ 18,
                    (0x80 + c / 2 ^ 12 % 2 ^ 6)
                        ∷ (0x80 + c / 2 ^ 6 % 2 ^ 6)
                        ∷ (0x80 + c % 2 ^ 6)
                        ∷ [],
                    refl,
                    ground arith,
                  )
            ])
      ])
]

-- The bytes of a text, and the zero byte at its end.
abbrev pub text : List ℕ → List ℕ
text [] = 0 ∷ []
text (c ∷ cs) = encode c ++ text cs

-- Where the glyphs of a text belong, from a column on.
abbrev pub place : Vector2D → ℕ → List ℕ → Glyphs
place at x [] = []
place at x (c ∷ cs) = (column at x, c) ∷ place at (x + columns c) cs

-- Code points in the range of the encoding, but zero.
abbrev pub IsText : List ℕ → Type 0
IsText [] = Unit
IsText (c ∷ cs) = (0 < c) × (c < 0x200000) × IsText cs

write_round :
    (fuel : ℕ) (at : Vector2D) (x u32 bytes a : ℕ) (l s : List ℕ)
    → s ≡ a ∷ l
    → (a == 0) ≡ false
    → convert_utf8_to_32 s ≡ some (u32, bytes)
    → write_string (suc fuel) at x s
      ≡ put_glyph (column at x) u32 (write_string fuel at (x + columns u32) (drop bytes s))
unfolding write_string write_next
write_round fuel at x u32 bytes a l s e nz conv =
    subst
      (λ t.
        convert_utf8_to_32 t ≡ some (u32, bytes)
        → write_string (suc fuel) at x t
          ≡ put_glyph (column at x) u32 (write_string fuel at (x + columns u32) (drop bytes t)))
      (sym e) (λ c. rw (nz, c) refl) conv

-- WriteString ends, and draws each code point of an encoded text once, in order, eight pixels for
-- each column to the right of the place: one column for ASCII, two for any other code point.
-- What follows the zero byte is not read.
pub write_string-text :
    (fuel : ℕ) (at : Vector2D) (x : ℕ) (cs s : List ℕ)
    → IsText cs
    → length cs < fuel
    → write_string fuel at x (text cs ++ s) ≡ some (place at x cs)
unfolding write_string put_glyph
write_string-text zero at x cs s ok h = absurd (omega arith)
write_string-text (suc fuel) at x [] s ok h = refl
write_string-text (suc fuel) at x (c ∷ cs) s (pos, top, ok) h =
    let (a, l, e, nz) = encode-head c pos in
    let rest = text cs ++ s in
    let n = length (encode c) in
    let step =
      write_round fuel at x c n a (l ++ rest) (encode c ++ rest) (ap (λ t. t ++ rest) e) nz
        (convert_utf8_to_32-encode c rest top) in
    let all_read : n - n ≡ 0 = omega arith in
    let after : drop n (encode c ++ rest) ≡ rest =
      drop-append-all n (encode c) rest (omega arith) ∙ ap (λ k. drop k rest) all_read in
    ap (write_string (suc fuel) at x) (append_assoc (encode c) (text cs) s)
    ∙ step
    ∙ ap (λ t. put_glyph (column at x) c (write_string fuel at (x + columns c) t)) after
    ∙ ap (put_glyph (column at x) c)
        (write_string-text fuel at (x + columns c) cs s ok (omega arith))
