-- ===== src/Font.antt =====
-- Kernel/font.cpp: the conversion of UTF-8, and the glyphs of a string with their places. The
-- glyphs of ASCII are a parameter, as the build makes them from a file.
pub mod Utf8
mod Tests
use mikan_os_x.Base.{
  ℕ, zero, suc, ◌+◌, ◌-◌, ◌*◌, ◌/◌, ◌%◌, ◌^◌, bit_and, bit_or, Bool, true, false, ◌==◌, ltb, leb,
  ◌&&◌, if◌then◌else◌, List, [], ◌∷◌, Option, none, some, get_elem?, drop,
}
use mikan_os_x.Base.Int.{pos}
use mikan_os_x.Graphics.{Vector2D, ◌+v◌}

unfoldable pub count_utf8_size : ℕ → ℕ
count_utf8_size c =
    if ltb c 0x80
    then 1
    else if leb 0xc0 c && ltb c 0xe0
    then 2
    else if leb 0xe0 c && ltb c 0xf0
    then 3
    else if leb 0xf0 c && ltb c 0xf8
    then 4
    else 0

-- static_cast<char32_t> of a char, which has a sign.
abbrev pub char32 : ℕ → ℕ
char32 c = if ltb c 0x80 then c else c + (2 ^ 32 - 2 ^ 8)

-- The bits of a byte under a mask, at their place in the code point.
abbrev pub field : ℕ → ℕ → ℕ → ℕ
field mask shift c = bit_and (char32 c) mask * 2 ^ shift

-- The cases of ConvertUTF8To32. The bytes that a case reads have to be there.
unfoldable pub convert_two : List ℕ → Option (ℕ × ℕ)
convert_two (a ∷ b ∷ u8) = some (bit_or (field 0x1f 6 a) (field 0x3f 0 b), 2)
convert_two _ = none

unfoldable pub convert_three : List ℕ → Option (ℕ × ℕ)
convert_three (a ∷ b ∷ c ∷ u8) =
    some (bit_or (bit_or (field 0x0f 12 a) (field 0x3f 6 b)) (field 0x3f 0 c), 3)
convert_three _ = none

unfoldable pub convert_four : List ℕ → Option (ℕ × ℕ)
convert_four (a ∷ b ∷ c ∷ d ∷ u8) = some (
  bit_or (bit_or (bit_or (field 0x07 18 a) (field 0x3f 12 b)) (field 0x3f 6 c)) (field 0x3f 0 d),
  4,
)
convert_four _ = none

-- ConvertUTF8To32: for another first byte it returns nothing.
unfoldable pub convert_utf8_to_32 : List ℕ → Option (ℕ × ℕ)
convert_utf8_to_32 [] = none
convert_utf8_to_32 (a ∷ u8) =
    if count_utf8_size a == 1
    then some (char32 a, 1)
    else if count_utf8_size a == 2
    then convert_two (a ∷ u8)
    else if count_utf8_size a == 3
    then convert_three (a ∷ u8)
    else if count_utf8_size a == 4
    then convert_four (a ∷ u8)
    else none

unfoldable pub is_hankaku : ℕ → Bool
is_hankaku c = leb c 0x7f

-- The columns of a glyph.
abbrev pub columns : ℕ → ℕ
columns c = if is_hankaku c then 1 else 2

-- The calls of WriteUnicode by WriteString.
abbrev pub Glyphs : Type 0
Glyphs = List (Vector2D × ℕ)

unfoldable pub put_glyph : Vector2D → ℕ → Option Glyphs → Option Glyphs
put_glyph at c none = none
put_glyph at c (some glyphs) = some ((at, c) ∷ glyphs)

abbrev pub column : Vector2D → ℕ → Vector2D
column at x = at +v record { x = pos (8 * x); y = pos 0 }

-- The rest of the string, after a code point and its bytes.
unfoldable pub write_next :
    (ℕ → List ℕ → Option Glyphs) → Vector2D → ℕ → List ℕ → Option (ℕ × ℕ) → Option Glyphs
write_next again at x s none = none
write_next again at x s (some (u32, bytes)) =
    put_glyph (column at x) u32 (again (x + columns u32) (drop bytes s))

-- The loop of WriteString, which ends at a zero byte. Each round needs a byte, so that the length
-- of the memory is fuel enough.
unfoldable pub write_string : ℕ → Vector2D → ℕ → List ℕ → Option Glyphs
write_string zero at x s = none
write_string (suc fuel) at x [] = none
write_string (suc fuel) at x (c ∷ s) =
    let next =
      write_next (λ x' s'. write_string fuel at x' s') at x (c ∷ s) (convert_utf8_to_32 (c ∷ s)) in
    if c == 0 then some [] else next
