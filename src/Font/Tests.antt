-- ===== src/Font/Tests.antt =====
-- The text あA, in UTF-8.
use mikan_os_x.Base.{ℕ, ◌≡◌, refl, List, [], ◌∷◌, ◌++◌, some, length, arith}
use mikan_os_x.Graphics.{origin}
use mikan_os_x.Font.{convert_utf8_to_32, write_string}
use mikan_os_x.Font.Utf8.{encode, text, place, IsText, convert_utf8_to_32-encode, write_string-text}

abbrev sample : List ℕ
sample = 0x3042 ∷ 0x41 ∷ []

sample_bytes : text sample ≡ 0xe3 ∷ 0x81 ∷ 0x82 ∷ 0x41 ∷ 0 ∷ []
sample_bytes = refl

sample-IsText : IsText sample
sample-IsText = (omega arith, omega arith, (omega arith, omega arith, tt))

convert_utf8_to_32-encode_example :
    convert_utf8_to_32 (encode 0x3042 ++ 0x41 ∷ []) ≡ some (0x3042, length (encode 0x3042))
convert_utf8_to_32-encode_example = convert_utf8_to_32-encode 0x3042 (0x41 ∷ []) (omega arith)

write_string-text_example :
    write_string 3 origin 0 (text sample ++ 7 ∷ []) ≡ some (place origin 0 sample)
write_string-text_example = write_string-text 3 origin 0 sample (7 ∷ []) sample-IsText (omega arith)
