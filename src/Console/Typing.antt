-- ===== src/Console/Typing.antt =====
-- PutString of Kernel/console.cpp without a window, against the text that was typed.
use mikan_os_x.Base.{
  ℕ, suc, ◌+◌, ◌-◌, ◌<◌, ◌≤◌, ◌≡◌, refl, ap, sym, ◌∙◌, true, false, ◌==◌, ltb, if◌then◌else◌, List,
  [], ◌∷◌, ◌++◌, get_or, set, length, replicate, map, arith, append_assoc, drop, length-append,
  length-drop, min, Bool-cases, inl, inr, dec_lt, ltb→lt,
}
use mikan_os_x.Console.{
  Console, empty_row, clear_last, scroll, newline, put_char, put_chars, put_string, new_console,
  rows, columns, write_ascii, fill_rows,
}
use mikan_os_x.Console.Grid.{
  set-middle, get_or-middle, drop-append, length-map, map-append, shift_rows-same, drop-suc-map,
  scrolled_lem,
}

-- A text: the lines that are ended, and the line that is typed.
pub record Text : Type 0 where
  pub lines : List (List ℕ)
  pub line : List ℕ

-- A line holds 79 characters; more are left out.
abbrev pub type_char : ℕ → Text → Text
type_char c t =
    if c == 10
    then record { lines = t.lines ++ t.line ∷ []; line = [] }
    else if ltb (length t.line) 79
    then record t { line = t.line ++ c ∷ [] }
    else t

abbrev pub type_chars : List ℕ → Text → Text
type_chars [] t = t
type_chars (c ∷ s) t = type_chars s (type_char c t)

-- A line in a row of the buffer, which zeros fill.
abbrev pub padded : List ℕ → List ℕ
padded line = line ++ replicate (81 - length line) 0

-- The console shows the last 24 lines and the line that is typed, with the cursor behind it.
pub record Shows (t : Text) (k : Console) : Type 0 where
  pub windowless : k.has_window ≡ false
  pub column : k.cursor_column ≡ length t.line
  pub short : length t.line ≤ 79
  pub row : k.cursor_row ≡ min 24 (length t.lines)
  pub buffer :
      k.buffer
      ≡ map padded (drop (length t.lines - 24) t.lines)
        ++ padded t.line ∷ replicate (24 - length t.lines) (padded [])

padded-set :
    (line : List ℕ) (c : ℕ)
    → length line ≤ 79
    → set (padded line) (length line) c ≡ padded (line ++ c ∷ [])
padded-set line c h =
    let more : 81 - length line ≡ suc (80 - length line) = omega arith in
    let less : 81 - length (line ++ c ∷ []) ≡ 80 - length line =
      omega (arith, length-append line (c ∷ [])) in
    rw (more, less)
      (set-middle line (replicate (80 - length line) 0) 0 c
        ∙ sym (append_assoc line (c ∷ []) (replicate (80 - length line) 0)))

shown-length :
    (t : Text) → length (map padded (drop (length t.lines - 24) t.lines)) ≡ min 24 (length t.lines)
shown-length t = omega (
  arith,
  length-map padded (drop (length t.lines - 24) t.lines),
  length-drop (length t.lines - 24) t.lines,
)

typed-Shows :
    (c : ℕ) (t : Text) (k : Console)
    → length t.line < 79
    → Shows t k
    → Shows
        (record t { line = t.line ++ c ∷ [] })
        (record k {
          draws = k.draws ++ write_ascii k.cursor_column k.cursor_row c ∷ [];
          buffer =
              set k.buffer k.cursor_row (set (get_or k.buffer k.cursor_row []) k.cursor_column c);
          cursor_column = k.cursor_column + 1;
        })
typed-Shows c t k h ok =
    let upper = map padded (drop (length t.lines - 24) t.lines) in
    let lower = replicate (24 - length t.lines) (padded []) in
    let at : k.cursor_row ≡ length upper = omega (arith, ok.row, shown-length t) in
    let present : get_or k.buffer k.cursor_row [] ≡ padded t.line =
      rw (ok.buffer, at) (get_or-middle upper lower (padded t.line) []) in
    record {
      windowless = ok.windowless;
      column = omega (arith, ok.column, length-append t.line (c ∷ []));
      short = omega (arith, h, length-append t.line (c ∷ []));
      row = ok.row;
      buffer =
          ap (λ r. set k.buffer k.cursor_row (set r k.cursor_column c)) present
          ∙ ap (λ i. set k.buffer k.cursor_row (set (padded t.line) i c)) ok.column
          ∙ ap (set k.buffer k.cursor_row) (padded-set t.line c (omega arith))
          ∙ ap (λ b. set b k.cursor_row (padded (t.line ++ c ∷ []))) ok.buffer
          ∙ ap (λ i. set (upper ++ padded t.line ∷ lower) i (padded (t.line ++ c ∷ []))) at
          ∙ set-middle upper lower (padded t.line) (padded (t.line ++ c ∷ []));
    }

char-Shows :
    (c : ℕ) (t : Text) (k : Console)
    → (c == 10) ≡ false
    → Shows t k
    → Shows (type_char c t) (put_char c k)
unfolding put_char
char-Shows c t k other ok = rw other (elim (Bool-cases (ltb (length t.line) 79)) [
  | inr end ↦
      (let stop : ltb k.cursor_column (columns - 1) ≡ false = rw ok.column end in rw (end, stop) ok)
  | inl room ↦
      (let go_on : ltb k.cursor_column (columns - 1) ≡ true = rw ok.column room in
        rw (room, go_on) (typed-Shows c t k (ltb→lt (length t.line) 79 room) ok))
])

newline-Shows :
    (t : Text) (k : Console)
    → Shows t k
    → Shows (record { lines = t.lines ++ t.line ∷ []; line = [] }) (newline k)
unfolding newline scroll clear_last
newline-Shows t k ok =
    let n = length t.lines in
    let longer : length (t.lines ++ t.line ∷ []) ≡ suc n =
      omega (arith, length-append t.lines (t.line ∷ [])) in
    let upper = map padded (drop (n - 24) t.lines) in
    elim (dec_lt n 24) [
      | yes above ↦
          let up : ltb k.cursor_row (rows - 1) ≡ true = ground (arith, ok.row) in
          let none_out : n - 24 ≡ 0 = omega arith in
          let none_out' : length (t.lines ++ t.line ∷ []) - 24 ≡ 0 = omega (arith, longer) in
          let below : 24 - n ≡ suc (23 - n) = omega arith in
          let below' : 24 - length (t.lines ++ t.line ∷ []) ≡ 23 - n = omega (arith, longer) in
          rw up (record {
            windowless = ok.windowless;
            column = refl;
            short = omega arith;
            row = omega (arith, ok.row, longer);
            buffer =
                ok.buffer
                ∙ rw (none_out, none_out', below, below')
                    (sym (
                      ap (λ b. b ++ padded [] ∷ replicate (23 - n) (padded []))
                        (map-append padded t.lines (t.line ∷ []))
                      ∙ append_assoc (map padded t.lines) (padded t.line ∷ [])
                          (padded [] ∷ replicate (23 - n) (padded []))));
          })
      | no bottom ↦
          let down : ltb k.cursor_row (rows - 1) ≡ false = ground (arith, ok.row, bottom) in
          let k1 : Console = record k {
            has_window = false;
            cursor_column = 0;
            draws = k.draws ++ fill_rows 0 rows ∷ [];
          } in
          let same = shift_rows-same 24 0 k1 in
          let no_rows : 24 - n ≡ 0 = omega (arith, bottom) in
          let no_rows' : 24 - length (t.lines ++ t.line ∷ []) ≡ 0 = omega (arith, bottom, longer) in
          let first : length (t.lines ++ t.line ∷ []) - 24 ≡ suc (n - 24) =
            omega (arith, bottom, longer) in
          let below : drop 1 upper ++ padded t.line ∷ empty_row ∷ []
              ≡ map padded (drop (length (t.lines ++ t.line ∷ []) - 24) (t.lines ++ t.line ∷ []))
                ++ padded [] ∷ replicate (24 - length (t.lines ++ t.line ∷ [])) (padded []) =
            rw (first, no_rows')
              (ap (λ b. b ++ padded t.line ∷ empty_row ∷ []) (drop-suc-map padded (n - 24) t.lines)
                ∙ sym (
                    ap (λ b. map padded b ++ padded [] ∷ [])
                      (drop-append (suc (n - 24)) t.lines (t.line ∷ []) (omega (arith, bottom)))
                    ∙ ap (λ b. b ++ padded [] ∷ [])
                        (map-append padded (drop (suc (n - 24)) t.lines) (t.line ∷ []))
                    ∙ append_assoc (map padded (drop (suc (n - 24)) t.lines)) (padded t.line ∷ [])
                        (padded [] ∷ []))) in
          rw (down, ok.windowless)
            (record {
              windowless = same.0;
              column = same.2;
              short = omega arith;
              row = omega (arith, same.1, ok.row, longer, bottom);
              buffer =
                  scrolled_lem upper (padded t.line) k1 (omega (arith, shown-length t, bottom))
                    (ok.buffer ∙ ap (λ m. upper ++ padded t.line ∷ replicate m (padded [])) no_rows)
                  ∙ below;
            })
    ]

-- A string has no zero byte.
abbrev pub IsString : List ℕ → Type 0
IsString [] = Unit
IsString (c ∷ s) = (0 < c) × IsString s

put_chars-Shows :
    (s : List ℕ) (t : Text) (k : Console)
    → IsString s
    → Shows t k
    → Shows (type_chars s t) (put_chars s k)
unfolding put_chars put_char
put_chars-Shows [] t k nz ok = ok
put_chars-Shows (c ∷ s) t k (nz, more) ok =
    let on : (c == 0) ≡ false = ground (arith, nz) in
    let step : Shows (type_char c t) (put_char c k) = elim (Bool-cases (c == 10)) [
      | inl end ↦ rw end (newline-Shows t k ok)
      | inr other ↦ char-Shows c t k other ok
    ] in
    rw on (put_chars-Shows s (type_char c t) (put_char c k) more step)

-- PutString on a console without a window, whatever text it shows: it then shows this text with the
-- string typed behind it, where a newline ends a line and a line holds 79 characters. What a
-- console shows are the last 24 ended lines and the line that is typed, one in each row of the
-- buffer, then empty rows, with the cursor behind the last character.
pub put_string-Shows :
    (s : List ℕ) (t : Text) (k : Console)
    → IsString s
    → Shows t k
    → Shows (type_chars s t) (put_string s k)
unfolding put_string
put_string-Shows s t k nz ok =
    let a = put_chars-Shows s t k nz ok in
    elim (Bool-cases (put_chars s k).has_layers) [
      | inr alone ↦ rw alone (record {
        windowless = a.windowless;
        column = a.column;
        short = a.short;
        row = a.row;
        buffer = a.buffer;
      })
      | inl layered ↦ rw layered (record {
        windowless = a.windowless;
        column = a.column;
        short = a.short;
        row = a.row;
        buffer = a.buffer;
      })
    ]

-- The constructor's console shows no text.
pub new_console-Shows : Shows (record { lines = []; line = [] }) new_console
unfolding new_console
new_console-Shows = record {
  windowless = refl;
  column = refl;
  short = omega arith;
  row = refl;
  buffer = refl;
}
