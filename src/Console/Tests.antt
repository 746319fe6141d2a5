-- ===== src/Console/Tests.antt =====
-- A new console, and two lines.
use mikan_os_x.Base.{ℕ, ◌≡◌, refl, List, [], ◌∷◌, arith}
use mikan_os_x.Console.{new_console, put_string, put_chars, put_char, newline}
use mikan_os_x.Console.Typing.{
  Text, type_chars, Shows, IsString, put_string-Shows, new_console-Shows,
}

abbrev hello : List ℕ
hello = 72 ∷ 105 ∷ 10 ∷ 33 ∷ []

abbrev no_text : Text
no_text = record { lines = []; line = [] }

hello-IsString : IsString hello
hello-IsString = (omega arith, (omega arith, (omega arith, (omega arith, tt))))

cursor_after : (put_string hello new_console).cursor_row ≡ 1
unfolding put_string put_chars put_char newline new_console
cursor_after = refl

put_string-Shows_example : Shows (type_chars hello no_text) (put_string hello new_console)
put_string-Shows_example =
    put_string-Shows hello no_text new_console hello-IsString new_console-Shows
