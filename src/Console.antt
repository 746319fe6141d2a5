-- ===== src/Console.antt =====
-- Kernel/console.hpp and console.cpp: the text console of the kernel. What it draws is a list of
-- calls.
pub mod Grid
pub mod Typing
mod Tests
use mikan_os_x.Base.{
  ℕ, zero, suc, ◌+◌, ◌-◌, ◌*◌, Bool, true, false, ◌==◌, ltb, if◌then◌else◌, List, [], ◌∷◌, ◌++◌,
  get_or, set, replicate,
}

-- kRows and kColumns
abbrev pub rows : ℕ
rows = 25

abbrev pub columns : ℕ
columns = 80

-- The calls of the drawing functions, for rows and columns of the grid.
pub data Draw : Type 0 where
  write_ascii : (column row c : ℕ) → Draw
  write_string : (row : ℕ) (s : List ℕ) → Draw
  fill_rows : (first count : ℕ) → Draw
  move_up : Draw
  draw_layer : ℕ → Draw

-- `has_window` and `has_layers` say whether window_ and layer_manager are set.
pub record Console : Type 0 where
  pub has_window : Bool
  pub has_layers : Bool
  pub layer_id : ℕ
  pub buffer : List (List ℕ)
  pub cursor_row : ℕ
  pub cursor_column : ℕ
  pub draws : List Draw

abbrev pub empty_row : List ℕ
empty_row = replicate (columns + 1) 0

-- The constructor.
unfoldable pub new_console : Console
new_console = record {
  has_window = false;
  has_layers = false;
  layer_id = 0;
  buffer = replicate rows empty_row;
  cursor_row = 0;
  cursor_column = 0;
  draws = [];
}

-- A call, behind the ones before.
abbrev pub drawn : Draw → Console → Console
drawn d k = record k { draws = k.draws ++ d ∷ [] }

-- The rows of the buffer from one on, moved up by one and written; `row` ends below the last one.
unfoldable pub shift_rows : ℕ → ℕ → Console → Console
shift_rows zero row k = k
shift_rows (suc rounds) row k = shift_rows rounds (suc row) (record k {
  buffer = set k.buffer row (get_or k.buffer (suc row) []);
  draws = k.draws ++ write_string row (get_or k.buffer (suc row) []) ∷ [];
})

unfoldable pub clear_last : Console → Console
clear_last k = record k { buffer = set k.buffer (rows - 1) empty_row }

-- Newline at the last row: a window moves its pixels and leaves the buffer.
unfoldable pub scroll : Console → Console
scroll k =
    if k.has_window
    then drawn (fill_rows (rows - 1) 1) (drawn move_up k)
    else clear_last (shift_rows (rows - 1) 0 (drawn (fill_rows 0 rows) k))

unfoldable pub newline : Console → Console
newline k =
    if ltb k.cursor_row (rows - 1)
    then record k { cursor_column = 0; cursor_row = k.cursor_row + 1 }
    else scroll (record k { cursor_column = 0 })

-- A character at the cursor; what does not fit into the row is left out.
unfoldable pub put_char : ℕ → Console → Console
put_char c k =
    if c == 10
    then newline k
    else if ltb k.cursor_column (columns - 1)
    then record k {
      draws = k.draws ++ write_ascii k.cursor_column k.cursor_row c ∷ [];
      buffer = set k.buffer k.cursor_row (set (get_or k.buffer k.cursor_row []) k.cursor_column c);
      cursor_column = k.cursor_column + 1;
    }
    else k

unfoldable pub put_chars : List ℕ → Console → Console
put_chars [] k = k
put_chars (c ∷ s) k = let rest = put_chars s (put_char c k) in if c == 0 then k else rest

unfoldable pub put_string : List ℕ → Console → Console
put_string s k =
    if (put_chars s k).has_layers
    then drawn (draw_layer (put_chars s k).layer_id) (put_chars s k)
    else put_chars s k

-- Refresh: all rows are written again.
unfoldable pub write_rows : ℕ → ℕ → Console → Console
write_rows zero row k = k
write_rows (suc rounds) row k =
    write_rows rounds (suc row) (drawn (write_string row (get_or k.buffer row [])) k)

unfoldable pub refresh : Console → Console
refresh k = write_rows rows 0 (drawn (fill_rows 0 rows) k)

-- SetWriter and SetWindow, for a writer or a window other than the present one.
unfoldable pub set_writer : Console → Console
set_writer k = refresh (record k { has_window = false })

unfoldable pub set_window : Console → Console
set_window k = refresh (record k { has_window = true })

unfoldable pub set_layer_id : ℕ → Console → Console
set_layer_id layer_id k = record k { layer_id = layer_id }
