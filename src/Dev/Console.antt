-- ===== src/Dev/Console.antt =====
-- The console of kernel/dev/console.c: the cursor, the cells of the video memory and the escape
-- sequences. `console_init` sets every console to 25 rows of 80 columns, and nothing changes them, so
-- the two sizes are constants. An `int` of an escape sequence is its 32-bit pattern.
pub mod Write
pub mod Bounds
pub mod Styles
pub mod Escapes
use wjos.Common.{
  ℕ, zero, suc, ◌+◌, ◌-◌, ◌*◌, ◌/◌, ◌%◌, Bool, true, false, ◌&&◌, List, ltb, leb, ◌==◌,
  if◌then◌else◌, get_or, set, replicate,
}
use wjos.Common.Words.{sub32}

pub data WriteState : Type 0 where
  plain esc square : WriteState

-- A `disp_char_t`.
pub record Cell : Type 0 where
  pub c : ℕ
  pub foreground : ℕ
  pub background : ℕ

-- A console, and the video memory that all of them share; `disp_base` is the index of its first cell.
pub record Console : Type 0 where
  pub write_state : WriteState
  pub disp_base : ℕ
  pub cursor_row : ℕ
  pub cursor_col : ℕ
  pub foreground : ℕ
  pub background : ℕ
  pub old_cursor_row : ℕ
  pub old_cursor_col : ℕ
  pub esc_param : List ℕ
  pub curr_param_index : ℕ
  pub input_len : ℕ
  pub cells : ℕ → Cell

abbrev pub display_rows : ℕ
display_rows = 25

abbrev pub display_cols : ℕ
display_cols = 80

abbrev pub display_size : ℕ
display_size = 2000

abbrev pub esc_param_max : ℕ
esc_param_max = 10

abbrev pub default_foreground : ℕ
default_foreground = 7

-- A cell in the console's colours, of which it has 4 bits and 3 bits.
abbrev pub cell_of : Console → ℕ → Cell
cell_of con ch = record {
  c = ch;
  foreground = con.foreground % 16;
  background = con.background % 8;
}

-- Blanks in the rows from `start` to `end`.
unfoldable pub erase_rows : Console → ℕ → ℕ → Console
erase_rows con start end = record con {
  cells = λ i.
      if leb (con.disp_base + display_cols * start) i
        && ltb i (con.disp_base + display_cols * (end + 1))
      then cell_of con 32
      else con.cells i;
}

-- The copy of the rows below to the top, and the blank rows at the bottom.
unfoldable pub scroll_up : Console → ℕ → Console
unfolding erase_rows
scroll_up con lines =
    let moved = record con {
      cells = λ i.
          if leb con.disp_base i && ltb i (con.disp_base + (display_rows - lines) * display_cols)
          then con.cells (i + display_cols * lines)
          else con.cells i;
    } in
    let blank = erase_rows moved (display_rows - lines) (display_rows - 1) in
    record blank { cursor_row = con.cursor_row - lines }

-- The row below; at the end of the display it scrolls.
unfoldable pub next_row : Console → Console
unfolding scroll_up
next_row con =
    let down = record con { cursor_row = con.cursor_row + 1 } in
    if leb display_rows (con.cursor_row + 1) then scroll_up down 1 else down

unfoldable pub move_forward : Console → ℕ → Console
unfolding next_row
move_forward con zero = con
move_forward con (suc n) =
    move_forward
      (if leb display_cols (con.cursor_col + 1)
        then next_row (record con { cursor_col = 0 })
        else record con { cursor_col = con.cursor_col + 1 })
      n

unfoldable pub put_char : Console → ℕ → Console
put_char con ch = record con {
  cells = λ i.
      if i == con.disp_base + (con.cursor_col + con.cursor_row * display_cols)
      then cell_of con ch
      else con.cells i;
}

unfoldable pub show_char : Console → ℕ → Console
unfolding put_char move_forward
show_char con ch = move_forward (put_char con ch) 1

unfoldable pub clear_display : Console → Console
clear_display con = record con {
  cells = λ i.
      if leb con.disp_base i && ltb i (con.disp_base + display_size)
      then cell_of con 32
      else con.cells i;
}

unfoldable pub move_next_line : Console → Console
unfolding next_row
move_next_line con = next_row con

-- One round of the loop of `move_backword`: whether the cursor moved, and where to.
unfoldable pub step_back : Console → Bool × Console
step_back con =
    if ltb 0 con.cursor_col
    then (true, record con { cursor_col = con.cursor_col - 1 })
    else if ltb 0 con.cursor_row
    then (true, record con { cursor_row = con.cursor_row - 1; cursor_col = display_cols - 1 })
    else (false, con)

-- `true` is the status 0: some round has moved the cursor.
unfoldable pub move_backword : Console → ℕ → Bool × Console
unfolding step_back
move_backword con zero = (false, con)
move_backword con (suc n) =
    let (moved, con') = step_back con in
    let (later, con'') = move_backword con' n in (if moved then true else later, con'')

-- One round of `erase_backword`.
unfoldable pub erase_one : Bool × Console → Console
unfolding show_char move_backword
erase_one (false, con) = con
erase_one (true, con) = (move_backword (show_char con 32) 1).1

unfoldable pub erase_loop : Console → ℕ → Console
unfolding erase_one move_backword
erase_loop con zero = con
erase_loop con (suc n) = erase_loop (erase_one (move_backword con 1)) n

unfoldable pub erase_backword : Console → ℕ → Console
unfolding erase_loop
erase_backword con n =
    let erased = erase_loop con n in
    if n == 0 then con else record erased { input_len = sub32 erased.input_len n }

-- A console at power on, for the cells that the memory has and the cursor that the display has; the
-- first console keeps what the loader has written.
unfoldable pub console_init : ℕ → ℕ → (ℕ → Cell) → Console
unfolding clear_display
console_init idx cursor_pos cells =
    let con : Console = record {
      write_state = WriteState.plain;
      disp_base = idx * display_size;
      cursor_row = if idx == 0 then cursor_pos / display_cols else 0;
      cursor_col = if idx == 0 then cursor_pos % display_cols else 0;
      foreground = default_foreground;
      background = 0;
      old_cursor_row = if idx == 0 then cursor_pos / display_cols else 0;
      old_cursor_col = if idx == 0 then cursor_pos % display_cols else 0;
      esc_param = replicate esc_param_max 0;
      curr_param_index = 0;
      input_len = 0;
      cells = cells;
    } in
    if idx == 0 then con else clear_display con
