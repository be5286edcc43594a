-- ===== src/Dev/Console/Write.antt =====
-- Writing to a console in kernel/dev/console.c: plain characters, and the escape sequences for the
-- cursor, the colours and the display.
use wjos.Common.{
  ℕ, ◌+◌, ◌-◌, Bool, not, ◌&&◌, ◌||◌, List, [], ◌∷◌, ltb, leb, ◌==◌, if◌then◌else◌, get_or, set,
  replicate, take,
}
use wjos.Common.Words.{add32, sub32, mul32}
use wjos.Dev.Console.{
  Console, WriteState, display_cols, esc_param_max, default_foreground, erase_rows, show_char,
  move_next_line, move_backword, erase_backword,
}

-- The beep of `\a` is the speaker's, and changes no console.
unfoldable pub write_normal : Console → ℕ → Console
unfolding erase_backword move_backword move_next_line show_char
write_normal con ch =
    if ch == 0x1b
    then record con { write_state = WriteState.esc }
    else if ch == 0x7f
    then erase_backword con 1
    else if ch == 7
    then con
    else if ch == 8
    then (move_backword con 1).1
    else if ch == 13
    then record con { cursor_col = 0 }
    else if ch == 10
    then move_next_line con
    else if leb 32 ch && leb ch 126
    then show_char con ch
    else con

unfoldable pub save_cursor : Console → Console
save_cursor con = record con { old_cursor_col = con.cursor_col; old_cursor_row = con.cursor_row }

unfoldable pub restore_cursor : Console → Console
restore_cursor con = record con { cursor_col = con.old_cursor_col; cursor_row = con.old_cursor_row }

unfoldable pub clear_esc_param : Console → Console
clear_esc_param con = record con { esc_param = replicate esc_param_max 0; curr_param_index = 0 }

unfoldable pub write_esc : Console → ℕ → Console
unfolding save_cursor restore_cursor clear_esc_param
write_esc con ch =
    if ch == 55
    then record (save_cursor con) { write_state = WriteState.plain }
    else if ch == 56
    then record (restore_cursor con) { write_state = WriteState.plain }
    else if ch == 91
    then record (clear_esc_param con) { write_state = WriteState.square }
    else record con { write_state = WriteState.plain }

-- `color_table`: black, red, green, yellow, blue, magenta, cyan, white.
abbrev pub color_table : List ℕ
color_table = 0 ∷ 4 ∷ 2 ∷ 14 ∷ 1 ∷ 5 ∷ 3 ∷ 15 ∷ []

unfoldable pub set_color : Console → ℕ → Console
set_color con param =
    if leb 30 param && leb param 37
    then record con { foreground = get_or color_table (param - 30) 0 }
    else if leb 40 param && leb param 47
    then record con { background = get_or color_table (param - 40) 0 }
    else if param == 39
    then record con { foreground = default_foreground }
    else if param == 49
    then record con { background = 0 }
    else con

-- The loop over the parameters; the colours change no parameter.
unfoldable pub set_colors : Console → List ℕ → Console
unfolding set_color
set_colors con [] = con
set_colors con (param ∷ params) = set_colors (set_color con param) params

-- `esc_param[i]`. The entry behind the last one is `curr_param_index`, the field that follows.
abbrev pub param_at : Console → ℕ → ℕ
param_at con i = if i == esc_param_max then con.curr_param_index else get_or con.esc_param i 0

-- The parameters up to `curr_param_index`, which `write_esc_square` keeps at 10 or below.
unfoldable pub set_font_style : Console → Console
unfolding set_colors
set_font_style con =
    let colored = set_colors con (take (con.curr_param_index + 1) con.esc_param) in
    if con.curr_param_index == esc_param_max
    then set_color colored con.curr_param_index
    else colored

-- The count of a cursor move; none given is one.
abbrev pub move_count : ℕ → ℕ
move_count n = if n == 0 then 1 else n

-- A pattern from 2 ^ 31 on is a negative `int`.
abbrev pub is_negative : ℕ → Bool
is_negative n = leb 0x8000_0000 n

unfoldable pub move_left : Console → ℕ → Console
move_left con n =
    let col = sub32 con.cursor_col (move_count n) in
    record con { cursor_col = if is_negative col then 0 else col }

unfoldable pub move_right : Console → ℕ → Console
move_right con n =
    let col = add32 con.cursor_col (move_count n) in
    record con {
      cursor_col = if leb display_cols col && not (is_negative col) then display_cols - 1 else col;
    }

unfoldable pub move_cursor : Console → Console
move_cursor con = record con {
  cursor_row = get_or con.esc_param 0 0;
  cursor_col = get_or con.esc_param 1 0;
}

-- Parameter 2 erases the rows up to the number of columns. `curr_param_index` is never negative.
unfoldable pub erase_in_display : Console → Console
unfolding erase_rows
erase_in_display con =
    if get_or con.esc_param 0 0 == 2
    then record (erase_rows con 0 (display_cols - 1)) { cursor_col = 0; cursor_row = 0 }
    else con

-- A digit goes to the current parameter. Behind the last parameter it goes to `curr_param_index`,
-- and behind that to what the record does not hold.
unfoldable pub put_digit : Console → ℕ → Console
put_digit con ch =
    let value = sub32 (add32 (mul32 (param_at con con.curr_param_index) 10) ch) 48 in
    if con.curr_param_index == esc_param_max
    then record con { curr_param_index = value }
    else record con { esc_param = set con.esc_param con.curr_param_index value }

-- The character that ends a sequence.
unfoldable pub end_square : Console → ℕ → Console
unfolding set_font_style move_left move_right move_cursor erase_in_display
end_square con ch =
    if ch == 109
    then set_font_style con
    else if ch == 68
    then move_left con (get_or con.esc_param 0 0)
    else if ch == 67
    then move_right con (get_or con.esc_param 0 0)
    else if (ch == 72) || (ch == 102)
    then move_cursor con
    else if ch == 74
    then erase_in_display con
    else con

unfoldable pub write_esc_square : Console → ℕ → Console
unfolding put_digit end_square
write_esc_square con ch =
    if leb 48 ch && leb ch 57
    then put_digit con ch
    else if (ch == 59) && ltb con.curr_param_index esc_param_max
    then record con { curr_param_index = con.curr_param_index + 1 }
    else record (end_square con ch) { write_state = WriteState.plain }

-- One character of `console_write`, in the state that the console is in.
unfoldable pub write_in : WriteState → Console → ℕ → Console
unfolding write_normal write_esc write_esc_square
write_in WriteState.plain con ch = write_normal con ch
write_in WriteState.esc con ch = write_esc con ch
write_in WriteState.square con ch = write_esc_square con ch

-- The loop of `console_write`, over the characters that the output buffer gives.
unfoldable pub write_all : Console → List ℕ → Console
unfolding write_in
write_all con [] = con
write_all con (ch ∷ chars) = write_all (write_in con.write_state con ch) chars
