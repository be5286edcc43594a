-- ===== src/Dev/Console/Styles.antt =====
-- What the states, the colours and the saved cursor of kernel/dev/console.c leave of the display.
use wjos.Common.{
  ℕ, ◌+◌, ◌≡◌, refl, Bool, true, false, ◌&&◌, List, [], ◌∷◌, arith, leb, ◌==◌, if◌then◌else◌, take,
  ap, ◌∙◌,
}
use wjos.Dev.Console.{Console, WriteState, Cell, move_next_line}
use wjos.Dev.Console.Write.{
  write_normal, write_esc, save_cursor, restore_cursor, clear_esc_param, set_color, set_colors,
  set_font_style,
}
use wjos.Dev.Console.Bounds.{
  IsValid, Kept, Kept-trans, Kept-refl, next_row-Kept, show_char-Kept, move_backword-Kept,
  col0-Kept, erase_backword-Kept,
}

-- A change that moves no cursor and writes no cell.
pub record SameView (con con' : Console) : Type 0 where
  pub row : con'.cursor_row ≡ con.cursor_row
  pub col : con'.cursor_col ≡ con.cursor_col
  pub old_row : con'.old_cursor_row ≡ con.old_cursor_row
  pub old_col : con'.old_cursor_col ≡ con.old_cursor_col
  pub base : con'.disp_base ≡ con.disp_base
  pub cells : con'.cells ≡ con.cells

pub SameView-Kept : (con con' : Console) → IsValid con → SameView con con' → Kept con con'
SameView-Kept con con' v s = record {
  valid = record {
    row = omega (arith, v.row, s.row);
    col = omega (arith, v.col, s.col);
    old_row = omega (arith, v.old_row, s.old_row);
    old_col = omega (arith, v.old_col, s.old_col);
  };
  base = s.base;
  cells = λ i out. ap (λ (f : ℕ → Cell). f i) s.cells;
}

pub if-Kept :
    {con x y : Console} (b : Bool) → Kept con x → Kept con y → Kept con (if b then x else y)
if-Kept true p q = p
if-Kept false p q = q

-- A change of the state, of the colours or of the parameters alone.
abbrev with_state : Console → WriteState → Console
with_state con st = record con { write_state = st }

pub with_state-Kept :
    (con con' : Console) (st : WriteState) → Kept con con' → Kept con (with_state con' st)
with_state-Kept con con' st k = record {
  valid = record {
    row = k.valid.row;
    col = k.valid.col;
    old_row = k.valid.old_row;
    old_col = k.valid.old_col;
  };
  base = k.base;
  cells = k.cells;
}

-- Every character that is written in the state for plain characters.
pub write_normal-Kept : (con : Console) (ch : ℕ) → IsValid con → Kept con (write_normal con ch)
unfolding write_normal move_next_line
write_normal-Kept con ch v =
    if-Kept (ch == 0x1b) (with_state-Kept con con WriteState.esc (Kept-refl con v)) (
      if-Kept (ch == 0x7f) (erase_backword-Kept con 1 v) (
        if-Kept (ch == 7) (Kept-refl con v) (
          if-Kept (ch == 8) (move_backword-Kept con 1 v) (
            if-Kept (ch == 13) (col0-Kept con v) (
              if-Kept (ch == 10) (next_row-Kept con v)
                (if-Kept (leb 32 ch && leb ch 126) (show_char-Kept con ch v) (Kept-refl con v)))))))

restore-Kept : (con : Console) → IsValid con → Kept con (restore_cursor con)
unfolding restore_cursor
restore-Kept con v = record {
  valid = record { row = v.old_row; col = v.old_col; old_row = v.old_row; old_col = v.old_col };
  base = refl;
  cells = λ i out. refl;
}

save-Kept : (con : Console) → IsValid con → Kept con (save_cursor con)
unfolding save_cursor
save-Kept con v = record {
  valid = record { row = v.row; col = v.col; old_row = v.row; old_col = v.col };
  base = refl;
  cells = λ i out. refl;
}

clear-Kept : (con : Console) → IsValid con → Kept con (clear_esc_param con)
unfolding clear_esc_param
clear-Kept con v =
    SameView-Kept con (clear_esc_param con) v
      (record { row = refl; col = refl; old_row = refl; old_col = refl; base = refl; cells = refl })

pub write_esc-Kept : (con : Console) (ch : ℕ) → IsValid con → Kept con (write_esc con ch)
unfolding write_esc
write_esc-Kept con ch v =
    if-Kept (ch == 55) (with_state-Kept con (save_cursor con) WriteState.plain (save-Kept con v)) (
      if-Kept (ch == 56)
        (with_state-Kept con (restore_cursor con) WriteState.plain (restore-Kept con v))
        (if-Kept (ch == 91)
          (with_state-Kept con (clear_esc_param con) WriteState.square (clear-Kept con v))
          (with_state-Kept con con WriteState.plain (Kept-refl con v))))

set_color-SameView : (con : Console) (param : ℕ) → SameView con (set_color con param)
unfolding set_color
set_color-SameView con param = ground arith

SameView-trans : (a b c : Console) → SameView a b → SameView b c → SameView a c
SameView-trans a b c k l = record {
  row = l.row ∙ k.row;
  col = l.col ∙ k.col;
  old_row = l.old_row ∙ k.old_row;
  old_col = l.old_col ∙ k.old_col;
  base = l.base ∙ k.base;
  cells = l.cells ∙ k.cells;
}

set_colors-SameView : (con : Console) (params : List ℕ) → SameView con (set_colors con params)
unfolding set_colors
set_colors-SameView con [] = record {
  row = refl;
  col = refl;
  old_row = refl;
  old_col = refl;
  base = refl;
  cells = refl;
}
set_colors-SameView con (p ∷ ps) =
    SameView-trans con (set_color con p) (set_colors (set_color con p) ps)
      (set_color-SameView con p) (set_colors-SameView (set_color con p) ps)

pub set_font_style-Kept : (con : Console) → IsValid con → Kept con (set_font_style con)
unfolding set_font_style
set_font_style-Kept con v =
    let params = take (con.curr_param_index + 1) con.esc_param in
    let colors = SameView-Kept con (set_colors con params) v (set_colors-SameView con params) in
    if-Kept (con.curr_param_index == 10)
      (Kept-trans con (set_colors con params)
        (set_color (set_colors con params) con.curr_param_index) colors
        (SameView-Kept (set_colors con params)
          (set_color (set_colors con params) con.curr_param_index) colors.valid
          (set_color-SameView (set_colors con params) con.curr_param_index)))
      colors
