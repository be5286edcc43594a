-- ===== src/Dev/Console/Bounds.antt =====
-- The cursor and the cells of a console of kernel/dev/console.c under what is written to it.
use wjos.Common.{
  ℕ, zero, suc, ◌+◌, ◌<◌, ◌≡◌, refl, inl, inr, Bool, true, false, ◌&&◌, arith, ltb, leb, ◌==◌,
  if◌then◌else◌, Bool-cases, ap, ◌∙◌,
}
use wjos.Dev.Console.{
  Console, display_size, erase_rows, scroll_up, next_row, move_forward, put_char, show_char,
  step_back, move_backword, erase_one, erase_loop, erase_backword,
}

-- The cursor and the saved one are on the display.
pub record IsValid (con : Console) : Type 0 where
  pub row : con.cursor_row < 25
  pub col : con.cursor_col < 80
  pub old_row : con.old_cursor_row < 25
  pub old_col : con.old_cursor_col < 80

-- A cell of the console's part of the video memory.
abbrev pub is_inside : Console → ℕ → Bool
is_inside con i = leb con.disp_base i && ltb i (con.disp_base + display_size)

-- The console behind a change that has kept the cursor on the display, and has written no cell
-- outside the console's part of the video memory.
pub record Kept (con con' : Console) : Type 0 where
  pub valid : IsValid con'
  pub base : con'.disp_base ≡ con.disp_base
  pub cells : (i : ℕ) → is_inside con i ≡ false → con'.cells i ≡ con.cells i

pub Kept-trans : (a b c : Console) → Kept a b → Kept b c → Kept a c
Kept-trans a b c k l = record {
  valid = l.valid;
  base = l.base ∙ k.base;
  cells = λ i out.
      l.cells i (ap (λ d. leb d i && ltb i (d + display_size)) k.base ∙ out) ∙ k.cells i out;
}

pub Kept-refl : (a : Console) → IsValid a → Kept a a
Kept-refl a v = record { valid = v; base = refl; cells = λ i out. refl }

pub next_row-Kept : (con : Console) → IsValid con → Kept con (next_row con)
unfolding next_row scroll_up erase_rows
next_row-Kept con v = record {
  valid = ground (arith, v.row, v.col, v.old_row, v.old_col);
  base = ground arith;
  cells = λ i out. ground (arith, out);
}

put_char-Kept : (con : Console) (ch : ℕ) → IsValid con → Kept con (put_char con ch)
unfolding put_char
put_char-Kept con ch v = record {
  valid = record { row = v.row; col = v.col; old_row = v.old_row; old_col = v.old_col };
  base = refl;
  cells = λ i out. ground (arith, out, v.row, v.col);
}

pub col0-Kept : (con : Console) → IsValid con → Kept con (record con { cursor_col = 0 })
col0-Kept con v = record {
  valid = record { row = v.row; col = omega arith; old_row = v.old_row; old_col = v.old_col };
  base = refl;
  cells = λ i out. refl;
}

move_forward-Kept : (con : Console) (n : ℕ) → IsValid con → Kept con (move_forward con n)
unfolding move_forward
move_forward-Kept con zero v = Kept-refl con v
move_forward-Kept con (suc n) v = elim (Bool-cases (leb 80 (con.cursor_col + 1))) [
  | inl e ↦
      rw (e, if◌then◌else◌)
        (let start = col0-Kept con v in
          let down = next_row-Kept (record con { cursor_col = 0 }) start.valid in
          Kept-trans con (next_row (record con { cursor_col = 0 }))
            (move_forward (next_row (record con { cursor_col = 0 })) n)
            (Kept-trans con (record con { cursor_col = 0 })
              (next_row (record con { cursor_col = 0 })) start down)
            (move_forward-Kept (next_row (record con { cursor_col = 0 })) n down.valid))
  | inr e ↦
      rw (e, if◌then◌else◌)
        (let con' = record con { cursor_col = con.cursor_col + 1 } in
          let k : Kept con con' = record {
            valid = record {
              row = v.row;
              col = ground (arith, e);
              old_row = v.old_row;
              old_col = v.old_col;
            };
            base = refl;
            cells = λ i out. refl;
          } in
          Kept-trans con con' (move_forward con' n) k (move_forward-Kept con' n k.valid))
]

pub show_char-Kept : (con : Console) (ch : ℕ) → IsValid con → Kept con (show_char con ch)
unfolding show_char
show_char-Kept con ch v =
    let put = put_char-Kept con ch v in
    Kept-trans con (put_char con ch) (move_forward (put_char con ch) 1) put
      (move_forward-Kept (put_char con ch) 1 put.valid)

step_back-Kept : (con : Console) → IsValid con → Kept con (step_back con).1
unfolding step_back
step_back-Kept con v = record {
  valid = ground (arith, v.row, v.col, v.old_row, v.old_col);
  base = ground arith;
  cells = λ i out. ground arith;
}

pub move_backword-Kept : (con : Console) (n : ℕ) → IsValid con → Kept con (move_backword con n).1
unfolding move_backword
move_backword-Kept con zero v = Kept-refl con v
move_backword-Kept con (suc n) v =
    let back = step_back-Kept con v in
    Kept-trans con (step_back con).1 (move_backword (step_back con).1 n).1 back
      (move_backword-Kept (step_back con).1 n back.valid)

erase_one-Kept : (moved : Bool) (con : Console) → IsValid con → Kept con (erase_one (moved, con))
unfolding erase_one
erase_one-Kept false con v = Kept-refl con v
erase_one-Kept true con v =
    let show = show_char-Kept con 32 v in
    Kept-trans con (show_char con 32) (move_backword (show_char con 32) 1).1 show
      (move_backword-Kept (show_char con 32) 1 show.valid)

erase_loop-Kept : (con : Console) (n : ℕ) → IsValid con → Kept con (erase_loop con n)
unfolding erase_loop
erase_loop-Kept con zero v = Kept-refl con v
erase_loop-Kept con (suc n) v =
    let back = move_backword-Kept con 1 v in
    let one = erase_one-Kept (move_backword con 1).0 (move_backword con 1).1 back.valid in
    let con' = erase_one (move_backword con 1) in
    Kept-trans con con' (erase_loop con' n) (Kept-trans con (move_backword con 1).1 con' back one)
      (erase_loop-Kept con' n one.valid)

pub erase_backword-Kept : (con : Console) (n : ℕ) → IsValid con → Kept con (erase_backword con n)
unfolding erase_backword
erase_backword-Kept con n v = elim (Bool-cases (n == 0)) [
  | inl e ↦ rw (e, if◌then◌else◌) (Kept-refl con v)
  | inr e ↦
      rw (e, if◌then◌else◌)
        (let k = erase_loop-Kept con n v in
          record {
            valid = record {
              row = k.valid.row;
              col = k.valid.col;
              old_row = k.valid.old_row;
              old_col = k.valid.old_col;
            };
            base = k.base;
            cells = k.cells;
          })
]
