-- ===== src/Dev/Console/Escapes.antt =====
-- Whole texts written to a console of kernel/dev/console.c, escape sequences among them.
use wjos.Common.{
  ℕ, ◌+◌, ◌*◌, ◌≤◌, ◌<◌, ◌≡◌, refl, inl, inr, Bool, true, false, not, ◌&&◌, ◌||◌, List, [], ◌∷◌,
  arith, ltb, leb, ◌==◌, if◌then◌else◌, Bool-cases, get_or, ap, ◌∙◌,
}
use wjos.Dev.Console.{Console, WriteState, cell_of, show_char, put_char, move_forward}
use wjos.Dev.Console.Write.{
  write_normal, move_left, move_right, move_cursor, put_digit, end_square, write_esc_square,
  write_in, write_all,
}
use wjos.Dev.Console.Bounds.{IsValid, is_inside, Kept, Kept-trans, Kept-refl}
use wjos.Dev.Console.Styles.{
  SameView-Kept, if-Kept, with_state-Kept, write_normal-Kept, write_esc-Kept, set_font_style-Kept,
}

-- A count of a cursor move that is far from 2 ^ 31.
abbrev pub is_count : ℕ → Bool
is_count n = ltb n 0x4000_0000

move_left-Kept :
    (con : Console) (n : ℕ) → IsValid con → is_count n ≡ true → Kept con (move_left con n)
unfolding move_left
move_left-Kept con n v small = record {
  valid = ground (arith, v.row, v.col, v.old_row, v.old_col, small);
  base = ground arith;
  cells = λ i out. ground arith;
}

move_right-Kept :
    (con : Console) (n : ℕ) → IsValid con → is_count n ≡ true → Kept con (move_right con n)
unfolding move_right
move_right-Kept con n v small = record {
  valid = ground (arith, v.row, v.col, v.old_row, v.old_col, small);
  base = ground arith;
  cells = λ i out. ground arith;
}

put_digit-Kept : (con : Console) (ch : ℕ) → IsValid con → Kept con (put_digit con ch)
unfolding put_digit
put_digit-Kept con ch v = SameView-Kept con (put_digit con ch) v (ground arith)

-- The characters that do not end a sequence by placing the cursor or by erasing the display, nor by
-- moving the cursor by a huge count.
abbrev pub is_calm : WriteState → Console → ℕ → Bool
is_calm WriteState.plain con ch = true
is_calm WriteState.esc con ch = true
is_calm WriteState.square con ch =
    not ((ch == 72) || (ch == 102) || (ch == 74))
    && (not ((ch == 68) || (ch == 67)) || is_count (get_or con.esc_param 0 0))

-- A text of such characters, each in the state in which it is written.
abbrev pub IsCalm : Console → List ℕ → Type 0
IsCalm con [] = Unit
IsCalm con (ch ∷ chars) =
    (is_calm con.write_state con ch ≡ true) × IsCalm (write_in con.write_state con ch) chars

end_square-Kept :
    (con : Console) (ch : ℕ)
    → IsValid con
    → is_calm WriteState.square con ch ≡ true
    → Kept con (end_square con ch)
unfolding end_square
end_square-Kept con ch v calm =
    if-Kept (ch == 109) (set_font_style-Kept con v) (elim (Bool-cases (ch == 68)) [
      | inl e ↦
          rw (e, if◌then◌else◌)
            (move_left-Kept con (get_or con.esc_param 0 0) v (ground (arith, calm, e)))
      | inr e ↦
          rw (e, if◌then◌else◌)
            (elim (Bool-cases (ch == 67)) [
              | inl e' ↦
                  rw (e', if◌then◌else◌)
                    (move_right-Kept con (get_or con.esc_param 0 0) v (ground (arith, calm, e')))
              | inr e' ↦
                  let stay : ((ch == 72) || (ch == 102)) ≡ false = ground (arith, calm) in
                  let whole : (ch == 74) ≡ false = ground (arith, calm) in
                  rw (e', if◌then◌else◌)
                    (rw (stay, if◌then◌else◌) (rw (whole, if◌then◌else◌) (Kept-refl con v)))
            ])
    ])

write_esc_square-Kept :
    (con : Console) (ch : ℕ)
    → IsValid con
    → is_calm WriteState.square con ch ≡ true
    → Kept con (write_esc_square con ch)
unfolding write_esc_square
write_esc_square-Kept con ch v calm = if-Kept (leb 48 ch && leb ch 57) (put_digit-Kept con ch v) (
    if-Kept ((ch == 59) && ltb con.curr_param_index 10)
      (SameView-Kept con (record con { curr_param_index = con.curr_param_index + 1 }) v
        (record {
          row = refl;
          col = refl;
          old_row = refl;
          old_col = refl;
          base = refl;
          cells = refl;
        }))
      (with_state-Kept con (end_square con ch) WriteState.plain (end_square-Kept con ch v calm)))

write_in-Kept :
    (st : WriteState) (con : Console) (ch : ℕ)
    → IsValid con
    → is_calm st con ch ≡ true
    → Kept con (write_in st con ch)
unfolding write_in
write_in-Kept WriteState.plain con ch v calm = write_normal-Kept con ch v
write_in-Kept WriteState.esc con ch v calm = write_esc-Kept con ch v
write_in-Kept WriteState.square con ch v calm = write_esc_square-Kept con ch v calm

-- Writing a text in which no sequence places the cursor, erases the display or moves by a huge count
-- keeps the cursor on the display, and writes no cell of the memory outside the console's part.
pub write_all-Kept :
    (chars : List ℕ) (con : Console)
    → IsValid con
    → IsCalm con chars
    → Kept con (write_all con chars)
unfolding write_all
write_all-Kept [] con v calm = Kept-refl con v
write_all-Kept (ch ∷ chars) con v (c, calm) =
    let one = write_in-Kept con.write_state con ch v c in
    let con' = write_in con.write_state con ch in
    Kept-trans con con' (write_all con' chars) one (write_all-Kept chars con' one.valid calm)

-- What `H` does with two parameters.
end_square-placed :
    (con : Console) (row col : ℕ) (params : List ℕ)
    → con.esc_param ≡ row ∷ col ∷ params
    → write_esc_square con 72
      ≡ record con { cursor_row = row; cursor_col = col; write_state = WriteState.plain }
unfolding write_esc_square end_square move_cursor
end_square-placed con row col params ps =
    ap
      (λ (l : List ℕ). record con {
        cursor_row = get_or l 0 0;
        cursor_col = get_or l 1 0;
        write_state = WriteState.plain;
      })
      ps

-- A printable character, away from the end of a row.
write_normal-printable :
    (con : Console) (ch : ℕ)
    → con.cursor_col < 79
    → 32 ≤ ch
    → ch < 127
    → (write_normal con ch).cells (con.disp_base + (con.cursor_col + con.cursor_row * 80))
      ≡ cell_of con ch
unfolding write_normal show_char put_char move_forward
write_normal-printable con ch left pos top = ground (arith, left, pos, top)

-- A sequence that places the cursor in a row behind the display, and a character behind it: the
-- character goes to a cell outside the console's part of the memory.
write_all-outside :
    (con : Console) (row col ch : ℕ) (params : List ℕ)
    → con.write_state ≡ WriteState.square
    → con.esc_param ≡ row ∷ col ∷ params
    → 25 ≤ row
    → col < 79
    → 32 ≤ ch
    → ch < 127
    → let i = con.disp_base + (col + row * 80) in
      (is_inside con i ≡ false) × ((write_all con (72 ∷ ch ∷ [])).cells i ≡ cell_of con ch)
unfolding write_all write_in
write_all-outside con row col ch params st ps low left pos top =
    let placed : Console = record con {
      cursor_row = row;
      cursor_col = col;
      write_state = WriteState.plain;
    } in
    let two : write_in con.write_state con 72 ≡ placed =
      ap (λ s. write_in s con 72) st ∙ end_square-placed con row col params ps in
    (
      ground (arith, low),
      ap (λ (c : Console). (write_in c.write_state c ch).cells (con.disp_base + (col + row * 80)))
            two
          ∙ write_normal-printable placed ch left pos top,
    )
