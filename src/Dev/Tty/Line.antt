-- ===== src/Dev/Tty/Line.antt =====
-- Lines read through kernel/dev/tty.c: rubouts, and the end of the line.
use wjos.Common.{
  ℕ, suc, ◌+◌, ◌≤◌, ◌<◌, ◌≡◌, refl, inl, inr, Bool, true, false, ◌&&◌, ◌||◌, Option, some, List, [],
  ◌∷◌, ◌++◌, arith, ltb, leb, ◌==◌, if◌then◌else◌, Bool-cases, length, ap, ◌∙◌, All,
}
use wjos.Common.Words.{add32, sub32}
use wjos.Dev.Tty.{
  Terminal, with_input_len, take_in, take_char, rub_out, echo, read_on, read_char, read_round,
  read_loop,
}
use wjos.Dev.Tty.Pending.{
  IsPending, rubbed, typed, IsPart, take_in-IsPending, echo-IsPending, input_len-IsPending,
}

abbrev Rest : Type 0
Rest = List ℕ → Terminal → Option (List ℕ × Terminal)

-- A character that the line takes: its echo, and the rest of the read.
read_char-taken :
    (c : ℕ) (cs out out' : List ℕ) (t t' : Terminal) (rest : Rest)
    → IsPart c
    → IsPending cs t'
    → (u : Terminal) × (read_char c out t (some (out', t')) rest ≡ rest out' u) × IsPending cs u
unfolding read_char read_on
read_char-taken c cs out out' t t' rest (no_lf, no_cr) p =
    let (u, shown, q) = echo-IsPending cs c t' p in
    let goes_on : ((c == 10) || (c == 13)) ≡ false = ground (arith, no_lf, no_cr) in
    (
      u,
      ap (λ e. read_on c out' e rest) shown
          ∙ ap (λ (b : Bool). if b then some (out', u) else rest out' u) goes_on,
      q,
    )

read_char-rubbed :
    (c : ℕ) (cs out : List ℕ) (t : Terminal) (rest : Rest)
    → IsPart c
    → IsPending cs t
    → (u : Terminal) × (read_char c out t (rub_out out t) rest ≡ rest (rubbed out) u)
      × IsPending cs u
unfolding read_char
read_char-rubbed c cs [] t rest part p = (t, refl, p)
read_char-rubbed c cs (x ∷ out) t rest part p =
    read_char-taken c cs (x ∷ out) out t (with_input_len t (sub32 t.con.input_len 1)) rest part
      (input_len-IsPending cs (sub32 t.con.input_len 1) t p)

read_char-part :
    (size c : ℕ) (cs out : List ℕ) (t : Terminal) (rest : Rest)
    → IsPart c
    → IsPending cs t
    → (u : Terminal) × (read_char c out t (take_char size out c t) rest
        ≡ rest (typed out (c ∷ [])) u)
      × IsPending cs u
unfolding take_char
read_char-part size c cs out t rest part p = elim (Bool-cases (c == 127)) [
  | inl e ↦ rw (e, if◌then◌else◌) (read_char-rubbed c cs out t rest part p)
  | inr e ↦
      let no_lf : (c == 10) ≡ false = ground (arith, part.0) in
      rw (e, if◌then◌else◌)
        (rw (no_lf, if◌then◌else◌)
          (read_char-taken c cs out (c ∷ out) t (with_input_len t (add32 t.con.input_len 1)) rest
            part (input_len-IsPending cs (add32 t.con.input_len 1) t p)))
]

-- One round on a character of the line.
read_loop-part :
    (n size c : ℕ) (cs out : List ℕ) (t : Terminal)
    → IsPart c
    → IsPending (c ∷ cs) t
    → length out < size
    → (u : Terminal) × (read_loop (suc n) size out t ≡ read_loop n size (typed out (c ∷ [])) u)
      × IsPending cs u
unfolding read_loop read_round
read_loop-part n size c cs out t part p room =
    let more : leb size (length out) ≡ false = ground (arith, room) in
    let (t', taken, q) = take_in-IsPending c cs t p in
    let (u, on, r) = read_char-part size c cs out t' (read_loop n size) part q in
    (
      u,
      ap
            (λ (b : Bool).
              if b then some (out, t) else read_round size out (take_in t) (read_loop n size))
            more
          ∙ ap (λ o. read_round size out o (read_loop n size)) taken
          ∙ on,
      r,
    )

-- The round on the end of the line.
read_loop-end :
    (n size : ℕ) (cs out : List ℕ) (t : Terminal)
    → IsPending (10 ∷ cs) t
    → length out + 1 < size
    → (u : Terminal) × (read_loop (suc n) size out t ≡ some (10 ∷ 13 ∷ out, u)) × IsPending cs u
unfolding read_loop read_round take_char read_char read_on
read_loop-end n size cs out t p room =
    let more : leb size (length out) ≡ false = ground (arith, room) in
    let (t', taken, q) = take_in-IsPending 10 cs t p in
    let pair : ((t'.tty.inclr || t'.tty.iecho) && ltb (length out + 1) size) ≡ true =
      ground (arith, q.inclr, room) in
    let t'' = with_input_len t' 0 in
    let (u, shown, r) = echo-IsPending cs 10 t'' (input_len-IsPending cs 0 t' q) in
    (
      u,
      ap
            (λ (b : Bool).
              if b then some (out, t) else read_round size out (take_in t) (read_loop n size))
            more
          ∙ ap (λ o. read_round size out o (read_loop n size)) taken
          ∙ ap
              (λ (b : Bool).
                read_on 10 (if b then 10 ∷ 13 ∷ out else 10 ∷ out) (echo 10 t'') (read_loop n size))
              pair
          ∙ ap (λ e. read_on 10 (10 ∷ 13 ∷ out) e (read_loop n size)) shown,
      r,
    )

length-typed : (out : List ℕ) (c : ℕ) → length (typed out (c ∷ [])) ≤ length out + 1
length-typed [] c = ground arith
length-typed (x ∷ out) c = ground arith

-- A line that waits in the buffer of an idle terminal, with a unit for each of its characters, and
-- whatever is behind it: a read with room for it, and fuel for a round on each character, returns. It
-- has read the line as the rubouts have left it, the last character first, and `\r\n`; the rest is
-- still in the buffer.
pub read_loop-line :
    (cs behind out : List ℕ) (size : ℕ) (t : Terminal)
    → All IsPart cs
    → IsPending (cs ++ (10 ∷ behind)) t
    → length out + length cs + 1 < size
    → (u : Terminal) × (read_loop (suc (length cs)) size out t ≡ some (10 ∷ 13 ∷ typed out cs, u))
      × IsPending behind u
read_loop-line [] behind out size t parts p room =
    read_loop-end 0 size behind out t p (omega (arith, room))
read_loop-line (c ∷ cs) behind out size t (part, parts) p room =
    let (t', one, q) =
      read_loop-part (suc (length cs)) size c (cs ++ (10 ∷ behind)) out t part p
        (omega (arith, room)) in
    let (u, all, r) =
      read_loop-line cs behind (typed out (c ∷ [])) size t' parts q
        (omega (arith, room, length-typed out c)) in
    (u, one ∙ all, r)
