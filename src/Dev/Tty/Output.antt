-- ===== src/Dev/Tty/Output.antt =====
-- What kernel/dev/tty.c writes, as the characters that reach the console.
use wjos.Common.{
  ℕ, ◌≡◌, refl, inl, inr, Bool, true, ◌&&◌, Option, none, some, List, [], ◌∷◌, ◌++◌, arith, ◌==◌,
  if◌then◌else◌, Bool-cases, length, ap, ◌∙◌, sym,
}
use wjos.Dev.Fifo.Queue.{window}
use wjos.Dev.Console.{Console}
use wjos.Dev.Console.Write.{write_in, write_all}
use wjos.Dev.Tty.{
  Terminal, count_one, console_write, put_return, put_behind, write_behind, write_loop, tty_write,
  get_tty,
}
use wjos.Dev.Tty.Puts.{IsIdle, Filled, put_out-Filled, Written, console_write-Written}

-- The characters that reach the console for one that is written.
abbrev pub expand : Bool → ℕ → List ℕ
expand ocrlf c = if (c == 10) && ocrlf then 13 ∷ c ∷ [] else c ∷ []

abbrev pub expand_all : Bool → List ℕ → List ℕ
expand_all ocrlf [] = []
expand_all ocrlf (c ∷ buf) = expand ocrlf c ++ expand_all ocrlf buf

IsIdle-Filled : (t : Terminal) → IsIdle t → Filled [] t t
IsIdle-Filled t i = record {
  valid = i.valid;
  size = i.size;
  contents = ap (λ n. window t.tty.ofifo.buf t.tty.ofifo.size t.tty.ofifo.read n) i.empty;
  count = i.empty;
  units = omega (arith, i.units);
  waiters = i.waiters;
  con = refl;
  mutex = refl;
  sched = refl;
  input = refl;
  ocrlf = refl;
  inclr = refl;
  iecho = refl;
}

-- The puts for one character: its expansion fills the buffer.
put_all-Filled :
    (t : Terminal) (c : ℕ)
    → IsIdle t
    → (u : Terminal) × (put_behind (put_return t c) c ≡ some (true, u))
      × Filled (expand t.tty.ocrlf c) t u
unfolding put_return put_behind
put_all-Filled t c i = elim (Bool-cases ((c == 10) && t.tty.ocrlf)) [
  | inl e ↦
      let (u1, put1, f1) = put_out-Filled [] t t 13 (omega arith) (IsIdle-Filled t i) in
      let (u2, put2, f2) = put_out-Filled (13 ∷ []) t u1 c (omega arith) f1 in
      rw (e, if◌then◌else◌) (u2, ap (λ r. put_behind r c) put1 ∙ put2, f2)
  | inr e ↦
      let (u1, put1, f1) = put_out-Filled [] t t c (omega arith) (IsIdle-Filled t i) in
      rw (e, if◌then◌else◌) (u1, put1, f1)
]

write_all-append :
    (xs ys : List ℕ) (con : Console) → write_all con (xs ++ ys) ≡ write_all (write_all con xs) ys
unfolding write_all
write_all-append [] ys con = refl
write_all-append (x ∷ xs) ys con = write_all-append xs ys (write_in con.write_state con x)

-- The loop of `tty_write`, which never waits.
pub write_loop-Written :
    (buf : List ℕ) (t : Terminal)
    → IsIdle t
    → (t' : Terminal) × (write_loop t buf ≡ some (length buf, t'))
      × Written (expand_all t.tty.ocrlf buf) t t'
unfolding write_loop write_behind write_all
write_loop-Written [] t i = (
  t,
  refl,
  record {
    idle = i;
    con = refl;
    sched = refl;
    input = refl;
    ocrlf = refl;
    inclr = refl;
    iecho = refl;
  },
)
write_loop-Written (c ∷ buf) t i =
    let (u, put, f) = put_all-Filled t c i in
    let w = console_write-Written (expand t.tty.ocrlf c) t u i f in
    let v = (console_write u).1 in
    let (t', loop, w') = write_loop-Written buf v w.idle in
    (
      t',
      ap (λ r. write_behind r (λ s. write_loop s buf)) put
          ∙ ap count_one loop
          ∙ ap (λ n. some (n, t')) (omega arith),
      record {
        idle = w'.idle;
        con =
            w'.con
            ∙ ap (λ b. write_all v.con (expand_all b buf)) w.ocrlf
            ∙ ap (λ k. write_all k (expand_all t.tty.ocrlf buf)) w.con
            ∙ sym (write_all-append (expand t.tty.ocrlf c) (expand_all t.tty.ocrlf buf) t.con);
        sched = w'.sched ∙ w.sched;
        input = w'.input ∙ w.input;
        ocrlf = w'.ocrlf ∙ w.ocrlf;
        inclr = w'.inclr ∙ w.inclr;
        iecho = w'.iecho ∙ w.iecho;
      },
    )

-- On an idle terminal that is open, `tty_write` never waits: it returns the length of the text, the
-- console has got the text with a carriage return before each line feed, and the terminal is idle.
pub tty_write-Written :
    (minor open_count : ℕ) (buf : List ℕ) (t : Terminal)
    → IsIdle t
    → get_tty minor open_count ≡ true
    → (t' : Terminal) × (tty_write minor open_count t buf ≡ some (some (length buf), t'))
      × Written (expand_all t.tty.ocrlf buf) t t'
unfolding tty_write
tty_write-Written minor open_count buf t i open_ =
    let (t', loop, w) = write_loop-Written buf t i in
    (
      t',
      ap (λ b. if b then finish (write_loop t buf) else some (none, t)) open_ ∙ ap finish loop,
      w,
    )
  where
    finish : Option (ℕ × Terminal) → Option (Option ℕ × Terminal)
    finish r = elim r [ none ↦ none | some (len, t') ↦ some (some len, t') ]
