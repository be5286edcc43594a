-- ===== src/Dev/Tty.antt =====
-- A terminal: `console_write` of kernel/dev/console.c, and the terminal driver of kernel/dev/tty.c.
-- `none` is a task that blocks in `sem_wait`: what runs then is for the scheduler. The hardware's
-- cursor is not modelled, and the characters behind the length of a read are not either.
pub mod Drain
pub mod Puts
pub mod Output
pub mod Pending
pub mod Line
pub mod Keys
mod Tests
use wjos.Common.{
  ℕ, zero, suc, ◌+◌, ◌-◌, ◌%◌, ◌/◌, Bool, true, false, not, ◌&&◌, ◌||◌, Option, none, some, List,
  [], ◌∷◌, ltb, leb, ◌==◌, if◌then◌else◌, length,
}
use wjos.Common.Words.{add32, sub32}
use wjos.Sched.{Manager}
use wjos.Ipc.Sem.{Sem, sem_init, sem_wait, sem_notify}
use wjos.Ipc.Mutex.{Mutex, mutex_lock, mutex_unlock}
use wjos.Dev.Fifo.{Fifo, Input, tty_fifo_init, tty_fifo_put, tty_fifo_get}
use wjos.Dev.Console.{Console, erase_backword}
use wjos.Dev.Console.Write.{write_in}

-- A `tty_t`; its flags are their bits.
pub record Tty : Type 0 where
  pub ofifo : Fifo
  pub osem : Sem
  pub input : Input
  pub ocrlf : Bool
  pub inclr : Bool
  pub iecho : Bool

-- A terminal with its console, the console's mutex and the scheduler.
pub record Terminal : Type 0 where
  pub tty : Tty
  pub con : Console
  pub mutex : Mutex
  pub sched : Manager

-- Whether `get_tty` finds a terminal for a device of this number, which is opened so often.
unfoldable pub get_tty : ℕ → ℕ → Bool
get_tty minor open_count = ltb minor 8 && not (open_count == 0)

-- The terminal that `tty_open` sets up, over the buffers that it has; a number out of range has none.
unfoldable pub tty_open : ℕ → List ℕ → List ℕ → Option Tty
unfolding tty_fifo_init sem_init
tty_open minor obuf ibuf =
    if ltb minor 8
    then some (record {
      ofifo = tty_fifo_init obuf 512;
      osem = sem_init 512;
      input = record { ififo = tty_fifo_init ibuf 512; isem = sem_init 0 };
      ocrlf = true;
      inclr = true;
      iecho = true;
    })
    else none

-- One character that the output buffer gives.
unfoldable pub write_next : Option ℕ × Fifo → Terminal → Option Terminal
write_next (none, ofifo) t = none
write_next (some ch, ofifo) t =
    let (osem, m) = sem_notify t.tty.osem t.sched in
    some (record t {
      tty = record t.tty { ofifo = ofifo; osem = osem };
      con = write_in t.con.write_state t.con ch;
      sched = m;
    })

-- What is left to do behind one round.
unfoldable pub drain_behind : Option Terminal → (Terminal → ℕ × Terminal) → Terminal → ℕ × Terminal
drain_behind none rest t = (0, t)
drain_behind (some t') rest t = let (len, t'') = rest t' in (len + 1, t'')

-- The loop of `console_write`, and the number of its characters. Each round takes one from the
-- buffer, so their count is fuel enough.
unfoldable pub drain : ℕ → Terminal → ℕ × Terminal
unfolding write_next drain_behind tty_fifo_get
drain zero t = (0, t)
drain (suc n) t = drain_behind (write_next (tty_fifo_get t.tty.ofifo) t) (drain n) t

unfoldable pub console_write : Terminal → ℕ × Terminal
unfolding drain
console_write t =
    let (mutex, m) = mutex_lock t.mutex t.sched in
    let (len, t') = drain t.tty.ofifo.count (record t { mutex = mutex; sched = m }) in
    let (mutex', m') = mutex_unlock t'.mutex t'.sched in
    (len, record t' { mutex = mutex'; sched = m' })

-- A unit of the output semaphore, and a character into the buffer; `false` is a failed put.
unfoldable pub put_out : Terminal → ℕ → Option (Bool × Terminal)
put_out t c =
    let (osem, m) = sem_wait t.tty.osem t.sched in
    let (ok, ofifo) = tty_fifo_put t.tty.ofifo c in
    if t.tty.osem.sem_count == 0
    then none
    else some (ok, record t { tty = record t.tty { ofifo = ofifo; osem = osem }; sched = m })

-- A line feed has a carriage return before it.
unfoldable pub put_return : Terminal → ℕ → Option (Bool × Terminal)
unfolding put_out
put_return t c = if (c == 10) && t.tty.ocrlf then put_out t 13 else some (true, t)

unfoldable pub put_behind : Option (Bool × Terminal) → ℕ → Option (Bool × Terminal)
unfolding put_out
put_behind none c = none
put_behind (some (false, t)) c = some (false, t)
put_behind (some (true, t)) c = put_out t c

abbrev pub count_one : Option (ℕ × Terminal) → Option (ℕ × Terminal)
count_one none = none
count_one (some (len, t)) = some (len + 1, t)

unfoldable pub write_behind :
    Option (Bool × Terminal) → (Terminal → Option (ℕ × Terminal)) → Option (ℕ × Terminal)
unfolding console_write
write_behind none rest = none
write_behind (some (false, t)) rest = some (0, t)
write_behind (some (true, t)) rest = count_one (rest (console_write t).1)

-- The loop of `tty_write`.
unfoldable pub write_loop : Terminal → List ℕ → Option (ℕ × Terminal)
unfolding put_return put_behind write_behind
write_loop t [] = some (0, t)
write_loop t (c ∷ buf) = write_behind (put_behind (put_return t c) c) (λ t'. write_loop t' buf)

-- `some none` is -1: a device that is not open, or of a number out of range. The sizes given are not
-- negative.
unfoldable pub tty_write : ℕ → ℕ → Terminal → List ℕ → Option (Option ℕ × Terminal)
unfolding get_tty write_loop
tty_write minor open_count t buf =
    if get_tty minor open_count
    then elim (write_loop t buf) [ none ↦ none | some (len, t') ↦ some (some len, t') ]
    else some (none, t)

unfoldable pub take_got : Terminal → Sem × Manager → Option ℕ × Fifo → Option (ℕ × Terminal)
take_got t (isem, m) (none, ififo) = none
take_got t (isem, m) (some ch, ififo) = some (
  ch,
  record t { tty = record t.tty { input = record { ififo = ififo; isem = isem } }; sched = m },
)

-- A unit of the input semaphore, and the character that it stands for.
unfoldable pub take_in : Terminal → Option (ℕ × Terminal)
unfolding take_got
take_in t =
    if t.tty.input.isem.sem_count == 0
    then none
    else take_got t (sem_wait t.tty.input.isem t.sched) (tty_fifo_get t.tty.input.ififo)

abbrev with_input_len : Terminal → ℕ → Terminal
with_input_len t n = record t { con = record t.con { input_len = n } }

abbrev pub rub_out : List ℕ → Terminal → Option (List ℕ × Terminal)
rub_out [] t = none
rub_out (_ ∷ rest) t = some (rest, with_input_len t (sub32 t.con.input_len 1))

-- The characters read so far, the last first, and the terminal; `none` where a rubout has nothing to
-- remove. Where `inclr` is, `iflags` is not 0.
unfoldable pub take_char : ℕ → List ℕ → ℕ → Terminal → Option (List ℕ × Terminal)
take_char size out ch t =
    if ch == 127
    then rub_out out t
    else if ch == 10
    then some (
      if (t.tty.inclr || t.tty.iecho) && ltb (length out + 1) size then 10 ∷ 13 ∷ out else 10 ∷ out,
      with_input_len t 0,
    )
    else some (ch ∷ out, with_input_len t (add32 t.con.input_len 1))

abbrev pub echoed : Option (ℕ × Terminal) → Option Terminal
echoed none = none
echoed (some (len, t)) = some t

-- The echo of a character, by `tty_write`, which finds the terminal that the read has found.
unfoldable pub echo : ℕ → Terminal → Option Terminal
unfolding write_loop
echo ch t = if t.tty.iecho then echoed (write_loop t (ch ∷ [])) else some t

-- The end of a round: a line that has ended ends the read.
unfoldable pub read_on :
    ℕ
    → List ℕ
    → Option Terminal
    → (List ℕ → Terminal → Option (List ℕ × Terminal))
    → Option (List ℕ × Terminal)
read_on ch out none rest = none
read_on ch out (some t) rest = if (ch == 10) || (ch == 13) then some (out, t) else rest out t

-- The middle of a round: what the character does, and its echo.
unfoldable pub read_char :
    ℕ
    → List ℕ
    → Terminal
    → Option (List ℕ × Terminal)
    → (List ℕ → Terminal → Option (List ℕ × Terminal))
    → Option (List ℕ × Terminal)
unfolding read_on echo
read_char ch out t none rest = rest out t
read_char ch out t (some (out', t')) rest = read_on ch out' (echo ch t') rest

unfoldable pub read_round :
    ℕ
    → List ℕ
    → Option (ℕ × Terminal)
    → (List ℕ → Terminal → Option (List ℕ × Terminal))
    → Option (List ℕ × Terminal)
unfolding take_char read_char
read_round size out none rest = none
read_round size out (some (ch, t)) rest = read_char ch out t (take_char size out ch t) rest

-- The loop of `tty_read`, on fuel: each round takes a character from the buffer.
unfoldable pub read_loop : ℕ → ℕ → List ℕ → Terminal → Option (List ℕ × Terminal)
unfolding take_in read_round
read_loop zero size out t = none
read_loop (suc n) size out t =
    let round = read_round size out (take_in t) (read_loop n size) in
    if leb size (length out) then some (out, t) else round

-- `TTY_CMD_ECHO`; other commands do nothing. The answer is 0.
unfoldable pub tty_control : Tty → ℕ → ℕ → Tty
tty_control tty cmd arg0 = if cmd == 1 then record tty { iecho = not (arg0 == 0) } else tty
