-- ===== src/Dev/Fifo.antt =====
-- The ring buffer of kernel/dev/tty.c, and the input side of a terminal. Interrupts are off in each
-- function.
pub mod Queue
use wjos.Common.{
  ℕ, zero, suc, ◌+◌, ◌-◌, Bool, true, false, Option, none, some, List, [], ◌∷◌, ◌++◌, ltb, leb,
  ◌==◌, if◌then◌else◌, get_or, set,
}
use wjos.Sched.{Manager}
use wjos.Ipc.Sem.{Sem, sem_notify}

pub record Fifo : Type 0 where
  pub buf : List ℕ
  pub size : ℕ
  pub read : ℕ
  pub write : ℕ
  pub count : ℕ

unfoldable pub tty_fifo_init : List ℕ → ℕ → Fifo
tty_fifo_init buf size = record { buf = buf; size = size; read = 0; write = 0; count = 0 }

-- An index moved on by one, and back to 0 at the end.
abbrev pub next_index : ℕ → ℕ → ℕ
next_index size i = if leb size (i + 1) then 0 else i + 1

-- `false` is -1.
unfoldable pub tty_fifo_put : Fifo → ℕ → Bool × Fifo
tty_fifo_put fifo c = if leb fifo.size fifo.count then (false, fifo) else (
  true,
  record fifo {
    buf = set fifo.buf fifo.write c;
    write = next_index fifo.size fifo.write;
    count = fifo.count + 1;
  },
)

unfoldable pub tty_fifo_get : Fifo → Option ℕ × Fifo
tty_fifo_get fifo = if fifo.count == 0 then (none, fifo) else (
  some (get_or fifo.buf fifo.read 0),
  record fifo { read = next_index fifo.size fifo.read; count = fifo.count - 1 },
)

-- A terminal's input: the buffer and the semaphore that counts its characters.
pub record Input : Type 0 where
  pub ififo : Fifo
  pub isem : Sem

unfoldable pub tty_in : Input → ℕ → Manager → Input × Manager
tty_in tty ch m =
    if leb 512 tty.isem.sem_count
    then (tty, m)
    else let (isem, m') = sem_notify tty.isem m in
      (record { ififo = (tty_fifo_put tty.ififo ch).1; isem = isem }, m')
