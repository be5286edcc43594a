-- ===== src/Dev/Tty/Drain.antt =====
-- What kernel/dev/tty.c writes, as the characters that reach the console: the loop of
-- `console_write`.
use wjos.Common.{
  ℕ, zero, suc, ◌+◌, ◌-◌, ◌≡◌, refl, ◌≢◌, some, [], ◌∷◌, arith, get_or, ap, ◌∙◌, sym, subst,
}
use wjos.Sched.{Manager}
use wjos.Ipc.Sem.{Sem, sem_notify, wake_first}
use wjos.Dev.Fifo.{Fifo, next_index, tty_fifo_get}
use wjos.Dev.Fifo.Queue.{IsValid, contents, Got, tty_fifo_get-Got, get_ok, window}
use wjos.Dev.Console.Write.{write_in, write_all}
use wjos.Dev.Tty.{Terminal, drain_behind, write_next, drain}

-- Everything that the buffer held has reached the console, and its units are back.
pub record Drained (t t' : Terminal) : Type 0 where
  pub valid : IsValid t'.tty.ofifo
  pub empty : t'.tty.ofifo.count ≡ 0
  pub size : t'.tty.ofifo.size ≡ t.tty.ofifo.size
  pub units : t'.tty.osem.sem_count ≡ t.tty.osem.sem_count + t.tty.ofifo.count
  pub waiters : t'.tty.osem.wait_list ≡ []
  pub con : t'.con ≡ write_all t.con (contents t.tty.ofifo)
  pub mutex : t'.mutex ≡ t.mutex
  pub sched : t'.sched ≡ t.sched
  pub input : t'.tty.input ≡ t.tty.input
  pub ocrlf : t'.tty.ocrlf ≡ t.tty.ocrlf
  pub inclr : t'.tty.inclr ≡ t.tty.inclr
  pub iecho : t'.tty.iecho ≡ t.tty.iecho

-- A notification that no task waits for.
sem_notify_free :
    (sem : Sem) (m : Manager)
    → sem.wait_list ≡ []
    → sem_notify sem m ≡ (record sem { sem_count = sem.sem_count + 1 }, m)
unfolding sem_notify wake_first
sem_notify_free sem m none_waits = ap (λ l. wake_first sem l m) none_waits

-- The terminal behind one round of `console_write`.
module _ (t : Terminal) where
  first : ℕ
  first = get_or t.tty.ofifo.buf t.tty.ofifo.read 0

  rest_fifo : Fifo
  rest_fifo = record t.tty.ofifo {
    read = next_index t.tty.ofifo.size t.tty.ofifo.read;
    count = t.tty.ofifo.count - 1;
  }

  shown_first : Terminal
  unfolding first rest_fifo
  shown_first = record t {
    tty = record t.tty {
      ofifo = rest_fifo;
      osem = record t.tty.osem { sem_count = t.tty.osem.sem_count + 1 };
    };
    con = write_in t.con.write_state t.con first;
  }

  got : t.tty.ofifo.count ≢ 0 → tty_fifo_get t.tty.ofifo ≡ (some first, rest_fifo)
  unfolding first rest_fifo
  got ne = get_ok t.tty.ofifo ne

  write_next-shown :
      t.tty.ofifo.count ≢ 0
      → t.tty.osem.wait_list ≡ []
      → write_next (tty_fifo_get t.tty.ofifo) t ≡ some shown_first
  unfolding write_next shown_first
  write_next-shown ne w =
      ap (λ g. write_next g t) (got ne)
      ∙ ap
          (λ (r : Sem × Manager). some (record t {
            tty = record t.tty { ofifo = rest_fifo; osem = r.0 };
            con = write_in t.con.write_state t.con first;
            sched = r.1;
          }))
          (sem_notify_free t.tty.osem t.sched w)

  rest_fifo-contents :
      IsValid t.tty.ofifo
      → t.tty.ofifo.count ≢ 0
      → IsValid rest_fifo × (contents t.tty.ofifo ≡ first ∷ contents rest_fifo)
  rest_fifo-contents v ne = subst (Got t.tty.ofifo) (got ne) (tty_fifo_get-Got t.tty.ofifo v)

pub drain-Drained :
    (n : ℕ) (t : Terminal)
    → IsValid t.tty.ofifo
    → t.tty.osem.wait_list ≡ []
    → t.tty.ofifo.count ≡ n
    → ((drain n t).0 ≡ n) × Drained t (drain n t).1
unfolding drain drain_behind write_all shown_first rest_fifo
drain-Drained zero t v w e = (
  refl,
  record {
    valid = v;
    empty = e;
    size = refl;
    units = omega (arith, e);
    waiters = w;
    con =
        ap (λ n. write_all t.con (window t.tty.ofifo.buf t.tty.ofifo.size t.tty.ofifo.read n))
          (sym e);
    mutex = refl;
    sched = refl;
    input = refl;
    ocrlf = refl;
    inclr = refl;
    iecho = refl;
  },
)
drain-Drained (suc n) t v w e =
    let ne : t.tty.ofifo.count ≢ 0 = λ z. omega (arith, e, z) in
    let s = shown_first t in
    let queue = rest_fifo-contents t v ne in
    let round : drain (suc n) t ≡ ((drain n s).0 + 1, (drain n s).1) =
      ap (λ o. drain_behind o (drain n) t) (write_next-shown t ne w) in
    let (len, d) = drain-Drained n s queue.0 w (omega (arith, e)) in
    subst (λ (r : ℕ × Terminal). (r.0 ≡ suc n) × Drained t r.1) (sym round)
      (
        omega (arith, len),
        record {
          valid = d.valid;
          empty = d.empty;
          size = d.size;
          units = omega (arith, d.units, e);
          waiters = d.waiters;
          con = d.con ∙ ap (write_all t.con) (sym queue.1);
          mutex = d.mutex;
          sched = d.sched;
          input = d.input;
          ocrlf = d.ocrlf;
          inclr = d.inclr;
          iecho = d.iecho;
        },
      )
