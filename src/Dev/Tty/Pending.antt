-- ===== src/Dev/Tty/Pending.antt =====
-- The input buffer of kernel/dev/tty.c with the characters of a line, and their echo.
use wjos.Common.{
  ℕ, ◌-◌, ◌≡◌, ◌≢◌, inl, inr, Bool, true, false, none, some, List, [], ◌∷◌, arith, ◌==◌,
  if◌then◌else◌, Bool-cases, length, get_or, drop, ap, ◌∙◌, sym, subst,
}
use wjos.Ipc.Sem.{Sem, sem_wait}
use wjos.Dev.Fifo.{Fifo, next_index, tty_fifo_get}
use wjos.Dev.Fifo.Queue.{IsValid, contents, Got, tty_fifo_get-Got, get_ok}
use wjos.Dev.Tty.{Terminal, with_input_len, take_in, take_got, echo, echoed, write_loop}
use wjos.Dev.Tty.Puts.{IsIdle, sem_wait_free}
use wjos.Dev.Tty.Output.{write_loop-Written}

-- An idle terminal whose input buffer holds these characters, with a unit for each.
pub record IsPending (chars : List ℕ) (t : Terminal) : Type 0 where
  pub idle : IsIdle t
  pub valid : IsValid t.tty.input.ififo
  pub contents : contents t.tty.input.ififo ≡ chars
  pub count : t.tty.input.ififo.count ≡ length chars
  pub units : t.tty.input.isem.sem_count ≡ length chars
  pub inclr : t.tty.inclr ≡ true

abbrev pub rubbed : List ℕ → List ℕ
rubbed [] = []
rubbed (_ ∷ out) = out

-- A rubout removes the character before it, when there is one; the last character stands first.
abbrev pub typed : List ℕ → List ℕ → List ℕ
typed out [] = out
typed out (c ∷ cs) = typed (if c == 127 then rubbed out else c ∷ out) cs

-- A character that neither ends the line nor is a carriage return.
abbrev pub IsPart : ℕ → Type 0
IsPart c = (c ≢ 10) × (c ≢ 13)

pub take_in-IsPending :
    (c : ℕ) (cs : List ℕ) (t : Terminal)
    → IsPending (c ∷ cs) t
    → (t' : Terminal) × (take_in t ≡ some (c, t')) × IsPending cs t'
unfolding take_in take_got
take_in-IsPending c cs t p =
    let ififo = t.tty.input.ififo in
    let isem : Sem = record t.tty.input.isem { sem_count = t.tty.input.isem.sem_count - 1 } in
    let ne : ififo.count ≢ 0 = λ z. omega (arith, z, p.count) in
    let rest : Fifo = record ififo {
      read = next_index ififo.size ififo.read;
      count = ififo.count - 1;
    } in
    let queue : IsValid rest × (contents ififo ≡ get_or ififo.buf ififo.read 0 ∷ contents rest) =
      subst (Got ififo) (get_ok ififo ne) (tty_fifo_get-Got ififo p.valid) in
    let t' : Terminal = record t {
      tty = record t.tty { input = record { ififo = rest; isem = isem } };
    } in
    let more : (t.tty.input.isem.sem_count == 0) ≡ false = ground (arith, p.units) in
    let waited = sem_wait_free t.tty.input.isem t.sched (omega (arith, p.units)) in
    let oldest : get_or ififo.buf ififo.read 0 ≡ c =
      ap (λ l. get_or l 0 0) (sym queue.1 ∙ p.contents) in
    let take : take_in t ≡ some (c, t') =
      ap
        (λ (b : Bool).
          if b then none else take_got t (sem_wait t.tty.input.isem t.sched) (tty_fifo_get ififo))
        more
      ∙ ap (λ r. take_got t r (tty_fifo_get ififo)) waited
      ∙ ap (λ g. take_got t (isem, t.sched) g) (get_ok ififo ne)
      ∙ ap (λ x. some (x, t')) oldest in
    (
      t',
      take,
      record {
        idle = record {
          valid = p.idle.valid;
          size = p.idle.size;
          empty = p.idle.empty;
          units = p.idle.units;
          waiters = p.idle.waiters;
          mutex = p.idle.mutex;
          owner = p.idle.owner;
        };
        valid = queue.0;
        contents = ap (drop 1) (sym queue.1 ∙ p.contents);
        count = omega (arith, p.count);
        units = omega (arith, p.units);
        inclr = p.inclr;
      },
    )

-- The echo never waits, and leaves the input as it is.
pub echo-IsPending :
    (cs : List ℕ) (ch : ℕ) (t : Terminal)
    → IsPending cs t
    → (t' : Terminal) × (echo ch t ≡ some t') × IsPending cs t'
unfolding echo
echo-IsPending cs ch t p = elim (Bool-cases t.tty.iecho) [
  | inl e ↦
      let (t', loop, w) = write_loop-Written (ch ∷ []) t p.idle in
      (
        t',
        ap (λ (b : Bool). if b then echoed (write_loop t (ch ∷ [])) else some t) e ∙ ap echoed loop,
        record {
          idle = w.idle;
          valid = subst (λ i. IsValid i.ififo) (sym w.input) p.valid;
          contents = ap (λ i. contents i.ififo) w.input ∙ p.contents;
          count = ap (λ i. i.ififo.count) w.input ∙ p.count;
          units = ap (λ i. i.isem.sem_count) w.input ∙ p.units;
          inclr = w.inclr ∙ p.inclr;
        },
      )
  | inr e ↦ (t, ap (λ (b : Bool). if b then echoed (write_loop t (ch ∷ [])) else some t) e, p)
]

-- The length of the line being typed is nothing that the buffers know of.
pub input_len-IsPending :
    (cs : List ℕ) (n : ℕ) (t : Terminal) → IsPending cs t → IsPending cs (with_input_len t n)
input_len-IsPending cs n t p = record {
  idle = record {
    valid = p.idle.valid;
    size = p.idle.size;
    empty = p.idle.empty;
    units = p.idle.units;
    waiters = p.idle.waiters;
    mutex = p.idle.mutex;
    owner = p.idle.owner;
  };
  valid = p.valid;
  contents = p.contents;
  count = p.count;
  units = p.units;
  inclr = p.inclr;
}
