-- ===== src/Dev/Tty/Puts.antt =====
-- The puts into the output buffer of kernel/dev/tty.c, and the write that empties it.
use wjos.Common.{
  ℕ, ◌+◌, ◌-◌, ◌<◌, ◌≡◌, refl, ◌⊎◌, Bool, true, false, none, some, List, [], ◌∷◌, ◌++◌, arith, ◌==◌,
  if◌then◌else◌, length, ap, ◌∙◌, sym, subst, length-append,
}
use wjos.Sched.{Manager}
use wjos.Ipc.Sem.{Sem, sem_wait}
use wjos.Ipc.Mutex
use wjos.Ipc.Relock.{mutex_unlock-mutex_lock}
use wjos.Ipc.Mutex.{Mutex, mutex_lock, mutex_unlock}
use wjos.Dev.Fifo.{Fifo, tty_fifo_put}
use wjos.Dev.Fifo.Queue.{IsValid, contents, tty_fifo_put-contents, put_ok}
use wjos.Dev.Console.Write.{write_all}
use wjos.Dev.Tty.Drain.{drain-Drained}
use wjos.Dev.Tty.{Terminal, drain, console_write, put_out}

-- Between two writes: an empty output buffer with all of its units, and a mutex that no other task
-- holds.
pub record IsIdle (t : Terminal) : Type 0 where
  pub valid : IsValid t.tty.ofifo
  pub size : t.tty.ofifo.size ≡ 512
  pub empty : t.tty.ofifo.count ≡ 0
  pub units : t.tty.osem.sem_count ≡ 512
  pub waiters : t.tty.osem.wait_list ≡ []
  pub mutex : Mutex.IsValid t.mutex
  pub owner : (t.mutex.owner ≡ none) ⊎ (t.mutex.owner ≡ some t.sched.curr_task)

-- While characters are put: the units and the characters add up, and the rest is as it was.
pub record Filled (chars : List ℕ) (t t' : Terminal) : Type 0 where
  pub valid : IsValid t'.tty.ofifo
  pub size : t'.tty.ofifo.size ≡ 512
  pub contents : contents t'.tty.ofifo ≡ chars
  pub count : t'.tty.ofifo.count ≡ length chars
  pub units : t'.tty.osem.sem_count + length chars ≡ 512
  pub waiters : t'.tty.osem.wait_list ≡ []
  pub con : t'.con ≡ t.con
  pub mutex : t'.mutex ≡ t.mutex
  pub sched : t'.sched ≡ t.sched
  pub input : t'.tty.input ≡ t.tty.input
  pub ocrlf : t'.tty.ocrlf ≡ t.tty.ocrlf
  pub inclr : t'.tty.inclr ≡ t.tty.inclr
  pub iecho : t'.tty.iecho ≡ t.tty.iecho

pub sem_wait_free :
    (sem : Sem) (m : Manager)
    → 0 < sem.sem_count
    → sem_wait sem m ≡ (record sem { sem_count = sem.sem_count - 1 }, m)
unfolding sem_wait
sem_wait_free sem m pos = ground (arith, pos)

-- One put that finds room.
pub put_out-Filled :
    (chars : List ℕ) (t t' : Terminal) (c : ℕ)
    → length chars < 512
    → Filled chars t t'
    → (u : Terminal) × (put_out t' c ≡ some (true, u)) × Filled (chars ++ (c ∷ [])) t u
unfolding put_out
put_out-Filled chars t t' c room f =
    let ofifo = t'.tty.ofifo in
    let osem : Sem = record t'.tty.osem { sem_count = t'.tty.osem.sem_count - 1 } in
    let u : Terminal = record t' {
      tty = record t'.tty { ofifo = (tty_fifo_put ofifo c).1; osem = osem };
    } in
    let lt : ofifo.count < ofifo.size = omega (arith, room, f.count, f.size) in
    let (ok, valid, appended) = tty_fifo_put-contents ofifo c f.valid lt in
    let more : (t'.tty.osem.sem_count == 0) ≡ false = ground (arith, f.units, room) in
    let waited = sem_wait_free t'.tty.osem t'.sched (omega (arith, f.units, room)) in
    let put : put_out t' c ≡ some (true, u) =
      ap
        (λ (b : Bool).
          if b
          then none
          else some (
            (tty_fifo_put ofifo c).0,
            record t' {
              tty = record t'.tty {
                ofifo = (tty_fifo_put ofifo c).1;
                osem = (sem_wait t'.tty.osem t'.sched).0;
              };
              sched = (sem_wait t'.tty.osem t'.sched).1;
            },
          ))
        more
      ∙ ap
          (λ (r : Sem × Manager). some (
            (tty_fifo_put ofifo c).0,
            record t' {
              tty = record t'.tty { ofifo = (tty_fifo_put ofifo c).1; osem = r.0 };
              sched = r.1;
            },
          ))
          waited
      ∙ ap (λ b. some (b, u)) ok in
    (
      u,
      put,
      record {
        valid = valid;
        size = ap (λ (r : Bool × Fifo). r.1.size) (put_ok ofifo c lt) ∙ f.size;
        contents = appended ∙ ap (λ l. l ++ (c ∷ [])) f.contents;
        count = omega (
          arith,
          ap (λ (r : Bool × Fifo). r.1.count) (put_ok ofifo c lt),
          f.count,
          length-append chars (c ∷ []),
        );
        units = omega (arith, f.units, room, length-append chars (c ∷ []));
        waiters = f.waiters;
        con = f.con;
        mutex = f.mutex;
        sched = f.sched;
        input = f.input;
        ocrlf = f.ocrlf;
        inclr = f.inclr;
        iecho = f.iecho;
      },
    )

-- What a write leaves: the characters on the console, and the terminal as idle as before.
pub record Written (chars : List ℕ) (t t' : Terminal) : Type 0 where
  pub idle : IsIdle t'
  pub con : t'.con ≡ write_all t.con chars
  pub sched : t'.sched ≡ t.sched
  pub input : t'.tty.input ≡ t.tty.input
  pub ocrlf : t'.tty.ocrlf ≡ t.tty.ocrlf
  pub inclr : t'.tty.inclr ≡ t.tty.inclr
  pub iecho : t'.tty.iecho ≡ t.tty.iecho

-- `console_write` of what has been put.
pub console_write-Written :
    (chars : List ℕ) (t t' : Terminal)
    → IsIdle t
    → Filled chars t t'
    → Written chars t (console_write t').1
unfolding console_write
console_write-Written chars t t' idle f =
    let locked = mutex_lock t'.mutex t'.sched in
    let l : Terminal = record t' { mutex = locked.0; sched = locked.1 } in
    let (len, d) = drain-Drained t'.tty.ofifo.count l f.valid f.waiters refl in
    let u = (drain t'.tty.ofifo.count l).1 in
    let unlocked : mutex_unlock u.mutex u.sched ≡ (t.mutex, t.sched) =
      ap (λ x. mutex_unlock x u.sched) d.mutex
      ∙ ap (λ x. mutex_unlock locked.0 x) d.sched
      ∙ ap (λ x. mutex_unlock (mutex_lock x t'.sched).0 (mutex_lock x t'.sched).1) f.mutex
      ∙ ap (λ x. mutex_unlock (mutex_lock t.mutex x).0 (mutex_lock t.mutex x).1) f.sched
      ∙ mutex_unlock-mutex_lock t.mutex t.sched idle.mutex idle.owner in
    record {
      idle = record {
        valid = d.valid;
        size = d.size ∙ f.size;
        empty = d.empty;
        units = omega (arith, d.units, f.units, f.count);
        waiters = d.waiters;
        mutex = subst (λ (r : Mutex × Manager). Mutex.IsValid r.0) (sym unlocked) idle.mutex;
        owner =
            subst (λ (r : Mutex × Manager). (r.0.owner ≡ none) ⊎ (r.0.owner ≡ some r.1.curr_task))
              (sym unlocked) idle.owner;
      };
      con =
          d.con
          ∙ ap (λ c. write_all c (contents t'.tty.ofifo)) f.con
          ∙ ap (write_all t.con) f.contents;
      sched = ap (λ (r : Mutex × Manager). r.1) unlocked;
      input = d.input ∙ f.input;
      ocrlf = d.ocrlf ∙ f.ocrlf;
      inclr = d.inclr ∙ f.inclr;
      iecho = d.iecho ∙ f.iecho;
    }
