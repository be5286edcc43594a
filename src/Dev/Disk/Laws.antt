-- ===== src/Dev/Disk/Laws.antt =====
-- What the reads of kernel/dev/disk.c come to, on a controller that answers.
use wjos.Common.{
  ℕ, zero, suc, ◌+◌, ◌-◌, ◌*◌, ◌/◌, ◌<◌, ◌≡◌, refl, ap, ◌∙◌, sym, subst, inl, inr, ◌⊎◌, append-nil,
  Bool, true, false, Bool-cases, Option, some, List, [], ◌∷◌, ◌++◌, arith, replicate, append_assoc,
  if◌then◌else◌,
}
use wjos.Dev.Disk.{
  Event, Io, PartInfo, Disk, put, mutex_lock, mutex_unlock, sem_wait, is_waiting, has_err,
  disk_wait_data, words_from, disk_read_datas, disk_send_cmd,
}
use wjos.Dev.Disk.Transfer.{await, sector_at, read_cmd, read_rounds, disk_read}

module _ (status : ℕ → ℕ) where
  -- A wait ends, and the last status read says whether there was an error.
  record Waited (io : Io) (w : Option (Bool × Io)) : Type 0 where
    err : Bool
    last : Io
    result : w ≡ some (err, last)
    taken : last.taken ≡ io.taken
    events : last.events ≡ io.events
    reported : err ≡ has_err (status (last.asked - 1))

  stopped :
      (io : Io) → Waited io (some (has_err (status io.asked), record io { asked = io.asked + 1 }))
  stopped io =
      let here : io.asked + 1 - 1 ≡ io.asked = omega arith in
      record {
        err = has_err (status io.asked);
        last = record io { asked = io.asked + 1 };
        result = refl;
        taken = refl;
        events = refl;
        reported = ap (λ n. has_err (status n)) (sym here);
      }

  disk_wait_data-Waited :
      (fuel k : ℕ) (io : Io)
      → k < fuel
      → is_waiting (status (io.asked + k)) ≡ false
      → Waited io (disk_wait_data status fuel io)
  unfolding disk_wait_data
  disk_wait_data-Waited zero k io lt done = absurd (omega (arith, lt))
  disk_wait_data-Waited (suc fuel) zero io lt done =
      let here : io.asked + 0 ≡ io.asked = omega arith in
      rw (subst (λ n. is_waiting (status n) ≡ false) here done) (stopped io)
  disk_wait_data-Waited (suc fuel) (suc k) io lt done =
      let next : io.asked + suc k ≡ io.asked + 1 + k = omega arith in
      let w =
        disk_wait_data-Waited fuel k (record io { asked = io.asked + 1 }) (omega (arith, lt))
          (subst (λ n. is_waiting (status n) ≡ false) next done) in
      elim (Bool-cases (is_waiting (status io.asked))) [
        | inl e ↦ rw e (record {
          err = w.err;
          last = w.last;
          result = w.result;
          taken = w.taken;
          events = w.events;
          reported = w.reported;
        })
        | inr e ↦ rw e (stopped io)
      ]

abbrev pub waits : Bool → ℕ → List Event
waits running n = if running then replicate n sem_wait else []

words_from-append :
    (inw : ℕ → ℕ) (i a b : ℕ)
    → words_from inw i a ++ words_from inw (i + a) b ≡ words_from inw i (a + b)
words_from-append inw i zero b =
    let e : i + 0 ≡ i = omega arith in let e' : 0 + b ≡ b = omega arith in rw (e, e') refl
words_from-append inw i (suc a) b =
    let next : i + suc a ≡ i + 1 + a = omega arith in
    let total : suc a + b ≡ suc (a + b) = omega arith in
    rw (next, total) (ap (λ ws. inw i ∷ ws) (words_from-append inw (i + 1) a b))

await_taken : (running : Bool) (io : Io) → (await running io).taken ≡ io.taken
await_taken true io = refl
await_taken false io = refl

awaited :
    (running : Bool) (io : Io) (n : ℕ)
    → (await running io).events ++ waits running n ≡ io.events ++ waits running (suc n)
awaited true io n = append_assoc io.events (sem_wait ∷ []) (replicate n sem_wait)
awaited false io n = refl

unwaited : (running : Bool) (es : List Event) → es ≡ es ++ waits running 0
unwaited true es = sym (append-nil es)
unwaited false es = sym (append-nil es)

times_suc : (c k : ℕ) → k + c * k ≡ suc c * k
times_suc c k = omega arith

-- The words of one sector and of `c` further ones.
pub joined :
    (inw : ℕ → ℕ) (i j k c : ℕ) (ws : List ℕ)
    → j ≡ i
    → ws ≡ words_from inw (j + k) (c * k)
    → words_from inw j k ++ ws ≡ words_from inw i (suc c * k)
joined inw i j k c ws same e =
    ap (λ rest. words_from inw j k ++ rest) e
    ∙ words_from-append inw j k (c * k)
    ∙ rw (times_suc c k, same) refl

module _ (status inw : ℕ → ℕ) (running : Bool) where
  -- All sectors were transferred, or the last status was an error; each wait for the status has one
  -- for the interrupt.
  abbrev pub Ended : ℕ → ℕ → Io → List Event → Type 0
  Ended count size last es =
      ((count ≡ size) × (last.events ≡ es ++ waits running size))
      ⊎ ((count < size)
          × (has_err (status (last.asked - 1)) ≡ true)
          × (last.events ≡ es ++ waits running (suc count)))

  more :
      (count size : ℕ) (last between io : Io)
      → Ended count size last between.events
      → between.events ≡ (await running io).events
      → Ended (suc count) (suc size) last io.events
  more count size last between io (inl (all, ev)) e =
      inl (ap suc all, ev ∙ ap (λ es. es ++ waits running size) e ∙ awaited running io size)
  more count size last between io (inr (some_left, err, ev)) e = inr (
    omega (arith, some_left),
    err,
    ev ∙ ap (λ es. es ++ waits running (suc count)) e ∙ awaited running io (suc count),
  )

  -- Sectors read: the words are those that the data port gave, in order, up to the end.
  record Sectors (disk : Disk) (size : ℕ) (io : Io) (r : Option (ℕ × List ℕ × Io)) : Type 0 where
    count : ℕ
    words : List ℕ
    last : Io
    result : r ≡ some (count, words, last)
    read : words ≡ words_from inw io.taken (count * (disk.sector_size / 2))
    taken : last.taken ≡ io.taken + count * (disk.sector_size / 2)
    ended : Ended count size last io.events

  -- What a read of a partition's sectors comes to: the count of the sectors read, whose words are
  -- those that the data port gave; before it the mutex is taken and the command written, and the
  -- mutex is given back behind the last wait.
  pub record Read (disk : Disk) (part : PartInfo) (addr size : ℕ) (io : Io)
      (r : Option (Option ℕ × List ℕ × Io)) : Type 0 where
    pub count : ℕ
    pub words : List ℕ
    pub before : Io
    pub result : r ≡ some (some count, words, put mutex_unlock before)
    pub read : words ≡ words_from inw io.taken (count * (disk.sector_size / 2))
    pub ended :
        Ended count size before
          (disk_send_cmd disk (sector_at part addr) size read_cmd (put mutex_lock io)).events

  module _ (fuel : ℕ) (polls : ℕ → ℕ) (below : (i : ℕ) → polls i < fuel)
      (answers : (i : ℕ) → is_waiting (status (i + polls i)) ≡ false) where
    read_rounds-Sectors :
        (disk : Disk) (size : ℕ) (io : Io)
        → Sectors disk size io (read_rounds status inw running fuel disk size io)
    unfolding read_rounds disk_read_datas
    read_rounds-Sectors disk zero io = record {
      count = 0;
      words = [];
      last = io;
      result = refl;
      read = let z : 0 * (disk.sector_size / 2) ≡ 0 = omega arith in rw z refl;
      taken = omega arith;
      ended = inl (refl, unwaited running io.events);
    }
    read_rounds-Sectors disk (suc size) io =
        let ready = await running io in
        let w =
          disk_wait_data-Waited status fuel (polls ready.asked) ready (below ready.asked)
            (answers ready.asked) in
        let rest = read_rounds-Sectors disk size (disk_read_datas inw disk.sector_size w.last).1 in
        elim (Bool-cases w.err) [
          | inl e ↦
              rw (read_rounds, w.result, e)
                (record {
                  count = 0;
                  words = [];
                  last = w.last;
                  result = refl;
                  read = let z : 0 * (disk.sector_size / 2) ≡ 0 = omega arith in rw z refl;
                  taken = omega (arith, w.taken, await_taken running io);
                  ended = inr (
                    omega arith,
                    sym w.reported ∙ e,
                    w.events ∙ unwaited running ready.events ∙ awaited running io 0,
                  );
                })
          | inr e ↦
              rw (read_rounds, w.result, e, rest.result)
                (record {
                  count = suc rest.count;
                  words = words_from inw w.last.taken (disk.sector_size / 2) ++ rest.words;
                  last = rest.last;
                  result = refl;
                  read =
                      joined inw io.taken w.last.taken (disk.sector_size / 2) rest.count rest.words
                        (w.taken ∙ await_taken running io) rest.read;
                  taken = omega (
                    arith,
                    rest.taken,
                    w.taken,
                    await_taken running io,
                    times_suc rest.count (disk.sector_size / 2),
                  );
                  ended = more rest.count size rest.last w.last io rest.ended w.events;
                })
        ]

    -- On a controller that answers within the fuel, a read of a partition that has a disk returns.
    -- It takes the mutex, writes the command for the partition's sector, and gives the mutex back
    -- last. The words are those that the data port gave for the sectors read; these are all, or the
    -- last status was an error; there is one wait for the interrupt for each sector, and one more for
    -- an error, where a task runs, and none elsewhere.
    pub disk_read-Read :
        (disk_buf : ℕ → Disk) (part : PartInfo) (i addr size : ℕ) (io : Io)
        → part.disk ≡ some i
        → Read
            (disk_buf i)
            part
            addr
            size
            io
            (disk_read status inw running fuel disk_buf part addr size io)
    unfolding disk_read disk_send_cmd
    disk_read-Read disk_buf part i addr size io there =
        let sent =
          disk_send_cmd (disk_buf i) (sector_at part addr) size read_cmd (put mutex_lock io) in
        let s = read_rounds-Sectors (disk_buf i) size sent in
        rw (disk_read, there, s.result)
          (record {
            count = s.count;
            words = s.words;
            before = s.last;
            result = refl;
            read = s.read;
            ended = s.ended;
          })
