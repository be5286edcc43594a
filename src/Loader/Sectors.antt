-- ===== src/Loader/Sectors.antt =====
-- What `read_disk` of loader/loader_32.c reads, on a disk that becomes ready.
use wjos.Common.{
  ℕ, zero, suc, ◌+◌, ◌*◌, ◌^◌, ◌<◌, ◌≡◌, refl, inl, inr, true, Option, some, List, [], ◌++◌, arith,
  Bool-cases, subst, ap, ◌∙◌,
}
use wjos.Dev.Disk.{Io, put_all, words_from}
use wjos.Dev.Disk.Laws.{joined}
use wjos.Dev.Disk.Command.{Registers, registers, registers-append, sector_of, count_of}
use wjos.Loader.Boot.{command, is_ready, wait_ready, read_rest, read_disk}

-- A wait that ends.
record Ready (io : Io) (r : Option Io) : Type 0 where
  last : Io
  result : r ≡ some last
  taken : last.taken ≡ io.taken
  events : last.events ≡ io.events

-- The words of some sectors, from the first that the port gives.
record Sectors (inw : ℕ → ℕ) (count : ℕ) (io : Io) (r : Option (List ℕ × Io)) : Type 0 where
  words : List ℕ
  last : Io
  result : r ≡ some (words, last)
  read : words ≡ words_from inw io.taken (count * 256)
  events : last.events ≡ io.events

module _ (status inw : ℕ → ℕ) (fuel : ℕ) where
  wait_ready-Ready :
      (rounds k : ℕ) (io : Io)
      → k < rounds
      → is_ready status inw fuel (status (io.asked + k)) ≡ true
      → Ready io (wait_ready status inw fuel rounds io)
  unfolding wait_ready
  wait_ready-Ready zero k io lt done = absurd (omega (arith, lt))
  wait_ready-Ready (suc rounds) zero io lt done =
      let here : io.asked + 0 ≡ io.asked = omega arith in
      let now = subst (λ n. is_ready status inw fuel (status n) ≡ true) here done in
      rw now (record {
        last = record io { asked = io.asked + 1 };
        result = refl;
        taken = refl;
        events = refl;
      })
  wait_ready-Ready (suc rounds) (suc k) io lt done =
      let next : io.asked + suc k ≡ io.asked + 1 + k = omega arith in
      let w =
        wait_ready-Ready rounds k (record io { asked = io.asked + 1 }) (omega (arith, lt))
          (subst (λ n. is_ready status inw fuel (status n) ≡ true) next done) in
      elim (Bool-cases (is_ready status inw fuel (status io.asked))) [
        | inl e ↦ rw e (record {
          last = record io { asked = io.asked + 1 };
          result = refl;
          taken = refl;
          events = refl;
        })
        | inr e ↦
            rw e (record { last = w.last; result = w.result; taken = w.taken; events = w.events })
      ]

  module _ (polls : ℕ → ℕ) (below : (i : ℕ) → polls i < fuel)
      (answers : (i : ℕ) → is_ready status inw fuel (status (i + polls i)) ≡ true) where
    read_rest-Sectors :
        (count : ℕ) (io : Io) → Sectors inw count io (read_rest status inw fuel count io)
    unfolding read_rest
    read_rest-Sectors zero io = record {
      words = [];
      last = io;
      result = refl;
      read = refl;
      events = refl;
    }
    read_rest-Sectors (suc count) io =
        let w = wait_ready-Ready fuel (polls io.asked) io (below io.asked) (answers io.asked) in
        let rest = read_rest-Sectors count (record w.last { taken = w.last.taken + 256 }) in
        rw (read_rest, w.result, rest.result)
          (record {
            words = words_from inw w.last.taken 256 ++ rest.words;
            last = rest.last;
            result = refl;
            read = joined inw io.taken w.last.taken 256 count rest.words w.taken rest.read;
            events = rest.events ∙ w.events;
          })

    -- What a read of the disk comes to: all the words, and in the controller's registers the sector and
    -- the count.
    pub record DiskRead (r : Registers) (sector count : ℕ) (io : Io) (o : Option (List ℕ × Io))
        : Type 0 where
      pub last : Io
      pub result : o ≡ some (words_from inw io.taken (count * 256), last)
      pub at_sector : sector_of (registers r last.events) ≡ sector
      pub of_count : count_of (registers r last.events) ≡ count

    -- On a disk that becomes ready within the fuel, a read of sectors returns with all their words, in
    -- the order in which the port gives them, and the controller has read the number of the sector,
    -- below 2^32, and the count, below 2^16, from what was written to it.
    pub read_disk-DiskRead :
        (r : Registers) (sector count : ℕ) (io : Io)
        → sector < 2 ^ 32
        → count < 2 ^ 16
        → DiskRead r sector count io (read_disk status inw fuel sector count io)
    unfolding read_disk
    read_disk-DiskRead r sector count io ls lc =
        let s = read_rest-Sectors count (put_all (command sector count) io) in
        record {
          last = s.last;
          result = s.result ∙ ap (λ ws. some (ws, s.last)) s.read;
          at_sector = rw (s.events, registers-append) (omega (arith, ls));
          of_count = rw (s.events, registers-append) (omega (arith, lc));
        }
