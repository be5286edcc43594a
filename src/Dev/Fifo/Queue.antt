-- ===== src/Dev/Fifo/Queue.antt =====
-- The ring buffer of kernel/dev/tty.c as the sequence of its characters.
use wjos.Common.{
  ℕ, zero, suc, ◌+◌, ◌-◌, ◌≤◌, ◌<◌, ◌≡◌, refl, ◌≢◌, inl, inr, true, Option, none, some, List, [],
  ◌∷◌, ◌++◌, arith, ltb, ◌==◌, if◌then◌else◌, Bool-cases, length, length-set, get_or, set,
  get_or-set_self, get_or-set_ne, ap, ◌∙◌,
}
use wjos.Dev.Fifo.{Fifo, next_index, tty_fifo_put, tty_fifo_get}

-- An index below twice the size, taken around.
abbrev pub wrap : ℕ → ℕ → ℕ
wrap size i = if ltb i size then i else i - size

pub record IsValid (f : Fifo) : Type 0 where
  pub sized : length f.buf ≡ f.size
  pub start : f.read < f.size
  pub bound : f.count ≤ f.size
  pub tail : f.write ≡ wrap f.size (f.read + f.count)

-- The `n` characters from index `i` on.
abbrev pub window : List ℕ → ℕ → ℕ → ℕ → List ℕ
window buf size i zero = []
window buf size i (suc n) = get_or buf i 0 ∷ window buf size (next_index size i) n

-- The characters in the buffer, oldest first.
abbrev pub contents : Fifo → List ℕ
contents f = window f.buf f.size f.read f.count

window-set :
    (buf : List ℕ) (size i n k c : ℕ)
    → i < size
    → n ≤ k
    → k < size
    → window (set buf (wrap size (i + k)) c) size i n ≡ window buf size i n
window-set buf size i zero k c lt le max = refl
window-set buf size i (suc n) k c lt le max =
    let same : wrap size (i + k) ≡ wrap size (next_index size i + (k - 1)) = ground arith in
    let rest : window (set buf (wrap size (i + k)) c) size (next_index size i) n
        ≡ window buf size (next_index size i) n =
      ap (λ w. window (set buf w c) size (next_index size i) n) same
      ∙ window-set buf size (next_index size i) n (k - 1) c (ground arith) (omega arith)
          (omega arith) in
    let ne : wrap size (i + k) ≢ i = ground arith in
    ap (λ x. x ∷ window (set buf (wrap size (i + k)) c) size (next_index size i) n)
      (get_or-set_ne buf (wrap size (i + k)) i c 0 ne)
    ∙ ap (λ l. get_or buf i 0 ∷ l) rest

window-snoc :
    (buf : List ℕ) (size i n : ℕ)
    → i < size
    → n < size
    → window buf size i (n + 1) ≡ window buf size i n ++ (get_or buf (wrap size (i + n)) 0 ∷ [])
window-snoc buf size i zero lt max = ap (λ k. get_or buf k 0 ∷ []) (ground arith)
window-snoc buf size i (suc n) lt max =
    let same : wrap size (next_index size i + n) ≡ wrap size (i + suc n) = ground arith in
    ap (λ k. window buf size i k) (the_count n)
    ∙ ap (λ l. get_or buf i 0 ∷ l)
        (window-snoc buf size (next_index size i) n (ground arith) (omega arith)
          ∙ ap (λ k. window buf size (next_index size i) n ++ (get_or buf k 0 ∷ [])) same)
  where
    the_count : (n : ℕ) → suc n + 1 ≡ suc (n + 1)
    the_count n = omega arith

pub put_ok :
    (f : Fifo) (c : ℕ)
    → f.count < f.size
    → tty_fifo_put f c ≡ (
      true,
      record f {
        buf = set f.buf f.write c;
        write = next_index f.size f.write;
        count = f.count + 1;
      },
    )
unfolding tty_fifo_put
put_ok f c lt = ground (arith, lt)

-- While there is room, a put succeeds and appends the character to the contents.
pub tty_fifo_put-contents :
    (f : Fifo) (c : ℕ)
    → IsValid f
    → f.count < f.size
    → ((tty_fifo_put f c).0 ≡ true)
      × IsValid (tty_fifo_put f c).1
      × (contents (tty_fifo_put f c).1 ≡ contents f ++ (c ∷ []))
tty_fifo_put-contents f c v lt = rw (put_ok f c lt) (
  refl,
  record {
    sized = length-set f.buf f.write c ∙ v.sized;
    start = v.start;
    bound = omega (arith, lt);
    tail = ground (arith, v.tail, v.start, lt);
  },
  ap (λ w. window (set f.buf w c) f.size f.read (f.count + 1)) v.tail
      ∙ window-snoc (set f.buf (wrap f.size (f.read + f.count)) c) f.size f.read f.count v.start lt
      ∙ ap
          (λ l.
            l
            ++ (get_or (set f.buf (wrap f.size (f.read + f.count)) c)
                  (wrap f.size (f.read + f.count)) 0
                ∷ []))
          (window-set f.buf f.size f.read f.count f.count c v.start (omega arith) lt)
      ∙ ap (λ x. contents f ++ (x ∷ []))
          (get_or-set_self f.buf (wrap f.size (f.read + f.count)) c 0
            (ground (arith, v.sized, v.start, lt))),
)

-- What a get comes to, with and without a character.
abbrev pub Got : Fifo → Option ℕ × Fifo → Type 0
Got f (none, f') = (contents f ≡ []) × (f' ≡ f)
Got f (some c, f') = IsValid f' × (contents f ≡ c ∷ contents f')

pub get_ok :
    (f : Fifo)
    → f.count ≢ 0
    → tty_fifo_get f ≡ (
      some (get_or f.buf f.read 0),
      record f { read = next_index f.size f.read; count = f.count - 1 },
    )
unfolding tty_fifo_get
get_ok f ne = ground (arith, ne)

get_empty : (f : Fifo) → f.count ≡ 0 → tty_fifo_get f ≡ (none, f)
unfolding tty_fifo_get
get_empty f e = ground (arith, e)

-- A get on a well-formed buffer fails, with nothing changed, where it is empty; else it gives the
-- oldest character and leaves the others in order.
pub tty_fifo_get-Got : (f : Fifo) → IsValid f → Got f (tty_fifo_get f)
tty_fifo_get-Got f v = elim (Bool-cases (f.count == 0)) [
  | inl e ↦
      let z : f.count ≡ 0 = ground (arith, e) in
      rw (get_empty f z) (ap (λ n. window f.buf f.size f.read n) z, refl)
  | inr e ↦
      let ne : f.count ≢ 0 = ground (arith, e) in
      rw (get_ok f ne) (
        record {
          sized = v.sized;
          start = ground (arith, v.start);
          bound = omega (arith, v.bound);
          tail = ground (arith, v.tail, v.start, v.bound, ne);
        },
        ap (λ n. window f.buf f.size f.read n) (the_suc f.count ne),
      )
]
  where
    the_suc : (n : ℕ) → n ≢ 0 → n ≡ suc (n - 1)
    the_suc n ne = omega (arith, ne)
