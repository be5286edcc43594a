-- ===== src/Memory/Alloc/Owners.antt =====
-- Any sequence of page allocations and releases, with the addresses that callers hold.
use wjos.Common.{
  ℕ, ◌+◌, ◌-◌, ◌*◌, ◌%◌, ◌<◌, ◌≡◌, refl, ◌≢◌, ◌⊎◌, inl, inr, List, [], ◌∷◌, arith, ◌==◌,
  if◌then◌else◌, Bool-cases, All,
}
use wjos.Common.Words.{pow_pos}
use wjos.Bitmap.{get_bit}
use wjos.Memory.Alloc.{AddrAlloc, mem_page_size, addr_alloc_page, addr_free_page}
use wjos.Memory.Alloc.Pages.{
  IsValid, page_addr, Handed, Exhausted, addr_alloc_page_lem, addr_free_page-clears,
  addr_free_page-keeps,
}

abbrev pub count : ℕ → List ℕ → ℕ
count a [] = 0
count a (x ∷ xs) = (if a == x then 1 else 0) + count a xs

abbrev pub erase : ℕ → List ℕ → List ℕ
erase a [] = []
erase a (x ∷ xs) = if a == x then xs else x ∷ erase a xs

count-erase :
    (a b : ℕ) (xs : List ℕ) → count b (erase a xs) ≡ (if b == a then count b xs - 1 else count b xs)
count-erase a b [] = ground arith
count-erase a b (x ∷ xs) = ground (arith, count-erase a b xs)

All-erase : (P : ℕ → Type 0) (a : ℕ) (xs : List ℕ) → All P xs → All P (erase a xs)
All-erase P a [] h = h
All-erase P a (x ∷ xs) h = elim (Bool-cases (a == x)) [
  | inl e ↦ rw (e, if◌then◌else◌) h.1
  | inr e ↦ rw (e, if◌then◌else◌) (h.0, All-erase P a xs h.1)
]

All-count : (P : ℕ → Type 0) (a : ℕ) (xs : List ℕ) → All P xs → count a xs ≢ 0 → P a
All-count P a [] h c = absurd (c refl)
All-count P a (x ∷ xs) h c = elim (Bool-cases (a == x)) [
  | inl e ↦ let same : a ≡ x = ground arith in rw same h.0
  | inr e ↦ All-count P a xs h.1 (ground arith)
]

pub record Pool : Type 0 where
  pub alloc : AddrAlloc
  pub held : List ℕ

-- One call: a page is handed out, none is left, or a holder gives a page back.
pub data Step (p : Pool) (q : Pool) : Type 0 where
  take_page :
      (addr : ℕ) (a : AddrAlloc)
      → addr_alloc_page p.alloc 1 ≡ (addr, a)
      → addr ≢ 0
      → q ≡ record { alloc = a; held = addr ∷ p.held }
      → Step p q
  no_page :
      (a : AddrAlloc) → addr_alloc_page p.alloc 1 ≡ (0, a) → q ≡ record p { alloc = a } → Step p q
  give_back :
      (addr : ℕ)
      → count addr p.held ≢ 0
      → q ≡ record { alloc = addr_free_page p.alloc addr 1; held = erase addr p.held }
      → Step p q

pub data Reach (p : Pool) : Pool → Type 0 where
  here : Reach p p
  next : {q r : Pool} → Reach p q → Step q r → Reach p r

-- A page is held once if its bit is set and not at all if it is clear; what is held is a page.
pub record IsConsistent (start n : ℕ) (p : Pool) : Type 0 where
  pub valid : IsValid p.alloc
  pub start_eq : p.alloc.start ≡ start
  pub count_eq : p.alloc.bitmap.bit_count ≡ n
  pub once :
      (i : ℕ)
      → i < n
      → count (start + i * mem_page_size) p.held ≡ (if get_bit p.alloc.bitmap i == 0 then 0 else 1)
  pub pages : All (λ addr. (i : ℕ) × (i < n) × (addr ≡ start + i * mem_page_size)) p.held

module _ (start n : ℕ) (p : Pool) (c : IsConsistent start n p) where
  take_page-IsConsistent :
      (i addr : ℕ) (a : AddrAlloc)
      → Handed p.alloc i addr a
      → IsConsistent start n (record { alloc = a; held = addr ∷ p.held })
  take_page-IsConsistent i addr a h = record {
    valid = h.valid;
    start_eq = omega (arith, h.same_start, c.start_eq);
    count_eq = omega (arith, h.same_count, c.count_eq);
    once = λ j lt.
        ground (arith, h.after j, h.was_free, h.addr_eq, c.once j lt, c.start_eq, pow_pos (j % 8));
    pages =
        ((i, omega (arith, h.inside, c.count_eq), omega (arith, h.addr_eq, c.start_eq)), c.pages);
  }

  give_back_page :
      (i : ℕ)
      → i < n
      → count (page_addr p.alloc i) p.held ≢ 0
      → IsConsistent start n (record {
        alloc = addr_free_page p.alloc (page_addr p.alloc i) 1;
        held = erase (page_addr p.alloc i) p.held;
      })
  give_back_page i lt held =
      let inside : i < p.alloc.bitmap.bit_count = omega (arith, c.count_eq) in
      let freed = addr_free_page-clears p.alloc c.valid i inside in
      let kept = addr_free_page-keeps p.alloc c.valid (page_addr p.alloc i) 1 in
      record {
        valid = freed.0;
        start_eq = omega (arith, kept.0, c.start_eq);
        count_eq = omega (arith, kept.1, c.count_eq);
        once = λ j le. ground (
          arith,
          freed.1 j,
          c.once j le,
          c.start_eq,
          count-erase (page_addr p.alloc i) (start + j * mem_page_size) p.held,
        );
        pages = All-erase _ (page_addr p.alloc i) p.held c.pages;
      }

  give_back-IsConsistent :
      (addr : ℕ)
      → count addr p.held ≢ 0
      → IsConsistent start n
          (record { alloc = addr_free_page p.alloc addr 1; held = erase addr p.held })
  give_back-IsConsistent addr held =
      let (i, lt, e) = All-count _ addr p.held c.pages held in
      let same : addr ≡ page_addr p.alloc i = omega (arith, c.start_eq) in
      rw same (give_back_page i lt (rw same at held))

  no_page-IsConsistent :
      (a : AddrAlloc) → Exhausted p.alloc 0 a → IsConsistent start n (record p { alloc = a })
  no_page-IsConsistent a x = rw x.same c

  -- No page that is held is handed out again.
  take_page-fresh : (i addr : ℕ) (a : AddrAlloc) → Handed p.alloc i addr a → count addr p.held ≡ 0
  take_page-fresh i addr a h = ground (
    arith,
    h.addr_eq,
    h.inside,
    h.was_free,
    c.once i (omega (arith, h.inside, c.count_eq)),
    c.start_eq,
    c.count_eq,
  )

  take_page-cases :
      (addr : ℕ) (a : AddrAlloc)
      → addr_alloc_page p.alloc 1 ≡ (addr, a)
      → ((i : ℕ) × Handed p.alloc i addr a) ⊎ Exhausted p.alloc addr a
  take_page-cases addr a e = rw e at (addr_alloc_page_lem p.alloc c.valid)

  Step-IsConsistent : {q : Pool} → Step p q → IsConsistent start n q
  Step-IsConsistent (take_page addr a e ne q_eq) = elim (take_page-cases addr a e) [
    | inl (i, h) ↦ rw q_eq (take_page-IsConsistent i addr a h)
    | inr x ↦ absurd (ne x.null)
  ]
  Step-IsConsistent (no_page a e q_eq) = elim (take_page-cases 0 a e) [
    | inl (i, h) ↦ absurd (omega (arith, h.addr_eq, c.valid.above))
    | inr x ↦ rw q_eq (no_page-IsConsistent a x)
  ]
  Step-IsConsistent (give_back addr held q_eq) = rw q_eq (give_back-IsConsistent addr held)

-- Every state that calls reach from a consistent one is consistent.
pub Reach-IsConsistent :
    (start n : ℕ) (p : Pool) {q : Pool}
    → IsConsistent start n p
    → Reach p q
    → IsConsistent start n q
Reach-IsConsistent start n p c here = c
Reach-IsConsistent start n p c (next {q = q} r st) =
    Step-IsConsistent start n q (Reach-IsConsistent start n p c r) st

-- However pages were taken and given back before, an address that `addr_alloc_page` returns is
-- held by nobody.
pub addr_alloc_page-fresh :
    (start n : ℕ) (p q : Pool) (addr : ℕ) (a : AddrAlloc)
    → IsConsistent start n p
    → Reach p q
    → addr_alloc_page q.alloc 1 ≡ (addr, a)
    → addr ≢ 0
    → count addr q.held ≡ 0
addr_alloc_page-fresh start n p q addr a c r e ne =
    let d = Reach-IsConsistent start n p c r in
    elim (take_page-cases start n q d addr a e) [
      | inl (i, h) ↦ take_page-fresh start n q d i addr a h
      | inr x ↦ absurd (ne x.null)
    ]

-- It fails only where every page is held.
pub addr_alloc_page-exhausted :
    (start n : ℕ) (p q : Pool) (a : AddrAlloc)
    → IsConsistent start n p
    → Reach p q
    → addr_alloc_page q.alloc 1 ≡ (0, a)
    → (i : ℕ) → i < n
    → count (start + i * mem_page_size) q.held ≡ 1
addr_alloc_page-exhausted start n p q a c r e i lt =
    let d = Reach-IsConsistent start n p c r in
    elim (take_page-cases start n q d 0 a e) [
      | inl (k, h) ↦ absurd (omega (arith, h.addr_eq, d.valid.above))
      | inr x ↦ ground (arith, d.once i lt, x.full i (omega (arith, d.count_eq)))
    ]
