-- ===== src/Memory/Table/Space.antt =====
-- An address space: its page directory, its tables, and the pages that are still free.
use Prim.Native.Nat.{bit_or}
use wjos.Common.{
  ℕ, ◌+◌, ◌*◌, ◌/◌, ◌%◌, ◌<◌, ◌≡◌, ◌≢◌, inl, inr, true, false, Bool, arith, ◌==◌, if◌then◌else◌,
  Bool-cases, ap, ◌∙◌, ◌^◌, ltb, leb, ◌&&◌,
}
use wjos.Common.Bits.{bit_or-low}
use wjos.Common.Words.{pow_pos}
use wjos.Bitmap.{get_bit}
use wjos.Memory.Alloc.{AddrAlloc, mem_page_size}
use wjos.Memory.Alloc.Pages
use wjos.Memory.Alloc.Pages.{page_addr, Handed, Exhausted, addr_alloc_page_lem}
use wjos.Memory.Table.{Memory, pte_p, pte_w, pte_u, present, pde_paddr, grow}

-- The table that directory slot `i` points to.
abbrev pub table : Memory → ℕ → ℕ → ℕ
table m dir i = pde_paddr (m.word (dir + 4 * i))

abbrev pub has_table : Memory → ℕ → ℕ → Bool
has_table m dir i = present (m.word (dir + 4 * i))

pub record IsSpace (m : Memory) (dir : ℕ) : Type 0 where
  pub valid : Pages.IsValid m.alloc
  pub aligned : dir % mem_page_size ≡ 0
  pub pages_aligned : m.alloc.start % mem_page_size ≡ 0
  pub apart : (i : ℕ) → i < 1024 → has_table m dir i ≡ true → table m dir i ≢ dir
  pub distinct :
      (i j : ℕ)
      → i < 1024
      → j < 1024
      → has_table m dir i ≡ true
      → has_table m dir j ≡ true
      → table m dir i ≡ table m dir j
      → i ≡ j
  pub free_dir :
      (p : ℕ)
      → p < m.alloc.bitmap.bit_count
      → get_bit m.alloc.bitmap p ≡ 0
      → page_addr m.alloc p ≢ dir
  pub free_table :
      (p i : ℕ)
      → p < m.alloc.bitmap.bit_count
      → get_bit m.alloc.bitmap p ≡ 0
      → i < 1024
      → has_table m dir i ≡ true
      → page_addr m.alloc p ≢ table m dir i

-- Entry `j` of the table in directory slot `i`: 0 where the slot has no table.
abbrev pub entry_at : Memory → ℕ → ℕ → ℕ → ℕ
entry_at m dir i j = if has_table m dir i then m.word (table m dir i + 4 * j) else 0

-- The flags of a new directory entry, below a page address.
flags : (pg : ℕ) → pg % 4096 ≡ 0 → bit_or (bit_or (bit_or pg pte_p) pte_w) pte_u ≡ pg + 7
flags pg h =
    let whole : pg ≡ pg / 8 * 2 ^ 3 + 0 = omega arith in
    let one : bit_or pg 1 ≡ pg / 8 * 2 ^ 3 + 1 =
      ap (λ x. bit_or x 1) whole ∙ bit_or-low 3 (pg / 8) 0 1 (omega arith) (omega arith) in
    let two : bit_or (bit_or pg 1) 2 ≡ pg / 8 * 2 ^ 3 + 3 =
      ap (λ x. bit_or x 2) one ∙ bit_or-low 3 (pg / 8) 1 2 (omega arith) (omega arith) in
    let four : bit_or (bit_or (bit_or pg 1) 2) 4 ≡ pg / 8 * 2 ^ 3 + 7 =
      ap (λ x. bit_or x 4) two ∙ bit_or-low 3 (pg / 8) 3 4 (omega arith) (omega arith) in
    omega (arith, four)

-- Two aligned pages that differ do not meet.
apart_pages :
    (p q a : ℕ)
    → p % 4096 ≡ 0
    → q % 4096 ≡ 0
    → p ≢ q
    → a < 4096
    → (leb p (q + a) && ltb (q + a) (p + 4096)) ≡ false
apart_pages p q a hp hq ne h = ground arith

module _ (m : Memory) (dir : ℕ) (s : IsSpace m dir) (k pg : ℕ) (a : AddrAlloc) (hk : k < 1024)
    (missing : has_table m dir k ≡ false) (p : ℕ) (handed : Handed m.alloc p pg a) where
  -- The memory with a new table at page `pg` in directory slot `k`.
  abbrev grown : Memory
  grown = grow m (dir + 4 * k) pg a

  pg_aligned : pg % 4096 ≡ 0
  pg_aligned = omega (arith, handed.addr_eq, s.pages_aligned)

  pg_dir : pg ≢ dir
  pg_dir e = s.free_dir p handed.inside handed.was_free (omega (arith, handed.addr_eq))

  pg_table : (i : ℕ) → i < 1024 → has_table m dir i ≡ true → pg ≢ table m dir i
  pg_table i h t e =
      s.free_table p i handed.inside handed.was_free h t (omega (arith, handed.addr_eq))

  word_dir :
      (i : ℕ)
      → i < 1024
      → grown.word (dir + 4 * i) ≡ (if i == k then pg + 7 else m.word (dir + 4 * i))
  unfolding grow
  word_dir i h = ground (
    arith,
    apart_pages pg dir (4 * i) pg_aligned s.aligned pg_dir (omega arith),
    flags pg pg_aligned,
  )

  word_other :
      (q x : ℕ) → q % 4096 ≡ 0 → q ≢ dir → pg ≢ q → x < 4096 → grown.word (q + x) ≡ m.word (q + x)
  unfolding grow
  word_other q x hq nd np h = ground (arith, apart_pages pg q x pg_aligned hq np h, s.aligned)

  word_new : (x : ℕ) → x < 4096 → grown.word (pg + x) ≡ 0
  unfolding grow
  word_new x h = ground arith

  word_table :
      (i j : ℕ)
      → i < 1024
      → j < 1024
      → has_table m dir i ≡ true
      → grown.word (table m dir i + 4 * j) ≡ m.word (table m dir i + 4 * j)
  word_table i j hi hj t =
      word_other (table m dir i) (4 * j) (omega arith) (s.apart i hi t) (pg_table i hi t)
        (omega arith)

  -- No entry changes when a table is added.
  pub grown-entry_at : (i j : ℕ) → i < 1024 → j < 1024 → entry_at grown dir i j ≡ entry_at m dir i j
  grown-entry_at i j hi hj = elim (Bool-cases (i == k)) [
    | inl e ↦
        let same : i ≡ k = ground arith in
        let new : grown.word (dir + 4 * i) ≡ pg + 7 = ground (arith, word_dir i hi) in
        let low : (pg + 7) / 4096 * 4096 ≡ pg = omega (arith, pg_aligned) in
        rw (new, low, word_new (4 * j) (omega arith)) (ground (arith, missing))
    | inr e ↦
        let old : grown.word (dir + 4 * i) ≡ m.word (dir + 4 * i) = ground (arith, word_dir i hi) in
        rw old (ground (arith, word_table i j hi hj))
  ]

  pub has_table-grown :
      (i : ℕ) → i < 1024 → has_table grown dir i ≡ (if i == k then true else has_table m dir i)
  has_table-grown i hi = ground (arith, word_dir i hi, pg_aligned)

  pub table-grown : (i : ℕ) → i < 1024 → table grown dir i ≡ (if i == k then pg else table m dir i)
  table-grown i hi = ground (arith, word_dir i hi, pg_aligned)

  grown-apart : (i : ℕ) → i < 1024 → has_table grown dir i ≡ true → table grown dir i ≢ dir
  grown-apart i hi t = elim (Bool-cases (i == k)) [
    | inl e ↦ λ h. pg_dir (ground (arith, table-grown i hi))
    | inr e ↦
        λ h. s.apart i hi (ground (arith, has_table-grown i hi)) (ground (arith, table-grown i hi))
  ]

  grown-distinct :
      (i j : ℕ)
      → i < 1024
      → j < 1024
      → has_table grown dir i ≡ true
      → has_table grown dir j ≡ true
      → table grown dir i ≡ table grown dir j
      → i ≡ j
  grown-distinct i j hi hj t u e = elim (Bool-cases (i == k)) [
    | inl x ↦ elim (Bool-cases (j == k)) [
      | inl y ↦ ground arith
      | inr y ↦ absurd (
          pg_table j hj (ground (arith, has_table-grown j hj))
            (ground (arith, table-grown i hi, table-grown j hj)))
    ]
    | inr x ↦ elim (Bool-cases (j == k)) [
      | inl y ↦ absurd (
          pg_table i hi (ground (arith, has_table-grown i hi))
            (ground (arith, table-grown i hi, table-grown j hj)))
      | inr y ↦
          s.distinct i j hi hj (ground (arith, has_table-grown i hi))
            (ground (arith, has_table-grown j hj))
            (ground (arith, table-grown i hi, table-grown j hj))
    ]
  ]

  -- A page that is free after was free before, and is not the new table.
  still_free :
      (q : ℕ)
      → q < a.bitmap.bit_count
      → get_bit a.bitmap q ≡ 0
      → (q < m.alloc.bitmap.bit_count) × (get_bit m.alloc.bitmap q ≡ 0) × (q ≢ p)
  still_free q hq f = ground (arith, handed.same_count, handed.after q, pow_pos (q % 8))

  grown-free_table :
      (q i : ℕ)
      → q < a.bitmap.bit_count
      → get_bit a.bitmap q ≡ 0
      → i < 1024
      → has_table grown dir i ≡ true
      → page_addr a q ≢ table grown dir i
  grown-free_table q i hq f hi t = elim (Bool-cases (i == k)) [
    | inl e ↦ λ h.
        (still_free q hq f).2 (ground (arith, table-grown i hi, handed.addr_eq, handed.same_start))
    | inr e ↦ λ h.
        s.free_table q i (still_free q hq f).0 (still_free q hq f).1 hi
          (ground (arith, has_table-grown i hi))
          (ground (arith, table-grown i hi, handed.same_start))
  ]

  pub grown-IsSpace : IsSpace grown dir
  unfolding grow
  grown-IsSpace = record {
    valid = handed.valid;
    aligned = s.aligned;
    pages_aligned = omega (arith, handed.same_start, s.pages_aligned);
    apart = grown-apart;
    distinct = grown-distinct;
    free_dir = λ q hq f e.
        s.free_dir q (still_free q hq f).0 (still_free q hq f).1 (omega (arith, handed.same_start));
    free_table = grown-free_table;
  }
