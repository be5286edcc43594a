-- ===== src/Memory/Table/Map.antt =====
-- `memory_create_map`: the entries that it writes, and those that it leaves.
use Prim.Native.Nat.{bit_or, bit_or-bitwise}
use wjos.Common.{
  ℕ, ◌+◌, ◌-◌, ◌*◌, ◌/◌, ◌%◌, ◌^◌, ◌≤◌, ◌<◌, ◌≡◌, inl, inr, true, false, ◌&&◌, Option, none, some,
  arith, ltb, leb, ◌==◌, if◌then◌else◌, Bool-cases, ap, ◌∙◌, subst,
}
use wjos.Common.Words.{u32_mod}
use wjos.Common.Bits.{bit_or-low}
use wjos.Memory.Alloc.{mem_page_size}
use wjos.Memory.Table.{
  Memory, pte_p, pde_index, pte_index, present, store, Outcome, mapped, map_entry,
}
use wjos.Memory.Table.Walk.{Walked, Walk}
use wjos.Memory.Table.Space.{IsSpace, table, has_table, entry_at}

-- The entry of page `n` of the address space, for `n` below 2^20.
abbrev pub entry : Memory → ℕ → ℕ → ℕ
entry m dir n = entry_at m dir (n / 1024) (n % 1024)

or_value :
    (paddr perm : ℕ)
    → paddr % 4096 ≡ 0
    → perm < 4096
    → bit_or (bit_or paddr perm) pte_p ≡ paddr + bit_or perm pte_p
or_value paddr perm h small =
    let whole : paddr ≡ paddr / 4096 * 2 ^ 12 + 0 = omega arith in
    let low : bit_or paddr perm ≡ paddr / 4096 * 2 ^ 12 + perm =
      ap (λ x. bit_or x perm) whole
      ∙ bit_or-low 12 (paddr / 4096) 0 perm (omega arith) (omega arith)
      ∙ ap (λ x. paddr / 4096 * 2 ^ 12 + x) (bit_or-bitwise 0 perm) in
    let all : bit_or (bit_or paddr perm) 1 ≡ paddr / 4096 * 2 ^ 12 + bit_or perm 1 =
      ap (λ x. bit_or x 1) low ∙ bit_or-low 12 (paddr / 4096) perm 1 (omega arith) (omega arith) in
    omega (arith, all)

module _ (m : Memory) (dir i j v : ℕ) (s : IsSpace m dir) (hi : i < 1024) (hj : j < 1024)
    (t : has_table m dir i ≡ true) where
  abbrev written : ℕ → ℕ
  written = store m.word (table m dir i + 4 * j) v

  written-dir : (k : ℕ) → k < 1024 → written (dir + 4 * k) ≡ m.word (dir + 4 * k)
  written-dir k hk = ground (arith, s.apart i hi t, s.aligned)

  abbrev after : Memory
  after = record m { word = written }

  written-entry_at :
      (i' j' : ℕ)
      → i' < 1024
      → j' < 1024
      → entry_at after dir i' j' ≡ (if i' == i && j' == j then v else entry_at m dir i' j')
  written-entry_at i' j' hi' hj' = rw (written-dir i' hi') (elim (Bool-cases (i' == i)) [
    | inl e ↦ let same : i' ≡ i = ground arith in rw (same, t) (ground arith)
    | inr e ↦ elim (Bool-cases (has_table m dir i')) [
      | inl u ↦ rw u (ground (arith, s.distinct i' i hi' hi u t))
      | inr u ↦ rw u (ground arith)
    ]
  ])

  written-IsSpace : IsSpace after dir
  written-IsSpace = record {
    valid = s.valid;
    aligned = s.aligned;
    pages_aligned = s.pages_aligned;
    apart = λ k hk. rw (written-dir k hk) (s.apart k hk);
    distinct = λ k l hk hl. rw (written-dir k hk, written-dir l hl) (s.distinct k l hk hl);
    free_dir = s.free_dir;
    free_table = λ q k hq f hk. rw (written-dir k hk) (s.free_table q k hq f hk);
  }

-- The entries after `count` pages from page `first` on were mapped to memory from `paddr` on.
abbrev pub mapped_entry : Memory → ℕ → ℕ → ℕ → ℕ → ℕ → ℕ → ℕ
mapped_entry m dir first paddr count perm n =
    if leb first n && ltb n (first + count)
    then paddr + (n - first) * mem_page_size + bit_or perm pte_p
    else entry m dir n

module _ (dir : ℕ) where
  pub record Mapped (m : Memory) (first paddr count perm : ℕ) (m' : Memory) : Type 0 where
    pub space : IsSpace m' dir
    pub entries :
        (n : ℕ) → n < 0x10_0000 → entry m' dir n ≡ mapped_entry m dir first paddr count perm n
    pub unused : (n : ℕ) → first ≤ n → n < first + count → present (entry m dir n) ≡ false

  same_page :
      (n first : ℕ)
      → (((n / 1024) == (first / 1024)) && ((n % 1024) == (first % 1024))) ≡ (n == first)
  same_page n first = ground arith

  one_page : (n first : ℕ) → (leb first n && ltb n (first + 1)) ≡ (n == first)
  one_page n first = ground arith

  pick :
      (n first value p old e : ℕ)
      → value ≡ p + e
      → (if n == first then value else old)
        ≡ (if n == first then p + (n - first) * mem_page_size + e else old)
  pick n first value p old h = ground arith

  -- The round that writes: `pte` is the entry of page `first`, which was not present.
  write-Mapped :
      (m m1 : Memory) (first paddr perm pte : ℕ)
      → first < 0x10_0000
      → paddr % 4096 ≡ 0
      → perm < 4096
      → Walked m dir (first / 1024) (first % 1024) pte m1
      → present (m1.word pte) ≡ false
      → Mapped m first paddr 1 perm
          (record m1 { word = store m1.word pte (bit_or (bit_or paddr perm) pte_p) })
  write-Mapped m m1 first paddr perm pte hf hp small w unused = rw w.address (
      let i = first / 1024 in
      let j = first % 1024 in
      let hi : i < 1024 = omega arith in
      let hj : j < 1024 = omega arith in
      let value = bit_or (bit_or paddr perm) pte_p in
      record {
        space = written-IsSpace m1 dir i j value w.space hi hj w.there;
        entries = λ n hn.
            let read =
              written-entry_at m1 dir i j value w.space hi hj w.there (n / 1024) (n % 1024)
                (omega arith) (omega arith) in
            rw
              (
                read,
                same_page n first,
                w.entries (n / 1024) (n % 1024) (omega arith) (omega arith),
                one_page n first,
              )
              (pick n first _ _ _ _ (or_value paddr perm hp small));
        unused = λ n lo up.
            let same : n ≡ first = omega arith in
            let was : present (m1.word (table m1 dir i + 4 * j)) ≡ false = rw w.address at unused in
            let here : entry_at m1 dir i j ≡ m1.word (table m1 dir i + 4 * j) = rw w.there in
            rw (same, ← w.entries i j hi hj, here) was;
      })

  pub map_entry-Mapped :
      (m m' : Memory) (vaddr paddr perm : ℕ) (s : IsSpace m dir) (hv : vaddr < u32_mod)
      (r : Option ℕ × Memory)
      → paddr % 4096 ≡ 0
      → perm < 4096
      → Walk m dir vaddr s hv r
      → map_entry paddr perm r ≡ (mapped, m')
      → Mapped m (vaddr / 4096) paddr 1 perm m'
  unfolding map_entry pde_index pte_index
  map_entry-Mapped m m' vaddr paddr perm s hv (none, m1) hp small w e = cc
  map_entry-Mapped m m' vaddr paddr perm s hv (some pte, m1) hp small w e =
      elim (Bool-cases (present (m1.word pte))) [
        | inl t ↦ cc (rw (t, if◌then◌else◌) at e)
        | inr f ↦
            let i_eq : vaddr / 0x40_0000 ≡ vaddr / 4096 / 1024 = omega arith in
            let result : ◌≡◌ {A = Outcome × Memory}
                (mapped, record m1 { word = store m1.word pte (bit_or (bit_or paddr perm) pte_p) })
                (mapped, m') =
              rw (f, if◌then◌else◌) at e in
            subst (λ x. Mapped m (vaddr / 4096) paddr 1 perm x) (ap (λ r. r.1) result)
              (write-Mapped m m1 (vaddr / 4096) paddr perm pte (omega arith) hp small
                (subst (λ x. Walked m dir x (vaddr / 4096 % 1024) pte m1) i_eq w) f)
      ]
