-- ===== src/Memory/Copy/Destroy.antt =====
-- The pages that kernel/core/memory.c gives back with an address space.
use wjos.Common.{
  ℕ, zero, suc, ◌+◌, ◌*◌, ◌≤◌, ◌<◌, ◌≡◌, refl, ◌⊎◌, inl, inr, true, arith, ◌==◌, if◌then◌else◌,
  Bool-cases, ap, ◌∙◌, sym, subst,
}
use wjos.Memory.Alloc.{AddrAlloc, mem_page_size, addr_free_page}
use wjos.Memory.Alloc.Pages.{IsValid}
use wjos.Memory.Table.{Memory, present, pte_paddr, pde_paddr}
use wjos.Memory.Copy.{free_entries, free_table, free_tables, memory_destroy_uvm}
use wjos.Memory.Copy.Cleared.{
  IsInPool, Cleared, nothing-Cleared, Cleared-same, Cleared-trans, addr_free_page-Cleared, Maybe,
  if-Cleared,
}

-- The pages of the entries `j` to `j + n - 1` of a table.
abbrev pub IsEntryPage : (ℕ → ℕ) → ℕ → ℕ → ℕ → ℕ → Type 0
IsEntryPage word table j n addr =
    (k : ℕ) × (j ≤ k)
    × (k < j + n)
    × (present (word (table + 4 * k)) ≡ true)
    × (addr ≡ pte_paddr (word (table + 4 * k)))

-- The pages of a table, and its own.
abbrev pub IsTablePage : (ℕ → ℕ) → ℕ → ℕ → Type 0
IsTablePage word pde =
    Maybe (present pde)
      (λ addr. IsEntryPage word (pde_paddr pde) 0 1024 addr ⊎ (addr ≡ pde_paddr pde))

-- The pages of the tables `i` to `i + n - 1` of a directory.
abbrev pub IsUserPage : (ℕ → ℕ) → ℕ → ℕ → ℕ → ℕ → Type 0
IsUserPage word dir i n addr =
    (k : ℕ) × (i ≤ k) × (k < i + n) × IsTablePage word (word (dir + 4 * k)) addr

abbrev AllInPool : AddrAlloc → (ℕ → Type 0) → Type 0
AllInPool a P = (addr : ℕ) → P addr → IsInPool a addr

InPool-Cleared :
    {P : ℕ → Type 0} (a b : AddrAlloc)
    → Cleared P a b
    → (addr : ℕ) → IsInPool a addr
    → IsInPool b addr
InPool-Cleared a b k addr (i, lt, e) =
    (i, omega (arith, lt, k.count), e ∙ ap (λ s. s + i * mem_page_size) (sym k.start))

free_entries-Cleared :
    (n j table : ℕ) (word : ℕ → ℕ) (a : AddrAlloc)
    → IsValid a
    → AllInPool a (IsEntryPage word table j n)
    → Cleared (IsEntryPage word table j n) a (free_entries n j table word a)
unfolding free_entries
free_entries-Cleared zero j table word a v pool =
    nothing-Cleared a v (λ x h. omega (arith, h.1, h.2))
free_entries-Cleared (suc n) j table word a v pool =
    let entry = word (table + 4 * j) in
    let b = if present entry then addr_free_page a (pte_paddr entry) 1 else a in
    let one : Cleared (Maybe (present entry) (λ x. x ≡ pte_paddr entry)) a b =
      if-Cleared (present entry) a (addr_free_page a (pte_paddr entry) 1) v (λ there.
        addr_free_page-Cleared a (pte_paddr entry) v
          (pool (pte_paddr entry) (j, omega arith, omega arith, there, refl))) in
    let rest = free_entries-Cleared n (j + 1) table word b one.valid (λ addr h.
      InPool-Cleared a b one addr
        (pool addr (h.0, omega (arith, h.1), omega (arith, h.2), h.3, h.4))) in
    Cleared-same a (free_entries n (j + 1) table word b)
      (λ x h. elim h [
        | inl f ↦ (j, omega arith, omega arith, f.0, f.1)
        | inr g ↦ (g.0, omega (arith, g.1), omega (arith, g.2), g.3, g.4)
      ])
      (λ x h. here_or_later x h) (Cleared-trans a b (free_entries n (j + 1) table word b) one rest)
  where
    here_or_later :
        (x : ℕ)
        → IsEntryPage word table j (suc n) x
        → Maybe (present (word (table + 4 * j))) (λ x. x ≡ pte_paddr (word (table + 4 * j))) x
          ⊎ IsEntryPage word table (j + 1) n x
    here_or_later x (k, low, high, there, e) = elim (Bool-cases (k == j)) [
      | inl same ↦
          let eq : k ≡ j = ground (arith, same) in
          inl (
            subst
              (λ k.
                Maybe (present (word (table + 4 * k))) (λ x. x ≡ pte_paddr (word (table + 4 * k)))
                  x)
              eq (there, e))
      | inr other ↦ inr (k, ground (arith, other, low), omega (arith, high), there, e)
    ]

free_table-Cleared :
    (pde : ℕ) (word : ℕ → ℕ) (a : AddrAlloc)
    → IsValid a
    → AllInPool a (IsTablePage word pde)
    → Cleared (IsTablePage word pde) a (free_table pde word a)
unfolding free_table
free_table-Cleared pde word a v pool =
    let b = free_entries 1024 0 (pde_paddr pde) word a in
    if-Cleared (present pde) a (addr_free_page b (pde_paddr pde) 1) v (λ there.
      let entries =
        free_entries-Cleared 1024 0 (pde_paddr pde) word a v (λ addr h. pool addr (there, inl h)) in
      let own =
        addr_free_page-Cleared b (pde_paddr pde) entries.valid
          (InPool-Cleared a b entries (pde_paddr pde) (pool (pde_paddr pde) (there, inr refl))) in
      Cleared-trans a b (addr_free_page b (pde_paddr pde) 1) entries own)

free_tables-Cleared :
    (n i dir : ℕ) (word : ℕ → ℕ) (a : AddrAlloc)
    → IsValid a
    → AllInPool a (IsUserPage word dir i n)
    → Cleared (IsUserPage word dir i n) a (free_tables n i dir word a)
unfolding free_tables
free_tables-Cleared zero i dir word a v pool = nothing-Cleared a v (λ x h. omega (arith, h.1, h.2))
free_tables-Cleared (suc n) i dir word a v pool =
    let pde = word (dir + 4 * i) in
    let b = free_table pde word a in
    let one =
      free_table-Cleared pde word a v (λ addr h. pool addr (i, omega arith, omega arith, h)) in
    let rest = free_tables-Cleared n (i + 1) dir word b one.valid (λ addr h.
      InPool-Cleared a b one addr (pool addr (h.0, omega (arith, h.1), omega (arith, h.2), h.3))) in
    Cleared-same a (free_tables n (i + 1) dir word b)
      (λ x h. elim h [
        | inl f ↦ (i, omega arith, omega arith, f)
        | inr g ↦ (g.0, omega (arith, g.1), omega (arith, g.2), g.3)
      ])
      (λ x h. here_or_later x h) (Cleared-trans a b (free_tables n (i + 1) dir word b) one rest)
  where
    here_or_later :
        (x : ℕ)
        → IsUserPage word dir i (suc n) x
        → IsTablePage word (word (dir + 4 * i)) x ⊎ IsUserPage word dir (i + 1) n x
    here_or_later x (k, low, high, h) = elim (Bool-cases (k == i)) [
      | inl same ↦
          let eq : k ≡ i = ground (arith, same) in
          inl (subst (λ k. IsTablePage word (word (dir + 4 * k)) x) eq h)
      | inr other ↦ inr (k, ground (arith, other, low), omega (arith, high), h)
    ]

-- The pages of an address space above the kernel's: the directory, its tables and their pages.
abbrev pub IsOwned : Memory → ℕ → ℕ → Type 0
IsOwned m dir addr = IsUserPage m.word dir 512 512 addr ⊎ (addr ≡ dir)

-- An address space whose pages are all the allocator's is given back whole, and nothing else is: each
-- page of the directory, of its user tables and of their entries is free, and every other page is as
-- it was.
pub memory_destroy_uvm-Cleared :
    (m : Memory) (dir : ℕ)
    → IsValid m.alloc
    → ((addr : ℕ) → IsOwned m dir addr → IsInPool m.alloc addr)
    → Cleared (IsOwned m dir) m.alloc (memory_destroy_uvm m dir).alloc
unfolding memory_destroy_uvm
memory_destroy_uvm-Cleared m dir v pool =
    let b = free_tables 512 512 dir m.word m.alloc in
    let tables = free_tables-Cleared 512 512 dir m.word m.alloc v (λ addr h. pool addr (inl h)) in
    Cleared-trans m.alloc b (addr_free_page b dir 1) tables (
      addr_free_page-Cleared b dir tables.valid
        (InPool-Cleared m.alloc b tables dir (pool dir (inr refl))))
