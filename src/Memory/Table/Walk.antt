-- ===== src/Memory/Table/Walk.antt =====
-- The walk of `find_pte` in kernel/core/memory.c that makes a table where one is missing.
use wjos.Common.{
  ℕ, ◌+◌, ◌*◌, ◌<◌, ◌≡◌, refl, ◌⊎◌, inl, inr, true, false, Option, none, some, arith, ◌==◌,
  if◌then◌else◌, Bool-cases, ap, ◌∙◌,
}
use wjos.Common.Words.{u32_mod}
use wjos.Memory.Alloc.{AddrAlloc, addr_alloc_page}
use wjos.Memory.Alloc.Pages.{Handed, Exhausted, addr_alloc_page_lem}
use wjos.Memory.Table.{Memory, pde_index, pte_index, new_table, find_pte}
use wjos.Memory.Table.Space.{
  table, has_table, IsSpace, entry_at, grown-entry_at, has_table-grown, table-grown, grown-IsSpace,
}

-- What `find_pte(page_dir, vaddr, 1)` returns when it returns an entry: the entry for `vaddr`, in a
-- table that the directory has now, in a space where no entry has changed.
pub record Walked (m : Memory) (dir i j pte : ℕ) (m' : Memory) : Type 0 where
  pub space : IsSpace m' dir
  pub there : has_table m' dir i ≡ true
  pub address : pte ≡ table m' dir i + 4 * j
  pub entries : (i j : ℕ) → i < 1024 → j < 1024 → entry_at m' dir i j ≡ entry_at m dir i j

module _ (m : Memory) (dir vaddr : ℕ) (s : IsSpace m dir) (h : vaddr < u32_mod) where
  -- `find_pte(page_dir, vaddr, 1)` fails only for want of a page, and then no entry has changed.
  abbrev pub Walk : Option ℕ × Memory → Type 0
  Walk (none, m') = (addr_alloc_page m.alloc 1).0 ≡ 0 × (m'.word ≡ m.word)
  Walk (some pte, m') = Walked m dir (pde_index vaddr) (pte_index vaddr) pte m'

  index_bounds : (pde_index vaddr < 1024) × (pte_index vaddr < 1024)
  unfolding pde_index pte_index
  index_bounds = omega arith

  new_table-some :
      (p pg : ℕ) (a : AddrAlloc)
      → Handed m.alloc p pg a
      → has_table m dir (pde_index vaddr) ≡ false
      → Walk (new_table m (dir + 4 * pde_index vaddr) vaddr (pg, a))
  unfolding new_table
  new_table-some p pg a handed missing =
      let k = pde_index vaddr in
      let hk = index_bounds.0 in
      let taken : (pg == 0) ≡ false = ground (arith, handed.addr_eq, s.valid.above) in
      rw (taken, if◌then◌else◌)
        (record {
          space = grown-IsSpace m dir s k pg a hk missing p handed;
          there = ground (arith, has_table-grown m dir s k pg a hk missing p handed k hk);
          address = ground (arith, table-grown m dir s k pg a hk missing p handed k hk);
          entries = grown-entry_at m dir s k pg a hk missing p handed;
        })

  new_table-Walk :
      (r : ℕ × AddrAlloc)
      → addr_alloc_page m.alloc 1 ≡ r
      → (((p : ℕ) × Handed m.alloc p r.0 r.1) ⊎ Exhausted m.alloc r.0 r.1)
      → has_table m dir (pde_index vaddr) ≡ false
      → Walk (new_table m (dir + 4 * pde_index vaddr) vaddr r)
  unfolding new_table
  new_table-Walk (pg, a) e (inl (p, handed)) missing = new_table-some p pg a handed missing
  new_table-Walk (pg, a) e (inr x) missing = rw x.null (ap (λ r. r.0) e ∙ x.null, refl)

  -- `find_pte(page_dir, vaddr, 1)` on every path.
  pub find_pte-Walk : Walk (find_pte m dir vaddr true)
  unfolding find_pte
  find_pte-Walk = elim (Bool-cases (has_table m dir (pde_index vaddr))) [
    | inl t ↦
        rw (t, if◌then◌else◌)
          (record { space = s; there = t; address = refl; entries = λ i j hi hj. refl })
    | inr f ↦
        rw (f, if◌then◌else◌)
          (new_table-Walk (addr_alloc_page m.alloc 1) refl (addr_alloc_page_lem m.alloc s.valid) f)
  ]
