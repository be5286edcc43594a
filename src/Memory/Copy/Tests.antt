-- ===== src/Memory/Copy/Tests.antt =====
-- The release of an address space, and a copy into a page that is not there, at small pools.
use wjos.Common.{
  ℕ, ◌+◌, ◌*◌, ◌<◌, ◌≤◌, ◌≡◌, refl, inl, inr, true, [], ◌∷◌, arith, ◌==◌, if◌then◌else◌, ap, ◌∙◌,
}
use wjos.Memory.Alloc.Pages
use wjos.Memory.Table.{Memory, present, pte_paddr, pde_paddr}
use wjos.Memory.Copy.{memory_destroy_uvm}
use wjos.Memory.Copy.Cleared.{IsInPool, Cleared}
use wjos.Memory.Copy.Destroy.{IsOwned, memory_destroy_uvm-Cleared}

-- Four pages from 1 MB on, all in use: a directory, a table for the first user addresses, and a page
-- in it; the fourth is another task's.
abbrev space : Memory
space = record {
  alloc = record {
    bitmap = record { bit_count = 4; bits = 15 ∷ [] };
    start = 0x10_0000;
    size = 0x4000;
    page_size = 4096;
  };
  word = λ a. if a == 0x10_0800 then 0x10_1007 else if a == 0x10_1000 then 0x10_2007 else 0;
}

space-IsValid : Pages.IsValid space.alloc
space-IsValid = record {
  bitmap = record { covers = omega arith; bytes = λ i. ground arith };
  pages = omega arith;
  page = refl;
  above = omega arith;
  below = omega arith;
}

slot : (k : ℕ) → present (space.word (0x10_0000 + 4 * k)) ≡ true → 512 ≤ k → k < 1024 → k ≡ 512
slot k there low high = ground (arith, there, low, high)

table : (k : ℕ) → k ≡ 512 → pde_paddr (space.word (0x10_0000 + 4 * k)) ≡ 0x10_1000
table k e = ap (λ k. pde_paddr (space.word (0x10_0000 + 4 * k))) e

page :
    (t j : ℕ)
    → t ≡ 0x10_1000
    → j < 1024
    → present (space.word (t + 4 * j)) ≡ true
    → pte_paddr (space.word (t + 4 * j)) ≡ 0x10_2000
page t j at_t below here = ground (arith, at_t, below, here)

owned-IsInPool : (addr : ℕ) → IsOwned space 0x10_0000 addr → IsInPool space.alloc addr
owned-IsInPool addr (inl (k, low, high, (there, inl (j, _, below, here, e)))) = (
  2,
  omega arith,
  e
      ∙ page (pde_paddr (space.word (0x10_0000 + 4 * k))) j (table k (slot k there low high)) below
          here,
)
owned-IsInPool addr (inl (k, low, high, (there, inr e))) =
    (1, omega arith, e ∙ table k (slot k there low high))
owned-IsInPool addr (inr e) = (0, omega arith, e)

memory_destroy_uvm-Cleared_example :
    Cleared (IsOwned space 0x10_0000) space.alloc (memory_destroy_uvm space 0x10_0000).alloc
memory_destroy_uvm-Cleared_example =
    memory_destroy_uvm-Cleared space 0x10_0000 space-IsValid owned-IsInPool
