-- ===== src/Memory/Table.antt =====
-- Page directories and page tables: kernel/include/cpu/mmu.h and the functions of
-- kernel/core/memory.c that walk and build them. Memory is a word of 32 bits at each address that
-- is a multiple of 4. `x >> k`, `x & (2^k - 1)` and a bit field are written with `/` and `%`.
pub mod Walk
pub mod Space
pub mod Map
pub mod Loop
mod Tests
use Prim.Native.Nat.{bit_or}
use wjos.Common.{
  ℕ, zero, suc, ◌+◌, ◌-◌, ◌*◌, ◌/◌, ◌%◌, Bool, true, false, ◌&&◌, Option, none, some, ltb, leb,
  ◌==◌, if◌then◌else◌,
}
use wjos.Common.Words.{add32}
use wjos.Memory.Alloc.{AddrAlloc, mem_page_size, addr_alloc_page}

pub record Memory : Type 0 where
  pub alloc : AddrAlloc
  pub word : ℕ → ℕ

-- `PTE_P`, `PTE_W`, `PTE_U`, which the `PDE_` flags repeat.
abbrev pub pte_p : ℕ
pte_p = 1

abbrev pub pte_w : ℕ
pte_w = 2

abbrev pub pte_u : ℕ
pte_u = 4

unfoldable pub pde_index : ℕ → ℕ
pde_index vaddr = vaddr / 0x40_0000

unfoldable pub pte_index : ℕ → ℕ
pte_index vaddr = vaddr / 4096 % 1024

-- The fields `present` and `phy_pt_addr` of a `pde_t` or `pte_t`.
abbrev pub present : ℕ → Bool
present v = v % 2 == 1

abbrev pub pde_paddr : ℕ → ℕ
pde_paddr v = v / 4096 * 4096

abbrev pub pte_paddr : ℕ → ℕ
pte_paddr v = v / 4096 * 4096

abbrev pub get_pte_perm : ℕ → ℕ
get_pte_perm v = v % 1024

abbrev pub store : (ℕ → ℕ) → ℕ → ℕ → ℕ → ℕ
store word addr v a = if a == addr then v else word a

-- `kernel_memset(page, 0, MEM_PAGE_SIZE)`.
abbrev pub clear_page : (ℕ → ℕ) → ℕ → ℕ → ℕ
clear_page word page a = if leb page a && ltb a (page + mem_page_size) then 0 else word a

-- `pde->v = pg_addr | PDE_P | PDE_W | PDE_U` and the new table cleared.
unfoldable pub grow : Memory → ℕ → ℕ → AddrAlloc → Memory
grow m pde pg_addr alloc = record {
  alloc = alloc;
  word = clear_page (store m.word pde (bit_or (bit_or (bit_or pg_addr pte_p) pte_w) pte_u)) pg_addr;
}

-- A page table that was missing, from the allocator's answer.
unfoldable pub new_table : Memory → ℕ → ℕ → ℕ × AddrAlloc → Option ℕ × Memory
unfolding grow
new_table m pde vaddr (pg_addr, alloc) =
    if pg_addr == 0
    then (none, record m { alloc = alloc })
    else (some (pg_addr + 4 * pte_index vaddr), grow m pde pg_addr alloc)

-- The address of the entry for `vaddr`, `none` for a null pointer.
unfoldable pub find_pte : Memory → ℕ → ℕ → Bool → Option ℕ × Memory
unfolding pde_index pte_index
find_pte m page_dir vaddr alloc =
    let pde = page_dir + 4 * pde_index vaddr in
    if present (m.word pde)
    then (some (pde_paddr (m.word pde) + 4 * pte_index vaddr), m)
    else if alloc
    then new_table m pde vaddr (addr_alloc_page m.alloc 1)
    else (none, m)

-- `return 0`, `return -1`, and a failed `ASSERT`.
pub data Outcome : Type 0 where
  mapped no_memory asserted : Outcome

-- One round of `memory_create_map`, from the answer of `find_pte`.
unfoldable pub map_entry : ℕ → ℕ → Option ℕ × Memory → Outcome × Memory
map_entry paddr perm (none, m) = (no_memory, m)
map_entry paddr perm (some pte, m) =
    if present (m.word pte)
    then (asserted, m)
    else (mapped, record m { word = store m.word pte (bit_or (bit_or paddr perm) pte_p) })

-- What follows a round that succeeded.
abbrev pub and_then : Outcome × Memory → (Memory → Outcome × Memory) → Outcome × Memory
and_then (mapped, m) rest = rest m
and_then (no_memory, m) rest = (no_memory, m)
and_then (asserted, m) rest = (asserted, m)

unfoldable pub create_map : Memory → ℕ → ℕ → ℕ → ℕ → ℕ → Outcome × Memory
unfolding find_pte map_entry
create_map m page_dir vaddr paddr zero perm = (mapped, m)
create_map m page_dir vaddr paddr (suc count) perm =
    and_then (map_entry paddr perm (find_pte m page_dir vaddr true)) λ m'.
      create_map m' page_dir (add32 vaddr mem_page_size) (add32 paddr mem_page_size) count perm

-- 0 where the table is missing.
unfoldable pub get_paddr : Memory → ℕ → ℕ → ℕ
unfolding find_pte
get_paddr m page_dir vaddr = elim (find_pte m page_dir vaddr false).0 [
  | none ↦ 0
  | some pte ↦ add32 (pte_paddr (m.word pte)) (vaddr % mem_page_size)
]
