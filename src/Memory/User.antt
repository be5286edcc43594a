-- ===== src/Memory/User.antt =====
-- User memory in kernel/core/memory.c: new page directories, pages for a range of addresses, pages
-- given back, and the heap of `sys_sbrk`. `none` stands for a failed `ASSERT`, which stops the
-- kernel. The current page directory is an argument.
pub mod Heap
pub mod Space
mod Tests
use wjos.Common.{
  ℕ, zero, suc, ◌+◌, ◌-◌, ◌*◌, ◌/◌, ◌%◌, Bool, false, not, ◌&&◌, Option, none, some, ltb, leb, ◌==◌,
  if◌then◌else◌,
}
use wjos.Common.Words.{add32, sub32}
use wjos.Memory.Alloc.{AddrAlloc, mem_page_size, addr_alloc_page, addr_free_page}
use wjos.Memory.Table.{
  Memory, Outcome, mapped, no_memory, asserted, present, pte_p, pte_w, pte_u, store, clear_page,
  find_pte, create_map, pte_paddr,
}

abbrev pub memory_task_base : ℕ
memory_task_base = 0x8000_0000

-- `up2(size, bound)` for a bound that is a power of two.
abbrev pub up2 : ℕ → ℕ → ℕ
up2 size bound = add32 size (bound - 1) / bound * bound

-- `page_dir[i].v = kernel_page_dir[i].v` for `n` slots from `i` on.
unfoldable pub copy_slots : ℕ → ℕ → ℕ → ℕ → (ℕ → ℕ) → ℕ → ℕ
copy_slots kernel_dir dir zero i word = word
copy_slots kernel_dir dir (suc n) i word =
    copy_slots kernel_dir dir n (i + 1) (store word (dir + 4 * i) (word (kernel_dir + 4 * i)))

-- `memory_create_uvm`, from the allocator's answer.
unfoldable pub fill_dir : ℕ → Memory → ℕ × AddrAlloc → ℕ × Memory
fill_dir kernel_dir m (dir, alloc) = if dir == 0 then (0, record m { alloc = alloc }) else (
  dir,
  record { alloc = alloc; word = copy_slots kernel_dir dir 512 0 (clear_page m.word dir) },
)

unfoldable pub memory_create_uvm : ℕ → Memory → ℕ × Memory
unfolding fill_dir
memory_create_uvm kernel_dir m = fill_dir kernel_dir m (addr_alloc_page m.alloc 1)

-- The body of the loop of `memory_alloc_for_page_dir` behind `memory_create_map`. Every `return`
-- of that function returns 0. On failure it frees `i + 1` pages at the virtual address.
unfoldable pub after_map :
    ℕ → ℕ → Outcome × Memory → (Memory → Option (ℕ × Memory)) → Option (ℕ × Memory)
after_map vaddr i (mapped, m) rest = rest m
after_map vaddr i (no_memory, m) rest =
    some (0, record m { alloc = addr_free_page m.alloc vaddr (i + 1) })
after_map vaddr i (asserted, m) rest = none

unfoldable pub map_page :
    Memory
    → ℕ
    → ℕ
    → ℕ
    → ℕ
    → ℕ
    → ℕ × AddrAlloc
    → (Memory → Option (ℕ × Memory))
    → Option (ℕ × Memory)
unfolding after_map
map_page m page_dir vaddr i curr_vaddr perm (paddr, alloc) rest =
    if paddr == 0
    then some (0, record m { alloc = alloc })
    else after_map vaddr i
        (create_map (record m { alloc = alloc }) page_dir curr_vaddr paddr 1 perm) rest

-- The loop, with `n` rounds left.
unfoldable pub alloc_pages : ℕ → ℕ → ℕ → ℕ → ℕ → ℕ → Memory → Option (ℕ × Memory)
unfolding map_page
alloc_pages page_dir vaddr perm zero i curr_vaddr m = some (0, m)
alloc_pages page_dir vaddr perm (suc n) i curr_vaddr m =
    map_page m page_dir vaddr i curr_vaddr perm (addr_alloc_page m.alloc 1)
      λ m'. alloc_pages page_dir vaddr perm n (i + 1) (add32 curr_vaddr mem_page_size) m'

unfoldable pub memory_alloc_for_page_dir : Memory → ℕ → ℕ → ℕ → ℕ → Option (ℕ × Memory)
unfolding alloc_pages
memory_alloc_for_page_dir m page_dir vaddr size perm =
    alloc_pages page_dir vaddr perm (up2 size mem_page_size / mem_page_size) 0 vaddr m

-- `memory_free_page` of a user page, from the answer of `find_pte`.
unfoldable pub free_entry : Memory → Option ℕ → Option Memory
free_entry m none = none
free_entry m (some pte) =
    if present (m.word pte)
    then some (record {
      alloc = addr_free_page m.alloc (pte_paddr (m.word pte)) 1;
      word = store m.word pte 0;
    })
    else none

unfoldable pub memory_free_page : Memory → ℕ → ℕ → Option Memory
unfolding free_entry
memory_free_page m page_dir addr =
    if ltb addr memory_task_base
    then some (record m { alloc = addr_free_page m.alloc addr 1 })
    else free_entry m (find_pte m page_dir addr false).0

-- What `sys_sbrk` leaves behind: its result, the end of the heap, and memory.
pub record Sbrk : Type 0 where
  pub result : ℕ
  pub heap_end : ℕ
  pub memory : Memory

-- The tail of `sys_sbrk`, from the answer of `memory_alloc_page_for`. That answer is never below 0.
unfoldable pub grow_heap : ℕ → ℕ → Option (ℕ × Memory) → Option Sbrk
grow_heap heap_end end none = none
grow_heap heap_end end (some (err, m)) =
    some (record { result = heap_end; heap_end = end; memory = m })

-- The first address that needs a new page.
abbrev pub heap_start : ℕ → ℕ
heap_start heap_end =
    if heap_end % mem_page_size == 0
    then heap_end
    else add32 heap_end (mem_page_size - heap_end % mem_page_size)

-- `incr` is not negative, which the `ASSERT` demands.
unfoldable pub sys_sbrk : Memory → ℕ → ℕ → ℕ → Option Sbrk
sys_sbrk m page_dir heap_end incr =
    let end = add32 heap_end incr in
    let offset = heap_end % mem_page_size in
    let start = heap_start heap_end in
    if incr == 0
    then some (record { result = heap_end; heap_end = heap_end; memory = m })
    else if not (offset == 0) && leb (offset + incr) mem_page_size
    then some (record { result = heap_end; heap_end = end; memory = m })
    else grow_heap heap_end end
        (memory_alloc_for_page_dir m page_dir start (sub32 end start) (pte_p + pte_u + pte_w))
