-- ===== src/Memory/Copy.antt =====
-- A task's memory as a whole in kernel/core/memory.c: its copy for `sys_fork`, its release, the data
-- that `sys_execve` copies into it, and the kernel's own pages.
pub mod Cleared
pub mod Destroy
pub mod Data
pub mod Empty
mod Tests
use wjos.Common.{
  ℕ, zero, suc, ◌+◌, ◌-◌, ◌*◌, ◌/◌, ◌%◌, ◌^◌, Bool, true, false, ◌&&◌, Option, none, some, List, [],
  ◌∷◌, ltb, leb, ◌==◌, if◌then◌else◌, length, take, drop,
}
use wjos.Common.Words.{add32, sub32}
use wjos.Memory.Alloc.{AddrAlloc, mem_page_size, addr_alloc_page, addr_free_page}
use wjos.Memory.Table.{
  Memory, Outcome, mapped, no_memory, asserted, present, pte_w, store, create_map, pte_paddr,
  pde_paddr, get_pte_perm, get_paddr,
}
use wjos.Memory.User.{up2, memory_create_uvm}

-- The pages of `n` entries of a table, from `j` on.
unfoldable pub free_entries : ℕ → ℕ → ℕ → (ℕ → ℕ) → AddrAlloc → AddrAlloc
free_entries zero j table word a = a
free_entries (suc n) j table word a =
    let entry = word (table + 4 * j) in
    free_entries n (j + 1) table word
      (if present entry then addr_free_page a (pte_paddr entry) 1 else a)

-- A table's pages, and its own.
unfoldable pub free_table : ℕ → (ℕ → ℕ) → AddrAlloc → AddrAlloc
unfolding free_entries
free_table pde word a =
    if present pde
    then addr_free_page (free_entries 1024 0 (pde_paddr pde) word a) (pde_paddr pde) 1
    else a

-- The tables of `n` slots of a directory, from `i` on.
unfoldable pub free_tables : ℕ → ℕ → ℕ → (ℕ → ℕ) → AddrAlloc → AddrAlloc
unfolding free_table
free_tables zero i dir word a = a
free_tables (suc n) i dir word a =
    free_tables n (i + 1) dir word (free_table (word (dir + 4 * i)) word a)

unfoldable pub memory_destroy_uvm : Memory → ℕ → Memory
unfolding free_tables
memory_destroy_uvm m page_dir = record m {
  alloc = addr_free_page (free_tables 512 512 page_dir m.word m.alloc) page_dir 1;
}

-- `kernel_memcpy` of a page.
abbrev pub copy_page : (ℕ → ℕ) → ℕ → ℕ → ℕ → ℕ
copy_page word to from a =
    if leb to a && ltb a (to + mem_page_size) then word (from + (a - to)) else word a

-- The address space that a copy goes to, and what is read through the current page directory;
-- `false` is a jump to the failure, and `none` a failed `ASSERT`.
unfoldable pub copy_behind : ℕ → ℕ → ℕ → Outcome × Memory → Option (Bool × Memory)
unfolding get_paddr
copy_behind curr_dir vaddr page (mapped, m) =
    some (true, record m { word = copy_page m.word page (get_paddr m curr_dir vaddr) })
copy_behind curr_dir vaddr page (no_memory, m) = some (false, m)
copy_behind curr_dir vaddr page (asserted, m) = none

unfoldable pub copy_entry : ℕ → ℕ → ℕ → ℕ → ℕ × AddrAlloc → Memory → Option (Bool × Memory)
unfolding copy_behind
copy_entry curr_dir to_dir vaddr perm (page, alloc) m =
    if page == 0
    then some (false, record m { alloc = alloc })
    else copy_behind curr_dir vaddr page
        (create_map (record m { alloc = alloc }) to_dir vaddr page 1 perm)

abbrev pub if_copied :
    Option (Bool × Memory) → (Memory → Option (Bool × Memory)) → Option (Bool × Memory)
if_copied none rest = none
if_copied (some (false, m)) rest = some (false, m)
if_copied (some (true, m)) rest = rest m

-- `n` entries of the table in slot `i`, from `j` on.
unfoldable pub copy_entries : ℕ → ℕ → ℕ → ℕ → ℕ → ℕ → Memory → Option (Bool × Memory)
unfolding copy_entry
copy_entries curr_dir to_dir table i zero j m = some (true, m)
copy_entries curr_dir to_dir table i (suc n) j m =
    let entry = m.word (table + 4 * j) in
    if_copied
      (if present entry
        then copy_entry curr_dir to_dir (i * 0x40_0000 + j * 4096) (get_pte_perm entry)
            (addr_alloc_page m.alloc 1) m
        else some (true, m))
      (copy_entries curr_dir to_dir table i n (j + 1))

-- `n` slots of the directory, from `i` on.
unfoldable pub copy_tables : ℕ → ℕ → ℕ → ℕ → ℕ → Memory → Option (Bool × Memory)
unfolding copy_entries
copy_tables curr_dir to_dir page_dir zero i m = some (true, m)
copy_tables curr_dir to_dir page_dir (suc n) i m =
    let pde = m.word (page_dir + 4 * i) in
    if_copied
      (if present pde
        then copy_entries curr_dir to_dir (pde_paddr pde) i 1024 0 m
        else some (true, m))
      (copy_tables curr_dir to_dir page_dir n (i + 1))

abbrev pub copy_end : ℕ → Option (Bool × Memory) → Option (ℕ × Memory)
copy_end to_dir none = none
copy_end to_dir (some (true, m)) = some (to_dir, m)
copy_end to_dir (some (false, m)) = some (0, memory_destroy_uvm m to_dir)

unfoldable pub copy_to : ℕ → ℕ → ℕ × Memory → Option (ℕ × Memory)
unfolding copy_tables memory_destroy_uvm
copy_to curr_dir page_dir (to_dir, m) =
    if to_dir == 0
    then some (0, m)
    else copy_end to_dir (copy_tables curr_dir to_dir page_dir 512 512 m)

unfoldable pub memory_copy_uvm : ℕ → ℕ → ℕ → Memory → Option (ℕ × Memory)
unfolding copy_to memory_create_uvm
memory_copy_uvm kernel_dir curr_dir page_dir m =
    copy_to curr_dir page_dir (memory_create_uvm kernel_dir m)

-- A byte of memory, in the word that holds it.
abbrev pub byte_at : (ℕ → ℕ) → ℕ → ℕ
byte_at word a = word (a / 4 * 4) / 256 ^ (a % 4) % 256

abbrev pub put_byte : (ℕ → ℕ) → ℕ → ℕ → ℕ → ℕ
put_byte word a b =
    store word (a / 4 * 4) (word (a / 4 * 4) - byte_at word a * 256 ^ (a % 4) + b * 256 ^ (a % 4))

-- `kernel_memcpy` of bytes that stand elsewhere.
unfoldable pub copy_bytes : (ℕ → ℕ) → ℕ → List ℕ → ℕ → ℕ
copy_bytes word to [] = word
copy_bytes word to (b ∷ bytes) = copy_bytes (put_byte word to b) (to + 1) bytes

-- `return 0` and `return -1`.
pub data Copy : Type 0 where
  copied unmapped : Copy

-- What one round copies: up to the end of the page.
abbrev pub round_size : ℕ → ℕ → ℕ
round_size to_paddr n =
    let room = mem_page_size - to_paddr % mem_page_size in if ltb n room then n else room

-- One round, from the answer of `memory_get_paddr`.
unfoldable pub copy_round :
    ℕ → List ℕ → Memory → (ℕ → Memory → Option (Copy × Memory)) → Option (Copy × Memory)
unfolding copy_bytes
copy_round to_paddr bytes m rest =
    let curr_size = round_size to_paddr (length bytes) in
    if length bytes == 0
    then some (copied, m)
    else if to_paddr == 0
    then some (unmapped, m)
    else rest curr_size (record m { word = copy_bytes m.word to_paddr (take curr_size bytes) })

-- The loop of `memory_copy_uvm_data`, on fuel, over the bytes at `from`: each round copies one or
-- more of them.
unfoldable pub copy_data : ℕ → ℕ → ℕ → List ℕ → Memory → Option (Copy × Memory)
unfolding copy_round get_paddr
copy_data zero to page_dir bytes m = none
copy_data (suc fuel) to page_dir bytes m =
    copy_round (get_paddr m page_dir to) bytes m
      λ size m'. copy_data fuel (add32 to size) page_dir (drop size bytes) m'

unfoldable pub memory_copy_uvm_data : ℕ → ℕ → List ℕ → Memory → Option (Copy × Memory)
unfolding copy_data
memory_copy_uvm_data to page_dir bytes m = copy_data (suc (length bytes)) to page_dir bytes m

-- A `memory_map_t`.
pub record MemoryMap : Type 0 where
  pub vstart : ℕ
  pub vend : ℕ
  pub pstart : ℕ
  pub perm : ℕ

abbrev pub down2 : ℕ → ℕ → ℕ
down2 size bound = size / bound * bound

-- A failed `ASSERT` stops the kernel; other failures go unseen.
abbrev unless_asserted : Outcome × Memory → Option Memory
unless_asserted (mapped, m) = some m
unless_asserted (no_memory, m) = some m
unless_asserted (asserted, m) = none

abbrev if_running : Option Memory → (Memory → Option Memory) → Option Memory
if_running none rest = none
if_running (some m) rest = rest m

-- The maps of `create_kernel_table`. Its table, with the addresses that the linker gives, is an
-- argument.
unfoldable pub create_kernel_table : ℕ → List MemoryMap → Memory → Option Memory
create_kernel_table kernel_dir [] m = some m
create_kernel_table kernel_dir (map ∷ maps) m =
    let vstart = down2 map.vstart mem_page_size in
    let count = sub32 (up2 map.vend mem_page_size) vstart / mem_page_size in
    if_running
      (unless_asserted
        (create_map m kernel_dir vstart (down2 map.pstart mem_page_size) count map.perm))
      (create_kernel_table kernel_dir maps)
