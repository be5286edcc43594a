-- ===== src/Memory/Alloc/Init.antt =====
-- `addr_alloc_init` of kernel/core/memory.c, from which the histories of an allocator start.
use wjos.Common.{ℕ, ◌+◌, ◌/◌, ◌≤◌, ◌<◌, refl, List, [], arith, length, get_or}
use wjos.Common.Words.{u32_mod}
use wjos.Bitmap.{byte_count}
use wjos.Bitmap.Init.{bit_count-init, get_bit-init, init-IsValid}
use wjos.Memory.Alloc.{mem_page_size, addr_alloc_init}
use wjos.Memory.Alloc.Owners.{IsConsistent}

-- With storage for the bitmap and memory below 2^32, nobody holds a page and all are free.
pub addr_alloc_init-IsConsistent :
    (bits : List ℕ) (start size : ℕ)
    → byte_count (size / mem_page_size) ≤ length bits
    → ((i : ℕ) → get_or bits i 0 < 256)
    → 0 < start
    → start + size ≤ u32_mod
    → IsConsistent start
        (size / mem_page_size)
        (record { alloc = addr_alloc_init bits start size mem_page_size; held = [] })
unfolding addr_alloc_init
addr_alloc_init-IsConsistent bits start size room bytes above below = record {
  valid = record {
    bitmap = init-IsValid bits (size / mem_page_size) room 0 bytes;
    pages = omega (arith, bit_count-init bits (size / mem_page_size) 0);
    page = refl;
    above = above;
    below = below;
  };
  start_eq = refl;
  count_eq = bit_count-init bits (size / mem_page_size) 0;
  once = λ i lt. ground (arith, get_bit-init bits (size / mem_page_size) room 0 i lt);
  pages = tt;
}
