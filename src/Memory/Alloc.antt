-- ===== src/Memory/Alloc.antt =====
-- The physical page allocator of kernel/core/memory.c, over the bitmap. Its mutex is held from
-- the first to the last access of each function, so a function is one step.
pub mod Pages
pub mod Owners
pub mod Init
mod Tests
use wjos.Common.{ℕ, ◌+◌, ◌-◌, ◌*◌, ◌/◌, Option, none, some, List}
use wjos.Common.Words.{add32, sub32, mul32}
use wjos.Bitmap
use wjos.Bitmap.{Bitmap}

abbrev pub mem_page_size : ℕ
mem_page_size = 4096

pub record AddrAlloc : Type 0 where
  pub bitmap : Bitmap
  pub start : ℕ
  pub size : ℕ
  pub page_size : ℕ

unfoldable pub addr_alloc_init : List ℕ → ℕ → ℕ → ℕ → AddrAlloc
addr_alloc_init bits start size page_size = record {
  bitmap = Bitmap.init bits (size / page_size) 0;
  start = start;
  size = size;
  page_size = page_size;
}

-- The address of the run that was found, 0 where there was none.
unfoldable pub run_addr : AddrAlloc → Option ℕ × Bitmap → ℕ × AddrAlloc
run_addr a (none, bitmap) = (0, record a { bitmap = bitmap })
run_addr a (some page_index, bitmap) =
    (add32 a.start (mul32 page_index a.page_size), record a { bitmap = bitmap })

unfoldable pub addr_alloc_page : AddrAlloc → ℕ → ℕ × AddrAlloc
unfolding run_addr
addr_alloc_page a page_count = run_addr a (Bitmap.alloc_nbits a.bitmap 0 page_count)

unfoldable pub addr_free_page : AddrAlloc → ℕ → ℕ → AddrAlloc
addr_free_page a addr page_count =
    let page_index = sub32 addr a.start / a.page_size in
    record a { bitmap = Bitmap.set_bit a.bitmap page_index page_count 0 }
