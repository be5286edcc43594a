-- ===== src/Memory/Alloc/Tests.antt =====
-- The allocator's theorems at a pool of two pages.
use wjos.Common.{◌+◌, ◌*◌, ◌≡◌, refl, [], ◌∷◌, arith}
use wjos.Bitmap.{byte_count, get_bit, set_bit, put_bit, alloc_nbits, search_from, scan, init, fill}
use wjos.Memory.Alloc.{AddrAlloc, addr_alloc_init, addr_alloc_page, run_addr}
use wjos.Memory.Alloc.Owners.{
  Pool, Reach, here, next, take_page, IsConsistent, addr_alloc_page-fresh,
  addr_alloc_page-exhausted, count,
}
use wjos.Memory.Alloc.Init.{addr_alloc_init-IsConsistent}

abbrev fresh : AddrAlloc
fresh = record {
  bitmap = record { bit_count = 2; bits = 0 ∷ [] };
  start = 0x10_0000;
  size = 8192;
  page_size = 4096;
}

abbrev one_taken : AddrAlloc
one_taken = record fresh { bitmap = record { bit_count = 2; bits = 1 ∷ [] } }

abbrev start_pool : Pool
start_pool = record { alloc = addr_alloc_init (7 ∷ []) 0x10_0000 8192 4096; held = [] }

abbrev full : AddrAlloc
full = record fresh { bitmap = record { bit_count = 2; bits = 3 ∷ [] } }

abbrev one_pool : Pool
one_pool = record { alloc = one_taken; held = 0x10_0000 ∷ [] }

abbrev full_pool : Pool
full_pool = record { alloc = full; held = 0x10_1000 ∷ 0x10_0000 ∷ [] }

-- What a run of the allocator computes through.
abbrev Runs : Type 0
unfolding addr_alloc_init init fill byte_count addr_alloc_page run_addr alloc_nbits search_from scan
    get_bit set_bit put_bit
Runs = Unit

alloc_first : addr_alloc_page start_pool.alloc 1 ≡ (0x10_0000, one_taken)
unfolding Runs
alloc_first = refl

start-IsConsistent : IsConsistent 0x10_0000 2 start_pool
unfolding byte_count
start-IsConsistent =
    addr_alloc_init-IsConsistent (7 ∷ []) 0x10_0000 8192 (omega arith) (λ i. ground arith)
      (omega arith) (omega arith)

one_reached : Reach start_pool one_pool
one_reached = next here (take_page 0x10_0000 one_taken alloc_first (omega arith) refl)

alloc_second : addr_alloc_page one_taken 1 ≡ (0x10_1000, full)
unfolding Runs
alloc_second = refl

full_reached : Reach start_pool full_pool
full_reached = next one_reached (take_page 0x10_1000 full alloc_second (omega arith) refl)

alloc_third : addr_alloc_page full 1 ≡ (0, full)
unfolding Runs
alloc_third = refl

addr_alloc_page-fresh_example : count 0x10_1000 (0x10_0000 ∷ []) ≡ 0
addr_alloc_page-fresh_example =
    addr_alloc_page-fresh 0x10_0000 2 start_pool one_pool 0x10_1000 full start-IsConsistent
      one_reached alloc_second (omega arith)

addr_alloc_page-exhausted_example : count (0x10_0000 + 1 * 4096) (0x10_1000 ∷ 0x10_0000 ∷ []) ≡ 1
addr_alloc_page-exhausted_example =
    addr_alloc_page-exhausted 0x10_0000 2 start_pool full_pool full start-IsConsistent full_reached
      alloc_third 1 (omega arith)
