-- ===== src/Memory/Alloc/Pages.antt =====
-- One page at a time, as every caller of the allocator asks for: success, failure, and a page
-- that is given back.
use wjos.Common.{
  ℕ, ◌+◌, ◌*◌, ◌/◌, ◌%◌, ◌^◌, ◌≤◌, ◌<◌, ◌≡◌, refl, ◌≢◌, ◌⊎◌, inl, inr, none, some, Option, arith,
  ◌==◌, if◌then◌else◌, ap,
}
use wjos.Common.Words.{u32_mod, sub32}
use wjos.Bitmap
use wjos.Bitmap.{Bitmap, get_bit, set_bit}
use wjos.Bitmap.Set
use wjos.Bitmap.Set.{set_bit-IsValid, bit_count-set_bit, get_bit-set_bit}
use wjos.Bitmap.Alloc.{alloc_nbits-Allocated, alloc_nbits-full}
use wjos.Memory.Alloc.{AddrAlloc, mem_page_size, run_addr, addr_alloc_page, addr_free_page}

-- The allocator that `memory_init` sets up and all operations keep: pages of 4096 bytes above
-- address 0 and below 2^32, one bit for each.
pub record IsValid (a : AddrAlloc) : Type 0 where
  pub bitmap : Set.IsValid a.bitmap
  pub pages : a.bitmap.bit_count * mem_page_size ≤ a.size
  pub page : a.page_size ≡ mem_page_size
  pub above : 0 < a.start
  pub below : a.start + a.size ≤ u32_mod

abbrev pub page_addr : AddrAlloc → ℕ → ℕ
page_addr a i = a.start + i * mem_page_size

-- A page that was handed out: the first that was free, and the only one whose state changes.
pub record Handed (a : AddrAlloc) (i : ℕ) (addr : ℕ) (a' : AddrAlloc) : Type 0 where
  pub addr_eq : addr ≡ page_addr a i
  pub inside : i < a.bitmap.bit_count
  pub was_free : get_bit a.bitmap i ≡ 0
  pub after : (j : ℕ) → get_bit a'.bitmap j ≡ (if j == i then 2 ^ (j % 8) else get_bit a.bitmap j)
  pub valid : IsValid a'
  pub same_start : a'.start ≡ a.start
  pub same_count : a'.bitmap.bit_count ≡ a.bitmap.bit_count

-- No page was free, and nothing has changed.
pub record Exhausted (a : AddrAlloc) (addr : ℕ) (a' : AddrAlloc) : Type 0 where
  pub null : addr ≡ 0
  pub full : (j : ℕ) → j < a.bitmap.bit_count → get_bit a.bitmap j ≢ 0
  pub same : a' ≡ a

module _ (a : AddrAlloc) (v : IsValid a) where
  page_in_memory :
      (i : ℕ) → i < a.bitmap.bit_count → page_addr a i + mem_page_size ≤ a.start + a.size
  page_in_memory i h = omega (arith, v.pages)

  abbrev pub Outcome : ℕ × AddrAlloc → Type 0
  Outcome r = ((i : ℕ) × Handed a i r.0 r.1) ⊎ Exhausted a r.0 r.1

  run_addr-Outcome :
      (r : Option ℕ × Bitmap) → Bitmap.alloc_nbits a.bitmap 0 1 ≡ r → Outcome (run_addr a r)
  unfolding run_addr
  run_addr-Outcome (none, b) e =
      let out = alloc_nbits-full a.bitmap v.bitmap b e in
      inr (record { null = refl; full = out.1; same = ground (arith, out.0) })
  run_addr-Outcome (some i, b) e =
      let out = alloc_nbits-Allocated a.bitmap v.bitmap i b e in
      let bytes : i * a.page_size ≡ i * mem_page_size = ap (λ p. i * p) v.page in
      inl (
        i,
        record {
          addr_eq = omega (arith, bytes, v.below, v.pages, out.inside);
          inside = out.inside;
          was_free = out.was_clear;
          after = out.after;
          valid = record {
            bitmap = out.valid;
            pages = omega (arith, out.same_count, v.pages);
            page = v.page;
            above = v.above;
            below = v.below;
          };
          same_start = refl;
          same_count = out.same_count;
        },
      )

  -- Every outcome of `addr_alloc_page(alloc, 1)`: the first free page, whose address is not 0, or
  -- 0 with every page in use.
  pub addr_alloc_page_lem : Outcome (addr_alloc_page a 1)
  unfolding addr_alloc_page
  addr_alloc_page_lem = run_addr-Outcome (Bitmap.alloc_nbits a.bitmap 0 1) refl

  page_index_of_addr :
      (i : ℕ) → i < a.bitmap.bit_count → sub32 (page_addr a i) a.start / a.page_size ≡ i
  page_index_of_addr i h = rw v.page (omega (arith, v.below, v.pages))

  -- Giving back page `i` clears its bit and no other, and keeps the allocator valid.
  pub addr_free_page-clears :
      (i : ℕ)
      → i < a.bitmap.bit_count
      → IsValid (addr_free_page a (page_addr a i) 1)
        × ((j : ℕ)
            → get_bit (addr_free_page a (page_addr a i) 1).bitmap j
              ≡ (if j == i then 0 else get_bit a.bitmap j))
  unfolding addr_free_page
  addr_free_page-clears i h = rw (page_index_of_addr i h) (
    record {
      bitmap = set_bit-IsValid 1 a.bitmap i 0 v.bitmap;
      pages = omega (arith, bit_count-set_bit 1 a.bitmap i 0, v.pages);
      page = v.page;
      above = v.above;
      below = v.below;
    },
    λ j. ground (arith, get_bit-set_bit 1 a.bitmap i 0 j v.bitmap),
  )

  pub addr_free_page-keeps :
      (addr k : ℕ)
      → ((addr_free_page a addr k).start ≡ a.start)
        × ((addr_free_page a addr k).bitmap.bit_count ≡ a.bitmap.bit_count)
  unfolding addr_free_page
  addr_free_page-keeps addr k = (refl, bit_count-set_bit k a.bitmap _ 0)
