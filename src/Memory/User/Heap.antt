-- ===== src/Memory/User/Heap.antt =====
-- `sys_sbrk`: its result and the end of the heap on every path, and what it does without memory.
use wjos.Common.{
  ℕ, zero, suc, ◌+◌, ◌/◌, ◌%◌, ◌≤◌, ◌<◌, ◌≡◌, refl, ◌≢◌, inl, inr, Option, none, some, arith,
}
use wjos.Common.Words.{u32_mod, add32, sub32}
use wjos.Bitmap.{get_bit}
use wjos.Memory.Alloc.{mem_page_size, addr_alloc_page}
use wjos.Memory.Alloc.Pages
use wjos.Memory.Alloc.Pages.{Handed, Exhausted, addr_alloc_page_lem}
use wjos.Memory.Table.{Memory}
use wjos.Memory.User.{
  Sbrk, sys_sbrk, grow_heap, alloc_pages, map_page, memory_alloc_for_page_dir, up2, heap_start,
}

grow_heap-eq-some :
    (heap_end end : ℕ) (r : Option (ℕ × Memory)) (s : Sbrk)
    → grow_heap heap_end end r ≡ some s
    → (s.result ≡ heap_end) × (s.heap_end ≡ end)
unfolding grow_heap
grow_heap-eq-some heap_end end none s e = cc
grow_heap-eq-some heap_end end (some (err, m)) s e = ground arith

module _ (m : Memory) (dir heap_end incr : ℕ) (in_word : heap_end < u32_mod) where
  -- On every path that returns, `sys_sbrk` returns the old end of the heap and moves it by `incr`.
  pub sys_sbrk-heap_end :
      (s : Sbrk)
      → sys_sbrk m dir heap_end incr ≡ some s
      → (s.result ≡ heap_end) × (s.heap_end ≡ add32 heap_end incr)
  unfolding sys_sbrk
  sys_sbrk-heap_end s e = ground (
    arith,
    grow_heap-eq-some heap_end (add32 heap_end incr)
        (memory_alloc_for_page_dir m dir (heap_start heap_end)
          (sub32 (add32 heap_end incr) (heap_start heap_end)) 7)
        s,
  )

  -- Bytes that the last page still has are given without touching memory.
  pub sys_sbrk-same_page :
      heap_end % mem_page_size ≢ 0
      → heap_end % mem_page_size + incr ≤ mem_page_size
      → sys_sbrk m dir heap_end incr
        ≡ some (record { result = heap_end; heap_end = add32 heap_end incr; memory = m })
  unfolding sys_sbrk
  sys_sbrk-same_page off fits = ground arith

-- With every page in use the loop returns at its first round, with 0 and nothing changed.
alloc_pages-exhausted :
    (m : Memory) (dir vaddr perm n i curr : ℕ)
    → addr_alloc_page m.alloc 1 ≡ (0, m.alloc)
    → alloc_pages dir vaddr perm n i curr m ≡ some (0, m)
unfolding alloc_pages map_page
alloc_pages-exhausted m dir vaddr perm zero i curr e = refl
alloc_pages-exhausted m dir vaddr perm (suc n) i curr e = rw e

module _ (m : Memory) (dir heap_end incr : ℕ) (v : Pages.IsValid m.alloc)
    (full : (j : ℕ) → j < m.alloc.bitmap.bit_count → get_bit m.alloc.bitmap j ≢ 0) where
  pub no_page : addr_alloc_page m.alloc 1 ≡ (0, m.alloc)
  no_page = elim (addr_alloc_page_lem m.alloc v) [
    | inl (i, h) ↦ absurd (full i h.inside h.was_free)
    | inr x ↦ ground (arith, x.null, x.same)
  ]

  no_pages : (vaddr size perm : ℕ) → memory_alloc_for_page_dir m dir vaddr size perm ≡ some (0, m)
  unfolding memory_alloc_for_page_dir
  no_pages vaddr size perm =
      alloc_pages-exhausted m dir vaddr perm (up2 size mem_page_size / mem_page_size) 0 vaddr
        no_page

  -- With every page in use `sys_sbrk` still reports success and moves the end of the heap, though
  -- nothing is mapped: memory is exactly as before.
  sys_sbrk-exhausted :
      heap_end < u32_mod
      → sys_sbrk m dir heap_end incr
        ≡ some (record { result = heap_end; heap_end = add32 heap_end incr; memory = m })
  unfolding sys_sbrk grow_heap
  sys_sbrk-exhausted h =
      ground (
        arith,
        no_pages (heap_start heap_end) (sub32 (add32 heap_end incr) (heap_start heap_end)) 7,
      )
