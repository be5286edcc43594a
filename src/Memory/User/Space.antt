-- ===== src/Memory/User/Space.antt =====
-- `memory_create_uvm` of kernel/core/memory.c.
use wjos.Common.{
  ℕ, zero, suc, ◌+◌, ◌*◌, ◌≤◌, ◌<◌, ◌≡◌, refl, ◌⊎◌, inl, inr, ◌&&◌, false, arith, ltb, leb, ◌==◌,
  if◌then◌else◌,
}
use wjos.Memory.Alloc.{AddrAlloc, mem_page_size, addr_alloc_page}
use wjos.Memory.Alloc.Pages
use wjos.Memory.Alloc.Pages.{Handed, Exhausted, addr_alloc_page_lem}
use wjos.Memory.Table.{Memory, store, clear_page}
use wjos.Memory.User.{copy_slots, fill_dir, memory_create_uvm}

-- The loop copies its slots and leaves the others; the two directories do not meet.
copy_slots-slot :
    (kernel_dir dir n i : ℕ) (word : ℕ → ℕ) (j : ℕ)
    → kernel_dir + mem_page_size ≤ dir
    → i + n ≤ 1024
    → j < 1024
    → copy_slots kernel_dir dir n i word (dir + 4 * j)
      ≡ (if leb i j && ltb j (i + n) then word (kernel_dir + 4 * j) else word (dir + 4 * j))
unfolding copy_slots
copy_slots-slot kernel_dir dir zero i word j apart fits h = ground arith
copy_slots-slot kernel_dir dir (suc n) i word j apart fits h = ground (
  arith,
  copy_slots-slot kernel_dir dir n (i + 1) (store word (dir + 4 * i) (word (kernel_dir + 4 * i))) j
      apart (omega arith) h,
)

module _ (kernel_dir : ℕ) (m : Memory) (v : Pages.IsValid m.alloc)
    (below : kernel_dir + mem_page_size ≤ m.alloc.start) where
  -- The directory slots that user space starts from.
  abbrev pub IsFresh : ℕ → Memory → Type 0
  IsFresh dir m' =
      (j : ℕ)
      → j < 1024
      → m'.word (dir + 4 * j) ≡ (if ltb j 512 then m.word (kernel_dir + 4 * j) else 0)

  abbrev pub Created : ℕ × Memory → Type 0
  Created r =
      ((i : ℕ) × Handed m.alloc i r.0 r.1.alloc × IsFresh r.0 r.1)
      ⊎ ((r.0 ≡ 0) × (r.1.alloc ≡ m.alloc) × (r.1.word ≡ m.word))

  fill_dir-Created :
      (r : ℕ × AddrAlloc)
      → ((i : ℕ) × Handed m.alloc i r.0 r.1) ⊎ Exhausted m.alloc r.0 r.1
      → Created (fill_dir kernel_dir m r)
  unfolding fill_dir
  fill_dir-Created (dir, a) (inl (i, handed)) =
      let taken : (dir == 0) ≡ false = ground (arith, handed.addr_eq, v.above) in
      rw (taken, if◌then◌else◌)
        (inl (
          i,
          handed,
          λ j h.
              rw
                (copy_slots-slot kernel_dir dir 512 0 (clear_page m.word dir) j
                  (omega (arith, handed.addr_eq)) (omega arith) h)
                (ground (arith, handed.addr_eq)),
        ))
  fill_dir-Created (dir, a) (inr x) = rw x.null (inr (refl, x.same, refl))

  -- `memory_create_uvm` gives a page nobody else had, whose slots below `MEMORY_TASK_BASE` are the
  -- kernel's and whose other slots are empty. It returns 0 only where no page is free, and then
  -- changes nothing.
  pub memory_create_uvm_lem : Created (memory_create_uvm kernel_dir m)
  unfolding memory_create_uvm
  memory_create_uvm_lem =
      fill_dir-Created (addr_alloc_page m.alloc 1) (addr_alloc_page_lem m.alloc v)
