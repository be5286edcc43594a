-- ===== src/Memory/Copy/Empty.antt =====
-- `memory_copy_uvm` of kernel/core/memory.c for an address space without pages of its own.
use wjos.Common.{
  ℕ, zero, suc, ◌+◌, ◌*◌, ◌≡◌, refl, ◌≢◌, Bool, true, false, Option, some, arith, ◌==◌,
  if◌then◌else◌, ap, ◌∙◌,
}
use wjos.Memory.Alloc.{AddrAlloc, addr_alloc_page}
use wjos.Memory.Table.{Memory, present, clear_page, store}
use wjos.Memory.User.{copy_slots, fill_dir, memory_create_uvm}
use wjos.Memory.Copy.{copy_end, copy_tables, copy_to, memory_copy_uvm}

-- No word of memory is set.
abbrev pub IsBlank : (ℕ → ℕ) → Type 0
IsBlank word = (a : ℕ) → word a ≡ 0

copy_slots-IsBlank :
    (kernel_dir dir n i : ℕ) (word : ℕ → ℕ)
    → IsBlank word
    → IsBlank (copy_slots kernel_dir dir n i word)
unfolding copy_slots
copy_slots-IsBlank kernel_dir dir zero i word blank = blank
copy_slots-IsBlank kernel_dir dir (suc n) i word blank =
    copy_slots-IsBlank kernel_dir dir n (i + 1)
      (store word (dir + 4 * i) (word (kernel_dir + 4 * i)))
      (λ a. ground (arith, blank a, blank (kernel_dir + 4 * i)))

clear_page-IsBlank : (word : ℕ → ℕ) (page : ℕ) → IsBlank word → IsBlank (clear_page word page)
clear_page-IsBlank word page blank a = ground (arith, blank a)

-- `memory_create_uvm` on blank memory gives a directory in blank memory.
pub memory_create_uvm-IsBlank :
    (kernel_dir dir : ℕ) (alloc : AddrAlloc) (m : Memory)
    → IsBlank m.word
    → addr_alloc_page m.alloc 1 ≡ (dir, alloc)
    → dir ≢ 0
    → (word : ℕ → ℕ) × (memory_create_uvm kernel_dir m
        ≡ (dir, record { alloc = alloc; word = word }))
      × IsBlank word
unfolding memory_create_uvm fill_dir
memory_create_uvm-IsBlank kernel_dir dir alloc m blank page some_dir =
    let taken : (dir == 0) ≡ false = ground (arith, some_dir) in
    (
      copy_slots kernel_dir dir 512 0 (clear_page m.word dir),
      ap (fill_dir kernel_dir m) page ∙ rw (taken, if◌then◌else◌) refl,
      copy_slots-IsBlank kernel_dir dir 512 0 (clear_page m.word dir)
          (clear_page-IsBlank m.word dir blank),
    )

copy_tables-IsBlank :
    (curr_dir to_dir page_dir n i : ℕ) (m : Memory)
    → IsBlank m.word
    → copy_tables curr_dir to_dir page_dir n i m ≡ some (true, m)
unfolding copy_tables
copy_tables-IsBlank curr_dir to_dir page_dir zero i m blank = refl
copy_tables-IsBlank curr_dir to_dir page_dir (suc n) i m blank =
    let absent : present (m.word (page_dir + 4 * i)) ≡ false =
      ap present (blank (page_dir + 4 * i)) in
    rw (absent, if◌then◌else◌) (copy_tables-IsBlank curr_dir to_dir page_dir n (i + 1) m blank)

pub memory_copy_uvm-IsBlank :
    (kernel_dir curr_dir page_dir dir : ℕ) (alloc : AddrAlloc) (m : Memory)
    → IsBlank m.word
    → addr_alloc_page m.alloc 1 ≡ (dir, alloc)
    → dir ≢ 0
    → (m' : Memory) × (memory_copy_uvm kernel_dir curr_dir page_dir m ≡ some (dir, m'))
unfolding memory_copy_uvm copy_to
memory_copy_uvm-IsBlank kernel_dir curr_dir page_dir dir alloc m blank page some_dir =
    let (word, made, blank') =
      memory_create_uvm-IsBlank kernel_dir dir alloc m blank page some_dir in
    let m' : Memory = record { alloc = alloc; word = word } in
    let taken : (dir == 0) ≡ false = ground (arith, some_dir) in
    (
      m',
      ap (copy_to curr_dir page_dir) made
          ∙ ends (dir == 0) (copy_tables curr_dir dir page_dir 512 512 m') m' taken
              (copy_tables-IsBlank curr_dir dir page_dir 512 512 m' blank'),
    )
  where
    ends :
        (b : Bool) (r : Option (Bool × Memory)) (m' : Memory)
        → b ≡ false
        → r ≡ some (true, m')
        → (if b then some (0, m') else copy_end dir r) ≡ some (dir, m')
    ends b r m' other all =
        ap (λ b. if b then some (0, m') else copy_end dir r) other ∙ ap (copy_end dir) all
