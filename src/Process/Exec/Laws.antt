-- ===== src/Process/Exec/Laws.antt =====
-- What `sys_execve` of kernel/core/task.c changes, and what a failure leaves.
use wjos.Common.{
  ℕ, zero, suc, ◌-◌, ◌≤◌, ltb, ◌≡◌, refl, ◌≢◌, ◌⊎◌, inl, inr, Bool, true, false, Option, none, some,
  List, arith, ◌==◌, if◌then◌else◌, Bool-cases,
}
use wjos.Common.Words.{add32}
use wjos.Memory.Alloc.{mem_page_size}
use wjos.Memory.Table.{Memory}
use wjos.Memory.User.{memory_alloc_for_page_dir}
use wjos.Memory.Copy.{memory_destroy_uvm}
use wjos.Fs.Calls.{FsOp}
use wjos.Process.Exec.{Exec, stack_top, stack_base, exec_frame}
use wjos.Process.Exec.Load.{Loaded, if_read, load_page, load_pages}
use wjos.Process.Exec.Args.{copy_args, args_count}

-- The memory with the new stack and the arguments on it, behind the load, and whether it came to that.
abbrev pub built : {S : Type 0} → ℕ → ℕ → List (List ℕ) → Loaded S → Option (Bool × Memory)
built ret new_dir argv l = elim (memory_alloc_for_page_dir l.mem new_dir stack_base 0x1F_4000 7) [
  | none ↦ none
  | some (_, mem) ↦ copy_args ret stack_top new_dir (args_count argv) argv mem
]

-- The task behind the load keeps its directory and its frame, with the files and the heap of the load.
pub record Kept {S : Type 0} (e : Exec S) (l : Loaded S) (e' : Exec S) : Type 0 where
  pub cr3 : e'.cr3 ≡ e.cr3
  pub frame : e'.frame ≡ e.frame
  pub sys : e'.sys ≡ l.sys
  pub heap : e'.heap ≡ l.heap

module _ {S : Type 0} (ret new_dir : ℕ) (argv : List (List ℕ)) (made : Memory)
    (load : Option (ℕ × Loaded S)) (e : Exec S) where
  -- What `sys_execve` comes to, for the memory `made` with the new directory and the result `load` of
  -- the loader. Without a directory nothing is loaded. A failure behind the load keeps the task's
  -- directory and frame and gives the new directory back: where the entry is 0, or where the
  -- arguments do not fit. A success gives the task's old directory back, and the task has the new one
  -- and a frame that starts at the entry of the program that was loaded. A failed `ASSERT` ends in
  -- none of these.
  pub data Executed : Option (Bool × Exec S) → Type 0 where
    stops : Executed none
    no_dir :
        (e' : Exec S)
        → new_dir ≡ 0
        → e'.cr3 ≡ e.cr3
        → e'.frame ≡ e.frame
        → e'.sys ≡ e.sys
        → e'.mem ≡ made
        → Executed (some (false, e'))
    fails :
        (e' : Exec S) (entry : ℕ) (l : Loaded S) (mem : Memory)
        → new_dir ≢ 0
        → load ≡ some (entry, l)
        → ((entry ≡ 0) × (mem ≡ l.mem))
          ⊎ ((entry ≢ 0) × (built ret new_dir argv l ≡ some (false, mem)))
        → Kept e l e'
        → e'.mem ≡ memory_destroy_uvm mem new_dir
        → Executed (some (false, e'))
    starts :
        (e' : Exec S) (entry : ℕ) (l : Loaded S) (mem : Memory)
        → new_dir ≢ 0
        → entry ≢ 0
        → load ≡ some (entry, l)
        → built ret new_dir argv l ≡ some (true, mem)
        → e'.cr3 ≡ new_dir
        → e'.frame ≡ exec_frame entry e.frame
        → e'.sys ≡ l.sys
        → e'.heap ≡ l.heap
        → e'.mem ≡ memory_destroy_uvm mem e.cr3
        → Executed (some (true, e'))

module _ {S : Type 0} (op : ℕ → FsOp S) where
  if_read_ends :
      (r : Bool × Loaded S) (rest : Loaded S → Option (Bool × Loaded S))
      → ((l : Loaded S) → (a : Bool × Loaded S) × (rest l ≡ some a))
      → (a : Bool × Loaded S) × (if_read r rest ≡ some a)
  if_read_ends (false, l) rest ends = ((false, l), refl)
  if_read_ends (true, l) rest ends = ends l

  -- The loop of `load_phdr` ends within a round for each byte of the segment's file.
  pub load_pages_ends :
      (fuel file page_dir vaddr size : ℕ) (l : Loaded S)
      → size ≤ fuel
      → (a : Bool × Loaded S) × (load_pages op fuel file page_dir vaddr size l ≡ some a)
  unfolding load_pages
  load_pages_ends zero file page_dir vaddr size l le =
      let done : (size == 0) ≡ true = ground (arith, le) in
      rw (done, if◌then◌else◌) ((true, l), refl)
  load_pages_ends (suc fuel) file page_dir vaddr size l le = elim (Bool-cases (size == 0)) [
    | inl e ↦ rw (e, if◌then◌else◌) ((true, l), refl)
    | inr e ↦
        rw (e, if◌then◌else◌)
          (let curr_size = if ltb mem_page_size size then mem_page_size else size in
            if_read_ends (load_page op file page_dir vaddr curr_size l)
              (load_pages op fuel file page_dir (add32 vaddr curr_size) (size - curr_size))
              (λ l'.
                load_pages_ends fuel file page_dir (add32 vaddr curr_size) (size - curr_size) l'
                  (ground (arith, e, le))))
  ]
