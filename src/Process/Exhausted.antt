-- ===== src/Process/Exhausted.antt =====
-- Forks of kernel/core/task.c when every page is in use.
use wjos.Common.{ℕ, ◌<◌, ◌≡◌, refl, ◌≢◌, Bool, false, Option, none, some, List, ap, sym, subst}
use wjos.Common.Words.{add32}
use wjos.Bitmap.{get_bit}
use wjos.Memory.Alloc.{addr_alloc_page}
use wjos.Memory.Alloc.Pages
use wjos.Memory.Table.{Memory}
use wjos.Memory.User.{memory_create_uvm, fill_dir}
use wjos.Memory.User.Heap.{no_page}
use wjos.Memory.Copy.{memory_copy_uvm, copy_to}
use wjos.Cpu.Gdt.{gdt_alloc_desc}
use wjos.Sched.{idle_task}
use wjos.Sched.Exit.{alloc_task}
use wjos.Process.{
  Frame, Kernel, curr_page_dir, set_tss_desc, tss_init, tss_desc, tss_stack, task_init, init_behind,
}
use wjos.Process.Fork.{inherit, sys_fork}
use wjos.Process.Forked.{Forked, sys_fork_any}

-- A start that has failed, with memory as it was.
abbrev Failed : Memory → Option (Bool × Kernel) → Type 0
Failed mem r = (k : Kernel) × (r ≡ some (false, k)) × (k.mem ≡ mem)

module _ (k : Kernel) (v : Pages.IsValid k.mem.alloc)
    (full : (j : ℕ) → j < k.mem.alloc.bitmap.bit_count → get_bit k.mem.alloc.bitmap j ≢ 0) where
  none_free : addr_alloc_page k.mem.alloc 1 ≡ (0, k.mem.alloc)
  none_free = no_page k.mem 0 0 0 v full

  tss_init-Failed :
      (t tss_addr flag entry esp : ℕ) → Failed k.mem (tss_init t tss_addr flag entry esp k)
  unfolding tss_init
  tss_init-Failed t tss_addr flag entry esp = by_desc (gdt_alloc_desc k.gdt)
    where
      stopped :
          (sel : ℕ)
          → Failed k.mem
              (tss_stack t flag entry esp sel (0, k.mem.alloc) (set_tss_desc k sel tss_addr))
      stopped sel = (_, refl, refl)

      by_desc : (d : Option ℕ) → Failed k.mem (tss_desc t tss_addr flag entry esp d k)
      by_desc none = (k, refl, refl)
      by_desc (some sel) =
          subst (λ r. Failed k.mem (tss_stack t flag entry esp sel r (set_tss_desc k sel tss_addr)))
            (sym none_free) (stopped sel)

  pub copy_none :
      (kernel_dir curr_dir page_dir : ℕ)
      → memory_copy_uvm kernel_dir curr_dir page_dir k.mem ≡ some (0, k.mem)
  unfolding memory_copy_uvm copy_to memory_create_uvm fill_dir
  copy_none kernel_dir curr_dir page_dir =
      ap (λ r. copy_to curr_dir page_dir (fill_dir kernel_dir k.mem r)) none_free

  -- `task_init` goes on without the start.
  pub task_init_made :
      (t tss_addr : ℕ) (name : List ℕ) (flag entry esp : ℕ)
      → (k1 : Kernel) × (task_init t tss_addr name flag entry esp k ≡ some k1) × (k1.mem ≡ k.mem)
  unfolding task_init init_behind
  task_init_made t tss_addr name flag entry esp =
      let (k2, failed, same) = tss_init-Failed t tss_addr flag entry esp in
      (_, ap (init_behind t name) failed, same)

  pub inherit_mem :
      (parent child : ℕ) (frame : Frame) (k1 : Kernel)
      → k1.mem ≡ k.mem
      → (inherit parent child frame k1).mem ≡ k.mem
  unfolding inherit
  inherit_mem parent child frame k1 same = same

  -- With every page in use a fork reports success: the child that it starts has no start state and the
  -- page directory 0.
  pub sys_fork-exhausted :
      (tss_addr : ℕ → ℕ) (frame : Frame) (child : ℕ)
      → child ≢ idle_task
      → alloc_task k.sched ≡ some child
      → (k' : Kernel) × (sys_fork tss_addr frame k ≡ some (some child, k'))
        × Forked frame child k k'
        × ((k'.res child).tss.cr3 ≡ 0)
  sys_fork-exhausted tss_addr frame child real taken =
      let parent = k.sched.curr_task in
      let (k1, made, same) =
        task_init_made child (tss_addr child) (k.sched.tasks parent).name 0 frame.eip
          (add32 frame.esp 20) in
      let k2 = inherit parent child frame k1 in
      let mem_same = inherit_mem parent child frame k1 same in
      let copy : memory_copy_uvm k2.kernel_dir (curr_page_dir k2) (k2.res parent).tss.cr3 k2.mem
          ≡ some (0, k2.mem) =
        subst
          (λ m.
            memory_copy_uvm k2.kernel_dir (curr_page_dir k2) (k2.res parent).tss.cr3 m
            ≡ some (0, m))
          (sym mem_same) (copy_none k2.kernel_dir (curr_page_dir k2) (k2.res parent).tss.cr3) in
      sys_fork_any tss_addr frame child 0 k2.mem k k1 real taken made copy
