-- ===== src/Process/Fork.antt =====
-- `sys_fork` of kernel/core/task.c: what the child takes from its parent.
use wjos.Common.{ℕ, Option, none, some}
use wjos.Common.Words.{add32}
use wjos.Memory.Table.{Memory}
use wjos.Memory.Copy.{memory_copy_uvm}
use wjos.Fs.Files.{copy_opened_files}
use wjos.Sched.{update}
use wjos.Process.{Tss, Frame, Kernel, put_res, curr_page_dir, task_init, task_start}
use wjos.Sched.Exit.{alloc_task}

-- What the child takes from the frame of its parent: all registers but `eax`, which is 0.
unfoldable pub child_tss : Frame → Tss → Tss
child_tss frame tss = record tss {
  eax = 0;
  ebx = frame.ebx;
  ecx = frame.ecx;
  edx = frame.edx;
  esi = frame.esi;
  edi = frame.edi;
  ebp = frame.ebp;
  cs = frame.cs;
  ds = frame.ds;
  es = frame.es;
  fs = frame.fs;
  gs = frame.gs;
  eflags = frame.eflags;
}

-- The child's files, registers and parent.
unfoldable pub inherit : ℕ → ℕ → Frame → Kernel → Kernel
unfolding copy_opened_files child_tss update
inherit parent child frame k =
    let (fds, files) =
      copy_opened_files (k.sched.tasks parent).file_table (k.sched.tasks child).file_table
        k.files in
    record (put_res k child (record (k.res child) { tss = child_tss frame (k.res child).tss })) {
      sched = update k.sched child (λ task. record task { file_table = fds; parent = some parent });
      files = files;
    }

-- The end of `sys_fork`, from the copy of the memory. Its page directory is an unsigned number, so
-- the test for a negative one never holds.
unfoldable pub fork_end : ℕ → Option (ℕ × Memory) → Kernel → Option (Option ℕ × Kernel)
unfolding task_start
fork_end child none k = none
fork_end child (some (page_dir, mem)) k =
    let r = k.res child in
    some (
      some child,
      task_start
          (put_res (record k { mem = mem }) child
            (record r { tss = record r.tss { cr3 = page_dir } }))
          child,
    )

unfoldable pub fork_behind : ℕ → ℕ → Frame → Option Kernel → Option (Option ℕ × Kernel)
unfolding inherit fork_end memory_copy_uvm
fork_behind parent child frame none = none
fork_behind parent child frame (some k) =
    let k' = inherit parent child frame k in
    fork_end child (memory_copy_uvm k'.kernel_dir (curr_page_dir k') (k'.res parent).tss.cr3 k'.mem)
      k'

unfoldable pub fork_to : (ℕ → ℕ) → Frame → Option ℕ → Kernel → Option (Option ℕ × Kernel)
unfolding fork_behind task_init
fork_to tss_addr frame none k = some (none, k)
fork_to tss_addr frame (some child) k =
    let parent = k.sched.curr_task in
    fork_behind parent child frame (
      task_init child (tss_addr child) (k.sched.tasks parent).name 0 frame.eip (add32 frame.esp 20)
        k)

-- The child's identifier, and none for -1. `tss_addr` gives the address of each task's state.
unfoldable pub sys_fork : (ℕ → ℕ) → Frame → Kernel → Option (Option ℕ × Kernel)
unfolding fork_to alloc_task
sys_fork tss_addr frame k = fork_to tss_addr frame (alloc_task k.sched) k
