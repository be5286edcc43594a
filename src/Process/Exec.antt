-- ===== src/Process/Exec.antt =====
-- `sys_execve` of kernel/core/task.c: the loader of ELF files over the file calls, the arguments on
-- the new stack, and the change of the address space. `none` is a failed `ASSERT`.
pub mod Load
pub mod Args
pub mod Laws
use wjos.Common.{
  ℕ, zero, suc, ◌+◌, ◌-◌, ◌*◌, Bool, true, false, Option, none, some, List, [], ◌∷◌, ◌==◌,
  if◌then◌else◌,
}
use wjos.Common.Words.{sub32}
use wjos.Memory.Table.{Memory}
use wjos.Memory.User.{memory_create_uvm, memory_alloc_for_page_dir}
use wjos.Memory.Copy.{memory_destroy_uvm}
use wjos.Tools.Strings.{copied, get_file_name}
use wjos.Fs.Calls.{FsOp, System}
use wjos.Process.{Frame}
use wjos.Process.Exec.Load.{Loaded, load_elf_file}
use wjos.Process.Exec.Args.{copy_args, args_count}

-- The task that executes: its name, heap, page directory and frame, with the files and the memory.
-- `kernel_dir` and the bytes that stand on the stack do not change.
pub record Exec (S : Type 0) : Type 0 where
  pub sys : System S
  pub mem : Memory
  pub name : List ℕ
  pub heap : Option ℕ
  pub cr3 : ℕ
  pub frame : Frame

-- The top of the stack, below the room for the arguments; the stack has 500 pages.
abbrev pub stack_top : ℕ
stack_top = 0xDFFF_C000

abbrev pub stack_base : ℕ
stack_base = 0xDFE0_C000

-- The frame with which the new program starts.
unfoldable pub exec_frame : ℕ → Frame → Frame
exec_frame entry frame = record frame {
  eip = entry;
  ebx = 0;
  ecx = 0;
  edx = 0;
  esi = 0;
  edi = 0;
  ebp = 0;
  eflags = 0x202;
  esp = sub32 stack_top 20;
}

module _ {S : Type 0} where
  -- `exec_failed`, with the new page directory.
  unfoldable pub exec_failed : ℕ → Exec S → Option (Bool × Exec S)
  unfolding memory_destroy_uvm
  exec_failed new_dir e = some (false, record e { mem = memory_destroy_uvm e.mem new_dir })

  -- The end of `sys_execve`, from the result of `copy_args`.
  unfoldable pub exec_end : ℕ → ℕ → Option (Bool × Memory) → Exec S → Option (Bool × Exec S)
  unfolding exec_failed exec_frame memory_destroy_uvm
  exec_end new_dir entry none e = none
  exec_end new_dir entry (some (false, mem)) e = exec_failed new_dir (record e { mem = mem })
  exec_end new_dir entry (some (true, mem)) e = some (
    true,
    record e {
      mem = memory_destroy_uvm mem e.cr3;
      cr3 = new_dir;
      frame = exec_frame entry e.frame;
    },
  )

  -- From the pages of the new stack, whose result is never negative.
  unfoldable pub exec_args :
      ℕ → ℕ → ℕ → List (List ℕ) → Option (ℕ × Memory) → Exec S → Option (Bool × Exec S)
  unfolding exec_end copy_args
  exec_args ret new_dir entry argv none e = none
  exec_args ret new_dir entry argv (some (_, mem)) e =
      exec_end new_dir entry (copy_args ret stack_top new_dir (args_count argv) argv mem) e

  -- From the entry of the program that was loaded.
  unfoldable pub exec_loaded :
      ℕ → ℕ → List (List ℕ) → Option (ℕ × Loaded S) → Exec S → Option (Bool × Exec S)
  unfolding exec_args exec_failed memory_alloc_for_page_dir
  exec_loaded ret new_dir argv none e = none
  exec_loaded ret new_dir argv (some (entry, l)) e =
      let e' = record e { sys = l.sys; mem = l.mem; heap = l.heap } in
      if entry == 0
      then exec_failed new_dir e'
      else exec_args ret new_dir entry argv
          (memory_alloc_for_page_dir l.mem new_dir stack_base 0x1F_4000 7) e'

module _ {S : Type 0} (op : ℕ → FsOp S) where
  -- From the new page directory.
  unfoldable pub exec_dir :
      ℕ → List ℕ → List ℕ → List (List ℕ) → ℕ × Memory → Exec S → Option (Bool × Exec S)
  unfolding exec_loaded load_elf_file
  exec_dir ret stack name argv (new_dir, mem) e =
      if new_dir == 0
      then some (false, record e { mem = mem })
      else exec_loaded ret new_dir argv
          (load_elf_file op stack name new_dir (record { sys = e.sys; mem = mem; heap = e.heap }))
          (record e { mem = mem })

  -- `true` is 0. `stack` and `ret` are what the local variables hold that are not set.
  unfoldable pub sys_execve :
      ℕ → List ℕ → ℕ → List ℕ → List (List ℕ) → Exec S → Option (Bool × Exec S)
  unfolding exec_dir memory_create_uvm copied get_file_name
  sys_execve ret stack kernel_dir name argv e =
      exec_dir ret stack name argv (memory_create_uvm kernel_dir e.mem)
        (record e { name = copied (get_file_name name) 32 })
