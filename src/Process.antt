-- ===== src/Process.antt =====
-- The birth and the end of a task in kernel/core/task.c, over the scheduler, the descriptor table, the
-- pages and the files: `task_init`, `task_uninit` and `sys_fork`. A task is its index, which is its
-- identifier too. `none` is a failed `ASSERT`.
pub mod Fork
pub mod Started
pub mod Forked
pub mod Exhausted
pub mod Exec
mod Tests
use Prim.Native.Nat.{bit_or}
use wjos.Common.{
  ℕ, zero, suc, ◌+◌, ◌-◌, ◌*◌, Bool, true, false, not, Option, none, some, List, [], ◌∷◌, ◌++◌, ltb,
  leb, ◌==◌, if◌then◌else◌, replicate,
}
use wjos.Common.Words.{add32, sub32}
use wjos.Memory.Alloc.{AddrAlloc, mem_page_size, addr_alloc_page}
use wjos.Memory.Table.{Memory}
use wjos.Memory.User.{memory_create_uvm, memory_free_page}
use wjos.Memory.Copy.{memory_copy_uvm, memory_destroy_uvm}
use wjos.Cpu.Gdt.{Gdt, segment_desc_set, gdt_alloc_desc, gdt_free_sel}
use wjos.Tools.Strings.{copied}
use wjos.Fs.Files.{Files, copy_opened_files}
use wjos.Sched.{Task, TaskState, Manager, update, task_set_ready}
use wjos.Sched.Exit.{zero_task, alloc_task, free_task}

-- The fields of a `tss_t` that the kernel sets.
pub record Tss : Type 0 where
  pub esp0 : ℕ
  pub ss0 : ℕ
  pub cr3 : ℕ
  pub eip : ℕ
  pub eflags : ℕ
  pub eax : ℕ
  pub ecx : ℕ
  pub edx : ℕ
  pub ebx : ℕ
  pub esp : ℕ
  pub ebp : ℕ
  pub esi : ℕ
  pub edi : ℕ
  pub es : ℕ
  pub cs : ℕ
  pub ss : ℕ
  pub ds : ℕ
  pub fs : ℕ
  pub gs : ℕ

abbrev pub zero_tss : Tss
zero_tss = record {
  esp0 = 0;
  ss0 = 0;
  cr3 = 0;
  eip = 0;
  eflags = 0;
  eax = 0;
  ecx = 0;
  edx = 0;
  ebx = 0;
  esp = 0;
  ebp = 0;
  esi = 0;
  edi = 0;
  es = 0;
  cs = 0;
  ss = 0;
  ds = 0;
  fs = 0;
  gs = 0;
}

-- A `syscall_frame_t`, at the top of the kernel stack of a task that has called the kernel. `eax`
-- is what `handle_syscall` sets to the result at the end.
pub record Frame : Type 0 where
  pub eflags : ℕ
  pub gs : ℕ
  pub fs : ℕ
  pub es : ℕ
  pub ds : ℕ
  pub edi : ℕ
  pub esi : ℕ
  pub ebp : ℕ
  pub ebx : ℕ
  pub edx : ℕ
  pub ecx : ℕ
  pub eip : ℕ
  pub cs : ℕ
  pub esp : ℕ

-- What a task has beside its `Task`.
pub record Resources : Type 0 where
  pub tss : Tss
  pub tss_sel : ℕ
  pub heap_start : ℕ
  pub heap_end : ℕ

abbrev pub no_resources : Resources
no_resources = record { tss = zero_tss; tss_sel = 0; heap_start = 0; heap_end = 0 }

pub record Kernel : Type 0 where
  pub sched : Manager
  pub task_list : List ℕ
  pub res : ℕ → Resources
  pub gdt : Gdt
  pub mem : Memory
  pub files : Files
  pub kernel_dir : ℕ
  pub app_code_sel : ℕ
  pub app_data_sel : ℕ

abbrev pub put_res : Kernel → ℕ → Resources → Kernel
put_res k t r = record k { res = λ u. if u == t then r else k.res u }

-- The page directory of the task that runs.
abbrev pub curr_page_dir : Kernel → ℕ
curr_page_dir k = (k.res k.sched.curr_task).tss.cr3

abbrev pub is_system : ℕ → Bool
is_system flag = flag == 1

-- The segment that carries a task's state, for the address of its `tss`.
abbrev pub set_tss_desc : Kernel → ℕ → ℕ → Kernel
set_tss_desc k sel addr = record k { gdt = segment_desc_set k.gdt sel addr 104 0x89 }

-- The state that a task starts from, without its page directory.
unfoldable pub start_tss : Kernel → ℕ → ℕ → ℕ → ℕ → Tss
start_tss k flag entry esp kernel_stack =
    let code_sel = if is_system flag then 8 else bit_or k.app_code_sel 3 in
    let data_sel = if is_system flag then 16 else bit_or k.app_data_sel 3 in
    record zero_tss {
      eip = entry;
      esp = esp;
      esp0 = add32 kernel_stack mem_page_size;
      ss = data_sel;
      ss0 = 16;
      es = data_sel;
      ds = data_sel;
      fs = data_sel;
      gs = data_sel;
      cs = code_sel;
      eflags = 0x202;
    }

-- The failure of `tss_init` behind the kernel stack, which `memory_free_page` has given back. The
-- descriptor is given back twice.
unfoldable pub tss_failed : ℕ → ℕ → Tss → Option Memory → Kernel → Option (Bool × Kernel)
unfolding gdt_free_sel
tss_failed t sel tss none k = none
tss_failed t sel tss (some mem) k = some (
  false,
  put_res (record k { mem = mem; gdt = gdt_free_sel (gdt_free_sel k.gdt sel) sel }) t
      (record (k.res t) { tss = tss }),
)

-- The end of `tss_init`, from the new page directory.
unfoldable pub tss_dir : ℕ → ℕ → ℕ → Tss → ℕ × Memory → Kernel → Option (Bool × Kernel)
unfolding memory_free_page tss_failed
tss_dir t sel kernel_stack tss (page_dir, mem) k =
    if page_dir == 0
    then tss_failed t sel tss (memory_free_page mem (curr_page_dir k) kernel_stack) k
    else some (
      true,
      put_res (record k { mem = mem }) t
          (record (k.res t) { tss = record tss { cr3 = page_dir }; tss_sel = sel }),
    )

-- The middle of `tss_init`, from the page for the kernel stack.
unfoldable pub tss_stack : ℕ → ℕ → ℕ → ℕ → ℕ → ℕ × AddrAlloc → Kernel → Option (Bool × Kernel)
unfolding start_tss tss_dir memory_create_uvm
tss_stack t flag entry esp sel (kernel_stack, alloc) k =
    let k' = record k { mem = record k.mem { alloc = alloc } } in
    if kernel_stack == 0
    then some (
      false,
      put_res (record k' { gdt = gdt_free_sel k.gdt sel }) t (record (k.res t) { tss = zero_tss }),
    )
    else tss_dir t sel kernel_stack (start_tss k flag entry esp kernel_stack)
        (memory_create_uvm k.kernel_dir k'.mem) k'

unfoldable pub tss_desc : ℕ → ℕ → ℕ → ℕ → ℕ → Option ℕ → Kernel → Option (Bool × Kernel)
unfolding tss_stack segment_desc_set
tss_desc t tss_addr flag entry esp none k = some (false, k)
tss_desc t tss_addr flag entry esp (some sel) k =
    tss_stack t flag entry esp sel (addr_alloc_page k.mem.alloc 1) (set_tss_desc k sel tss_addr)

unfoldable pub tss_init : ℕ → ℕ → ℕ → ℕ → ℕ → Kernel → Option (Bool × Kernel)
unfolding tss_desc
tss_init t tss_addr flag entry esp k = tss_desc t tss_addr flag entry esp (gdt_alloc_desc k.gdt) k

-- The fields of a new task.
unfoldable pub new_task : List ℕ → Task
new_task name = record {
  state = TaskState.created;
  parent = none;
  sleep_ticks = 0;
  time_ticks = 10;
  slice_ticks = 10;
  status = 0;
  file_table = replicate 128 none;
  name = copied name 32;
}

-- What follows `tss_init`, whose result `task_init` does not look at.
unfoldable pub init_behind : ℕ → List ℕ → Option (Bool × Kernel) → Option Kernel
unfolding new_task update
init_behind t name none = none
init_behind t name (some (_, k)) =
    some (record (put_res k t (record (k.res t) { heap_start = 0; heap_end = 0 })) {
      sched = update k.sched t (λ _. new_task name);
      task_list = k.task_list ++ (t ∷ []);
    })

-- The answer of `task_init` is 0 always.
unfoldable pub task_init : ℕ → ℕ → List ℕ → ℕ → ℕ → ℕ → Kernel → Option Kernel
unfolding tss_init init_behind
task_init t tss_addr name flag entry esp k =
    init_behind t name (tss_init t tss_addr flag entry esp k)

unfoldable pub task_start : Kernel → ℕ → Kernel
unfolding task_set_ready
task_start k t = record k { sched = task_set_ready k.sched t }

-- The record is cleared and stays in the list of tasks. The page given back is the one below `esp`.
unfoldable pub task_uninit : ℕ → Kernel → Option Kernel
unfolding gdt_free_sel memory_free_page memory_destroy_uvm update
task_uninit t k =
    let tss = (k.res t).tss in
    let gdt = if (k.res t).tss_sel == 0 then k.gdt else gdt_free_sel k.gdt (k.res t).tss_sel in
    let stack =
      if tss.esp0 == 0
      then some k.mem
      else memory_free_page k.mem (curr_page_dir k) (sub32 tss.esp mem_page_size) in
    elim stack [
      | none ↦ none
      | some mem ↦
          let mem' = if tss.cr3 == 0 then mem else memory_destroy_uvm mem tss.cr3 in
          some (record (put_res k t no_resources) {
            gdt = gdt;
            mem = mem';
            sched = update k.sched t (λ _. zero_task);
          })
    ]
