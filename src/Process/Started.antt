-- ===== src/Process/Started.antt =====
-- The start of a task in kernel/core/task.c: what `tss_init` and `task_init` keep and what they set.
use wjos.Common.{
  ℕ, ◌≡◌, refl, ◌≢◌, Bool, true, false, Option, none, some, List, arith, ◌==◌, if◌then◌else◌, ap,
  ◌∙◌, sym, subst, replicate,
}
use wjos.Memory.Alloc.{AddrAlloc, addr_alloc_page}
use wjos.Memory.Table.{Memory}
use wjos.Memory.User.{memory_create_uvm, memory_free_page}
use wjos.Cpu.Gdt.{gdt_alloc_desc}
use wjos.Sched.{Manager, update}
use wjos.Process.{
  Tss, start_tss, tss_dir, tss_failed, Kernel, curr_page_dir, set_tss_desc, tss_init, tss_desc,
  tss_stack, task_init, init_behind, new_task,
}

-- `task_init` keeps the lists of the scheduler and the task that runs.
pub record SameQueue (m m' : Manager) : Type 0 where
  pub curr : m'.curr_task ≡ m.curr_task
  pub ready : m'.ready_list ≡ m.ready_list

-- What a started child has, and what it has not changed.
pub record Started (t entry stack : ℕ) (k k1 : Kernel) : Type 0 where
  pub eip : (k1.res t).tss.eip ≡ entry
  pub esp : (k1.res t).tss.esp ≡ stack
  pub parent_fds :
      (k1.sched.tasks k.sched.curr_task).file_table ≡ (k.sched.tasks k.sched.curr_task).file_table
  pub child_fds : (k1.sched.tasks t).file_table ≡ replicate 128 none
  pub files : k1.files ≡ k.files

-- What `tss_init` comes to leaves the scheduler and the files as they were; a success sets the entry
-- and the stack.
data Init (t entry esp : ℕ) (k : Kernel) : Option (Bool × Kernel) → Type 0 where
  stops : Init t entry esp k none
  refused :
      (k' : Kernel)
      → k'.sched ≡ k.sched
      → k'.files ≡ k.files
      → Init t entry esp k (some (false, k'))
  started :
      (k' : Kernel)
      → k'.sched ≡ k.sched
      → k'.files ≡ k.files
      → (k'.res t).tss.eip ≡ entry
      → (k'.res t).tss.esp ≡ esp
      → Init t entry esp k (some (true, k'))

if-Init :
    {t entry esp : ℕ} {k : Kernel} {x y : Option (Bool × Kernel)} (b : Bool)
    → Init t entry esp k x
    → Init t entry esp k y
    → Init t entry esp k (if b then x else y)
if-Init true p q = p
if-Init false p q = q

tss_failed-Init :
    (t entry esp sel : ℕ) (tss : Tss) (r : Option Memory) (k : Kernel)
    → Init t entry esp k (tss_failed t sel tss r k)
unfolding tss_failed
tss_failed-Init t entry esp sel tss none k = stops
tss_failed-Init t entry esp sel tss (some mem) k = refused _ refl refl

tss_dir-Init :
    (t sel stack : ℕ) (tss : Tss) (r : ℕ × Memory) (k : Kernel)
    → Init t tss.eip tss.esp k (tss_dir t sel stack tss r k)
unfolding tss_dir
tss_dir-Init t sel stack tss (page_dir, mem) k =
    let self : (t == t) ≡ true = ground arith in
    if-Init (page_dir == 0)
      (tss_failed-Init t tss.eip tss.esp sel tss (memory_free_page mem (curr_page_dir k) stack) k)
      (started _ refl refl (rw (self, if◌then◌else◌) refl) (rw (self, if◌then◌else◌) refl))

tss_stack-Init :
    (t flag entry esp sel : ℕ) (r : ℕ × AddrAlloc) (k : Kernel)
    → Init t entry esp k (tss_stack t flag entry esp sel r k)
unfolding tss_stack start_tss
tss_stack-Init t flag entry esp sel (stack, alloc) k =
    let k' = record k { mem = record k.mem { alloc = alloc } } in
    if-Init (stack == 0) (refused _ refl refl) (
      again (
        tss_dir-Init t sel stack (start_tss k flag entry esp stack)
          (memory_create_uvm k.kernel_dir k'.mem) k'))
  where
    again :
        {r : Option (Bool × Kernel)}
        → Init t entry esp (record k { mem = record k.mem { alloc = alloc } }) r
        → Init t entry esp k r
    again stops = stops
    again (refused k' s f) = refused k' s f
    again (started k' s f e p) = started k' s f e p

tss_init-Init :
    (t tss_addr flag entry esp : ℕ) (k : Kernel)
    → Init t entry esp k (tss_init t tss_addr flag entry esp k)
unfolding tss_init
tss_init-Init t tss_addr flag entry esp k = by_desc (gdt_alloc_desc k.gdt)
  where
    again :
        (sel : ℕ) {r : Option (Bool × Kernel)}
        → Init t entry esp (set_tss_desc k sel tss_addr) r
        → Init t entry esp k r
    again sel stops = stops
    again sel (refused k' s f) = refused k' s f
    again sel (started k' s f e p) = started k' s f e p

    by_desc : (d : Option ℕ) → Init t entry esp k (tss_desc t tss_addr flag entry esp d k)
    by_desc none = refused _ refl refl
    by_desc (some sel) = again sel (
        tss_stack-Init t flag entry esp sel (addr_alloc_page k.mem.alloc 1)
          (set_tss_desc k sel tss_addr))

pub task_init-init_behind :
    (t tss_addr : ℕ) (name : List ℕ) (flag entry esp : ℕ) (k : Kernel) (r : Option (Bool × Kernel))
    → tss_init t tss_addr flag entry esp k ≡ r
    → task_init t tss_addr name flag entry esp k ≡ init_behind t name r
unfolding task_init
task_init-init_behind t tss_addr name flag entry esp k r e = ap (init_behind t name) e

abbrev kernel_or : Kernel → Option Kernel → Kernel
kernel_or k none = k
kernel_or k (some k') = k'

pub task_init-SameQueue :
    (t tss_addr : ℕ) (name : List ℕ) (flag entry esp : ℕ) (k k1 : Kernel)
    → task_init t tss_addr name flag entry esp k ≡ some k1
    → SameQueue k.sched k1.sched
unfolding task_init init_behind update
task_init-SameQueue t tss_addr name flag entry esp k k1 e =
    behind (tss_init t tss_addr flag entry esp k) (tss_init-Init t tss_addr flag entry esp k) e
  where
    queue :
        (ok : Bool) (k2 : Kernel)
        → k2.sched ≡ k.sched
        → init_behind t name (some (ok, k2)) ≡ some k1
        → SameQueue k.sched k1.sched
    queue ok k2 same e = record {
      curr =
          sym (ap (λ o. (kernel_or k o).sched.curr_task) e)
          ∙ ap (λ (m : Manager). m.curr_task) same;
      ready =
          sym (ap (λ o. (kernel_or k o).sched.ready_list) e)
          ∙ ap (λ (m : Manager). m.ready_list) same;
    }

    behind :
        (r : Option (Bool × Kernel))
        → Init t entry esp k r
        → init_behind t name r ≡ some k1
        → SameQueue k.sched k1.sched
    behind none stops e = cc
    behind (some (_, _)) (refused k2 same f) e = queue false k2 same e
    behind (some (_, _)) (started k2 same f i p) e = queue true k2 same e

-- The start that has succeeded, and the fields that `task_init` sets behind it.
pub tss_init-Started :
    (t tss_addr : ℕ) (name : List ℕ) (entry esp : ℕ) (k k0 k1 : Kernel)
    → t ≢ k.sched.curr_task
    → tss_init t tss_addr 0 entry esp k ≡ some (true, k0)
    → init_behind t name (some (true, k0)) ≡ some k1
    → Started t entry esp k k1
unfolding init_behind update new_task
tss_init-Started t tss_addr name entry esp k k0 k1 other start behind =
    subst (λ x. Started t entry esp k (kernel_or k x)) behind
      (facts (subst (Init t entry esp k) start (tss_init-Init t tss_addr 0 entry esp k)))
  where
    facts :
        Init t entry esp k (some (true, k0))
        → Started t entry esp k (kernel_or k (init_behind t name (some (true, k0))))
    facts (started _ s f e p) =
        let self : (t == t) ≡ true = ground arith in
        let apart : (k.sched.curr_task == t) ≡ false = ground (arith, other) in
        record {
          eip = rw (self, if◌then◌else◌) e;
          esp = rw (self, if◌then◌else◌) p;
          parent_fds =
              rw (apart, if◌then◌else◌)
                (ap (λ (m : Manager). (m.tasks k.sched.curr_task).file_table) s);
          child_fds = rw (self, if◌then◌else◌) refl;
          files = f;
        }
