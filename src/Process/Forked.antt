-- ===== src/Process/Forked.antt =====
-- Forks of kernel/core/task.c: what the child starts from, and forks for which there is no memory.
use wjos.Common.{
  ℕ, ◌≡◌, refl, ◌≢◌, true, false, none, some, [], ◌∷◌, ◌++◌, arith, ◌==◌, if◌then◌else◌, ap, ◌∙◌,
  sym, ◌+◌, length, replicate,
}
use wjos.Common.Words.{add32}
use wjos.Memory.Table.{Memory}
use wjos.Memory.Copy.{memory_copy_uvm}
use wjos.Sched.{idle_task, update, task_set_ready}
use wjos.Sched.Exit.{alloc_task}
use wjos.Process.{
  Frame, Resources, Kernel, put_res, curr_page_dir, tss_init, task_init, init_behind, task_start,
}
use wjos.Process.Started.{
  SameQueue, Started, task_init-SameQueue, task_init-init_behind, tss_init-Started,
}
use wjos.Fs.Files.{Fds, Files, copy_opened_files}
use wjos.Fs.Refs.{fd_count}
use wjos.Fs.Inherit.{copy_opened_files-fds, copy_opened_files-refs}
use wjos.Process.Fork.{child_tss, inherit, fork_end, fork_behind, fork_to, sys_fork}

-- The child's registers are those of the frame, but for the result 0; the child has the task that runs
-- for a parent, and is ready behind the others.
pub record Forked (frame : Frame) (child : ℕ) (k k' : Kernel) : Type 0 where
  pub eax : (k'.res child).tss.eax ≡ 0
  pub ebx : (k'.res child).tss.ebx ≡ frame.ebx
  pub ecx : (k'.res child).tss.ecx ≡ frame.ecx
  pub edx : (k'.res child).tss.edx ≡ frame.edx
  pub esi : (k'.res child).tss.esi ≡ frame.esi
  pub edi : (k'.res child).tss.edi ≡ frame.edi
  pub ebp : (k'.res child).tss.ebp ≡ frame.ebp
  pub cs : (k'.res child).tss.cs ≡ frame.cs
  pub ds : (k'.res child).tss.ds ≡ frame.ds
  pub es : (k'.res child).tss.es ≡ frame.es
  pub fs : (k'.res child).tss.fs ≡ frame.fs
  pub gs : (k'.res child).tss.gs ≡ frame.gs
  pub eflags : (k'.res child).tss.eflags ≡ frame.eflags
  pub parent : (k'.sched.tasks child).parent ≡ some k.sched.curr_task
  pub curr : k'.sched.curr_task ≡ k.sched.curr_task
  pub queued : k'.sched.ready_list ≡ k.sched.ready_list ++ (child ∷ [])

-- What the child has by its start, its files and the copy of the memory: it goes on where its parent
-- called, on the stack below the frame, in the copy, with the descriptors of its parent, each of
-- which holds its file once more.
pub record Inherited (frame : Frame) (child page_dir : ℕ) (k k' : Kernel) : Type 0 where
  pub eip : (k'.res child).tss.eip ≡ frame.eip
  pub esp : (k'.res child).tss.esp ≡ add32 frame.esp 20
  pub cr3 : (k'.res child).tss.cr3 ≡ page_dir
  pub fds : (k'.sched.tasks child).file_table ≡ (k.sched.tasks k.sched.curr_task).file_table
  pub refs :
      (f : ℕ)
      → (k'.files f).ref ≡ (k.files f).ref + fd_count f (k.sched.tasks k.sched.curr_task).file_table

-- The kernel behind a fork, for the page directory that the copy has given.
abbrev forked : ℕ → Memory → Frame → ℕ → ℕ → Kernel → Kernel
forked page_dir mem frame parent child k1 =
    let k2 = inherit parent child frame k1 in
    let r = k2.res child in
    task_start
      (put_res (record k2 { mem = mem }) child (record r { tss = record r.tss { cr3 = page_dir } }))
      child

-- What the child has of its own, behind the fork.
abbrev child_res : ℕ → Frame → Resources → Resources
child_res page_dir frame r = record r { tss = record (child_tss frame r.tss) { cr3 = page_dir } }

forked-child_res :
    (frame : Frame) (page_dir parent child : ℕ) (mem : Memory) (k1 : Kernel)
    → (forked page_dir mem frame parent child k1).res child
      ≡ child_res page_dir frame (k1.res child)
unfolding inherit child_tss task_start
forked-child_res frame page_dir parent child mem k1 =
    let self : (child == child) ≡ true = ground arith in rw (self, if◌then◌else◌) refl

forked-Forked :
    (frame : Frame) (page_dir parent child : ℕ) (mem : Memory) (k k1 : Kernel)
    → child ≢ idle_task
    → SameQueue k.sched k1.sched
    → parent ≡ k.sched.curr_task
    → Forked frame child k (forked page_dir mem frame parent child k1)
unfolding inherit child_tss task_start task_set_ready update
forked-Forked frame page_dir parent child mem k k1 real same own =
    let self : (child == child) ≡ true = ground arith in
    let busy : (child == idle_task) ≡ false = ground (arith, real) in
    let r = forked-child_res frame page_dir parent child mem k1 in
    record {
      eax = ap (λ (x : Resources). x.tss.eax) r;
      ebx = ap (λ (x : Resources). x.tss.ebx) r;
      ecx = ap (λ (x : Resources). x.tss.ecx) r;
      edx = ap (λ (x : Resources). x.tss.edx) r;
      esi = ap (λ (x : Resources). x.tss.esi) r;
      edi = ap (λ (x : Resources). x.tss.edi) r;
      ebp = ap (λ (x : Resources). x.tss.ebp) r;
      cs = ap (λ (x : Resources). x.tss.cs) r;
      ds = ap (λ (x : Resources). x.tss.ds) r;
      es = ap (λ (x : Resources). x.tss.es) r;
      fs = ap (λ (x : Resources). x.tss.fs) r;
      gs = ap (λ (x : Resources). x.tss.gs) r;
      eflags = ap (λ (x : Resources). x.tss.eflags) r;
      parent = rw (busy, if◌then◌else◌) (rw (self, if◌then◌else◌) (ap some own));
      curr = rw (busy, if◌then◌else◌) same.curr;
      queued = rw (busy, if◌then◌else◌) (ap (λ l. l ++ (child ∷ [])) same.ready);
    }

-- The run of a whole fork: a child's record is taken, and its fields are set.
sys_fork-forked :
    (tss_addr : ℕ → ℕ) (frame : Frame) (child page_dir : ℕ) (mem : Memory) (k k1 : Kernel)
    → alloc_task k.sched ≡ some child
    → task_init child
        (tss_addr child)
        (k.sched.tasks k.sched.curr_task).name
        0
        frame.eip
        (add32 frame.esp 20)
        k
      ≡ some k1
    → (let k2 = inherit k.sched.curr_task child frame k1 in
        memory_copy_uvm k2.kernel_dir (curr_page_dir k2) (k2.res k.sched.curr_task).tss.cr3 k2.mem
        ≡ some (page_dir, mem))
    → sys_fork tss_addr frame k
      ≡ some (some child, forked page_dir mem frame k.sched.curr_task child k1)
unfolding sys_fork fork_to fork_behind fork_end
sys_fork-forked tss_addr frame child page_dir mem k k1 taken made copy =
    ap (λ c. fork_to tss_addr frame c k) taken
    ∙ ap (fork_behind k.sched.curr_task child frame) made
    ∙ ap (λ r. fork_end child r (inherit k.sched.curr_task child frame k1)) copy

-- The files behind a fork.
forked-fds :
    (frame : Frame) (page_dir parent child : ℕ) (mem : Memory) (k1 : Kernel)
    → child ≢ idle_task
    → ((forked page_dir mem frame parent child k1).sched.tasks child).file_table
      ≡ (copy_opened_files
          (k1.sched.tasks parent).file_table
          (k1.sched.tasks child).file_table
          k1.files).0
unfolding inherit task_start task_set_ready update
forked-fds frame page_dir parent child mem k1 real =
    let self : (child == child) ≡ true = ground arith in
    let busy : (child == idle_task) ≡ false = ground (arith, real) in
    rw (busy, if◌then◌else◌) (rw (self, if◌then◌else◌) refl)

forked-files :
    (frame : Frame) (page_dir parent child : ℕ) (mem : Memory) (k1 : Kernel)
    → (forked page_dir mem frame parent child k1).files
      ≡ (copy_opened_files
          (k1.sched.tasks parent).file_table
          (k1.sched.tasks child).file_table
          k1.files).1
unfolding inherit task_start
forked-files frame page_dir parent child mem k1 = refl

forked-Inherited :
    (frame : Frame) (page_dir child : ℕ) (mem : Memory) (k k1 : Kernel)
    → child ≢ idle_task
    → length (k.sched.tasks k.sched.curr_task).file_table ≡ 128
    → Started child frame.eip (add32 frame.esp 20) k k1
    → Inherited frame child page_dir k (forked page_dir mem frame k.sched.curr_task child k1)
unfolding child_tss
forked-Inherited frame page_dir child mem k k1 real sized start =
    let parent = k.sched.curr_task in
    let fds = (k.sched.tasks parent).file_table in
    let r = forked-child_res frame page_dir parent child mem k1 in
    let copied : copy_opened_files (k1.sched.tasks parent).file_table
          (k1.sched.tasks child).file_table k1.files
        ≡ copy_opened_files fds (replicate (length fds) none) k.files =
      ap (λ l. copy_opened_files l (k1.sched.tasks child).file_table k1.files) start.parent_fds
      ∙ ap (λ l. copy_opened_files fds l k1.files) start.child_fds
      ∙ ap (λ l. copy_opened_files fds (replicate 128 none) l) start.files
      ∙ ap (λ n. copy_opened_files fds (replicate n none) k.files) (sym sized) in
    record {
      eip = ap (λ (x : Resources). x.tss.eip) r ∙ start.eip;
      esp = ap (λ (x : Resources). x.tss.esp) r ∙ start.esp;
      cr3 = ap (λ (x : Resources). x.tss.cr3) r;
      fds =
          forked-fds frame page_dir parent child mem k1 real
          ∙ ap (λ r. r.0) copied
          ∙ copy_opened_files-fds fds k.files;
      refs = λ f.
          ap (λ (files : Files). (files f).ref) (forked-files frame page_dir parent child mem k1)
          ∙ ap (λ (r : Fds × Files). (r.1 f).ref) copied
          ∙ copy_opened_files-refs fds k.files f;
    }

-- A fork behind a start and a copy of the memory, which both may have failed.
pub sys_fork_any :
    (tss_addr : ℕ → ℕ) (frame : Frame) (child page_dir : ℕ) (mem : Memory) (k k1 : Kernel)
    → child ≢ idle_task
    → alloc_task k.sched ≡ some child
    → task_init child
        (tss_addr child)
        (k.sched.tasks k.sched.curr_task).name
        0
        frame.eip
        (add32 frame.esp 20)
        k
      ≡ some k1
    → (let k2 = inherit k.sched.curr_task child frame k1 in
        memory_copy_uvm k2.kernel_dir (curr_page_dir k2) (k2.res k.sched.curr_task).tss.cr3 k2.mem
        ≡ some (page_dir, mem))
    → (k' : Kernel) × (sys_fork tss_addr frame k ≡ some (some child, k'))
      × Forked frame child k k'
      × ((k'.res child).tss.cr3 ≡ page_dir)
sys_fork_any tss_addr frame child page_dir mem k k1 real taken made copy =
    let parent = k.sched.curr_task in
    let same =
      task_init-SameQueue child (tss_addr child) (k.sched.tasks parent).name 0 frame.eip
        (add32 frame.esp 20) k k1 made in
    (
      forked page_dir mem frame parent child k1,
      sys_fork-forked tss_addr frame child page_dir mem k k1 taken made copy,
      forked-Forked frame page_dir parent child mem k k1 real same refl,
      ap (λ (x : Resources). x.tss.cr3) (forked-child_res frame page_dir parent child mem k1),
    )

-- A fork for which there is an entry in the table, other than the entry of the task that runs, and whose
-- start and copy of the memory succeed: the child's registers and segments are those of the frame, with
-- the result 0. It goes on where its parent called, in the copy, with the descriptors of its parent,
-- each of which holds its file once more, and is ready behind the other tasks.
pub sys_fork-Forked :
    (tss_addr : ℕ → ℕ) (frame : Frame) (child page_dir : ℕ) (mem : Memory) (k k0 k1 : Kernel)
    → child ≢ idle_task
    → child ≢ k.sched.curr_task
    → length (k.sched.tasks k.sched.curr_task).file_table ≡ 128
    → alloc_task k.sched ≡ some child
    → tss_init child (tss_addr child) 0 frame.eip (add32 frame.esp 20) k ≡ some (true, k0)
    → init_behind child (k.sched.tasks k.sched.curr_task).name (some (true, k0)) ≡ some k1
    → page_dir ≢ 0
    → (let k2 = inherit k.sched.curr_task child frame k1 in
        memory_copy_uvm k2.kernel_dir (curr_page_dir k2) (k2.res k.sched.curr_task).tss.cr3 k2.mem
        ≡ some (page_dir, mem))
    → (k' : Kernel) × (sys_fork tss_addr frame k ≡ some (some child, k'))
      × Forked frame child k k'
      × Inherited frame child page_dir k k'
sys_fork-Forked tss_addr frame child page_dir mem k k0 k1 real other sized taken start behind
      some_dir copy =
    let parent = k.sched.curr_task in
    let name = (k.sched.tasks parent).name in
    let esp = add32 frame.esp 20 in
    let made =
      task_init-init_behind child (tss_addr child) name 0 frame.eip esp k (some (true, k0)) start
      ∙ behind in
    let same = task_init-SameQueue child (tss_addr child) name 0 frame.eip esp k k1 made in
    (
      forked page_dir mem frame parent child k1,
      sys_fork-forked tss_addr frame child page_dir mem k k1 taken made copy,
      forked-Forked frame page_dir parent child mem k k1 real same refl,
      forked-Inherited frame page_dir child mem k k1 real sized
          (tss_init-Started child (tss_addr child) name frame.eip esp k k0 k1 other start behind),
    )
