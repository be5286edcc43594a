-- ===== src/Process/Tests.antt =====
-- Forks at a table of free entries, with every page in use.
use wjos.Common.{
  ap, ◌∙◌, ℕ, zero, suc, ◌+◌, ◌*◌, ◌<◌, ◌≡◌, refl, ◌≢◌, true, replicate, none, some, [], ◌∷◌, arith,
  ◌==◌, if◌then◌else◌,
}
use wjos.Bitmap.{get_bit, set_bit, put_bit, alloc_nbits, search_from, scan}
use wjos.Memory.Alloc.Pages
use wjos.Memory.Copy.{memory_copy_uvm}
use wjos.Sched.Exit.{zero_task, alloc_task, alloc_from}
use wjos.Fs.Files.{new_file}
use wjos.Fs.Calls.{FsOp}
use wjos.Process.Exec.{Exec}
use wjos.Process.{
  Frame, Kernel, no_resources, curr_page_dir, set_tss_desc, start_tss, tss_init, tss_desc,
  tss_stack, tss_dir, init_behind,
}
use wjos.Process.Fork.{inherit, sys_fork}
use wjos.Process.Forked.{Forked, Inherited, sys_fork-Forked}
use wjos.Memory.Alloc.{AddrAlloc, addr_alloc_page, run_addr}
use wjos.Memory.Table.{Memory}
use wjos.Memory.Copy.Empty.{IsBlank, memory_create_uvm-IsBlank, memory_copy_uvm-IsBlank}
use wjos.Cpu.Gdt.{gdt_alloc_desc, free_desc}
use wjos.Process.Exhausted.{sys_fork-exhausted}

-- The task that runs is the entry 0, `sh`.
abbrev kernel : Kernel
kernel = record {
  sched = record {
    curr_task = 0;
    ready_list = 0 ∷ [];
    sleep_list = [];
    tasks = λ t. if t == 0 then record zero_task { name = 115 ∷ 104 ∷ [] } else zero_task;
  };
  task_list = 0 ∷ [];
  res = λ t. no_resources;
  gdt = λ i. record { limit15_0 = 0; base15_0 = 0; base23_16 = 0; attr = 0; base31_24 = 0 };
  mem = record {
    alloc = record {
      bitmap = record { bit_count = 2; bits = 3 ∷ [] };
      start = 0x10_0000;
      size = 0x2000;
      page_size = 4096;
    };
    word = λ a. 0;
  };
  files = λ i. new_file;
  kernel_dir = 0x9_0000;
  app_code_sel = 40;
  app_data_sel = 32;
}

kernel-IsValid : Pages.IsValid kernel.mem.alloc
kernel-IsValid = record {
  bitmap = record { covers = omega arith; bytes = λ i. ground arith };
  pages = omega arith;
  page = refl;
  above = omega arith;
  below = omega arith;
}

all_used : (j : ℕ) → j < 2 → get_bit kernel.mem.alloc.bitmap j ≢ 0
unfolding get_bit
all_used zero h = cc
all_used (suc zero) h = cc
all_used (suc (suc j)) h = absurd (omega arith)

entry_one : alloc_task kernel.sched ≡ some 1
unfolding alloc_task alloc_from
entry_one = refl

abbrev frame : Frame
frame = record {
  eflags = 0x202;
  gs = 35;
  fs = 35;
  es = 35;
  ds = 35;
  edi = 1;
  esi = 2;
  ebp = 3;
  ebx = 4;
  edx = 5;
  ecx = 6;
  eip = 0x8000_0000;
  cs = 43;
  esp = 0x8000_9000;
}

sys_fork-exhausted_example :
    (k' : Kernel) × (sys_fork (λ t. 0x8000 + t * 1024) frame kernel ≡ some (some 1, k'))
    × Forked frame 1 kernel k'
    × ((k'.res 1).tss.cr3 ≡ 0)
sys_fork-exhausted_example =
    sys_fork-exhausted kernel kernel-IsValid all_used (λ t. 0x8000 + t * 1024) frame 1 (omega arith)
      entry_one

abbrev tss_addr : ℕ → ℕ
tss_addr t = 0x8000 + t * 1024

-- Eight free pages, and the file 2 open as the descriptor 0 of the task that runs.
abbrev pool : ℕ → AddrAlloc
pool bits = record {
  bitmap = record { bit_count = 8; bits = bits ∷ [] };
  start = 0x10_0000;
  size = 0x8000;
  page_size = 4096;
}

abbrev free_kernel : Kernel
free_kernel = record kernel {
  sched = record kernel.sched {
    tasks = λ t.
        if t == 0
        then record zero_task { name = 115 ∷ 104 ∷ []; file_table = some 2 ∷ replicate 127 none }
        else zero_task;
  };
  mem = record { alloc = pool 0; word = λ a. 0 };
}

-- What a run of the allocator computes through.
abbrev Runs : Type 0
unfolding addr_alloc_page run_addr alloc_nbits search_from scan get_bit set_bit put_bit
Runs = Unit

page_one : addr_alloc_page (pool 0) 1 ≡ (0x10_0000, pool 1)
unfolding Runs
page_one = refl

page_two : addr_alloc_page (pool 1) 1 ≡ (0x10_1000, pool 3)
unfolding Runs
page_two = refl

page_three : addr_alloc_page (pool 3) 1 ≡ (0x10_2000, pool 7)
unfolding Runs
page_three = refl

entry_free : alloc_task free_kernel.sched ≡ some 1
unfolding alloc_task alloc_from
entry_free = refl

desc_free : gdt_alloc_desc free_kernel.gdt ≡ some 8
unfolding gdt_alloc_desc free_desc
desc_free = refl

-- The kernel stack is the first page, and the directory that the start makes the second.
started :
    (k0 : Kernel) × (tss_init 1 0x8400 0 0x8000_0000 0x8000_9014 free_kernel ≡ some (true, k0))
    × (k0.mem.alloc ≡ pool 3)
    × IsBlank k0.mem.word
unfolding tss_init tss_desc tss_stack tss_dir
started =
    let k = set_tss_desc free_kernel 8 0x8400 in
    let (word, made, blank) =
      memory_create_uvm-IsBlank 0x9_0000 0x10_1000 (pool 3)
        (record { alloc = pool 1; word = λ a. 0 }) (λ a. refl) page_two (omega arith) in
    (
      _,
      ap (λ d. tss_desc 1 0x8400 0 0x8000_0000 0x8000_9014 d free_kernel) desc_free
          ∙ ap (λ p. tss_stack 1 0 0x8000_0000 0x8000_9014 8 p k) page_one
          ∙ ap
              (λ r.
                tss_dir 1 8 0x10_0000 (start_tss k 0 0x8000_0000 0x8000_9014 0x10_0000) r
                  (record k { mem = record { alloc = pool 1; word = λ a. 0 } }))
              made,
      refl,
      blank,
    )

init_done :
    (k1 : Kernel) × (init_behind 1 (115 ∷ 104 ∷ []) (some (true, started.0)) ≡ some k1)
    × (k1.mem ≡ started.0.mem)
unfolding init_behind
init_done = (_, refl, refl)

inherited : Kernel
inherited = inherit 0 1 frame init_done.0

inherited-mem : inherited.mem ≡ started.0.mem
unfolding inherited inherit
inherited-mem = init_done.2

copied :
    (m : Memory) × (memory_copy_uvm inherited.kernel_dir
        (curr_page_dir inherited)
        (inherited.res 0).tss.cr3
        inherited.mem
      ≡ some (0x10_2000, m))
copied =
    memory_copy_uvm-IsBlank inherited.kernel_dir (curr_page_dir inherited) (inherited.res 0).tss.cr3
      0x10_2000 (pool 7) inherited.mem
      (λ a. ap (λ (m : Memory). m.word a) inherited-mem ∙ started.3 a)
      (ap (λ (m : Memory). addr_alloc_page m.alloc 1) inherited-mem
        ∙ ap (λ a. addr_alloc_page a 1) started.2
        ∙ page_three)
      (omega arith)

sys_fork-Forked_example :
    (k' : Kernel) × (sys_fork tss_addr frame free_kernel ≡ some (some 1, k'))
    × Forked frame 1 free_kernel k'
    × Inherited frame 1 0x10_2000 free_kernel k'
unfolding inherited
sys_fork-Forked_example =
    sys_fork-Forked tss_addr frame 1 0x10_2000 copied.0 free_kernel started.0 init_done.0
      (omega arith) (omega arith) refl entry_free started.1 init_done.1 (omega arith) copied.1

abbrev plain : FsOp Unit
plain = record {
  fs_open = λ s path f. (true, f, s);
  fs_read = λ s n f. (some (replicate n 0), f, s);
  fs_write = λ s bytes f. (some 0, f, s);
  fs_seek = λ s ptr dir f. (true, f, s);
  fs_close = λ s f. s;
  open_ref = λ s path f. refl;
  read_ref = λ s n f. refl;
  write_ref = λ s bytes f. refl;
  seek_ref = λ s ptr dir f. refl;
}

-- A task of the program `sh`, with no file open.
abbrev shell : Exec Unit
shell = record {
  sys = record {
    files = λ i. record new_file { ref = 0 };
    fds = replicate 128 none;
    state = tt;
    mounted_list = [];
    root_fs = 0;
  };
  mem = free_kernel.mem;
  name = 115 ∷ 104 ∷ [];
  heap = none;
  cr3 = 0x20_0000;
  frame = frame;
}
