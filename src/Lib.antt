-- ===== src/Lib.antt =====
-- The kernel of wjos, a 32-bit teaching operating system for x86, as definitions that run and
-- theorems about them.
--
-- The kernel's parts and the files here, with the code that each is about:
--   Bitmap         kernel/tools/bitmap.c: a bit array and the first-fit search in it.
--   Memory/Alloc   kernel/core/memory.c: `addr_alloc_page` and `addr_free_page` over the bitmap.
--   Memory/Table   kernel/core/memory.c, kernel/include/cpu/mmu.h: the two-level page tables,
--                  `find_pte`, `memory_create_map` and `memory_get_paddr`.
--   Memory/User    kernel/core/memory.c: a task's address space and `sys_sbrk`, over both;
--                  Memory/Copy: its copy for a fork, its release, and the data copied into it.
--   Cpu            kernel/cpu/cpu.c: the global descriptor table; Cpu/Irq: the table of gates and the
--                  masks of the interrupt controllers in irq.c.
--   Process        kernel/core/task.c: `task_init`, `task_uninit` and `sys_fork`, over the scheduler,
--                  the memory, the descriptors and the files; Process/Exec: `sys_execve` and its
--                  loader, over the file calls.
--   Sched          kernel/core/task.c: the ready and sleep lists, dispatching and the clock tick;
--                  Sched/Exit: the task table, `sys_wait` and `sys_exit`.
--   Ipc            kernel/ipc/mutex.c and sem.c, which block and wake tasks of the scheduler.
--   Fat            kernel/fs/fatfs/fatfs.c: the cached sector and the cluster chains; Fat/Name and
--                  Fat/Dir: short names and the root directory; Fat/File: the files;
--                  Fat/Mount: the mounting of a volume.
--   Fs             kernel/fs/fs.c and file.c, and the descriptors of kernel/core/task.c: paths, the
--                  file table and the system calls, over an interface `FsOp` of a file system;
--                  Fs/Mount: mounting; Fs/Devfs: kernel/fs/devfs/devfs.c over the device table.
--   Dev            kernel/dev: the ring buffers of tty.c, keyboard.c, the calendar of time.c and the
--                  device table of dev.c; Dev/Console: the display of console.c; Dev/History: the
--                  commands of kernel/base/history_cmd.c; Dev/Tty: the terminal over these;
--                  Dev/Disk: disk.c on the ports of a controller.
--   Syscall        kernel/core/syscall.c: the table of the system calls and their dispatch;
--                  Syscall/Applib: the calls of applib/lib_syscall.c over it.
--   Shell          shell: the parsing of a line and the execution of a command; Shell/Files:
--                  cat and touch.
--   Loader         loader: the memory map, the read of the disk and the load of the kernel's image.
--   Tools          kernel/tools/klib.c and list.c: strings, printed numbers and the linked list.
--   Common         what these share: tests on numbers, arrays as lists and 32-bit words.
--
-- How the code is read. An `int` or a pointer is its 32-bit pattern, and where a sum can wrap around
-- this is written out; counts of tasks, references and bytes that the code bounds are plain numbers.
-- A null pointer and a negative result are `none` or `false`. A `task_t *`, a `file_t *` or a
-- `node_t *` is an index. Changes of state are functions from a state to a state. Interrupts are off
-- in the scheduler's, the semaphore's and the ring buffers' functions, so each is one step; what
-- happens between two steps is a relation, `Step`, `Reach` or `Run`. A loop without a bound is on
-- fuel: the bitmap's search, whose index grows every round; the walk of a chain, that has at most
-- 2 ^ 16 clusters; the reads and writes of a terminal, that take a character from a buffer every
-- round; the copy loops of a file, that move a byte or more every round; and the year loop,
-- that takes at least a year of days. The wait for
-- the disk's status has no bound in the code; the theorem asks that the disk answers in time.
--
-- To the FAT volume the disk is a table of sectors with the set of those on which an access fails; in
-- Dev/Disk what the ports answer is a parameter, and writes to ports are events. The drivers behind
-- the device table are its parameter. Lists of tasks are sequences; Tools/Nodes has the linked list
-- itself, on a store of nodes.
--
-- The handlers of the system calls are a parameter of the dispatch, and the functions of the C library
-- that the shell calls are as the standard has them.
--
-- Not modelled: the boot sector and the switch to protected mode, the reports of the exceptions, the
-- interrupts of the clock and the disk, the commands of the shell that parse options or only print, cp,
-- whose outcome hangs on the buffers of the C library and on two open copies of a file's record, and the
-- C library. Of the modelled files, the start of the first task, the unmounting of a FAT volume
-- and the calls that pass a directory on to the root file system are left out.
pub mod Common
pub mod Bitmap
pub mod Memory
pub mod Fat
pub mod Sched
pub mod Ipc
pub mod Fs
pub mod Dev
pub mod Tools
pub mod Cpu
pub mod Process
pub mod Syscall
pub mod Shell
pub mod Loader
