-- ===== src/Syscall.antt =====
-- The system calls of kernel/core/syscall.c: the table of handlers and the dispatch. What a handler
-- does to the state of the kernel is a parameter, by its name in the table.
pub mod Applib
pub mod Meaning
pub mod Calls
mod Tests
use wjos.Common.{ℕ, Option, none, some, List, [], ◌∷◌, ◌==◌, if◌then◌else◌}

pub data Handler : Type 0 where
  sys_sleep sys_getpid sys_fork sys_print_msg sys_execve sys_yeild sys_exit sys_wait : Handler
  sys_open sys_read sys_write sys_close sys_lseek sys_ioctl : Handler
  sys_isatty sys_fstat sys_sbrk sys_dup : Handler
  sys_opendir sys_readdir sys_closedir sys_unlink : Handler
  sys_gettimeofday sys_gmtime_r sys_power sys_save_history sys_get_history : Handler

-- The first entry of a number in a list of entries.
abbrev pub entry : List (ℕ × Handler) → ℕ → Option Handler
entry [] id = none
entry ((n, h) ∷ es) id = let rest = entry es id in if id == n then some h else rest

abbrev pub sys_entries : List (ℕ × Handler)
sys_entries =
    (0, Handler.sys_sleep)
    ∷ (1, Handler.sys_getpid)
    ∷ (3, Handler.sys_fork)
    ∷ (100, Handler.sys_print_msg)
    ∷ (2, Handler.sys_execve)
    ∷ (4, Handler.sys_yeild)
    ∷ (5, Handler.sys_exit)
    ∷ (6, Handler.sys_wait)
    ∷ (50, Handler.sys_open)
    ∷ (51, Handler.sys_read)
    ∷ (52, Handler.sys_write)
    ∷ (53, Handler.sys_close)
    ∷ (54, Handler.sys_lseek)
    ∷ (59, Handler.sys_ioctl)
    ∷ (55, Handler.sys_isatty)
    ∷ (56, Handler.sys_fstat)
    ∷ (57, Handler.sys_sbrk)
    ∷ (58, Handler.sys_dup)
    ∷ (60, Handler.sys_opendir)
    ∷ (61, Handler.sys_readdir)
    ∷ (62, Handler.sys_closedir)
    ∷ (63, Handler.sys_unlink)
    ∷ (120, Handler.sys_gettimeofday)
    ∷ (121, Handler.sys_gmtime_r)
    ∷ (200, Handler.sys_power)
    ∷ (201, Handler.sys_save_history)
    ∷ (202, Handler.sys_get_history)
    ∷ []

-- `sys_table`: a number without an entry has a null pointer there, or lies behind the table.
unfoldable pub sys_table : ℕ → Option Handler
sys_table id = entry sys_entries id

pub record Args : Type 0 where
  pub arg0 : ℕ
  pub arg1 : ℕ
  pub arg2 : ℕ
  pub arg3 : ℕ

-- The fields of the frame that the dispatch reads or writes.
pub record CallFrame : Type 0 where
  pub func_id : ℕ
  pub args : Args
  pub eax : ℕ

abbrev pub minus_one : ℕ
minus_one = 0xFFFF_FFFF

module _ {ℓ} {S : Type ℓ} (run : Handler → Args → S → ℕ × S) where
  unfoldable pub handle_syscall : CallFrame → S → CallFrame × S
  unfolding sys_table
  handle_syscall frame s = elim (sys_table frame.func_id) [
    | none ↦ (record frame { eax = minus_one }, s)
    | some handler ↦ let (ret, s') = run handler frame.args s in (record frame { eax = ret }, s')
  ]
