-- ===== src/Syscall/Meaning.antt =====
-- The calls of applib/lib_syscall.c that go to the system whatever their arguments are and do nothing
-- else, and what each is to come to: the handler of its name, with its arguments.
use wjos.Common.{ℕ, Bool, true, false, List, [], ◌∷◌}
use wjos.Syscall.{Handler, Args}

pub data Call : Type 0 where
  getpid fork yeild : Call
  close isatty sbrk dup exit wait unlink power : ℕ → Call
  print_msg open_file fstat gettimeofday gmtime_r save_history get_history : ℕ → ℕ → Call
  execve read write lseek : ℕ → ℕ → ℕ → Call
  ioctl : ℕ → ℕ → ℕ → ℕ → Call

-- The handler that is named as the call, and the arguments in their order.
abbrev pub meaning : Call → Handler × List ℕ
meaning Call.getpid = (Handler.sys_getpid, [])
meaning Call.fork = (Handler.sys_fork, [])
meaning Call.yeild = (Handler.sys_yeild, [])
meaning (Call.close file) = (Handler.sys_close, file ∷ [])
meaning (Call.isatty file) = (Handler.sys_isatty, file ∷ [])
meaning (Call.sbrk incr) = (Handler.sys_sbrk, incr ∷ [])
meaning (Call.dup file) = (Handler.sys_dup, file ∷ [])
meaning (Call.exit status) = (Handler.sys_exit, status ∷ [])
meaning (Call.wait status) = (Handler.sys_wait, status ∷ [])
meaning (Call.unlink path) = (Handler.sys_unlink, path ∷ [])
meaning (Call.power status) = (Handler.sys_power, status ∷ [])
meaning (Call.print_msg fmt arg) = (Handler.sys_print_msg, fmt ∷ arg ∷ [])
meaning (Call.open_file name flags) = (Handler.sys_open, name ∷ flags ∷ [])
meaning (Call.fstat file st) = (Handler.sys_fstat, file ∷ st ∷ [])
meaning (Call.gettimeofday tv tz) = (Handler.sys_gettimeofday, tv ∷ tz ∷ [])
meaning (Call.gmtime_r timep result) = (Handler.sys_gmtime_r, timep ∷ result ∷ [])
meaning (Call.save_history num cmd) = (Handler.sys_save_history, num ∷ cmd ∷ [])
meaning (Call.get_history num arr) = (Handler.sys_get_history, num ∷ arr ∷ [])
meaning (Call.execve name argv envp) = (Handler.sys_execve, name ∷ argv ∷ envp ∷ [])
meaning (Call.read file ptr len) = (Handler.sys_read, file ∷ ptr ∷ len ∷ [])
meaning (Call.write file ptr len) = (Handler.sys_write, file ∷ ptr ∷ len ∷ [])
meaning (Call.lseek file ptr dir) = (Handler.sys_lseek, file ∷ ptr ∷ dir ∷ [])
meaning (Call.ioctl file cmd a b) = (Handler.sys_ioctl, file ∷ cmd ∷ a ∷ b ∷ [])

-- The first arguments, and for the others what the stack holds.
abbrev pub passed : List ℕ → Args → Args
passed [] args = args
passed (a ∷ []) args = record args { arg0 = a }
passed (a ∷ b ∷ []) args = record args { arg0 = a; arg1 = b }
passed (a ∷ b ∷ c ∷ []) args = record args { arg0 = a; arg1 = b; arg2 = c }
passed (a ∷ b ∷ c ∷ d ∷ rest) args = record { arg0 = a; arg1 = b; arg2 = c; arg3 = d }

-- Whether the call returns the handler's answer.
abbrev pub returns : Call → Bool
returns Call.fork = false
returns Call.yeild = false
returns (Call.exit status) = false
returns (Call.print_msg fmt arg) = false
returns (Call.get_history num arr) = false
returns c = true
