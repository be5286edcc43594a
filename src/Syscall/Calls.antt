-- ===== src/Syscall/Calls.antt =====
-- Which handler of kernel/core/syscall.c each call of applib/lib_syscall.c reaches.
use wjos.Common.{ℕ, ◌≡◌, refl, Option, none, some, if◌then◌else◌}
use wjos.Syscall.{Handler, Args}
use wjos.Syscall.Meaning.{Call, meaning, passed, returns}
use wjos.Syscall.Applib.{
  getpid, print_msg, fork, execve, yeild, open_file, read, write, close, lseek, isatty, ioctl,
  fstat, sbrk, dup, exit, wait, unlink, gettimeofday, gmtime_r, power, save_history, get_history,
}

module _ {ℓ} {S : Type ℓ} (run : Handler → Args → S → ℕ × S) (args : Args) where
  abbrev value : ℕ × S → Option ℕ × S
  value (r, s) = (some r, s)

  -- The function of the library, with no value where it returns none.
  abbrev pub call : Call → S → Option ℕ × S
  call Call.getpid s = value (getpid run args s)
  call Call.fork s = (none, fork run args s)
  call Call.yeild s = (none, yeild run args s)
  call (Call.close file) s = value (close run args file s)
  call (Call.isatty file) s = value (isatty run args file s)
  call (Call.sbrk incr) s = value (sbrk run args incr s)
  call (Call.dup file) s = value (dup run args file s)
  call (Call.exit status) s = (none, exit run args status s)
  call (Call.wait status) s = value (wait run args status s)
  call (Call.unlink path) s = value (unlink run args path s)
  call (Call.power status) s = value (power run args status s)
  call (Call.print_msg fmt arg) s = (none, print_msg run args fmt arg s)
  call (Call.open_file name flags) s = value (open_file run args name flags s)
  call (Call.fstat file st) s = value (fstat run args file st s)
  call (Call.gettimeofday tv tz) s = value (gettimeofday run args tv tz s)
  call (Call.gmtime_r timep result) s = value (gmtime_r run args timep result s)
  call (Call.save_history num cmd) s = value (save_history run args num cmd s)
  call (Call.get_history num arr) s = (none, get_history run args num arr s)
  call (Call.execve name argv envp) s = value (execve run args name argv envp s)
  call (Call.read file ptr len) s = value (read run args file ptr len s)
  call (Call.write file ptr len) s = value (write run args file ptr len s)
  call (Call.lseek file ptr dir) s = value (lseek run args file ptr dir s)
  call (Call.ioctl file cmd a b) s = value (ioctl run args file cmd a b s)

  -- Whatever the handlers do and the stack holds, each of the 23 calls of `Call`, which are those of the
  -- library other than `sleep`, `opendir`, `readdir` and `closedir`, reaches the handler of its name with
  -- its arguments in their order, leaves the state that this one leaves, and returns its answer. Five
  -- of them return no value: `_exit`, `print_msg` and `get_history`, which are declared so, and `fork`
  -- and `yeild`, which are declared with a result and end without a return.
  pub call-handler :
      (c : Call) (s : S)
      → call c s ≡ (
        if returns c then some (run (meaning c).0 (passed (meaning c).1 args) s).0 else none,
        (run (meaning c).0 (passed (meaning c).1 args) s).1,
      )
  unfolding getpid fork yeild close isatty sbrk dup exit wait unlink power print_msg open_file fstat
      gettimeofday gmtime_r save_history get_history execve read write lseek ioctl
  call-handler Call.getpid s = refl
  call-handler Call.fork s = refl
  call-handler Call.yeild s = refl
  call-handler (Call.close file) s = refl
  call-handler (Call.isatty file) s = refl
  call-handler (Call.sbrk incr) s = refl
  call-handler (Call.dup file) s = refl
  call-handler (Call.exit status) s = refl
  call-handler (Call.wait status) s = refl
  call-handler (Call.unlink path) s = refl
  call-handler (Call.power status) s = refl
  call-handler (Call.print_msg fmt arg) s = refl
  call-handler (Call.open_file name flags) s = refl
  call-handler (Call.fstat file st) s = refl
  call-handler (Call.gettimeofday tv tz) s = refl
  call-handler (Call.gmtime_r timep result) s = refl
  call-handler (Call.save_history num cmd) s = refl
  call-handler (Call.get_history num arr) s = refl
  call-handler (Call.execve name argv envp) s = refl
  call-handler (Call.read file ptr len) s = refl
  call-handler (Call.write file ptr len) s = refl
  call-handler (Call.lseek file ptr dir) s = refl
  call-handler (Call.ioctl file cmd a b) s = refl
