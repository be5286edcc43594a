-- ===== src/Syscall/Applib.antt =====
-- The calls of the system in applib/lib_syscall.c, over the dispatch of the kernel. Each writes some
-- fields of a `syscall_args_t` on its stack; the others keep what the stack holds, `args`.
use wjos.Common.{ℕ, ◌+◌, Bool, ◌||◌, Option, none, some, List, [], ◌∷◌, leb, ◌==◌, if◌then◌else◌}
use wjos.Syscall.{Handler, Args, handle_syscall}

abbrev pub is_negative : ℕ → Bool
is_negative ret = leb 0x8000_0000 ret

module _ {ℓ} {S : Type ℓ} (run : Handler → Args → S → ℕ × S) (args : Args) where
  -- The call gate: the frame holds the number and the four fields, and `eax` is the answer.
  abbrev pub sys_call : ℕ → Args → S → ℕ × S
  unfolding handle_syscall
  sys_call id a s =
      let (frame, s') = handle_syscall run (record { func_id = id; args = a; eax = 0 }) s in
      (frame.eax, s')

  -- A time of 0 or below calls nothing.
  unfoldable pub sleep : ℕ → S → S
  unfolding sys_call
  sleep ms s =
      if is_negative ms || (ms == 0) then s else (sys_call 0 (record args { arg0 = ms }) s).1

  unfoldable pub getpid : S → ℕ × S
  unfolding sys_call
  getpid s = sys_call 1 args s

  unfoldable pub print_msg : ℕ → ℕ → S → S
  unfolding sys_call
  print_msg fmt arg s = (sys_call 100 (record args { arg0 = fmt; arg1 = arg }) s).1

  -- `fork` and `yeild` end without a return.
  unfoldable pub fork : S → S
  unfolding sys_call
  fork s = (sys_call 3 args s).1

  unfoldable pub execve : ℕ → ℕ → ℕ → S → ℕ × S
  unfolding sys_call
  execve name argv envp s = sys_call 2 (record args { arg0 = name; arg1 = argv; arg2 = envp }) s

  unfoldable pub yeild : S → S
  unfolding sys_call
  yeild s = (sys_call 4 args s).1

  -- `open`.
  unfoldable pub open_file : ℕ → ℕ → S → ℕ × S
  unfolding sys_call
  open_file name flags s = sys_call 50 (record args { arg0 = name; arg1 = flags }) s

  unfoldable pub read : ℕ → ℕ → ℕ → S → ℕ × S
  unfolding sys_call
  read file ptr len s = sys_call 51 (record args { arg0 = file; arg1 = ptr; arg2 = len }) s

  unfoldable pub write : ℕ → ℕ → ℕ → S → ℕ × S
  unfolding sys_call
  write file ptr len s = sys_call 52 (record args { arg0 = file; arg1 = ptr; arg2 = len }) s

  unfoldable pub close : ℕ → S → ℕ × S
  unfolding sys_call
  close file s = sys_call 53 (record args { arg0 = file }) s

  unfoldable pub lseek : ℕ → ℕ → ℕ → S → ℕ × S
  unfolding sys_call
  lseek file ptr dir s = sys_call 54 (record args { arg0 = file; arg1 = ptr; arg2 = dir }) s

  unfoldable pub isatty : ℕ → S → ℕ × S
  unfolding sys_call
  isatty file s = sys_call 55 (record args { arg0 = file }) s

  unfoldable pub ioctl : ℕ → ℕ → ℕ → ℕ → S → ℕ × S
  unfolding sys_call
  ioctl file cmd arg0 arg1 s =
      sys_call 59 (record args { arg0 = file; arg1 = cmd; arg2 = arg0; arg3 = arg1 }) s

  unfoldable pub fstat : ℕ → ℕ → S → ℕ × S
  unfolding sys_call
  fstat file st s = sys_call 56 (record args { arg0 = file; arg1 = st }) s

  unfoldable pub sbrk : ℕ → S → ℕ × S
  unfolding sys_call
  sbrk incr s = sys_call 57 (record args { arg0 = incr }) s

  unfoldable pub dup : ℕ → S → ℕ × S
  unfolding sys_call
  dup file s = sys_call 58 (record args { arg0 = file }) s

  -- `_exit`, which goes on in an empty loop where the call comes back.
  unfoldable pub exit : ℕ → S → S
  unfolding sys_call
  exit status s = (sys_call 5 (record args { arg0 = status }) s).1

  unfoldable pub wait : ℕ → S → ℕ × S
  unfolding sys_call
  wait status s = sys_call 6 (record args { arg0 = status }) s

  -- What `malloc` gives is an argument. The answer is the directory, and what is freed.
  unfoldable pub opendir : Option ℕ → ℕ → S → Option ℕ × List ℕ × S
  unfolding sys_call
  opendir none path s = (none, [], s)
  opendir (some dir) path s =
      let (err, s') = sys_call 60 (record args { arg0 = path; arg1 = dir }) s in
      if is_negative err then (none, dir ∷ [], s') else (some dir, [], s')

  -- The entry is the field behind the first of the directory.
  unfoldable pub readdir : ℕ → S → Option ℕ × S
  unfolding sys_call
  readdir dir s =
      let (err, s') = sys_call 61 (record args { arg0 = dir; arg1 = dir + 4 }) s in
      if is_negative err then (none, s') else (some (dir + 4), s')

  -- The answer is 0; the directory is freed.
  unfoldable pub closedir : ℕ → S → List ℕ × S
  unfolding sys_call
  closedir dir s = let (err, s') = sys_call 62 (record args { arg0 = dir }) s in (dir ∷ [], s')

  unfoldable pub unlink : ℕ → S → ℕ × S
  unfolding sys_call
  unlink pathname s = sys_call 63 (record args { arg0 = pathname }) s

  unfoldable pub gettimeofday : ℕ → ℕ → S → ℕ × S
  unfolding sys_call
  gettimeofday tv tz s = sys_call 120 (record args { arg0 = tv; arg1 = tz }) s

  unfoldable pub gmtime_r : ℕ → ℕ → S → ℕ × S
  unfolding sys_call
  gmtime_r timep result s = sys_call 121 (record args { arg0 = timep; arg1 = result }) s

  unfoldable pub power : ℕ → S → ℕ × S
  unfolding sys_call
  power status s = sys_call 200 (record args { arg0 = status }) s

  unfoldable pub save_history : ℕ → ℕ → S → ℕ × S
  unfolding sys_call
  save_history console_num cmd s = sys_call 201 (record args { arg0 = console_num; arg1 = cmd }) s

  unfoldable pub get_history : ℕ → ℕ → S → S
  unfolding sys_call
  get_history console_num arr s =
      (sys_call 202 (record args { arg0 = console_num; arg1 = arr }) s).1
