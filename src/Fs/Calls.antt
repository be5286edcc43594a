-- ===== src/Fs/Calls.antt =====
-- The system calls on files in kernel/fs/fs.c. What a mounted file system does, `fs->op`, is an
-- interface: the operations over a state of its own, and the law that none writes a reference count.
use wjos.Common.{
  ℕ, ◌-◌, ◌≡◌, Bool, true, false, ◌||◌, Option, none, some, List, [], ◌∷◌, ltb, leb, ◌==◌,
  if◌then◌else◌, length,
}
use wjos.Fat.Dir.{FileType}
use wjos.Tools.Strings.{copied}
use wjos.Fs.Path.{path_begin_with, path_next_child}
use wjos.Fs.Files.{
  File, Files, put_file, file_alloc, file_free, file_inc_ref, Fds, task_ofile_nr, task_alloc_fd,
  task_remove_fd, task_file,
}

-- A result `none` is a negative one, and so is an open or a seek that answers `false`.
pub record FsOp (S : Type 0) : Type 0 where
  pub fs_open : S → Option (List ℕ) → File → Bool × File × S
  pub fs_read : S → ℕ → File → Option (List ℕ) × File × S
  pub fs_write : S → List ℕ → File → Option ℕ × File × S
  pub fs_seek : S → ℕ → ℕ → File → Bool × File × S
  pub fs_close : S → File → S
  pub open_ref : (s : S) (path : Option (List ℕ)) (f : File) → (fs_open s path f).1.ref ≡ f.ref
  pub read_ref : (s : S) (n : ℕ) (f : File) → (fs_read s n f).1.ref ≡ f.ref
  pub write_ref : (s : S) (bytes : List ℕ) (f : File) → (fs_write s bytes f).1.ref ≡ f.ref
  pub seek_ref : (s : S) (ptr dir : ℕ) (f : File) → (fs_seek s ptr dir f).1.ref ≡ f.ref

-- A mounted file system: its mount point and its index in `fs_table`.
pub record Mount : Type 0 where
  pub point : List ℕ
  pub fs : ℕ

-- What the calls work on: the file table, the running task's descriptors and the file systems.
pub record System (S : Type 0) : Type 0 where
  pub files : Files
  pub fds : Fds
  pub state : S
  pub mounted_list : List Mount
  pub root_fs : ℕ

unfoldable pub is_fd_bed : ℕ → Bool
is_fd_bed fd = leb 0x8000_0000 fd || ltb task_ofile_nr fd

-- The first mounted file system whose mount point the name begins with.
unfoldable pub find_fs : List Mount → List ℕ → Option ℕ
find_fs [] name = none
find_fs (m ∷ ms) name =
    let rest = find_fs ms name in if path_begin_with name m.point then some m.fs else rest

-- The file system of a name, and the name in it; `none` is the null pointer.
unfoldable pub resolve : List Mount → ℕ → List ℕ → ℕ × Option (List ℕ)
unfolding find_fs
resolve mounts root name = elim (find_fs mounts name) [
  | none ↦ (root, some name)
  | some fs ↦ (fs, path_next_child name)
]

abbrev pub name_or_empty : Option (List ℕ) → List ℕ
name_or_empty none = []
name_or_empty (some name) = name

module _ {S : Type 0} (op : ℕ → FsOp S) where
  -- The file is filled in and the file system opens it.
  unfoldable pub open_file : System S → ℕ → ℕ × Option (List ℕ) → ℕ → Bool × System S
  open_file sys flags (fs, name) i =
      let file = record (sys.files i) {
        mode = flags;
        ref = 1;
        fs = fs;
        file_name = copied (name_or_empty name) 32;
      } in
      let (opened, file', s) = (op fs).fs_open sys.state name file in
      (opened, record sys { files = put_file sys.files i file'; state = s })

  unfoldable pub open_end : ℕ → ℕ → Bool × System S → Option ℕ × System S
  open_end i fd (true, sys) = (some fd, sys)
  open_end i fd (false, sys) =
      (none, record sys { files = file_free sys.files i; fds = task_remove_fd sys.fds fd })

  unfoldable pub open_fd : ℕ → List ℕ → ℕ → Option ℕ × Fds → System S → Option ℕ × System S
  unfolding open_file open_end
  open_fd i name flags (none, fds) sys = (none, record sys { files = file_free sys.files i })
  open_fd i name flags (some fd, fds) sys =
      open_end i fd
        (open_file (record sys { fds = fds }) flags (resolve sys.mounted_list sys.root_fs name) i)

  unfoldable pub open_slot : Option ℕ × Files → System S → List ℕ → ℕ → Option ℕ × System S
  unfolding open_fd
  open_slot (none, files) sys name flags = (none, sys)
  open_slot (some i, files) sys name flags =
      open_fd i name flags (task_alloc_fd sys.fds i) (record sys { files = files })

  unfoldable pub sys_open : System S → List ℕ → ℕ → Option ℕ × System S
  unfolding open_slot
  sys_open sys name flags = open_slot (file_alloc sys.files) sys name flags

  -- A read into a buffer that is not null gives the bytes read; `none` is -1.
  unfoldable pub sys_read : System S → ℕ → ℕ → Option (List ℕ) × System S
  sys_read sys fd len =
      if is_fd_bed fd || len == 0 then (some [], sys) else elim (task_file sys.fds fd) [
        | none ↦ (none, sys)
        | some i ↦
            let (res, file, s) = (op (sys.files i).fs).fs_read sys.state len (sys.files i) in
            (res, record sys { files = put_file sys.files i file; state = s })
      ]

  unfoldable pub sys_write : System S → ℕ → List ℕ → Option ℕ × System S
  sys_write sys fd bytes =
      if is_fd_bed fd || length bytes == 0 then (some 0, sys) else elim (task_file sys.fds fd) [
        | none ↦ (none, sys)
        | some i ↦
            let (res, file, s) = (op (sys.files i).fs).fs_write sys.state bytes (sys.files i) in
            (res, record sys { files = put_file sys.files i file; state = s })
      ]

  unfoldable pub sys_lseek : System S → ℕ → ℕ → ℕ → Bool × System S
  sys_lseek sys fd ptr dir = if is_fd_bed fd then (true, sys) else elim (task_file sys.fds fd) [
    | none ↦ (false, sys)
    | some i ↦
        let (res, file, s) = (op (sys.files i).fs).fs_seek sys.state ptr dir (sys.files i) in
        (res, record sys { files = put_file sys.files i file; state = s })
  ]

  -- The file loses a reference; the last one closes it.
  unfoldable pub release : System S → ℕ → System S
  release sys i =
      let file = sys.files i in
      let files' = put_file sys.files i (record file { ref = file.ref - 1 }) in
      if file.ref == 1
      then record sys {
        files = file_free files' i;
        state = (op file.fs).fs_close sys.state (record file { ref = 0 });
      }
      else record sys { files = files' }

  unfoldable pub sys_close : System S → ℕ → Bool × System S
  unfolding release
  sys_close sys fd = if is_fd_bed fd then (true, sys) else elim (task_file sys.fds fd) [
    | none ↦ (false, sys)
    | some i ↦ (true, record (release sys i) { fds = task_remove_fd sys.fds fd })
  ]

abbrev pub is_tty : FileType → Bool
is_tty FileType.tty = true
is_tty _ = false

module _ {S : Type 0} where
  unfoldable pub dup_end : System S → ℕ → Option ℕ × Fds → Option ℕ × System S
  dup_end sys i (none, fds) = (none, sys)
  dup_end sys i (some fd, fds) =
      (some fd, record sys { fds = fds; files = file_inc_ref sys.files i })

  unfoldable pub sys_dup : System S → ℕ → Option ℕ × System S
  unfolding dup_end
  sys_dup sys fd = if is_fd_bed fd then (none, sys) else elim (task_file sys.fds fd) [
    | none ↦ (none, sys)
    | some i ↦ dup_end sys i (task_alloc_fd sys.fds i)
  ]

  pub sys_isatty : System S → ℕ → Option Bool
  sys_isatty sys fd = if is_fd_bed fd then some false else elim (task_file sys.fds fd) [
    | none ↦ none
    | some i ↦ some (is_tty (sys.files i).file_type)
  ]
