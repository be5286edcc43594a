-- ===== src/Fs/Files.antt =====
-- The file table of kernel/fs/file.c and the descriptor table of kernel/core/task.c. A descriptor is
-- the 32-bit pattern of an `int`, so a negative one is above every table.
use wjos.Common.{
  ℕ, zero, suc, ◌+◌, ◌-◌, ◌&&◌, Option, none, some, List, [], ◌∷◌, ltb, ◌==◌, if◌then◌else◌, get_or,
  set,
}
use wjos.Fat.Dir.{FileType}

pub record File : Type 0 where
  pub file_name : List ℕ
  pub file_type : FileType
  pub size : ℕ
  pub ref : ℕ
  pub dev_id : ℕ
  pub pos : ℕ
  pub mode : ℕ
  pub sblk : ℕ
  pub cblk : ℕ
  pub p_index : ℕ
  pub fs : ℕ

abbrev pub file_table_size : ℕ
file_table_size = 512

abbrev pub Files : Type 0
Files = ℕ → File

abbrev pub put_file : Files → ℕ → File → Files
put_file files i file = λ j. if j == i then file else files j

-- A cleared entry with `ref = 1`.
abbrev pub new_file : File
new_file = record {
  file_name = [];
  file_type = FileType.unknown;
  size = 0;
  ref = 1;
  dev_id = 0;
  pos = 0;
  mode = 0;
  sblk = 0;
  cblk = 0;
  p_index = 0;
  fs = 0;
}

-- The loop of `file_alloc`, with `n` entries left.
unfoldable pub file_from : ℕ → ℕ → Files → Option ℕ
file_from zero i files = none
file_from (suc n) i files =
    let rest = file_from n (i + 1) files in if (files i).ref == 0 then some i else rest

unfoldable pub file_alloc : Files → Option ℕ × Files
unfolding file_from
file_alloc files = elim (file_from file_table_size 0 files) [
  | none ↦ (none, files)
  | some i ↦ (some i, put_file files i new_file)
]

unfoldable pub file_free : Files → ℕ → Files
file_free files i =
    if (files i).ref == 0
    then files
    else put_file files i (record (files i) { ref = (files i).ref - 1 })

unfoldable pub file_inc_ref : Files → ℕ → Files
file_inc_ref files i = put_file files i (record (files i) { ref = (files i).ref + 1 })

abbrev pub Fds : Type 0
Fds = List (Option ℕ)

abbrev pub task_ofile_nr : ℕ
task_ofile_nr = 128

-- The first free descriptor, from `i` on.
unfoldable pub free_fd : ℕ → Fds → Option ℕ
free_fd i [] = none
free_fd i (none ∷ fds) = some i
free_fd i (some f ∷ fds) = free_fd (i + 1) fds

unfoldable pub task_alloc_fd : Fds → ℕ → Option ℕ × Fds
unfolding free_fd
task_alloc_fd fds file = elim (free_fd 0 fds) [
  | none ↦ (none, fds)
  | some i ↦ (some i, set fds i (some file))
]

unfoldable pub task_remove_fd : Fds → ℕ → Fds
task_remove_fd fds fd = if ltb 0 fd && ltb fd task_ofile_nr then set fds fd none else fds

unfoldable pub task_file : Fds → ℕ → Option ℕ
task_file fds fd = if ltb fd task_ofile_nr then get_or fds fd none else none

-- The files that a child inherits: each open one once more.
unfoldable pub copy_opened_files : Fds → Fds → Files → Fds × Files
copy_opened_files [] child files = (child, files)
copy_opened_files (p ∷ parent) [] files = ([], files)
copy_opened_files (none ∷ parent) (c ∷ child) files =
    let (child', files') = copy_opened_files parent child files in (c ∷ child', files')
copy_opened_files (some f ∷ parent) (c ∷ child) files =
    let (child', files') = copy_opened_files parent child (file_inc_ref files f) in
    (some f ∷ child', files')
