-- ===== src/Fs/Tests.antt =====
-- The theorems on files at a system with two files, over a file system that answers every call.
use wjos.Common.{
  ℕ, ◌≡◌, refl, true, none, some, [], ◌∷◌, arith, ◌==◌, if◌then◌else◌, length, replicate,
}
use wjos.Fs.Path.{path_next_child, skip_slashes, skip_name}
use wjos.Fs.Files.{new_file}
use wjos.Fs.Mount.{FsType, Mounts, Mounting, mount, mount-Mounting}
use wjos.Fs.Calls.{FsOp, System, sys_close}
use wjos.Fs.Refs.{IsCounted, sys_close-IsCounted}

abbrev plain : FsOp Unit
plain = record {
  fs_open = λ s path f. (true, f, s);
  fs_read = λ s n f. (some [], f, s);
  fs_write = λ s bytes f. (some (length bytes), f, s);
  fs_seek = λ s ptr dir f. (true, record f { pos = ptr }, s);
  fs_close = λ s f. s;
  open_ref = λ s path f. refl;
  read_ref = λ s n f. refl;
  write_ref = λ s bytes f. refl;
  seek_ref = λ s ptr dir f. refl;
}

-- File 5 is open once by descriptor 0, and file 6 twice, by descriptor 1 and by another task.
abbrev opened : System Unit
opened = record {
  files = λ i.
      if i == 5
      then new_file
      else if i == 6
      then record new_file { ref = 2 }
      else record new_file { ref = 0 };
  fds = some 5 ∷ some 6 ∷ replicate 126 none;
  state = tt;
  mounted_list = [];
  root_fs = 0;
}

abbrev others : ℕ → ℕ
others f = if f == 6 then 1 else 0

opened-IsCounted : IsCounted others opened
opened-IsCounted = ((λ f. ground arith), refl)

-- The second component of a path's name.
child : path_next_child (47 ∷ 100 ∷ 47 ∷ 116 ∷ []) ≡ some (116 ∷ [])
unfolding path_next_child skip_slashes skip_name
child = refl

sys_close-IsCounted_example : IsCounted others (sys_close (λ fs. plain) opened 1).1
sys_close-IsCounted_example =
    sys_close-IsCounted others opened opened-IsCounted (λ fs. plain) 1 (ground arith)

-- One file system is mounted on `/dev`, and one entry is free.
abbrev mounts : Mounts
mounts = record {
  mounted_list = record { point = 47 ∷ 100 ∷ 101 ∷ 118 ∷ []; fs = 7 } ∷ [];
  free_list = 6 ∷ [];
  op = λ i. none;
}

mount-Mounting_example :
    Mounting
      (47 ∷ 104 ∷ [])
      mounts
      (mount (λ type fs major minor. true) FsType.fatfs16 (47 ∷ 104 ∷ []) 2 0xb1 mounts)
mount-Mounting_example =
    mount-Mounting (λ type fs major minor. true) FsType.fatfs16 (47 ∷ 104 ∷ []) 2 0xb1 mounts
