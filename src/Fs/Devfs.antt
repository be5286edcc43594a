-- ===== src/Fs/Devfs.antt =====
-- The device file system of kernel/fs/devfs/devfs.c, in front of the device table, and the calls of
-- kernel/fs/fs.c for a file's driver. There is one type of device, `tty`.
use wjos.Common.{
  ℕ, ◌<◌, ◌≡◌, refl, Bool, true, Option, none, some, List, [], ◌∷◌, ◌++◌, arith, ltb, ◌==◌,
  if◌then◌else◌, length, drop, ap, ◌∙◌,
}
use wjos.Fat.Dir.{FileType}
use wjos.Tools.Strings.{strcmp}
use wjos.Tools.Text.{itoa}
use wjos.Dev.Table.{Devices, is_devid_bad, dev_open, dev_close}
use wjos.Fs.Files.{File, Files, Fds, task_file}
use wjos.Fs.Calls.{is_fd_bed}
use wjos.Fs.Path.{num_from, path_to_num}
use wjos.Fs.Numbers.{path_to_num-itoa}

-- `dev_type_list`: the name and the major number.
abbrev pub tty_name : List ℕ
tty_name = 116 ∷ 116 ∷ 121 ∷ []

abbrev pub dev_tty : ℕ
dev_tty = 1

-- The minor number behind the name; `local` is what the variable holds that is not set without one.
unfoldable pub minor_of : List ℕ → ℕ → ℕ
unfolding path_to_num
minor_of path local = if ltb 3 (length path) then path_to_num (drop 3 path) else local

-- A file for the answer of `dev_open`, whose failure is -1.
unfoldable pub devfs_file : ℕ → Option ℕ × Devices → File → File × Devices
devfs_file fs (none, tbl) file = (
  record file { dev_id = 0xFFFF_FFFF; fs = fs; pos = 0; size = 0; file_type = FileType.tty },
  tbl,
)
devfs_file fs (some dev_id, tbl) file =
    (record file { dev_id = dev_id; fs = fs; pos = 0; size = 0; file_type = FileType.tty }, tbl)

module _ (driver_open : ℕ → ℕ → Bool) where
  -- The answer is 0 on every path.
  unfoldable pub devfs_open : ℕ → List ℕ → ℕ → File → Devices → File × Devices
  unfolding minor_of devfs_file strcmp dev_open
  devfs_open fs path local file tbl =
      if strcmp path tty_name 3 == 0
      then devfs_file fs (dev_open driver_open tbl dev_tty (minor_of path local)) file
      else (file, tbl)

unfoldable pub devfs_close : File → Devices → Devices
unfolding dev_close
devfs_close file tbl = dev_close tbl file.dev_id

-- `dev_read`, `dev_write` and `dev_control` of an open device: the call of its driver, whose answer
-- for a major and a minor number is a parameter, or -1.
unfoldable pub dev_call {ℓ} : {A : Type ℓ} → (ℕ → ℕ → A) → Devices → ℕ → Option A
unfolding is_devid_bad
dev_call driver tbl id =
    if is_devid_bad tbl id
    then none
    else elim (tbl id).desc [ none ↦ none | some major ↦ some (driver major (tbl id).minor) ]

-- `devfs_read`, `devfs_write` and `devfs_ioctl` call the driver of the file's device.
unfoldable pub devfs_call {ℓ} : {A : Type ℓ} → (ℕ → ℕ → A) → File → Devices → Option A
unfolding dev_call
devfs_call driver file tbl = dev_call driver tbl file.dev_id

-- `sys_ioctl` over the answers of the file systems, of which some have no such operation; `none` is -1.
unfoldable pub sys_ioctl : (ℕ → Option (File → Option ℕ)) → Fds → Files → ℕ → Option ℕ
sys_ioctl op fds files fd = if is_fd_bed fd then none else elim (task_file fds fd) [
  | none ↦ none
  | some i ↦ elim (op (files i).fs) [ none ↦ none | some ioctl ↦ ioctl (files i) ]
]

strcmp_tty : (s : List ℕ) → (strcmp (116 ∷ 116 ∷ 121 ∷ s) tty_name 3 == 0) ≡ true
unfolding strcmp
strcmp_tty [] = refl
strcmp_tty (c ∷ s) = refl

-- The number is read where one is given, and one that is not 0 is given.
minor_of_number :
    (s : List ℕ) (n local : ℕ)
    → path_to_num s ≡ n
    → 0 < n
    → minor_of (116 ∷ 116 ∷ 121 ∷ s) local ≡ n
unfolding minor_of path_to_num num_from
minor_of_number [] n local e pos = absurd (omega (arith, e, pos))
minor_of_number (c ∷ s) n local e pos =
    let long : ltb 3 (length (116 ∷ 116 ∷ 121 ∷ c ∷ s)) ≡ true = ground arith in
    rw (long, if◌then◌else◌) e

module _ (driver_open : ℕ → ℕ → Bool) (fs local : ℕ) (file : File) (tbl : Devices) where
  devfs_open-number :
      (s : List ℕ) (n : ℕ)
      → path_to_num s ≡ n
      → 0 < n
      → devfs_open driver_open fs (116 ∷ 116 ∷ 121 ∷ s) local file tbl
        ≡ devfs_file fs (dev_open driver_open tbl dev_tty n) file
  unfolding devfs_open
  devfs_open-number s n e pos =
      ap
        (λ (b : Bool).
          if b
          then devfs_file fs
              (dev_open driver_open tbl dev_tty (minor_of (116 ∷ 116 ∷ 121 ∷ s) local)) file
          else (file, tbl))
        (strcmp_tty s)
      ∙ ap (λ m. devfs_file fs (dev_open driver_open tbl dev_tty m) file)
          (minor_of_number s n local e pos)

  -- The path of terminal `n`, printed in base 10, opens the device of that number; the file that it
  -- fills in is a terminal's.
  devfs_open-tty :
      (n : ℕ)
      → 0 < n
      → n < 0x8000_0000
      → devfs_open driver_open fs (tty_name ++ itoa n 10) local file tbl
        ≡ devfs_file fs (dev_open driver_open tbl dev_tty n) file
  devfs_open-tty n pos lt = devfs_open-number (itoa n 10) n (path_to_num-itoa n pos lt) pos
