-- ===== src/Loader/Tests.antt =====
-- The theorems on the loader at a small image, a disk that is ready and a map of one region.
use wjos.Common.{
  ℕ, zero, suc, ◌+◌, ◌-◌, ◌≤◌, ◌<◌, ◌≡◌, refl, inl, ◌++◌, List, [], ◌∷◌, arith, leb, ◌==◌,
  if◌then◌else◌, get_or, replicate, All, length,
}
use wjos.Dev.Disk.{Io}
use wjos.Dev.Disk.Command.{Registers, Latch}
use wjos.Loader.{Bytes, half_at, word_at, segment, reload_elf_file}
use wjos.Loader.Image.{IsApart}
use wjos.Loader.Kernel.{IsImage, covered, reload_elf_file-covered}
use wjos.Loader.Boot.{Answer, IsUsable, detect_memory, detect_memory-IsUsable, read_disk}
use wjos.Loader.Sectors.{DiskRead, read_disk-DiskRead}

-- An image with the entry 0x800 and one segment, of two bytes in the file and four at the address 16.
abbrev file : List ℕ
file =
    (0x7F ∷ 69 ∷ 76 ∷ 70 ∷ replicate 20 0)
    ++ ((0 ∷ 8 ∷ 0 ∷ 0 ∷ 52 ∷ 0 ∷ 0 ∷ 0 ∷ replicate 12 0)
        ++ ((1 ∷ 0 ∷ replicate 6 0)
            ++ ((1 ∷ 0 ∷ 0 ∷ 0 ∷ 84 ∷ replicate 7 0)
                ++ ((16 ∷ 0 ∷ 0 ∷ 0 ∷ 2 ∷ 0 ∷ 0 ∷ 0 ∷ 4 ∷ replicate 11 0) ++ (5 ∷ 6 ∷ [])))))

abbrev memory : Bytes
memory = λ a. if leb 1000 a then get_or file (a - 1000) 9 else 9

file-IsImage : IsImage memory 1000 86 (half_at memory 1044)
unfolding segment
file-IsImage = record { header = omega arith; table = omega arith; apart = parts }
  where
    parts : (i : ℕ) → i < 1 → IsApart 1000 86 (segment memory 1000 i)
    parts zero lt = record { inside = omega arith; place = inl (omega arith) }
    parts (suc i) lt = absurd (omega (arith, lt))

reload_elf_file-covered_example :
    ((reload_elf_file memory 1000).0 ≡ word_at memory 1024)
    × ((reload_elf_file memory 1000).1 17
        ≡ covered (half_at memory 1044) memory 1000 0 17 (memory 17))
reload_elf_file-covered_example = reload_elf_file-covered memory 1000 86 17 file-IsImage refl

second_byte : (reload_elf_file memory 1000).1 17 ≡ 6
unfolding reload_elf_file
second_byte = refl

abbrev answers : ℕ → Answer
answers = λ i. record {
  signature = 0x534D_4150;
  bytes = 20;
  cont_id = if i == 0 then 1 else 0;
  base_l = 0x10_0000;
  length_l = 0x80_0000;
  type = i + 1;
  acpi = 0;
}

detect_memory-IsUsable_example :
    (length (detect_memory answers) ≤ 10) × All (IsUsable answers 10) (detect_memory answers)
detect_memory-IsUsable_example = detect_memory-IsUsable answers

abbrev idle : Io
idle = record { asked = 0; taken = 0; events = [] }

abbrev reset : Registers
reset =
    let none_yet : Latch = record { now = 0; before = 0 } in
    record { count = none_yet; lo = none_yet; mid = none_yet; hi = none_yet }

read_disk-DiskRead_example :
    DiskRead
      (λ i. 8)
      (λ i. i)
      1
      (λ i. 0)
      (λ i. omega arith)
      (λ i. refl)
      reset
      100
      500
      idle
      (read_disk (λ i. 8) (λ i. i) 1 100 500 idle)
read_disk-DiskRead_example =
    read_disk-DiskRead (λ i. 8) (λ i. i) 1 (λ i. 0) (λ i. omega arith) (λ i. refl) reset 100 500
      idle (omega arith) (omega arith)
