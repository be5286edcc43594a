-- ===== src/Loader.antt =====
-- The loader in 32-bit mode and in real mode, loader/loader_32.c and loader/loader_16.c: the memory
-- map of the BIOS, the read of the kernel's image, and the copy of its segments. Memory is a byte for
-- each address, and addresses do not wrap around.
pub mod Image
pub mod Kernel
pub mod Boot
pub mod Sectors
mod Tests
use wjos.Common.{
  ℕ, zero, suc, ◌+◌, ◌*◌, ◌/◌, ◌%◌, Bool, true, false, not, ◌&&◌, Option, none, some, List, [], ◌∷◌,
  ◌++◌, ltb, ◌==◌, if◌then◌else◌,
}
use wjos.Common.Words.{sub32}

abbrev pub Bytes : Type 0
Bytes = ℕ → ℕ

abbrev pub half_at : Bytes → ℕ → ℕ
half_at mem a = mem a + 256 * mem (a + 1)

abbrev pub word_at : Bytes → ℕ → ℕ
word_at mem a = half_at mem a + 0x1_0000 * half_at mem (a + 2)

-- An `Elf32_Phdr` of 32 bytes: the fields that are read.
pub record Segment : Type 0 where
  pub p_type : ℕ
  pub p_offset : ℕ
  pub p_paddr : ℕ
  pub p_filesz : ℕ
  pub p_memsz : ℕ

unfoldable pub segment : Bytes → ℕ → ℕ → Segment
segment mem buffer i =
    let phdr = buffer + word_at mem (buffer + 28) + 32 * i in
    record {
      p_type = word_at mem phdr;
      p_offset = word_at mem (phdr + 4);
      p_paddr = word_at mem (phdr + 12);
      p_filesz = word_at mem (phdr + 16);
      p_memsz = word_at mem (phdr + 20);
    }

abbrev pub put : Bytes → ℕ → ℕ → Bytes
put mem a b = λ x. if x == a then b else mem x

-- `*dest++ = *src++`, `n` times.
unfoldable pub copy : ℕ → Bytes → ℕ → ℕ → Bytes
copy zero mem dest src = mem
copy (suc n) mem dest src = copy n (put mem dest (mem src)) (dest + 1) (src + 1)

unfoldable pub clear : ℕ → Bytes → ℕ → Bytes
clear zero mem dest = mem
clear (suc n) mem dest = clear n (put mem dest 0) (dest + 1)

-- One segment, whose header is read before it is copied.
unfoldable pub load_segment : Bytes → ℕ → Segment → Bytes
unfolding copy clear
load_segment mem buffer s =
    if s.p_type == 1
    then (let copied = copy s.p_filesz mem s.p_paddr (buffer + s.p_offset) in
        clear (sub32 s.p_memsz s.p_filesz) copied (s.p_paddr + s.p_filesz))
    else mem

-- The loop over the headers, from the i-th on.
unfoldable pub load_segments : ℕ → ℕ → ℕ → Bytes → Bytes
unfolding load_segment segment
load_segments zero buffer i mem = mem
load_segments (suc n) buffer i mem =
    load_segments n buffer (i + 1) (load_segment mem buffer (segment mem buffer i))

abbrev pub is_elf : Bytes → ℕ → Bool
is_elf mem buffer =
    (mem buffer == 0x7F)
    && ((mem (buffer + 1) == 69) && ((mem (buffer + 2) == 76) && (mem (buffer + 3) == 70)))

-- The entry, 0 for what is no image, and the memory.
unfoldable pub reload_elf_file : Bytes → ℕ → ℕ × Bytes
unfolding load_segments
reload_elf_file mem buffer =
    let loaded = load_segments (half_at mem (buffer + 44)) buffer 0 mem in
    if is_elf mem buffer then (word_at loaded (buffer + 24), loaded) else (0, mem)
