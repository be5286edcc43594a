-- ===== src/Memory/User/Tests.antt =====
-- The user heap and new directories at small pools of pages.
use wjos.Common.{◌≡◌, refl, some, [], ◌∷◌}
use wjos.Memory.Table.{Memory}
use wjos.Memory.User.{Sbrk, sys_sbrk}

-- Two pages from 1 MB on, both in use.
abbrev full : Memory
full = record {
  alloc = record {
    bitmap = record { bit_count = 2; bits = 3 ∷ [] };
    start = 0x10_0000;
    size = 0x2000;
    page_size = 4096;
  };
  word = λ a. a;
}

abbrev grown : Sbrk
grown = record { result = 0x8000_0010; heap_end = 0x8000_0110; memory = full }

in_page : sys_sbrk full 0 0x8000_0010 0x100 ≡ some grown
unfolding sys_sbrk
in_page = refl
