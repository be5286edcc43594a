-- ===== src/Memory/Table/Tests.antt =====
-- Mapping one page in a small address space, and the theorems at it.
use wjos.Common.{ℕ, zero, suc, ◌+◌, ◌≡◌, refl, ◌<◌, [], ◌∷◌, arith}
use wjos.Bitmap.{get_bit, set_bit, put_bit, alloc_nbits, search_from, scan}
use wjos.Memory.Alloc.{addr_alloc_page, run_addr}
use wjos.Memory.Alloc.Pages
use wjos.Memory.Table.{Memory, mapped, find_pte, new_table, grow, map_entry, create_map, get_paddr}
use wjos.Memory.Table.Space.{IsSpace}
use wjos.Memory.Table.Map.{Mapped}
use wjos.Memory.Table.Loop.{create_map-Mapped, get_paddr-create_map}

-- Four pages from 1 MB on, of which the first is an empty directory.
abbrev small : Memory
small = record {
  alloc = record {
    bitmap = record { bit_count = 4; bits = 1 ∷ [] };
    start = 0x10_0000;
    size = 0x4000;
    page_size = 4096;
  };
  word = λ a. 0;
}

abbrev dir : ℕ
dir = 0x10_0000

small-IsValid : Pages.IsValid small.alloc
small-IsValid = record {
  bitmap = record { covers = omega arith; bytes = λ i. ground arith };
  pages = omega arith;
  page = refl;
  above = omega arith;
  below = omega arith;
}

free_pages : (p : ℕ) → get_bit small.alloc.bitmap p ≡ 0 → 0 < p
unfolding get_bit
free_pages zero h = cc
free_pages (suc p) h = omega arith

small-IsSpace : IsSpace small dir
small-IsSpace = record {
  valid = small-IsValid;
  aligned = refl;
  pages_aligned = refl;
  apart = λ i h t. cc;
  distinct = λ i j hi hj t. cc;
  free_dir = λ p h f e. absurd (omega (arith, free_pages p f));
  free_table = λ p i h f hi t. cc;
}

-- What a run of the mapping computes through.
abbrev Runs : Type 0
unfolding create_map map_entry find_pte new_table grow addr_alloc_page run_addr alloc_nbits
    search_from scan get_bit set_bit put_bit
Runs = Unit

abbrev result : Memory
result = (create_map small dir 0x8000_0000 0x20_0000 1 7).1

mapping : create_map small dir 0x8000_0000 0x20_0000 1 7 ≡ (mapped, result)
unfolding Runs
mapping = refl

reads_back : get_paddr result dir 0x8000_0123 ≡ 0x20_0123
unfolding Runs get_paddr
reads_back = refl

create_map-Mapped_example : Mapped dir small 0x8_0000 0x20_0000 1 7 result
create_map-Mapped_example =
    create_map-Mapped dir 7 (omega arith) 1 small 0x8000_0000 0x20_0000 result small-IsSpace refl
      refl (omega arith) (omega arith) mapping

get_paddr-create_map_example : get_paddr result dir 0x8000_0123 ≡ 0x20_0000 + 0x123
get_paddr-create_map_example =
    get_paddr-create_map dir 7 1 small 0x8000_0000 0x20_0000 result 0x8000_0123 small-IsSpace
      (omega arith) refl refl (omega arith) (omega arith) mapping (omega arith) (omega arith)
