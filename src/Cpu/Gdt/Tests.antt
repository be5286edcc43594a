-- ===== src/Cpu/Gdt/Tests.antt =====
-- The descriptor table with its first two descriptors in use.
use wjos.Common.{◌≡◌, refl, ◌≢◌, none, some, arith, ltb, if◌then◌else◌}
use wjos.Cpu.Gdt.{Gdt, segment_desc, segment_desc_set, gdt_alloc_desc, free_desc, gdt_free_sel}
use wjos.Cpu.Gdt.Laws.{base_of, base_of-segment_desc, gdt_alloc_desc-fresh}

abbrev two : Gdt
two = λ i. record {
  limit15_0 = 0;
  base15_0 = 0;
  base23_16 = 0;
  attr = if ltb i 3 then 0x4092 else 0;
  base31_24 = 0;
}

base_of-segment_desc_example : base_of (segment_desc 0x1234_5678 0xFFFF_FFFF 0x4092) ≡ 0x1234_5678
base_of-segment_desc_example = base_of-segment_desc 0x1234_5678 0xFFFF_FFFF 0x4092 (omega arith)

third : gdt_alloc_desc two ≡ some 24
unfolding gdt_alloc_desc free_desc
third = refl

gdt_alloc_desc-fresh_example :
    let gdt = segment_desc_set two 24 0x10_0000 104 0x89 in
    (gdt_alloc_desc gdt ≢ some 24) × (gdt_alloc_desc (gdt_free_sel gdt 24) ≢ none)
unfolding segment_desc
gdt_alloc_desc-fresh_example = gdt_alloc_desc-fresh two 24 0x10_0000 104 0x89 third set
  where
    set : (segment_desc 0x10_0000 104 0x89).attr ≢ 0
    set e = omega (arith, e)
