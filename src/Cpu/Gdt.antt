-- ===== src/Cpu/Gdt.antt =====
-- The global descriptor table of kernel/cpu/cpu.c. Its mutex is held from the first to the last
-- access of each function, so a function is one step.
pub mod Laws
mod Tests
use Prim.Native.Nat.{bit_or}
use wjos.Common.{
  ℕ, zero, suc, ◌+◌, ◌-◌, ◌*◌, ◌/◌, ◌%◌, Bool, true, false, Option, none, some, ltb, leb, ◌==◌,
  if◌then◌else◌,
}

pub record SegmentDesc : Type 0 where
  pub limit15_0 : ℕ
  pub base15_0 : ℕ
  pub base23_16 : ℕ
  pub attr : ℕ
  pub base31_24 : ℕ

-- Entry `i` of `gdt_table`.
abbrev pub Gdt : Type 0
Gdt = ℕ → SegmentDesc

abbrev pub gdt_table_size : ℕ
gdt_table_size = 256

abbrev pub put_desc : Gdt → ℕ → SegmentDesc → Gdt
put_desc gdt i desc = λ j. if j == i then desc else gdt j

-- The descriptor of a segment: a limit above 2 ^ 20 - 1 counts in pages, which bit 15 of `attr` says.
unfoldable pub segment_desc : ℕ → ℕ → ℕ → SegmentDesc
segment_desc base limit attr =
    let attr' = if ltb 0xF_FFFF limit then bit_or attr 0x8000 else attr in
    let limit' = if ltb 0xF_FFFF limit then limit / 0x1000 else limit in
    record {
      limit15_0 = limit' % 0x1_0000;
      base15_0 = base % 0x1_0000;
      base23_16 = base / 0x1_0000 % 0x100;
      attr = bit_or attr' (limit' / 0x1_0000 % 0x10 * 0x100) % 0x1_0000;
      base31_24 = base / 0x100_0000 % 0x100;
    }

unfoldable pub segment_desc_set : Gdt → ℕ → ℕ → ℕ → ℕ → Gdt
unfolding segment_desc
segment_desc_set gdt selector base limit attr =
    put_desc gdt (selector / 8) (segment_desc base limit attr)

-- A gate in the bytes of a segment's descriptor: its attributes take the byte `base23_16` and the low
-- byte of `attr`, and the high half of its offset the two bytes behind.
unfoldable pub gate_desc : ℕ → ℕ → ℕ → SegmentDesc
gate_desc selector offset attr = record {
  limit15_0 = offset % 0x1_0000;
  base15_0 = selector % 0x1_0000;
  base23_16 = attr % 0x100;
  attr = attr / 0x100 % 0x100 + offset / 0x1_0000 % 0x100 * 0x100;
  base31_24 = offset / 0x100_0000 % 0x100;
}

unfoldable pub clear_descs : ℕ → ℕ → Gdt → Gdt
unfolding segment_desc_set
clear_descs zero i gdt = gdt
clear_descs (suc n) i gdt = clear_descs n (i + 1) (segment_desc_set gdt (i * 8) 0 0 0)

-- `handler` is the address of `exception_handle_syscall`.
unfoldable pub init_gdt : ℕ → Gdt → Gdt
unfolding clear_descs segment_desc_set gate_desc
init_gdt handler gdt =
    let empty = clear_descs gdt_table_size 0 gdt in
    let with_data = segment_desc_set empty 16 0 0xFFFF_FFFF 0x4092 in
    let with_code = segment_desc_set with_data 8 0 0xFFFF_FFFF 0x409A in
    put_desc with_code 3 (gate_desc 8 handler 0xEC05)

-- The loop of `gdt_alloc_desc`, with `n` entries left.
unfoldable pub free_desc : ℕ → ℕ → Gdt → Option ℕ
free_desc zero i gdt = none
free_desc (suc n) i gdt =
    let rest = free_desc n (i + 1) gdt in if (gdt i).attr == 0 then some (i * 8) else rest

-- The selector of a free entry, which stays free until it is set.
unfoldable pub gdt_alloc_desc : Gdt → Option ℕ
unfolding free_desc
gdt_alloc_desc gdt = free_desc 255 1 gdt

unfoldable pub gdt_free_sel : Gdt → ℕ → Gdt
gdt_free_sel gdt sel = put_desc gdt (sel / 8) (record (gdt (sel / 8)) { attr = 0 })
