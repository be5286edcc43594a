-- ===== src/Memory/Table/Loop.antt =====
-- `memory_create_map` over any number of pages: translation of the mapped range, the rest of the
-- address space, and reading an address back through `memory_get_paddr`.
use Prim.Native.Nat.{bit_or}
use wjos.Common.{
  ℕ, zero, suc, ◌+◌, ◌-◌, ◌*◌, ◌/◌, ◌%◌, ◌^◌, ◌≤◌, ◌<◌, ◌≡◌, refl, inl, inr, arith, ◌==◌,
  if◌then◌else◌, Bool-cases, ap, ◌∙◌, subst,
}
use wjos.Common.Words.{u32_mod, add32}
use wjos.Common.Bits.{bit_or-low}
use wjos.Memory.Alloc.{mem_page_size}
use wjos.Memory.Table.{
  Memory, pde_index, pte_index, Outcome, mapped, no_memory, asserted, and_then, create_map,
  get_paddr, pte_paddr,
}
use wjos.Memory.Table.Walk.{find_pte-Walk}
use wjos.Memory.Table.Space.{IsSpace, has_table}
use wjos.Memory.Table.Map.{entry, Mapped, map_entry-Mapped}

and_then-eq-mapped :
    (r : Outcome × Memory) (rest : Memory → Outcome × Memory) {m' : Memory}
    → and_then r rest ≡ (mapped, m')
    → (m1 : Memory) × (r ≡ (mapped, m1)) × (rest m1 ≡ (mapped, m'))
and_then-eq-mapped (mapped, m) rest h = (m, refl, h)
and_then-eq-mapped (no_memory, m) rest h = cc
and_then-eq-mapped (asserted, m) rest h = cc

module _ (dir perm : ℕ) (small : perm < 4096) where
  none-Mapped : (m : Memory) (first paddr : ℕ) → IsSpace m dir → Mapped dir m first paddr 0 perm m
  none-Mapped m first paddr s = record {
    space = s;
    entries = λ n h. ground arith;
    unused = λ n lo up. absurd (omega arith);
  }

  cons-Mapped :
      (m m1 m2 : Memory) (first paddr count : ℕ)
      → Mapped dir m first paddr 1 perm m1
      → Mapped dir m1 (first + 1) (paddr + mem_page_size) count perm m2
      → first + suc count ≤ 0x10_0000
      → Mapped dir m first paddr (suc count) perm m2
  cons-Mapped m m1 m2 first paddr count one rest fits = record {
    space = rest.space;
    entries = λ n h. ground (arith, rest.entries n h, one.entries n h);
    unused = λ n lo up. elim (Bool-cases (n == first)) [
      | inl e ↦ one.unused n lo (ground arith)
      | inr e ↦
          let old : entry m1 dir n ≡ entry m dir n = ground (arith, one.entries n (omega arith)) in
          rw old at (rest.unused n (ground arith) (omega arith))
    ];
  }

  -- `memory_create_map` on success, over page-aligned ranges that stay below 2^32: exactly the
  -- `count` pages from `vaddr` on translate to memory from `paddr` on, none of them was mapped
  -- before, and every other entry is as before.
  pub create_map-Mapped :
      (count : ℕ) (m : Memory) (vaddr paddr : ℕ) (m' : Memory)
      → IsSpace m dir
      → vaddr % 4096 ≡ 0
      → paddr % 4096 ≡ 0
      → vaddr + count * mem_page_size ≤ u32_mod
      → paddr + count * mem_page_size ≤ u32_mod
      → create_map m dir vaddr paddr count perm ≡ (mapped, m')
      → Mapped dir m (vaddr / 4096) paddr count perm m'
  unfolding create_map
  create_map-Mapped zero m vaddr paddr m' s hv hp fv fp e =
      let same : m ≡ m' = ap (λ r. r.1) e in
      subst (λ x. Mapped dir m (vaddr / 4096) paddr 0 perm x) same (none-Mapped m _ paddr s)
  create_map-Mapped (suc zero) m vaddr paddr m' s hv hp fv fp e =
      let start : vaddr < u32_mod = omega arith in
      let (m1, round, rest) = and_then-eq-mapped _ _ e in
      let one : Mapped dir m (vaddr / 4096) paddr 1 perm m1 =
        map_entry-Mapped dir m m1 vaddr paddr perm s start _ hp small
          (find_pte-Walk m dir vaddr s start) round in
      let same : m1 ≡ m' = ap (λ r. r.1) rest in
      subst (λ x. Mapped dir m (vaddr / 4096) paddr 1 perm x) same one
  create_map-Mapped (suc (suc count)) m vaddr paddr m' s hv hp fv fp e =
      let start : vaddr < u32_mod = omega arith in
      let (m1, round, rest) = and_then-eq-mapped _ _ e in
      let one : Mapped dir m (vaddr / 4096) paddr 1 perm m1 =
        map_entry-Mapped dir m m1 vaddr paddr perm s start _ hp small
          (find_pte-Walk m dir vaddr s start) round in
      let v_next : add32 vaddr mem_page_size ≡ vaddr + mem_page_size = omega arith in
      let p_next : add32 paddr mem_page_size ≡ paddr + mem_page_size = omega arith in
      let page : (vaddr + mem_page_size) / 4096 ≡ vaddr / 4096 + 1 = omega arith in
      let later =
        create_map-Mapped (suc count) m1 (vaddr + mem_page_size) (paddr + mem_page_size) m'
          one.space (omega arith) (omega arith) (omega arith) (omega arith)
          (subst (λ x. create_map m1 dir x (paddr + mem_page_size) (suc count) perm ≡ (mapped, m'))
            v_next
            (subst
              (λ x. create_map m1 dir (add32 vaddr mem_page_size) x (suc count) perm ≡ (mapped, m'))
              p_next rest)) in
      cons-Mapped m m1 m' (vaddr / 4096) paddr (suc count) one
        (subst (λ x. Mapped dir m1 x (paddr + mem_page_size) (suc count) perm m') page later)
        (omega arith)

module _ (m : Memory) (dir vaddr : ℕ) (h : vaddr < u32_mod) where
  -- `memory_get_paddr` reads the frame out of the entry and adds the offset in the page, where the
  -- directory has a table; without one it is 0. It does not look whether the entry is present.
  pub get_paddr-entry : get_paddr m dir vaddr ≡ (
      if has_table m dir (vaddr / 4096 / 1024)
      then add32 (pte_paddr (entry m dir (vaddr / 4096))) (vaddr % 4096)
      else 0)
  unfolding get_paddr pde_index pte_index
  get_paddr-entry =
      let e : vaddr / 0x40_0000 ≡ vaddr / 4096 / 1024 = omega arith in
      rw (get_paddr, e)
        (elim (Bool-cases (has_table m dir (vaddr / 4096 / 1024))) [
          | inl t ↦ rw (t, get_paddr) refl
          | inr f ↦ rw (f, get_paddr) refl
        ])

or_one : (perm : ℕ) → bit_or perm 1 ≡ perm / 2 * 2 + 1
or_one perm =
    let whole : perm ≡ perm / 2 * 2 ^ 1 + perm % 2 = omega arith in
    let split : bit_or perm 1 ≡ perm / 2 * 2 ^ 1 + bit_or (perm % 2) 1 =
      ap (λ x. bit_or x 1) whole
      ∙ bit_or-low 1 (perm / 2) (perm % 2) 1 (omega arith) (omega arith) in
    elim (Bool-cases (perm % 2 == 0)) [
      | inl e ↦
          let even : perm % 2 ≡ 0 = ground arith in omega (arith, split, ap (λ x. bit_or x 1) even)
      | inr e ↦
          let odd : perm % 2 ≡ 1 = ground arith in omega (arith, split, ap (λ x. bit_or x 1) odd)
    ]

-- An address in a mapped range reads back as its physical address.
pub get_paddr-create_map :
    (dir perm count : ℕ) (m : Memory) (vaddr paddr : ℕ) (m' : Memory) (v : ℕ)
    → IsSpace m dir
    → perm < 4096
    → vaddr % 4096 ≡ 0
    → paddr % 4096 ≡ 0
    → vaddr + count * mem_page_size ≤ u32_mod
    → paddr + count * mem_page_size ≤ u32_mod
    → create_map m dir vaddr paddr count perm ≡ (mapped, m')
    → vaddr ≤ v
    → v < vaddr + count * mem_page_size
    → get_paddr m' dir v ≡ paddr + (v - vaddr)
get_paddr-create_map dir perm count m vaddr paddr m' v s small hv hp fv fp e lo up =
    let out = create_map-Mapped dir perm small count m vaddr paddr m' s hv hp fv fp e in
    let n = v / 4096 in
    let first = vaddr / 4096 in
    let flag : bit_or perm 1 ≡ perm / 2 * 2 + 1 = or_one perm in
    let found : entry m' dir n ≡ paddr + (n - first) * 4096 + bit_or perm 1 =
      ground (arith, out.entries n (omega arith)) in
    ground (arith, get_paddr-entry m' dir v (omega arith))
