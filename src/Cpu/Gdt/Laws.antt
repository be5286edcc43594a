-- ===== src/Cpu/Gdt/Laws.antt =====
-- The descriptors of kernel/cpu/cpu.c: what they describe, and who gets one.
use wjos.Common.{
  ℕ, zero, suc, ◌+◌, ◌*◌, ◌/◌, ◌≤◌, ◌<◌, ◌≡◌, refl, ◌≢◌, inl, inr, Bool, true, Option, none, some,
  arith, ◌==◌, if◌then◌else◌, Bool-cases, ap, ◌∙◌, sym, subst,
}
use wjos.Common.Words.{u32_mod}
use wjos.Cpu.Gdt.{
  SegmentDesc, Gdt, segment_desc, segment_desc_set, free_desc, gdt_alloc_desc, gdt_free_sel,
}

-- The base that the processor puts together from a descriptor.
abbrev pub base_of : SegmentDesc → ℕ
base_of desc = desc.base15_0 + desc.base23_16 * 0x1_0000 + desc.base31_24 * 0x100_0000

-- A segment's descriptor has its base.
pub base_of-segment_desc :
    (base limit attr : ℕ) → base < u32_mod → base_of (segment_desc base limit attr) ≡ base
unfolding segment_desc
base_of-segment_desc base limit attr lt = omega (arith, lt)

-- The first free entry from `i` on, or none among `n`.
abbrev pub Found : ℕ → ℕ → Gdt → Option ℕ → Type 0
Found n i gdt none = (j : ℕ) → i ≤ j → j < i + n → (gdt j).attr ≢ 0
Found n i gdt (some sel) =
    (k : ℕ) × (sel ≡ k * 8)
    × (i ≤ k)
    × (k < i + n)
    × ((gdt k).attr ≡ 0)
    × ((j : ℕ) → i ≤ j → j < k → (gdt j).attr ≢ 0)

free_desc-Found : (n i : ℕ) (gdt : Gdt) → Found n i gdt (free_desc n i gdt)
unfolding free_desc
free_desc-Found zero i gdt = λ j low high. absurd (omega (arith, low, high))
free_desc-Found (suc n) i gdt = elim (Bool-cases ((gdt i).attr == 0)) [
  | inl e ↦
      rw (e, if◌then◌else◌)
        (
          i,
          refl,
          omega arith,
          omega arith,
          ground (arith, e),
          λ j low high. absurd (omega (arith, low, high)),
        )
  | inr e ↦
      rw (e, if◌then◌else◌)
        (later (free_desc n (i + 1) gdt) (ground (arith, e)) (free_desc-Found n (i + 1) gdt))
]
  where
    here_or_later :
        ((gdt i).attr ≢ 0)
        → (P : ℕ → Type 0) → ((j : ℕ) → i + 1 ≤ j → P j → (gdt j).attr ≢ 0)
        → (j : ℕ) → i ≤ j
        → P j
        → (gdt j).attr ≢ 0
    here_or_later used P up j low p = elim (Bool-cases (j == i)) [
      | inl same ↦ let eq : i ≡ j = ground (arith, same) in subst (λ k. (gdt k).attr ≢ 0) eq used
      | inr other ↦ up j (ground (arith, other, low)) p
    ]

    later : (r : Option ℕ) → ((gdt i).attr ≢ 0) → Found n (i + 1) gdt r → Found (suc n) i gdt r
    later none used f = λ j low high.
        here_or_later used (λ j. j < i + suc n) (λ j low' p. f j low' (omega (arith, p))) j low high
    later (some sel) used (k, s, low, high, free, before) = (
      k,
      s,
      omega (arith, low),
      omega (arith, high),
      free,
      here_or_later used (λ j. j < k) (λ j low' p. before j low' p),
    )

-- `gdt_alloc_desc` gives the selector of the first entry behind the null descriptor that is free, and
-- fails exactly where none is; an entry that is set to a descriptor of its own is not given again.
pub gdt_alloc_desc-Found : (gdt : Gdt) → Found 255 1 gdt (gdt_alloc_desc gdt)
unfolding gdt_alloc_desc
gdt_alloc_desc-Found gdt = free_desc-Found 255 1 gdt

-- A descriptor that is set after its selector was given is given to nobody else, until it is freed:
-- then there is a selector again.
pub gdt_alloc_desc-fresh :
    (gdt : Gdt) (sel base limit attr : ℕ)
    → gdt_alloc_desc gdt ≡ some sel
    → (segment_desc base limit attr).attr ≢ 0
    → let gdt' = segment_desc_set gdt sel base limit attr in
      (gdt_alloc_desc gdt' ≢ some sel) × (gdt_alloc_desc (gdt_free_sel gdt' sel) ≢ none)
unfolding segment_desc_set gdt_free_sel
gdt_alloc_desc-fresh gdt sel base limit attr given used =
    let gdt' = segment_desc_set gdt sel base limit attr in
    let (k, at_k, low, high, _, _) = subst (Found 255 1 gdt) given (gdt_alloc_desc-Found gdt) in
    (taken k at_k, freed k at_k low high)
  where
    taken :
        (k : ℕ) → sel ≡ k * 8 → gdt_alloc_desc (segment_desc_set gdt sel base limit attr) ≢ some sel
    taken k at_k again =
        let (j, at_j, _, _, free, _) =
          subst (Found 255 1 (segment_desc_set gdt sel base limit attr)) again
            (gdt_alloc_desc-Found (segment_desc_set gdt sel base limit attr)) in
        let here : (j == sel / 8) ≡ true = ground (arith, at_j) in
        used (
          ap (λ (b : Bool). (if b then segment_desc base limit attr else gdt j).attr) (sym here)
          ∙ free)

    freed :
        (k : ℕ)
        → sel ≡ k * 8
        → 1 ≤ k
        → k < 256
        → gdt_alloc_desc (gdt_free_sel (segment_desc_set gdt sel base limit attr) sel) ≢ none
    freed k at_k low high nothing =
        let g = gdt_free_sel (segment_desc_set gdt sel base limit attr) sel in
        let all = subst (Found 255 1 g) nothing (gdt_alloc_desc-Found g) in
        let here : (k == sel / 8) ≡ true = ground (arith, at_k) in
        all k low high (ground (arith, here))
