-- ===== src/Loader/Image.antt =====
-- What loader/loader_32.c puts in memory, against the segments of the image.
use wjos.Common.{
  ℕ, zero, suc, ◌+◌, ◌-◌, ◌≤◌, ◌≡◌, refl, ◌⊎◌, inl, inr, Bool, true, false, ◌&&◌, arith, ltb, leb,
  ◌==◌, if◌then◌else◌, Bool-cases, ap, ◌∙◌,
}
use wjos.Common.Words.{sub32}
use wjos.Loader.{Bytes, Segment, put, copy, clear, load_segment}

abbrev pub within : ℕ → ℕ → ℕ → Bool
within dest n x = leb dest x && ltb x (dest + n)

-- A copy between areas that do not meet.
copy_lem :
    (n : ℕ) (mem : Bytes) (dest src x : ℕ)
    → (dest + n ≤ src) ⊎ (src + n ≤ dest)
    → copy n mem dest src x ≡ (if within dest n x then mem (src + (x - dest)) else mem x)
unfolding copy
copy_lem zero mem dest src x apart = let out : within dest 0 x ≡ false = ground arith in rw out refl
copy_lem (suc n) mem dest src x apart =
    copy_lem n (put mem dest (mem src)) (dest + 1) (src + 1) x (omega (arith, apart))
    ∙ first mem dest src x n apart
  where
    -- The first byte, before the others.
    first :
        (mem : Bytes) (dest src x n : ℕ)
        → (dest + suc n ≤ src) ⊎ (src + suc n ≤ dest)
        → (if within (dest + 1) n x
            then put mem dest (mem src) (src + 1 + (x - (dest + 1)))
            else put mem dest (mem src) x)
          ≡ (if within dest (suc n) x then mem (src + (x - dest)) else mem x)
    first mem dest src x n apart = elim (Bool-cases (within (dest + 1) n x)) [
      | inl e ↦
          let more : within dest (suc n) x ≡ true = ground (arith, e) in
          let same : src + 1 + (x - (dest + 1)) ≡ src + (x - dest) = ground (arith, e) in
          let other : (src + (x - dest) == dest) ≡ false = ground (arith, e, apart) in
          rw (e, more, same, other) refl
      | inr e ↦ elim (Bool-cases (x == dest)) [
        | inl f ↦
            let more : within dest (suc n) x ≡ true = ground (arith, f) in
            let same : src + (x - dest) ≡ src = ground (arith, f) in rw (e, f, more, same) refl
        | inr f ↦
            let out : within dest (suc n) x ≡ false = ground (arith, e, f) in rw (e, f, out) refl
      ]
    ]

clear_lem :
    (n : ℕ) (mem : Bytes) (dest x : ℕ)
    → clear n mem dest x ≡ (if leb dest x && ltb x (dest + n) then 0 else mem x)
unfolding clear
clear_lem zero mem dest x = ground arith
clear_lem (suc n) mem dest x = ground (arith, clear_lem n (put mem dest 0) (dest + 1) x)

-- The byte at `x` behind the load of a segment, where it was `now`: of the file, 0, or the one before.
abbrev pub cover : Bytes → ℕ → Segment → ℕ → ℕ → ℕ
cover mem buffer s x now =
    if s.p_type == 1
    then (if within s.p_paddr s.p_filesz x
        then mem (buffer + s.p_offset + (x - s.p_paddr))
        else if within (s.p_paddr + s.p_filesz) (sub32 s.p_memsz s.p_filesz) x
        then 0
        else now)
    else now

-- A segment's bytes are in the image, of `len` bytes at `buffer`, and its place in memory is not.
pub record IsApart (buffer len : ℕ) (s : Segment) : Type 0 where
  pub inside : s.p_offset + s.p_filesz ≤ len
  pub place :
      (s.p_paddr + s.p_filesz + sub32 s.p_memsz s.p_filesz ≤ buffer) ⊎ (buffer + len ≤ s.p_paddr)

pub load_segment_lem :
    (mem : Bytes) (buffer len x : ℕ) (s : Segment)
    → IsApart buffer len s
    → load_segment mem buffer s x ≡ cover mem buffer s x (mem x)
unfolding load_segment
load_segment_lem mem buffer len x s a = elim (Bool-cases (s.p_type == 1)) [
  | inl e ↦
      rw (load_segment, e)
        (clear_lem (sub32 s.p_memsz s.p_filesz)
            (copy s.p_filesz mem s.p_paddr (buffer + s.p_offset)) (s.p_paddr + s.p_filesz) x
          ∙ ap
              (λ b. if within (s.p_paddr + s.p_filesz) (sub32 s.p_memsz s.p_filesz) x then 0 else b)
              (copy_lem s.p_filesz mem s.p_paddr (buffer + s.p_offset) x
                (omega (arith, a.place, a.inside)))
          ∙ either s x (mem (buffer + s.p_offset + (x - s.p_paddr))) (mem x))
  | inr e ↦ rw (load_segment, e) refl
]
  where
    either :
        (s : Segment) (x b c : ℕ)
        → (if within (s.p_paddr + s.p_filesz) (sub32 s.p_memsz s.p_filesz) x
            then 0
            else if within s.p_paddr s.p_filesz x
            then b
            else c)
          ≡ (if within s.p_paddr s.p_filesz x
              then b
              else if within (s.p_paddr + s.p_filesz) (sub32 s.p_memsz s.p_filesz) x
              then 0
              else c)
    either s x b c = elim (Bool-cases (within s.p_paddr s.p_filesz x)) [
      | inl e ↦
          let out : within (s.p_paddr + s.p_filesz) (sub32 s.p_memsz s.p_filesz) x ≡ false =
            ground (arith, e) in
          rw (e, out) refl
      | inr e ↦ rw e refl
    ]
