-- ===== src/Loader/Kernel.antt =====
-- The memory behind `reload_elf_file` of loader/loader_32.c, for an image whose segments are apart
-- from it.
use wjos.Common.{
  ℕ, zero, suc, ◌+◌, ◌-◌, ◌*◌, ◌≤◌, ◌<◌, ◌≡◌, refl, inl, inr, Bool, true, false, arith, ◌==◌,
  if◌then◌else◌, Bool-cases, ap, subst, sym, ◌∙◌,
}
use wjos.Common.Words.{sub32}
use wjos.Loader.{
  Bytes, Segment, half_at, word_at, segment, load_segment, load_segments, is_elf, reload_elf_file,
}
use wjos.Loader.Image.{within, cover, IsApart, load_segment_lem}

-- An image of `len` bytes at `buffer`, with `n` headers, all of it apart from where its segments go.
pub record IsImage (mem : Bytes) (buffer len n : ℕ) : Type 0 where
  pub header : 52 ≤ len
  pub table : word_at mem (buffer + 28) + 32 * n ≤ len
  pub apart : (i : ℕ) → i < n → IsApart buffer len (segment mem buffer i)

-- The byte at `x` behind the loads of the segments from the i-th on, as the image has them.
abbrev pub covered : ℕ → Bytes → ℕ → ℕ → ℕ → ℕ → ℕ
covered zero mem buffer i x now = now
covered (suc n) mem buffer i x now =
    covered n mem buffer (i + 1) x (cover mem buffer (segment mem buffer i) x now)

module _ (mem : Bytes) (buffer len n : ℕ) (image : IsImage mem buffer len n) where
  Same : Bytes → Type 0
  Same m = (x : ℕ) → buffer ≤ x → x < buffer + len → m x ≡ mem x

  word_at-Same :
      (m : Bytes) (a : ℕ) → Same m → buffer ≤ a → a + 4 ≤ buffer + len → word_at m a ≡ word_at mem a
  unfolding Same
  word_at-Same m a same lo hi =
      rw
        (
          same a lo (omega arith),
          same (a + 1) (omega arith) (omega arith),
          same (a + 2) (omega arith) (omega arith),
          same (a + 2 + 1) (omega arith) (omega arith),
        )
        refl

  segment-Same : (m : Bytes) (i : ℕ) → Same m → i < n → segment m buffer i ≡ segment mem buffer i
  unfolding segment
  segment-Same m i same lt =
      let phdr = buffer + word_at mem (buffer + 28) + 32 * i in
      let low : buffer ≤ phdr = omega arith in
      let high : phdr + 32 ≤ buffer + len = omega (arith, image.table, lt) in
      let offset = word_at-Same m (buffer + 28) same (omega arith) (omega (arith, image.header)) in
      rw offset λ t. record {
        p_type = word_at-Same m phdr same low (omega (arith, high)) t;
        p_offset = word_at-Same m (phdr + 4) same (omega (arith, low)) (omega (arith, high)) t;
        p_paddr = word_at-Same m (phdr + 12) same (omega (arith, low)) (omega (arith, high)) t;
        p_filesz = word_at-Same m (phdr + 16) same (omega (arith, low)) (omega (arith, high)) t;
        p_memsz = word_at-Same m (phdr + 20) same (omega (arith, low)) (omega (arith, high)) t;
      }

  cover-Same :
      (m : Bytes) (s : Segment) (x now : ℕ)
      → Same m
      → IsApart buffer len s
      → cover m buffer s x now ≡ cover mem buffer s x now
  unfolding Same
  cover-Same m s x now same a = elim (Bool-cases (within s.p_paddr s.p_filesz x)) [
    | inl e ↦
        let low : buffer ≤ buffer + s.p_offset + (x - s.p_paddr) = omega arith in
        let high : buffer + s.p_offset + (x - s.p_paddr) < buffer + len =
          ground (arith, e, a.inside) in
        rw (e, same (buffer + s.p_offset + (x - s.p_paddr)) low high) refl
    | inr e ↦ rw e refl
  ]

  cover_out :
      (m : Bytes) (s : Segment) (x now : ℕ)
      → IsApart buffer len s
      → buffer ≤ x
      → x < buffer + len
      → cover m buffer s x now ≡ now
  cover_out m s x now a lo hi =
      let first : within s.p_paddr s.p_filesz x ≡ false = ground (arith, a.place, lo, hi) in
      let second : within (s.p_paddr + s.p_filesz) (sub32 s.p_memsz s.p_filesz) x ≡ false =
        ground (arith, a.place, lo, hi) in
      rw (first, second) (if_both (s.p_type == 1) now)
    where
      if_both : (b : Bool) (now : ℕ) → (if b then now else now) ≡ now
      if_both true now = refl
      if_both false now = refl

  Same-load_segment :
      (m : Bytes) (s : Segment) → Same m → IsApart buffer len s → Same (load_segment m buffer s)
  unfolding Same
  Same-load_segment m s same a x lo hi =
      load_segment_lem m buffer len x s a ∙ cover_out m s x (m x) a lo hi ∙ same x lo hi

  load_segments_lem :
      (k i : ℕ) (m : Bytes) (x : ℕ)
      → i + k ≤ n
      → Same m
      → (load_segments k buffer i m x ≡ covered k mem buffer i x (m x))
        × Same (load_segments k buffer i m)
  unfolding load_segments
  load_segments_lem zero i m x le same = (refl, same)
  load_segments_lem (suc k) i m x le same =
      let s = segment mem buffer i in
      let a = image.apart i (omega (arith, le)) in
      let rest =
        load_segments_lem k (i + 1) (load_segment m buffer s) x (omega (arith, le))
          (Same-load_segment m s same a) in
      let read : load_segments (suc k) buffer i m
          ≡ load_segments k buffer (i + 1) (load_segment m buffer s) =
        ap (λ s'. load_segments k buffer (i + 1) (load_segment m buffer s'))
          (segment-Same m i same (omega (arith, le))) in
      (
        ap (λ (g : Bytes). g x) read
            ∙ rest.0
            ∙ ap (λ b. covered k mem buffer (i + 1) x b)
                (load_segment_lem m buffer len x s a ∙ cover-Same m s x (m x) same a),
        subst Same (sym read) rest.1,
      )

-- Where the buffer holds an image whose segments go to places apart from it, reload_elf_file gives the
-- entry of the image, and at each address there is the byte of the last segment that covers it: that of
-- the file, or 0 behind the file's bytes; elsewhere memory is as before.
pub reload_elf_file-covered :
    (mem : Bytes) (buffer len x : ℕ)
    → IsImage mem buffer len (half_at mem (buffer + 44))
    → is_elf mem buffer ≡ true
    → ((reload_elf_file mem buffer).0 ≡ word_at mem (buffer + 24))
      × ((reload_elf_file mem buffer).1 x
          ≡ covered (half_at mem (buffer + 44)) mem buffer 0 x (mem x))
unfolding reload_elf_file Same
reload_elf_file-covered mem buffer len x image elf =
    let n = half_at mem (buffer + 44) in
    let loaded =
      load_segments_lem mem buffer len n image n 0 mem x (omega arith) (λ y lo hi. refl) in
    rw (reload_elf_file, elf)
      (
        word_at-Same mem buffer len n image (load_segments n buffer 0 mem) (buffer + 24) loaded.1
            (omega arith) (omega (arith, image.header)),
        loaded.0,
      )
