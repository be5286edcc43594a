-- ===== src/Fat/File/Walk.antt =====
-- `fatfs_seek` of kernel/fs/fatfs/fatfs.c as a walk of the links of the allocation table.
use native.Mathlib.Nat.{mul-mod_left}
use wjos.Common.{
  ℕ, zero, suc, ◌+◌, ◌-◌, ◌*◌, ◌/◌, ◌%◌, ◌≤◌, ◌<◌, ◌≡◌, refl, inl, inr, Bool, true, false, Option,
  none, some, arith, ltb, leb, ◌==◌, if◌then◌else◌, Bool-cases, ap, ◌∙◌, sym, subst,
}
use wjos.Fat.{Fat, bread_sector, cluster_is_valid, cluster_get_next, fat_cluster_invalid}
use wjos.Fat.Table.{SameShape, IsSound, HasEntry, next_of, sector_eq, cluster_get_next-next_of}
use wjos.Fat.Chain.{bread_sector-SameLinks, HasEntry-shape}
use wjos.Fat.File.{cluster_of}
use wjos.Fat.File.Seek.{seek_loop, seek_end, fatfs_seek}
use wjos.Fs.Files.{File}

-- The cluster `q` links behind `c`.
abbrev pub nth_next : Fat → ℕ → ℕ → ℕ
nth_next fat zero c = c
nth_next fat (suc q) c = nth_next fat q (next_of fat c)

not_valid : cluster_is_valid fat_cluster_invalid ≡ false
unfolding cluster_is_valid
not_valid = refl

get_next-invalid :
    (fat : Fat) (c : ℕ)
    → cluster_is_valid c ≡ false
    → cluster_get_next fat c ≡ (fat_cluster_invalid, fat)
unfolding cluster_get_next
get_next-invalid fat c e = rw e refl

get_next-outside :
    (fat : Fat)
    → IsSound fat
    → (c : ℕ) → cluster_is_valid c ≡ true
    → leb fat.tbl_sectors (c * 2 / 512) ≡ true
    → cluster_get_next fat c ≡ (fat_cluster_invalid, fat)
unfolding cluster_get_next
get_next-outside fat s c e o = rw (sector_eq fat s c, e, o) refl

clash :
    (fat : Fat) (c : ℕ)
    → cluster_is_valid (cluster_get_next fat c).0 ≡ true
    → cluster_get_next fat c ≡ (fat_cluster_invalid, fat)
    → ⊥
clash fat c h e =
    let both : true ≡ false = sym h ∙ ap (λ (p : ℕ × Fat). cluster_is_valid p.0) e ∙ not_valid in
    absurd (ground (arith, both))

-- A next cluster that is valid was read from an entry.
get_next-HasEntry :
    (fat : Fat)
    → IsSound fat
    → (c : ℕ) → cluster_is_valid (cluster_get_next fat c).0 ≡ true
    → HasEntry fat c
get_next-HasEntry fat s c h = elim (Bool-cases (cluster_is_valid c)) [
  | inr e ↦ absurd (clash fat c h (get_next-invalid fat c e))
  | inl e ↦ elim (Bool-cases (leb fat.tbl_sectors (c * 2 / 512))) [
    | inl o ↦ absurd (clash fat c h (get_next-outside fat s c e o))
    | inr o ↦ record { valid = e; in_table = ground (arith, o) }
  ]
]

bread_sector-cluster_byte_size :
    (fat : Fat) (k : ℕ) → (bread_sector fat k).1.cluster_byte_size ≡ fat.cluster_byte_size
unfolding bread_sector
bread_sector-cluster_byte_size fat k = ground arith

nth_next-links :
    (fat fat' : Fat)
    → ((d : ℕ) → next_of fat' d ≡ next_of fat d)
    → (q c : ℕ) → nth_next fat' q c ≡ nth_next fat q c
nth_next-links fat fat' links zero c = refl
nth_next-links fat fat' links (suc q) c =
    nth_next-links fat fat' links q (next_of fat' c) ∙ ap (nth_next fat q) (links c)

-- A round at the start of cluster number `k` with `left` bytes to go.
module _ (fat : Fat) (size : ℕ) (es : fat.cluster_byte_size ≡ size) (fuel k c left : ℕ) where
  offset : k * size % fat.cluster_byte_size ≡ 0
  offset = ap (λ b. k * size % b) es ∙ mul-mod_left k size

  stop : left < size → seek_loop (suc fuel) fat (k * size) c left ≡ (some (k * size + left, c), fat)
  unfolding seek_loop
  stop lt = elim (Bool-cases (left == 0)) [
    | inl e ↦ rw (e, if◌then◌else◌) (ap (λ p. (some (p, c), fat)) (ground (arith, e)))
    | inr e ↦
        let short : ltb (k * size % fat.cluster_byte_size + left) fat.cluster_byte_size ≡ true =
          ground (arith, offset, es, lt) in
        rw (e, short, if◌then◌else◌) refl
  ]

  go_on :
      size ≤ left
      → 0 < size
      → seek_loop (suc fuel) fat (k * size) c left ≡ (
          if cluster_is_valid (cluster_get_next fat c).0
          then seek_loop fuel
              (cluster_get_next fat c).1
              (k * size + size)
              (cluster_get_next fat c).0
              (left - size)
          else (none, (cluster_get_next fat c).1))
  unfolding seek_loop
  go_on le pos =
      let some_left : (left == 0) ≡ false = ground (arith, le, pos) in
      let long : ltb (k * size % fat.cluster_byte_size + left) fat.cluster_byte_size ≡ false =
        ground (arith, offset, es, le) in
      let whole : fat.cluster_byte_size - k * size % fat.cluster_byte_size ≡ size =
        omega (arith, offset, es) in
      rw (some_left, long, if◌then◌else◌) (rw whole refl)

-- The chain goes on for `q` links from `c`: each cluster has an entry and leads to a valid one.
abbrev pub IsWalk : Fat → ℕ → ℕ → Type 0
IsWalk fat zero c = Unit
IsWalk fat (suc q) c =
    HasEntry fat c × (cluster_is_valid (next_of fat c) ≡ true) × IsWalk fat q (next_of fat c)

IsWalk-links :
    (fat fat' : Fat)
    → SameShape fat fat'
    → ((d : ℕ) → next_of fat' d ≡ next_of fat d)
    → (q c : ℕ) → IsWalk fat q c
    → IsWalk fat' q c
IsWalk-links fat fat' shape links zero c w = tt
IsWalk-links fat fat' shape links (suc q) c (entry, valid, w) = (
  HasEntry-shape fat fat' c shape entry,
  ap cluster_is_valid (links c) ∙ valid,
  subst (IsWalk fat' q) (sym (links c)) (IsWalk-links fat fat' shape links q (next_of fat c) w),
)

-- What a walk of `q` links has come to: it ends there, or the chain does not go on so far.
abbrev pub Reached : Fat → ℕ → ℕ → ℕ → Option (ℕ × ℕ) × Fat → Type 0
Reached fat pos q c (none, fat') = IsWalk fat q c → ⊥
Reached fat pos q c (some (p, d), fat') = (p ≡ pos) × (d ≡ nth_next fat q c)

more : (q size : ℕ) → suc q * size ≡ q * size + size
more q size = omega arith

-- A walk from the next cluster, on a state with the same links.
Reached-next :
    (fat fat' : Fat)
    → SameShape fat fat'
    → ((d : ℕ) → next_of fat' d ≡ next_of fat d)
    → (pos pos' q c : ℕ) → pos ≡ pos'
    → (o : Option (ℕ × ℕ) × Fat) → Reached fat' pos q (next_of fat c) o
    → Reached fat pos' (suc q) c o
Reached-next fat fat' shape links pos pos' q c e (none, f) h =
    λ w. h (IsWalk-links fat fat' shape links q (next_of fat c) w.2)
Reached-next fat fat' shape links pos pos' q c e (some (p, d), f) (a, b) =
    (a ∙ e, b ∙ nth_next-links fat fat' links q (next_of fat c))

walk-Reached :
    (q : ℕ) (fuel : ℕ) (fat : Fat) (size k c r : ℕ)
    → IsSound fat
    → fat.cluster_byte_size ≡ size
    → r < size
    → q * size + r < fuel
    → Reached fat (k * size + (q * size + r)) q c (seek_loop fuel fat (k * size) c (q * size + r))
walk-Reached q zero fat size k c r s es rs enough = absurd (omega (arith, enough))
walk-Reached zero (suc fuel) fat size k c r s es rs enough =
    subst (Reached fat (k * size + (0 * size + r)) 0 c)
      (sym (stop fat size es fuel k c (0 * size + r) (omega (arith, rs)))) (refl, refl)
walk-Reached (suc q) (suc fuel) fat size k c r s es rs enough =
    subst (Reached fat (k * size + (suc q * size + r)) (suc q) c)
      (sym (
        go_on fat size es fuel k c (suc q * size + r) (omega (arith, more q size))
          (omega (arith, rs))))
      (elim (Bool-cases (cluster_is_valid (cluster_get_next fat c).0)) [
        | inr e ↦
            rw (e, if◌then◌else◌)
              (λ w. absurd (
                ground (
                  arith,
                  sym e ∙ ap cluster_is_valid (cluster_get_next-next_of fat s c w.0).0 ∙ w.1,
                )))
        | inl e ↦
            rw (e, if◌then◌else◌)
              (let entry = get_next-HasEntry fat s c e in
                let (v, st) = cluster_get_next-next_of fat s c entry in
                let sector = fat.tbl_start + c * 2 / 512 in
                let fat' = (bread_sector fat sector).1 in
                let same = bread_sector-SameLinks fat sector s in
                let left : q * size + r ≡ suc q * size + r - size = omega (arith, more q size) in
                let walk : seek_loop fuel fat' (suc k * size) (next_of fat c) (q * size + r)
                    ≡ seek_loop fuel (cluster_get_next fat c).1 (k * size + size)
                        (cluster_get_next fat c).0 (suc q * size + r - size) =
                  ap (λ p. seek_loop fuel fat' p (next_of fat c) (q * size + r)) (more k size)
                  ∙ ap (λ l. seek_loop fuel fat' (k * size + size) (next_of fat c) l) left
                  ∙ ap (λ n. seek_loop fuel fat' (k * size + size) n (suc q * size + r - size))
                      (sym v)
                  ∙ ap
                      (λ f.
                        seek_loop fuel f (k * size + size) (cluster_get_next fat c).0
                          (suc q * size + r - size))
                      (sym st) in
                subst (Reached fat (k * size + (suc q * size + r)) (suc q) c) walk (
                  Reached-next fat fat' same.shape same.links (suc k * size + (q * size + r))
                    (k * size + (suc q * size + r)) q c (omega (arith, more q size, more k size))
                    (seek_loop fuel fat' (suc k * size) (next_of fat c) (q * size + r))
                    (walk-Reached q fuel fat' size (suc k) (next_of fat c) r same.sound
                      (bread_sector-cluster_byte_size fat sector ∙ es) rs
                      (omega (arith, enough, more q size, rs)))))
      ])

-- What a seek to the byte `pos`, `q` links on, has come to.
abbrev pub Sought : Fat → ℕ → ℕ → File → Bool × File × Fat → Type 0
Sought fat pos q file (false, file', fat') = IsWalk fat q (cluster_of file.cblk) → ⊥
Sought fat pos q file (true, file', fat') =
    (file'.pos ≡ pos) × (file'.cblk ≡ nth_next fat q (cluster_of file.cblk))

seek_end-Sought :
    (fat : Fat) (pos q : ℕ) (file : File) (o : Option (ℕ × ℕ) × Fat)
    → Reached fat pos q (cluster_of file.cblk) o
    → Sought fat pos q file (seek_end file o)
unfolding seek_end
seek_end-Sought fat pos q file (none, f) h = h
seek_end-Sought fat pos q file (some (p, d), f) h = h

-- On a disk on which no access fails, a seek to byte `r` behind `q` clusters succeeds when the chain
-- goes on for `q` links from the file's current cluster. A seek that succeeds has set the position to
-- q * size + r and the current cluster to the one `q` links behind the one that was current before.
pub fatfs_seek-Sought :
    (fat : Fat) (file : File) (size q r : ℕ)
    → IsSound fat
    → fat.cluster_byte_size ≡ size
    → r < size
    → Sought fat (q * size + r) q file (fatfs_seek fat (q * size + r) 0 file)
unfolding fatfs_seek
fatfs_seek-Sought fat file size q r s es rs =
    let pos = q * size + r in
    let c = cluster_of file.cblk in
    let none_yet : 0 * size ≡ 0 = omega arith in
    let there : 0 * size + pos ≡ pos = omega arith in
    seek_end-Sought fat pos q file (seek_loop (pos + 1) fat 0 c pos) (
      subst (λ p. Reached fat p q c (seek_loop (pos + 1) fat 0 c pos)) there
        (subst (λ p. Reached fat (0 * size + pos) q c (seek_loop (pos + 1) fat p c pos)) none_yet
          (walk-Reached q (pos + 1) fat size 0 c r s es rs (omega arith))))
