-- ===== src/Fat/Table.antt =====
-- The allocation table as the clusters' links: what `cluster_get_next` reads and
-- `cluster_set_next` writes, over a disk without errors.
use wjos.Common.{
  ℕ, zero, suc, ◌+◌, ◌*◌, ◌/◌, ◌%◌, ◌<◌, ◌≡◌, refl, ◌≢◌, Bool, true, false, ◌||◌, Option, none,
  some, List, arith, leb, ◌==◌, if◌then◌else◌, Bool-cases, length, length-set, set, get_or-set_self,
  get_or-set_ne, inl, inr, ap, ◌∙◌, fun_ext,
}
use wjos.Fat.{
  Fat, is_cached, bread_sector, bwrite_sector, cluster_is_valid, get16, put16, value_at,
  cluster_get_next, done, write_copies,
}

-- The buffer agrees with the disk, sectors are whole, and no access fails.
pub record IsSound (fat : Fat) : Type 0 where
  pub sec_size : fat.bytes_per_sec ≡ 512
  pub sectors : (s : ℕ) → length (fat.disk s) ≡ 512
  pub cached : (s : ℕ) → is_cached fat.curr_sector s ≡ true → fat.fat_buffer ≡ fat.disk s
  pub readable : (s : ℕ) → fat.bad s ≡ false
  pub copies : 0 < fat.tbl_cnt

-- The cluster that follows `c`, on the disk.
abbrev pub next_of : Fat → ℕ → ℕ
next_of fat c = get16 (fat.disk (fat.tbl_start + c * 2 / 512)) (c * 2 % 512)

-- A cluster number that the table has an entry for.
pub record HasEntry (fat : Fat) (c : ℕ) : Type 0 where
  pub valid : cluster_is_valid c ≡ true
  pub in_table : c * 2 / 512 < fat.tbl_sectors

-- The driver's parameters, which no operation changes.
pub record SameShape (fat fat' : Fat) : Type 0 where
  pub tbl_start : fat'.tbl_start ≡ fat.tbl_start
  pub tbl_sectors : fat'.tbl_sectors ≡ fat.tbl_sectors
  pub tbl_cnt : fat'.tbl_cnt ≡ fat.tbl_cnt

module _ (fat : Fat) (s : IsSound fat) where
  -- After a read the buffer holds the sector, and the disk is as before.
  abbrev Loaded : ℕ → Fat
  Loaded sector = record fat { fat_buffer = fat.disk sector; curr_sector = some sector }

  pub bread_sector-cases :
      (sector : ℕ) → bread_sector fat sector ≡ (true, (bread_sector fat sector).1)
  unfolding bread_sector
  bread_sector-cases sector = ground (arith, s.readable sector)

  pub bread_sector-buffer : (sector : ℕ) → (bread_sector fat sector).1.fat_buffer ≡ fat.disk sector
  unfolding bread_sector
  bread_sector-buffer sector = ground (arith, s.readable sector, s.cached sector)

  pub bread_sector-disk : (sector : ℕ) → (bread_sector fat sector).1.disk ≡ fat.disk
  unfolding bread_sector
  bread_sector-disk sector = ground (arith, s.readable sector)

  pub bread_sector-curr : (sector : ℕ) → (bread_sector fat sector).1.curr_sector ≡ some sector
  unfolding bread_sector
  bread_sector-curr sector = go fat.curr_sector refl
    where
      go :
          (c : Option ℕ)
          → fat.curr_sector ≡ c
          → (bread_sector fat sector).1.curr_sector ≡ some sector
      go none e = ground (arith, s.readable sector)
      go (some x) e = ground (arith, s.readable sector)

  pub bread_sector-IsSound : (sector : ℕ) → IsSound (bread_sector fat sector).1
  unfolding bread_sector
  bread_sector-IsSound sector = elim (Bool-cases (is_cached fat.curr_sector sector)) [
    | inl hit ↦ rw (hit, if◌then◌else◌) s
    | inr miss ↦
        rw (miss, s.readable sector, if◌then◌else◌)
          (record {
            sec_size = s.sec_size;
            sectors = s.sectors;
            cached = λ x e. ap fat.disk (ground arith);
            readable = s.readable;
            copies = s.copies;
          })
  ]

  pub bread_sector-SameShape : (sector : ℕ) → SameShape fat (bread_sector fat sector).1
  unfolding bread_sector
  bread_sector-SameShape sector = ground arith

  pub sector_eq : (c : ℕ) → c * 2 / fat.bytes_per_sec ≡ c * 2 / 512
  sector_eq c = ap (λ (b : ℕ). c * 2 / b) s.sec_size

  pub offset_eq : (c : ℕ) → c * 2 % fat.bytes_per_sec ≡ c * 2 % 512
  offset_eq c = ap (λ (b : ℕ). c * 2 % b) s.sec_size

  get_next_eq :
      (c : ℕ)
      → HasEntry fat c
      → cluster_get_next fat c
        ≡ value_at (c * 2 % 512) (bread_sector fat (fat.tbl_start + c * 2 / 512))
  unfolding cluster_get_next
  get_next_eq c h =
      let inside : leb fat.tbl_sectors (c * 2 / 512) ≡ false = ground (arith, h.in_table) in
      rw (sector_eq c, offset_eq c, h.valid, inside)

  -- Reading a link.
  pub cluster_get_next-next_of :
      (c : ℕ)
      → HasEntry fat c
      → ((cluster_get_next fat c).0 ≡ next_of fat c)
        × ((cluster_get_next fat c).1 ≡ (bread_sector fat (fat.tbl_start + c * 2 / 512)).1)
  unfolding value_at
  cluster_get_next-next_of c h =
      let sector = fat.tbl_start + c * 2 / 512 in
      rw (get_next_eq c h, bread_sector-cases sector, value_at)
        (ap (λ b. get16 b (c * 2 % 512)) (bread_sector-buffer sector), refl)

-- Whether sector `x` is one of the `n` copies from table sector `sector` on.
abbrev pub is_copy : ℕ → ℕ → ℕ → ℕ → ℕ → Bool
is_copy start step zero sector x = false
is_copy start step (suc n) sector x =
    (x == start + sector) || is_copy start step n (sector + step) x

pub get16-put16_self : (buf : List ℕ) (o v : ℕ) → o + 1 < length buf → get16 (put16 buf o v) o ≡ v
get16-put16_self buf o v h = omega (
  arith,
  get_or-set_self (set buf o (v % 256)) (o + 1) (v / 256) 0
      (omega (arith, length-set buf o (v % 256))),
  get_or-set_ne (set buf o (v % 256)) (o + 1) o (v / 256) 0 (omega arith),
  get_or-set_self buf o (v % 256) 0 (omega arith),
)

pub get16-put16_ne :
    (buf : List ℕ) (o p v : ℕ)
    → o % 2 ≡ 0
    → p % 2 ≡ 0
    → o ≢ p
    → get16 (put16 buf o v) p ≡ get16 buf p
get16-put16_ne buf o p v ho hp ne = omega (
  arith,
  get_or-set_ne (set buf o (v % 256)) (o + 1) p (v / 256) 0 (omega arith),
  get_or-set_ne (set buf o (v % 256)) (o + 1) (p + 1) (v / 256) 0 (omega arith),
  get_or-set_ne buf o p (v % 256) 0 (omega arith),
  get_or-set_ne buf o (p + 1) (v % 256) 0 (omega arith),
)

pub length-put16 : (buf : List ℕ) (o v : ℕ) → length (put16 buf o v) ≡ length buf
length-put16 buf o v =
    omega (arith, length-set (set buf o (v % 256)) (o + 1) (v / 256), length-set buf o (v % 256))

module _ (fat : Fat) (good : (x : ℕ) → fat.bad x ≡ false) where
  bwrite_sector-ok :
      (sector : ℕ)
      → bwrite_sector fat sector
        ≡ (true, record fat { disk = λ s. if s == sector then fat.fat_buffer else fat.disk s })
  unfolding bwrite_sector
  bwrite_sector-ok sector = rw (good sector)

-- The loop over the copies of the table writes the buffer to each of them and nothing else.
pub write_copies-ok :
    (n sector : ℕ) (fat : Fat)
    → ((x : ℕ) → fat.bad x ≡ false)
    → write_copies n sector fat ≡ (
      done,
      record fat {
        disk = λ x.
            if is_copy fat.tbl_start fat.tbl_sectors n sector x then fat.fat_buffer else fat.disk x;
      },
    )
unfolding write_copies
write_copies-ok zero sector fat good = refl
write_copies-ok (suc n) sector fat good = rw (bwrite_sector-ok fat good (fat.tbl_start + sector)) (
    write_copies-ok n (sector + fat.tbl_sectors)
      (record fat {
        disk = λ s. if s == (fat.tbl_start + sector) then fat.fat_buffer else fat.disk s;
      })
      good
    ∙ ap (λ d. (done, record fat { disk = d })) (fun_ext λ x. ground arith))
