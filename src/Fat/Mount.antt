-- ===== src/Fat/Mount.antt =====
-- The mounting of a volume in kernel/fs/fatfs/fatfs.c: `fatfs_mount`. The answers of `dev_open` and of
-- `memory_alloc_page` are parameters, `none` where they fail.
use wjos.Common.{
  ℕ, ◌+◌, ◌*◌, ◌/◌, ◌≡◌, refl, Bool, true, false, not, Option, none, some, List, [], ◌∷◌, ap, arith,
  ◌==◌, if◌then◌else◌, get_or, length, drop, get_or-drop, sym, ◌∙◌, ◌++◌, ◌<◌, ◌%◌, zero, suc,
  subst, Bool-cases, ==_iff, inl, inr,
}
use wjos.Tools.Strings.{memcmp}
use wjos.Fat.{Fat, get16}
use wjos.Fat.Table.{IsSound}

-- How a mount ends: with -1 and nothing done; with the device closed and the page freed, and no value
-- returned; or with 0, the device's number and the volume.
pub data Mounted : Type 0 where
  refused : Mounted
  undone : ℕ → Option ℕ → Mounted
  mounted : ℕ → Fat → Mounted

-- The volume of a boot sector `dbr`, on a disk.
unfoldable pub fat_of : List ℕ → (ℕ → List ℕ) → (ℕ → Bool) → Fat
fat_of dbr disk bad =
    let bytes_per_sec = get16 dbr 11 in
    let sec_per_cluster = get_or dbr 13 0 in
    let tbl_start = get16 dbr 14 in
    let tbl_cnt = get_or dbr 16 0 in
    let root_ent_cnt = get16 dbr 17 in
    let tbl_sectors = get16 dbr 22 in
    let root_start = tbl_start + tbl_sectors * tbl_cnt in
    record {
      tbl_start = tbl_start;
      tbl_cnt = tbl_cnt;
      tbl_sectors = tbl_sectors;
      bytes_per_sec = bytes_per_sec;
      sec_per_cluster = sec_per_cluster;
      root_ent_cnt = root_ent_cnt;
      root_start = root_start;
      data_start = root_start + root_ent_cnt * 32 / 512;
      cluster_byte_size = sec_per_cluster * bytes_per_sec;
      fat_buffer = dbr;
      curr_sector = none;
      disk = disk;
      bad = bad;
    }

-- "FAT16".
abbrev pub fat16 : List ℕ
fat16 = 70 ∷ 65 ∷ 84 ∷ 49 ∷ 54 ∷ []

module _ (disk : ℕ → List ℕ) (bad : ℕ → Bool) where
  unfoldable pub fatfs_mount : Option ℕ → Option ℕ → Mounted
  unfolding fat_of memcmp
  fatfs_mount none page = refused
  fatfs_mount (some dev_id) none = undone dev_id none
  fatfs_mount (some dev_id) (some page) =
      let fat = fat_of (disk 0) disk bad in
      if bad 0
      then undone dev_id (some page)
      else if not (fat.tbl_cnt == 2)
      then undone dev_id (some page)
      else if not (memcmp (drop 54 (disk 0)) fat16 5 == 0)
      then undone dev_id (some page)
      else mounted dev_id fat

-- The fields of a `dbr_t`, in their order, for a FAT16 volume with sectors of 512 bytes: `front` is the
-- jump and the name of the system that made it, `middle` what stands between the size of a table and
-- the type, and `code` what is behind the type.
pub record Dbr : Type 0 where
  pub front : List ℕ
  pub sec_per_clus : ℕ
  pub rsvd_sec_cnt : ℕ
  pub num_fats : ℕ
  pub root_ent_cnt : ℕ
  pub tot_sec16 : ℕ
  pub media : ℕ
  pub fat_sz16 : ℕ
  pub middle : List ℕ
  pub code : List ℕ

-- The fields have their widths.
pub record IsDbr (d : Dbr) : Type 0 where
  pub front : length d.front ≡ 11
  pub rsvd_sec_cnt : d.rsvd_sec_cnt < 0x1_0000
  pub root_ent_cnt : d.root_ent_cnt < 0x1_0000
  pub fat_sz16 : d.fat_sz16 < 0x1_0000
  pub middle : length d.middle ≡ 30

-- A number in two bytes, the low one first, in front of others.
abbrev put_le : ℕ → List ℕ → List ℕ
put_le n bytes = n % 256 ∷ n / 256 % 256 ∷ bytes

abbrev behind_front : Dbr → List ℕ
behind_front d = put_le 512 (
    d.sec_per_clus
    ∷ put_le d.rsvd_sec_cnt (
        d.num_fats
        ∷ put_le d.root_ent_cnt
            (put_le d.tot_sec16 (d.media ∷ put_le d.fat_sz16 (d.middle ++ (fat16 ++ d.code))))))

-- The sector with those fields.
abbrev pub boot_sector : Dbr → List ℕ
boot_sector d = d.front ++ behind_front d

drop_front : (xs ys : List ℕ) (n : ℕ) → length xs ≡ n → drop n (xs ++ ys) ≡ ys
drop_front xs ys n e = ap (λ n. drop n (xs ++ ys)) (sym e) ∙ whole xs
  where
    whole : (xs : List ℕ) → drop (length xs) (xs ++ ys) ≡ ys
    whole [] = refl
    whole (x ∷ xs) = whole xs

module _ (d : Dbr) (v : IsDbr d) where
  field_at : (i : ℕ) → get_or (boot_sector d) (11 + i) 0 ≡ get_or (behind_front d) i 0
  field_at i =
      sym (get_or-drop 11 (boot_sector d) i 0)
      ∙ ap (λ l. get_or l i 0) (drop_front d.front (behind_front d) 11 v.front)

  type_at : drop 54 (boot_sector d) ≡ fat16 ++ d.code
  type_at =
      drop_drop 11 43 (boot_sector d)
      ∙ ap (drop 43) (drop_front d.front (behind_front d) 11 v.front)
      ∙ drop_front d.middle (fat16 ++ d.code) 30 v.middle
    where
      step : (m n : ℕ) → suc m + n ≡ suc (m + n)
      step m n = omega arith

      none_more : (n : ℕ) → 0 + n ≡ n
      none_more n = omega arith

      drop_nil : (k : ℕ) → drop {A = ℕ} k [] ≡ []
      drop_nil zero = refl
      drop_nil (suc k) = refl

      drop_drop : (m n : ℕ) (xs : List ℕ) → drop (m + n) xs ≡ drop n (drop m xs)
      drop_drop zero n xs = ap (λ k. drop k xs) (none_more n)
      drop_drop (suc m) n [] = drop_nil (suc m + n) ∙ sym (drop_nil n)
      drop_drop (suc m) n (x ∷ xs) = ap (λ k. drop k (x ∷ xs)) (step m n) ∙ drop_drop m n xs

-- The volume that a mount gives for the fields of its boot sector: the tables lie behind the reserved
-- sectors, the root directory behind the two tables, and the clusters behind its entries of 32 bytes.
-- Its sectors are sound, as the functions on its tables want them.
pub record Laid (d : Dbr) (dev_id : ℕ) (m : Mounted) : Type 0 where
  pub fat : Fat
  pub result : m ≡ mounted dev_id fat
  pub tables : fat.tbl_start ≡ d.rsvd_sec_cnt
  pub table_size : fat.tbl_sectors ≡ d.fat_sz16
  pub root : fat.root_start ≡ d.rsvd_sec_cnt + 2 * d.fat_sz16
  pub root_ents : fat.root_ent_cnt ≡ d.root_ent_cnt
  pub clusters : fat.data_start ≡ d.rsvd_sec_cnt + 2 * d.fat_sz16 + d.root_ent_cnt / 16
  pub cluster_size : fat.cluster_byte_size ≡ 512 * d.sec_per_clus
  pub sound : IsSound fat

-- What a mount comes to for a boot sector with a number of tables.
abbrev pub Mounting : Dbr → ℕ → ℕ → Mounted → Type 0
Mounting d dev_id page m =
    if d.num_fats == 2 then Laid d dev_id m else m ≡ undone dev_id (some page)

module _ (disk : ℕ → List ℕ) (bad : ℕ → Bool) (d : Dbr) (v : IsDbr d)
    (sectors : (s : ℕ) → length (disk s) ≡ 512) (readable : (s : ℕ) → bad s ≡ false) where
  fat_of-Laid :
      (dev_id : ℕ)
      → d.num_fats ≡ 2
      → Laid d dev_id (mounted dev_id (fat_of (boot_sector d) disk bad))
  unfolding fat_of
  fat_of-Laid dev_id two =
      let at = field_at d v in
      let sec_size : get16 (boot_sector d) 11 ≡ 512 = omega (arith, at 0, at 1) in
      let spc : get_or (boot_sector d) 13 0 ≡ d.sec_per_clus = at 2 in
      let start : get16 (boot_sector d) 14 ≡ d.rsvd_sec_cnt =
        omega (arith, at 3, at 4, v.rsvd_sec_cnt) in
      let tables : get_or (boot_sector d) 16 0 ≡ 2 = at 5 ∙ two in
      let ents : get16 (boot_sector d) 17 ≡ d.root_ent_cnt =
        omega (arith, at 6, at 7, v.root_ent_cnt) in
      let size : get16 (boot_sector d) 22 ≡ d.fat_sz16 = omega (arith, at 11, at 12, v.fat_sz16) in
      let root : get16 (boot_sector d) 14 + get16 (boot_sector d) 22 * get_or (boot_sector d) 16 0
          ≡ d.rsvd_sec_cnt + 2 * d.fat_sz16 =
        ap (λ n. get16 (boot_sector d) 14 + get16 (boot_sector d) 22 * n) tables
        ∙ omega (arith, start, size) in
      record {
        fat = fat_of (boot_sector d) disk bad;
        result = refl;
        tables = start;
        table_size = size;
        root = root;
        root_ents = ents;
        clusters = omega (arith, root, ents);
        cluster_size = ap (λ n. get_or (boot_sector d) 13 0 * n) sec_size ∙ omega (arith, spc);
        sound = record {
          sec_size = sec_size;
          sectors = sectors;
          cached = λ s e. absurd (ground (arith, e));
          readable = readable;
          copies = omega (arith, tables);
        };
      }

  -- On a disk with sectors of 512 bytes on which no access fails and whose first sector is the boot
  -- sector with the fields `d` of a FAT16 volume, a mount for which the device opens and a page is
  -- free succeeds where there are two tables, with the layout that the fields say; with another
  -- number of tables it is undone.
  pub fatfs_mount-Mounting :
      disk 0 ≡ boot_sector d
      → (dev_id page : ℕ) → Mounting d dev_id page (fatfs_mount disk bad (some dev_id) (some page))
  unfolding fatfs_mount memcmp fat_of
  fatfs_mount-Mounting first dev_id page =
      let count : get_or (disk 0) 16 0 ≡ d.num_fats =
        ap (λ l. get_or l 16 0) first ∙ field_at d v 5 in
      let named : (memcmp (drop 54 (disk 0)) fat16 5 == 0) ≡ true =
        ap (λ l. memcmp (drop 54 l) fat16 5 == 0) first
        ∙ ap (λ l. memcmp l fat16 5 == 0) (type_at d v) in
      elim (Bool-cases (d.num_fats == 2)) [
        | inl e ↦
            let two : (get_or (disk 0) 16 0 == 2) ≡ true = ap (λ n. n == 2) count ∙ e in
            rw e (
              rw (fatfs_mount, readable 0, two, named)
                (subst (λ l. Laid d dev_id (mounted dev_id (fat_of l disk bad))) (sym first)
                  (fat_of-Laid dev_id ((==_iff d.num_fats 2).0 e))))
        | inr e ↦
            let other : (get_or (disk 0) 16 0 == 2) ≡ false = ap (λ n. n == 2) count ∙ e in
            rw e (rw (fatfs_mount, readable 0, other) refl)
      ]
