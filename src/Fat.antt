-- ===== src/Fat.antt =====
-- The FAT16 driver of kernel/fs/fatfs: the cached sector and the cluster chains. The disk driver is
-- a table of sectors with the set of those on which an access fails; `curr_sector == -1` is `none`.
pub mod Table
pub mod Link
pub mod Chain
pub mod Name
pub mod Dir
pub mod File
pub mod Mount
mod Tests
use wjos.Common.{
  ℕ, zero, suc, ◌+◌, ◌-◌, ◌*◌, ◌/◌, ◌%◌, Bool, true, false, ◌&&◌, Option, none, some, List, ltb,
  leb, ◌==◌, if◌then◌else◌, get_or, set,
}

pub record Fat : Type 0 where
  pub tbl_start : ℕ
  pub tbl_cnt : ℕ
  pub tbl_sectors : ℕ
  pub bytes_per_sec : ℕ
  pub sec_per_cluster : ℕ
  pub root_ent_cnt : ℕ
  pub root_start : ℕ
  pub data_start : ℕ
  pub cluster_byte_size : ℕ
  pub fat_buffer : List ℕ
  pub curr_sector : Option ℕ
  pub disk : ℕ → List ℕ
  pub bad : ℕ → Bool

abbrev pub fat_cluster_invalid : ℕ
fat_cluster_invalid = 0xFFF8

abbrev pub fat_cluster_free : ℕ
fat_cluster_free = 0

abbrev pub is_cached : Option ℕ → ℕ → Bool
is_cached none sector = false
is_cached (some s) sector = s == sector

-- `true` is the result 0, `false` is -1.
unfoldable pub bread_sector : Fat → ℕ → Bool × Fat
bread_sector fat sector =
    if is_cached fat.curr_sector sector
    then (true, fat)
    else if fat.bad sector
    then (false, fat)
    else (true, record fat { fat_buffer = fat.disk sector; curr_sector = some sector })

unfoldable pub bwrite_sector : Fat → ℕ → Bool × Fat
bwrite_sector fat sector =
    if fat.bad sector
    then (false, fat)
    else (true, record fat { disk = λ s. if s == sector then fat.fat_buffer else fat.disk s })

unfoldable pub cluster_is_valid : ℕ → Bool
cluster_is_valid cluster = ltb cluster 0xFFF8 && leb 2 cluster

-- A 16-bit value in a buffer, low byte first.
abbrev pub get16 : List ℕ → ℕ → ℕ
get16 buf o = get_or buf o 0 + 256 * get_or buf (o + 1) 0

abbrev pub put16 : List ℕ → ℕ → ℕ → List ℕ
put16 buf o v = set (set buf o (v % 256)) (o + 1) (v / 256)

-- The value behind a read, from the answer of `bread_sector`.
unfoldable pub value_at : ℕ → Bool × Fat → ℕ × Fat
value_at off_sector (true, fat) = (get16 fat.fat_buffer off_sector, fat)
value_at off_sector (false, fat) = (fat_cluster_invalid, fat)

unfoldable pub cluster_get_next : Fat → ℕ → ℕ × Fat
unfolding value_at
cluster_get_next fat curr =
    let sector = curr * 2 / fat.bytes_per_sec in
    if cluster_is_valid curr
    then (if leb fat.tbl_sectors sector
        then (fat_cluster_invalid, fat)
        else value_at (curr * 2 % fat.bytes_per_sec) (bread_sector fat (fat.tbl_start + sector)))
    else (fat_cluster_invalid, fat)

-- The results of `cluster_set_next`: 0, -1, and the positive `FAT_CLUSTER_INVALID`.
pub data SetResult : Type 0 where
  done failed invalid : SetResult

-- The sector goes to every copy of the table, `n` of them from `sector` on.
unfoldable pub write_copies : ℕ → ℕ → Fat → SetResult × Fat
write_copies zero sector fat = (done, fat)
write_copies (suc n) sector fat =
    let (written, fat') = bwrite_sector fat (fat.tbl_start + sector) in
    let rest = write_copies n (sector + fat.tbl_sectors) fat' in
    if written then rest else (failed, fat')

unfoldable pub put_next : ℕ → ℕ → ℕ → Bool × Fat → SetResult × Fat
put_next sector off_sector next (false, fat) = (invalid, fat)
put_next sector off_sector next (true, fat) =
    write_copies fat.tbl_cnt sector
      (record fat { fat_buffer = put16 fat.fat_buffer off_sector next })

unfoldable pub cluster_set_next : Fat → ℕ → ℕ → SetResult × Fat
unfolding put_next write_copies
cluster_set_next fat curr next =
    let sector = curr * 2 / fat.bytes_per_sec in
    if cluster_is_valid curr
    then (if leb fat.tbl_sectors sector
        then (invalid, fat)
        else put_next sector (curr * 2 % fat.bytes_per_sec) next
            (bread_sector fat (fat.tbl_start + sector)))
    else (failed, fat)

-- On fuel. Each round that goes on frees a cluster, and there are fewer than 0xFFF8 of them.
unfoldable pub cluster_free_chain : ℕ → Fat → ℕ → Fat
cluster_free_chain zero fat start = fat
cluster_free_chain (suc fuel) fat start =
    let (next, fat') = cluster_get_next fat start in
    let rest = cluster_free_chain fuel (cluster_set_next fat' start fat_cluster_free).1 next in
    if cluster_is_valid start then rest else fat
