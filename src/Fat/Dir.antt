-- ===== src/Fat/Dir.antt =====
-- The root directory in kernel/fs/fatfs/fatfs.c: items of 32 bytes, and the scans of `fatfs_open`,
-- `fatfs_readdir` and `fatfs_unlink`. An item is its bytes, as they stand in the sector buffer.
use Prim.Native.Nat.{bit_and}
use wjos.Common.{
  ℕ, zero, suc, ◌+◌, ◌-◌, ◌*◌, ◌/◌, ◌%◌, Bool, true, false, not, ◌&&◌, Option, none, some, List, [],
  ◌∷◌, leb, ◌==◌, if◌then◌else◌, get_or, set, take, drop, replicate,
}
use wjos.Fat.{Fat, bread_sector, bwrite_sector, cluster_free_chain, get16}
use wjos.Fat.Name.{name_match, get_name}

abbrev pub Item : Type 0
Item = List ℕ

abbrev pub item_size : ℕ
item_size = 32

abbrev pub dir_name : Item → List ℕ
dir_name item = take 11 item

abbrev pub dir_attr : Item → ℕ
dir_attr item = get_or item 11 0

abbrev pub dir_cluster : Item → ℕ
dir_cluster item = get16 item 20 * 0x1_0000 + get16 item 26

abbrev pub dir_file_size : Item → ℕ
dir_file_size item = get16 item 28 + 0x1_0000 * get16 item 30

-- A free item, and the end of the directory.
abbrev pub is_free : Item → Bool
is_free item = get_or item 0 0 == 0xE5

abbrev pub is_end : Item → Bool
is_end item = get_or item 0 0 == 0

pub data FileType : Type 0 where
  unknown tty dir normal : FileType

unfoldable pub diritem_get_type : Item → FileType
diritem_get_type item =
    if not (bit_and (dir_attr item) 0x0E == 0)
    then FileType.unknown
    else if bit_and (dir_attr item) 0x0F == 0x0F
    then FileType.unknown
    else if bit_and (dir_attr item) 0x10 == 0
    then FileType.normal
    else FileType.dir

-- The sector of item `index`.
abbrev pub item_sector : Fat → ℕ → ℕ
item_sector fat index = fat.root_start + index * item_size / fat.bytes_per_sec

-- The item at the offset of `index` in the buffer, from the answer of `bread_sector`.
unfoldable pub item_in : ℕ → Bool × Fat → Option Item × Fat
item_in offset (true, fat) = (some (take item_size (drop offset fat.fat_buffer)), fat)
item_in offset (false, fat) = (none, fat)

unfoldable pub read_dir_entry : Fat → ℕ → Option Item × Fat
unfolding item_in
read_dir_entry fat index =
    if leb fat.root_ent_cnt index
    then (none, fat)
    else item_in (index * item_size % fat.bytes_per_sec) (bread_sector fat (item_sector fat index))

-- `kernel_memcpy` of `bytes` over a buffer from `offset` on.
unfoldable pub overwrite : List ℕ → ℕ → List ℕ → List ℕ
overwrite buf offset [] = buf
overwrite buf offset (x ∷ bytes) = overwrite (set buf offset x) (offset + 1) bytes

unfoldable pub put_item : ℕ → ℕ → Item → Bool × Fat → Bool × Fat
unfolding overwrite
put_item sector offset item (false, fat) = (false, fat)
put_item sector offset item (true, fat) =
    bwrite_sector (record fat { fat_buffer = overwrite fat.fat_buffer offset item }) sector

unfoldable pub write_dir_entry : Fat → Item → ℕ → Bool × Fat
unfolding put_item
write_dir_entry fat item index =
    if leb fat.root_ent_cnt index
    then (false, fat)
    else put_item (item_sector fat index) (index * item_size % fat.bytes_per_sec) item
        (bread_sector fat (item_sector fat index))

-- How a scan over the items ends: an item cannot be read, a name was found, the end mark, or all
-- items were seen. `last` is the last index that could take a new item, `none` for -1.
pub data Search : Type 0 where
  unreadable : Search
  found : Item → ℕ → Search
  absent : (last : Option ℕ) → Search

-- The loop of `fatfs_open`, with `n` items left.
unfoldable pub open_scan : List ℕ → ℕ → ℕ → Option ℕ → Fat → Search × Fat
open_scan path zero i last fat = (absent last, fat)
open_scan path (suc n) i last fat =
    let (item, fat') = read_dir_entry fat i in
    elim item [
      | none ↦ (unreadable, fat')
      | some item ↦ elim (is_end item) [
        | true ↦ (absent (some i), fat')
        | false ↦ elim (is_free item) [
          | true ↦ open_scan path n (i + 1) (some i) fat'
          | false ↦ elim (name_match (dir_name item) path) [
            | true ↦ (found item i, fat')
            | false ↦ open_scan path n (i + 1) last fat'
          ]
        ]
      ]
    ]

-- The scan of `fatfs_unlink` stops at the same items, and remembers none.
unfoldable pub unlink_scan : List ℕ → ℕ → ℕ → Fat → Search × Fat
unlink_scan path zero i fat = (absent none, fat)
unlink_scan path (suc n) i fat =
    let (item, fat') = read_dir_entry fat i in
    elim item [
      | none ↦ (unreadable, fat')
      | some item ↦ elim (is_end item) [
        | true ↦ (absent none, fat')
        | false ↦ elim (is_free item) [
          | true ↦ unlink_scan path n (i + 1) fat'
          | false ↦ elim (name_match (dir_name item) path) [
            | true ↦ (found item i, fat')
            | false ↦ unlink_scan path n (i + 1) fat'
          ]
        ]
      ]
    ]

-- The chain of a found file is freed and its item cleared; the result is that of the last write.
unfoldable pub unlink_found : Search × Fat → Bool × Fat
unlink_found (unreadable, fat) = (false, fat)
unlink_found (absent last, fat) = (false, fat)
unlink_found (found item i, fat) =
    write_dir_entry (cluster_free_chain 0x1_0000 fat (dir_cluster item % 0x1_0000))
      (replicate item_size 0) i

unfoldable pub fatfs_unlink : Fat → List ℕ → Bool × Fat
unfolding unlink_scan unlink_found
fatfs_unlink fat path = unlink_found (unlink_scan path fat.root_ent_cnt 0 fat)

-- A `struct dirent`.
pub record Dirent : Type 0 where
  pub index : ℕ
  pub file_type : FileType
  pub name : List ℕ
  pub size : ℕ

abbrev pub is_listed : FileType → Bool
is_listed FileType.normal = true
is_listed FileType.dir = true
is_listed _ = false

-- `fatfs_readdir` from `dir->index`, with `n` items left: the entry, and the index behind it.
unfoldable pub readdir_scan : ℕ → ℕ → Fat → Option Dirent × ℕ × Fat
readdir_scan zero i fat = (none, i, fat)
readdir_scan (suc n) i fat =
    let (item, fat') = read_dir_entry fat i in
    elim item [
      | none ↦ (none, i, fat')
      | some item ↦ elim (is_end item) [
        | true ↦ (none, i, fat')
        | false ↦ elim (not (is_free item) && is_listed (diritem_get_type item)) [
          | true ↦ (
            some (record {
              index = i;
              file_type = diritem_get_type item;
              name = get_name (dir_name item);
              size = dir_file_size item;
            }),
            i + 1,
            fat',
          )
          | false ↦ readdir_scan n (i + 1) fat'
        ]
      ]
    ]

unfoldable pub fatfs_readdir : Fat → ℕ → Option Dirent × ℕ × Fat
unfolding readdir_scan
fatfs_readdir fat i = readdir_scan (fat.root_ent_cnt - i) i fat
