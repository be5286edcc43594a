-- ===== src/Fat/File.antt =====
-- Files in kernel/fs/fatfs/fatfs.c: opening, growing, reading, writing, seeking and closing. Sizes
-- and positions stay below 2 ^ 31, so `int` does not overflow in their sums.
pub mod Seek
pub mod Open
pub mod Walk
use Prim.Native.Nat.{bit_and}
use wjos.Common.{
  ℕ, zero, suc, ◌+◌, ◌-◌, ◌*◌, ◌/◌, ◌%◌, Bool, true, false, not, ◌&&◌, ◌||◌, Option, none, some,
  List, [], ◌∷◌, ◌++◌, ltb, leb, ◌==◌, if◌then◌else◌, get_or, set, take, drop, replicate, length,
}
use wjos.Memory.User.{up2}
use wjos.Fat.{
  Fat, cluster_is_valid, cluster_get_next, cluster_set_next, cluster_free_chain, SetResult, done,
  failed, invalid, fat_cluster_invalid, put16, get16,
}
use wjos.Fat.Name.{to_sfn}
use wjos.Fat.Dir.{
  Item, item_size, dir_cluster, dir_file_size, diritem_get_type, read_dir_entry, write_dir_entry,
  overwrite, Search, unreadable, found, absent, open_scan,
}
use wjos.Fs.Files.{File}

-- An `int` cluster passed as a `cluster_t`.
abbrev pub cluster_of : ℕ → ℕ
cluster_of n = n % 0x1_0000

-- The cluster table's entries, which bound the rounds of every walk of a chain without a loop.
abbrev pub chain_fuel : ℕ
chain_fuel = 0x1_0000

unfoldable pub alloc_end : ℕ → ℕ → ℕ → Fat → ℕ × Fat
alloc_end (suc cnt) pre start fat = (fat_cluster_invalid, cluster_free_chain chain_fuel fat start)
alloc_end zero pre start fat =
    let (r, fat') = cluster_set_next fat pre fat_cluster_invalid in
    elim r [
      | done ↦ (start, fat')
      | failed ↦ (fat_cluster_invalid, cluster_free_chain chain_fuel fat' start)
      | invalid ↦ (fat_cluster_invalid, cluster_free_chain chain_fuel fat' start)
    ]

-- The cluster before, when there is one, is linked to the new one; only -1 is an error.
unfoldable pub link_from : ℕ → ℕ → Fat → Bool × Fat
link_from pre curr fat = elim (cluster_is_valid pre) [
  | false ↦ (true, fat)
  | true ↦
      let (r, fat') = cluster_set_next fat pre curr in
      (elim r [ done ↦ true | invalid ↦ true | failed ↦ false ], fat')
]

-- The loop of `cluster_alloc_free`, with `n` clusters left.
unfoldable pub alloc_loop : ℕ → ℕ → ℕ → ℕ → ℕ → Fat → ℕ × Fat
unfolding alloc_end link_from
alloc_loop zero curr cnt pre start fat = alloc_end cnt pre start fat
alloc_loop (suc n) curr zero pre start fat = alloc_end 0 pre start fat
alloc_loop (suc n) curr (suc cnt) pre start fat =
    let (next, fat1) = cluster_get_next fat curr in
    let start' = if cluster_is_valid start then start else curr in
    let (linked, fat2) = link_from pre curr fat1 in
    elim (next == 0) [
      | false ↦ alloc_loop n (curr + 1) (suc cnt) pre start fat1
      | true ↦ elim linked [
        | true ↦ alloc_loop n (curr + 1) cnt curr start' fat2
        | false ↦ (fat_cluster_invalid, cluster_free_chain chain_fuel fat2 start')
      ]
    ]

unfoldable pub cluster_alloc_free : Fat → ℕ → ℕ × Fat
unfolding alloc_loop
cluster_alloc_free fat cnt =
    alloc_loop (fat.tbl_sectors * fat.bytes_per_sec / 2 - 2) 2 cnt fat_cluster_invalid
      fat_cluster_invalid fat

-- How many clusters `expand_file` asks for; `none` when the last one has room.
unfoldable pub clusters_wanted : Fat → ℕ → ℕ → Option ℕ
clusters_wanted fat size incr =
    let whole = fat.cluster_byte_size in
    let cfree = whole - size % whole in
    let more = up2 (incr - cfree) whole / whole in
    if size == 0
    then some (up2 incr whole / whole)
    else if ltb incr cfree
    then none
    else some (if more == 0 then 1 else more)

-- The new chain becomes the file's, or goes behind its current cluster; only -1 is an error.
unfoldable pub attach : File → ℕ × Fat → Bool × File × Fat
attach file (start, fat) =
    let (r, fat') = cluster_set_next fat (cluster_of file.cblk) start in
    if not (cluster_is_valid start)
    then (false, file, fat)
    else if not (cluster_is_valid (cluster_of file.sblk))
    then (true, record file { cblk = start; sblk = start }, fat)
    else (elim r [ done ↦ true | invalid ↦ true | failed ↦ false ], file, fat')

unfoldable pub expand_file : File → ℕ → Fat → Bool × File × Fat
unfolding clusters_wanted attach
expand_file file incr fat = elim (clusters_wanted fat file.size incr) [
  | none ↦ (true, file, fat)
  | some cnt ↦ attach file (cluster_alloc_free fat cnt)
]

-- The position moves on; `file.cblk` has become the next cluster where a boundary is reached.
abbrev pub advance : File → ℕ → ℕ → File
advance file next bytes = record file { cblk = next; pos = file.pos + bytes }

unfoldable pub move_file_pos : File → Fat → ℕ → Bool → Bool × File × Fat
move_file_pos file fat bytes expand =
    let (next, fat1) = cluster_get_next fat (cluster_of file.cblk) in
    let (grown, file2, fat2) = expand_file file fat.cluster_byte_size fat1 in
    let (next3, fat3) = cluster_get_next fat2 (cluster_of file2.cblk) in
    if ltb (file.pos % fat.cluster_byte_size + bytes) fat.cluster_byte_size
    then (true, record file { pos = file.pos + bytes }, fat)
    else if (next == fat_cluster_invalid) && expand
    then (if grown then (true, advance file2 next3 bytes, fat3) else (false, file2, fat2))
    else (true, advance file next bytes, fat1)

-- `dev_read` of `n` sectors; `none` when one of them fails.
unfoldable pub read_sectors : Fat → ℕ → ℕ → Option (List ℕ)
read_sectors fat sector zero = some []
read_sectors fat sector (suc n) = elim (fat.bad sector) [
  | true ↦ none
  | false ↦ elim (read_sectors fat (sector + 1) n) [
    | none ↦ none
    | some bytes ↦ some (fat.disk sector ++ bytes)
  ]
]

-- `dev_write` of `n` sectors of 512 bytes. The sectors before one that fails are written.
unfoldable pub write_sectors : Fat → ℕ → ℕ → List ℕ → Bool × Fat
write_sectors fat sector zero bytes = (true, fat)
write_sectors fat sector (suc n) bytes = elim (fat.bad sector) [
  | true ↦ (false, fat)
  | false ↦
      write_sectors (record fat { disk = λ s. if s == sector then take 512 bytes else fat.disk s })
        (sector + 1) n (drop 512 bytes)
]

abbrev pub start_sector : Fat → File → ℕ
start_sector fat file = fat.data_start + (file.cblk - 2) * fat.sec_per_cluster

-- The bytes that one round handles: all that are left, or those up to the cluster's end.
abbrev pub round_size : Fat → File → ℕ → ℕ
round_size fat file nbytes =
    let offset = file.pos % fat.cluster_byte_size in
    if ltb fat.cluster_byte_size (offset + nbytes) then fat.cluster_byte_size - offset else nbytes

abbrev pub is_whole : Fat → File → ℕ → Bool
is_whole fat file nbytes =
    (file.pos % fat.cluster_byte_size == 0) && (nbytes == fat.cluster_byte_size)

-- A cluster is read to the caller's buffer when all of it is wanted, else to the driver's, of which
-- a part is copied.
unfoldable pub after_read : Fat → File → ℕ → List ℕ → List ℕ × Fat
after_read fat file nbytes bytes =
    let curr = round_size fat file nbytes in
    let part = take curr (drop (file.pos % fat.cluster_byte_size) bytes) in
    if is_whole fat file nbytes
    then (bytes, fat)
    else (part, record fat { curr_sector = none; fat_buffer = bytes })

-- The loop of `fatfs_read`, on fuel. A round reads at least a byte, so `nbytes` rounds are enough.
unfoldable pub read_loop : ℕ → File → Fat → ℕ → List ℕ → List ℕ × File × Fat
unfolding read_sectors after_read
read_loop zero file fat nbytes got = (got, file, fat)
read_loop (suc fuel) file fat zero got = (got, file, fat)
read_loop (suc fuel) file fat (suc nbytes) got =
    elim (read_sectors fat (start_sector fat file) fat.sec_per_cluster) [
      | none ↦ (
        got,
        file,
        if is_whole fat file (suc nbytes) then fat else record fat { curr_sector = none },
      )
      | some bytes ↦
          let (part, fat1) = after_read fat file (suc nbytes) bytes in
          let curr = round_size fat file (suc nbytes) in
          let (moved, file2, fat2) = move_file_pos file fat1 curr false in
          elim moved [
            | false ↦ (got ++ part, file2, fat2)
            | true ↦ read_loop fuel file2 fat2 (suc nbytes - curr) (got ++ part)
          ]
    ]

-- The position is not behind the file's end.
unfoldable pub fatfs_read : Fat → ℕ → File → List ℕ × File × Fat
unfolding read_loop
fatfs_read fat size file =
    let nbytes = if ltb file.size (file.pos + size) then file.size - file.pos else size in
    read_loop nbytes file fat nbytes []

-- One round's write of the first bytes of `bytes`.
unfoldable pub write_round : Fat → File → List ℕ → Bool × Fat
unfolding read_sectors write_sectors
write_round fat file bytes =
    let sector = start_sector fat file in
    let curr = round_size fat file (length bytes) in
    let n = fat.sec_per_cluster in
    elim (is_whole fat file (length bytes)) [
      | true ↦ write_sectors fat sector n bytes
      | false ↦ elim (read_sectors fat sector n) [
        | none ↦ (false, record fat { curr_sector = none })
        | some old ↦
            let buf = overwrite old (file.pos % fat.cluster_byte_size) (take curr bytes) in
            write_sectors (record fat { curr_sector = none; fat_buffer = buf }) sector n buf
      ]
    ]

-- The loop of `fatfs_write`, on fuel as the read loop. The size grows by every byte written.
unfoldable pub write_loop : ℕ → File → Fat → List ℕ → ℕ → ℕ × File × Fat
unfolding write_round
write_loop zero file fat bytes total = (total, file, fat)
write_loop (suc fuel) file fat [] total = (total, file, fat)
write_loop (suc fuel) file fat (b ∷ bytes) total =
    let curr = round_size fat file (length (b ∷ bytes)) in
    let (written, fat1) = write_round fat file (b ∷ bytes) in
    let (moved, file2, fat2) =
      move_file_pos (record file { size = file.size + curr }) fat1 curr true in
    elim written [
      | false ↦ (total, file, fat1)
      | true ↦ elim moved [
        | false ↦ (total + curr, file2, fat2)
        | true ↦ write_loop fuel file2 fat2 (drop curr (b ∷ bytes)) (total + curr)
      ]
    ]

unfoldable pub fatfs_write : Fat → List ℕ → File → ℕ × File × Fat
unfolding write_loop
fatfs_write fat bytes file =
    let size = length bytes in
    elim (ltb file.size (file.pos + size)) [
      | false ↦ write_loop size file fat bytes 0
      | true ↦
          let (grown, file', fat') = expand_file file (file.pos + size - file.size) fat in
          elim grown [ true ↦ write_loop size file' fat' bytes 0 | false ↦ (0, file', fat') ]
    ]
