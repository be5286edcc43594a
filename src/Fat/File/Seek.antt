-- ===== src/Fat/File/Seek.antt =====
-- `fatfs_seek` in kernel/fs/fatfs/fatfs.c: the walk of a file's chain from its current cluster.
use wjos.Common.{
  ℕ, zero, suc, ◌+◌, ◌-◌, ◌%◌, Bool, true, false, Option, none, some, ltb, ◌==◌, if◌then◌else◌,
}
use wjos.Fat.{Fat, cluster_is_valid, cluster_get_next}
use wjos.Fat.File.{cluster_of}
use wjos.Fs.Files.{File}

-- The loop, on fuel: the position and the cluster, `none` for -1. A round that goes on moves by at
-- least a byte, so `offset` rounds are enough.
unfoldable pub seek_loop : ℕ → Fat → ℕ → ℕ → ℕ → Option (ℕ × ℕ) × Fat
seek_loop zero fat pos cluster left = (some (pos, cluster), fat)
seek_loop (suc fuel) fat pos cluster left =
    let c_offset = pos % fat.cluster_byte_size in
    let move = fat.cluster_byte_size - c_offset in
    let (next, fat') = cluster_get_next fat cluster in
    let rest = seek_loop fuel fat' (pos + move) next (left - move) in
    if left == 0
    then (some (pos, cluster), fat)
    else if ltb (c_offset + left) fat.cluster_byte_size
    then (some (pos + left, cluster), fat)
    else if cluster_is_valid next
    then rest
    else (none, fat')

unfoldable pub seek_end : File → Option (ℕ × ℕ) × Fat → Bool × File × Fat
seek_end file (none, fat) = (false, file, fat)
seek_end file (some (pos, cluster), fat) = (true, record file { pos = pos; cblk = cluster }, fat)

unfoldable pub fatfs_seek : Fat → ℕ → ℕ → File → Bool × File × Fat
unfolding seek_loop seek_end
fatfs_seek fat offset dir file =
    if dir == 0
    then seek_end file (seek_loop (offset + 1) fat 0 (cluster_of file.cblk) offset)
    else (false, file, fat)
