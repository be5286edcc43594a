-- ===== src/Fat/File/Open.antt =====
-- Opening and closing a file in kernel/fs/fatfs/fatfs.c: the directory item becomes the file's, and
-- goes back on closing.
use Prim.Native.Nat.{bit_and}
use wjos.Common.{
  ℕ, ◌/◌, ◌%◌, Bool, true, false, Option, none, some, List, ◌++◌, ◌==◌, if◌then◌else◌, replicate,
}
use wjos.Fat.{Fat, cluster_free_chain, fat_cluster_invalid, put16}
use wjos.Fat.Name.{to_sfn}
use wjos.Fat.Dir.{
  Item, dir_cluster, dir_file_size, diritem_get_type, read_dir_entry, write_dir_entry, Search,
  unreadable, found, absent, open_scan,
}
use wjos.Fat.File.{chain_fuel, cluster_of}
use wjos.Fs.Files.{File}

unfoldable pub read_from_diritem : File → Item → ℕ → File
read_from_diritem file item index = record file {
  file_type = diritem_get_type item;
  size = dir_file_size item;
  pos = 0;
  p_index = index;
  sblk = dir_cluster item;
  cblk = dir_cluster item;
}

-- A new item: the short name, no attributes, no time, no cluster and no size. `DIR_CrtTimeTeenth`,
-- the byte 13, is the one field not written; it is taken as 0.
unfoldable pub diritem_init : List ℕ → Item
diritem_init name = put16 (put16 (to_sfn name ++ replicate 21 0) 20 0) 26 fat_cluster_invalid

abbrev pub o_creat : ℕ
o_creat = 0x200

abbrev pub o_trunc : ℕ
o_trunc = 0x400

-- The chain is freed where the file is truncated.
unfoldable pub open_found : File → Item → ℕ → Fat → Bool × File × Fat
unfolding read_from_diritem
open_found file item index fat =
    let file' = read_from_diritem file item index in
    if bit_and file.mode o_trunc == 0 then (true, file', fat) else (
      true,
      record file' { cblk = fat_cluster_invalid; sblk = fat_cluster_invalid; size = 0 },
      cluster_free_chain chain_fuel fat (cluster_of (dir_cluster item)),
    )

-- A file that is not found is created where the mode asks for it. With no place for an item the
-- index -1 is above every directory.
unfoldable pub open_absent : File → List ℕ → Option ℕ → Fat → Bool × File × Fat
unfolding read_from_diritem diritem_init
open_absent file path none fat = (false, file, fat)
open_absent file path (some index) fat =
    let item = diritem_init path in
    let (written, fat') = write_dir_entry fat item index in
    if bit_and file.mode o_creat == 0
    then (false, file, fat)
    else if written
    then (true, read_from_diritem file item index, fat')
    else (false, file, fat')

unfoldable pub open_end : File → List ℕ → Search × Fat → Bool × File × Fat
unfolding open_found open_absent
open_end file path (unreadable, fat) = (false, file, fat)
open_end file path (found item i, fat) = open_found file item i fat
open_end file path (absent last, fat) = open_absent file path last fat

unfoldable pub fatfs_open : Fat → List ℕ → File → Bool × File × Fat
unfolding open_end
fatfs_open fat path file = open_end file path (open_scan path fat.root_ent_cnt 0 none fat)

-- The file's size and first cluster in an item.
unfoldable pub close_item : File → Item → Item
close_item file item =
    put16
      (put16 (put16 (put16 item 28 (file.size % 0x1_0000)) 30 (file.size / 0x1_0000)) 20
        (file.sblk / 0x1_0000))
      26 (file.sblk % 0x1_0000)

unfoldable pub close_end : File → Option Item × Fat → Fat
unfolding close_item
close_end file (none, fat) = fat
close_end file (some item, fat) = (write_dir_entry fat (close_item file item) file.p_index).1

-- `O_RDONLY` is 0, so the test of the mode holds for no file.
unfoldable pub fatfs_close : Fat → File → Fat
unfolding close_end
fatfs_close fat file = close_end file (read_dir_entry fat file.p_index)
