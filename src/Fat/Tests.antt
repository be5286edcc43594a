-- ===== src/Fat/Tests.antt =====
-- The file system's theorems at a volume of one table sector, with a file of the clusters 2 and 3.
use wjos.Common.{ℕ, some, refl, false, none, List, [], ◌∷◌, arith, replicate}
use wjos.Fat.{Fat, cluster_is_valid, cluster_free_chain}
use wjos.Fat.Table.{IsSound, HasEntry}
use wjos.Fat.Mount.{Dbr, IsDbr, Laid, boot_sector, fatfs_mount, fatfs_mount-Mounting}
use wjos.Fat.Chain.{IsChain, Freed, cluster_free_chain-Freed}
use wjos.Fat.File.Seek.{fatfs_seek}
use wjos.Fat.File.Walk.{Sought, fatfs_seek-Sought}
use wjos.Fs.Files.{File, new_file}

-- Entry 2 links to 3, and 3 ends the chain.
abbrev sector : List ℕ
sector = 0 ∷ 0 ∷ 0 ∷ 0 ∷ 3 ∷ 0 ∷ 0xF8 ∷ 0xFF ∷ replicate 504 0

abbrev volume : Fat
volume = record {
  tbl_start = 1;
  tbl_cnt = 2;
  tbl_sectors = 1;
  bytes_per_sec = 512;
  sec_per_cluster = 1;
  root_ent_cnt = 16;
  root_start = 3;
  data_start = 4;
  cluster_byte_size = 512;
  fat_buffer = sector;
  curr_sector = none;
  disk = λ s. sector;
  bad = λ s. false;
}

volume-IsSound : IsSound volume
volume-IsSound = record {
  sec_size = refl;
  sectors = λ s. refl;
  cached = λ s e. refl;
  readable = λ s. refl;
  copies = omega arith;
}

two-HasEntry : HasEntry volume 2
unfolding cluster_is_valid
two-HasEntry = record { valid = refl; in_table = omega arith }

three-HasEntry : HasEntry volume 3
unfolding cluster_is_valid
three-HasEntry = record { valid = refl; in_table = omega arith }

chain : IsChain volume 2 (2 ∷ 3 ∷ [])
unfolding cluster_is_valid
chain = (refl, two-HasEntry, refl, (refl, three-HasEntry, refl, refl))

cluster_free_chain-Freed_example : Freed volume (2 ∷ 3 ∷ []) (cluster_free_chain 9 volume 2)
cluster_free_chain-Freed_example =
    cluster_free_chain-Freed 9 volume 2 (2 ∷ 3 ∷ []) volume-IsSound chain (omega arith)

-- A file at its first cluster.
abbrev at_two : File
at_two = record new_file { sblk = 2; cblk = 2; size = 600 }

fatfs_seek-Sought_example : Sought volume 522 1 at_two (fatfs_seek volume 522 0 at_two)
fatfs_seek-Sought_example =
    fatfs_seek-Sought volume at_two 512 1 10 volume-IsSound refl (omega arith)

-- A boot sector: one sector for a cluster, one in front of two tables of one sector, 16 entries.
abbrev dbr : Dbr
dbr = record {
  front = replicate 11 0;
  sec_per_clus = 1;
  rsvd_sec_cnt = 1;
  num_fats = 2;
  root_ent_cnt = 16;
  tot_sec16 = 0;
  media = 0xF8;
  fat_sz16 = 1;
  middle = replicate 30 0;
  code = replicate 453 0;
}

dbr-IsDbr : IsDbr dbr
dbr-IsDbr = record {
  front = refl;
  rsvd_sec_cnt = omega arith;
  root_ent_cnt = omega arith;
  fat_sz16 = omega arith;
  middle = refl;
}

fatfs_mount-Mounting_example :
    Laid dbr 3 (fatfs_mount (λ s. boot_sector dbr) (λ s. false) (some 3) (some 0x10_0000))
fatfs_mount-Mounting_example =
    fatfs_mount-Mounting (λ s. boot_sector dbr) (λ s. false) dbr dbr-IsDbr (λ s. refl) (λ s. refl)
      refl 3 0x10_0000
