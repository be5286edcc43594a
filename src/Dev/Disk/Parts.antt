-- ===== src/Dev/Disk/Parts.antt =====
-- The partitions of a disk in kernel/dev/disk.c: `detect_part_info`, `identify_disk`, `disk_init`
-- and `disk_open`.
use wjos.Common.{
  ℕ, zero, suc, ◌+◌, ◌-◌, ◌*◌, ◌/◌, ◌%◌, Bool, true, false, Option, none, some, List, [], ◌∷◌, ◌||◌,
  ltb, leb, ◌==◌, if◌then◌else◌, get_or, set, replicate,
}
use wjos.Tools.Text.{string, number, vsprintf}
use wjos.Dev.Disk.{
  irq_install, irq_enable, put_all, Io, PartInfo, Disk, disk_send_cmd, disk_wait_data,
  disk_read_datas,
}

pub record PartItem : Type 0 where
  pub system_id : ℕ
  pub relative_sectors : ℕ
  pub total_sectors : ℕ

-- A `uint32_t` at a word of the buffer, low half first.
abbrev pub long_at : List ℕ → ℕ → ℕ
long_at words i = get_or words i 0 + 0x1_0000 * get_or words (i + 1) 0

-- The i-th item of the table, at the byte 446 + 16 i of the sector.
unfoldable pub part_item : List ℕ → ℕ → PartItem
part_item mbr i =
    let word = 223 + 8 * i in
    record {
      system_id = get_or mbr (word + 2) 0 % 256;
      relative_sectors = long_at mbr (word + 4);
      total_sectors = long_at mbr (word + 6);
    }

-- "%s%d".
abbrev pub part_name : List ℕ → ℕ → List ℕ
unfolding vsprintf
part_name name i = vsprintf false (37 ∷ 115 ∷ 37 ∷ 100 ∷ []) (string name ∷ number i ∷ [])

-- An item whose type is FS_INVALID leaves the entry's name as it is.
unfoldable pub part_of : ℕ → List ℕ → ℕ → PartItem → PartInfo → PartInfo
unfolding vsprintf
part_of disk name i item part =
    if item.system_id == 0
    then record part { type = 0; total_sector = 0; start_sector = 0; disk = none }
    else record {
      name = part_name name (i + 1);
      disk = some disk;
      start_sector = item.relative_sectors;
      total_sector = item.total_sectors;
      type = item.system_id;
    }

abbrev pub no_part : PartInfo
no_part = record { name = []; disk = none; start_sector = 0; total_sector = 0; type = 0 }

-- The loop over the items from the i-th on, into the entries behind the first.
unfoldable pub set_parts : ℕ → List ℕ → List ℕ → ℕ → ℕ → List PartInfo → List PartInfo
unfolding part_item part_of
set_parts disk name mbr zero i parts = parts
set_parts disk name mbr (suc left) i parts =
    let part = part_of disk name i (part_item mbr i) (get_or parts (i + 1) no_part) in
    set_parts disk name mbr left (i + 1) (set parts (i + 1) part)

abbrev pub no_disk : Disk
no_disk = record {
  name = [];
  drive = 0;
  port_base = 0;
  sector_size = 0;
  sector_count = 0;
  partinfo = replicate 5 no_part;
}

module _ (status inw : ℕ → ℕ) (fuel : ℕ) where
  -- A read that fails leaves the table as it is.
  unfoldable pub detect_part_info : ℕ → Disk → Io → Option (Disk × Io)
  unfolding disk_send_cmd disk_wait_data disk_read_datas set_parts
  detect_part_info i disk io = elim (disk_wait_data status fuel (disk_send_cmd disk 0 1 0x24 io)) [
    | none ↦ none
    | some p ↦
        let (err, io') = p in
        elim err [
          | true ↦ some (disk, io')
          | false ↦
              let (mbr, last) = disk_read_datas inw 512 io' in
              some (record disk { partinfo = set_parts i disk.name mbr 4 0 disk.partinfo }, last)
        ]
  ]

  -- The answer to IDENTIFY: the count of sectors is at the word 100.
  unfoldable pub identified : ℕ → Disk → List ℕ → Disk
  unfolding vsprintf
  identified i disk buf =
      let part : PartInfo = record {
        name = part_name disk.name 0;
        disk = some i;
        start_sector = 0;
        total_sector = long_at buf 100;
        type = 0;
      } in
      record disk {
        sector_count = long_at buf 100;
        sector_size = 512;
        partinfo = set disk.partinfo 0 part;
      }

  -- Whether the disk is there, which the first read of the status does not decide: its test assigns.
  unfoldable pub identify_disk : ℕ → Disk → Io → Option (Bool × Disk × Io)
  unfolding disk_send_cmd disk_wait_data disk_read_datas identified detect_part_info
  identify_disk i disk io =
      let sent = disk_send_cmd disk 0 0 0xEC io in
      elim (disk_wait_data status fuel (record sent { asked = sent.asked + 1 })) [
        | none ↦ none
        | some p ↦
            let (err, io') = p in
            elim err [
              | true ↦ some (false, disk, io')
              | false ↦
                  let (buf, io'') = disk_read_datas inw 512 io' in
                  elim (detect_part_info i (identified i disk buf) io'') [
                    | none ↦ none
                    | some q ↦ let (disk', last) = q in some (true, disk', last)
                  ]
            ]
      ]

  -- The disk's entry before it is identified: "sd%c".
  unfoldable pub fresh_disk : ℕ → Disk
  unfolding vsprintf
  fresh_disk i = record no_disk {
    name = vsprintf false (115 ∷ 100 ∷ 37 ∷ 99 ∷ []) (number (i + 97) ∷ []);
    drive = if i == 0 then 0 else 16;
    port_base = 0x1F0;
  }

  -- The loop over the `left` disks from the i-th on.
  unfoldable pub init_disks : ℕ → ℕ → (ℕ → Disk) → Io → Option ((ℕ → Disk) × Io)
  unfolding fresh_disk identify_disk
  init_disks zero i disk_buf io = some (disk_buf, io)
  init_disks (suc left) i disk_buf io = elim (identify_disk i (fresh_disk i) io) [
    | none ↦ none
    | some p ↦
        let (there, disk, io') = p in
        init_disks left (i + 1) (λ k. if k == i then disk else disk_buf k) io'
  ]

  -- The mutex and the semaphore are fresh ones.
  unfoldable pub disk_init : Io → Option ((ℕ → Disk) × Io)
  unfolding init_disks
  disk_init io = init_disks 2 0 (λ k. no_disk) io

-- What `disk_open` comes to: a read in front of `disk_buf`, -1, or 0 with the disk and the entry.
pub data Opening : Type 0 where
  outside : Opening
  refused : Opening
  opened : ℕ → ℕ → Opening

abbrev pub irq14 : ℕ
irq14 = 0x2E

-- The index of a minor number below 0xA0 is negative.
unfoldable pub disk_open : (ℕ → Disk) → ℕ → Io → Opening × Io
disk_open disk_buf minor io =
    let disk_idx = minor / 16 - 0xA in
    let part_idx = minor % 16 in
    let disk = disk_buf disk_idx in
    if leb 2 disk_idx || leb 5 part_idx
    then (refused, io)
    else if ltb minor 0xA0
    then (outside, io)
    else if (disk.sector_size == 0) || ((get_or disk.partinfo part_idx no_part).total_sector == 0)
    then (refused, io)
    else (opened disk_idx part_idx, put_all (irq_install irq14 ∷ irq_enable irq14 ∷ []) io)
