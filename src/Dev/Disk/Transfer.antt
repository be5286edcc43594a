-- ===== src/Dev/Disk/Transfer.antt =====
-- `disk_read` and `disk_write` of kernel/dev/disk.c: the transfer of sectors under the disk's mutex,
-- each behind a wait for the interrupt of the disk, where a task runs.
use wjos.Common.{
  ℕ, zero, suc, ◌+◌, ◌/◌, ◌%◌, ◌^◌, Bool, true, false, Option, none, some, List, [], ◌++◌, drop,
  if◌then◌else◌,
}
use wjos.Dev.Disk.{
  mutex_lock, mutex_unlock, sem_wait, Io, PartInfo, Disk, put, disk_send_cmd, disk_wait_data,
  disk_read_datas, disk_write_datas,
}

abbrev pub read_cmd : ℕ
read_cmd = 0x24

abbrev pub write_cmd : ℕ
write_cmd = 0x34

-- The sector of the command: a 32-bit sum.
abbrev pub sector_at : PartInfo → ℕ → ℕ
sector_at part addr = (part.start_sector + addr) % 2 ^ 32

-- `if (task_current()) sem_wait(disk->op_sem)`.
abbrev pub await : Bool → Io → Io
await running io = if running then put sem_wait io else io

module _ (status inw : ℕ → ℕ) (running : Bool) (fuel : ℕ) where
  -- The sectors still to read, with the count and the words read.
  unfoldable pub read_rounds : Disk → ℕ → Io → Option (ℕ × List ℕ × Io)
  unfolding disk_wait_data disk_read_datas
  read_rounds disk zero io = some (0, [], io)
  read_rounds disk (suc size) io = elim (disk_wait_data status fuel (await running io)) [
    | none ↦ none
    | some p ↦
        let (err, io') = p in
        elim err [
          | true ↦ some (0, [], io')
          | false ↦
              let (words, io'') = disk_read_datas inw disk.sector_size io' in
              elim (read_rounds disk size io'') [
                | none ↦ none
                | some q ↦ let (count, rest, last) = q in some (suc count, words ++ rest, last)
              ]
        ]
  ]

  -- The answer: the count of sectors read, `none` for -1, and the words put in the buffer.
  unfoldable pub disk_read : (ℕ → Disk) → PartInfo → ℕ → ℕ → Io → Option (Option ℕ × List ℕ × Io)
  unfolding read_rounds disk_send_cmd
  disk_read disk_buf part addr size io = elim part.disk [
    | none ↦ some (none, [], io)
    | some i ↦
        let disk = disk_buf i in
        let sent = disk_send_cmd disk (sector_at part addr) size read_cmd (put mutex_lock io) in
        elim (read_rounds disk size sent) [
          | none ↦ none
          | some q ↦ let (count, words, last) = q in some (some count, words, put mutex_unlock last)
        ]
  ]

  unfoldable pub write_rounds : Disk → List ℕ → ℕ → Io → Option (ℕ × Io)
  unfolding disk_wait_data disk_write_datas
  write_rounds disk buf zero io = some (0, io)
  write_rounds disk buf (suc size) io =
      let sent = disk_write_datas disk buf disk.sector_size io in
      elim (disk_wait_data status fuel (await running sent)) [
        | none ↦ none
        | some p ↦
            let (err, io') = p in
            elim err [
              | true ↦ some (0, io')
              | false ↦ elim (write_rounds disk (drop (disk.sector_size / 2) buf) size io') [
                | none ↦ none
                | some q ↦ let (count, last) = q in some (suc count, last)
              ]
            ]
      ]

  -- The table entry may be a null pointer.
  unfoldable pub disk_write :
      (ℕ → Disk) → Option PartInfo → ℕ → List ℕ → ℕ → Io → Option (Option ℕ × Io)
  unfolding write_rounds disk_send_cmd
  disk_write disk_buf none addr buf size io = some (none, io)
  disk_write disk_buf (some part) addr buf size io = elim part.disk [
    | none ↦ some (none, io)
    | some i ↦
        let disk = disk_buf i in
        let sent = disk_send_cmd disk (sector_at part addr) size write_cmd (put mutex_lock io) in
        elim (write_rounds disk buf size sent) [
          | none ↦ none
          | some q ↦ let (count, last) = q in some (some count, put mutex_unlock last)
        ]
  ]
