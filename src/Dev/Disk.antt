-- ===== src/Dev/Disk.antt =====
-- The disks of kernel/dev/disk.c: commands and transfers on the ports of a controller, the table of
-- partitions and the opening of one.
--
-- What the ports answer is a parameter: the i-th read of the status port gives `status i`, of the
-- data port `inw i`. A value of `Io` counts the reads made and keeps, oldest first, the writes and
-- the calls of the mutex and of the semaphore. A `disk_t *` is the index in `disk_buf`.
pub mod Transfer
pub mod Parts
pub mod Command
pub mod Laws
use wjos.Common.{
  ℕ, zero, suc, ◌+◌, ◌*◌, ◌/◌, ◌%◌, Bool, true, false, Option, none, some, List, [], ◌∷◌, ◌++◌, not,
  ◌&&◌, ◌==◌, if◌then◌else◌,
}

pub data Event : Type 0 where
  outb : ℕ → ℕ → Event
  outw : ℕ → ℕ → Event
  mutex_lock : Event
  mutex_unlock : Event
  sem_wait : Event
  irq_install : ℕ → Event
  irq_enable : ℕ → Event

pub record Io : Type 0 where
  pub asked : ℕ
  pub taken : ℕ
  pub events : List Event

-- A partition's table entry; `disk` is null for one that is not there.
pub record PartInfo : Type 0 where
  pub name : List ℕ
  pub disk : Option ℕ
  pub start_sector : ℕ
  pub total_sector : ℕ
  pub type : ℕ

pub record Disk : Type 0 where
  pub name : List ℕ
  pub drive : ℕ
  pub port_base : ℕ
  pub sector_size : ℕ
  pub sector_count : ℕ
  pub partinfo : List PartInfo

abbrev pub put : Event → Io → Io
put e io = record io { events = io.events ++ (e ∷ []) }

abbrev pub put_all : List Event → Io → Io
put_all es io = record io { events = io.events ++ es }

abbrev pub byte : ℕ → ℕ
byte n = n % 256

-- The writes of a command: the high halves of the count and of the sector, then the low ones. The
-- bits of `drive` are not in the base 0xE0.
unfoldable pub disk_send_cmd : Disk → ℕ → ℕ → ℕ → Io → Io
disk_send_cmd disk start_sector sector_count cmd io =
    let port = disk.port_base in
    put_all
      (outb (port + 6) (0xE0 + disk.drive)
        ∷ outb (port + 2) (byte (sector_count / 256))
        ∷ outb (port + 3) (byte (start_sector / 0x100_0000))
        ∷ outb (port + 4) 0
        ∷ outb (port + 5) 0
        ∷ outb (port + 2) (byte sector_count)
        ∷ outb (port + 3) (byte start_sector)
        ∷ outb (port + 4) (byte (start_sector / 256))
        ∷ outb (port + 5) (byte (start_sector / 0x1_0000))
        ∷ outb (port + 7) (byte cmd)
        ∷ [])
      io

abbrev pub has_err : ℕ → Bool
has_err status = status % 2 == 1

-- `(status & (BUSY | DRQ | ERR)) == BUSY`.
abbrev pub is_waiting : ℕ → Bool
is_waiting status = (status / 128 % 2 == 1) && (status / 8 % 2 == 0) && not (has_err status)

module _ (status : ℕ → ℕ) where
  -- At most `fuel` reads of the status port; `none` where the loop goes on. The answer is whether
  -- the disk reports an error.
  unfoldable pub disk_wait_data : ℕ → Io → Option (Bool × Io)
  disk_wait_data zero io = none
  disk_wait_data (suc fuel) io =
      let rest = disk_wait_data fuel (record io { asked = io.asked + 1 }) in
      if is_waiting (status io.asked)
      then rest
      else some (has_err (status io.asked), record io { asked = io.asked + 1 })

module _ (inw : ℕ → ℕ) where
  -- The words of `count` reads from the i-th on.
  abbrev pub words_from : ℕ → ℕ → List ℕ
  words_from i zero = []
  words_from i (suc count) = inw i ∷ words_from (i + 1) count

  -- `size` is in bytes.
  unfoldable pub disk_read_datas : ℕ → Io → List ℕ × Io
  disk_read_datas size io =
      (words_from io.taken (size / 2), record io { taken = io.taken + size / 2 })

-- The writes of the first `count` words of the buffer.
abbrev pub sends : ℕ → List ℕ → ℕ → List Event
sends port buf zero = []
sends port [] (suc count) = []
sends port (w ∷ buf) (suc count) = outw port w ∷ sends port buf count

unfoldable pub disk_write_datas : Disk → List ℕ → ℕ → Io → Io
disk_write_datas disk buf size io = put_all (sends disk.port_base buf (size / 2)) io
