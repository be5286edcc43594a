-- ===== src/Dev/Tests.antt =====
-- The device theorems at small buffers, tables and dates.
use wjos.Common.{◌+◌, ◌*◌, ◌≡◌, refl, true, some, [], ◌∷◌, arith}
use wjos.Dev.Fifo.{Fifo, tty_fifo_put, tty_fifo_get}
use wjos.Dev.Fifo.Queue.{IsValid, contents, Got, tty_fifo_put-contents, tty_fifo_get-Got}
use wjos.Dev.Time.{Tm, sys_mktime}
use wjos.Dev.Time.Calendar.{IsDate, sys_mktime-calendar}
use wjos.Dev.Disk.{Disk, PartInfo, Io}
use wjos.Dev.Disk.Parts.{no_disk, no_part}
use wjos.Dev.Disk.Transfer.{disk_read}
use wjos.Dev.Disk.Laws.{Read, disk_read-Read}

-- Three places, of which the last and the first are taken.
abbrev around : Fifo
around = record { buf = 98 ∷ 0 ∷ 97 ∷ []; size = 3; read = 2; write = 1; count = 2 }

around-IsValid : IsValid around
around-IsValid = record { sized = refl; start = omega arith; bound = omega arith; tail = refl }

tty_fifo_put-contents_example :
    ((tty_fifo_put around 99).0 ≡ true)
    × IsValid (tty_fifo_put around 99).1
    × (contents (tty_fifo_put around 99).1 ≡ 97 ∷ 98 ∷ 99 ∷ [])
tty_fifo_put-contents_example = tty_fifo_put-contents around 99 around-IsValid (omega arith)

tty_fifo_get-Got_example : Got around (tty_fifo_get around)
tty_fifo_get-Got_example = tty_fifo_get-Got around around-IsValid

-- 10 November 2026, 12:30:15.
abbrev noon : Tm
noon = record {
  tm_sec = 15;
  tm_min = 30;
  tm_hour = 12;
  tm_wday = 3;
  tm_mday = 10;
  tm_mon = 11;
  tm_year = 26;
  tm_yday = 0;
}

noon-IsDate : IsDate noon
noon-IsDate = record {
  year = omega arith;
  mon = omega arith;
  some_day = omega arith;
  mday = omega arith;
  hour = omega arith;
  min = omega arith;
  sec = omega arith;
}

sys_mktime-calendar_example : sys_mktime noon ≡ 86400 * (20454 + 304 + 9) + 45015
sys_mktime-calendar_example = sys_mktime-calendar noon noon-IsDate

-- The first partition of a disk, and a controller that has data at once.
abbrev first_disk : Disk
first_disk = record no_disk { port_base = 0x1F0; sector_size = 512; sector_count = 100 }

abbrev first_part : PartInfo
first_part = record no_part { disk = some 0; start_sector = 63; total_sector = 37; type = 6 }

abbrev idle : Io
idle = record { asked = 0; taken = 0; events = [] }

disk_read-Read_example :
    Read
      (λ i. 8)
      (λ i. i)
      true
      first_disk
      first_part
      1
      2
      idle
      (disk_read (λ i. 8) (λ i. i) true 1 (λ i. first_disk) first_part 1 2 idle)
disk_read-Read_example =
    disk_read-Read (λ i. 8) (λ i. i) true 1 (λ i. 0) (λ i. omega arith) (λ i. refl)
      (λ i. first_disk) first_part 0 1 2 idle refl
