-- ===== src/Dev/Disk/Command.antt =====
-- The command of kernel/dev/disk.c as the controller reads it: each of its registers keeps the last
-- byte written and the one before, which are the low and the high half of an LBA48 address.
use wjos.Common.{ℕ, ◌+◌, ◌*◌, ◌^◌, ◌<◌, ◌≡◌, refl, List, [], ◌∷◌, ◌++◌, arith, ◌==◌, if◌then◌else◌}
use wjos.Dev.Disk.{Event, outb, Io, Disk, disk_send_cmd}

pub record Latch : Type 0 where
  pub now : ℕ
  pub before : ℕ

pub record Registers : Type 0 where
  pub count : Latch
  pub lo : Latch
  pub mid : Latch
  pub hi : Latch

abbrev latch : ℕ → Latch → Latch
latch v l = record { now = v; before = l.now }

-- A write to a port of the primary channel.
abbrev written : Registers → Event → Registers
written r (outb port v) =
    if port == 0x1F2
    then record r { count = latch v r.count }
    else if port == 0x1F3
    then record r { lo = latch v r.lo }
    else if port == 0x1F4
    then record r { mid = latch v r.mid }
    else if port == 0x1F5
    then record r { hi = latch v r.hi }
    else r
written r e = r

abbrev pub registers : Registers → List Event → Registers
registers r [] = r
registers r (e ∷ es) = registers (written r e) es

abbrev pub sector_of : Registers → ℕ
sector_of r =
    r.lo.now
    + 256 * r.mid.now
    + 2 ^ 16 * r.hi.now
    + 2 ^ 24 * r.lo.before
    + 2 ^ 32 * r.mid.before
    + 2 ^ 40 * r.hi.before

abbrev pub count_of : Registers → ℕ
count_of r = r.count.now + 256 * r.count.before

pub registers-append :
    (r : Registers) (es fs : List Event) → registers r (es ++ fs) ≡ registers (registers r es) fs
registers-append r [] fs = refl
registers-append r (e ∷ es) fs = registers-append (written r e) es fs

-- Whatever was written before, the controller reads the sector and the count that were given to
-- disk_send_cmd, where the sector is below 2^32 and the count below 2^16.
disk_send_cmd-registers :
    (r : Registers) (disk : Disk) (start count cmd : ℕ) (io : Io)
    → disk.port_base ≡ 0x1F0
    → start < 2 ^ 32
    → count < 2 ^ 16
    → (sector_of (registers r (disk_send_cmd disk start count cmd io).events) ≡ start)
      × (count_of (registers r (disk_send_cmd disk start count cmd io).events) ≡ count)
unfolding disk_send_cmd
disk_send_cmd-registers r disk start count cmd io base ls lc =
    rw (base, registers-append) (omega (arith, ls), omega (arith, lc))
