-- ===== src/Hd/Transfer.antt =====
-- `hd_rw` and `hd_rw_drv` of kernel/modules/hd/hd.c, with the command of kernel/header/modules/hd.h.
-- The drive is its sectors; it takes a command as the ATA standard has it, transfers the sectors
-- one after the other and raises an interrupt for each. A task that waits for a sector more than
-- that goes no further, which is `halted`.
pub mod Words
pub mod Loops
pub mod Sectors
mod Tests
use omocha_os.Base.{
  ℕ, zero, suc, ◌+◌, ◌-◌, ◌*◌, ◌/◌, ◌%◌, ◌^◌, Bool, true, false, not, ◌==◌, ◌&&◌, ltb, leb, bit_or,
  if◌then◌else◌,
}
use omocha_os.Core.Process.{update}
use omocha_os.Core.Run.{Run, ok, halted, fault, out_of_fuel, ◌>>=◌}
use omocha_os.Hd.{PartInfo, HdInfo}

-- `struct HD_Command`
pub record HdCommand : Type 0 where
  pub command : ℕ
  pub features : ℕ
  pub lba_low : ℕ
  pub lba_mid : ℕ
  pub lba_high : ℕ
  pub counts : ℕ
  pub device : ℕ

unfoldable pub hd_make_command : (lba feature drive count command : ℕ) → HdCommand
hd_make_command lba feature drive count command = record {
  counts = count % 256;
  device = bit_or (bit_or (lba / 2 ^ 24 % 16) 0xE0) (drive * 16) % 256;
  lba_low = lba % 256;
  lba_mid = lba / 2 ^ 8 % 256;
  lba_high = lba / 2 ^ 16 % 256;
  features = feature % 256;
  command = command % 256;
}

-- The first sector of a command for the drive, and how many it asks for: 0 stands for 256.
abbrev pub lba_of : HdCommand → ℕ
lba_of cmd = cmd.lba_low + cmd.lba_mid * 256 + cmd.lba_high * 65536 + cmd.device % 16 * 16777216

abbrev pub sectors_of : HdCommand → ℕ
sectors_of cmd = if cmd.counts == 0 then 256 else cmd.counts

-- `disk` gives the bytes of each sector, and `mem` is the memory of the buffers.
pub record HdState : Type 0 where
  pub disk : ℕ → ℕ → ℕ
  pub mem : ℕ → ℕ
  pub hd_buf : ℕ → ℕ

-- `memcpy(addr, hd_buf, n)`, and the other way.
abbrev pub from_buf : (ℕ → ℕ) → (ℕ → ℕ) → (addr n : ℕ) → ℕ → ℕ
from_buf mem hd_buf addr n a = if leb addr a && ltb a (addr + n) then hd_buf (a - addr) else mem a

abbrev pub to_buf : (ℕ → ℕ) → (ℕ → ℕ) → (addr n : ℕ) → ℕ → ℕ
to_buf hd_buf mem addr n i = if ltb i n then mem (addr + i) else hd_buf i

abbrev pub chunk : (bytes_left : ℕ) → ℕ
chunk bytes_left = if ltb bytes_left 512 then bytes_left else 512

-- The loop, from sector `k` of a command on; a round for each sector and one for the last test.
unfoldable pub read_loop : ℕ → HdState → (first total k addr bytes_left : ℕ) → Run HdState
read_loop zero s first total k addr bytes_left = out_of_fuel
read_loop (suc n) s first total k addr bytes_left =
    let bytes = chunk bytes_left in
    let sector = s.disk (first + k) in
    let next : HdState = record s { hd_buf = sector; mem = from_buf s.mem sector addr bytes } in
    let rest = read_loop n next first total (k + 1) (addr + bytes) (bytes_left - bytes) in
    if bytes_left == 0 then ok s else if leb total k then halted else rest

unfoldable pub write_loop : ℕ → HdState → (first total k addr bytes_left : ℕ) → Run HdState
write_loop zero s first total k addr bytes_left = out_of_fuel
write_loop (suc n) s first total k addr bytes_left =
    let bytes = chunk bytes_left in
    let buf = if bytes == 512 then s.hd_buf else to_buf s.hd_buf s.mem addr bytes in
    let sector : ℕ → ℕ = if bytes == 512 then (λ i. s.mem (addr + i)) else buf in
    let next : HdState = record s { hd_buf = buf; disk = update s.disk (first + k) sector } in
    let rest = write_loop n next first total (k + 1) (addr + bytes) (bytes_left - bytes) in
    if bytes_left == 0 then ok s else if leb total k then halted else rest

abbrev pub sector_count : (count : ℕ) → ℕ
sector_count count = (count + 511) % 2 ^ 32 / 512

unfoldable pub read_from : ℕ → HdState → (addr drv lba count : ℕ) → Run HdState
unfolding hd_make_command
read_from n s addr drv lba count =
    let cmd = hd_make_command lba 0 drv (sector_count count) 0x20 in
    read_loop n s (lba_of cmd) (sectors_of cmd) 0 addr count

-- The last sector of a write that is not whole is read into `hd_buf` first.
unfoldable pub write_to : ℕ → HdState → (addr drv lba count : ℕ) → Run HdState
unfolding hd_make_command
write_to n s addr drv lba count =
    let last = (lba + sector_count count + 2 ^ 32 - 1) % 2 ^ 32 in
    let before = hd_make_command last 0 drv 1 0x20 in
    let kept : HdState =
      if count % 512 == 0 then s else record s { hd_buf = s.disk (lba_of before) } in
    let cmd = hd_make_command lba 0 drv (sector_count count) 0x30 in
    write_loop n kept (lba_of cmd) (sectors_of cmd) 0 addr count

-- The result `count` is left out.
unfoldable pub hd_rw : ℕ → (write : Bool) → HdState → (addr drv lba count : ℕ) → Run HdState
unfolding read_from write_to
hd_rw n write s addr drv lba count =
    if write then write_to n s addr drv lba count else read_from n s addr drv lba count

-- `hd_rw_drv`: partition `drv % 256` of the one device. The tests for a device that is not open and
-- for an access behind the partition only report; without a device or a partition of the number
-- the code reads outside its tables. Number 5 is the place behind `primary`, where `logical` starts.
unfoldable pub hd_rw_drv :
    ℕ → (write : Bool) → HdInfo → HdState → (addr drv lba count : ℕ) → Run HdState
hd_rw_drv n write info s addr drv lba count =
    let drv_no = drv % 256 in
    let part = if ltb drv_no 5 then info.primary drv_no else info.logical (drv_no - 5) in
    if not (drv / 256 % 256 == 0)
    then fault
    else if ltb 64 drv_no
    then fault
    else hd_rw n write s addr 0 ((part.base + lba) % 2 ^ 32) count
