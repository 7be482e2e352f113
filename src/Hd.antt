-- ===== src/Hd.antt =====
-- The partition table of a hard disk: kernel/modules/hd/hd.c. A sector that `hd_rw` reads is the
-- bytes that `disk` gives for its number; a read that the drive does not answer is not modelled.
use omocha_os.Base.{ℕ, zero, suc, ◌+◌, ◌-◌, ◌*◌, ◌%◌, ◌^◌, ltb, ◌==◌, if◌then◌else◌}
use omocha_os.Base.Bytes.{long_at}
use omocha_os.Core.Process.{update}
use omocha_os.Core.Run.{Run, ok, fault, ◌>>=◌}
pub mod Extended
pub mod Partitions
pub mod Transfer
mod Tests

-- `struct HD_PartInfo`
pub record PartInfo : Type 0 where
  pub bootable : ℕ
  pub fsid : ℕ
  pub base : ℕ
  pub size : ℕ

-- `struct HD_Info`, without the count of openings.
pub record HdInfo : Type 0 where
  pub primary : ℕ → PartInfo
  pub logical : ℕ → PartInfo

-- The fields of `struct HD_PartTableEntity` that the code reads.
pub record PartTableEntity : Type 0 where
  pub entry_bootable : ℕ
  pub entry_fsid : ℕ
  pub lba_begin : ℕ
  pub entry_size : ℕ

-- Entry `i` of the table in sector `sect`.
unfoldable pub part_table_read : (disk : ℕ → ℕ → ℕ) (sect i : ℕ) → PartTableEntity
part_table_read disk sect i =
    let p = 446 + 16 * i in
    record {
      entry_bootable = disk sect p;
      entry_fsid = disk sect (p + 4);
      lba_begin = long_at (disk sect) (p + 8);
      entry_size = long_at (disk sect) (p + 12);
    }

-- What the tables of the drive say of a partition that starts at `base`.
abbrev pub part_of : PartTableEntity → (base : ℕ) → PartInfo
part_of e base = record {
  bootable = e.entry_bootable;
  fsid = e.entry_fsid;
  base = base;
  size = e.entry_size;
}

-- A write to `info->primary`, which has five entries.
unfoldable pub set_primary : HdInfo → ℕ → PartInfo → Run HdInfo
set_primary info i p =
    if ltb i 5 then ok (record info { primary = update (info.primary) i p }) else fault

-- A write to `info->logical`, which has 64 entries.
unfoldable pub set_logical : HdInfo → ℕ → PartInfo → Run HdInfo
set_logical info i p =
    if ltb i 64 then ok (record info { logical = update (info.logical) i p }) else fault

-- The rounds of the loop over an extended partition, from `sect` on.
unfoldable pub extended_parts :
    (rounds : ℕ) (disk : ℕ → ℕ → ℕ) → HdInfo → (ext_base slot sect : ℕ) → Run HdInfo
extended_parts zero disk info ext_base slot sect = ok info
extended_parts (suc n) disk info ext_base slot sect =
    let first = part_table_read disk sect 0 in
    let second = part_table_read disk sect 1 in
    set_logical info slot (part_of first ((sect + first.lba_begin) % 2 ^ 32)) >>= λ next.
    if second.entry_fsid == 0
    then ok next
    else extended_parts n disk next ext_base (slot + 1) ((ext_base + second.lba_begin) % 2 ^ 32)

-- `init_partitions` with the type `HD_PART_TYPE_EXTEND`
unfoldable pub init_extended : (disk : ℕ → ℕ → ℕ) → HdInfo → (extend_id : ℕ) → Run HdInfo
init_extended disk info extend_id =
    let ext_base = (info.primary extend_id).base in
    extended_parts 16 disk info ext_base ((extend_id - 1) * 16) ext_base

-- One round of the loop over the primary partitions, with the count of those found.
unfoldable pub primary_part : (disk : ℕ → ℕ → ℕ) → HdInfo → (i prim_parts : ℕ) → Run (HdInfo × ℕ)
primary_part disk info i prim_parts =
    let e = part_table_read disk 0 i in
    if e.entry_fsid == 0
    then ok (info, prim_parts)
    else (set_primary info (i + 1) (part_of e (e.lba_begin)) >>= λ next.
        (if e.entry_fsid == 5 then init_extended disk next (i + 1) else ok next) >>= λ last.
        ok (last, prim_parts + 1))

unfoldable pub primary_parts :
    (rounds : ℕ) (disk : ℕ → ℕ → ℕ) → HdInfo → (i prim_parts : ℕ) → Run (HdInfo × ℕ)
primary_parts zero disk info i prim_parts = ok (info, prim_parts)
primary_parts (suc n) disk info i prim_parts =
    primary_part disk info i prim_parts >>= λ r. primary_parts n disk (r.0) (i + 1) (r.1)

-- `init_partitions` with another type. That no partition was found is only reported.
unfoldable pub init_partitions : (disk : ℕ → ℕ → ℕ) → HdInfo → Run HdInfo
init_partitions disk info = primary_parts 4 disk info 0 0 >>= λ r. ok (r.0)
