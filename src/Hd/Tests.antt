-- ===== src/Hd/Tests.antt =====
-- Runs of kernel/modules/hd/hd.c on a small disk.
use omocha_os.Base.{ℕ, ◌+◌, ◌<◌, ◌≡◌, ◌≢◌, refl, ◌==◌, ◌&&◌, if◌then◌else◌}
use omocha_os.Core.Run.{Run, ok, ◌>>=◌}
use omocha_os.Hd.{
  PartInfo, HdInfo, part_table_read, part_of, extended_parts, init_extended, init_partitions,
}
use omocha_os.Hd.{set_primary, set_logical, primary_part, primary_parts}
use omocha_os.Hd.Partitions.{IsUnused, init_partitions-tables}

abbrev no_part : PartInfo
no_part = record { bootable = 0; fsid = 0; base = 0; size = 0 }

abbrev no_parts : HdInfo
no_parts = record { primary = λ i. no_part; logical = λ i. no_part }

-- A FAT32 partition at sector 8, and an extended one at sector 100 with a logical partition that
-- starts two sectors behind its table.
abbrev two_parts : ℕ → ℕ → ℕ
two_parts sect p =
    if sect == 0 && p == 450
    then 12
    else if sect == 0 && p == 454
    then 8
    else if sect == 0 && p == 466
    then 5
    else if sect == 0 && p == 470
    then 100
    else if sect == 100 && p == 450
    then 6
    else if sect == 100 && p == 454
    then 2
    else 0

abbrev base_of : (HdInfo → PartInfo) → Run HdInfo → Run ℕ
base_of part run = run >>= λ info. ok ((part info).base)

primary_base : base_of (λ info. info.primary 1) (init_partitions two_parts no_parts) ≡ ok 8
unfolding init_partitions primary_parts primary_part part_table_read set_primary init_extended
    extended_parts set_logical
primary_base = refl

logical_base : base_of (λ info. info.logical 16) (init_partitions two_parts no_parts) ≡ ok 102
unfolding init_partitions primary_parts primary_part part_table_read set_primary init_extended
    extended_parts set_logical
logical_base = refl

init_partitions-tables_example :
    (last : HdInfo) × (init_partitions two_parts no_parts ≡ ok last)
    × ((j : ℕ)
        → j < 4
        → (part_table_read two_parts 0 j).entry_fsid ≢ 0
        → last.primary (j + 1)
          ≡ part_of (part_table_read two_parts 0 j) ((part_table_read two_parts 0 j).lba_begin))
    × (last.primary 0 ≡ no_parts.primary 0)
    × ((s : ℕ) → IsUnused two_parts 0 s → last.logical s ≡ no_parts.logical s)
init_partitions-tables_example = init_partitions-tables two_parts no_parts
