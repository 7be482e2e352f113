-- ===== src/Fs/Directory.antt =====
-- `get_file_info` and `ReadBootSector` of kernel/modules/fs/fs.c.
use omocha_os.Base.{
  [], ◌∷◌, ℕ, zero, suc, ◌+◌, ◌-◌, ◌*◌, ◌%◌, ◌^◌, Bool, true, false, ◌==◌, ◌&&◌, ◌||◌, Option, none,
  some, List, get_or, take, drop, length, leb, if◌then◌else◌,
}
use omocha_os.Base.Flags.{has}
use omocha_os.Core.Run.{Run, ok, out_of_fuel, ◌>>=◌}
use omocha_os.Fs.Disk.{
  FileSystem, FileInfo, hd_drv_read, word_at, clus_to_sector, get_next_clus_in_fat,
}
use omocha_os.Fs.Names.{write_8_3_filename}
use omocha_os.Systask.Processes.{same_name}

-- The bytes before the first NUL.
unfoldable pub string_of : List ℕ → List ℕ
string_of [] = []
string_of (b ∷ bs) = if b == 0 then [] else b ∷ string_of bs

abbrev half_at : List ℕ → ℕ → ℕ
half_at buf i = get_or buf i 0 + get_or buf (i + 1) 0 * 2 ^ 8

-- `union FAT32_DirEnt`, the fields that the code reads.
pub record DirEnt : Type 0 where
  pub name : List ℕ
  pub attr : ℕ
  pub clus : ℕ
  pub file_size : ℕ

unfoldable pub dir_ent : List ℕ → (offset : ℕ) → DirEnt
dir_ent buf offset = record {
  name = take 11 (drop offset buf);
  attr = get_or buf (offset + 11) 0;
  clus = half_at buf (offset + 20) * 2 ^ 16 + half_at buf (offset + 26);
  file_size = word_at buf (offset + 28);
}

-- Entries that are free, parts of a long name, or start with a dot.
abbrev pub is_skipped : DirEnt → Bool
is_skipped e =
    let first = get_or e.name 0 0 in
    ((first == 0xE5) || (first == 0x05)) || ((e.attr == 0x0F) || (first == 0x2E))

-- The first entry with the name among the `n` from `offset` on; a first byte 0 ends the sector.
unfoldable pub find_entry : ℕ → List ℕ → (name_83 : List ℕ) → (offset : ℕ) → Option DirEnt
unfolding dir_ent
find_entry zero buf name_83 offset = none
find_entry (suc n) buf name_83 offset =
    let e = dir_ent buf offset in
    let rest = find_entry n buf name_83 (offset + 32) in
    if get_or e.name 0 0 == 0
    then none
    else if is_skipped e
    then rest
    else if same_name (string_of name_83) (string_of e.name)
    then some e
    else rest

-- Where the first part of the path ends, and whether the path ends there: at most 11 bytes behind
-- the slash are looked at.
unfoldable pub part_end : ℕ → List ℕ → (p : ℕ) → ℕ × Bool
part_end zero fn p = (p, false)
part_end (suc n) fn p =
    let rest = part_end n fn (p + 1) in
    let c = get_or fn p 0 in if c == 47 then (p, false) else if c == 0 then (p, true) else rest

module _ (disk : ℕ → ℕ → ℕ) (fs : FileSystem) where
  -- The sectors of a cluster, from `i` on.
  unfoldable pub find_in_cluster : ℕ → (name_83 : List ℕ) → (clus i : ℕ) → Option DirEnt
  find_in_cluster zero name_83 clus i = none
  find_in_cluster (suc n) name_83 clus i =
      let buf = hd_drv_read disk ((clus_to_sector fs clus + i) % 2 ^ 32) 512 in
      let rest = find_in_cluster n name_83 clus (i + 1) in
      elim (find_entry 16 buf name_83 0) [ none ↦ rest | some e ↦ some e ]

  -- The clusters of a directory. One unit of fuel for each.
  unfoldable pub find_in_directory : ℕ → (name_83 : List ℕ) → (clus : ℕ) → Run (Option DirEnt)
  find_in_directory zero name_83 clus = out_of_fuel
  find_in_directory (suc fuel) name_83 clus =
      let next = get_next_clus_in_fat disk fs clus in
      let rest = find_in_directory fuel name_83 next in
      elim (find_in_cluster fs.sec_per_clus name_83 clus 0) [
        | some e ↦ ok (some e)
        | none ↦ if leb 0x0fff_fff8 next && leb next 0x0fff_ffff then ok none else rest
      ]

  -- `fn` is a path that is not empty and starts with a slash. The result is 0 with the file, 1 where
  -- it is not found, 2 for a path that ends with a slash, and 3 for a directory in place of a file or
  -- a file in place of a directory. The depth of the path bounds the recursion.
  unfoldable pub get_file_info :
      (depth fuel : ℕ) → (dir_clus : ℕ) → (fn : List ℕ) → Run (ℕ × Option FileInfo)
  get_file_info zero fuel dir_clus fn = out_of_fuel
  get_file_info (suc depth) fuel dir_clus fn =
      let (p, is_file) = part_end 11 fn 1 in
      let name = take (p - 1) (drop 1 fn) in
      let deeper = λ (clus : ℕ). get_file_info depth fuel clus (drop p fn) in
      let search = (do
        found ← find_in_directory fuel (write_8_3_filename name) dir_clus
        elim found [
          | none ↦ ok (1, none)
          | some e ↦
              if has e.attr 0x10
              then (if is_file then ok (3, none) else deeper e.clus)
              else if is_file
              then ok (0, some (record { size = e.file_size; clus = e.clus }))
              else ok (3, none)
        ]) in
      if get_or fn (length fn - 1) 0 == 47 then ok (2, none) else search

-- The fields of `struct FAT32_BS` at their offsets in the first sector; the assertions on
-- other fields only print in a task outside ring 0.
unfoldable pub read_boot_sector : (disk : ℕ → ℕ → ℕ) → FileSystem
read_boot_sector disk =
    let buf = hd_drv_read disk 0 512 in
    record {
      sec_per_clus = get_or buf 13 0;
      fat_start_sct = half_at buf 14;
      root_clus = word_at buf 44;
      first_data_clus = (half_at buf 14 + word_at buf 36 * get_or buf 16 0) % 2 ^ 32;
    }
