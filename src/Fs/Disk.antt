-- ===== src/Fs/Disk.antt =====
-- The drive as the file system task of kernel/modules/fs/fs.c sees it: sectors, and the clusters
-- that the file allocation table chains.
use omocha_os.Base.{ℕ, zero, suc, ◌+◌, ◌-◌, ◌*◌, ◌/◌, ◌%◌, ◌^◌, bit_and, List, get_or}
use omocha_os.Base.Bytes.{bytes}

-- The fields of `struct FAT32_FileSystem` that the reading of files uses.
pub record FileSystem : Type 0 where
  pub sec_per_clus : ℕ
  pub fat_start_sct : ℕ
  pub root_clus : ℕ
  pub first_data_clus : ℕ

-- `struct fs_file_info`, without the name.
pub record FileInfo : Type 0 where
  pub size : ℕ
  pub clus : ℕ

-- `HD_drv_read`, on the assumption that a disk task answers: `count` bytes from sector `lba` on.
-- `disk` gives the bytes of each sector.
abbrev pub hd_drv_read : (disk : ℕ → ℕ → ℕ) → (lba count : ℕ) → List ℕ
hd_drv_read disk lba count = bytes (λ i. disk ((lba + i / 512) % 2 ^ 32) (i % 512)) 0 count

-- The word that starts at byte `i` of a buffer.
abbrev pub word_at : List ℕ → ℕ → ℕ
word_at buf i =
    get_or buf i 0
    + get_or buf (i + 1) 0 * 2 ^ 8
    + get_or buf (i + 2) 0 * 2 ^ 16
    + get_or buf (i + 3) 0 * 2 ^ 24

-- `CLUS2SECTOR`
unfoldable pub clus_to_sector : FileSystem → ℕ → ℕ
clus_to_sector fs n =
    (fs.first_data_clus + (n + 2 ^ 32 - fs.root_clus) % 2 ^ 32 * fs.sec_per_clus) % 2 ^ 32

module _ (disk : ℕ → ℕ → ℕ) (fs : FileSystem) where
  unfoldable pub get_next_clus_in_fat : ℕ → ℕ
  get_next_clus_in_fat clus =
      let sector_of_clus_in_fat = clus / 128 in
      let buf = hd_drv_read disk ((fs.fat_start_sct + sector_of_clus_in_fat) % 2 ^ 32) 512 in
      bit_and (word_at buf (4 * (clus - 128 * sector_of_clus_in_fat))) 0x0fff_ffff

  -- Cluster `n` of the chain that starts at `clus`.
  unfoldable pub chain : (clus n : ℕ) → ℕ
  chain clus zero = clus
  chain clus (suc n) = get_next_clus_in_fat (chain clus n)

  -- Byte `i` of the file that starts at `clus`.
  unfoldable pub file_byte : (clus i : ℕ) → ℕ
  file_byte clus i =
      disk
        ((clus_to_sector fs (chain clus (i / 512 / fs.sec_per_clus)) + i / 512 % fs.sec_per_clus)
          % 2 ^ 32)
        (i % 512)
