-- ===== src/Fs/File.antt =====
-- `read_file` of kernel/modules/fs/fs.c.
use omocha_os.Base.{
  ℕ, zero, suc, ◌+◌, ◌-◌, ◌*◌, ◌/◌, ◌%◌, ◌^◌, min, List, [], ◌++◌, take, drop, ltb, leb, ◌==◌,
  if◌then◌else◌,
}
use omocha_os.Core.Run.{Run, ok, out_of_fuel, ◌>>=◌}
use omocha_os.Fs.Disk.{FileSystem, FileInfo, hd_drv_read, clus_to_sector, get_next_clus_in_fat}

module _ (disk : ℕ → ℕ → ℕ) (fs : FileSystem) where
  -- `BytesPerClus`
  abbrev pub bytes_per_clus : ℕ
  bytes_per_clus = 512 * fs.sec_per_clus

  -- `for (p = BytesPerClus; p <= offset; p += BytesPerClus)`
  unfoldable pub skip_clusters : ℕ → (offset p clus : ℕ) → Run ℕ
  skip_clusters zero offset p clus = out_of_fuel
  skip_clusters (suc fuel) offset p clus =
      let rest =
        skip_clusters fuel offset ((p + bytes_per_clus) % 2 ^ 32)
          (get_next_clus_in_fat disk fs clus) in
      if leb p offset then rest else ok clus

  -- The loop over whole sectors and the last read. The result is what is written to `buf`.
  unfoldable pub read_sectors : ℕ → (clus p_clus r_size : ℕ) → Run (List ℕ)
  read_sectors zero clus p_clus r_size = out_of_fuel
  read_sectors (suc fuel) clus p_clus r_size =
      let sector = (clus_to_sector fs clus + p_clus / 512) % 2 ^ 32 in
      let ends = leb bytes_per_clus (p_clus + 512) in
      let rest =
        read_sectors fuel (if ends then get_next_clus_in_fat disk fs clus else clus)
          (if ends then 0 else p_clus + 512) (r_size - 512) in
      if ltb 512 r_size
      then (do read ← rest; ok (hd_drv_read disk sector 512 ++ read))
      else if r_size == 0
      then ok []
      else ok (hd_drv_read disk sector r_size)

  -- What follows the read of a first part of a sector.
  unfoldable pub read_rest : ℕ → (clus p_clus r_size : ℕ) → Run (List ℕ)
  read_rest fuel clus p_clus r_size =
      if r_size == 0
      then ok []
      else if p_clus == bytes_per_clus
      then read_sectors fuel (get_next_clus_in_fat disk fs clus) 0 r_size
      else read_sectors fuel clus p_clus r_size

  -- `size` as it is cut to the end of the file.
  abbrev pub cut_size : FileInfo → (offset size : ℕ) → ℕ
  cut_size info offset size =
      if ltb info.size ((offset + size) % 2 ^ 32)
      then (info.size + 2 ^ 32 - offset) % 2 ^ 32
      else size

  -- The part of the first sector that is read where `p_clus` does not start a sector.
  unfoldable pub read_head : (clus p_clus r_size : ℕ) → List ℕ
  read_head clus p_clus r_size =
      take (min (512 - p_clus % 512) r_size)
        (drop (p_clus % 512) (hd_drv_read disk (clus_to_sector fs clus) 512))

  -- The bytes written to `buf`, and the result.
  unfoldable pub read_file : ℕ → FileInfo → (offset size : ℕ) → Run (List ℕ × ℕ)
  read_file fuel info offset size = do
    let r_size = cut_size info offset size
    let p_clus = offset % bytes_per_clus
    clus ← skip_clusters fuel offset bytes_per_clus info.clus
    let s = min (512 - p_clus % 512) r_size
    if p_clus % 512 == 0
        then (do read ← read_rest fuel clus p_clus r_size; ok (read, r_size))
        else (do
          read ← read_rest fuel clus (p_clus + s) (r_size - s)
          ok (read_head clus p_clus r_size ++ read, r_size))
