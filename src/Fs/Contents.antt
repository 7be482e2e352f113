-- ===== src/Fs/Contents.antt =====
-- What `read_file` of kernel/modules/fs/fs.c reads.
use omocha_os.Base.{
  ℕ, ◌+◌, ◌-◌, ◌*◌, ◌/◌, ◌%◌, ◌^◌, ◌≤◌, ◌<◌, ◌≡◌, ◌≢◌, ◌⊎◌, inl, inr, ap, ◌∙◌, min, List, [], ◌++◌,
  append-nil, arith, ℕ_discrete, dec_lt, refl,
}
use omocha_os.Base.Bytes.{bytes, bytes-append}
use omocha_os.Core.Run.{ok}
use omocha_os.Fs.Disk.{FileSystem, FileInfo, clus_to_sector, chain, file_byte}
use omocha_os.Fs.File.{bytes_per_clus, read_rest, read_file}
use omocha_os.Fs.Sectors.{place, sector, sector_read}
use omocha_os.Fs.Read.{c, s, inside, parts, p_clus_lem, read_rest_lem, aligned, unaligned}

module _ (disk : ℕ → ℕ → ℕ) (fs : FileSystem) (fuel : ℕ) (info : FileInfo) (offset size : ℕ)
    (nz : 0 < fs.sec_per_clus) (le : offset ≤ info.size) (small : info.size < 2 ^ 32)
    (fits : offset + size < 2 ^ 32) (no_wrap : offset + bytes_per_clus disk fs < 2 ^ 32)
    (room : offset + size < 512 * fuel) where
  abbrev file : ℕ → ℕ
  file = file_byte disk fs info.clus

  abbrev count : ℕ
  count = min size (info.size - offset)

  abbrev at : ℕ
  at = c disk fs offset nz

  abbrev in_clus : ℕ
  in_clus = s disk fs offset nz

  from_start :
      offset % 512 ≡ 0
      → read_file disk fs fuel info offset size ≡ ok (bytes file offset count, count)
  from_start even =
      let here : place disk fs info.clus at in_clus 0 ≡ offset =
        omega (arith, parts disk fs offset nz) in
      aligned disk fs offset nz fuel info size le small fits (omega arith) no_wrap _ even (
        read_rest_lem disk fs info.clus fuel at in_clus count
          (omega (arith, inside disk fs offset nz)) nz (omega arith) (omega arith)
        ∙ ap (λ (p : ℕ). ok (bytes file p count)) here)

  abbrev first : ℕ
  first = min (512 - offset % 512) count

  -- Where `offset` lies in the first sector of its cluster, the part read first is the file's.
  first_part :
      offset % bytes_per_clus disk fs < 512
      → bytes (disk (clus_to_sector fs (chain disk fs info.clus at))) (offset % 512) first
        ≡ bytes file offset first
  unfolding clus_to_sector
  first_part low =
      let none : in_clus ≡ 0 = omega (arith, p_clus_lem disk fs offset nz) in
      let lba : clus_to_sector fs (chain disk fs info.clus at) ≡ sector disk fs info.clus at 0 =
        omega arith in
      let here : place disk fs info.clus at 0 (offset % 512) ≡ offset =
        omega (arith, none, parts disk fs offset nz) in
      ap (λ (x : ℕ). bytes (disk x) (offset % 512) first) lba
      ∙ sector_read disk fs info.clus at 0 (offset % 512) first nz (omega arith)
      ∙ ap (λ (p : ℕ). bytes file p first) here

  after_first :
      offset % bytes_per_clus disk fs < 512
      → read_rest disk fs fuel
          (chain disk fs info.clus at)
          (512 * in_clus + offset % 512 + first)
          (count - first)
        ≡ ok (bytes file (offset + first) (count - first))
  unfolding read_rest
  after_first low = elim (dec_lt (512 - offset % 512) count) [
    | no all ↦ let left : count - first ≡ 0 = omega arith in rw left refl
    | yes more ↦
        let none : in_clus ≡ 0 = omega (arith, p_clus_lem disk fs offset nz) in
        let next : 512 * in_clus + offset % 512 + first ≡ 512 * 1 = omega (arith, none) in
        let here : place disk fs info.clus at 1 0 ≡ offset + first =
          omega (arith, none, parts disk fs offset nz) in
        ap (λ (p : ℕ). read_rest disk fs fuel (chain disk fs info.clus at) p (count - first)) next
        ∙ read_rest_lem disk fs info.clus fuel at 1 (count - first) nz nz (omega arith)
            (omega arith)
        ∙ ap (λ (p : ℕ). ok (bytes file p (count - first))) here
  ]

  -- `read_file` writes the bytes of the file from `offset` on, as many as are asked for and as the
  -- file has, and returns their number, following the chain of clusters. The offset lies in the
  -- file, and at the start of a sector or in the first sector of a cluster; a cluster has sectors,
  -- the size of the file is a 32-bit number, `offset` plus the bytes asked for or plus a cluster
  -- stays below 2^32, and the fuel covers the sectors up to the end of the read.
  pub read_file-bytes :
      (offset % 512 ≡ 0) ⊎ (offset % bytes_per_clus disk fs < 512)
      → read_file disk fs fuel info offset size ≡ ok (bytes file offset count, count)
  read_file-bytes place = elim (ℕ_discrete (offset % 512) 0) [
    | yes even ↦ from_start even
    | no odd ↦
        let low : offset % bytes_per_clus disk fs < 512 = elim place [
          | inl even ↦ absurd (odd even)
          | inr h ↦ h
        ] in
        unaligned disk fs offset nz fuel info size le small fits (omega arith) no_wrap _ odd
          (after_first low)
        ∙ ap (λ (xs : List ℕ). ok (xs, count))
            (ap (λ (xs : List ℕ). xs ++ bytes file (offset + first) (count - first))
                (first_part low)
              ∙ bytes-append file offset first (count - first)
              ∙ ap (bytes file offset) (omega arith))
  ]

  -- A read that starts inside a sector other than the first of its cluster, and ends in that
  -- sector, gives bytes of the first sector of the cluster. The other conditions are those of the
  -- theorem on the bytes read.
  read_file_misread :
      offset % 512 ≢ 0
      → 512 ≤ offset % bytes_per_clus disk fs
      → offset % 512 + count ≤ 512
      → read_file disk fs fuel info offset size
        ≡ ok (
          bytes
              (disk (clus_to_sector fs (chain disk fs info.clus (offset / 512 / fs.sec_per_clus))))
              (offset % 512)
              count,
          count,
        )
  unfolding read_rest
  read_file_misread odd high ends =
      let all : first ≡ count = omega arith in
      let left : count - first ≡ 0 = omega arith in
      unaligned disk fs offset nz fuel info size le small fits (omega arith) no_wrap [] odd
        (rw left refl)
      ∙ ap (λ (xs : List ℕ). ok (xs, count))
          (append-nil _
            ∙ ap (bytes (disk (clus_to_sector fs (chain disk fs info.clus at))) (offset % 512)) all)
