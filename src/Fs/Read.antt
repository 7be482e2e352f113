-- ===== src/Fs/Read.antt =====
-- The parts of a run of `read_file` of kernel/modules/fs/fs.c.
use omocha_os.Base.{
  ℕ, zero, suc, ◌+◌, ◌-◌, ◌*◌, ◌/◌, ◌%◌, ◌^◌, ◌≤◌, ◌<◌, ◌≡◌, ◌≢◌, ap, ◌∙◌, sym, min, true, List,
  ◌++◌, take, leb, arith, ℕ_discrete, refl,
}
use native.Mathlib.Nat.{suc-mul, div-add-mod', mod-lt, div-le_self}
use omocha_os.Base.Bytes.{bytes, bytes-cong, drop-bytes, take-bytes}
use omocha_os.Base.Division.{mod-block}
use omocha_os.Core.Run.{ok}
use omocha_os.Fs.Disk.{FileSystem, FileInfo, clus_to_sector, chain, file_byte}
use omocha_os.Fs.File.{bytes_per_clus, skip_clusters, read_rest, cut_size, read_head, read_file}
use omocha_os.Fs.Sectors.{place, skip_clusters_lem, read_sectors_lem}

module _ (disk : ℕ → ℕ → ℕ) (fs : FileSystem) where
  cut_size_lem :
      (info : FileInfo) (offset size : ℕ)
      → offset ≤ info.size
      → info.size < 2 ^ 32
      → offset + size < 2 ^ 32
      → cut_size disk fs info offset size ≡ min size (info.size - offset)
  cut_size_lem info offset size le small fits = ground arith

  one_sector :
      (lba j : ℕ) → lba < 2 ^ 32 → j < 512 → disk ((lba + j / 512) % 2 ^ 32) (j % 512) ≡ disk lba j
  one_sector lba j h k =
      let same : (lba + j / 512) % 2 ^ 32 ≡ lba = omega arith in
      let inside : j % 512 ≡ j = omega arith in rw same (rw inside refl)

  -- The first part of a sector is taken from the first sector of the cluster.
  read_head_lem :
      (clus p_clus n : ℕ)
      → read_head disk fs clus p_clus n
        ≡ bytes (disk (clus_to_sector fs clus)) (p_clus % 512) (min (512 - p_clus % 512) n)
  unfolding read_head clus_to_sector
  read_head_lem clus p_clus n =
      let i = p_clus % 512 in
      let m = min (512 - p_clus % 512) n in
      ap (take m) (drop-bytes _ i 0 512 (omega arith))
      ∙ take-bytes _ m (0 + i) (512 - i) (omega arith)
      ∙ bytes-cong (λ x. disk ((clus_to_sector fs clus + x / 512) % 2 ^ 32) (x % 512))
          (disk (clus_to_sector fs clus)) (0 + i) i m
          (λ j p.
            one_sector (clus_to_sector fs clus) (0 + i + j) (omega arith) (omega arith)
            ∙ ap (disk (clus_to_sector fs clus)) (omega arith))

  module _ (first : ℕ) where
    pub read_rest_lem :
        (fuel c s r : ℕ)
        → s ≤ fs.sec_per_clus
        → 0 < fs.sec_per_clus
        → r ≤ 512 * fuel
        → 0 < fuel
        → read_rest disk fs fuel (chain disk fs first c) (512 * s) r
          ≡ ok (bytes (file_byte disk fs first) (place disk fs first c s 0) r)
    unfolding read_rest chain
    read_rest_lem fuel c s zero h nz k pos = refl
    read_rest_lem fuel c s (suc r) h nz k pos = elim (ℕ_discrete s fs.sec_per_clus) [
      | yes e ↦
          let there : place disk fs first (suc c) 0 0 ≡ place disk fs first c s 0 =
            omega (arith, suc-mul c fs.sec_per_clus) in
          ground (arith, e)
          ∙ read_sectors_lem disk fs first fuel (suc c) 0 (suc r) nz k pos
          ∙ ap (λ (q : ℕ). ok (bytes (file_byte disk fs first) q (suc r))) there
      | no n ↦
          let inside : leb (512 * s) (bytes_per_clus disk fs) ≡ true = ground arith in
          ground (arith, inside)
          ∙ read_sectors_lem disk fs first fuel c s (suc r) (omega arith) k pos
    ]

  -- The numbers of the cluster and of the sector in it where `offset` lies, and of the byte there.
  module _ (offset : ℕ) (nz : 0 < fs.sec_per_clus) where
    abbrev pub c : ℕ
    c = offset / 512 / fs.sec_per_clus

    abbrev pub s : ℕ
    s = offset / 512 % fs.sec_per_clus

    pub inside : s < fs.sec_per_clus
    inside = mod-lt (offset / 512) nz

    abbrev pub b : ℕ
    b = bytes_per_clus disk fs

    pub parts : c * b + (512 * s + offset % 512) ≡ offset
    parts =
        let sectors = div-add-mod' (offset / 512) fs.sec_per_clus in
        let pull : c * (512 * fs.sec_per_clus) ≡ 512 * (c * fs.sec_per_clus) = omega arith in
        omega (arith, sectors, pull)

    pub p_clus_lem : offset % b ≡ 512 * s + offset % 512
    p_clus_lem =
        ap (λ (x : ℕ). x % b) (sym parts)
        ∙ mod-block c b (512 * s + offset % 512) (omega (arith, inside))

    found :
        (first fuel : ℕ)
        → offset + b < 2 ^ 32
        → offset < 512 * fuel
        → skip_clusters disk fs fuel offset b first ≡ ok (chain disk fs first c)
    unfolding chain
    found first fuel fits room =
        let start : b ≡ b * (0 + 1) = omega arith in
        let turn : b * c ≡ c * b = omega arith in
        let next : b * (c + 1) ≡ b * c + b = omega arith in
        ap (λ (p : ℕ). skip_clusters disk fs fuel offset p first) start
        ∙ skip_clusters_lem disk fs first fuel offset 0 c (omega (arith, parts))
            (omega (arith, parts, inside)) fits (omega arith)
            (omega (arith, div-le_self (offset / 512) fs.sec_per_clus))

    -- The run of `read_file` where a sector starts at `offset`, and where none does.
    module _ (fuel : ℕ) (info : FileInfo) (size : ℕ) (le : offset ≤ info.size)
        (small : info.size < 2 ^ 32) (fits : offset + size < 2 ^ 32) (room : offset < 512 * fuel)
        (no_wrap : offset + b < 2 ^ 32) where
      abbrev pub n : ℕ
      n = min size (info.size - offset)

      pub aligned :
          (xs : List ℕ)
          → offset % 512 ≡ 0
          → read_rest disk fs fuel (chain disk fs info.clus c) (512 * s) n ≡ ok xs
          → read_file disk fs fuel info offset size ≡ ok (xs, n)
      unfolding read_file
      aligned xs even rest =
          let found = found info.clus fuel no_wrap room in
          let cut = cut_size_lem info offset size le small fits in
          let start : offset % b ≡ 512 * s = omega (arith, p_clus_lem) in
          ground (arith, found, cut, start, rest)

      pub unaligned :
          (xs : List ℕ)
          → offset % 512 ≢ 0
          → read_rest disk fs fuel
              (chain disk fs info.clus c)
              (512 * s + offset % 512 + min (512 - offset % 512) n)
              (n - min (512 - offset % 512) n)
            ≡ ok xs
          → read_file disk fs fuel info offset size
            ≡ ok (
              bytes
                    (disk (clus_to_sector fs (chain disk fs info.clus c)))
                    (offset % 512)
                    (min (512 - offset % 512) n)
                  ++ xs,
              n,
            )
      unfolding read_file
      unaligned xs odd rest =
          let found = found info.clus fuel no_wrap room in
          let cut = cut_size_lem info offset size le small fits in
          let inside : (512 * s + offset % 512) % 512 ≡ offset % 512 = omega arith in
          let head = read_head_lem (chain disk fs info.clus c) (512 * s + offset % 512) n in
          ground (arith, found, cut, p_clus_lem, inside, head, rest)
