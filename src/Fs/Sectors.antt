-- ===== src/Fs/Sectors.antt =====
-- The loops of `read_file` of kernel/modules/fs/fs.c against the bytes of the file.
use omocha_os.Base.{
  ℕ, zero, suc, ◌+◌, ◌-◌, ◌*◌, ◌/◌, ◌%◌, ◌^◌, ◌≤◌, ◌<◌, ◌≡◌, ap, ap₂, ◌∙◌, sym, List, ◌++◌, arith,
  ℕ_discrete, dec_lt, refl,
}
use native.Mathlib.Nat.{mul-le-mul_left, mul-suc, suc-mul}
use omocha_os.Base.Bytes.{bytes, bytes-cong, bytes-append}
use omocha_os.Base.Division.{div-block, mod-block}
use omocha_os.Core.Run.{ok}
use omocha_os.Fs.Disk.{
  FileSystem, hd_drv_read, clus_to_sector, get_next_clus_in_fat, chain, file_byte,
}
use omocha_os.Fs.File.{bytes_per_clus, skip_clusters, read_sectors}

module _ (disk : ℕ → ℕ → ℕ) (fs : FileSystem) (first : ℕ) where
  abbrev pub spc : ℕ
  spc = fs.sec_per_clus

  -- The place in the file of byte `i` of sector `s` of cluster `c`.
  abbrev pub place : (c s i : ℕ) → ℕ
  place c s i = 512 * (c * spc + s) + i

  abbrev pub sector : (c s : ℕ) → ℕ
  sector c s = (clus_to_sector fs (chain disk fs first c) + s) % 2 ^ 32

  file_byte-place :
      (c s i : ℕ) → s < spc → i < 512 → file_byte disk fs first (place c s i) ≡ disk (sector c s) i
  unfolding file_byte
  file_byte-place c s i h k =
      let block : place c s i / 512 ≡ c * spc + s = omega arith in
      let inside : place c s i % 512 ≡ i = omega arith in
      rw block (rw inside (rw (div-block c spc s h) (rw (mod-block c spc s h) refl)))

  -- A part of one sector is a part of the file.
  pub sector_read :
      (c s i n : ℕ)
      → s < spc
      → i + n ≤ 512
      → bytes (disk (sector c s)) i n ≡ bytes (file_byte disk fs first) (place c s i) n
  sector_read c s i n h k =
      bytes-cong (disk (sector c s)) (file_byte disk fs first) i (place c s i) n (λ j p.
        sym (
          ap (file_byte disk fs first) (omega arith) ∙ file_byte-place c s (i + j) h (omega arith)))

  drv_read :
      (c s n : ℕ)
      → s < spc
      → n ≤ 512
      → hd_drv_read disk (sector c s) n ≡ bytes (file_byte disk fs first) (place c s 0) n
  drv_read c s n h k =
      bytes-cong _ (disk (sector c s)) 0 0 n
        (λ i p. ap₂ disk {y = sector c s} (omega arith) (omega arith))
      ∙ sector_read c s 0 n h (omega arith)

  abbrev pub bpc : ℕ
  bpc = bytes_per_clus disk fs

  -- The loop that skips clusters stops at the cluster that holds `offset`.
  pub skip_clusters_lem :
      (fuel offset c q : ℕ)
      → bpc * q ≤ offset
      → offset < bpc * (q + 1)
      → offset + bpc < 2 ^ 32
      → c ≤ q
      → q < c + fuel
      → skip_clusters disk fs fuel offset (bpc * (c + 1)) (chain disk fs first c)
        ≡ ok (chain disk fs first q)
  unfolding skip_clusters chain
  skip_clusters_lem zero offset c q low high small le room = absurd (omega arith)
  skip_clusters_lem (suc fuel) offset c q low high small le room = elim (ℕ_discrete c q) [
    | yes e ↦ let high' : offset < bpc * (c + 1) = rw e high in ground (arith, high', e)
    | no n ↦
        let before : bpc * (c + 1) ≤ bpc * q = mul-le-mul_left bpc (omega arith) in
        let next : (bpc * (c + 1) + bpc) % 2 ^ 32 ≡ bpc * (suc c + 1) =
          omega (arith, mul-suc bpc (c + 1)) in
        ground (
          arith,
          next,
          before,
          skip_clusters_lem fuel offset (suc c) q low high small (omega arith) (omega arith),
        )
  ]

  here :
      (c s n : ℕ)
      → s < spc
      → n ≤ 512
      → hd_drv_read disk ((clus_to_sector fs (chain disk fs first c) + 512 * s / 512) % 2 ^ 32) n
        ≡ bytes (file_byte disk fs first) (place c s 0) n
  here c s n h k = let same : 512 * s / 512 ≡ s = omega arith in rw same (drv_read c s n h k)

  -- The first 512 of `r` bytes, where more follow: the loop goes on with the next sector.
  read_sectors_ends :
      (fuel clus s r : ℕ) (xs : List ℕ)
      → s + 1 ≡ spc
      → 512 < r
      → read_sectors disk fs fuel (get_next_clus_in_fat disk fs clus) 0 (r - 512) ≡ ok xs
      → read_sectors disk fs (suc fuel) clus (512 * s) r
        ≡ ok (hd_drv_read disk ((clus_to_sector fs clus + 512 * s / 512) % 2 ^ 32) 512 ++ xs)
  unfolding read_sectors
  read_sectors_ends fuel clus s r xs last large e = ground (arith, e)

  read_sectors_goes_on :
      (fuel clus s r : ℕ) (xs : List ℕ)
      → s + 1 < spc
      → 512 < r
      → read_sectors disk fs fuel clus (512 * s + 512) (r - 512) ≡ ok xs
      → read_sectors disk fs (suc fuel) clus (512 * s) r
        ≡ ok (hd_drv_read disk ((clus_to_sector fs clus + 512 * s / 512) % 2 ^ 32) 512 ++ xs)
  unfolding read_sectors
  read_sectors_goes_on fuel clus s r xs more large e = ground (arith, e)

  whole :
      (c s r p : ℕ)
      → s < spc
      → 512 < r
      → p ≡ place c s 0 + 512
      → hd_drv_read disk ((clus_to_sector fs (chain disk fs first c) + 512 * s / 512) % 2 ^ 32) 512
          ++ bytes (file_byte disk fs first) p (r - 512)
        ≡ bytes (file_byte disk fs first) (place c s 0) r
  whole c s r p h large moved =
      ap₂ (λ (xs ys : List ℕ). xs ++ ys) (here c s 512 h (omega arith))
        (ap (λ (q : ℕ). bytes (file_byte disk fs first) q (r - 512)) moved)
      ∙ bytes-append _ (place c s 0) 512 (r - 512)
      ∙ ap (bytes (file_byte disk fs first) (place c s 0)) (omega arith)

  read_sectors_last :
      (fuel c s r : ℕ)
      → s < spc
      → r ≤ 512
      → read_sectors disk fs (suc fuel) (chain disk fs first c) (512 * s) r
        ≡ ok (bytes (file_byte disk fs first) (place c s 0) r)
  unfolding read_sectors
  read_sectors_last fuel c s zero h small = refl
  read_sectors_last fuel c s (suc r) h small = ground (arith, here c s (suc r) h small)

  -- Reading on from the start of a sector gives the file from that place on.
  pub read_sectors_lem :
      (fuel c s r : ℕ)
      → s < spc
      → r ≤ 512 * fuel
      → 0 < fuel
      → read_sectors disk fs fuel (chain disk fs first c) (512 * s) r
        ≡ ok (bytes (file_byte disk fs first) (place c s 0) r)
  unfolding chain
  read_sectors_lem zero c s r h k pos = absurd (omega arith)
  read_sectors_lem (suc fuel) c s r h k pos = elim (dec_lt 512 r) [
    | no small ↦ read_sectors_last fuel c s r h (omega arith)
    | yes large ↦ elim (ℕ_discrete (s + 1) spc) [
      | yes last ↦
          let rest =
            read_sectors_lem fuel (suc c) 0 (r - 512) (omega arith) (omega arith) (omega arith) in
          read_sectors_ends fuel (chain disk fs first c) s r _ last large rest
          ∙ ap ok (whole c s r _ h large (omega (arith, suc-mul c spc)))
      | no more ↦
          let rest =
            read_sectors_lem fuel c (s + 1) (r - 512) (omega arith) (omega arith) (omega arith) in
          let next : 512 * (s + 1) ≡ 512 * s + 512 = omega arith in
          read_sectors_goes_on fuel (chain disk fs first c) s r _ (omega arith) large (
            ap (λ (p : ℕ). read_sectors disk fs fuel (chain disk fs first c) p (r - 512)) (sym next)
            ∙ rest)
          ∙ ap ok (whole c s r _ h large (omega arith))
    ]
  ]
