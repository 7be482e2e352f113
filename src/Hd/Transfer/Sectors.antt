-- ===== src/Hd/Transfer/Sectors.antt =====
-- What `hd_rw` of kernel/modules/hd/hd.c reads and writes.
use omocha_os.Base.{
  ℕ, ◌+◌, ◌-◌, ◌*◌, ◌/◌, ◌%◌, ◌^◌, ◌<◌, ◌≤◌, ◌≡◌, ap, ◌∙◌, true, false, ◌==◌, arith, ℕ_discrete,
  ◌⊎◌, inl, inr,
}
use omocha_os.Core.Run.{ok}
use omocha_os.Hd.Transfer.{
  HdState, sector_count, read_from, write_to, hd_rw, hd_make_command, lba_of, sectors_of,
}
use omocha_os.Hd.Transfer.Words.{lba_of-hd_make_command, sectors_of-hd_make_command}
use omocha_os.Hd.Transfer.Loops.{received, stored, read_loop_lem, write_loop_lem}

read_from_lem :
    (n : ℕ) (s : HdState) (addr drv lba count : ℕ)
    → count + 512 ≤ n * 512
    → count ≤ 2 ^ 17
    → lba < 2 ^ 28
    → drv < 2
    → (s' : HdState) × (read_from n s addr drv lba count ≡ ok s')
      × ((q i : ℕ) → s'.disk q i ≡ s.disk q i)
      × ((a : ℕ) → s'.mem a ≡ received s addr lba count a)
unfolding read_from
read_from_lem n s addr drv lba count f h place d =
    let sectors = sector_count count in
    let start = lba_of-hd_make_command lba 0 drv sectors 0x20 place d in
    let enough = sectors_of-hd_make_command lba 0 drv sectors 0x20 (omega arith) in
    let total = sectors_of (hd_make_command lba 0 drv sectors 0x20) in
    let (s', done, disk, mem) =
      read_loop_lem n s lba total 0 addr count f (omega (arith, enough)) in
    (s', rw start done, disk, λ a. mem a ∙ ap (λ (q : ℕ). received s addr q count a) (omega arith))

write_to_lem :
    (n : ℕ) (s : HdState) (addr drv lba count : ℕ)
    → count + 512 ≤ n * 512
    → count ≤ 2 ^ 17
    → lba + 256 ≤ 2 ^ 28
    → drv < 2
    → (s' : HdState) × (write_to n s addr drv lba count ≡ ok s')
      × ((q i : ℕ) → i < 512 → s'.disk q i ≡ stored s addr lba count q i)
      × ((a : ℕ) → s'.mem a ≡ s.mem a)
unfolding write_to
write_to_lem n s addr drv lba count f h place d =
    let sectors = sector_count count in
    let start = lba_of-hd_make_command lba 0 drv sectors 0x30 (omega arith) d in
    let enough = sectors_of-hd_make_command lba 0 drv sectors 0x30 (omega arith) in
    let total = sectors_of (hd_make_command lba 0 drv sectors 0x30) in
    let last = (lba + sectors + 2 ^ 32 - 1) % 2 ^ 32 in
    let before = lba_of (hd_make_command last 0 drv 1 0x20) in
    elim (ℕ_discrete (count % 512) 0) [
      | yes whole ↦
          let test : (count % 512 == 0) ≡ true = ground arith in
          let (s', done, disk, mem) =
            write_loop_lem n s lba total 0 addr count f (omega (arith, enough))
              (λ e i. absurd (e whole)) in
          (
            s',
            rw test (rw start done),
            (λ q i l. disk q i l ∙ ap (λ (r : ℕ). stored s addr r count q i) (omega arith)),
            mem,
          )
      | no part ↦
          let test : (count % 512 == 0) ≡ false = ground arith in
          let at : before ≡ lba + 0 + count / 512 =
            lba_of-hd_make_command last 0 drv 1 0x20 (omega arith) d ∙ omega arith in
          let kept : HdState = record s { hd_buf = s.disk before } in
          let (s', done, disk, mem) =
            write_loop_lem n kept lba total 0 addr count f (omega (arith, enough))
              (λ e i. ap (λ (q : ℕ). s.disk q i) at) in
          (
            s',
            rw test (rw start done),
            (λ q i l. disk q i l ∙ ap (λ (r : ℕ). stored s addr r count q i) (omega arith)),
            mem,
          )
    ]

received-stored :
    (s s1 : HdState) (src dst lba count b : ℕ)
    → b < count
    → s1.disk (lba + b / 512) (b % 512) ≡ stored s src lba count (lba + b / 512) (b % 512)
    → received s1 dst lba count (dst + b) ≡ s.mem (src + b)
received-stored s s1 src dst lba count b l e =
    let offset : dst + b - dst ≡ b = omega arith in
    let place : (lba + b / 512) * 512 + b % 512 - lba * 512 ≡ b = omega arith in
    let byte : stored s src lba count (lba + b / 512) (b % 512) ≡ s.mem (src + b) =
      rw place (ground arith) in
    rw offset (ground (arith, e, byte))

received_outside :
    (s : HdState) (dst lba count a : ℕ)
    → (a < dst) ⊎ (dst + count ≤ a)
    → received s dst lba count a ≡ s.mem a
received_outside s dst lba count a (inl below) = ground arith
received_outside s dst lba count a (inr above) = ground arith

-- A write of up to 128 KB to a drive, and a read of as many bytes from the same sectors, below the
-- sector number 2^28 and with a round for each sector and one more, both end. The read gets the
-- bytes that were written; and the write changes no other byte of the disk, also in its last sector,
-- and the read no byte of it and no memory outside of its buffer.
pub hd_rw-hd_rw :
    (n : ℕ) (s : HdState) (src dst drv lba count : ℕ)
    → count + 512 ≤ n * 512
    → count ≤ 2 ^ 17
    → lba + 256 ≤ 2 ^ 28
    → drv < 2
    → (s1 : HdState) × (s2 : HdState) × (hd_rw n true s src drv lba count ≡ ok s1)
      × (hd_rw n false s1 dst drv lba count ≡ ok s2)
      × ((b : ℕ) → b < count → s2.mem (dst + b) ≡ s.mem (src + b))
      × ((q i : ℕ) → i < 512 → s2.disk q i ≡ stored s src lba count q i)
      × ((a : ℕ) → (a < dst) ⊎ (dst + count ≤ a) → s2.mem a ≡ s.mem a)
unfolding hd_rw
hd_rw-hd_rw n s src dst drv lba count f h place d =
    let (s1, wrote, disk1, mem1) = write_to_lem n s src drv lba count f h place d in
    let (s2, got, disk2, mem2) = read_from_lem n s1 dst drv lba count f h (omega arith) d in
    (
      s1,
      s2,
      wrote,
      got,
      (λ b l.
          mem2 (dst + b)
          ∙ received-stored s s1 src dst lba count b l
              (disk1 (lba + b / 512) (b % 512) (omega arith))),
      (λ q i l. disk2 q i ∙ disk1 q i l),
      λ a out. mem2 a ∙ received_outside s1 dst lba count a out ∙ mem1 a,
    )
