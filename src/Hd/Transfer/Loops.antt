-- ===== src/Hd/Transfer/Loops.antt =====
-- The loops of `hd_rw` of kernel/modules/hd/hd.c, sector by sector.
use omocha_os.Base.{
  ℕ, zero, suc, ◌+◌, ◌-◌, ◌*◌, ◌/◌, ◌%◌, ◌<◌, ◌≤◌, ◌≡◌, ◌≢◌, refl, ap, ◌∙◌, ◌&&◌, ltb, leb,
  if◌then◌else◌, arith, dec_lt, ℕ_discrete,
}
use omocha_os.Core.Process.{update}
use omocha_os.Core.Run.{ok}
use omocha_os.Hd.Transfer.{HdState, chunk, from_buf, to_buf, read_loop, write_loop}

-- The memory with `n` bytes of the disk at `addr`, from the first byte of sector `lba` on.
abbrev pub received : HdState → (addr lba n : ℕ) → ℕ → ℕ
received s addr lba n a =
    if leb addr a && ltb a (addr + n)
    then s.disk (lba + (a - addr) / 512) ((a - addr) % 512)
    else s.mem a

-- Byte `i` of sector `q` of the disk with `n` bytes of memory from `addr` on in it.
abbrev pub stored : HdState → (addr lba n q i : ℕ) → ℕ
stored s addr lba n q i =
    let x = q * 512 + i in
    if leb (lba * 512) x && ltb x (lba * 512 + n)
    then s.mem (addr + (x - lba * 512))
    else s.disk q i

-- One sector, then the others.
received_step :
    (s : HdState) (first k addr left a : ℕ)
    → received
        (record s {
          mem = from_buf s.mem (s.disk (first + k)) addr (chunk left);
          hd_buf = s.disk (first + k);
        })
        (addr + chunk left)
        (first + (k + 1))
        (left - chunk left)
        a
      ≡ received s addr (first + k) left a
received_step s first k addr left a = elim (dec_lt a addr) [
  | yes below ↦ ground arith
  | no from ↦ elim (dec_lt a (addr + chunk left)) [
    | yes here ↦
        let sector : first + k + (a - addr) / 512 ≡ first + k = ground arith in
        let byte : (a - addr) % 512 ≡ a - addr = ground arith in ground (arith, sector, byte)
    | no behind ↦ elim (dec_lt a (addr + left)) [
      | no outside ↦ ground arith
      | yes inside ↦
          let whole : chunk left ≡ 512 = ground arith in
          let sector : first + (k + 1) + (a - (addr + 512)) / 512 ≡ first + k + (a - addr) / 512 =
            omega (arith, whole) in
          let byte : (a - (addr + 512)) % 512 ≡ (a - addr) % 512 = omega (arith, whole) in
          rw whole (rw sector (rw byte (ground (arith, whole))))
    ]
  ]
]

pub read_loop_lem :
    (n : ℕ) (s : HdState) (first total k addr left : ℕ)
    → left + 512 ≤ n * 512
    → k * 512 + left ≤ total * 512
    → (s' : HdState) × (read_loop n s first total k addr left ≡ ok s')
      × ((q i : ℕ) → s'.disk q i ≡ s.disk q i)
      × ((a : ℕ) → s'.mem a ≡ received s addr (first + k) left a)
unfolding read_loop
read_loop_lem zero s first total k addr left f h = absurd (omega arith)
read_loop_lem (suc n) s first total k addr left f h = elim (ℕ_discrete left 0) [
  | yes none ↦ (s, ground (arith, none), (λ q i. refl), λ a. ground (arith, none))
  | no some_left ↦
      let bytes = chunk left in
      let sector = s.disk (first + k) in
      let next : HdState = record s { hd_buf = sector; mem = from_buf s.mem sector addr bytes } in
      let (s', done, disk, mem) =
        read_loop_lem n next first total (k + 1) (addr + bytes) (left - bytes) (ground arith)
          (ground arith) in
      (s', ground (arith, some_left, done), disk, λ a. mem a ∙ received_step s first k addr left a)
]

write_loop-end :
    (n : ℕ) (s : HdState) (first total k addr : ℕ)
    → 0 < n
    → write_loop n s first total k addr 0 ≡ ok s
unfolding write_loop
write_loop-end zero s first total k addr h = absurd (omega arith)
write_loop-end (suc n) s first total k addr h = refl

kept_step :
    (s : HdState) (first k addr left i : ℕ)
    → 512 ≤ left
    → s.hd_buf i ≡ s.disk (first + k + left / 512) i
    → s.hd_buf i
      ≡ update s.disk (first + k) (λ j. s.mem (addr + j)) (first + (k + 1) + (left - 512) / 512) i
kept_step s first k addr left i h e =
    let same : first + (k + 1) + (left - 512) / 512 ≡ first + k + left / 512 = omega arith in
    let other : first + k + left / 512 ≢ first + k = λ q. omega (arith, q) in
    rw same (ground (arith, other, e))

stored_part :
    (s : HdState) (first k addr left q i : ℕ)
    → i < 512
    → left < 512
    → ((j : ℕ) → s.hd_buf j ≡ s.disk (first + k + left / 512) j)
    → update s.disk (first + k) (to_buf s.hd_buf s.mem addr left) q i
      ≡ stored s addr (first + k) left q i
stored_part s first k addr left q i l part kept = elim (ℕ_discrete q (first + k)) [
  | yes here ↦
      let sector : first + k + left / 512 ≡ q = omega arith in
      let byte : q * 512 + i - (first + k) * 512 ≡ i = omega arith in
      rw byte (ground (arith, here, kept i, ap (λ (p : ℕ). s.disk p i) sector))
  | no other ↦ elim (dec_lt q (first + k)) [
    | yes below ↦ ground (arith, other)
    | no above ↦ ground (arith, other)
  ]
]

stored_step :
    (s : HdState) (first k addr left q i : ℕ)
    → i < 512
    → 512 ≤ left
    → stored
        (record s { disk = update s.disk (first + k) (λ j. s.mem (addr + j)) })
        (addr + 512)
        (first + (k + 1))
        (left - 512)
        q
        i
      ≡ stored s addr (first + k) left q i
stored_step s first k addr left q i l h = elim (ℕ_discrete q (first + k)) [
  | yes here ↦
      let byte : q * 512 + i - (first + k) * 512 ≡ i = omega arith in rw byte (ground (arith, here))
  | no other ↦ elim (dec_lt q (first + k)) [
    | yes below ↦ ground (arith, other)
    | no above ↦
        let byte : addr + 512 + (q * 512 + i - (first + (k + 1)) * 512)
            ≡ addr + (q * 512 + i - (first + k) * 512) =
          omega (arith, other) in
        rw byte (ground (arith, other))
  ]
]

pub write_loop_lem :
    (n : ℕ) (s : HdState) (first total k addr left : ℕ)
    → left + 512 ≤ n * 512
    → k * 512 + left ≤ total * 512
    → (left % 512 ≢ 0 → (i : ℕ) → s.hd_buf i ≡ s.disk (first + k + left / 512) i)
    → (s' : HdState) × (write_loop n s first total k addr left ≡ ok s')
      × ((q i : ℕ) → i < 512 → s'.disk q i ≡ stored s addr (first + k) left q i)
      × ((a : ℕ) → s'.mem a ≡ s.mem a)
unfolding write_loop
write_loop_lem zero s first total k addr left f h kept = absurd (omega arith)
write_loop_lem (suc n) s first total k addr left f h kept = elim (ℕ_discrete left 0) [
  | yes none ↦ (s, ground (arith, none), (λ q i l. ground (arith, none)), λ a. refl)
  | no some_left ↦ elim (dec_lt left 512) [
    | yes part ↦
        let buf = to_buf s.hd_buf s.mem addr left in
        let next : HdState = record s { hd_buf = buf; disk = update s.disk (first + k) buf } in
        let end = write_loop-end n next first total (k + 1) (addr + left) (omega arith) in
        let none : left - left ≡ 0 = omega arith in
        let rest : left % 512 ≢ 0 = λ e. omega arith in
        (
          next,
          ground (arith, some_left, none, end),
          (λ q i l. stored_part s first k addr left q i l part (λ j. kept rest j)),
          λ a. refl,
        )
    | no whole ↦
        let next : HdState = record s {
          disk = update s.disk (first + k) (λ i. s.mem (addr + i));
        } in
        let (s', done, disk, mem) =
          write_loop_lem n next first total (k + 1) (addr + 512) (left - 512) (omega arith)
            (omega arith)
            (λ e i.
              kept_step s first k addr left i (omega arith) (kept (λ z. e (omega arith)) i)) in
        (
          s',
          ground (arith, some_left, done),
          (λ q i l. disk q i l ∙ stored_step s first k addr left q i l (omega arith)),
          mem,
        )
  ]
]
