-- ===== src/Memory/Paging/Walk.antt =====
-- How `get_pte` of kernel/modules/memory/paging.h and `vir2phy` of kernel/header/core/paging.h
-- read the entries that kernel/modules/memory/paging.c writes.
use omocha_os.Base.{ℕ, ◌+◌, ◌*◌, ◌/◌, ◌%◌, ◌^◌, ◌<◌, ◌≡◌, refl, ap, ◌∙◌, true, false, bit_or, arith}
use omocha_os.Base.Bits.{bit, bit-or, bit-le-one, shift-or, or-zero}
use omocha_os.Base.Flags.{has, raise, has-eq-bit}
use omocha_os.Core.Paging.{vir2phy, frame}
use omocha_os.Memory.Paging.{get_pte}

-- A page table entry.
abbrev pub entry : (pa attr : ℕ) → ℕ
entry pa attr = raise (raise pa 1) attr

pub has-raise_one : (pa attr : ℕ) → has (entry pa attr) 1 ≡ true
unfolding raise bit
has-raise_one pa attr =
    has-eq-bit (entry pa attr) 0
    ∙ ground (arith, bit-or (bit_or pa 1) attr 0, bit-or pa 1 0, bit-le-one pa 0, bit-le-one attr 0)

pub frame-raise : (w a : ℕ) → a < 4096 → frame (raise w a) ≡ frame w
unfolding raise
frame-raise w a h =
    let none : a / 2 ^ 12 ≡ 0 = omega arith in
    ap (λ (x : ℕ). x * 4096)
      (shift-or w a 12 ∙ ap (bit_or (w / 2 ^ 12)) none ∙ or-zero (w / 2 ^ 12))

pub frame-entry : (n attr : ℕ) → attr < 4096 → frame (entry (n * 4096) attr) ≡ n * 4096
frame-entry n attr h =
    frame-raise (raise (n * 4096) 1) attr h ∙ frame-raise (n * 4096) 1 (omega arith) ∙ omega arith

-- A table that is there.
pub get_pte_lem :
    (words : ℕ → ℕ) (page_dir k i table : ℕ)
    → i < 1024
    → has (words (page_dir + 4 * k)) 1 ≡ true
    → frame (words (page_dir + 4 * k)) ≡ table
    → get_pte words page_dir ((k * 1024 + i) * 4096) ≡ table + 4 * i
unfolding get_pte
get_pte_lem words page_dir k i table h present t =
    let dir : (k * 1024 + i) * 4096 / 2 ^ 22 ≡ k = omega arith in
    let idx : (k * 1024 + i) * 4096 / 2 ^ 12 % 1024 ≡ i = omega arith in
    rw dir (rw idx (rw present (rw t refl)))

-- An entry for the frame `p` sends offset `y` of its page to offset `y` of the frame.
pub vir2phy-frame :
    (words : ℕ → ℕ) (page_dir k i table p y : ℕ)
    → i < 1024
    → y < 4096
    → p < 2 ^ 20
    → has (words (page_dir + 4 * k)) 1 ≡ true
    → has (words (page_dir + 4 * k)) 0x80 ≡ false
    → frame (words (page_dir + 4 * k)) ≡ table
    → frame (words (table + 4 * i)) ≡ p * 4096
    → vir2phy words page_dir ((k * 1024 + i) * 4096 + y) ≡ p * 4096 + y
unfolding vir2phy
vir2phy-frame words page_dir k i table p y hi hy hp present small t e =
    let dir : ((k * 1024 + i) * 4096 + y) / 2 ^ 22 ≡ k = omega arith in
    let idx : ((k * 1024 + i) * 4096 + y) / 2 ^ 12 % 1024 ≡ i = omega arith in
    let offset : ((k * 1024 + i) * 4096 + y) % 0x1000 ≡ y = omega arith in
    let sum : (p * 4096 + y) % 2 ^ 32 ≡ p * 4096 + y = omega arith in
    rw dir (rw idx (rw present (rw small (rw t (rw e (rw offset sum))))))
