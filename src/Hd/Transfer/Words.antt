-- ===== src/Hd/Transfer/Words.antt =====
-- The command that kernel/header/modules/hd.h makes, as the drive reads it.
use omocha_os.Base.{ℕ, ◌*◌, ◌/◌, ◌%◌, ◌^◌, ◌<◌, ◌≤◌, ◌≡◌, ap, ap₂, ◌∙◌, bit_or, arith}
use omocha_os.Base.Bits.{low-or, or-zero}
use omocha_os.Hd.Transfer.{hd_make_command, lba_of, sectors_of}

-- The device byte has the highest part of the sector number in its lower half.
device_low : (x d : ℕ) → x < 16 → d < 16 → bit_or (bit_or x 0xE0) (d * 16) % 256 % 16 ≡ x
device_low x d hx hd =
    let w = bit_or (bit_or x 0xE0) (d * 16) in
    let low : w % 256 % 16 ≡ w % 2 ^ 4 = omega arith in
    let high : d * 16 % 2 ^ 4 ≡ 0 = omega arith in
    let own : x % 2 ^ 4 ≡ x = omega arith in
    low
    ∙ low-or (bit_or x 0xE0) (d * 16) 4
    ∙ ap₂ bit_or (low-or x 0xE0 4 ∙ ap (λ (y : ℕ). bit_or y 0) own ∙ or-zero x) high
    ∙ or-zero x

pub lba_of-hd_make_command :
    (lba feature drive count command : ℕ)
    → lba < 2 ^ 28
    → drive < 2
    → lba_of (hd_make_command lba feature drive count command) ≡ lba
unfolding hd_make_command
lba_of-hd_make_command lba feature drive count command h d =
    omega (arith, device_low (lba / 2 ^ 24 % 16) drive (omega arith) (omega arith))

pub sectors_of-hd_make_command :
    (lba feature drive n command : ℕ)
    → n ≤ 256
    → n ≤ sectors_of (hd_make_command lba feature drive n command)
unfolding hd_make_command
sectors_of-hd_make_command lba feature drive n command h = ground arith
