-- ===== src/Tty/Keyboard/Modifiers.antt =====
-- The modifier flags of a key in `kbd_read` of kernel/modules/tty/kbd.c.
use omocha_os.Base.{
  ℕ, zero, suc, ◌/◌, ◌%◌, ◌^◌, ◌≤◌, ◌<◌, ◌≡◌, ◌≢◌, ap, ◌∙◌, Bool, true, false, if◌then◌else◌, arith,
  bit_or,
}
use omocha_os.Base.Bits.{bit, low-or, or-zero}
use native.Mathlib.Nat.{pow-suc, pow-le-pow_right}
use omocha_os.Base.Flags.{has, raise, has-eq-bit, has-raise, raise-zero}
use omocha_os.Tty.Keyboard.{Switches, with_flags, flag}

flag-low : (on : Bool) (f key : ℕ) → f % 512 ≡ 0 → flag on f key % 512 ≡ key % 512
unfolding raise
flag-low on f key h =
    let none : (if on then f else 0) % 2 ^ 9 ≡ 0 = ground arith in
    low-or key (if on then f else 0) 9 ∙ ap (bit_or (key % 2 ^ 9)) none ∙ or-zero (key % 2 ^ 9)

has-flag_same :
    (on : Bool) (j key : ℕ) → has key (2 ^ j) ≡ false → has (flag on (2 ^ j) key) (2 ^ j) ≡ on
has-flag_same true j key h = has-raise key j j ∙ ground arith
has-flag_same false j key h = ap (λ (x : ℕ). has x (2 ^ j)) (raise-zero key) ∙ h

has-flag_ne :
    (on : Bool) (j k key : ℕ) → j ≢ k → has (flag on (2 ^ j) key) (2 ^ k) ≡ has key (2 ^ k)
has-flag_ne true j k key h = has-raise key j k ∙ ground (arith, h)
has-flag_ne false j k key h = ap (λ (x : ℕ). has x (2 ^ k)) (raise-zero key)

pub bit-small : (w k : ℕ) → w < 2 ^ k → bit w k ≡ 0
unfolding bit
bit-small w zero h = omega arith
bit-small w (suc k) h = bit-small (w / 2) k (omega (arith, pow-suc 2 k))

-- The flag of each modifier is set exactly when the modifier is held.
pub record Flagged (sw : Switches) (r : ℕ) : Type 0 where
  pub shift_l : has r 0x200 ≡ sw.shift_l
  pub shift_r : has r 0x400 ≡ sw.shift_r
  pub ctrl_l : has r 0x800 ≡ sw.ctrl_l
  pub ctrl_r : has r 0x1000 ≡ sw.ctrl_r
  pub alt_l : has r 0x2000 ≡ sw.alt_l
  pub alt_r : has r 0x4000 ≡ sw.alt_r

module _ (sw : Switches) (key : ℕ) (small : key < 512) where
  abbrev k1 : ℕ
  k1 = flag sw.shift_l 0x200 key

  abbrev k2 : ℕ
  k2 = flag sw.shift_r 0x400 k1

  abbrev k3 : ℕ
  k3 = flag sw.alt_l 0x2000 k2

  abbrev k4 : ℕ
  k4 = flag sw.alt_r 0x4000 k3

  abbrev k5 : ℕ
  k5 = flag sw.ctrl_l 0x800 k4

  bare : (j : ℕ) → 9 ≤ j → has key (2 ^ j) ≡ false
  bare j h =
      let large : 2 ^ 9 ≤ 2 ^ j = pow-le-pow_right {n = 2} (omega arith) {i = 9} {j = j} h in
      has-eq-bit key j ∙ ground (arith, bit-small key j (omega (arith, large)))

  pub with_flags-Flagged : Flagged sw (with_flags sw key)
  unfolding with_flags
  with_flags-Flagged = record {
    shift_l =
        has-flag_ne sw.ctrl_r 12 9 k5 (λ e. omega arith)
        ∙ has-flag_ne sw.ctrl_l 11 9 k4 (λ e. omega arith)
        ∙ has-flag_ne sw.alt_r 14 9 k3 (λ e. omega arith)
        ∙ has-flag_ne sw.alt_l 13 9 k2 (λ e. omega arith)
        ∙ has-flag_ne sw.shift_r 10 9 k1 (λ e. omega arith)
        ∙ has-flag_same sw.shift_l 9 key (bare 9 (omega arith));
    shift_r =
        has-flag_ne sw.ctrl_r 12 10 k5 (λ e. omega arith)
        ∙ has-flag_ne sw.ctrl_l 11 10 k4 (λ e. omega arith)
        ∙ has-flag_ne sw.alt_r 14 10 k3 (λ e. omega arith)
        ∙ has-flag_ne sw.alt_l 13 10 k2 (λ e. omega arith)
        ∙ has-flag_same sw.shift_r 10 k1 (from_1 10 (λ e. omega arith) (omega arith));
    ctrl_l =
        has-flag_ne sw.ctrl_r 12 11 k5 (λ e. omega arith)
        ∙ has-flag_same sw.ctrl_l 11 k4 (
            has-flag_ne sw.alt_r 14 11 k3 (λ e. omega arith)
            ∙ from_3 11 (λ e. omega arith) (λ e. omega arith) (λ e. omega arith) (omega arith));
    ctrl_r = has-flag_same sw.ctrl_r 12 k5 (
        has-flag_ne sw.ctrl_l 11 12 k4 (λ e. omega arith)
        ∙ has-flag_ne sw.alt_r 14 12 k3 (λ e. omega arith)
        ∙ from_3 12 (λ e. omega arith) (λ e. omega arith) (λ e. omega arith) (omega arith));
    alt_l =
        has-flag_ne sw.ctrl_r 12 13 k5 (λ e. omega arith)
        ∙ has-flag_ne sw.ctrl_l 11 13 k4 (λ e. omega arith)
        ∙ has-flag_ne sw.alt_r 14 13 k3 (λ e. omega arith)
        ∙ has-flag_same sw.alt_l 13 k2 (
            has-flag_ne sw.shift_r 10 13 k1 (λ e. omega arith)
            ∙ from_1 13 (λ e. omega arith) (omega arith));
    alt_r =
        has-flag_ne sw.ctrl_r 12 14 k5 (λ e. omega arith)
        ∙ has-flag_ne sw.ctrl_l 11 14 k4 (λ e. omega arith)
        ∙ has-flag_same sw.alt_r 14 k3
            (from_3 14 (λ e. omega arith) (λ e. omega arith) (λ e. omega arith) (omega arith));
  }
    where
      from_1 : (j : ℕ) → 9 ≢ j → 9 ≤ j → has k1 (2 ^ j) ≡ false
      from_1 j n h = has-flag_ne sw.shift_l 9 j key n ∙ bare j h

      from_3 : (j : ℕ) → 9 ≢ j → 10 ≢ j → 13 ≢ j → 9 ≤ j → has k3 (2 ^ j) ≡ false
      from_3 j a b c h =
          has-flag_ne sw.alt_l 13 j k2 c ∙ has-flag_ne sw.shift_r 10 j k1 b ∙ from_1 j a h

  pub with_flags-low : with_flags sw key % 512 ≡ key
  unfolding with_flags
  with_flags-low =
      flag-low sw.ctrl_r 0x1000 k5 (omega arith)
      ∙ flag-low sw.ctrl_l 0x800 k4 (omega arith)
      ∙ flag-low sw.alt_r 0x4000 k3 (omega arith)
      ∙ flag-low sw.alt_l 0x2000 k2 (omega arith)
      ∙ flag-low sw.shift_r 0x400 k1 (omega arith)
      ∙ flag-low sw.shift_l 0x200 key (omega arith)
      ∙ omega arith
