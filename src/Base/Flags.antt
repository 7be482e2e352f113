-- ===== src/Base/Flags.antt =====
-- C status words: `w & f`, `w |= f` and `w &= ~f` for a flag `f` of a 32-bit word.
use Prim.Native.Nat.{ℕ, zero, suc, ◌-◌, ◌^◌, ◌≤◌, ◌<◌, bit_and, bit_or, bit_xor, differ}
use mathlib.Core.Path.{◌≡◌, refl, ◌∙◌}
use mathlib.Core.Bool.{Bool, not, ◌&&◌, ◌||◌}
use native.Mathlib.Omega.{arith}
use native.Mathlib.Decide.{ℕ_discrete}
use native.Mathlib.Nat.{pow-le-pow_right}
use omocha_os.Base.Tests.{◌==◌, if◌then◌else◌}
use omocha_os.Base.Bits.{
  bit, bit-le-one, bit-or, bit-and, bit-xor, bit-pow_self, bit-pow_ne, and-pow, bit-complement,
  or-zero,
}

-- `w & f` as a condition.
unfoldable pub has : ℕ → ℕ → Bool
has w f = not (bit_and w f == 0)

-- `~f`
abbrev pub complement : ℕ → ℕ
complement f = 2 ^ 32 - 1 - f

unfoldable pub raise : ℕ → ℕ → ℕ
raise w f = bit_or w f

unfoldable pub lower : ℕ → ℕ → ℕ
lower w f = bit_and w (complement f)

pow-pos : (k : ℕ) → 1 ≤ 2 ^ k
pow-pos k = pow-le-pow_right {n = 2} (omega arith) {i = 0} {j = k} (omega arith)

pow-lt_word : (k : ℕ) → k < 32 → 2 ^ k < 2 ^ 32
pow-lt_word k h =
    let le : 2 ^ k ≤ 2 ^ 31 =
      pow-le-pow_right {n = 2} (omega arith) {i = k} {j = 31} (omega arith) in
    omega arith

pub has-eq-bit : (w k : ℕ) → has w (2 ^ k) ≡ (bit w k == 1)
unfolding has
has-eq-bit w k = elim (ℕ_discrete (bit w k) 0) [
  | yes e ↦ ground (arith, and-pow w k)
  | no n ↦
      let one : bit w k ≡ 1 = omega (arith, bit-le-one w k) in
      let kept : bit_and w (2 ^ k) ≡ 2 ^ k = and-pow w k ∙ rw one (omega arith) in
      ground (arith, kept, one, pow-pos k)
]

bit-pow : (j k : ℕ) → bit (2 ^ j) k ≡ (if j == k then 1 else 0)
bit-pow j k = elim (ℕ_discrete j k) [
  | yes e ↦ rw e (bit-pow_self k ∙ ground arith)
  | no n ↦ bit-pow_ne j k n ∙ ground arith
]

differ-bit : (x y : ℕ) → x ≤ 1 → y ≤ 1 → differ x y ≡ (if x == y then 0 else 1)
differ-bit zero zero p q = refl
differ-bit zero (suc zero) p q = refl
differ-bit (suc zero) zero p q = refl
differ-bit (suc zero) (suc zero) p q = refl
differ-bit zero (suc (suc y)) p q = absurd (omega arith)
differ-bit (suc zero) (suc (suc y)) p q = absurd (omega arith)
differ-bit (suc (suc x)) y p q = absurd (omega arith)

pub has-raise : (w j k : ℕ) → has (raise w (2 ^ j)) (2 ^ k) ≡ ((j == k) || has w (2 ^ k))
unfolding raise
has-raise w j k = ground (
  arith,
  has-eq-bit (bit_or w (2 ^ j)) k,
  has-eq-bit w k,
  bit-or w (2 ^ j) k,
  bit-pow j k,
  bit-le-one w k,
)

pub has-lower :
    (w j k : ℕ) → j < 32 → k < 32 → has (lower w (2 ^ j)) (2 ^ k) ≡ (not (j == k) && has w (2 ^ k))
unfolding lower
has-lower w j k h p = ground (
  arith,
  has-eq-bit (bit_and w (complement (2 ^ j))) k,
  has-eq-bit w k,
  bit-and w (complement (2 ^ j)) k,
  bit-complement 32 (2 ^ j) k (pow-lt_word j h),
  bit-pow j k,
  bit-le-one w k,
)

-- `w ^= f`
pub has-xor :
    (w j k : ℕ)
    → has (bit_xor w (2 ^ j)) (2 ^ k) ≡ (if j == k then not (has w (2 ^ k)) else has w (2 ^ k))
has-xor w j k = ground (
  arith,
  has-eq-bit (bit_xor w (2 ^ j)) k,
  has-eq-bit w k,
  bit-xor w (2 ^ j) k,
  differ-bit (bit w k) (bit (2 ^ j) k) (bit-le-one w k) (bit-le-one (2 ^ j) k),
  bit-pow j k,
  bit-le-one w k,
)

-- `w |= 0`
pub raise-zero : (w : ℕ) → raise w 0 ≡ w
unfolding raise
raise-zero w = or-zero w
