-- ===== src/Base/Bits.antt =====
-- The laws of `bit_and`, `bit_or` and `bit_xor` at a single bit of a word.
use Prim.Native.Nat.{
  ℕ, zero, suc, ◌+◌, ◌-◌, ◌*◌, ◌/◌, ◌%◌, ◌^◌, ◌≤◌, ◌<◌, min, max, bit_and, bit_or, bit_xor, digits,
  bitwise, differ, bit_and-bitwise, bit_or-bitwise, bit_xor-bitwise,
}
use mathlib.Core.Path.{◌≡◌, refl, sym, ap, ap₂, ◌∙◌}
use mathlib.Core.Logic.{◌≢◌}
use native.Mathlib.Nat.{
  pow-suc, mul_comm, div-div-eq-div-mul, mod-add-div, mod-lt, pow-le-pow_right,
}
use native.Mathlib.Omega.{arith}
use omocha_os.Base.Division.{mod-block}

-- Binary digits, lowest first: `rest` is the result where the left word has no digit left, and
-- `op` combines two digits. Fuel that covers the left word changes nothing.
digits-stable :
    (rest : ℕ → ℕ) (op : ℕ → ℕ → ℕ) (k a b : ℕ) → a ≤ k → digits rest op k a b ≡ bitwise rest op a b
digits-stable rest op k a b le = agree k a a b le (omega arith)
  where
    agree : (k l a b : ℕ) → a ≤ k → a ≤ l → digits rest op k a b ≡ digits rest op l a b
    agree zero zero a b le le' = refl
    agree (suc k) (suc l) (suc a) b le le' =
        ap (λ (hi : ℕ). hi * 2 + op (suc a % 2) (b % 2))
          (agree k l (suc a / 2) (b / 2) (omega arith) (omega arith))
    agree (suc k) (suc l) zero b le le' = refl
    agree (suc k) zero zero b le le' = refl
    agree (suc k) zero (suc a) b le le' = absurd (omega arith)
    agree zero (suc l) zero b le le' = refl
    agree zero (suc l) (suc a) b le le' = absurd (omega arith)

-- One digit of any of the three operations, where an absent digit counts as 0.
bitwise_step :
    (rest : ℕ → ℕ) (op : ℕ → ℕ → ℕ)
    → ((b : ℕ) → rest b ≡ rest (b / 2) * 2 + op 0 (b % 2))
    → (a b : ℕ) → bitwise rest op a b ≡ bitwise rest op (a / 2) (b / 2) * 2 + op (a % 2) (b % 2)
bitwise_step rest op low zero b = low b
bitwise_step rest op low (suc a) b =
    ap (λ (hi : ℕ). hi * 2 + op (suc a % 2) (b % 2))
      (digits-stable rest op a (suc a / 2) (b / 2) (omega arith))

pub xor_step : (a b : ℕ) → bit_xor a b ≡ bit_xor (a / 2) (b / 2) * 2 + differ (a % 2) (b % 2)
xor_step a b = simp bit_xor-bitwise (bitwise_step (λ b'. b') differ (λ c. omega arith) a b)

pub and_step : (a b : ℕ) → bit_and a b ≡ bit_and (a / 2) (b / 2) * 2 + min (a % 2) (b % 2)
and_step a b = simp bit_and-bitwise (bitwise_step (λ b'. 0) min (λ c. omega arith) a b)

pub or_step : (a b : ℕ) → bit_or a b ≡ bit_or (a / 2) (b / 2) * 2 + max (a % 2) (b % 2)
or_step a b = simp bit_or-bitwise (bitwise_step (λ b'. b') max (λ c. omega arith) a b)

pub and_odd : (a m : ℕ) → bit_and a (2 * m + 1) ≡ bit_and (a / 2) m * 2 + a % 2
and_odd a m =
    let half : (2 * m + 1) / 2 ≡ m = omega arith in
    omega (arith, and_step a (2 * m + 1), ap (bit_and (a / 2)) half)

pub or_even : (a m : ℕ) → bit_or a (2 * m) ≡ bit_or (a / 2) m * 2 + a % 2
or_even a m =
    let half : 2 * m / 2 ≡ m = omega arith in
    omega (arith, or_step a (2 * m), ap (bit_or (a / 2)) half)

-- Bit `k` of `w`.
unfoldable pub bit : ℕ → ℕ → ℕ
bit w zero = w % 2
bit w (suc k) = bit (w / 2) k

pub bit-le-one : (w k : ℕ) → bit w k ≤ 1
unfolding bit
bit-le-one w zero = omega arith
bit-le-one w (suc k) = bit-le-one (w / 2) k

pub bit-zero : (k : ℕ) → bit 0 k ≡ 0
unfolding bit
bit-zero zero = refl
bit-zero (suc k) = bit-zero k

differ-le-one : (x y : ℕ) → x ≤ 1 → y ≤ 1 → differ x y ≤ 1
differ-le-one zero y p q = q
differ-le-one (suc x) zero p q = p
differ-le-one (suc zero) (suc y) p q = omega arith
differ-le-one (suc (suc x)) (suc y) p q = absurd (omega arith)

half-or : (a b : ℕ) → bit_or a b / 2 ≡ bit_or (a / 2) (b / 2)
half-or a b = omega (arith, or_step a b)

half-and : (a b : ℕ) → bit_and a b / 2 ≡ bit_and (a / 2) (b / 2)
half-and a b = omega (arith, and_step a b)

half-xor : (a b : ℕ) → bit_xor a b / 2 ≡ bit_xor (a / 2) (b / 2)
half-xor a b = omega (arith, xor_step a b, differ-le-one (a % 2) (b % 2))

pub bit-or : (a b k : ℕ) → bit (bit_or a b) k ≡ max (bit a k) (bit b k)
unfolding bit
bit-or a b zero = omega (arith, or_step a b)
bit-or a b (suc k) = rw (half-or a b) (bit-or (a / 2) (b / 2) k)

pub bit-and : (a b k : ℕ) → bit (bit_and a b) k ≡ min (bit a k) (bit b k)
unfolding bit
bit-and a b zero = omega (arith, and_step a b)
bit-and a b (suc k) = rw (half-and a b) (bit-and (a / 2) (b / 2) k)

pub bit-xor : (a b k : ℕ) → bit (bit_xor a b) k ≡ differ (bit a k) (bit b k)
unfolding bit
bit-xor a b zero = omega (arith, xor_step a b, differ-le-one (a % 2) (b % 2))
bit-xor a b (suc k) = rw (half-xor a b) (bit-xor (a / 2) (b / 2) k)

half-pow : (k : ℕ) → 2 ^ suc k / 2 ≡ 2 ^ k
half-pow k = omega (arith, pow-suc 2 k)

pub bit-pow_self : (k : ℕ) → bit (2 ^ k) k ≡ 1
unfolding bit
bit-pow_self zero = refl
bit-pow_self (suc k) = rw (half-pow k) (bit-pow_self k)

pub bit-pow_ne : (j k : ℕ) → j ≢ k → bit (2 ^ j) k ≡ 0
unfolding bit
bit-pow_ne zero zero h = absurd (h refl)
bit-pow_ne zero (suc k) h = bit-zero k
bit-pow_ne (suc j) zero h = omega (arith, pow-suc 2 j)
bit-pow_ne (suc j) (suc k) h = rw (half-pow j) (bit-pow_ne j k (λ e. h (ap suc e)))

and-zero_fuel : (n a : ℕ) → a ≤ n → bit_and a 0 ≡ 0
and-zero_fuel zero zero h = refl
and-zero_fuel zero (suc a) h = absurd (omega arith)
and-zero_fuel (suc n) zero h = refl
and-zero_fuel (suc n) (suc a) h =
    omega (arith, and_step (suc a) 0, and-zero_fuel n (suc a / 2) (omega arith))

pub and-zero : (a : ℕ) → bit_and a 0 ≡ 0
and-zero a = and-zero_fuel a a (omega arith)

-- `w & (1 << k)` keeps bit `k` in its place.
pub and-pow : (w k : ℕ) → bit_and w (2 ^ k) ≡ bit w k * 2 ^ k
unfolding bit
and-pow w zero = omega (arith, and_step w 1, and-zero (w / 2))
and-pow w (suc k) = omega (
  arith,
  and_step w (2 ^ suc k),
  pow-suc 2 k,
  ap (bit_and (w / 2)) (half-pow k),
  and-pow (w / 2) k,
  ap (λ (x : ℕ). bit (w / 2) k * x) (pow-suc 2 k),
)

-- The mask `~(1 << j)` of an `n`-bit word.
pub bit-complement : (n x k : ℕ) → x < 2 ^ n → k < n → bit (2 ^ n - 1 - x) k ≡ 1 - bit x k
unfolding bit
bit-complement zero x k h p = absurd (omega arith)
bit-complement (suc n) x zero h p = omega (arith, pow-suc 2 n)
bit-complement (suc n) x (suc k) h p =
    rw half (bit-complement n (x / 2) k (omega (arith, pow-suc 2 n)) (omega arith))
  where
    half : (2 ^ suc n - 1 - x) / 2 ≡ 2 ^ n - 1 - x / 2
    half = omega (arith, pow-suc 2 n)

or-zero_fuel : (n a : ℕ) → a ≤ n → bit_or a 0 ≡ a
or-zero_fuel zero zero h = refl
or-zero_fuel zero (suc a) h = absurd (omega arith)
or-zero_fuel (suc n) zero h = refl
or-zero_fuel (suc n) (suc a) h =
    omega (arith, or_step (suc a) 0, or-zero_fuel n (suc a / 2) (omega arith))

pub or-zero : (a : ℕ) → bit_or a 0 ≡ a
or-zero a = or-zero_fuel a a (omega arith)

-- `(a | b) >> k`
pub shift-or : (a b k : ℕ) → bit_or a b / 2 ^ k ≡ bit_or (a / 2 ^ k) (b / 2 ^ k)
shift-or a b zero =
    let same : (x : ℕ) → x / 2 ^ 0 ≡ x = λ x. omega arith in
    same (bit_or a b) ∙ sym (ap₂ bit_or (same a) (same b))
shift-or a b (suc k) =
    let split : (x : ℕ) → x / 2 ^ suc k ≡ x / 2 / 2 ^ k = λ x.
      ap (λ (n : ℕ). x / n) (pow-suc 2 k ∙ mul_comm (2 ^ k) 2)
      ∙ sym (div-div-eq-div-mul x 2 (2 ^ k)) in
    split (bit_or a b)
    ∙ ap (λ (x : ℕ). x / 2 ^ k) (half-or a b)
    ∙ shift-or (a / 2) (b / 2) k
    ∙ ap₂ bit_or (sym (split a)) (sym (split b))

mod-double : (x y : ℕ) → 0 < y → x % (2 * y) ≡ (x / 2 % y) * 2 + x % 2
mod-double x y pos =
    let s = (x / 2 % y) * 2 + x % 2 in
    let whole : x ≡ (x / 2 / y) * (2 * y) + s = grind (arith, mod-add-div (x / 2) y) in
    let small : s < 2 * y = omega (arith, mod-lt (x / 2) {m = y} pos) in
    ap (λ (z : ℕ). z % (2 * y)) whole ∙ mod-block (x / 2 / y) (2 * y) s small

-- `(a | b) % 2 ^ k`
pub low-or : (a b k : ℕ) → bit_or a b % 2 ^ k ≡ bit_or (a % 2 ^ k) (b % 2 ^ k)
low-or a b zero =
    let none : (x : ℕ) → x % 2 ^ 0 ≡ 0 = λ x. omega arith in
    none (bit_or a b) ∙ sym (ap₂ bit_or (none a) (none b))
low-or a b (suc k) =
    let pos : 1 ≤ 2 ^ k = pow-le-pow_right {n = 2} (omega arith) {i = 0} {j = k} (omega arith) in
    let low : (x : ℕ) → x % 2 ^ suc k ≡ (x / 2 % 2 ^ k) * 2 + x % 2 =
      λ x. ap (λ (n : ℕ). x % n) (pow-suc 2 k ∙ mul_comm (2 ^ k) 2) ∙ mod-double x (2 ^ k) pos in
    let half : (x : ℕ) → x % 2 ^ suc k / 2 ≡ x / 2 % 2 ^ k = λ x. omega (arith, low x) in
    let last : (x : ℕ) → x % 2 ^ suc k % 2 ≡ x % 2 = λ x. omega (arith, low x) in
    let left : bit_or a b / 2 % 2 ^ k ≡ bit_or (a / 2 % 2 ^ k) (b / 2 % 2 ^ k) =
      ap (λ (x : ℕ). x % 2 ^ k) (half-or a b) ∙ low-or (a / 2) (b / 2) k in
    let right : bit_or (a % 2 ^ suc k / 2) (b % 2 ^ suc k / 2)
        ≡ bit_or (a / 2 % 2 ^ k) (b / 2 % 2 ^ k) =
      ap₂ bit_or (half a) (half b) in
    omega (
      arith,
      low (bit_or a b),
      left,
      right,
      or_step a b,
      or_step (a % 2 ^ suc k) (b % 2 ^ suc k),
      last a,
      last b,
    )
