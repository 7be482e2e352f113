-- ===== src/Base/Bytes.antt =====
-- Bytes: `bytes f p n` are the `n` bytes of `f` from place `p` on.
use Prim.Native.Nat.{ℕ, zero, suc, ◌+◌, ◌-◌, ◌*◌, ◌<◌, ◌≤◌}
use mathlib.Core.Path.{◌≡◌, refl, ap}
use mathlib.Core.List.{List, [], ◌∷◌, ◌++◌}
use native.Mathlib.Omega.{arith}
use omocha_os.Base.Lists.{take, drop, length}

abbrev pub bytes : (ℕ → ℕ) → (p n : ℕ) → List ℕ
bytes f p zero = []
bytes f p (suc n) = f p ∷ bytes f (p + 1) n

pub bytes-cong :
    (f g : ℕ → ℕ) (p q n : ℕ)
    → ((i : ℕ) → i < n → f (p + i) ≡ g (q + i))
    → bytes f p n ≡ bytes g q n
bytes-cong f g p q zero same = refl
bytes-cong f g p q (suc n) same =
    let first : f p ≡ g q = grind (arith, same 0 (omega arith)) in
    let rest : bytes f (p + 1) n ≡ bytes g (q + 1) n =
      bytes-cong f g (p + 1) (q + 1) n (λ i h. grind (arith, same (i + 1) (omega arith))) in
    cc

pub bytes-append : (f : ℕ → ℕ) (p m n : ℕ) → bytes f p m ++ bytes f (p + m) n ≡ bytes f p (m + n)
bytes-append f p zero n = grind arith
bytes-append f p (suc m) n =
    let shift : p + suc m ≡ p + 1 + m = omega arith in
    let count : suc m + n ≡ suc (m + n) = omega arith in
    rw shift (rw count (ap (λ (xs : List ℕ). f p ∷ xs) (bytes-append f (p + 1) m n)))

pub drop-bytes : (f : ℕ → ℕ) (k p n : ℕ) → k ≤ n → drop k (bytes f p n) ≡ bytes f (p + k) (n - k)
drop-bytes f zero p n h = grind arith
drop-bytes f (suc k) p zero h = absurd (omega arith)
drop-bytes f (suc k) p (suc n) h =
    let shift : p + suc k ≡ p + 1 + k = omega arith in
    let count : suc n - suc k ≡ n - k = omega arith in
    rw shift (rw count (drop-bytes f k (p + 1) n (omega arith)))

pub take-bytes : (f : ℕ → ℕ) (k p n : ℕ) → k ≤ n → take k (bytes f p n) ≡ bytes f p k
take-bytes f zero p n h = refl
take-bytes f (suc k) p zero h = absurd (omega arith)
take-bytes f (suc k) p (suc n) h =
    ap (λ (xs : List ℕ). f p ∷ xs) (take-bytes f k (p + 1) n (omega arith))

pub length-bytes : (f : ℕ → ℕ) (p n : ℕ) → length (bytes f p n) ≡ n
length-bytes f p zero = refl
length-bytes f p (suc n) = ap suc (length-bytes f (p + 1) n)

-- A word of 16 bits and one of 32, the lowest byte first.
abbrev pub half_at : (ℕ → ℕ) → ℕ → ℕ
half_at f p = f p + f (p + 1) * 256

abbrev pub long_at : (ℕ → ℕ) → ℕ → ℕ
long_at f p = f p + f (p + 1) * 256 + f (p + 2) * 65536 + f (p + 3) * 16777216
