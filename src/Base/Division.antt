-- ===== src/Base/Division.antt =====
-- Quotient and remainder of a sum `c * n + s` with `s < n`, where `n` is not a numeral.
use Prim.Native.Nat.{ℕ, ◌+◌, ◌*◌, ◌/◌, ◌%◌, ◌<◌}
use mathlib.Core.Path.{◌≡◌}
use native.Mathlib.Nat.{mul-add-div_right, div-eq_of_lt, mod-eq_of_lt, mul-add-mod_self_right}
use native.Mathlib.Omega.{arith}

pub div-block : (c n s : ℕ) → s < n → (c * n + s) / n ≡ c
div-block c n s h =
    omega (arith, mul-add-div_right {m = n} (omega arith) c s, div-eq_of_lt {n = s} {m = n} h)

pub mod-block : (c n s : ℕ) → s < n → (c * n + s) % n ≡ s
mod-block c n s h = omega (arith, mul-add-mod_self_right c n s, mod-eq_of_lt {n = s} {m = n} h)
