-- ===== src/Bitset.antt =====
-- kernel/header/lib/bitset.h: an array of 32-bit words read as a set of bit numbers.
-- An access outside the array reads 0 and writes nothing; the theorems assume the index inside.
pub mod Laws
pub mod Search
mod Tests
use omocha_os.Base.{
  ℕ, zero, suc, ◌+◌, ◌-◌, ◌/◌, ◌%◌, ◌^◌, bit_and, bit_xor, Bool, true, false, List, [], ◌∷◌, get_or,
  set, ◌==◌, if◌then◌else◌,
}
use omocha_os.Base.Flags.{has, raise, lower}

-- `BITS_PER_BITSET`
abbrev pub bits_per_bitset : ℕ
bits_per_bitset = 32

abbrev pub word : List ℕ → ℕ → ℕ
word arr i = get_or arr (i / bits_per_bitset) 0

abbrev pub mask : ℕ → ℕ
mask i = 2 ^ (i % bits_per_bitset)

unfoldable pub set_bit : List ℕ → ℕ → List ℕ
set_bit arr i = set arr (i / bits_per_bitset) (raise (word arr i) (mask i))

unfoldable pub clear_bit : List ℕ → ℕ → List ℕ
clear_bit arr i = set arr (i / bits_per_bitset) (lower (word arr i) (mask i))

unfoldable pub check_bit : List ℕ → ℕ → ℕ
check_bit arr i = if has (word arr i) (mask i) then 1 else 0

unfoldable pub xor_bit : List ℕ → ℕ → List ℕ
xor_bit arr i = set arr (i / bits_per_bitset) (bit_xor (word arr i) (mask i))

-- The `bsfl` instruction: the number of the lowest set bit, looked for from bit `k` on.
unfoldable pub bsf_from : ℕ → ℕ → ℕ → ℕ
bsf_from zero k w = k
bsf_from (suc n) k w = let rest = bsf_from n (k + 1) w in if has w (2 ^ k) then k else rest

unfoldable pub bsf : ℕ → ℕ
unfolding bsf_from
bsf w = bsf_from 32 0 w

-- The loop over the words. The result for word `i` is the bit number inside that word.
unfoldable pub find_first_unset_bit : List ℕ → ℕ
find_first_unset_bit [] = 0xffff_ffff
find_first_unset_bit (w ∷ ws) =
    if w == 0xffff_ffff then find_first_unset_bit ws else bsf (2 ^ 32 - 1 - w)
