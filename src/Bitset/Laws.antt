-- ===== src/Bitset/Laws.antt =====
-- Reading a bit of kernel/header/lib/bitset.h after an update of the array.
use omocha_os.Base.{
  ℕ, ◌-◌, ◌/◌, ◌%◌, ◌<◌, ◌≡◌, bit_xor, ◌∙◌, List, set, length, ◌==◌, if◌then◌else◌, arith,
  ℕ_discrete, get_or-set_self, get_or-set_ne,
}
use omocha_os.Base.Flags.{raise, lower, has-raise, has-lower, has-xor}
use omocha_os.Bitset.{bits_per_bitset, word, mask, set_bit, clear_bit, check_bit, xor_bit}

module _ (arr : List ℕ) (i j : ℕ) (inside : i / bits_per_bitset < length arr) where
  word-set : (v : ℕ) → word (set arr (i / 32) v) j ≡ (if i / 32 == j / 32 then v else word arr j)
  word-set v = elim (ℕ_discrete (i / 32) (j / 32)) [
    | yes e ↦ rw (← e) (get_or-set_self arr (i / 32) v 0 inside ∙ ground arith)
    | no n ↦ get_or-set_ne arr (i / 32) (j / 32) v 0 n ∙ ground arith
  ]

  -- After `set_bit(arr, i)` bit `i` is set and every other bit `j` is what it was, where the word
  -- of bit `i` lies in the array.
  pub check-set : check_bit (set_bit arr i) j ≡ (if i == j then 1 else check_bit arr j)
  unfolding check_bit set_bit
  check-set =
      ground
        (arith, word-set (raise (word arr i) (mask i)), has-raise (word arr i) (i % 32) (j % 32))

  -- After `clear_bit(arr, i)` bit `i` is clear and every other bit `j` is what it was, where the
  -- word of bit `i` lies in the array.
  pub check-clear : check_bit (clear_bit arr i) j ≡ (if i == j then 0 else check_bit arr j)
  unfolding check_bit clear_bit
  check-clear =
      ground
        (arith, word-set (lower (word arr i) (mask i)), has-lower (word arr i) (i % 32) (j % 32))

  -- `xor_bit(arr, i)` turns bit `i` over and leaves every other bit `j`, where the word of bit `i`
  -- lies in the array.
  pub check-xor :
      check_bit (xor_bit arr i) j ≡ (if i == j then 1 - check_bit arr j else check_bit arr j)
  unfolding check_bit xor_bit
  check-xor =
      ground
        (arith, word-set (bit_xor (word arr i) (mask i)), has-xor (word arr i) (i % 32) (j % 32))
