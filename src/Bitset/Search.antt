-- ===== src/Bitset/Search.antt =====
-- What `find_first_unset_bit` of kernel/header/lib/bitset.h returns.
use omocha_os.Base.{
  ℕ, zero, suc, ◌+◌, ◌-◌, ◌/◌, ◌%◌, ◌^◌, ◌≤◌, ◌<◌, ◌≡◌, ◌≢◌, ◌∙◌, refl, true, false, inl, inr, List,
  ◌∷◌, ◌++◌, replicate, if◌then◌else◌, arith, ℕ_discrete, Bool-cases,
}
use native.Mathlib.Nat.{pow-suc}
use omocha_os.Base.Bits.{bit, bit-le-one, bit-zero, bit-complement}
use omocha_os.Base.Flags.{has, has-eq-bit}
use omocha_os.Bitset.{check_bit, bsf_from, bsf, find_first_unset_bit}

abbrev full : ℕ
full = 0xffff_ffff

-- A number that is not 0 has a digit that is not 0.
set_bit_of_ne_zero : (n w : ℕ) → w < 2 ^ n → w ≢ 0 → (j : ℕ) × (j < n) × (bit w j ≡ 1)
unfolding bit
set_bit_of_ne_zero zero w h p = absurd (omega arith)
set_bit_of_ne_zero (suc n) w h p = elim (ℕ_discrete (w % 2) 1) [
  | yes e ↦ (0, omega arith, e)
  | no ne ↦
      let (j, below, one) =
        set_bit_of_ne_zero n (w / 2) (omega (arith, pow-suc 2 n)) (omega arith) in
      (suc j, omega arith, one)
]

bsf_from-hit : (n k w : ℕ) → bsf_from n k w < k + n → has w (2 ^ bsf_from n k w) ≡ true
unfolding bsf_from
bsf_from-hit zero k w h = absurd (omega arith)
bsf_from-hit (suc n) k w h = elim (Bool-cases (has w (2 ^ k))) [
  | inl e ↦ rw e e
  | inr e ↦ rw e (bsf_from-hit n (k + 1) w (ground arith))
]

bsf_from-least : (n k w j : ℕ) → k ≤ j → j < bsf_from n k w → has w (2 ^ j) ≡ false
unfolding bsf_from
bsf_from-least zero k w j h p = absurd (omega arith)
bsf_from-least (suc n) k w j h p = elim (Bool-cases (has w (2 ^ k))) [
  | inl e ↦ absurd (ground arith)
  | inr e ↦ elim (ℕ_discrete k j) [
    | yes q ↦ rw (← q) e
    | no ne ↦ bsf_from-least n (k + 1) w j (omega arith) (ground arith)
  ]
]

bsf_from-le : (n k w j : ℕ) → k ≤ j → j < k + n → has w (2 ^ j) ≡ true → bsf_from n k w ≤ j
unfolding bsf_from
bsf_from-le zero k w j h p e = absurd (omega arith)
bsf_from-le (suc n) k w j h p e = elim (ℕ_discrete k j) [
  | yes q ↦ rw (q, e) (omega arith)
  | no ne ↦ ground (arith, bsf_from-le n (k + 1) w j)
]

find_first-skips :
    (n : ℕ) (ws : List ℕ) → find_first_unset_bit (replicate n full ++ ws) ≡ find_first_unset_bit ws
unfolding find_first_unset_bit
find_first-skips zero ws = refl
find_first-skips (suc n) ws = find_first-skips n ws

has-full : (j : ℕ) → j < 32 → has full (2 ^ j) ≡ true
has-full j h = has-eq-bit full j ∙ ground (arith, bit-complement 32 0 j (omega arith) h, bit-zero j)

check-low :
    (w : ℕ) (ws : List ℕ) (j : ℕ) → j < 32 → check_bit (w ∷ ws) j ≡ (if has w (2 ^ j) then 1 else 0)
unfolding check_bit
check-low w ws j h =
    let first : j / 32 ≡ 0 = omega arith in let same : j % 32 ≡ j = omega arith in rw (first, same)

module _ (w : ℕ) (word32 : w < 2 ^ 32) where
  abbrev clear : ℕ
  clear = 2 ^ 32 - 1 - w

  -- The lowest bit of `~w` is the lowest clear bit of `w`.
  has-clear : (j : ℕ) → j < 32 → has clear (2 ^ j) ≡ (if has w (2 ^ j) then false else true)
  has-clear j h =
      ground
        (arith, has-eq-bit clear j, has-eq-bit w j, bit-complement 32 w j word32 h, bit-le-one w j)

  bsf-lt : w ≢ full → bsf clear < 32
  unfolding bsf
  bsf-lt ne =
      let (j, below, one) = set_bit_of_ne_zero 32 clear (omega arith) (omega arith) in
      omega (arith, bsf_from-le 32 0 clear j (omega arith) below (has-eq-bit clear j ∙ rw one refl))

  bsf-free : w ≢ full → has w (2 ^ bsf clear) ≡ false
  unfolding bsf
  bsf-free ne =
      ground (arith, has-clear (bsf clear) (bsf-lt ne), bsf_from-hit 32 0 clear, bsf-lt ne)

  bsf-least : w ≢ full → (j : ℕ) → j < bsf clear → has w (2 ^ j) ≡ true
  unfolding bsf
  bsf-least ne j h =
      ground
        (arith, has-clear j (omega (arith, bsf-lt ne)), bsf_from-least 32 0 clear j (omega arith) h)

  find_first-bsf : (ws : List ℕ) → w ≢ full → find_first_unset_bit (w ∷ ws) ≡ bsf clear
  unfolding find_first_unset_bit
  find_first-bsf ws ne = ground arith

  -- Where the first word has a free bit, the result is the least free bit of the array.
  pub find_first-least :
      (ws : List ℕ)
      → w ≢ full
      → let r = find_first_unset_bit (w ∷ ws) in
        (r < 32) × (check_bit (w ∷ ws) r ≡ 0) × ((j : ℕ) → j < r → check_bit (w ∷ ws) j ≡ 1)
  find_first-least ws ne = rw (find_first-bsf ws ne) (
    bsf-lt ne,
    ground (arith, check-low w ws (bsf clear) (bsf-lt ne), bsf-free ne),
    λ j h. ground (arith, check-low w ws j (omega (arith, bsf-lt ne)), bsf-least ne j h),
  )

  -- Where full words stand first, the result is below 32 and names a bit of the first word, which
  -- is taken: the number of the word found is left out.
  pub find_first-taken :
      (k : ℕ) (ws : List ℕ)
      → w ≢ full
      → let arr = replicate (suc k) full ++ (w ∷ ws) in
        let r = find_first_unset_bit arr in (r < 32) × (check_bit arr r ≡ 1)
  find_first-taken k ws ne = rw (skips (suc k), find_first-bsf ws ne) (bsf-lt ne, taken)
    where
      skips :
          (n : ℕ)
          → find_first_unset_bit (replicate n full ++ (w ∷ ws)) ≡ find_first_unset_bit (w ∷ ws)
      skips n = find_first-skips n (w ∷ ws)

      taken : check_bit (full ∷ (replicate k full ++ (w ∷ ws))) (bsf clear) ≡ 1
      taken = ground (
        arith,
        check-low full (replicate k full ++ (w ∷ ws)) (bsf clear) (bsf-lt ne),
        has-full (bsf clear) (bsf-lt ne),
      )
