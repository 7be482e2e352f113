-- ===== src/Libc/Itoa.antt =====
-- `itoa` of kernel/lib/stdlib.c. The text is the list of its characters, without the NUL.
use omocha_os.Base.{
  ℕ, zero, suc, ◌+◌, ◌-◌, ◌*◌, ◌/◌, ◌%◌, ◌<◌, ◌≤◌, ◌≡◌, ◌≢◌, refl, sym, ap, ◌∙◌, ◌||◌, List, [],
  ◌∷◌, ◌++◌, ltb, ◌==◌, if◌then◌else◌, arith, ℕ_discrete,
}
use native.Mathlib.Nat.{div-add-mod', mod-lt, mul-le-mul_left}
use omocha_os.Core.Run.{Run, ok, out_of_fuel, ◌>>=◌}

-- The character at `35 + d` of the table of digits.
abbrev pub digit : ℕ → ℕ
digit d = if ltb d 10 then 48 + d else 55 + d

-- The `do` loop: the digits, the lowest first.
unfoldable pub low_digits : ℕ → (value base : ℕ) → Run (List ℕ)
low_digits zero value base = out_of_fuel
low_digits (suc fuel) value base =
    let rest = low_digits fuel (value / base) base in
    let d = digit (value % base) in
    if value / base == 0 then ok (d ∷ []) else (do ds ← rest; ok (d ∷ ds))

-- The loop that swaps the ends.
unfoldable pub reversed : List ℕ → List ℕ
reversed [] = []
reversed (x ∷ xs) = reversed xs ++ (x ∷ [])

unfoldable pub itoa : ℕ → (value base : ℕ) → Run (List ℕ)
itoa fuel value base =
    if ltb base 2 || ltb 36 base
    then ok []
    else (do ds ← low_digits fuel value base; ok (reversed ds))

abbrev pub digit_value : ℕ → ℕ
digit_value c = if ltb c 65 then c - 48 else c - 55

-- The number that a text reads as, after a number `n` read before it.
abbrev pub read : (base n : ℕ) → List ℕ → ℕ
read base n [] = n
read base n (c ∷ cs) = read base (n * base + digit_value c) cs

abbrev pub AllDigits : (base : ℕ) → List ℕ → Type 0
AllDigits base [] = Unit
AllDigits base (c ∷ cs) = ((d : ℕ) × (d < base) × (c ≡ digit d)) × AllDigits base cs

-- A numeral of the base: digits, with no 0 in front of others.
abbrev pub IsNumeral : (base : ℕ) → List ℕ → Type 0
IsNumeral base [] = ⊥
IsNumeral base (c ∷ []) = AllDigits base (c ∷ [])
IsNumeral base (c ∷ b ∷ cs) = (c ≢ 48) × AllDigits base (c ∷ b ∷ cs)

read-append :
    (base n : ℕ) (xs : List ℕ) (c : ℕ)
    → read base n (xs ++ (c ∷ [])) ≡ read base n xs * base + digit_value c
read-append base n [] c = refl
read-append base n (x ∷ xs) c = read-append base (n * base + digit_value x) xs c

digit_value-digit : (d : ℕ) → d < 36 → digit_value (digit d) ≡ d
digit_value-digit d h = ground arith

AllDigits-snoc :
    (base : ℕ) (xs : List ℕ) (d : ℕ)
    → d < base
    → AllDigits base xs
    → AllDigits base (xs ++ (digit d ∷ []))
AllDigits-snoc base [] d h w = ((d, h, refl), tt)
AllDigits-snoc base (x ∷ xs) d h w = (w.0, AllDigits-snoc base xs d h w.1)

-- A digit behind a numeral of a number that is not 0.
IsNumeral-snoc :
    (base : ℕ) (xs : List ℕ) (d : ℕ)
    → d < base
    → IsNumeral base xs
    → read base 0 xs ≢ 0
    → IsNumeral base (xs ++ (digit d ∷ []))
IsNumeral-snoc base [] d h w nz = absurd w
IsNumeral-snoc base (c ∷ []) d h w nz = (
  (λ zero_first. nz (ap (λ (x : ℕ). 0 * base + digit_value x) zero_first ∙ omega arith)),
  AllDigits-snoc base (c ∷ []) d h w,
)
IsNumeral-snoc base (c ∷ b ∷ cs) d h w nz = (w.0, AllDigits-snoc base (c ∷ b ∷ cs) d h w.1)

low_digits_lem :
    (fuel value base : ℕ)
    → 2 ≤ base
    → base ≤ 36
    → value < fuel
    → (ds : List ℕ) × (low_digits fuel value base ≡ ok ds)
      × (read base 0 (reversed ds) ≡ value)
      × IsNumeral base (reversed ds)
unfolding low_digits reversed
low_digits_lem zero value base two most h = absurd (omega arith)
low_digits_lem (suc fuel) value base two most h =
    let parts = div-add-mod' value base in
    let back =
      digit_value-digit (value % base) (omega (arith, mod-lt value {m = base} (omega arith))) in
    let fewer : value / base * 2 ≤ value / base * base = mul-le-mul_left (value / base) two in
    elim (ℕ_discrete (value / base) 0) [
      | yes last ↦ (
        digit (value % base) ∷ [],
        ground (arith, last),
        omega (arith, back, parts, ap (λ (q : ℕ). q * base) last),
        ((value % base, mod-lt value {m = base} (omega arith), refl), tt),
      )
      | no more ↦
          let ne : value / base ≢ 0 = more in
          let (ds, done, same, numeral) =
            low_digits_lem fuel (value / base) base two most (omega (arith, parts, ne, fewer)) in
          (
            digit (value % base) ∷ ds,
            ground (arith, more, done),
            read-append base 0 (reversed ds) _
                ∙ omega (arith, back, parts, ap (λ (q : ℕ). q * base) same),
            IsNumeral-snoc base (reversed ds) (value % base) (mod-lt value {m = base} (omega arith))
                numeral (λ none. ne (sym same ∙ none)),
          )
    ]

-- The text that `itoa` writes in a base from 2 to 36 is a numeral and reads back as the number,
-- where the fuel exceeds the number.
pub read-itoa :
    (fuel value base : ℕ)
    → 2 ≤ base
    → base ≤ 36
    → value < fuel
    → (cs : List ℕ) × (itoa fuel value base ≡ ok cs) × (read base 0 cs ≡ value) × IsNumeral base cs
unfolding itoa
read-itoa fuel value base two most h =
    let (ds, done, same, numeral) = low_digits_lem fuel value base two most h in
    (reversed ds, ground (arith, done), same, numeral)
