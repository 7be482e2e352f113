-- ===== src/Fs/Letters.antt =====
-- The case of letters in the 8.3 names of kernel/modules/fs/fs.c.
use omocha_os.Base.{
  ℕ, zero, suc, ◌+◌, ◌-◌, ◌<◌, ◌≤◌, ◌≡◌, refl, sym, ap, ap₂, ◌∙◌, Option, none, some, List, [], ◌∷◌,
  ◌++◌, map, get_or, take, replicate, length, length-append, length-replicate, ◌==◌, arith, dec_lt,
  ℕ_discrete, ◌⊎◌, inl, inr,
}
use omocha_os.Fs.Names.{
  char_upper, dot_index, ext_byte, extension, first_part, part_length, write_8_3_filename,
}

char_upper-twice : (c : ℕ) → char_upper (char_upper c) ≡ char_upper c
unfolding char_upper
char_upper-twice c = ground arith

get_or-upper : (s : List ℕ) (i : ℕ) → get_or (map char_upper s) i 0 ≡ char_upper (get_or s i 0)
get_or-upper [] i = unfold char_upper in refl
get_or-upper (c ∷ s) zero = refl
get_or-upper (c ∷ s) (suc i) = get_or-upper s i

length-upper : (s : List ℕ) → length (map char_upper s) ≡ length s
length-upper [] = refl
length-upper (c ∷ s) = ap suc (length-upper s)

take-upper :
    (n : ℕ) (s : List ℕ) → map char_upper (take n (map char_upper s)) ≡ map char_upper (take n s)
take-upper zero s = refl
take-upper (suc n) [] = refl
take-upper (suc n) (c ∷ s) =
    ap₂ (λ (x : ℕ) (xs : List ℕ). x ∷ xs) (char_upper-twice c) (take-upper n s)

is_dot : (c : ℕ) → (char_upper c == 46) ≡ (c == 46)
unfolding char_upper
is_dot c = ground arith

dot_index-upper : (s : List ℕ) (n : ℕ) → dot_index (map char_upper s) n ≡ dot_index s n
unfolding dot_index
dot_index-upper s zero = refl
dot_index-upper s (suc n) =
    let same = ap (λ (c : ℕ). c == 46) (get_or-upper s n) ∙ is_dot (get_or s n 0) in
    rw same (rw (dot_index-upper s n) refl)

dot_index-cases :
    (s : List ℕ) (n : ℕ)
    → (dot_index s n ≡ none) ⊎ ((dot : ℕ) × (dot_index s n ≡ some dot) × (dot < n))
unfolding dot_index
dot_index-cases s zero = inl refl
dot_index-cases s (suc n) = elim (ℕ_discrete (get_or s n 0) 46) [
  | yes dot ↦ inr (n, ground (arith, dot), omega arith)
  | no other ↦ elim (dot_index-cases s n) [
    | inl absent ↦ inl (ground (arith, other, absent))
    | inr (dot, e, l) ↦ inr (dot, ground (arith, other, e), omega arith)
  ]
]

length-take : (n : ℕ) (s : List ℕ) → n ≤ length s → length (map char_upper (take n s)) ≡ n
length-take zero s h = refl
length-take (suc n) [] h = absurd (omega arith)
length-take (suc n) (c ∷ s) h = ap suc (length-take n s (omega arith))

length-first_part : (s : List ℕ) (n : ℕ) → n ≤ length s → length (first_part s n) ≡ 8
unfolding first_part
length-first_part s n h = elim (dec_lt 8 n) [
  | yes long ↦ ground (
    arith,
    length-append (map char_upper (take 6 s)) (126 ∷ 49 ∷ []),
    length-take 6 s (omega arith),
  )
  | no fits ↦ ground (
    arith,
    length-append (map char_upper (take n s)) (replicate (8 - n) 32),
    length-take n s h,
    length-replicate {A = ℕ} (8 - n) 32,
  )
]

length-extension : (s : List ℕ) (dot : Option ℕ) → length (extension s dot) ≡ 3
unfolding extension
length-extension s none = refl
length-extension s (some dot) = refl

part_length-le : (s : List ℕ) → part_length s (dot_index s (length s)) ≤ length s
part_length-le s = elim (dot_index-cases s (length s)) [
  | inl absent ↦ rw absent (omega arith)
  | inr (dot, e, l) ↦ rw e (omega arith)
]

first_part-upper : (s : List ℕ) (n : ℕ) → first_part (map char_upper s) n ≡ first_part s n
unfolding first_part
first_part-upper s n = rw (take-upper 6 s) (rw (take-upper n s) refl)

ext_byte-upper : (s : List ℕ) (dot i : ℕ) → ext_byte (map char_upper s) dot i ≡ ext_byte s dot i
ext_byte-upper s dot i =
    rw (length-upper s)
      (rw (get_or-upper s (dot + 1 + i)) (rw (char_upper-twice (get_or s (dot + 1 + i) 0)) refl))

extension-upper : (s : List ℕ) (dot : Option ℕ) → extension (map char_upper s) dot ≡ extension s dot
unfolding extension
extension-upper s none = refl
extension-upper s (some dot) =
    rw (ext_byte-upper s dot 0) (rw (ext_byte-upper s dot 1) (rw (ext_byte-upper s dot 2) refl))

part_length-upper :
    (s : List ℕ) (dot : Option ℕ) → part_length (map char_upper s) dot ≡ part_length s dot
part_length-upper s none = length-upper s
part_length-upper s (some dot) = refl

-- The 8.3 form of every name has 11 bytes, and is the same for two names that differ in the case of
-- letters only.
write_8_3_filename-upper :
    (s r : List ℕ)
    → map char_upper s ≡ map char_upper r
    → (length (write_8_3_filename s) ≡ 11) × (write_8_3_filename s ≡ write_8_3_filename r)
unfolding write_8_3_filename
write_8_3_filename-upper s r same = (whole, sym (upper s) ∙ ap write_8_3_filename same ∙ upper r)
  where
    whole : length (write_8_3_filename s) ≡ 11
    whole =
        let dot = dot_index s (length s) in
        omega (
          arith,
          length-append (first_part s (part_length s dot)) (extension s dot),
          length-first_part s (part_length s dot) (part_length-le s),
          length-extension s dot,
        )

    upper : (u : List ℕ) → write_8_3_filename (map char_upper u) ≡ write_8_3_filename u
    upper u =
        let dot = dot_index u (length u) in
        let dots : dot_index (map char_upper u) (length (map char_upper u)) ≡ dot =
          ap (dot_index (map char_upper u)) (length-upper u) ∙ dot_index-upper u (length u) in
        ap
          (λ (d : Option ℕ).
            first_part (map char_upper u) (part_length (map char_upper u) d)
            ++ extension (map char_upper u) d)
          dots
        ∙ ap₂ (λ (x y : List ℕ). x ++ y)
            (ap (first_part (map char_upper u)) (part_length-upper u dot)
              ∙ first_part-upper u (part_length u dot))
            (extension-upper u dot)
