-- ===== src/Libc/Memcpy.antt =====
-- `memcpy` of kernel/lib/string.c, on a memory of bytes by address.
use omocha_os.Base.{
  ℕ, zero, suc, ◌+◌, ◌-◌, ◌<◌, ◌≤◌, ◌≡◌, ◌≢◌, ◌∙◌, ◌⊎◌, inl, inr, ◌&&◌, ltb, leb, if◌then◌else◌,
  arith, ℕ_discrete, dec_lt,
}
use omocha_os.Core.Process.{update}

-- `while (size-- > 0) *d++ = *s++;`
unfoldable pub copy_up : ℕ → (ℕ → ℕ) → (d s : ℕ) → ℕ → ℕ
copy_up zero mem d s = mem
copy_up (suc n) mem d s = copy_up n (update mem d (mem s)) (d + 1) (s + 1)

-- `while (size-- > 0) *--d = *--s;`
unfoldable pub copy_down : ℕ → (ℕ → ℕ) → (d s : ℕ) → ℕ → ℕ
copy_down zero mem d s = mem
copy_down (suc n) mem d s = copy_down n (update mem (d - 1) (mem (s - 1))) (d - 1) (s - 1)

unfoldable pub memcpy : (ℕ → ℕ) → (dst src size : ℕ) → ℕ → ℕ
memcpy mem dst src size =
    if ltb src dst && ltb dst (src + size)
    then copy_down size mem (dst + size) (src + size)
    else copy_up size mem dst src

-- The memory in which the `n` bytes at `d` are those that stood at `s`.
abbrev pub moved : (ℕ → ℕ) → (d s n : ℕ) → ℕ → ℕ
moved mem d s n a = if leb d a && ltb a (d + n) then mem (s + (a - d)) else mem a

-- One byte at the front, then the others.
moved_first :
    (n : ℕ) (mem : ℕ → ℕ) (d s a : ℕ)
    → (d ≤ s) ⊎ (s + suc n ≤ d)
    → moved (update mem d (mem s)) (d + 1) (s + 1) n a ≡ moved mem d s (suc n) a
moved_first n mem d s a apart = elim (ℕ_discrete a d) [
  | yes e ↦ let start : s + (a - d) ≡ s = omega arith in ground (arith, e, start)
  | no o ↦ elim (dec_lt d a) [
    | no below ↦ ground arith
    | yes above ↦
        let next : s + 1 + (a - (d + 1)) ≡ s + (a - d) = omega arith in
        let other : a < d + suc n → s + (a - d) ≢ d =
          λ l e. elim apart [ inl up ↦ absurd (omega arith) | inr down ↦ absurd (omega arith) ] in
        elim (dec_lt a (d + suc n)) [
          | no outside ↦ ground arith
          | yes inside ↦ let ne : s + (a - d) ≢ d = other inside in ground (arith, next, ne)
        ]
  ]
]

-- One byte at the end, then the others.
moved_last :
    (n : ℕ) (mem : ℕ → ℕ) (d s a : ℕ)
    → s ≤ d
    → moved (update mem (d + n) (mem (s + n))) d s n a ≡ moved mem d s (suc n) a
moved_last n mem d s a le = elim (ℕ_discrete a (d + n)) [
  | yes e ↦ let end : s + (a - d) ≡ s + n = omega arith in ground (arith, e, end)
  | no o ↦ elim (dec_lt a d) [
    | yes below ↦ ground arith
    | no above ↦ elim (dec_lt a (d + n)) [
      | no outside ↦ ground arith
      | yes inside ↦ let ne : s + (a - d) ≢ d + n = omega arith in ground (arith, ne)
    ]
  ]
]

copy_up_lem :
    (n : ℕ) (mem : ℕ → ℕ) (d s a : ℕ)
    → (d ≤ s) ⊎ (s + n ≤ d)
    → copy_up n mem d s a ≡ moved mem d s n a
unfolding copy_up
copy_up_lem zero mem d s a apart = ground arith
copy_up_lem (suc n) mem d s a apart =
    copy_up_lem n (update mem d (mem s)) (d + 1) (s + 1) a
      (elim apart [ inl up ↦ inl (omega arith) | inr down ↦ inr (omega arith) ])
    ∙ moved_first n mem d s a apart

copy_down_lem :
    (n : ℕ) (mem : ℕ → ℕ) (d s a : ℕ)
    → s ≤ d
    → copy_down n mem (d + n) (s + n) a ≡ moved mem d s n a
unfolding copy_down
copy_down_lem zero mem d s a le = ground arith
copy_down_lem (suc n) mem d s a le =
    let at : d + suc n - 1 ≡ d + n = omega arith in
    let from : s + suc n - 1 ≡ s + n = omega arith in
    rw at (
      rw from
        (copy_down_lem n (update mem (d + n) (mem (s + n))) d s a le ∙ moved_last n mem d s a le))

-- `memcpy` moves the bytes at the source to the destination, also where the two overlap, and
-- changes nothing else.
pub memcpy-moved :
    (mem : ℕ → ℕ) (dst src size a : ℕ) → memcpy mem dst src size a ≡ moved mem dst src size a
unfolding memcpy
memcpy-moved mem dst src size a = elim (dec_lt src dst) [
  | no up ↦ ground (arith, copy_up_lem size mem dst src a (inl (omega arith)))
  | yes down ↦ elim (dec_lt dst (src + size)) [
    | no apart ↦ ground (arith, copy_up_lem size mem dst src a (inr (omega arith)))
    | yes over ↦ ground (arith, copy_down_lem size mem dst src a (omega arith))
  ]
]
