-- ===== src/Libc/Memset.antt =====
-- `memset` of kernel/lib/string.c, on a memory of bytes by address.
use omocha_os.Base.{
  ℕ, zero, suc, ◌+◌, ◌*◌, ◌/◌, ◌%◌, ◌≡◌, ◌&&◌, ◌==◌, ltb, leb, if◌then◌else◌, arith, ℕ_discrete,
}
use omocha_os.Core.Process.{update}

-- `stosb(dst, c, n)`
unfoldable pub stosb : (ℕ → ℕ) → (dst c : ℕ) → ℕ → ℕ → ℕ
stosb mem dst c zero = mem
stosb mem dst c (suc n) = stosb (update mem dst c) (dst + 1) c n

-- `stosl`, for a word whose four bytes are `c`.
unfoldable pub stosl : (ℕ → ℕ) → (dst c : ℕ) → ℕ → ℕ → ℕ
stosl mem dst c zero = mem
stosl mem dst c (suc n) = stosl (stosb mem dst c 4) (dst + 4) c n

-- Words where the address and the size are multiples of 4.
unfoldable pub memset : (ℕ → ℕ) → (dst ch size : ℕ) → ℕ → ℕ
memset mem dst ch size =
    if (dst % 4 == 0) && (size % 4 == 0)
    then stosl mem dst (ch % 256) (size / 4)
    else stosb mem dst (ch % 256) size

-- The memory in which the `n` bytes at `p` are `c`.
abbrev pub filled : (ℕ → ℕ) → (p c n : ℕ) → ℕ → ℕ
filled mem p c n a = if leb p a && ltb a (p + n) then c else mem a

stosb_lem : (n : ℕ) (mem : ℕ → ℕ) (dst c a : ℕ) → stosb mem dst c n a ≡ filled mem dst c n a
unfolding stosb
stosb_lem zero mem dst c a = ground arith
stosb_lem (suc n) mem dst c a = elim (ℕ_discrete a dst) [
  | yes here ↦ ground (arith, here, stosb_lem n (update mem dst c) (dst + 1) c a)
  | no other ↦ ground (arith, other, stosb_lem n (update mem dst c) (dst + 1) c a)
]

stosl_lem : (n : ℕ) (mem : ℕ → ℕ) (dst c a : ℕ) → stosl mem dst c n a ≡ filled mem dst c (n * 4) a
unfolding stosl
stosl_lem zero mem dst c a = ground arith
stosl_lem (suc n) mem dst c a =
    ground (arith, stosl_lem n (stosb mem dst c 4) (dst + 4) c a, stosb_lem 4 mem dst c a)

-- `memset` sets the bytes of its block to the low byte of the value, also where it writes words,
-- and no other byte.
pub memset-filled :
    (mem : ℕ → ℕ) (dst ch size a : ℕ) → memset mem dst ch size a ≡ filled mem dst (ch % 256) size a
unfolding memset
memset-filled mem dst ch size a =
    ground (arith, stosl_lem (size / 4) mem dst (ch % 256) a, stosb_lem size mem dst (ch % 256) a)
