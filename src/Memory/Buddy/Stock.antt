-- ===== src/Memory/Buddy/Stock.antt =====
-- The free pages of kernel/modules/memory/buddy.c, counted.
use omocha_os.Base.{
  ℕ, zero, suc, ◌+◌, ◌*◌, ◌^◌, ◌<◌, ◌≡◌, refl, ap, ◌∙◌, List, [], ◌∷◌, get_or, set, length, arith,
}
use native.Mathlib.Nat.{pow-suc}
use omocha_os.Memory.Buddy.{MemoryInfo}

-- The pages in free blocks, where the first count is of blocks of `w` pages.
abbrev pub pages_in : ℕ → List ℕ → ℕ
pages_in w [] = 0
pages_in w (c ∷ cs) = c * w + pages_in (2 * w) cs

abbrev pub free_pages : MemoryInfo → ℕ
free_pages mem = pages_in 1 mem.free_count

pages_in-set :
    (w : ℕ) (cs : List ℕ) (i v : ℕ)
    → i < length cs
    → pages_in w (set cs i v) + get_or cs i 0 * (w * 2 ^ i) ≡ pages_in w cs + v * (w * 2 ^ i)
pages_in-set w [] i v h = absurd (omega arith)
pages_in-set w (c ∷ cs) zero v h = omega arith
pages_in-set w (c ∷ cs) (suc i) v h =
    let same : w * 2 ^ suc i ≡ 2 * w * 2 ^ i = ap (λ (x : ℕ). w * x) (pow-suc 2 i) ∙ omega arith in
    rw same (omega (arith, pages_in-set (2 * w) cs i v (omega arith)))

-- One block of order `i` more, or one less.
pub pages_in-add :
    (cs : List ℕ) (i : ℕ)
    → i < length cs
    → pages_in 1 (set cs i (get_or cs i 0 + 1)) ≡ pages_in 1 cs + 2 ^ i
pages_in-add cs i h = omega (arith, pages_in-set 1 cs i (get_or cs i 0 + 1) h)

pub pages_in-remove :
    (cs : List ℕ) (i c : ℕ)
    → i < length cs
    → get_or cs i 0 ≡ c + 1
    → pages_in 1 (set cs i c) + 2 ^ i ≡ pages_in 1 cs
pages_in-remove cs i c h e =
    let all = pages_in-set 1 cs i c h in
    let there : get_or cs i 0 * (1 * 2 ^ i) ≡ (c + 1) * (1 * 2 ^ i) = rw e refl in
    omega (arith, all, there)
