-- ===== src/Core/PagePool/Pages.antt =====
-- The pool of kernel/core/memory.c after the loop of `core_init_memory`.
use omocha_os.Base.{
  ℕ, zero, suc, ◌+◌, ◌*◌, ◌%◌, ◌^◌, ◌<◌, ◌≤◌, ◌≡◌, ◌≢◌, false, ◌==◌, refl, sym, subst, List, [],
  ◌∷◌, arith, dec_lt,
}
use omocha_os.Core.Process.{update}
use omocha_os.Core.Paging.{frame}
use omocha_os.Core.Run.{ok}
use omocha_os.Core.PagePool.{
  PagePool, cleared_page, kfree_pages, kalloc_pages, free_range, MemoryZone, memory_end_of,
  first_page_dir, core_init_memory,
}

-- The pages from `v` on, the last one first.
abbrev pub pages : (v n : ℕ) → List ℕ
pages v zero = []
pages v (suc n) = (v + n) * 4096 ∷ pages v n

-- A list through the first words of the pages.
abbrev pub IsLinked : (ℕ → ℕ) → (head : ℕ) → List ℕ → Type 0
IsLinked words head [] = head ≡ 0
IsLinked words head (x ∷ xs) = (head ≡ x) × IsLinked words (words x) xs

IsLinked-frame :
    (v n : ℕ) (words words' : ℕ → ℕ) (head : ℕ)
    → ((j : ℕ) → j < n → words' ((v + j) * 4096) ≡ words ((v + j) * 4096))
    → IsLinked words head (pages v n)
    → IsLinked words' head (pages v n)
IsLinked-frame v zero words words' head same w = w
IsLinked-frame v (suc n) words words' head same w = (
  w.0,
  subst (λ (x : ℕ). IsLinked words' x (pages v n)) (sym (same n (omega arith)))
      (IsLinked-frame v n words words' (words ((v + n) * 4096)) (λ j l. same j (omega arith)) w.1),
)

-- `n` pages from `v` on are linked, and zero behind their first words.
pub record IsPool (s : PagePool) (v n : ℕ) : Type 0 where
  pub linked : IsLinked s.words s.freemem (pages v n)
  pub zeroed : (a : ℕ) → v * 4096 ≤ a → a < (v + n) * 4096 → a % 4096 ≢ 0 → s.words a ≡ 0

abbrev freed : PagePool → (p : ℕ) → PagePool
freed s p = record { freemem = p; words = update (cleared_page s.words p) p s.freemem }

kfree_pages_lem :
    (kern_vend : ℕ) (s : PagePool) (q : ℕ)
    → kern_vend ≤ q * 4096
    → 0x8000_0000 ≤ q * 4096
    → q * 4096 < 0x80E0_0000
    → kfree_pages kern_vend s (q * 4096) ≡ ok (freed s (q * 4096))
unfolding kfree_pages
kfree_pages_lem kern_vend s q h low high = ground arith

freed-IsPool : (s : PagePool) (v n : ℕ) → IsPool s v n → IsPool (freed s ((v + n) * 4096)) v (suc n)
freed-IsPool s v n w =
    let p = (v + n) * 4096 in
    let words = (freed s p).words in
    let here : words p ≡ s.freemem = ground arith in
    record {
      linked = (
        refl,
        subst (λ (x : ℕ). IsLinked words x (pages v n)) (sym here)
            (IsLinked-frame v n s.words words s.freemem (λ j l. ground arith) w.linked),
      );
      zeroed = λ a from below part. elim (dec_lt a p) [
        | yes old ↦ ground (arith, w.zeroed a from old part)
        | no new ↦ let other : a ≢ p = λ e. part (omega (arith, e)) in ground (arith, other)
      ];
    }

free_range_lem :
    (m fuel kern_vend : ℕ) (s : PagePool) (v n vend : ℕ)
    → m < fuel
    → kern_vend ≤ v * 4096
    → 0x8000_0000 ≤ v * 4096
    → (v + n + m) * 4096 ≤ vend
    → vend < (v + n + m + 1) * 4096
    → vend < 0x80E0_0000
    → IsPool s v n
    → (s' : PagePool) × (free_range fuel kern_vend s ((v + n) * 4096) vend ≡ ok s')
      × IsPool s' v (n + m)
unfolding free_range
free_range_lem m zero kern_vend s v n vend f k low from to high w = absurd (omega arith)
free_range_lem zero (suc fuel) kern_vend s v n vend f k low from to high w =
    (s, ground arith, subst (λ (x : ℕ). IsPool s v x) {x = n} {y = n + 0} (omega arith) w)
free_range_lem (suc m) (suc fuel) kern_vend s v n vend f k low from to high w =
    let p = (v + n) * 4096 in
    let next : (p + 4096) % 2 ^ 32 ≡ (v + suc n) * 4096 = omega arith in
    let did = kfree_pages_lem kern_vend s (v + n) (omega arith) (omega arith) (omega arith) in
    let (s', done, pool) =
      free_range_lem m fuel kern_vend (freed s p) v (suc n) vend (omega arith) k low (omega arith)
        (omega arith) high (freed-IsPool s v n w) in
    (
      s',
      rw next (rw did (ground (arith, done))),
      subst (λ (x : ℕ). IsPool s' v x) {x = suc n + m} {y = n + suc m} (omega arith) pool,
    )

kalloc_pages-linked :
    (s : PagePool) (v m asked : ℕ)
    → 0 < v
    → IsLinked s.words s.freemem (pages v (suc m))
    → ((kalloc_pages s asked).1 ≡ (v + m) * 4096)
      × IsLinked (kalloc_pages s asked).0.words (kalloc_pages s asked).0.freemem (pages v m)
unfolding kalloc_pages
kalloc_pages-linked s v m asked pos w =
    let some_page : s.freemem ≢ 0 = λ e. omega (arith, e, w.0) in
    let test : (s.freemem == 0) ≡ false = ground (arith, some_page) in
    (w.0, rw test (subst (λ (x : ℕ). IsLinked s.words (s.words x) (pages v m)) (sym w.0) w.1))

-- An empty pool at the start of the core, with the kernel's end below the first whole page `v`, from
-- 0x8000_0000 on, of the free space, which ends in page `v + m + 1` and below 0x80E0_0000, and
-- more fuel than pages: the pool then links the `m + 1` whole pages, each of them zero but for its
-- link, and the next request gets the last of them and leaves the others linked.
pub core_init_memory-IsPool :
    (fuel : ℕ) (zones : List MemoryZone) (page_dir : ℕ → ℕ) (s : PagePool)
    (kern_vend core_space_end free_start free_end v m asked : ℕ)
    → m + 1 < fuel
    → s.freemem ≡ 0
    → free_start ≤ v * 4096
    → v * 4096 < free_start + 4096
    → kern_vend ≤ v * 4096
    → 0x8000_0000 ≤ v * 4096
    → (v + (m + 1)) * 4096 ≤ free_end
    → free_end < (v + (m + 1) + 1) * 4096
    → free_end < 0x80E0_0000
    → (pool : PagePool) × (core_init_memory fuel zones page_dir s kern_vend core_space_end
          free_start free_end
        ≡ ok (
          pool,
          first_page_dir page_dir (memory_end_of zones) core_space_end,
          memory_end_of zones,
        ))
      × IsPool pool v (m + 1)
      × ((kalloc_pages pool asked).1 ≡ (v + m) * 4096)
      × IsLinked (kalloc_pages pool asked).0.words (kalloc_pages pool asked).0.freemem (pages v m)
unfolding core_init_memory
core_init_memory-IsPool fuel zones page_dir s kern_vend core_space_end free_start free_end v m asked
      f none up down k low from to high =
    let start : frame ((free_start + 4095) % 2 ^ 32) ≡ (v + 0) * 4096 = omega arith in
    let (pool, done, w) =
      free_range_lem (m + 1) fuel kern_vend s v 0 free_end f k low (omega arith) (omega arith) high
        (record { linked = none; zeroed = λ a le lt part. absurd (omega arith) }) in
    let all : IsPool pool v (suc m) = subst (λ (x : ℕ). IsPool pool v x) (omega arith) w in
    let (got, rest) = kalloc_pages-linked pool v m asked (omega arith) all.linked in
    (
      pool,
      rw start (rw done refl),
      subst (λ (x : ℕ). IsPool pool v x) {x = suc m} (omega arith) all,
      got,
      rest,
    )
