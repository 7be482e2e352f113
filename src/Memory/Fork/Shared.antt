-- ===== src/Memory/Fork/Shared.antt =====
-- The pages that kernel/modules/memory/fork.c shares: they are where they were, and read-only.
use omocha_os.Base.{
  ℕ, zero, suc, ◌+◌, ◌*◌, ◌%◌, ◌^◌, ◌<◌, ◌≡◌, refl, sym, ap, ap₂, subst, ◌∙◌, true, false, ◌==◌,
  ltb, if◌then◌else◌, arith, ℕ_discrete,
}
use omocha_os.Base.Flags.{has}
use omocha_os.Core.Paging.{vir2phy}
use omocha_os.Core.Process.{update}
use omocha_os.Core.Run.{ok}
use omocha_os.Memory.Buddy.{Page, MemoryInfo, id_of}
use omocha_os.Memory.Paging.{PageMemory, get_pte, increase_page_ref, set_reference}
use omocha_os.Memory.Fork.{share_page, share_pages}
use omocha_os.Memory.Fork.Entries.{
  Alike, Alike-refl, Alike-trans, vir2phy-Alike, get_pte-Alike, share_page-Alike,
  share_page-cleared,
}

-- How many of the `n` pages from `va` on are page `i` of the allocator.
abbrev pub uses : (n : ℕ) → MemoryInfo → (ℕ → ℕ) → (pg_dir va i : ℕ) → ℕ
uses zero mem words pg_dir va i = 0
uses (suc n) mem words pg_dir va i =
    (if id_of mem (vir2phy words pg_dir va) == i then 1 else 0)
    + uses n mem words pg_dir (va + 4096) i

uses-Alike :
    (n : ℕ) (mem : MemoryInfo) (words words' : ℕ → ℕ) (pg_dir va i : ℕ)
    → ((a : ℕ) → Alike (words a) (words' a))
    → uses n mem words' pg_dir va i ≡ uses n mem words pg_dir va i
uses-Alike zero mem words words' pg_dir va i alike = refl
uses-Alike (suc n) mem words words' pg_dir va i alike =
    ap₂ (λ (x y : ℕ). (if id_of mem x == i then 1 else 0) + y)
      (vir2phy-Alike words words' pg_dir va alike)
      (uses-Alike n mem words words' pg_dir (va + 4096) i alike)

one_more :
    (f : ℕ → Page) (j i : ℕ)
    → (f i).reference < 2 ^ 32
    → (update f j (record (f j) { reference = ((f j).reference + 1) % 2 ^ 32 }) i).reference
      ≡ ((f i).reference + (if j == i then 1 else 0)) % 2 ^ 32
one_more f j i h = elim (ℕ_discrete i j) [
  | yes here ↦
      let same : (f j).reference ≡ (f i).reference = ap (λ (k : ℕ). (f k).reference) (sym here) in
      let there : (i == j) ≡ true = ground arith in
      let back : (j == i) ≡ true = ground arith in rw there (rw back (omega (arith, same)))
  | no other ↦
      let there : (i == j) ≡ false = ground arith in
      let back : (j == i) ≡ false = ground arith in rw there (rw back (omega arith))
]

share_page-reference :
    (s : PageMemory) (pg_dir va i : ℕ)
    → (s.mem.pages_info i).reference < 2 ^ 32
    → ((share_page s pg_dir va).mem.pages_info i).reference
      ≡ ((s.mem.pages_info i).reference
          + (if id_of s.mem (vir2phy s.words pg_dir va) == i then 1 else 0))
        % 2 ^ 32
unfolding share_page increase_page_ref set_reference
share_page-reference s pg_dir va i h =
    one_more s.mem.pages_info (id_of s.mem (vir2phy s.words pg_dir va)) i h

uses-share_page :
    (n : ℕ) (s : PageMemory) (pg_dir va at i : ℕ)
    → uses n (share_page s pg_dir va).mem s.words pg_dir at i ≡ uses n s.mem s.words pg_dir at i
unfolding share_page increase_page_ref set_reference
uses-share_page zero s pg_dir va at i = refl
uses-share_page (suc n) s pg_dir va at i =
    ap (λ (x : ℕ). (if id_of s.mem (vir2phy s.words pg_dir at) == i then 1 else 0) + x)
      (uses-share_page n s pg_dir va (at + 4096) i)

-- What `n` rounds from `va` on do.
abbrev pub Shared : (n : ℕ) → (s s' : PageMemory) → (pg_dir va : ℕ) → Type 0
Shared n s s' pg_dir va =
    ((a : ℕ) → Alike (s.words a) (s'.words a))
    × ((j : ℕ) → j < n → has (s'.words (get_pte s.words pg_dir (va + j * 4096))) 2 ≡ false)
    × ((i : ℕ)
        → (s.mem.pages_info i).reference < 2 ^ 32
        → (s'.mem.pages_info i).reference
          ≡ ((s.mem.pages_info i).reference + uses n s.mem s.words pg_dir va i) % 2 ^ 32)

Shared-step :
    (n : ℕ) (s s' : PageMemory) (pg_dir va : ℕ)
    → ((c : ℕ) → s.words c < 2 ^ 32)
    → Shared n (share_page s pg_dir va) s' pg_dir (va + 4096)
    → Shared (suc n) s s' pg_dir va
Shared-step n s s' pg_dir va words (alike, cleared, counted) =
    ((λ a. Alike-trans (first a) (alike a)), read_only, references)
  where
    next : PageMemory
    next = share_page s pg_dir va

    first : (a : ℕ) → Alike (s.words a) (next.words a)
    first a = share_page-Alike s pg_dir va a words

    read_only :
        (j : ℕ) → j < suc n → has (s'.words (get_pte s.words pg_dir (va + j * 4096))) 2 ≡ false
    read_only zero l =
        subst (λ (v : ℕ). has (s'.words (get_pte s.words pg_dir v)) 2 ≡ false) {x = va}
          {y = va + 0 * 4096} (omega arith)
          ((alike (get_pte s.words pg_dir va)).kept (share_page-cleared s pg_dir va))
    read_only (suc j) l =
        subst (λ (a : ℕ). has (s'.words a) 2 ≡ false)
          (ap (get_pte next.words pg_dir) (omega arith)
            ∙ get_pte-Alike s.words next.words pg_dir (va + suc j * 4096) first)
          (cleared j (omega arith))

    references :
        (i : ℕ)
        → (s.mem.pages_info i).reference < 2 ^ 32
        → (s'.mem.pages_info i).reference
          ≡ ((s.mem.pages_info i).reference + uses (suc n) s.mem s.words pg_dir va i) % 2 ^ 32
    references i h =
        let one = share_page-reference s pg_dir va i h in
        let rest =
          uses-Alike n next.mem s.words next.words pg_dir (va + 4096) i first
          ∙ uses-share_page n s pg_dir va (va + 4096) i in
        omega (arith, counted i (omega (arith, one)), one, rest)

share_pages_lem :
    (n fuel : ℕ) (s : PageMemory) (pg_dir va : ℕ)
    → n < fuel
    → va + n * 4096 < 2 ^ 32
    → ((c : ℕ) → s.words c < 2 ^ 32)
    → (s' : PageMemory) × (share_pages fuel s pg_dir va (va + n * 4096) ≡ ok s')
      × Shared n s s' pg_dir va
unfolding share_pages
share_pages_lem n zero s pg_dir va f h words = absurd (omega arith)
share_pages_lem zero (suc fuel) s pg_dir va f h words = (
  s,
  ground arith,
  ((λ a. Alike-refl (s.words a) (words a)), (λ j l. absurd (omega arith)), λ i r. omega arith),
)
share_pages_lem (suc n) (suc fuel) s pg_dir va f h words =
    let next = share_page s pg_dir va in
    let (s', run, shared) =
      share_pages_lem n fuel next pg_dir (va + 4096) (omega arith) (omega arith)
        (λ a. (share_page-Alike s pg_dir va a words).word) in
    let more : ltb va (va + suc n * 4096) ≡ true = ground arith in
    let step : (va + 4096) % 2 ^ 32 ≡ va + 4096 = omega arith in
    let end : va + suc n * 4096 ≡ va + 4096 + n * 4096 = omega arith in
    (s', rw more (rw step (rw end run)), Shared-step n s s' pg_dir va words shared)

-- For words of 32 bits, `n` pages from `va` on, which end below 2^32, and more fuel than pages, the
-- sharing of these pages ends: then every address of the directory has the place it had, none of the
-- `n` pages can be written to, and the reference count of each page of the allocator, modulo 2^32,
-- has grown by the number of the `n` pages that it is.
pub share_pages-vir2phy :
    (n fuel : ℕ) (s : PageMemory) (pg_dir va : ℕ)
    → n < fuel
    → va + n * 4096 < 2 ^ 32
    → ((c : ℕ) → s.words c < 2 ^ 32)
    → (s' : PageMemory) × (share_pages fuel s pg_dir va (va + n * 4096) ≡ ok s')
      × ((v : ℕ) → vir2phy s'.words pg_dir v ≡ vir2phy s.words pg_dir v)
      × ((j : ℕ) → j < n → has (s'.words (get_pte s'.words pg_dir (va + j * 4096))) 2 ≡ false)
      × ((i : ℕ)
          → (s.mem.pages_info i).reference < 2 ^ 32
          → (s'.mem.pages_info i).reference
            ≡ ((s.mem.pages_info i).reference + uses n s.mem s.words pg_dir va i) % 2 ^ 32)
share_pages-vir2phy n fuel s pg_dir va f h words =
    let (s', run, shared) = share_pages_lem n fuel s pg_dir va f h words in
    let (alike, cleared, counted) = shared in
    (
      s',
      run,
      (λ v. vir2phy-Alike s.words s'.words pg_dir v alike),
      (λ j l.
          subst (λ (a : ℕ). has (s'.words a) 2 ≡ false)
            (sym (get_pte-Alike s.words s'.words pg_dir (va + j * 4096) alike)) (cleared j l)),
      counted,
    )
