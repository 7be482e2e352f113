-- ===== src/Memory/Init/Blocks.antt =====
-- The free list after `init_memory` of kernel/modules/memory/memory_init.c.
use omocha_os.Base.{
  ℕ, zero, suc, ◌+◌, ◌-◌, ◌*◌, ◌%◌, ◌<◌, ◌≤◌, ◌^◌, ◌≡◌, refl, ap, ◌∙◌, List, [], ◌∷◌, sym, subst,
  ap₂, get_or, set, length, replicate, ◌++◌, arith,
}
use native.Mathlib.Nat.{pow-le-pow_right}
use omocha_os.Core.Run.{ok}
use omocha_os.Memory.Buddy.{
  Link, MemoryInfo, head_of, count_of, attach_to_free_list, allocate_pages_of_power_2,
}
use omocha_os.Memory.Buddy.Stock.{pages_in, free_pages}
use omocha_os.Memory.Buddy.Take.{upper_part, allocate_pages_of_power_2-Taken}
use omocha_os.Memory.Init.{
  max_block_size, usable_end_of, add_max_block, add_blocks, no_blocks, init_memory, set_types,
  page_count,
}
use omocha_os.Memory.Init.Chain.{blocks, IsChain, at_top, linked, linked-IsChain}

-- `n` blocks from block `s` on are there.
record IsFilled (mem : MemoryInfo) (s n : ℕ) : Type 0 where
  counts : mem.free_count ≡ at_top n
  heads : mem.free_list ≡ at_top (head_of mem 10)
  chain : IsChain mem.links 0 (head_of mem 10) (blocks s n)

add_max_block_lem :
    (mem : MemoryInfo) (s n : ℕ)
    → 0 < s
    → n < 2 ^ 32 - 1
    → IsFilled mem s n
    → IsFilled (add_max_block mem ((s + n) * max_block_size)) s (suc n)
unfolding add_max_block attach_to_free_list linked
add_max_block_lem mem s n pos small w =
    let p = (s + n) * max_block_size in
    let count : (count_of mem 10 + 1) % 2 ^ 32 ≡ suc n =
      ap (λ (cs : List ℕ). (get_or cs 10 0 + 1) % 2 ^ 32) w.counts ∙ omega arith in
    let heads : set mem.free_list 10 p ≡ at_top p = ap (λ (l : List ℕ). set l 10 p) w.heads in
    let head : get_or (set mem.free_list 10 p) 10 0 ≡ p =
      ap (λ (l : List ℕ). get_or l 10 0) heads in
    record {
      counts = ap₂ (λ (cs : List ℕ) (c : ℕ). set cs 10 c) w.counts count;
      heads = heads ∙ ap at_top (sym head);
      chain =
          subst (λ (x : ℕ). IsChain (linked mem.links p (head_of mem 10)) 0 x (blocks s (suc n)))
            (sym head) (linked-IsChain s n mem.links (head_of mem 10) pos w.chain);
    }

add_max_block-usable_end :
    (mem : MemoryInfo) (p : ℕ) → (add_max_block mem p).usable_end ≡ mem.usable_end
unfolding add_max_block attach_to_free_list
add_max_block-usable_end mem p = refl

add_blocks_lem :
    (m fuel : ℕ) (mem : MemoryInfo) (s n : ℕ)
    → m < fuel
    → 0 < s
    → mem.usable_end ≡ (s + n + m) * max_block_size
    → (s + n + m) * max_block_size < 2 ^ 32
    → IsFilled mem s n
    → (mem' : MemoryInfo) × (add_blocks fuel mem ((s + n) * max_block_size) ≡ ok mem')
      × IsFilled mem' s (n + m)
      × (mem'.usable_end ≡ mem.usable_end)
unfolding add_blocks
add_blocks_lem m zero mem s n f pos end small w = absurd (omega arith)
add_blocks_lem zero (suc fuel) mem s n f pos end small w =
    let none : n + 0 ≡ n = omega arith in
    let all : mem.usable_end ≡ (s + n) * max_block_size = omega (arith, end) in
    (mem, ground (arith, all), rw none w, refl)
add_blocks_lem (suc m) (suc fuel) mem s n f pos end small w =
    let p = (s + n) * max_block_size in
    let more : n + suc m ≡ suc n + m = omega arith in
    let next : (p + max_block_size) % 2 ^ 32 ≡ (s + suc n) * max_block_size = omega arith in
    let (mem', done, filled, same) =
      add_blocks_lem m fuel (add_max_block mem p) s (suc n) (omega arith) pos
        (add_max_block-usable_end mem p ∙ end ∙ omega arith) (omega arith)
        (add_max_block_lem mem s n pos (omega arith) w) in
    (
      mem',
      rw next (ground (arith, end, done)),
      rw more filled,
      same ∙ add_max_block-usable_end mem p,
    )

no_blocks-IsFilled :
    (memory_start memory_end : ℕ) (links : ℕ → Link) (s : ℕ)
    → IsFilled (no_blocks memory_start memory_end links) s 0
unfolding no_blocks
no_blocks-IsFilled memory_start memory_end links s = record {
  counts = refl;
  heads = refl;
  chain = refl;
}

ends :
    (memory_start memory_end : ℕ) (links : ℕ → Link)
    → (no_blocks memory_start memory_end links).usable_end ≡ usable_end_of memory_start memory_end
unfolding no_blocks
ends memory_start memory_end links = refl

usable_end_of-lt : (memory_start memory_end : ℕ) → usable_end_of memory_start memory_end < 2 ^ 32
unfolding usable_end_of
usable_end_of-lt memory_start memory_end = omega arith

-- `init_memory` for a start at block `s`, 1 or more, of 4 MB and a usable end `n` blocks behind it,
-- with more fuel than blocks: it ends, the list of the highest order links the `n` blocks between
-- start and end both ways, the last one first, and all free pages are those of the blocks.
pub init_memory-blocks :
    (s n fuel memory_end : ℕ) (links : ℕ → Link)
    → 0 < s
    → n < fuel
    → usable_end_of (s * max_block_size) memory_end ≡ (s + n) * max_block_size
    → (mem : MemoryInfo) × (init_memory fuel (s * max_block_size) memory_end links ≡ ok mem)
      × IsChain mem.links 0 (head_of mem 10) (blocks s n)
      × (mem.free_count ≡ at_top n)
      × (free_pages mem ≡ n * 1024)
unfolding init_memory
init_memory-blocks s n fuel memory_end links pos f end =
    let start = s * max_block_size in
    let empty = no_blocks start memory_end links in
    let first : (s + 0) * max_block_size ≡ start = omega arith in
    let (mem, done, w, same) =
      add_blocks_lem n fuel empty s 0 f pos (ends start memory_end links ∙ end ∙ omega arith)
        (omega (arith, end, usable_end_of-lt start memory_end))
        (no_blocks-IsFilled start memory_end links s) in
    let filled : IsFilled mem s n = subst (λ (x : ℕ). IsFilled mem s x) {y = n} (omega arith) w in
    let pages = set_types (page_count start memory_end) start mem.usable_end 0 mem.pages_info in
    (
      record mem { pages_info = pages },
      ground (arith, ap (add_blocks fuel empty) first, done),
      filled.chain,
      filled.counts,
      ap (pages_in 1) filled.counts ∙ omega arith,
    )

top_block : (order : ℕ) → order < 11 → 2 ^ (order + (10 - order)) ≡ 1024
top_block order h = let all : order + (10 - order) ≡ 10 = omega arith in ap (λ (i : ℕ). 2 ^ i) all

get_or-zeros : (k i : ℕ) (xs : List ℕ) → i < k → get_or (replicate k 0 ++ xs) i 0 ≡ 0
get_or-zeros zero i xs h = absurd (omega arith)
get_or-zeros (suc k) zero xs h = refl
get_or-zeros (suc k) (suc i) xs h = get_or-zeros k i xs (omega arith)

below_top : (n i : ℕ) → i < 10 → get_or (at_top n) i 0 ≡ 0
below_top n i h = get_or-zeros 10 i (n ∷ []) h

count_at_top :
    (mem : MemoryInfo) (n i : ℕ) → mem.free_count ≡ at_top n → i < 10 → count_of mem i ≡ 0
count_at_top mem n i e h = ap (λ (cs : List ℕ). get_or cs i 0) e ∙ below_top n i h

first_block :
    (s n : ℕ) (links : ℕ → Link) (head : ℕ)
    → 0 < n
    → IsChain links 0 head (blocks s n)
    → head ≡ (s + (n - 1)) * max_block_size
first_block s zero links head h w = absurd (omega arith)
first_block s (suc n) links head h w = w.0 ∙ omega arith

-- Behind `init_memory`, for a start at block `s`, 1 or more, of 4 MB and a usable end `n` blocks
-- behind it, `n` 1 or more, 4 MB or more below 4 GB, a request of any order below 11 gets a block
-- of its size that lies between start and end, and the free pages are fewer by its pages.
pub init_memory-allocate :
    (s n fuel memory_end order attr : ℕ) (links : ℕ → Link)
    → 0 < s
    → 0 < n
    → n < fuel
    → usable_end_of (s * max_block_size) memory_end ≡ (s + n) * max_block_size
    → (s + n + 1) * max_block_size ≤ 2 ^ 32
    → order < 11
    → (mem : MemoryInfo) × (mem' : MemoryInfo) × (block : ℕ) × (init_memory fuel
          (s * max_block_size)
          memory_end
          links
        ≡ ok mem)
      × (allocate_pages_of_power_2 12 mem order attr ≡ ok (mem', block))
      × (s * max_block_size ≤ block)
      × (block + 2 ^ order * 4096 ≤ (s + n) * max_block_size)
      × (free_pages mem' + 2 ^ order ≡ n * 1024)
init_memory-allocate s n fuel memory_end order attr links pos some_blocks f end small low =
    let (mem, done, chain, counts, pages) =
      init_memory-blocks s n fuel memory_end links pos f end in
    let j = 10 - order in
    let top : order + j ≡ 10 = omega arith in
    let head : head_of mem (order + j) ≡ (s + (n - 1)) * max_block_size =
      ap (head_of mem) top ∙ first_block s n mem.links (head_of mem 10) some_blocks chain in
    let count : count_of mem (order + j) ≡ n =
      ap (count_of mem) top ∙ ap (λ (cs : List ℕ). get_or cs 10 0) counts in
    let size = top_block order low in
    let (mem', got, t) =
      allocate_pages_of_power_2-Taken j 12 mem order attr (omega arith) (omega arith)
        (ap length counts) (λ i l. count_at_top mem n (order + i) counts (omega arith))
        (λ e. omega (arith, e, count)) (omega (arith, count)) (λ e. omega (arith, e, head))
        (omega (arith, head)) in
    let fits : 2 ^ order ≤ 1024 =
      pow-le-pow_right {n = 2} (omega arith) {i = order} {j = 10} (omega arith) in
    (
      mem,
      mem',
      upper_part (head_of mem (order + j)) order j,
      done,
      got,
      omega (arith, head),
      omega (arith, head, size, fits),
      t.pages ∙ pages,
    )
