-- ===== src/Memory/Buddy/Give.antt =====
-- What `free_pages_of_power_2` of kernel/modules/memory/buddy.c gives back.
use omocha_os.Base.{
  ℕ, suc, ◌+◌, ◌^◌, ◌%◌, ◌<◌, ◌≤◌, ◌≡◌, ◌≢◌, refl, ap, ◌∙◌, get_or, set, get_or-set_self, length,
  arith, List,
}
use omocha_os.Core.Run.{ok}
use omocha_os.Memory.Buddy.{
  MemoryInfo, head_of, count_of, max_order, mark, set_count, attach_to_free_list, xor_buddy_map,
  allocate_pages_of_power_2, free_pages_of_power_2,
}
use omocha_os.Memory.Buddy.Stock.{pages_in, free_pages, pages_in-add}
use omocha_os.Memory.Buddy.Take.{alloc_first, taken}

-- The state behind a block that finds no free buddy.
abbrev given : MemoryInfo → (p order : ℕ) → MemoryInfo
given mem p order =
    let m = mark (attach_to_free_list (xor_buddy_map mem p order).0 p order) p order 17 0 in
    set_count m order ((count_of m order + 1) % 2 ^ 32)

given_fields :
    (mem : MemoryInfo) (p order : ℕ)
    → ((given mem p order).free_count
        ≡ set mem.free_count order ((count_of mem order + 1) % 2 ^ 32))
      × ((given mem p order).free_list ≡ set mem.free_list order p)
unfolding attach_to_free_list xor_buddy_map
given_fields mem p order = (refl, refl)

-- A block of the managed memory, not NULL, whose buddy is in use becomes free: there are as many
-- pages more as it has, and the next request of its order gets this block. There are 11 orders,
-- and the count of this one does not overflow.
pub allocate_pages_of_power_2-free_pages_of_power_2 :
    (fuel : ℕ) (mem : MemoryInfo) (p order attr : ℕ)
    → p ≢ 0
    → mem.memory_start ≤ p
    → p ≤ mem.usable_end
    → (xor_buddy_map mem p order).1 ≢ 0
    → order < max_order
    → length mem.free_count ≡ max_order
    → length mem.free_list ≡ max_order
    → count_of mem order + 1 < 2 ^ 32
    → (m1 : MemoryInfo) × (m2 : MemoryInfo) × (free_pages_of_power_2 (suc fuel) mem p order
        ≡ ok (m1, 0))
      × (free_pages m1 ≡ free_pages mem + 2 ^ order)
      × (allocate_pages_of_power_2 (suc fuel) m1 order attr ≡ ok (m2, p))
unfolding free_pages_of_power_2
allocate_pages_of_power_2-free_pages_of_power_2 fuel mem p order attr nz from to used low counts
      lists small =
    let m1 = given mem p order in
    let (count, list) = given_fields mem p order in
    let one : (count_of mem order + 1) % 2 ^ 32 ≡ count_of mem order + 1 = omega arith in
    let more : m1.free_count ≡ set mem.free_count order (count_of mem order + 1) =
      count ∙ ap (set mem.free_count order) one in
    let held : count_of m1 order ≡ count_of mem order + 1 =
      ap (λ (cs : List ℕ). get_or cs order 0) more
      ∙ get_or-set_self mem.free_count order _ 0 (omega arith) in
    let head : head_of m1 order ≡ p =
      ap (λ (cs : List ℕ). get_or cs order 0) list
      ∙ get_or-set_self mem.free_list order p 0 (omega arith) in
    let next = mark (taken m1 order) (head_of m1 order) order attr 1 in
    (
      m1,
      next,
      ground arith,
      ap (pages_in 1) more ∙ pages_in-add mem.free_count order (omega arith),
      alloc_first fuel m1 order attr low (omega (arith, held)) (omega (arith, head))
          ∙ ap (λ (b : ℕ). ok (next, b)) head,
    )
