-- ===== src/Memory/Buddy/Take.antt =====
-- What `allocate_pages_of_power_2` of kernel/modules/memory/buddy.c takes.
use omocha_os.Base.{
  ℕ, zero, suc, ◌+◌, ◌-◌, ◌*◌, ◌%◌, ◌^◌, ◌<◌, ◌≤◌, ◌≡◌, ◌≢◌, refl, sym, ap, ◌∙◌, List, get_or, set,
  get_or-set_ne, length, length-set, arith, ℕ_discrete,
}
use native.Mathlib.Nat.{pow-suc, pow-le-pow_right}
use omocha_os.Core.Run.{ok}
use omocha_os.Memory.Buddy.{
  MemoryInfo, head_of, count_of, max_order, mark, set_count, remove_from_free_list,
  attach_to_free_list, xor_buddy_map, split, take_first, allocate_pages_of_power_2,
}
use omocha_os.Memory.Buddy.Stock.{pages_in, free_pages, pages_in-add, pages_in-remove}

-- The free pages are fewer by one block of `order`, and the smaller blocks are left alone.
pub record Taken (mem mem' : MemoryInfo) (order : ℕ) : Type 0 where
  pub pages : free_pages mem' + 2 ^ order ≡ free_pages mem
  pub smaller : (i : ℕ) → i < order → count_of mem' i ≡ count_of mem i
  pub orders : length mem'.free_count ≡ length mem.free_count

-- The state behind `take_first`.
abbrev pub taken : MemoryInfo → ℕ → MemoryInfo
taken mem order =
    let removed = remove_from_free_list mem (head_of mem order) order in
    let counted = set_count removed order ((count_of mem order + 2 ^ 32 - 1) % 2 ^ 32) in
    (xor_buddy_map counted (head_of mem order) order).0

take_first_lem :
    (mem : MemoryInfo) (order : ℕ) → take_first mem order ≡ (taken mem order, head_of mem order)
unfolding take_first remove_from_free_list xor_buddy_map
take_first_lem mem order = elim (ℕ_discrete (mem.links (head_of mem order)).prev 0) [
  | yes first ↦ ground (arith, first)
  | no behind ↦ ground (arith, behind)
]

set_count-Taken :
    (mem mem' : MemoryInfo) (order c : ℕ)
    → mem'.free_count ≡ set mem.free_count order c
    → order < length mem.free_count
    → count_of mem order ≡ c + 1
    → Taken mem mem' order
set_count-Taken mem mem' order c e h was = record {
  pages =
      ap (λ (cs : List ℕ). pages_in 1 cs + 2 ^ order) e
      ∙ pages_in-remove mem.free_count order c h was;
  smaller = λ i l.
      ap (λ (cs : List ℕ). get_or cs i 0) e
      ∙ get_or-set_ne mem.free_count order i c 0 (omega arith);
  orders = ap length e ∙ length-set mem.free_count order c;
}

pow-next : (order : ℕ) → 2 ^ (order + 1) ≡ 2 ^ order + 2 ^ order
pow-next order = ap (λ (n : ℕ). 2 ^ n) {y = suc order} (omega arith) ∙ pow-suc 2 order ∙ omega arith

-- A block split off one of the next order.
split-Taken :
    (mem m1 m2 : MemoryInfo) (order : ℕ)
    → Taken mem m1 (order + 1)
    → m2.free_count ≡ set m1.free_count order ((count_of m1 order + 1) % 2 ^ 32)
    → order < length mem.free_count
    → count_of mem order ≡ 0
    → Taken mem m2 order
split-Taken mem m1 m2 order t e h none =
    let before : count_of m1 order ≡ 0 = t.smaller order (omega arith) ∙ none in
    let one : (count_of m1 order + 1) % 2 ^ 32 ≡ count_of m1 order + 1 = omega (arith, before) in
    let added : free_pages m2 ≡ free_pages m1 + 2 ^ order =
      ap (pages_in 1) (e ∙ ap (set m1.free_count order) one)
      ∙ pages_in-add m1.free_count order (omega (arith, t.orders)) in
    record {
      pages = omega (arith, added, t.pages, pow-next order);
      smaller = λ i l.
          ap (λ (cs : List ℕ). get_or cs i 0) e
          ∙ get_or-set_ne m1.free_count order i _ 0 (omega arith)
          ∙ t.smaller i (omega arith);
      orders = ap length e ∙ length-set m1.free_count order _ ∙ t.orders;
    }

-- The upper `2 ^ order` pages of a block of order `order + j`.
abbrev pub upper_part : (block order j : ℕ) → ℕ
upper_part block order j = block + 4096 * (2 ^ (order + j) - 2 ^ order)

split_upper :
    (block order j : ℕ)
    → block + 4096 * 2 ^ 11 ≤ 2 ^ 32
    → order + suc j < 11
    → (upper_part block (order + 1) j + 2 ^ order * 4096) % 2 ^ 32 ≡ upper_part block order (suc j)
split_upper block order j h k =
    let same : order + 1 + j ≡ order + suc j = omega arith in
    let small : 2 ^ (order + suc j) ≤ 2 ^ 10 =
      pow-le-pow_right {n = 2} (omega arith) {i = order + suc j} {j = 10} (omega arith) in
    let half : 2 ^ (order + 1) ≤ 2 ^ (order + suc j) =
      pow-le-pow_right {n = 2} (omega arith) {i = order + 1} {j = order + suc j} (omega arith) in
    let shift : 2 ^ (order + 1 + j) ≡ 2 ^ (order + suc j) = ap (λ (n : ℕ). 2 ^ n) same in
    omega (arith, shift, small, half, pow-next order)

pub alloc_first :
    (fuel : ℕ) (mem : MemoryInfo) (order attr : ℕ)
    → order < max_order
    → count_of mem order ≢ 0
    → head_of mem order ≢ 0
    → allocate_pages_of_power_2 (suc fuel) mem order attr
      ≡ ok (mark (taken mem order) (head_of mem order) order attr 1, head_of mem order)
unfolding allocate_pages_of_power_2
alloc_first fuel mem order attr low some nz = ground (arith, take_first_lem mem order)

alloc_split :
    (fuel : ℕ) (mem m1 : MemoryInfo) (order attr block : ℕ)
    → order < max_order
    → count_of mem order ≡ 0
    → block ≢ 0
    → allocate_pages_of_power_2 fuel mem (order + 1) 0 ≡ ok (m1, block)
    → (split m1 block order).1 ≢ 0
    → allocate_pages_of_power_2 (suc fuel) mem order attr
      ≡ ok (
        mark (split m1 block order).0 (split m1 block order).1 order attr 1,
        (split m1 block order).1,
      )
unfolding allocate_pages_of_power_2
alloc_split fuel mem m1 order attr block low none nz done upper = ground (arith, done)

taken_count :
    (mem : MemoryInfo) (order c : ℕ)
    → count_of mem order ≡ c + 1
    → count_of mem order < 2 ^ 32
    → (taken mem order).free_count ≡ set mem.free_count order c
unfolding remove_from_free_list xor_buddy_map
taken_count mem order c was small = ap (set mem.free_count order) (omega arith)

split_count :
    (m1 : MemoryInfo) (block order : ℕ)
    → ((split m1 block order).0.free_count
        ≡ set m1.free_count order ((count_of m1 order + 1) % 2 ^ 32))
      × ((split m1 block order).1 ≡ (block + 2 ^ order * 4096) % 2 ^ 32)
unfolding split attach_to_free_list xor_buddy_map
split_count m1 block order = (refl, refl)

-- A request takes the first block of the smallest order that has one, `j` orders up, and gets the
-- upper part of it; the free pages are fewer by the pages asked for, and the counts of smaller
-- orders stay. There are 11 orders, the count of that order is a 32-bit number, its first block is
-- not NULL and ends 8 MB or more below 2^32, and the fuel exceeds `j`.
pub allocate_pages_of_power_2-Taken :
    (j fuel : ℕ) (mem : MemoryInfo) (order attr : ℕ)
    → j < fuel
    → order + j < max_order
    → length mem.free_count ≡ max_order
    → ((i : ℕ) → i < j → count_of mem (order + i) ≡ 0)
    → count_of mem (order + j) ≢ 0
    → count_of mem (order + j) < 2 ^ 32
    → head_of mem (order + j) ≢ 0
    → head_of mem (order + j) + 4096 * 2 ^ 11 ≤ 2 ^ 32
    → (mem' : MemoryInfo) × (allocate_pages_of_power_2 fuel mem order attr
        ≡ ok (mem', upper_part (head_of mem (order + j)) order j))
      × Taken mem mem' order
allocate_pages_of_power_2-Taken j zero mem order attr room low orders none some small nz fits =
    absurd (omega arith)
allocate_pages_of_power_2-Taken zero (suc fuel) mem order attr room low orders none some small nz
      fits =
    let same : order + 0 ≡ order = omega arith in
    let count = ap (count_of mem) same in
    let head = ap (head_of mem) same in
    let was : count_of mem order ≡ count_of mem order - 1 + 1 = omega (arith, count) in
    let block : head_of mem order ≡ upper_part (head_of mem (order + 0)) order 0 =
      omega (arith, head, ap (λ (n : ℕ). 2 ^ n) same) in
    (
      mark (taken mem order) (head_of mem order) order attr 1,
      alloc_first fuel mem order attr (omega arith) (omega (arith, count)) (omega (arith, head))
          ∙ ap (λ (b : ℕ). ok (mark (taken mem order) (head_of mem order) order attr 1, b)) block,
      set_count-Taken mem _ order (count_of mem order - 1)
          (taken_count mem order (count_of mem order - 1) was (omega (arith, count))) (omega arith)
          was,
    )
allocate_pages_of_power_2-Taken (suc j) (suc fuel) mem order attr room low orders none some small nz
      fits =
    let same : order + 1 + j ≡ order + suc j = omega arith in
    let (m1, done, t) =
      allocate_pages_of_power_2-Taken j fuel mem (order + 1) 0 (omega arith) (omega arith) orders
        (λ i l. ap (count_of mem) (omega arith) ∙ none (suc i) (omega arith))
        (λ e. some (ap (count_of mem) (sym same) ∙ e)) (rw same small) (rw same nz)
        (rw same fits) in
    let head = head_of mem (order + suc j) in
    let block = upper_part (head_of mem (order + 1 + j)) (order + 1) j in
    let whole : block ≡ upper_part head (order + 1) j =
      ap (λ (n : ℕ). upper_part (head_of mem n) (order + 1) j) same in
    let (count, at) = split_count m1 block order in
    let upper : (split m1 block order).1 ≡ upper_part head order (suc j) =
      at
      ∙ ap (λ (b : ℕ). (b + 2 ^ order * 4096) % 2 ^ 32) whole
      ∙ split_upper head order j fits low in
    let zeroth : count_of mem order ≡ 0 = ap (count_of mem) (omega arith) ∙ none 0 (omega arith) in
    (
      mark (split m1 block order).0 (split m1 block order).1 order attr 1,
      alloc_split fuel mem m1 order attr block (omega arith) zeroth (omega (arith, whole)) done
            (omega (arith, upper))
          ∙ ap
              (λ (b : ℕ).
                ok (mark (split m1 block order).0 (split m1 block order).1 order attr 1, b))
              upper,
      split-Taken mem m1 _ order t count (omega arith) zeroth,
    )
