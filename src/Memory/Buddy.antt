-- ===== src/Memory/Buddy.antt =====
-- kernel/modules/memory/buddy.c: blocks of 2 ^ order pages. A free block holds the links of its
-- list; `links` gives them by address, and address 0 is NULL.
pub mod Stock
pub mod Take
pub mod Give
mod Tests
use omocha_os.Base.{
  ℕ, zero, suc, ◌+◌, ◌-◌, ◌*◌, ◌/◌, ◌%◌, ◌^◌, Bool, true, false, not, ◌==◌, ◌&&◌, ◌||◌, List, [],
  get_or, set, ltb, leb, if◌then◌else◌,
}
use omocha_os.Bitset.{xor_bit, check_bit}
use omocha_os.Core.Process.{update}
use omocha_os.Core.Run.{Run, ok, out_of_fuel, ◌>>=◌}

-- `struct page`
pub record Page : Type 0 where
  pub type : ℕ
  pub reference : ℕ

-- `block_list`
pub record Link : Type 0 where
  pub prev : ℕ
  pub next : ℕ

-- `struct memory_info`
pub record MemoryInfo : Type 0 where
  pub free_list : List ℕ
  pub free_count : List ℕ
  pub buddy_map : List (List ℕ)
  pub memory_start : ℕ
  pub usable_end : ℕ
  pub pages_info : ℕ → Page
  pub links : ℕ → Link

abbrev pub max_order : ℕ
max_order = 11

abbrev pub head_of : MemoryInfo → ℕ → ℕ
head_of mem order = get_or mem.free_list order 0

abbrev pub count_of : MemoryInfo → ℕ → ℕ
count_of mem order = get_or mem.free_count order 0

abbrev set_prev : (ℕ → Link) → ℕ → ℕ → ℕ → Link
set_prev links a v = update links a (record (links a) { prev = v })

abbrev set_next : (ℕ → Link) → ℕ → ℕ → ℕ → Link
set_next links a v = update links a (record (links a) { next = v })

abbrev pub set_count : MemoryInfo → ℕ → ℕ → MemoryInfo
set_count mem order n = record mem { free_count = set mem.free_count order n }

-- The list without `p`, whose links are cleared. The assertion in front of it, for a first block
-- that is not the head of its list, only prints: the task runs in ring 1. What is written through the `next` of the last
-- block goes to address 0.
unfoldable pub remove_from_free_list : MemoryInfo → (p order : ℕ) → MemoryInfo
remove_from_free_list mem p order =
    let l = mem.links p in
    let joined =
      if l.prev == 0
      then set_prev mem.links l.next 0
      else set_prev (set_next mem.links l.prev l.next) l.next l.prev in
    record mem {
      free_list = if l.prev == 0 then set mem.free_list order l.next else mem.free_list;
      links = update joined p (record { prev = 0; next = 0 });
    }

unfoldable pub attach_to_free_list : MemoryInfo → (p order : ℕ) → MemoryInfo
attach_to_free_list mem p order =
    let head = head_of mem order in
    record mem {
      free_list = set mem.free_list order p;
      links = set_prev (set_prev (set_next mem.links p head) head p) p 0;
    }

-- `GET_ID_BY_PAGE`
abbrev pub id_of : MemoryInfo → ℕ → ℕ
id_of mem p = (p + 2 ^ 32 - mem.memory_start) % 2 ^ 32 / 4096

-- The map with the bit of the pair of `p` changed, and that bit.
unfoldable pub xor_buddy_map : MemoryInfo → (p order : ℕ) → MemoryInfo × ℕ
xor_buddy_map mem p order =
    let i = id_of mem p / 2 ^ (order + 1) in
    let bits = xor_bit (get_or mem.buddy_map order []) i in
    (record mem { buddy_map = set mem.buddy_map order bits }, check_bit bits i)

-- Type and reference count of the `n` pages from `id` on.
unfoldable pub set_pages : ℕ → (ℕ → Page) → (id type reference : ℕ) → ℕ → Page
set_pages zero pages id type reference = pages
set_pages (suc n) pages id type reference =
    set_pages n (update pages id (record { type = type; reference = reference })) (id + 1) type
      reference

abbrev pub mark : MemoryInfo → (block order attr reference : ℕ) → MemoryInfo
mark mem block order attr reference = record mem {
  pages_info = set_pages (2 ^ order) mem.pages_info (id_of mem block) attr reference;
}

-- The lower half of `block` becomes a free block of `order`; the upper half is what is left.
unfoldable pub split : MemoryInfo → (block order : ℕ) → MemoryInfo × ℕ
unfolding attach_to_free_list xor_buddy_map
split mem block order =
    let attached = attach_to_free_list mem block order in
    let counted = set_count attached order ((count_of attached order + 1) % 2 ^ 32) in
    let upper = (block + 2 ^ order * 4096) % 2 ^ 32 in
    ((xor_buddy_map counted upper order).0, upper)

-- The first free block of `order`.
unfoldable pub take_first : MemoryInfo → ℕ → MemoryInfo × ℕ
unfolding remove_from_free_list xor_buddy_map
take_first mem order =
    let block = head_of mem order in
    let removed = remove_from_free_list mem block order in
    let counted = set_count removed order ((count_of removed order + 2 ^ 32 - 1) % 2 ^ 32) in
    ((xor_buddy_map counted block order).0, block)

-- One unit of fuel for each order. The result 0 says that no block is large enough.
unfoldable pub allocate_pages_of_power_2 : ℕ → MemoryInfo → (order attr : ℕ) → Run (MemoryInfo × ℕ)
allocate_pages_of_power_2 zero mem order attr = out_of_fuel
allocate_pages_of_power_2 (suc fuel) mem order attr =
    let larger = allocate_pages_of_power_2 fuel mem (order + 1) 0 in
    if leb max_order order
    then ok (mem, 0)
    else if count_of mem order == 0
    then (do
      (m1, block) ← larger
      if block == 0
          then ok (m1, 0)
          else (let (m2, upper) = split m1 block order in
              ok ((if upper == 0 then m2 else mark m2 upper order attr 1), upper)))
    else (do
      let (m1, block) = take_first mem order
      ok ((if block == 0 then m1 else mark m1 block order attr 1), block))

-- The neighbour of `p` with which it makes a block of the next order.
abbrev buddy_of : MemoryInfo → (p order : ℕ) → ℕ
buddy_of mem p order =
    let page_idx = id_of mem p in
    if page_idx == page_idx / 2 ^ (order + 1) * 2 ^ (order + 1)
    then (p + 2 ^ order * 4096) % 2 ^ 32
    else (p + 2 ^ 32 - 2 ^ order * 4096) % 2 ^ 32

-- The result is 1 for NULL and 2 for a block outside the memory. 17: a usable free page.
unfoldable pub free_pages_of_power_2 : ℕ → MemoryInfo → (p order : ℕ) → Run (MemoryInfo × ℕ)
free_pages_of_power_2 zero mem p order = out_of_fuel
free_pages_of_power_2 (suc fuel) mem p order =
    let (m1, buddy_bit) = xor_buddy_map mem p order in
    let buddy = buddy_of mem p order in
    let merged = (do
      let m2 = remove_from_free_list m1 buddy order
      let m3 = set_count m2 order ((count_of m2 order + 2 ^ 32 - 1) % 2 ^ 32)
      (m4, r) ← free_pages_of_power_2 fuel m3 (if ltb buddy p then buddy else p) (order + 1)
      ok (m4, 0)) in
    let m2 = mark (attach_to_free_list m1 p order) p order 17 0 in
    if p == 0
    then ok (mem, 1)
    else if not (leb mem.memory_start p && leb p mem.usable_end)
    then ok (mem, 2)
    else if (buddy_bit == 0) && ltb (order + 1) max_order
    then merged
    else ok (set_count m2 order ((count_of m2 order + 1) % 2 ^ 32), 0)
