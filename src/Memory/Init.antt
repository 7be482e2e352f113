-- ===== src/Memory/Init.antt =====
-- `init_memory` of kernel/modules/memory/memory_init.c: the buddy allocator at its start. What the
-- loop writes through the `next` of the first block goes to address 0.
pub mod Chain
pub mod Blocks
mod Tests
use omocha_os.Base.{
  ℕ, zero, suc, ◌+◌, ◌-◌, ◌*◌, ◌/◌, ◌%◌, ◌^◌, List, [], ◌∷◌, replicate, ltb, if◌then◌else◌,
}
use omocha_os.Core.Process.{update}
use omocha_os.Core.Run.{Run, ok, out_of_fuel, ◌>>=◌}
use omocha_os.Memory.Buddy.{
  Page, Link, MemoryInfo, max_order, head_of, count_of, set_count, attach_to_free_list,
}

-- The size of a block of the highest order.
abbrev pub max_block_size : ℕ
max_block_size = 0x40_0000

unfoldable pub page_count : (memory_start memory_end : ℕ) → ℕ
page_count memory_start memory_end = (memory_end + 2 ^ 32 - memory_start) % 2 ^ 32 / 4096

unfoldable pub buddy_bytes : (pg_count : ℕ) → ℕ
buddy_bytes pg_count = 2047 * pg_count % 2 ^ 32 / 2048 / 8

-- A page takes 8 bytes of information.
unfoldable pub usable_end_of : (memory_start memory_end : ℕ) → ℕ
unfolding page_count buddy_bytes
usable_end_of memory_start memory_end =
    let pg_count = page_count memory_start memory_end in
    (memory_end + 2 ^ 32 - buddy_bytes pg_count - pg_count * 8)
    % 2 ^ 32
    / max_block_size
    * max_block_size

-- The maps of the orders from `order` on, a bit for each pair of blocks.
unfoldable pub empty_maps : (rounds order pg_count : ℕ) → List (List ℕ)
empty_maps zero order pg_count = []
empty_maps (suc n) order pg_count =
    replicate ((pg_count / 2 ^ (order + 1) + 31) / 32) 0 ∷ empty_maps n (order + 1) pg_count

-- A block of the highest order at the front of its list.
unfoldable pub add_max_block : MemoryInfo → (pg : ℕ) → MemoryInfo
unfolding attach_to_free_list
add_max_block mem pg = set_count (attach_to_free_list mem pg 10) 10 ((count_of mem 10 + 1) % 2 ^ 32)

-- One round for each block, and one for the last test.
unfoldable pub add_blocks : ℕ → MemoryInfo → (pg : ℕ) → Run MemoryInfo
add_blocks zero mem pg = out_of_fuel
add_blocks (suc fuel) mem pg =
    let rest = add_blocks fuel (add_max_block mem pg) ((pg + max_block_size) % 2 ^ 32) in
    if ltb pg mem.usable_end then rest else ok mem

-- The types of the pages from `i` on. 0x11: free and usable, 0x24: in use by the system.
unfoldable pub set_types : (rounds : ℕ) → (memory_start usable_end i : ℕ) → (ℕ → Page) → ℕ → Page
set_types zero memory_start usable_end i pages = pages
set_types (suc n) memory_start usable_end i pages =
    let type = if ltb ((memory_start + i * 4096) % 2 ^ 32) usable_end then 0x11 else 0x24 in
    set_types n memory_start usable_end (i + 1) (update pages i (record (pages i) { type = type }))

-- Before the loops. The memory from `usable_end` on, where maps and page information lie, is zero.
unfoldable pub no_blocks : (memory_start memory_end : ℕ) → (ℕ → Link) → MemoryInfo
unfolding empty_maps
no_blocks memory_start memory_end links = record {
  free_list = replicate max_order 0;
  free_count = replicate max_order 0;
  buddy_map = empty_maps max_order 0 (page_count memory_start memory_end);
  memory_start = memory_start;
  usable_end = usable_end_of memory_start memory_end;
  pages_info = λ i. record { type = 0; reference = 0 };
  links = links;
}

unfoldable pub init_memory : ℕ → (memory_start memory_end : ℕ) → (ℕ → Link) → Run MemoryInfo
unfolding no_blocks
init_memory fuel memory_start memory_end links = do
  mem ← add_blocks fuel (no_blocks memory_start memory_end links) memory_start
  let n = page_count memory_start memory_end
  ok (record mem { pages_info = set_types n memory_start mem.usable_end 0 mem.pages_info })
