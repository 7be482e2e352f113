-- ===== src/Memory/Init/Tests.antt =====
-- `init_memory` of a machine of 32 MB whose kernel ends at 16 MB.
use omocha_os.Base.{ℕ, ◌+◌, ◌*◌, ◌^◌, ◌≤◌, ◌≡◌, refl, [], ◌∷◌, arith}
use omocha_os.Core.Run.{ok}
use omocha_os.Memory.Buddy.{Link, MemoryInfo, head_of, allocate_pages_of_power_2}
use omocha_os.Memory.Buddy.Stock.{free_pages}
use omocha_os.Memory.Init.{usable_end_of, init_memory, page_count, buddy_bytes}
use omocha_os.Memory.Init.Chain.{IsChain, at_top}
use omocha_os.Memory.Init.Blocks.{init_memory-blocks, init_memory-allocate}

abbrev no_links : ℕ → Link
no_links a = record { prev = 7; next = 9 }

usable : usable_end_of 0x100_0000 0x200_0000 ≡ 0x1C0_0000
unfolding usable_end_of page_count buddy_bytes
usable = refl

init_memory-blocks_example :
    (mem : MemoryInfo) × (init_memory 4 0x100_0000 0x200_0000 no_links ≡ ok mem)
    × IsChain mem.links 0 (head_of mem 10) (0x180_0000 ∷ 0x140_0000 ∷ 0x100_0000 ∷ [])
    × (mem.free_count ≡ at_top 3)
    × (free_pages mem ≡ 3072)
init_memory-blocks_example =
    init_memory-blocks 4 3 4 0x200_0000 no_links (omega arith) (omega arith) usable

init_memory-allocate_example :
    (mem : MemoryInfo) × (mem' : MemoryInfo) × (block : ℕ) × (init_memory 4 0x100_0000 0x200_0000
        no_links
      ≡ ok mem)
    × (allocate_pages_of_power_2 12 mem 3 32 ≡ ok (mem', block))
    × (0x100_0000 ≤ block)
    × (block + 2 ^ 3 * 4096 ≤ 0x1C0_0000)
    × (free_pages mem' + 2 ^ 3 ≡ 3072)
init_memory-allocate_example =
    init_memory-allocate 4 3 4 0x200_0000 3 32 no_links (omega arith) (omega arith) (omega arith)
      usable (omega arith) (omega arith)
