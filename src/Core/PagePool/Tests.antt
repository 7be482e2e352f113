-- ===== src/Core/PagePool/Tests.antt =====
-- The core of a kernel that ends at 0x8010_0000, with three pages and a half of free space.
use omocha_os.Base.{◌≡◌, refl, [], ◌∷◌, arith}
use omocha_os.Core.Run.{ok}
use omocha_os.Core.PagePool.{
  PagePool, kalloc_pages, memory_end_of, first_page_dir, core_init_memory, core_map_memory,
}
use omocha_os.Core.PagePool.Pages.{IsPool, IsLinked, core_init_memory-IsPool}

abbrev empty : PagePool
empty = record { freemem = 0; words = λ a. 5 }

-- Both entries have the same address.
same_page : core_map_memory 2 (λ a. 0) 0x100 0x5000 0x104 ≡ 0x5007
unfolding core_map_memory
same_page = refl

core_init_memory-IsPool_example :
    (pool : PagePool) × (core_init_memory 4 []
        (λ i. 0)
        empty
        0x8010_0000
        0x8100_0000
        0x8020_0000
        0x8020_3800
      ≡ ok (pool, first_page_dir (λ i. 0) (memory_end_of []) 0x8100_0000, memory_end_of []))
    × IsPool pool 0x8_0200 3
    × ((kalloc_pages pool 1).1 ≡ 0x8020_2000)
    × IsLinked
        (kalloc_pages pool 1).0.words
        (kalloc_pages pool 1).0.freemem
        (0x8020_1000 ∷ 0x8020_0000 ∷ [])
core_init_memory-IsPool_example =
    core_init_memory-IsPool 4 [] (λ i. 0) empty 0x8010_0000 0x8100_0000 0x8020_0000 0x8020_3800
      0x8_0200 2 1 (omega arith) refl (omega arith) (omega arith) (omega arith) (omega arith)
      (omega arith) (omega arith) (omega arith)
