-- ===== src/Memory/Paging/Tests.antt =====
-- A page directory in frame 5 with a page table in frame 6.
use omocha_os.Base.{
  ◌<◌, ◌+◌, ◌*◌, ℕ, zero, suc, ◌≡◌, ◌≢◌, refl, false, [], arith, if◌then◌else◌, ◌==◌,
}
use omocha_os.Base.Flags.{has}
use omocha_os.Core.Paging.{vir2phy}
use omocha_os.Core.Run.{ok}
use omocha_os.Memory.Buddy.{MemoryInfo}
use omocha_os.Memory.Paging.{PageMemory, map_pages}
use omocha_os.Memory.Paging.Map.{map_pages-vir2phy}

abbrev no_pages : MemoryInfo
no_pages = record {
  free_list = [];
  free_count = [];
  buddy_map = [];
  memory_start = 0x10_0000;
  usable_end = 0x10_0000;
  pages_info = λ i. record { type = 2; reference = 0 };
  links = λ a. record { prev = 0; next = 0 };
}

abbrev one_table : PageMemory
one_table = record { mem = no_pages; words = λ a. if a == 0x5004 then 0x6007 else 0 }

-- Two pages of the second region, from its fourth page on.
map_pages-vir2phy_example :
    (s' : PageMemory) × (map_pages 3 one_table 0x5000 0x40_3000 0x9000 0x2000 7 ≡ ok (s', 0))
    × (s'.mem ≡ no_pages)
    × (vir2phy s'.words 0x5000 0x40_4388 ≡ 0xA388)
    × (s'.words 0x5004 ≡ 0x6007)
unfolding has
map_pages-vir2phy_example =
    map_pages-vir2phy 3 one_table 5 1 6 3 9 2 7 5000 0x5004 (omega arith) (omega arith)
      (record {
        present = refl;
        small = refl;
        table = refl;
        nonzero = omega arith;
        apart = λ e. omega arith;
        region = omega arith;
      })
      free (omega arith) (omega arith) (omega arith) (omega arith) outside
  where
    free : (j : ℕ) → j < 2 → has (one_table.words (6 * 4096 + 4 * (3 + j))) 1 ≡ false
    free zero h = refl
    free (suc zero) h = refl
    free (suc (suc j)) h = absurd (omega arith)

    outside : (j : ℕ) → j < 2 → 0x5004 ≢ 6 * 4096 + 4 * (3 + j)
    outside j h e = omega arith
