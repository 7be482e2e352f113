-- ===== src/Memory/Fork/Tests.antt =====
-- A directory at 0x1000 with a table at 0x2000, and two pages at 0x5000 that are the same one.
use omocha_os.Base.{
  ℕ, ◌+◌, ◌*◌, ◌%◌, ◌^◌, ◌<◌, ◌≡◌, refl, false, [], ◌==◌, ◌||◌, if◌then◌else◌, arith,
}
use omocha_os.Base.Flags.{has}
use omocha_os.Core.Paging.{vir2phy}
use omocha_os.Core.Run.{ok}
use omocha_os.Memory.Paging.{PageMemory, get_pte}
use omocha_os.Memory.Fork.{share_pages}
use omocha_os.Memory.Fork.Shared.{uses, share_pages-vir2phy}

abbrev mapped : PageMemory
mapped = record {
  mem = record {
    free_list = [];
    free_count = [];
    buddy_map = [];
    memory_start = 0;
    usable_end = 0x10_0000;
    pages_info = λ i. record { type = 0x20; reference = 1 };
    links = λ a. record { prev = 0; next = 0 };
  };
  words = λ a. if a == 0x1000 then 0x2007 else if (a == 0x2000) || (a == 0x2004) then 0x5007 else 0;
}

mapped-word : (c : ℕ) → mapped.words c < 2 ^ 32
mapped-word c = ground arith

-- Both count.
twice : uses 2 mapped.mem mapped.words 0x1000 0 5 ≡ 2
unfolding vir2phy has
twice = refl

share_pages-vir2phy_example :
    (s' : PageMemory) × (share_pages 3 mapped 0x1000 0 (0 + 2 * 4096) ≡ ok s')
    × ((v : ℕ) → vir2phy s'.words 0x1000 v ≡ vir2phy mapped.words 0x1000 v)
    × ((j : ℕ) → j < 2 → has (s'.words (get_pte s'.words 0x1000 (0 + j * 4096))) 2 ≡ false)
    × ((i : ℕ)
        → 1 < 2 ^ 32
        → (s'.mem.pages_info i).reference
          ≡ (1 + uses 2 mapped.mem mapped.words 0x1000 0 i) % 2 ^ 32)
share_pages-vir2phy_example =
    share_pages-vir2phy 2 3 mapped 0x1000 0 (omega arith) (omega arith) mapped-word
