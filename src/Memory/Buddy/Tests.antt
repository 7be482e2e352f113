-- ===== src/Memory/Buddy/Tests.antt =====
-- The page allocator with one free block of eight pages.
use omocha_os.Base.{◌<◌, ◌+◌, ℕ, zero, suc, ◌≡◌, refl, [], ◌∷◌, arith, replicate}
use omocha_os.Core.Run.{ok}
use omocha_os.Memory.Buddy.{
  MemoryInfo, count_of, free_pages_of_power_2, xor_buddy_map, allocate_pages_of_power_2,
}
use omocha_os.Base.Flags.{has}
use omocha_os.Bitset.{xor_bit, check_bit}
use omocha_os.Memory.Buddy.Stock.{free_pages}
use omocha_os.Memory.Buddy.Give.{allocate_pages_of_power_2-free_pages_of_power_2}
use omocha_os.Memory.Buddy.Take.{Taken, upper_part, allocate_pages_of_power_2-Taken}

abbrev eight : MemoryInfo
eight = record {
  free_list = 0 ∷ 0 ∷ 0 ∷ 0x40_0000 ∷ replicate 7 0;
  free_count = 0 ∷ 0 ∷ 0 ∷ 1 ∷ 0 ∷ 0 ∷ 0 ∷ 0 ∷ 0 ∷ 0 ∷ 0 ∷ [];
  buddy_map = replicate 11 (0 ∷ []);
  memory_start = 0x40_0000;
  usable_end = 0x50_0000;
  pages_info = λ i. record { type = 17; reference = 0 };
  links = λ a. record { prev = 0; next = 0 };
}

-- A request for two pages.
allocate_pages_of_power_2-Taken_example :
    (mem' : MemoryInfo) × (allocate_pages_of_power_2 11 eight 1 32
      ≡ ok (mem', upper_part 0x40_0000 1 2))
    × Taken eight mem' 1
allocate_pages_of_power_2-Taken_example =
    allocate_pages_of_power_2-Taken 2 11 eight 1 32 (omega arith) (omega arith) refl empty
      (omega arith) (omega arith) (omega arith) (omega arith)
  where
    empty : (i : ℕ) → i < 2 → count_of eight (1 + i) ≡ 0
    empty zero h = refl
    empty (suc zero) h = refl
    empty (suc (suc i)) h = absurd (omega arith)

-- The page at 0x40_8000 is freed, with its buddy in use, and asked for again.
allocate_pages_of_power_2-free_pages_of_power_2_example :
    (m1 : MemoryInfo) × (m2 : MemoryInfo) × (free_pages_of_power_2 11 eight 0x40_8000 0
      ≡ ok (m1, 0))
    × (free_pages m1 ≡ free_pages eight + 1)
    × (allocate_pages_of_power_2 11 m1 0 32 ≡ ok (m2, 0x40_8000))
unfolding xor_buddy_map xor_bit check_bit has
allocate_pages_of_power_2-free_pages_of_power_2_example =
    allocate_pages_of_power_2-free_pages_of_power_2 10 eight 0x40_8000 0 32 (omega arith)
      (omega arith) (omega arith) (omega arith) (omega arith) refl refl (omega arith)
