-- ===== src/Memory/Fault/Tests.antt =====
-- A process whose only page is shared with another one.
use omocha_os.Base.{ℕ, ◌≡◌, refl, true, [], ◌∷◌, arith, replicate, if◌then◌else◌, ◌==◌}
use omocha_os.Base.Flags.{has, lower}
use omocha_os.Bitset.{xor_bit, check_bit}
use omocha_os.Core.Paging.{vir2phy}
use omocha_os.Core.Run.{Run, ok, halted, fault, out_of_fuel}
use omocha_os.Memory.Buddy.{
  MemoryInfo, allocate_pages_of_power_2, take_first, split, attach_to_free_list,
  remove_from_free_list, xor_buddy_map, set_pages,
}
use omocha_os.Memory.Paging.{
  PageMemory, page_alloc, round_up_power_2, trailing_zero, decrease_page_ref, set_reference,
}
use omocha_os.Memory.Fault.{do_page_fault}
use omocha_os.Memory.Fault.Copied.{do_page_fault-copy_page}

-- Eight free pages from 0x40_0000 on, and two users of 0x41_2000.
abbrev shared_memory : MemoryInfo
shared_memory = record {
  free_list = 0 ∷ 0 ∷ 0 ∷ 0x40_0000 ∷ replicate 7 0;
  free_count = 0 ∷ 0 ∷ 0 ∷ 1 ∷ 0 ∷ 0 ∷ 0 ∷ 0 ∷ 0 ∷ 0 ∷ 0 ∷ [];
  buddy_map = replicate 11 (0 ∷ []);
  memory_start = 0x40_0000;
  usable_end = 0x50_0000;
  pages_info = λ i. record { type = 32; reference = if i == 18 then 2 else 1 };
  links = λ a. record { prev = 0; next = 0 };
}

-- The directory at 0x41_0000, the page table at 0x41_1000, and the page, read-only, at 0x80_3000.
abbrev shared_page : PageMemory
shared_page = record {
  mem = shared_memory;
  words = λ a.
      if a == 0x41_0008
      then 0x41_1007
      else if a == 0x41_100C
      then 0x41_2005
      else if a == 0x41_2010
      then 77
      else 0;
}

abbrev state_of : Run (MemoryInfo × ℕ) → MemoryInfo
state_of (ok (mem, r)) = mem
state_of halted = shared_memory
state_of fault = shared_memory
state_of out_of_fuel = shared_memory

do_page_fault-copy_page_example :
    (s' : PageMemory) × (do_page_fault shared_page 0x41_0000 0x80_3010 0x23 ≡ ok (s', 0x03))
    × (vir2phy s'.words 0x41_0000 0x80_3010 ≡ 0x40_7010)
    × (s'.words 0x40_7010 ≡ 77)
    × (s'.words 0x41_2010 ≡ 77)
    × (has (s'.words 0x41_100C) 1 ≡ true)
    × (has (s'.words 0x41_100C) 2 ≡ true)
unfolding has lower page_alloc round_up_power_2 trailing_zero allocate_pages_of_power_2 take_first
    split attach_to_free_list remove_from_free_list xor_buddy_map set_pages xor_bit check_bit
    decrease_page_ref set_reference
do_page_fault-copy_page_example =
    do_page_fault-copy_page shared_page (state_of (page_alloc shared_memory 1 160)) 0x410 2 0x411 3
      0x412 0x407 16 16 0x23 (omega arith) (omega arith) (omega arith) (omega arith) (omega arith)
      (record {
        present = refl;
        small = refl;
        table = refl;
        nonzero = omega arith;
        apart = λ e. omega arith;
        region = omega arith;
      })
      refl (λ e. omega arith) refl refl (λ e. omega arith) (λ e. omega arith) (λ e. omega arith)
      refl
