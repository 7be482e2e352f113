-- ===== src/Memory/Load/Tests.antt =====
-- A segment of 8 bytes in the file and 20 in memory.
use omocha_os.Base.{
  ℕ, zero, suc, ◌+◌, ◌*◌, ◌%◌, ◌<◌, ◌≤◌, ◌≡◌, refl, false, [], ◌∷◌, replicate, arith, if◌then◌else◌,
  ◌==◌,
}
use omocha_os.Base.Flags.{has}
use omocha_os.Core.Paging.{vir2phy}
use omocha_os.Core.Run.{ok}
use omocha_os.Memory.Buddy.{MemoryInfo, mark, take_first, allocate_pages_of_power_2}
use omocha_os.Memory.Elf.{Elf32Phdr}
use omocha_os.Memory.Load.{Loading, load_segment}
use omocha_os.Memory.Load.Segment.{load_segment-read}
use omocha_os.Memory.Paging.{page_alloc, round_up_power_2, trailing_zero}

-- One free page, at 0x9000.
abbrev one_page : MemoryInfo
one_page = record {
  free_list = 0x9000 ∷ replicate 10 0;
  free_count = 1 ∷ replicate 10 0;
  buddy_map = replicate 11 (0 ∷ []);
  memory_start = 0x8000;
  usable_end = 0xA000;
  pages_info = λ i. record { type = 0x11; reference = 0 };
  links = λ a. record { prev = 0; next = 0 };
}

-- The directory in frame 5 has a page table in frame 6 for the second region. Byte `a` is `a % 7`.
abbrev before : Loading
before = record {
  pages = record { mem = one_page; words = λ a. if a == 0x5004 then 0x6007 else 0 };
  bytes = λ a. a % 7;
  pgi = record { image_start = 0xffff_ffff; program_break = 0; program_size = 0 };
}

abbrev segment : Elf32Phdr
segment = record {
  p_type = 1;
  p_offset = 0x100;
  p_vaddr = 0x40_3010;
  p_filesz = 8;
  p_memsz = 20;
  p_flags = 6;
}

abbrev none_left : MemoryInfo
none_left = mark (take_first one_page 0).0 0x9000 0 0xA0 1

given : page_alloc one_page 1 0xA0 ≡ ok (none_left, 0x9000)
unfolding page_alloc round_up_power_2 trailing_zero allocate_pages_of_power_2 take_first
given = refl

load_segment-read_example :
    (s' : Loading) × (load_segment 2 before 0x2_0000 0x5000 segment ≡ ok s')
    × (s'.bytes (vir2phy s'.pages.words 0x5000 0x40_3013) ≡ (0x2_0103) % 7)
    × (s'.pages.mem ≡ none_left)
    × (s'.pgi.image_start ≤ 0x40_3010)
unfolding has
load_segment-read_example =
    load_segment-read 2 before 0x2_0000 5 1 6 3 9 1 0x10 3 segment none_left refl (omega arith)
      (omega arith) (omega arith) refl given (omega arith) (omega arith)
      (record {
        present = refl;
        small = refl;
        table = refl;
        nonzero = omega arith;
        apart = λ e. omega arith;
        region = omega arith;
      })
      free (omega arith) (omega arith) (omega arith) (omega arith)
  where
    free : (j : ℕ) → j < 1 → has (before.pages.words (6 * 4096 + 4 * (3 + j))) 1 ≡ false
    free zero h = refl
    free (suc j) h = absurd (omega arith)
