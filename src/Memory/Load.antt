-- ===== src/Memory/Load.antt =====
-- `load_elf_to_proc` of kernel/modules/memory/memory_init.c. The pages of a program are bytes by
-- address, and those of page tables are words by address; the allocator gives a page to one of
-- them.
pub mod Segment
mod Tests
use omocha_os.Base.{
  ℕ, zero, suc, ◌+◌, ◌-◌, ◌*◌, ◌/◌, ◌%◌, ◌^◌, Bool, true, false, not, ◌==◌, ◌&&◌, ltb, leb,
  if◌then◌else◌, bit_or,
}
use omocha_os.Base.Flags.{has}
use omocha_os.Core.Paging.{frame}
use omocha_os.Core.Run.{Run, ok, fault, out_of_fuel, ◌>>=◌}
use omocha_os.Libc.Memcpy.{memcpy}
use omocha_os.Libc.Memset.{memset}
use omocha_os.Memory.Elf.{Elf32Phdr, ehdr_at, phdr_at}
use omocha_os.Memory.Paging.{PageMemory, page_alloc, map_pages}
use omocha_os.Memory.Release.{round_up}

-- `struct prog_info`
pub record ProgInfo : Type 0 where
  pub image_start : ℕ
  pub program_break : ℕ
  pub program_size : ℕ

pub record Loading : Type 0 where
  pub pages : PageMemory
  pub bytes : ℕ → ℕ
  pub pgi : ProgInfo

-- The image from the lowest address to the highest end of the segments up to this one.
unfoldable pub widen : ProgInfo → Elf32Phdr → ProgInfo
widen pgi ph =
    let end = (ph.p_vaddr + ph.p_memsz) % 2 ^ 32 in
    record pgi {
      image_start = if ltb ph.p_vaddr pgi.image_start then ph.p_vaddr else pgi.image_start;
      program_break = if ltb pgi.program_break end then end else pgi.program_break;
    }

-- The bytes of a segment in its pages at `pa`: the page in front of it and the part that is not in
-- the file are cleared. A segment that is larger in the file than in memory is reported, and memory
-- is then cleared far beyond its pages.
unfoldable pub fill_segment : (ℕ → ℕ) → (elf : ℕ) → Elf32Phdr → (pa : ℕ) → Run (ℕ → ℕ)
fill_segment bytes elf ph pa =
    let va_offset = ph.p_vaddr - frame ph.p_vaddr in
    let copied = memcpy bytes (pa + va_offset) (elf + ph.p_offset) ph.p_filesz in
    let front = if va_offset == 0 then copied else memset copied pa 0 va_offset in
    if ph.p_filesz == ph.p_memsz
    then ok front
    else if ltb ph.p_memsz ph.p_filesz
    then fault
    else ok (memset front (pa + va_offset + ph.p_filesz) 0 (ph.p_memsz - ph.p_filesz))

-- One segment. What `map_pages` returns is not looked at, and neither is a page that was not given.
unfoldable pub load_segment : ℕ → Loading → (elf page_dir : ℕ) → Elf32Phdr → Run Loading
load_segment fuel s elf page_dir ph = do
  (mem, pa) ← page_alloc s.pages.mem (round_up ph.p_memsz / 4096) (bit_or 0x20 0x80)
  bytes ← fill_segment s.bytes elf ph pa
  (pages, r) ←
      map_pages fuel (record { mem = mem; words = s.pages.words }) page_dir (frame ph.p_vaddr) pa
        ph.p_memsz (bit_or 5 (if has ph.p_flags 2 then 2 else 0))
  ok (record { pages = pages; bytes = bytes; pgi = widen s.pgi ph })

-- The program headers from `i` on, a round for each and one for the last test; those that are not
-- `PT_LOAD` are passed over.
unfoldable pub load_segments :
    (rounds : ℕ) → ℕ → Loading → (elf page_dir prog_header i : ℕ) → Run Loading
load_segments zero fuel s elf page_dir prog_header i = out_of_fuel
load_segments (suc n) fuel s elf page_dir prog_header i =
    let ph = phdr_at s.bytes (prog_header + 32 * i) in
    let round = (do
      t ← (if ph.p_type == 1 then load_segment fuel s elf page_dir ph else ok s)
      load_segments n fuel t elf page_dir prog_header (i + 1)) in
    if ltb i (ehdr_at s.bytes elf).e_phnum then round else ok s

-- The result is the entry of the program. A file that fails `elf_check_supported`, or has headers of
-- other sizes, is only reported and loaded all the same.
unfoldable pub load_elf_to_proc :
    (rounds : ℕ) → ℕ → PageMemory → (bytes : ℕ → ℕ) → (elf page_dir : ℕ) → Run (Loading × ℕ)
load_elf_to_proc rounds fuel pages bytes elf page_dir = do
  let none : ProgInfo = record { image_start = 2 ^ 32 - 1; program_break = 0; program_size = 0 }
  let start : Loading = record { pages = pages; bytes = bytes; pgi = none }
  s ← load_segments rounds fuel start elf page_dir ((elf + (ehdr_at bytes elf).e_phoff) % 2 ^ 32) 0
  let size = (s.pgi.program_break + 2 ^ 32 - s.pgi.image_start) % 2 ^ 32
  ok (record s { pgi = record s.pgi { program_size = size } }, (ehdr_at s.bytes elf).e_entry)
