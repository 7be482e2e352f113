-- ===== src/Core/PagePool.antt =====
-- kernel/core/memory.c: the pages that the core hands out, and the first page directory. `words` is
-- the memory by the address of each 4-byte word; a free page has the next one in its first word,
-- and address 0 is NULL.
pub mod Pages
mod Tests
use omocha_os.Base.{
  ℕ, zero, suc, ◌+◌, ◌-◌, ◌*◌, ◌/◌, ◌%◌, ◌^◌, Bool, true, false, not, ◌==◌, ◌&&◌, ◌||◌, ltb, leb,
  List, [], ◌∷◌, bit_or, if◌then◌else◌,
}
use omocha_os.Base.Flags.{raise}
use omocha_os.Core.Paging.{frame}
use omocha_os.Core.Process.{update}
use omocha_os.Core.Run.{Run, ok, halted, out_of_fuel, ◌>>=◌}

pub record PagePool : Type 0 where
  pub freemem : ℕ
  pub words : ℕ → ℕ

-- `memset(p, 0, PG_SIZE)`
abbrev pub cleared_page : (ℕ → ℕ) → (p : ℕ) → ℕ → ℕ
cleared_page words p a = if leb p a && ltb a (p + 4096) then 0 else words a

-- A page that is not one, or lies outside the kernel's space, stops the processor.
unfoldable pub kfree_pages : (kern_vend : ℕ) → PagePool → (p : ℕ) → Run PagePool
kfree_pages kern_vend s p =
    if not (p % 4096 == 0) || ltb p kern_vend || leb 0xE0_0000 ((p + 2 ^ 32 - 0x8000_0000) % 2 ^ 32)
    then halted
    else ok (record { freemem = p; words = update (cleared_page s.words p) p s.freemem })

-- One page, whatever the number asked for; 0 without a page.
unfoldable pub kalloc_pages : PagePool → (pages : ℕ) → PagePool × ℕ
kalloc_pages s pages =
    (if s.freemem == 0 then s else record s { freemem = s.words s.freemem }, s.freemem)

-- The loop that fills the pool, a round for each page and one for the last test.
unfoldable pub free_range : ℕ → (kern_vend : ℕ) → PagePool → (p vend : ℕ) → Run PagePool
free_range zero kern_vend s p vend = out_of_fuel
free_range (suc fuel) kern_vend s p vend =
    let round = (do
      next ← kfree_pages kern_vend s p
      free_range fuel kern_vend next ((p + 4096) % 2 ^ 32) vend) in
    if leb ((p + 4096) % 2 ^ 32) vend then round else ok s

-- `pages` entries from `page_table` on get the one address `paddr`.
unfoldable pub core_map_memory : (pages : ℕ) → (ℕ → ℕ) → (page_table paddr : ℕ) → ℕ → ℕ
core_map_memory zero words page_table paddr = words
core_map_memory (suc n) words page_table paddr =
    core_map_memory n (update words page_table (bit_or (frame paddr) 7)) (page_table + 4) paddr

-- `multiboot_memory_map_t`, and `struct core_env_memory_zone`.
pub record MemoryZone : Type 0 where
  pub addr : ℕ
  pub length : ℕ
  pub type : ℕ

-- The size of the memory behind 1 MB: that of the last zone which starts there and can be used.
unfoldable pub upper_mem_length : List MemoryZone → (before : ℕ) → ℕ
upper_mem_length [] before = before
upper_mem_length (z ∷ zs) before =
    upper_mem_length zs (if (z.addr == 0x10_0000) && (z.type == 1) then z.length else before)

-- `rounds` entries for pages of 4 MB from entry `i` on.
unfoldable pub map_extended : (rounds : ℕ) → (page_dir : ℕ → ℕ) → (i pa attr : ℕ) → ℕ → ℕ
map_extended zero page_dir i pa attr = page_dir
map_extended (suc n) page_dir i pa attr =
    map_extended n (update page_dir i (raise pa attr)) (i + 1) ((pa + 0x40_0000) % 2 ^ 32) attr

unfoldable pub memory_end_of : List MemoryZone → ℕ
unfolding upper_mem_length
memory_end_of zones = (0x10_0000 + upper_mem_length zones 0) % 2 ^ 32

-- The memory at its own addresses, and what lies behind the core at the same addresses. 0x83:
-- present, writable, of 4 MB; 0x200: `PG_OS_SYS`. Entries behind the directory are memory too.
unfoldable pub first_page_dir : (page_dir : ℕ → ℕ) → (top_memory core_space_end : ℕ) → ℕ → ℕ
unfolding map_extended
first_page_dir page_dir top_memory core_space_end =
    let ext_start = frame ((core_space_end + 4095) % 2 ^ 32) in
    let ext_count = (2 ^ 32 - 1 - ext_start + 0x3f_ffff) % 2 ^ 32 / 0x40_0000 in
    map_extended ext_count (map_extended (top_memory / 0x40_0000 + 1) page_dir 0 0 0x83)
      (ext_start / 2 ^ 22) ext_start 0x283

-- The pool, the page directory and the end of the memory.
unfoldable pub core_init_memory :
    ℕ
    → List MemoryZone
    → (page_dir : ℕ → ℕ) → PagePool
    → (kern_vend core_space_end free_start free_end : ℕ) → Run (PagePool × (ℕ → ℕ) × ℕ)
core_init_memory fuel zones page_dir s kern_vend core_space_end free_start free_end = do
  let top_memory = memory_end_of zones
  pool ← free_range fuel kern_vend s (frame ((free_start + 4095) % 2 ^ 32)) free_end
  ok (pool, first_page_dir page_dir top_memory core_space_end, top_memory)
