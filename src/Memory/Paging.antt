-- ===== src/Memory/Paging.antt =====
-- Page tables: kernel/modules/memory/paging.h and paging.c, with `page_alloc` and `page_free` of
-- buddy.c. `words` is the physical memory by the address of each 4-byte word.
pub mod Walk
pub mod Map
mod Tests
use omocha_os.Base.{
  ℕ, zero, suc, ◌+◌, ◌-◌, ◌*◌, ◌/◌, ◌%◌, ◌^◌, Bool, true, false, not, ◌==◌, ◌&&◌, ◌||◌, ltb, leb,
  if◌then◌else◌, bit_or,
}
use omocha_os.Base.Flags.{has, raise, lower}
use omocha_os.Core.Process.{update}
use omocha_os.Core.Paging.{pg_present, pg_ps, frame}
use omocha_os.Core.Run.{Run, ok, out_of_fuel, ◌>>=◌}
use omocha_os.Memory.Buddy.{MemoryInfo, id_of, allocate_pages_of_power_2, free_pages_of_power_2}

pub record PageMemory : Type 0 where
  pub mem : MemoryInfo
  pub words : ℕ → ℕ

-- `page_alloc`: the order of a request, as the source computes it.
unfoldable pub round_up_power_2 : ℕ → ℕ
round_up_power_2 x =
    let a = (x + 2 ^ 32 - 1) % 2 ^ 32 in
    let b = bit_or a (a / 2 ^ 1) in
    let c = bit_or b (b / 2 ^ 2) in
    let d = bit_or c (c / 2 ^ 4) in
    let e = bit_or d (d / 2 ^ 8) in (bit_or e (e / 2 ^ 16) + 1) % 2 ^ 32

-- `bsfl`, which leaves a zero alone.
unfoldable count_zeros : ℕ → ℕ → ℕ
count_zeros zero x = 0
count_zeros (suc n) x = let rest = count_zeros n (x / 2) in if x % 2 == 0 then suc rest else 0

unfoldable pub trailing_zero : ℕ → ℕ
unfolding count_zeros
trailing_zero x = if x == 0 then 0 else count_zeros 32 x

-- One round for each order, and one to find that none is left.
unfoldable pub page_alloc : MemoryInfo → (pages attr : ℕ) → Run (MemoryInfo × ℕ)
page_alloc mem pages attr =
    allocate_pages_of_power_2 12 mem (trailing_zero (round_up_power_2 pages)) attr

unfoldable pub page_free : MemoryInfo → (p pages : ℕ) → Run (MemoryInfo × ℕ)
page_free mem p pages = free_pages_of_power_2 12 mem p (trailing_zero (round_up_power_2 pages))

-- The address of the entry of `va`, or 0.
unfoldable pub get_pte : (words : ℕ → ℕ) → (page_dir va : ℕ) → ℕ
get_pte words page_dir va =
    let pde = words (page_dir + 4 * (va / 2 ^ 22)) in
    if not (has pde pg_present) then 0 else frame pde + 4 * (va / 2 ^ 12 % 0x400)

abbrev pub reference_of : MemoryInfo → ℕ → ℕ
reference_of mem page = (mem.pages_info (id_of mem page)).reference

unfoldable pub set_reference : MemoryInfo → (page r : ℕ) → MemoryInfo
set_reference mem page r =
    let i = id_of mem page in
    record mem {
      pages_info = update mem.pages_info i (record (mem.pages_info i) { reference = r });
    }

unfoldable pub increase_page_ref : MemoryInfo → ℕ → MemoryInfo
unfolding set_reference
increase_page_ref mem page = set_reference mem page ((reference_of mem page + 1) % 2 ^ 32)

unfoldable pub decrease_page_ref : MemoryInfo → ℕ → MemoryInfo
unfolding set_reference
decrease_page_ref mem page = set_reference mem page ((reference_of mem page + 2 ^ 32 - 1) % 2 ^ 32)

-- Present entries only.
unfoldable pub set_page_writable : (ℕ → ℕ) → (page_dir va : ℕ) → (writable : Bool) → ℕ → ℕ
set_page_writable words page_dir va writable =
    let pte = get_pte words page_dir va in
    let entry = words pte in
    if not (pte == 0) && has entry pg_present
    then update words pte (if writable then raise entry 2 else lower entry 2)
    else words

-- `memset(page, 0, PG_SIZE)`
unfoldable pub clear_page : (ℕ → ℕ) → ℕ → ℕ → ℕ
clear_page words page a = if leb page a && ltb a (page + 4096) then 0 else words a

-- `memcpy(dst, src, PG_SIZE)`
unfoldable pub copy_page : (ℕ → ℕ) → (dst src : ℕ) → ℕ → ℕ
copy_page words dst src a =
    if leb dst a && ltb a (dst + 4096) then words (src + (a - dst)) else words a

-- The address of the entry of `va`, in a new table where there is none; 0 without memory.
unfoldable pub create_page_table : PageMemory → (page_dir va pde_attr : ℕ) → Run (PageMemory × ℕ)
create_page_table s page_dir va pde_attr =
    let pte = get_pte s.words page_dir va in
    if not (pte == 0) then ok (s, pte) else do
      (mem, pg_tab) ← page_alloc s.mem 1 (bit_or 0x20 0x40)
      let cleared = clear_page s.words pg_tab
      let pde = raise (raise pg_tab pg_present) pde_attr
      let linked = update cleared (page_dir + 4 * (va / 2 ^ 22)) pde
      ok (
          if pg_tab == 0
          then (record { mem = mem; words = s.words }, 0)
          else (record { mem = mem; words = linked }, pg_tab + 4 * (va / 2 ^ 12 % 0x400)))

-- An entry that is present stays as it is.
unfoldable pub fill_entry : PageMemory → (pte pa pte_attr : ℕ) → PageMemory
fill_entry s pte pa pte_attr =
    if has (s.words pte) pg_present
    then s
    else record s { words = update s.words pte (raise (raise pa pg_present) pte_attr) }

-- The loop, with a unit of fuel for each page and one for the last test. -1: no memory for a table.
unfoldable pub map_loop :
    ℕ → PageMemory → (page_dir va end pa pte_attr pde_attr : ℕ) → Run (PageMemory × ℕ)
map_loop zero s page_dir va end pa pte_attr pde_attr = out_of_fuel
map_loop (suc fuel) s page_dir va end pa pte_attr pde_attr =
    let round = (do
      (s1, pte) ← create_page_table s page_dir va pde_attr
      let rest =
          map_loop fuel (fill_entry s1 pte pa pte_attr) page_dir ((va + 4096) % 2 ^ 32) end
            ((pa + 4096) % 2 ^ 32) pte_attr pde_attr
      if pte == 0 then ok (s1, 2 ^ 32 - 1) else rest) in
    if leb va end then round else ok (s, 0)

abbrev last_page : (va size : ℕ) → ℕ
last_page va size = frame ((frame va + size + 2 ^ 32 - 1) % 2 ^ 32)

unfoldable pub map_pages :
    ℕ → PageMemory → (page_dir va pa size pte_attr : ℕ) → Run (PageMemory × ℕ)
map_pages fuel s page_dir va pa size pte_attr =
    map_loop fuel s page_dir (frame va) (last_page va size) pa pte_attr
      (if has pte_attr 0x200 then 0x201 else 7)

-- One page of `unmap_pages`: without its last reference it goes back to the allocator.
unfoldable pub unmap_entry : PageMemory → (pte va : ℕ) → Run PageMemory
unmap_entry s pte va =
    let pa = frame (s.words pte) + va % 0x1000 in
    let mem = decrease_page_ref s.mem pa in
    if reference_of s.mem pa == 1
    then (do
      (freed, r) ← page_free mem pa 1
      ok (record { mem = freed; words = update s.words pte 0 }))
    else ok (record { mem = mem; words = update s.words pte 0 })

-- A page that is not mapped is a panic, which only prints in the memory task, and the result 1.
unfoldable pub unmap_loop : ℕ → PageMemory → (page_dir va end : ℕ) → Run (PageMemory × ℕ)
unmap_loop zero s page_dir va end = out_of_fuel
unmap_loop (suc fuel) s page_dir va end =
    let pte = get_pte s.words page_dir va in
    let round = (do
      s1 ← unmap_entry s pte va
      unmap_loop fuel s1 page_dir ((va + 4096) % 2 ^ 32) end) in
    if not (leb va end)
    then ok (s, 0)
    else if has (s.words pte) pg_present
    then round
    else ok (s, 1)

unfoldable pub unmap_pages : ℕ → PageMemory → (page_dir va size : ℕ) → Run (PageMemory × ℕ)
unmap_pages fuel s page_dir va size = unmap_loop fuel s page_dir (frame va) (last_page va size)

-- `sys_mapping` is one entry: 4 MB of physical memory 0 at `KERN_BASE`, in one extended page.
unfoldable pub create_page_dir : PageMemory → (sys_attr : ℕ) → Run (PageMemory × ℕ)
create_page_dir s sys_attr = do
  (mem, page_dir) ← page_alloc s.mem 1 (bit_or 0x20 0x40)
  let cleared = clear_page s.words page_dir
  let pde = raise (raise (raise (raise 0 pg_present) 0x200) pg_ps) sys_attr
  let mapped = update cleared (page_dir + 4 * (0x8000_0000 / 2 ^ 22)) pde
  ok (
      if page_dir == 0
      then (record { mem = mem; words = s.words }, 0)
      else (record { mem = mem; words = mapped }, page_dir))
