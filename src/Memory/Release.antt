-- ===== src/Memory/Release.antt =====
-- `free_proc` of kernel/modules/memory/exit.c: the pages of a process that ends. The record of its
-- program goes back to the kernel heap, which is no part of the state.
use omocha_os.Base.{
  ℕ, zero, suc, ◌+◌, ◌*◌, ◌/◌, ◌%◌, ◌^◌, Option, none, some, ◌==◌, ltb, if◌then◌else◌,
}
use omocha_os.Core.Process.{update}
use omocha_os.Core.Paging.{frame, vir2phy}
use omocha_os.Core.Run.{Run, ok, out_of_fuel, ◌>>=◌}
use omocha_os.Memory.Paging.{PageMemory, page_free, reference_of, decrease_page_ref}

-- A page loses a reference, and goes back to the allocator with its last one.
unfoldable pub release_page : PageMemory → ℕ → Run PageMemory
release_page s pa =
    let mem = decrease_page_ref s.mem pa in
    let freed = (do (free, r) ← page_free mem pa 1; ok (record s { mem = free })) in
    if reference_of mem pa == 0 then freed else ok (record s { mem = mem })

-- One round for each page, and one for the last test.
unfoldable pub release_pages : ℕ → PageMemory → (page_dir va end : ℕ) → Run PageMemory
release_pages zero s page_dir va end = out_of_fuel
release_pages (suc fuel) s page_dir va end =
    let round = (do
      s1 ← release_page s (vir2phy s.words page_dir va)
      release_pages fuel s1 page_dir ((va + 4096) % 2 ^ 32) end) in
    if ltb va end then round else ok s

-- The page tables of the regions from `i` up to `last`, which is left out.
unfoldable pub release_tables : ℕ → PageMemory → (page_dir i last : ℕ) → Run PageMemory
release_tables zero s page_dir i last = out_of_fuel
release_tables (suc fuel) s page_dir i last =
    let pde = page_dir + 4 * i in
    let round = (do
      s1 ← release_page s (frame (s.words pde))
      release_tables fuel (record s1 { words = update s1.words pde 0 }) page_dir (i + 1) last) in
    if ltb i last then round else ok s

-- `PGROUNDUP`
abbrev pub round_up : ℕ → ℕ
round_up a = frame ((a + 4095) % 2 ^ 32)

-- Pages and tables of the addresses from `first` to `last`.
unfoldable pub release_range : ℕ → PageMemory → (page_dir first last : ℕ) → Run PageMemory
release_range fuel s page_dir first last = do
  s1 ← release_pages fuel s page_dir (frame first) (round_up last)
  release_tables fuel s1 page_dir (first / 2 ^ 22) (last / 2 ^ 22)

-- `program` is the start of the image and its break.
unfoldable pub free_proc :
    ℕ → PageMemory → (page_dir pstack pstack_size : ℕ) → (program : Option (ℕ × ℕ)) → Run PageMemory
free_proc fuel s page_dir pstack pstack_size program = do
  s1 ← release_range fuel s page_dir pstack ((pstack + pstack_size) % 2 ^ 32)
  s2 ← elim program [
    | none ↦ ok s1
    | some (pg_start, pg_end) ↦ release_range fuel s1 page_dir pg_start pg_end
  ]
  (mem, r) ← page_free s2.mem page_dir 1
  ok (record s2 { mem = mem })
