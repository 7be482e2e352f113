-- ===== src/Memory/Fault.antt =====
-- kernel/modules/memory/pagefault.c and sbrk.c: copy on write, and the program break.
pub mod Copied
mod Tests
use omocha_os.Base.{
  ℕ, ◌+◌, ◌-◌, ◌*◌, ◌/◌, ◌%◌, ◌^◌, Bool, true, false, not, ◌==◌, ◌&&◌, ltb, leb, if◌then◌else◌,
  bit_or, Option, none, some,
}
use omocha_os.Base.Flags.{has, raise, lower}
use omocha_os.Core.Process.{update, error}
use omocha_os.Core.Paging.{pg_present, frame, vir2phy}
use omocha_os.Core.Run.{Run, ok, ◌>>=◌}
use omocha_os.Memory.Buddy.{MemoryInfo}
use omocha_os.Memory.Paging.{
  PageMemory, page_alloc, get_pte, reference_of, decrease_page_ref, copy_page, map_pages,
  unmap_pages,
}

-- A reference count, which is an `int`, above 1.
abbrev pub shared : MemoryInfo → ℕ → Bool
shared mem page = leb 2 (reference_of mem page) && ltb (reference_of mem page) (2 ^ 31)

-- A page of `attr` that holds the same as `old`, which loses a reference.
unfoldable pub copy_shared_page : PageMemory → (old attr : ℕ) → Run (PageMemory × ℕ)
copy_shared_page s old attr = do
  (mem, new) ← page_alloc s.mem 1 attr
  ok (record { mem = decrease_page_ref mem old; words = copy_page s.words new old }, new)

-- A page table with other users is copied as well. Here the reference goes before the new page is
-- asked for.
unfoldable pub own_page_table : PageMemory → (page_dir va : ℕ) → Run PageMemory
own_page_table s page_dir va =
    let pde = page_dir + 4 * (va / 2 ^ 22) in
    let pg_tab = frame (s.words pde) in
    let copied = (do
      (mem, new) ← page_alloc (decrease_page_ref s.mem pg_tab) 1 (bit_or 0x20 0x40)
      let entry = raise (raise (raise new pg_present) 4) 2
      ok (record { mem = mem; words = update (copy_page s.words new pg_tab) pde entry })) in
    if shared s.mem pg_tab then copied else ok s

-- `*get_pte(page_dir, va) = entry`
unfoldable pub set_pte : PageMemory → (page_dir va entry : ℕ) → PageMemory
set_pte s page_dir va entry = record s {
  words = update s.words (get_pte s.words page_dir va) entry;
}

-- The result goes with the caller's status. A page without references is a panic, which only
-- prints.
unfoldable pub do_page_fault : PageMemory → (page_dir va status : ℕ) → Run (PageMemory × ℕ)
do_page_fault s page_dir va status =
    let page = frame (vir2phy s.words page_dir va) in
    let written = raise (s.words (get_pte s.words page_dir va)) 2 in
    let copy = (do
      (s1, new) ← copy_shared_page s page (bit_or 0x20 0x80)
      s2 ← own_page_table s1 page_dir va
      ok (set_pte s2 page_dir va (raise (raise (raise new pg_present) 4) 2), lower status error)) in
    if reference_of s.mem page == 1
    then ok (set_pte s page_dir va written, lower status error)
    else if shared s.mem page
    then copy
    else ok (s, status)

-- `program_break` and `program_size` of `prog_info`.
pub record Program : Type 0 where
  pub program_break : ℕ
  pub program_size : ℕ

-- The pages that a new break takes or gives back: one page at most, whatever the distance.
unfoldable pub move_break : ℕ → PageMemory → (page_dir current_brk new_brk : ℕ) → Run PageMemory
move_break fuel s page_dir current_brk new_brk =
    let less = (do (s1, r) ← unmap_pages fuel s page_dir current_brk 1; ok s1) in
    let more = (do
      (mem, pa) ← page_alloc s.mem 1 (bit_or 0x80 0x20)
      (s1, r) ←
          map_pages fuel (record s { mem = mem }) page_dir (frame new_brk) pa 0x1000
            (raise (raise 2 pg_present) 4)
      ok s1) in
    if frame new_brk == frame current_brk
    then ok s
    else if ltb (frame new_brk) (frame current_brk)
    then less
    else more

-- `mem_sbrk`; `increse` is a 32-bit word. A process without a program gets -1.
unfoldable pub mem_sbrk :
    ℕ → PageMemory → Option Program → (page_dir increse : ℕ) → Run (PageMemory × Option Program × ℕ)
mem_sbrk fuel s prog page_dir increse = elim prog [
  | none ↦ ok (s, none, 2 ^ 32 - 1)
  | some p ↦ (do
    let new_brk = (p.program_break + increse) % 2 ^ 32
    s1 ← move_break fuel s page_dir p.program_break new_brk
    ok (
      s1,
      some (record { program_break = new_brk; program_size = (p.program_size + increse) % 2 ^ 32 }),
      p.program_break,
    ))
]
