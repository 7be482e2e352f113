-- ===== src/Memory/Fork.antt =====
-- kernel/modules/memory/fork.c: the address space of a child shares its parent's pages, read-only.
pub mod Entries
pub mod Shared
mod Tests
use omocha_os.Base.{
  ℕ, zero, suc, ◌+◌, ◌-◌, ◌*◌, ◌/◌, ◌%◌, ◌^◌, Option, none, some, ◌==◌, ltb, leb, if◌then◌else◌,
  bit_or,
}
use omocha_os.Base.Flags.{raise, lower}
use omocha_os.Core.Process.{Process, update, stop}
use omocha_os.Core.Paging.{pg_present, frame, vir2phy}
use omocha_os.Core.Run.{Run, ok, out_of_fuel, ◌>>=◌}
use omocha_os.Memory.Paging.{
  PageMemory, page_alloc, get_pte, increase_page_ref, decrease_page_ref, copy_page, create_page_dir,
}
use omocha_os.Memory.Release.{round_up}

-- The page tables of the regions from `i` up to `last`, which is left out, now have two users.
unfoldable pub share_tables : ℕ → PageMemory → (pg_dir parent_dir i last : ℕ) → Run PageMemory
share_tables zero s pg_dir parent_dir i last = out_of_fuel
share_tables (suc fuel) s pg_dir parent_dir i last =
    let pde = s.words (parent_dir + 4 * i) in
    let shared : PageMemory = record {
      mem = increase_page_ref s.mem (frame pde);
      words = update s.words (pg_dir + 4 * i) pde;
    } in
    let rest = share_tables fuel shared pg_dir parent_dir (i + 1) last in
    if ltb i last then rest else ok s

-- One page without its write bit, and with one more reference.
unfoldable pub share_page : PageMemory → (pg_dir va : ℕ) → PageMemory
share_page s pg_dir va =
    let pte = get_pte s.words pg_dir va in
    record {
      mem = increase_page_ref s.mem (vir2phy s.words pg_dir va);
      words = update s.words pte (lower (s.words pte) 2);
    }

unfoldable pub share_pages : ℕ → PageMemory → (pg_dir va end : ℕ) → Run PageMemory
unfolding share_page
share_pages zero s pg_dir va end = out_of_fuel
share_pages (suc fuel) s pg_dir va end =
    let rest = share_pages fuel (share_page s pg_dir va) pg_dir ((va + 4096) % 2 ^ 32) end in
    if ltb va end then rest else ok s

-- A page that the child has for itself, with a page table of its own.
unfoldable pub own_page : PageMemory → (pg_dir parent_dir va : ℕ) → Run PageMemory
own_page s pg_dir parent_dir va = do
  let old_pa = vir2phy s.words parent_dir va
  (m1, new_pa) ← page_alloc s.mem 1 (bit_or 0x20 0x80)
  let words = copy_page s.words new_pa old_pa
  let pde = pg_dir + 4 * (va / 2 ^ 22)
  let old_pg_tab = frame (words pde)
  (m2, pg_tab) ←
      page_alloc (decrease_page_ref (decrease_page_ref m1 old_pa) old_pg_tab) 1 (bit_or 0x20 0x40)
  let linked =
      update (copy_page words pg_tab old_pg_tab) pde (raise (raise (raise pg_tab pg_present) 4) 2)
  ok (record {
    mem = m2;
    words = update linked (get_pte linked pg_dir va) (raise (raise (raise new_pa pg_present) 4) 2);
  })

unfoldable pub own_pages : ℕ → PageMemory → (pg_dir parent_dir va end : ℕ) → Run PageMemory
own_pages zero s pg_dir parent_dir va end = out_of_fuel
own_pages (suc fuel) s pg_dir parent_dir va end =
    let round = (do
      s1 ← own_page s pg_dir parent_dir va
      own_pages fuel s1 pg_dir parent_dir ((va + 4096) % 2 ^ 32) end) in
    if leb va end then round else ok s

-- The last page of the parent's message, which may go on in the page behind.
unfoldable pub message_end : (size msg_va : ℕ) → ℕ
message_end size msg_va =
    let pages = if ltb (0xFFF - msg_va % 4096) size then 2 else 1 in
    frame ((frame msg_va + pages * 4096 + 2 ^ 32 - 1) % 2 ^ 32)

-- `program` is the start of the image and its break, and `size` is `sizeof(message)`.
unfoldable pub copy_parent :
    ℕ
    → PageMemory
    → (size : ℕ) → (parent : Process) → (program : Option (ℕ × ℕ)) → Run (PageMemory × ℕ)
unfolding message_end
copy_parent fuel s size parent program = do
  (s0, pg_dir) ← create_page_dir s 2
  let first = parent.pstack
  let last = (parent.pstack + parent.pstack_size) % 2 ^ 32
  s1 ← share_tables fuel s0 pg_dir parent.page_dir (first / 2 ^ 22) (last / 2 ^ 22)
  s2 ← share_pages fuel s1 pg_dir (frame first) (round_up last)
  s3 ← elim program [
    | none ↦ ok s2
    | some (pg_start, pg_end) ↦ (do
      t ← share_tables fuel s2 pg_dir parent.page_dir (pg_start / 2 ^ 22) (pg_end / 2 ^ 22 + 1)
      share_pages fuel t pg_dir (frame pg_start) (round_up pg_end))
  ]
  let last_own = message_end size parent.p_msg
  let own = own_pages fuel s3 pg_dir parent.page_dir (frame parent.p_msg) last_own
  s4 ← (if parent.p_msg == 0 then ok s3 else own)
  ok (s4, pg_dir)

-- The slot of the child. `prog_info` is the copy of the parent's program that the kernel heap gives.
unfoldable pub forked : (child parent : Process) → (pid page_dir prog_info : ℕ) → Process
forked child parent pid page_dir prog_info = record child {
  parent_pid = pid;
  cs = parent.cs;
  ds = parent.ds;
  es = parent.es;
  fs = parent.fs;
  gs = parent.gs;
  ss = parent.ss;
  eip = parent.eip;
  esp = parent.esp;
  eflags = parent.eflags;
  pstack = parent.pstack;
  pstack_size = parent.pstack_size;
  quene_body = none;
  quene_head = none;
  p_msg = parent.p_msg;
  page_dir = page_dir;
  prog_info = prog_info;
  status = parent.status;
}

-- `child` is the slot that the system task gives, if it has one. The result is the child's pid.
unfoldable pub fork_proc :
    ℕ
    → PageMemory
    → (ℕ → Process)
    → (size pid : ℕ) → (child : Option ℕ) → (program : Option (ℕ × ℕ)) → (prog_info : ℕ)
    → Run (PageMemory × (ℕ → Process) × ℕ)
unfolding copy_parent forked
fork_proc fuel s procs size pid child program prog_info =
    let parent : Process = record (procs pid) { status = raise (procs pid).status stop } in
    let stopped = update procs pid parent in
    elim child [
      | none ↦ ok (s, stopped, 0)
      | some c ↦ (do
        (s1, page_dir) ← copy_parent fuel s size parent program
        let made = forked (stopped c) parent pid page_dir prog_info
        ok (s1, update stopped c made, made.pid))
    ]
