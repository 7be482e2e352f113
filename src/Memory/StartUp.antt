-- ===== src/Memory/StartUp.antt =====
-- `start_up_init` of kernel/modules/memory/memory_init.c: the first user process. `prog_info` is
-- what `mem_kmalloc` gives for the record of its program.
pub mod Listing
mod Tests
use omocha_os.Base.{ℕ, ◌+◌, ◌%◌, ◌^◌, none, some, List, ◌∷◌, drop, bit_or}
use omocha_os.Core.Process.{Process, stop, running, normal}
use omocha_os.Core.Run.{Run, ok, fault, ◌>>=◌}
use omocha_os.Core.Ipc.{set_proc}
use omocha_os.Memory.Load.{Loading, load_elf_to_proc}
use omocha_os.Memory.Paging.{PageMemory, page_alloc, create_page_dir, map_pages}
use omocha_os.Systask.Env.{Env}
use omocha_os.Systask.Processes.{last_proc, set_next}

-- The fields that slot 1 has before the program is loaded. The stack has 8 KB below 0x8000_0000.
abbrev pub prepared : Process → (page_dir : ℕ) → Process
prepared p page_dir = record p {
  status = stop;
  cs = 0x33;
  ds = 0x3B;
  es = 0x3B;
  fs = 0x3B;
  gs = 0x3B;
  ss = 0x3B;
  pstack = 0x7fff_e000;
  pstack_size = 0x2000;
  esp = 0x8000_0000;
  eflags = 0x1202;
  page_dir = page_dir;
  name = b'i' ∷ b'n' ∷ b'i' ∷ b't' ∷ 0 ∷ drop 5 p.name;
}

-- The stack, the page directory and the program; the entry of the program is the last part.
unfoldable pub address_space :
    (rounds : ℕ) → ℕ → PageMemory → (bytes : ℕ → ℕ) → (init_elf : ℕ) → Run (Loading × ℕ × ℕ)
address_space rounds fuel pages bytes init_elf = do
  (mem, stack) ← page_alloc pages.mem 2 (bit_or 0x20 0x80)
  (s1, page_dir) ← create_page_dir (record { mem = mem; words = pages.words }) 2
  (s2, r) ← map_pages fuel s1 page_dir 0x7fff_e000 stack 0x2000 7
  (loaded, entry) ← load_elf_to_proc rounds fuel s2 bytes init_elf page_dir
  ok (loaded, page_dir, entry)

-- Puts process 1 at the end of the list; an empty list is a write through NULL.
unfoldable pub link_init : ℕ → Env → Process → Run Env
link_init fuel e init =
    let k = set_proc e.kernel 1 init in
    elim (k.proc_list) [
      | none ↦ fault
      | some h ↦ do
        f ← last_proc fuel k.procs h
        let procs = set_next (set_next k.procs 1 none) f (some 1)
        let slot = record (procs 1) { status = bit_or running normal }
        ok (record e {
          kernel = set_proc (record k { procs = procs }) 1 slot;
          proc_count = (e.proc_count + 1) % 2 ^ 32;
        })
    ]

unfoldable pub start_up_init :
    (rounds : ℕ)
    → ℕ
    → Env
    → PageMemory
    → (bytes : ℕ → ℕ) → (init_elf prog_info : ℕ) → Run (Env × Loading)
unfolding link_init
start_up_init rounds fuel e pages bytes init_elf prog_info = do
  (loaded, page_dir, entry) ← address_space rounds fuel pages bytes init_elf
  let p = prepared (e.kernel.procs 1) page_dir
  e1 ← link_init fuel e (record p { prog_info = prog_info; eip = entry; pid = 1; parent_pid = 0 })
  ok (e1, loaded)
