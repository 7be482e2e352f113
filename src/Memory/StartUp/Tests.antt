-- ===== src/Memory/StartUp/Tests.antt =====
-- The start of a process whose program has no segment.
use omocha_os.Base.{
  ℕ, ◌-◌, ◌%◌, ◌≡◌, refl, false, none, some, [], ◌∷◌, ◌++◌, replicate, get_or, arith,
}
use omocha_os.Base.Flags.{has, raise}
use omocha_os.Core.Run.{Run, ok}
use omocha_os.Core.Scheduler.{is_unrunable}
use omocha_os.Memory.Buddy.{allocate_pages_of_power_2, take_first, split}
use omocha_os.Memory.Elf.{ehdr_at}
use omocha_os.Memory.Load.{Loading, load_elf_to_proc, load_segments}
use omocha_os.Memory.Paging.{
  PageMemory, page_alloc, round_up_power_2, trailing_zero, create_page_dir, map_pages, map_loop,
  create_page_table, get_pte, fill_entry, clear_page,
}
use omocha_os.Systask.Env.{Env}
use omocha_os.Systask.Processes.{no_proc}
use omocha_os.Systask.ProcList.{Listed}
use omocha_os.Memory.StartUp.{address_space, start_up_init}
use omocha_os.Memory.StartUp.Listing.{start_up_init-Listed}

-- Eight free pages at 0x40_0000.
abbrev eight : PageMemory
eight = record {
  mem = record {
    free_list = 0 ∷ 0 ∷ 0 ∷ 0x40_0000 ∷ replicate 7 0;
    free_count = 0 ∷ 0 ∷ 0 ∷ 1 ∷ replicate 7 0;
    buddy_map = replicate 11 (0 ∷ []);
    memory_start = 0x40_0000;
    usable_end = 0x50_0000;
    pages_info = λ i. record { type = 17; reference = 0 };
    links = λ a. record { prev = 0; next = 0 };
  };
  words = λ a. 0;
}

-- The header of a program that starts at 0x1234, at 0x1000.
abbrev file : ℕ → ℕ
file a =
    get_or
      (0x7F ∷ b'E' ∷ b'L' ∷ b'F' ∷ 1 ∷ 1 ∷ 1 ∷ replicate 9 0
        ++ (2 ∷ 0 ∷ 3 ∷ 0 ∷ 1 ∷ 0 ∷ 0 ∷ 0 ∷ 0x34 ∷ 0x12 ∷ 0 ∷ 0 ∷ replicate 14 0
            ++ (32 ∷ 0 ∷ 0 ∷ 0 ∷ 40 ∷ 0 ∷ [])))
      (a - 0x1000) 0

abbrev space : Run (Loading × ℕ × ℕ)
space = address_space 1 4 eight file 0x1000

abbrev result : Run (Loading × ℕ × ℕ) → Loading × ℕ × ℕ
result (ok r) = r
result _ = (
  record {
    pages = eight;
    bytes = file;
    pgi = record { image_start = 0; program_break = 0; program_size = 0 };
  },
  0,
  0,
)

ran : space ≡ ok ((result space).0, 0x40_5000, 0x1234)
unfolding address_space page_alloc round_up_power_2 trailing_zero create_page_dir map_pages map_loop
    create_page_table get_pte fill_entry clear_page load_elf_to_proc ehdr_at load_segments
    allocate_pages_of_power_2 take_first split has raise
ran = refl

-- Process 0 is the only one in the list.
abbrev idle : Env
idle = record {
  kernel = record {
    procs = λ p. no_proc;
    messages = λ a. record {
      sender = 0;
      receiver = 0;
      ready = 0;
      type = 0;
      major = 0;
      d1 = 0;
      d2 = 0;
      d3 = 0;
      d4 = 0;
    };
    words = λ a. 0;
    proc_list = some 0;
    proc_running = none;
    interrupt_data = [];
    exception_data = [];
  };
  beats = 0;
  mem_lower = 640;
  mem_upper = 65536;
  boot_info = [];
  core_vend = 0;
  core_space_start = 0;
  core_space_free_start = 0;
  core_space_free_end = 0;
  core_space_end = 0;
  memory_end = 0;
  memory_zone = [];
  memory_zone_count = 0;
  proc_table = 0;
  proc_count = 1;
  proc_max = 64;
  proc_bitmap = 3 ∷ [];
  interrupt_methods = [];
  interrupt_suscribed = [];
  exception_suscribed = [];
  copies = [];
  freed = [];
}

start_up_init-Listed_example :
    (e' : Env) × (start_up_init 1 4 idle eight file 0x1000 7 ≡ ok (e', (result space).0))
    × Listed e'.kernel.procs e'.kernel.proc_list (0 ∷ 1 ∷ [])
    × (is_unrunable (e'.kernel.procs 1).status ≡ false)
    × ((e'.kernel.procs 1).cs % 4 ≡ 3)
    × ((e'.kernel.procs 1).page_dir ≡ 0x40_5000)
    × ((e'.kernel.procs 1).eip ≡ 0x1234)
    × ((e'.kernel.procs 1).esp ≡ 0x8000_0000)
    × (e'.proc_count ≡ 2)
start_up_init-Listed_example =
    start_up_init-Listed 1 4 idle eight file 0x1000 7 (result space).0 0x40_5000 0x1234 0 [] ran
      (refl, refl, refl) refl (omega arith)
