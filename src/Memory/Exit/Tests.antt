-- ===== src/Memory/Exit/Tests.antt =====
-- Five processes in the list: process 2, which waits, is the parent of 3, and 3 is that of 4.
use omocha_os.Base.{
  ℕ, suc, ◌≡◌, refl, none, some, [], ◌∷◌, ◌==◌, ◌&&◌, arith, if◌then◌else◌, replicate,
}
use omocha_os.Core.Process.{Process}
use omocha_os.Core.Run.{ok}
use omocha_os.Core.Ipc.Queue.{mem}
use omocha_os.Systask.Env.{Env}
use omocha_os.Systask.Interrupts.{no_method}
use omocha_os.Systask.Processes.{no_proc}
use omocha_os.Systask.ProcList.{Listed}
use omocha_os.Memory.Exit.{Task, proc_of, message_to, adopt_children}
use omocha_os.Memory.Exit.Adopt.{adopt_children-Adopted}

abbrev family : ℕ → Process
family p = record no_proc {
  pid = p;
  parent_pid = if p == 4 then 3 else if p == 3 then 2 else 1;
  status = if p == 2 then 0x101 else if p == 4 then 0x210 else 1;
  exit_status = 9;
  next = if p == 4 then none else some (suc p);
}

abbrev family_env : Env
family_env = record {
  kernel = record {
    procs = family;
    messages = λ a. message_to 0 0 0 0;
    words = λ a. 0;
    proc_list = some 0;
    proc_running = some 2;
    interrupt_data = [];
    exception_data = [];
  };
  beats = 0;
  mem_lower = 640;
  mem_upper = 65536;
  boot_info = 0 ∷ [];
  core_vend = 0x8010_0000;
  core_space_start = 0;
  core_space_free_start = 0;
  core_space_free_end = 0x40_0000;
  core_space_end = 0;
  memory_end = 0;
  memory_zone = [];
  memory_zone_count = 0;
  proc_table = 0;
  proc_count = 5;
  proc_max = 64;
  proc_bitmap = 31 ∷ [];
  interrupt_methods = replicate 16 no_method;
  interrupt_suscribed = replicate 16 0;
  exception_suscribed = replicate 32 0;
  copies = [];
  freed = [];
}

abbrev idle_task : Task
idle_task = record { env = family_env; sent = []; requests = [] }

abbrev whole_family : Listed family (some 0) (0 ∷ 1 ∷ 2 ∷ 3 ∷ 4 ∷ [])
whole_family = (refl, refl, (refl, refl, (refl, refl, (refl, refl, (refl, refl, refl)))))

-- The children of process 3 go to process 1.
adopt_children-Adopted_example :
    (t' : Task) × (adopt_children 6 idle_task 3 (some 0) ≡ ok t')
    × ((q : ℕ)
        → (proc_of t' q).parent_pid ≡ (
            if mem q (0 ∷ 1 ∷ 2 ∷ 3 ∷ 4 ∷ []) && ((family q).parent_pid == 3)
            then 1
            else (family q).parent_pid))
    × ((q : ℕ) → (proc_of t' q).next ≡ (family q).next)
adopt_children-Adopted_example =
    adopt_children-Adopted (0 ∷ 1 ∷ 2 ∷ 3 ∷ 4 ∷ []) 6 idle_task 3 (some 0) (omega arith)
      whole_family
