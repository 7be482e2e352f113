-- ===== src/Systask/Tests.antt =====
-- The theorems on the system task at a table of four processes.
use omocha_os.Base.{
  ℕ, zero, suc, ◌<◌, ◌++◌, List, ◌≡◌, ◌≢◌, refl, true, none, some, [], ◌∷◌, ◌==◌, get_or, arith,
  if◌then◌else◌, replicate,
}
use omocha_os.Base.Flags.{has}
use omocha_os.Bitset.{check_bit}
use omocha_os.Core.Process.{Message, Process, stop}
use omocha_os.Core.Paging.{vir2phy}
use omocha_os.Core.Ipc.Queue.{mem}
use omocha_os.Core.Run.{ok}
use omocha_os.Systask.Env.{Env, send_back}
use omocha_os.Systask.Interrupts.{no_method}
use omocha_os.Systask.Processes.{
  no_proc, name_of, name_taken, same_name, reg_proc, query_proc, alloc_proc, exit_proc,
}
use omocha_os.Systask.ProcList.{Listed}
use omocha_os.Systask.Lifecycle.{alloc_proc-Listed, exit_proc-Listed}
use omocha_os.Systask.Names.{query_proc-reg_proc}

-- Processes 0 to 3, each with the next behind it in the list.
abbrev four : ℕ → Process
four p = record no_proc {
  cs = 0x21;
  status = 1;
  pid = p;
  name = if p == 2 then 65 ∷ [] else [];
  next = if p == 3 then none else some (suc p);
}

abbrev request : (sender type major : ℕ) → Message
request sender type major = record {
  sender = sender;
  receiver = 2;
  ready = 0;
  type = type;
  major = major;
  d1 = 66;
  d2 = 0;
  d3 = 0;
  d4 = 0;
}

abbrev env : Env
env = record {
  kernel = record {
    procs = four;
    messages = λ a. request 0 0 0;
    words = λ a. 0x81;
    proc_list = some 0;
    proc_running = some 2;
    interrupt_data = [];
    exception_data = [];
  };
  beats = 7;
  mem_lower = 640;
  mem_upper = 65536;
  boot_info = 0 ∷ [];
  core_vend = 0x8010_0000;
  core_space_start = 0;
  core_space_free_start = 0;
  core_space_free_end = 0x40_0000;
  core_space_end = 0;
  memory_end = 0;
  memory_zone = [];
  memory_zone_count = 0;
  proc_table = 0;
  proc_count = 4;
  proc_max = 64;
  proc_bitmap = 15 ∷ [];
  interrupt_methods = replicate 16 no_method;
  interrupt_suscribed = 0 ∷ 3 ∷ replicate 14 0;
  exception_suscribed = replicate 32 0;
  copies = [];
  freed = [];
}

-- The text of each request.
abbrev registered : ℕ → List ℕ
registered a = 66 ∷ []

-- The bits of the four are set.
taken : (x : ℕ) → mem x (0 ∷ 1 ∷ 2 ∷ 3 ∷ []) ≡ true → check_bit env.proc_bitmap x ≡ 1
unfolding check_bit has
taken zero i = refl
taken (suc zero) i = refl
taken (suc (suc zero)) i = refl
taken (suc (suc (suc zero))) i = refl
taken (suc (suc (suc (suc x)))) i = absurd (ground arith)

abbrev all_four : Listed four (some 0) (0 ∷ 1 ∷ 2 ∷ 3 ∷ [])
all_four = (refl, refl, (refl, refl, (refl, refl, (refl, refl, refl))))

alloc_proc-Listed_example :
    (pid : ℕ) × (e' : Env) × (check_bit env.proc_bitmap pid ≡ 0)
    × ((j : ℕ) → j < pid → check_bit env.proc_bitmap j ≡ 1)
    × (alloc_proc (λ p. p) 5 env (request 1 13 0) ≡ ok (e', send_back (request 1 13 0) pid))
    × Listed e'.kernel.procs e'.kernel.proc_list ((0 ∷ 1 ∷ 2 ∷ 3 ∷ []) ++ (pid ∷ []))
    × ((e'.kernel.procs pid).status ≡ stop)
    × ((e'.kernel.procs pid).pid ≡ pid)
    × ((e'.kernel.procs pid).parent_pid ≡ 1)
    × ((j : ℕ) → check_bit e'.proc_bitmap j ≡ (if pid == j then 1 else check_bit env.proc_bitmap j))
unfolding check_bit has
alloc_proc-Listed_example =
    alloc_proc-Listed (λ p. p) 5 env (request 1 13 0) (0 ∷ 1 ∷ 2 ∷ 3 ∷ []) 15 [] refl (omega arith)
      (λ x i. taken x i) all_four (omega arith)

exit_proc-Listed_example :
    (e' : Env) × (exit_proc 5 env (request 2 11 3) ≡ ok (e', []))
    × Listed e'.kernel.procs e'.kernel.proc_list (0 ∷ 1 ∷ 2 ∷ [])
    × (e'.kernel.procs 3 ≡ no_proc)
    × ((i : ℕ) → get_or e'.interrupt_suscribed i 0 ≢ 3)
    × ((i : ℕ) → (get_or e'.interrupt_methods i no_method).pid ≢ 3)
exit_proc-Listed_example =
    exit_proc-Listed 5 env (request 2 11 3) 0 (1 ∷ 2 ∷ []) [] (omega arith) all_four (omega arith)

-- Process 3 registers the name "B", which process 1 then asks for.
query_proc-reg_proc_example :
    (e' : Env) × (reg_proc registered 0x5000 env (request 3 2 0)
      ≡ ok (e', send_back (request 3 2 0) 0))
    × (query_proc registered 0x5000 5 e' (request 1 4 0) ≡ ok (e', send_back (request 1 4 0) 3))
unfolding name_of name_taken same_name vir2phy has
query_proc-reg_proc_example =
    query_proc-reg_proc registered registered 0x5000 5 env (request 3 2 0) (request 1 4 0)
      (0 ∷ 1 ∷ 2 ∷ 3 ∷ []) refl (omega arith) refl all_four refl (λ x h. ground arith) refl
      (omega arith)
