-- ===== src/Memory/StartUp/Listing.antt =====
-- The process list after `start_up_init` of kernel/modules/memory/memory_init.c.
use omocha_os.Base.{
  ℕ, ◌+◌, ◌%◌, ◌^◌, ◌<◌, ◌≡◌, ◌≢◌, refl, ap, ◌∙◌, false, none, some, List, [], ◌∷◌, ◌++◌, length,
  arith,
}
use omocha_os.Core.Process.{Process, update}
use omocha_os.Core.Run.{ok}
use omocha_os.Core.Ipc.{set_proc}
use omocha_os.Core.Ipc.Queue.{mem, mem-append, mem-final, final}
use omocha_os.Core.Scheduler.{is_unrunable}
use omocha_os.Memory.Load.{Loading}
use omocha_os.Memory.Paging.{PageMemory}
use omocha_os.Memory.StartUp.{prepared, address_space, link_init, start_up_init}
use omocha_os.Systask.Env.{Env}
use omocha_os.Systask.ProcList.{Listed, Listed-frame, Listed-snoc, last_proc-final}
use omocha_os.Systask.Processes.{set_next}

-- The table with slot 1 behind `f`.
behind : (ℕ → Process) → (f : ℕ) → ℕ → Process
behind procs f =
    let linked = set_next (set_next procs 1 none) f (some 1) in
    update linked 1 (record (linked 1) { status = 1 })

link_init-Listed :
    (fuel : ℕ) (e : Env) (init : Process) (x : ℕ) (xs : List ℕ)
    → Listed e.kernel.procs e.kernel.proc_list (x ∷ xs)
    → mem 1 (x ∷ xs) ≡ false
    → length xs < fuel
    → (e' : Env) × (link_init fuel e init ≡ ok e')
      × Listed e'.kernel.procs e'.kernel.proc_list ((x ∷ xs) ++ (1 ∷ []))
      × (e'.kernel.procs 1 ≡ record init { status = 1; next = none })
      × (e'.proc_count ≡ (e.proc_count + 1) % 2 ^ 32)
unfolding link_init behind
link_init-Listed fuel e init x xs w new h =
    let k = set_proc e.kernel 1 init in
    let before : Listed k.procs k.proc_list (x ∷ xs) =
      Listed-frame (x ∷ xs) e.kernel.procs k.procs e.kernel.proc_list w (λ y i. ground arith) in
    let procs = behind k.procs (final x xs) in
    let other : final x xs ≢ 1 = λ q. ground (arith, q, mem-final x xs) in
    let last = last_proc-final xs x k.procs fuel before.2 h in
    (
      record e { kernel = record k { procs = procs }; proc_count = (e.proc_count + 1) % 2 ^ 32 },
      ground (arith, w.0, last),
      (
        w.0,
        ground (arith, mem-append x xs (1 ∷ [])),
        Listed-snoc k.procs procs 1 (ground (arith, other)) xs x before.1 before.2 new
            (ground (arith, other)) (λ y n m. ground (arith, n, m)),
      ),
      ground (arith, other),
      refl,
    )

-- Where the stack, the page directory and the program of `init` are set up, and the process list is
-- not empty, has distinct entries, process 1 not among them, and fewer than the fuel: process 1
-- stands at the end of the list and can be scheduled, in ring 3, in its own address space, at the
-- entry of the program, with its stack at 0x8000_0000, and the count of processes is one more.
pub start_up_init-Listed :
    (rounds fuel : ℕ) (e : Env) (pages : PageMemory) (bytes : ℕ → ℕ) (init_elf prog_info : ℕ)
    (loaded : Loading) (page_dir entry x : ℕ) (xs : List ℕ)
    → address_space rounds fuel pages bytes init_elf ≡ ok (loaded, page_dir, entry)
    → Listed e.kernel.procs e.kernel.proc_list (x ∷ xs)
    → mem 1 (x ∷ xs) ≡ false
    → length xs < fuel
    → (e' : Env) × (start_up_init rounds fuel e pages bytes init_elf prog_info ≡ ok (e', loaded))
      × Listed e'.kernel.procs e'.kernel.proc_list ((x ∷ xs) ++ (1 ∷ []))
      × (is_unrunable (e'.kernel.procs 1).status ≡ false)
      × ((e'.kernel.procs 1).cs % 4 ≡ 3)
      × ((e'.kernel.procs 1).page_dir ≡ page_dir)
      × ((e'.kernel.procs 1).eip ≡ entry)
      × ((e'.kernel.procs 1).esp ≡ 0x8000_0000)
      × (e'.proc_count ≡ (e.proc_count + 1) % 2 ^ 32)
unfolding start_up_init is_unrunable
start_up_init-Listed rounds fuel e pages bytes init_elf prog_info loaded page_dir entry x xs space w
      new h =
    let p = prepared (e.kernel.procs 1) page_dir in
    let init : Process = record p { prog_info = prog_info; eip = entry; pid = 1; parent_pid = 0 } in
    let (e', done, list, slot, count) = link_init-Listed fuel e init x xs w new h in
    (
      e',
      ground (arith, space, done),
      list,
      ap (λ (q : Process). is_unrunable q.status) slot ∙ refl,
      ap (λ (q : Process). q.cs % 4) slot ∙ refl,
      ap (λ (q : Process). q.page_dir) slot,
      ap (λ (q : Process). q.eip) slot,
      ap (λ (q : Process). q.esp) slot,
      count,
    )
