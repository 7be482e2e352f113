-- ===== src/Systask/Spawn.antt =====
-- `init_proc` of kernel/core/process.c, which starts the tasks of the kernel. `stack` is the page
-- that `kalloc_pages` gives.
use omocha_os.Base.{
  ℕ, ◌+◌, ◌-◌, ◌%◌, ◌^◌, ◌<◌, ◌≡◌, refl, ap, ◌∙◌, Bool, false, not, ◌==◌, ◌||◌, List, [], ◌∷◌, ◌++◌,
  length, leb, if◌then◌else◌, arith,
}
use omocha_os.Bitset.{check_bit, set_bit, find_first_unset_bit}
use omocha_os.Core.Process.{Process, proc_interrupt, proc_any, running}
use omocha_os.Core.Run.{Run, ok, ◌>>=◌, ◌>>◌, assert, assert-true}
use omocha_os.Core.Scheduler.{is_unrunable}
use omocha_os.Core.Ipc.{set_proc}
use omocha_os.Core.Ipc.Queue.{mem}
use omocha_os.Systask.Env.{Env, in_table}
use omocha_os.Systask.Processes.{link_proc}
use omocha_os.Systask.ProcList.{Listed, Listed-frame, link_proc-Listed}

-- The number asked for, or the first free one where that is taken or stands for no process.
unfoldable pub choose_pid : List ℕ → ℕ → ℕ
choose_pid bits pid =
    if (pid == proc_interrupt) || (pid == proc_any) || (check_bit bits pid == 1)
    then find_first_unset_bit bits
    else pid

-- The fields that the slot gets.
abbrev pub started : Process → (pid entry page_dir stack : ℕ) → Process
started p pid entry page_dir stack = record p {
  pstack = stack;
  pstack_size = 0x1000;
  cs = 0x21;
  ds = 0x29;
  gs = 0x29;
  es = 0x29;
  fs = 0x29;
  ss = 0x29;
  eip = entry;
  esp = (stack + 0x1000) % 2 ^ 32;
  eflags = 0x1202;
  page_dir = (page_dir + 2 ^ 32 - 0x8000_0000) % 2 ^ 32;
  status = running;
  pid = pid;
  parent_pid = if (pid == 1) || (pid == 0) then 0 else 1;
}

unfoldable pub init_proc :
    (debug : Bool) → ℕ → Env → (asked entry page_dir stack : ℕ) → Run (Env × ℕ)
init_proc debug fuel e asked entry page_dir stack = do
  let pid = choose_pid e.proc_bitmap asked
  assert debug (not (pid == 0xffff_ffff))
  assert debug (leb pid e.proc_max)
  in_table pid e.proc_max
  let slot = started (e.kernel.procs pid) pid entry page_dir stack
  k ← link_proc fuel (set_proc e.kernel pid slot) pid
  ok (
    record e { kernel = k; proc_bitmap = set_bit e.proc_bitmap pid; proc_count = e.proc_count + 1 },
    pid,
  )

-- A free number below the size of the table, and not in the process list, is given if asked for.
-- The new process stands at the end of the list, can be scheduled, starts at its entry on top of
-- its stack, and has its bit set. The entries of the list are distinct, and fewer than the fuel.
init_proc-Listed :
    (debug : Bool) (fuel : ℕ) (e : Env) (pid entry page_dir stack : ℕ) (xs : List ℕ)
    → check_bit e.proc_bitmap pid ≡ 0
    → pid < e.proc_max
    → e.proc_max < proc_any
    → Listed e.kernel.procs e.kernel.proc_list xs
    → mem pid xs ≡ false
    → length xs < fuel
    → (e' : Env) × (init_proc debug fuel e pid entry page_dir stack ≡ ok (e', pid))
      × Listed e'.kernel.procs e'.kernel.proc_list (xs ++ (pid ∷ []))
      × (is_unrunable (e'.kernel.procs pid).status ≡ false)
      × ((e'.kernel.procs pid).eip ≡ entry)
      × ((e'.kernel.procs pid).esp ≡ (stack + 0x1000) % 2 ^ 32)
      × (e'.proc_bitmap ≡ set_bit e.proc_bitmap pid)
unfolding init_proc choose_pid is_unrunable
init_proc-Listed debug fuel e pid entry page_dir stack xs free low few w new h =
    let slot = started (e.kernel.procs pid) pid entry page_dir stack in
    let k = set_proc e.kernel pid slot in
    let before : Listed k.procs k.proc_list xs =
      Listed-frame xs e.kernel.procs k.procs e.kernel.proc_list w (λ x i. ground arith) in
    let (linked, done, list, same) = link_proc-Listed xs fuel k pid before new h in
    let status : (linked.procs pid).status ≡ running =
      ap (λ (q : Process). q.status) (same pid) ∙ ground arith in
    (
      record e {
        kernel = linked;
        proc_bitmap = set_bit e.proc_bitmap pid;
        proc_count = e.proc_count + 1;
      },
      ground (arith, free, done, assert-true debug),
      list,
      ap is_unrunable status ∙ refl,
      ap (λ (q : Process). q.eip) (same pid) ∙ ground arith,
      ap (λ (q : Process). q.esp) (same pid) ∙ ground arith,
      refl,
    )
