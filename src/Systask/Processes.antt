-- ===== src/Systask/Processes.antt =====
-- The requests of kernel/modules/systask/systask.c about processes. `address` gives the address
-- of a slot of the process table.
use omocha_os.Base.{
  ℕ, zero, suc, ◌+◌, ◌-◌, ◌%◌, ◌^◌, ◌==◌, ◌&&◌, ◌||◌, not, Bool, true, false, Option, none, some,
  List, [], ◌∷◌, map, length, ltb, if◌then◌else◌,
}
use omocha_os.Bitset.{set_bit, clear_bit, find_first_unset_bit}
use omocha_os.Core.Process.{Message, Process, update, stop}
use omocha_os.Core.Paging.{vir2phy}
use omocha_os.Core.Run.{Kernel, Run, ok, out_of_fuel, fault, ◌>>=◌}
use omocha_os.Core.Ipc.{same_proc, set_proc}
use omocha_os.Systask.Env.{Env, Method, send_back}

-- `strcmp(a, b) == 0`
unfoldable pub same_name : List ℕ → List ℕ → Bool
same_name [] [] = true
same_name [] (b ∷ ys) = false
same_name (a ∷ xs) [] = false
same_name (a ∷ xs) (b ∷ ys) = (a == b) && same_name xs ys

-- The text that the request names: `b16` is the address of `msg.data.b16` in the system task, which
-- the code translates with the page directory of the sender, and `text_at` gives the bytes up to the
-- first NUL in the memory at an address, as the request has arrived.
unfoldable pub name_of : (text_at : ℕ → List ℕ) → (b16 : ℕ) → Env → Message → List ℕ
name_of text_at b16 e m = text_at (vir2phy e.kernel.words (e.kernel.procs m.sender).page_dir b16)

-- Is the name held by one of the first `n` slots, other than `pid`?
unfoldable pub name_taken : (ℕ → Process) → List ℕ → (pid n : ℕ) → Bool
name_taken procs name pid zero = false
name_taken procs name pid (suc n) =
    name_taken procs name pid n || (same_name name (procs n).name && not (n == pid))

abbrev pub set_name : Env → ℕ → List ℕ → Env
set_name e pid name =
    let k = e.kernel in record e { kernel = set_proc k pid (record (k.procs pid) { name = name }) }

-- `__reg_proc` and the answer. A text of 16 bytes or more is written over what follows `name`.
unfoldable pub reg_proc :
    (text_at : ℕ → List ℕ) → (b16 : ℕ) → Env → Message → Run (Env × List Message)
unfolding name_of
reg_proc text_at b16 e m =
    let name = name_of text_at b16 e m in
    if name_taken e.kernel.procs name m.sender e.proc_count
    then ok (e, send_back m 0xffff_ffff)
    else if ltb (length name) 16
    then ok (set_name e m.sender name, send_back m 0)
    else fault

-- `__query_proc`, from `p` on.
unfoldable pub find_name : ℕ → (ℕ → Process) → List ℕ → Option ℕ → Run ℕ
find_name zero procs name p = out_of_fuel
find_name (suc fuel) procs name p = elim p [
  | none ↦ ok 0
  | some q ↦
      let rest = find_name fuel procs name (procs q).next in
      if same_name name (procs q).name then ok (procs q).pid else rest
]

unfoldable pub query_proc :
    (text_at : ℕ → List ℕ) → (b16 fuel : ℕ) → Env → Message → Run (Env × List Message)
query_proc text_at b16 fuel e m = do
  pid ← find_name fuel e.kernel.procs (name_of text_at b16 e m) e.kernel.proc_list
  ok (e, send_back m pid)

abbrev pub systask_pid : ℕ
systask_pid = 2

-- The case falls through to the next. The kernel has meanwhile written the pid of the system task
-- into the message that it sent, so that the second answer goes to the system task itself.
unfoldable pub unreg_proc :
    (text_at : ℕ → List ℕ) → (b16 fuel : ℕ) → Env → Message → Run (Env × List Message)
unreg_proc text_at b16 fuel e m = do
  let e' = set_name e m.sender []
  let answer = record m { receiver = m.sender; major = 0 }
  (e2, sent) ← query_proc text_at b16 fuel e' (record answer { sender = systask_pid })
  ok (e2, answer ∷ sent)

abbrev pub no_proc : Process
no_proc = record {
  cs = 0;
  ds = 0;
  es = 0;
  fs = 0;
  gs = 0;
  ss = 0;
  eip = 0;
  esp = 0;
  eflags = 0;
  page_dir = 0;
  status = 0;
  pid = 0;
  parent_pid = 0;
  name = [];
  pstack = 0;
  pstack_size = 0;
  exit_status = 0;
  p_msg = 0;
  quene_head = none;
  quene_body = none;
  next = none;
  prog_info = 0;
}

-- The last process of the list that `p` starts.
unfoldable pub last_proc : ℕ → (ℕ → Process) → ℕ → Run ℕ
last_proc zero procs p = out_of_fuel
last_proc (suc fuel) procs p = elim ((procs p).next) [
  | none ↦ ok p
  | some q ↦ last_proc fuel procs q
]

abbrev pub set_next : (ℕ → Process) → ℕ → Option ℕ → ℕ → Process
set_next procs p v = update procs p (record (procs p) { next = v })

-- Puts `p` at the end of the process list.
unfoldable pub link_proc : ℕ → Kernel → ℕ → Run Kernel
link_proc fuel k p = elim (k.proc_list) [
  | none ↦ ok (record k { proc_list = some p; procs = set_next k.procs p none })
  | some h ↦ do
    l ← last_proc fuel k.procs h
    ok (record k { procs = set_next (set_next k.procs l (some p)) p none })
]

-- A sender of another ring is only reported.
unfoldable pub alloc_proc : (address : ℕ → ℕ) → ℕ → Env → Message → Run (Env × List Message)
alloc_proc address fuel e m = do
  let pid = find_first_unset_bit e.proc_bitmap
  let k = set_proc e.kernel pid (record no_proc { status = stop })
  if pid == 0xffff_ffff then ok (e, send_back m 0) else (do
    linked ← link_proc fuel k pid
    let made = record (linked.procs pid) { parent_pid = 1; pid = pid; eflags = 0x1202 }
    ok (
      record e {
        kernel = set_proc linked pid made;
        proc_bitmap = set_bit e.proc_bitmap pid;
        proc_count = e.proc_count + 1;
      },
      send_back m (address pid),
    ))

-- The process before `target`, looked for from `p` on.
unfoldable pub find_before : ℕ → (ℕ → Process) → (p target : ℕ) → Run (Option ℕ)
find_before zero procs p target = out_of_fuel
find_before (suc fuel) procs p target = elim ((procs p).next) [
  | none ↦ ok none
  | some q ↦ let rest = find_before fuel procs q target in if q == target then ok (some p) else rest
]

-- Takes `pid` out of the process list, unless it is the head, which stays.
unfoldable pub unlink_proc : ℕ → Kernel → ℕ → Run Kernel
unlink_proc fuel k pid =
    if same_proc k.proc_list pid
    then ok (record k { proc_list = some pid })
    else elim (k.proc_list) [
      | none ↦ fault
      | some h ↦ do
        found ← find_before fuel k.procs h pid
        elim found [
          | none ↦ fault
          | some f ↦ ok (record k { procs = set_next k.procs f (k.procs pid).next })
        ]
    ]

abbrev pub drop_suscriber : ℕ → List ℕ → List ℕ
drop_suscriber pid = map (λ (p : ℕ). if p == pid then 0 else p)

abbrev pub drop_method : ℕ → List Method → List Method
drop_method pid =
    map (λ (f : Method). if f.pid == pid then record f { pid = 0; avail = 0; func = 0 } else f)

-- No answer is sent.
unfoldable pub exit_proc : ℕ → Env → Message → Run (Env × List Message)
exit_proc fuel e m = do
  let pid = m.major
  let named = set_name e pid []
  let stack = (named.kernel.procs pid).pstack
  let own_stack = not (stack == 0) && ltb stack e.core_space_free_end
  k ← unlink_proc fuel named.kernel pid
  ok (
    record named {
      kernel = set_proc k pid no_proc;
      interrupt_suscribed = drop_suscriber pid e.interrupt_suscribed;
      interrupt_methods = drop_method pid e.interrupt_methods;
      proc_bitmap = clear_bit e.proc_bitmap pid;
      proc_count = (e.proc_count + 2 ^ 32 - 1) % 2 ^ 32;
      freed = if own_stack then stack ∷ e.freed else e.freed;
    },
    [],
  )
