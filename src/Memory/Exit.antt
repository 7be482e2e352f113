-- ===== src/Memory/Exit.antt =====
-- The end of processes and the wait for them: kernel/modules/memory/exit.c, without the pages that
-- `free_proc` gives back. The number of a process is its slot in the table. `exit_proc` sends a
-- request that the system task takes when the memory task next waits for an answer of it, which
-- `get_proc` and `get_proc_list_head` do.
pub mod Wait
pub mod Adopt
pub mod Orphans
mod Tests
use omocha_os.Base.{
  ℕ, zero, suc, ◌+◌, Bool, true, false, not, Option, none, some, List, [], ◌∷◌, ◌++◌, ◌==◌,
  if◌then◌else◌, ◌&&◌,
}
use omocha_os.Base.Flags.{has, raise, lower}
use omocha_os.Core.Process.{Process, Message, update, stop, wating, hanging}
use omocha_os.Core.Run.{Run, ok, out_of_fuel, ◌>>=◌}
use omocha_os.Core.Ipc.{set_proc}
use omocha_os.Systask.Env.{Env}
use omocha_os.Systask.Processes.{exit_proc}

-- `sent` are the messages to processes, `requests` the messages to the system task that it has not
-- taken yet, each in the order of sending.
pub record Task : Type 0 where
  pub env : Env
  pub sent : List Message
  pub requests : List Message

abbrev pub proc_of : Task → ℕ → Process
proc_of t pid = t.env.kernel.procs pid

abbrev pub set_task_proc : Task → ℕ → Process → Task
set_task_proc t pid v = record t { env = record t.env { kernel = set_proc t.env.kernel pid v } }

-- A message of the memory task. The kernel fills in the sender; what the code leaves unset is 0.
abbrev pub message_to : (receiver type major d1 : ℕ) → Message
message_to receiver type major d1 = record {
  sender = 0;
  receiver = receiver;
  ready = 0;
  type = type;
  major = major;
  d1 = d1;
  d2 = 0;
  d3 = 0;
  d4 = 0;
}

-- EXIT_PROC is 11, and the system task is process 2.
abbrev pub exit_request : ℕ → Message
exit_request pid = message_to 2 11 pid 0

unfoldable pub serve_all : ℕ → List Message → Env → Run Env
serve_all fuel [] e = ok e
serve_all fuel (m ∷ ms) e = do (e1, answers) ← exit_proc fuel e m; serve_all fuel ms e1

-- The system task takes the requests that are there.
unfoldable pub serve : ℕ → Task → Run Task
unfolding serve_all
serve fuel t = do
  e ← serve_all fuel t.requests t.env
  ok (record { env = e; sent = t.sent; requests = [] })

unfoldable pub set_proc_exit : ℕ → Task → (pid exit_status : ℕ) → Run Task
set_proc_exit fuel t pid exit_status = do
  t1 ← serve fuel t
  ok (
      set_task_proc t1 pid
        (record (proc_of t1 pid) { exit_status = exit_status; status = raise hanging stop }))

unfoldable pub send_exit_to_parent : Task → ℕ → Task
send_exit_to_parent t proc =
    let p = proc_of t proc in
    record t {
      sent = t.sent ++ (message_to p.parent_pid 0x1234_4321 p.exit_status p.pid ∷ []);
      requests = t.requests ++ (exit_request p.pid ∷ []);
    }

-- The parent is told if it waits; else the process stays as a zombie.
unfoldable pub tell_parent : Task → (proc parent : ℕ) → Task
unfolding send_exit_to_parent
tell_parent t proc parent =
    let p = proc_of t parent in
    let q = proc_of t proc in
    if has p.status wating
    then send_exit_to_parent (set_task_proc t parent (record p { status = lower p.status wating }))
        proc
    else set_task_proc t proc (record q { status = raise q.status hanging })

-- One process of the list: a child of `proc` goes to process 1, which is told of a zombie that it
-- waits for.
unfoldable pub adopt_one : Task → (proc p : ℕ) → Task
unfolding send_exit_to_parent
adopt_one t proc p =
    let adopted = set_task_proc t p (record (proc_of t p) { parent_pid = 1 }) in
    let init = proc_of adopted 1 in
    let told =
      send_exit_to_parent
        (set_task_proc adopted 1 (record init { status = lower init.status wating })) p in
    if not ((proc_of t p).parent_pid == (proc_of t proc).pid)
    then t
    else if has (proc_of adopted p).status hanging && has init.status wating
    then told
    else adopted

unfoldable pub adopt_children : ℕ → Task → (proc : ℕ) → Option ℕ → Run Task
adopt_children zero t proc p = out_of_fuel
adopt_children (suc fuel) t proc p = elim p [
  | none ↦ ok t
  | some q ↦ let t1 = adopt_one t proc q in adopt_children fuel t1 proc (proc_of t1 q).next
]

-- The panic for a process whose parent is 0 only prints.
unfoldable pub mem_exit_proc : ℕ → Task → ℕ → Run Task
mem_exit_proc fuel t proc = do
  t1 ← serve fuel t
  t2 ← serve fuel (tell_parent t1 proc (proc_of t proc).parent_pid)
  adopt_children fuel t2 proc t2.env.kernel.proc_list

-- The loop of `wait_proc`: the first zombie child, and the number of children before it.
unfoldable pub find_zombie :
    ℕ → (ℕ → Process) → (parent_pid children : ℕ) → Option ℕ → Run (Option ℕ × ℕ)
find_zombie zero procs parent_pid children p = out_of_fuel
find_zombie (suc fuel) procs parent_pid children p = elim p [
  | none ↦ ok (none, children)
  | some q ↦
      let is_child = (procs q).parent_pid == parent_pid in
      let rest =
        find_zombie fuel procs parent_pid (if is_child then children + 1 else children)
          (procs q).next in
      if is_child && has (procs q).status hanging then ok (some q, children + 1) else rest
]

unfoldable pub wait_proc : ℕ → Task → ℕ → Run Task
unfolding send_exit_to_parent
wait_proc fuel t parent_pid = do
  t1 ← serve fuel t
  (zombie, children) ← find_zombie fuel t1.env.kernel.procs parent_pid 0 t1.env.kernel.proc_list
  let p = proc_of t1 parent_pid
  let waits = set_task_proc t1 parent_pid (record p { status = raise p.status wating })
  let alone : Task = record t1 { sent = t1.sent ++ (message_to parent_pid 0x4321_1234 1 0 ∷ []) }
  ok (elim zombie [
    | some q ↦ send_exit_to_parent t1 q
    | none ↦ if children == 0 then alone else waits
  ])
