-- ===== src/Core/Ipc.antt =====
-- Message passing: kernel/core/syscall_impl.c.
pub mod Queue
pub mod Deadlock
pub mod Cycles
mod Tests
pub mod Send
pub mod Receive
use omocha_os.Base.{
  ℕ, zero, suc, ◌+◌, Bool, true, false, not, ◌&&◌, ◌||◌, Option, none, some, List, [], ◌∷◌, get_or,
  set, ◌==◌, if◌then◌else◌,
}
use omocha_os.Base.Flags.{has, raise, lower}
use omocha_os.Core.Process.{
  Process, Message, update, running, got_int, got_exc, normal, sending, receving, proc_any,
}
use omocha_os.Core.Paging.{vir2phy}
use omocha_os.Core.Run.{Kernel, InterruptData, Run, ok, fault, out_of_fuel, ◌>>=◌, ◌>>◌, assert}
use omocha_os.Core.Scheduler.{scheduler}

-- The physical address of the message that `p->p_msg` points to.
unfoldable pub p_msg_pa : Kernel → ℕ → ℕ
p_msg_pa k p = vir2phy k.words (k.procs p).page_dir (k.procs p).p_msg

abbrev pub is_some : Option ℕ → Bool
is_some none = false
is_some (some p) = true

abbrev pub is_sending : Kernel → ℕ → Bool
is_sending k p = has (k.procs p).status sending

-- `to`: the receiver of the message that `p` is sending.
unfoldable pub target : Kernel → ℕ → ℕ
target k p = (k.messages (p_msg_pa k p)).receiver

-- The loop of `__is_dead_lock`, without the lines that it prints: does a chain of sending
-- processes lead from `p` to `src`?
unfoldable pub is_dead_lock : ℕ → Kernel → (src p : ℕ) → Run Bool
is_dead_lock zero k src p = out_of_fuel
is_dead_lock (suc fuel) k src p =
    let rest = is_dead_lock fuel k src (target k p) in
    if is_sending k p then (if target k p == src then ok true else rest) else ok false

abbrev pub set_proc : Kernel → ℕ → Process → Kernel
set_proc k p v = record k { procs = update k.procs p v }

abbrev pub set_message : Kernel → ℕ → Message → Kernel
set_message k a m = record k { messages = update k.messages a m }

abbrev pub same_proc : Option ℕ → ℕ → Bool
same_proc none q = false
same_proc (some p) q = p == q

abbrev pub set_head : (ℕ → Process) → ℕ → Option ℕ → ℕ → Process
set_head procs p v = update procs p (record (procs p) { quene_head = v })

abbrev pub set_body : (ℕ → Process) → ℕ → Option ℕ → ℕ → Process
set_body procs p v = update procs p (record (procs p) { quene_body = v })

-- `while (p->quene_body) p = p->quene_body;`
unfoldable pub last_of : ℕ → (ℕ → Process) → ℕ → Run ℕ
last_of zero procs p = out_of_fuel
last_of (suc fuel) procs p = elim ((procs p).quene_body) [
  | none ↦ ok p
  | some q ↦ last_of fuel procs q
]

-- Puts `sender` behind the senders that wait for `receiver`.
unfoldable pub append_sender : ℕ → (ℕ → Process) → (receiver sender : ℕ) → Run (ℕ → Process)
append_sender fuel procs receiver sender = do
  linked ← elim ((procs receiver).quene_head) [
    | none ↦ ok (update procs receiver (record (procs receiver) { quene_head = some sender }))
    | some p ↦ do
      q ← last_of fuel procs p
      ok (update procs q (record (procs q) { quene_body = some sender }))
  ]
  ok (update linked sender (record (linked sender) { quene_body = none }))

-- The receiver waits for this sender, or for any.
unfoldable pub is_ready : Kernel → (sender receiver : ℕ) → Bool
is_ready k sender receiver =
    has (k.procs receiver).status receving
    && ((k.messages (p_msg_pa k receiver)).ready == 1)
    && (((k.messages (p_msg_pa k receiver)).sender == proc_any)
        || ((k.messages (p_msg_pa k receiver)).sender == (k.procs sender).pid))

abbrev pub wake : ℕ → (cleared : ℕ) → ℕ
wake status cleared = raise (raise (lower status cleared) normal) running

-- The message at `msg_pa` goes to the buffer of the waiting receiver, which runs again.
unfoldable pub deliver : Kernel → (receiver msg_pa : ℕ) → Kernel
deliver k receiver msg_pa =
    let woken = set_message k (p_msg_pa k receiver) (k.messages msg_pa) in
    let p = k.procs receiver in
    set_message (set_proc woken receiver (record p { status = wake p.status receving }))
      (p_msg_pa k receiver) (record (k.messages msg_pa) { ready = 0 })

-- The sender stops until its message is fetched.
unfoldable pub suspend : ℕ → Kernel → (sender receiver msg : ℕ) → Run Kernel
suspend fuel k sender receiver msg = do
  let p = k.procs sender
  let stopped = record p { p_msg = msg; status = raise (lower p.status normal) sending }
  procs ← append_sender fuel (update k.procs sender stopped) receiver sender
  ok (record k { procs = procs })

-- `__send_msg` up to its call of `scheduler`, which is made where the flag says that the sender
-- has stopped. `debug` says whether the build defines `__DEBUG__`.
unfoldable pub post : (debug : Bool) → ℕ → Kernel → (sender msg : ℕ) → Run (Kernel × Bool)
post debug fuel k sender msg = do
  let pa = vir2phy k.words (k.procs sender).page_dir msg
  assert debug (not (pa == 0))
  let k1 = set_message k pa (record (k.messages pa) { sender = (k.procs sender).pid })
  let receiver = (k1.messages pa).receiver
  dead ← is_dead_lock fuel k1 (k.procs sender).pid receiver
  assert debug (not dead)
  assert debug (not (receiver == (k1.messages pa).sender))
  if is_ready k1 sender receiver
      then (do assert debug (not (p_msg_pa k1 receiver == 0)); ok (deliver k1 receiver pa, false))
      else (do k2 ← suspend fuel k1 sender receiver msg; ok (k2, true))

abbrev pub and_schedule : (idle : Kernel → Kernel) → ℕ → Run (Kernel × Bool) → Run Kernel
and_schedule idle fuel m = do (k, stopped) ← m; if stopped then scheduler idle fuel k else ok k

unfoldable pub send_msg :
    (debug : Bool) (idle : Kernel → Kernel) → ℕ → Kernel → (sender msg : ℕ) → Run Kernel
unfolding post
send_msg debug idle fuel k sender msg = and_schedule idle fuel (post debug fuel k sender msg)
