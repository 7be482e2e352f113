-- ===== src/Core/Ipc/Receive.antt =====
-- `__recv_msg` of kernel/core/syscall_impl.c.
pub mod Pending
pub mod Unlink
pub mod Fetch
use omocha_os.Base.{
  ℕ, zero, suc, ◌+◌, Bool, true, false, not, ◌&&◌, ◌||◌, Option, none, some, List, [], ◌∷◌, get_or,
  set, ◌==◌, if◌then◌else◌,
}
use omocha_os.Base.Flags.{has, raise, lower}
use omocha_os.Core.Process.{
  Process, running, got_int, got_exc, sending, receving, proc_any, proc_interrupt,
}
use omocha_os.Core.Paging.{vir2phy}
use omocha_os.Core.Run.{Kernel, InterruptData, Run, ok, fault, out_of_fuel, ◌>>=◌, ◌>>◌, assert}
use omocha_os.Core.Ipc.{
  p_msg_pa, is_sending, target, is_some, same_proc, set_proc, set_message, set_head, set_body, wake,
  and_schedule,
}

-- The scan for a pending interrupt: the number found, 0 if there is none, and whether a second
-- one is pending. `i` is the number of the first entry of the list.
unfoldable pub scan_pending : List InterruptData → (i irq : ℕ) → ℕ × Bool
scan_pending [] i irq = (irq, false)
scan_pending (d ∷ ds) i irq =
    let rest = scan_pending ds (i + 1) (if d.avail == 1 then i else irq) in
    if (d.avail == 1) && not (irq == 0) then (irq, true) else rest

-- The same for exceptions, which also carry a word.
unfoldable pub scan_exception : List InterruptData → (i exc info : ℕ) → ℕ × ℕ × Bool
scan_exception [] i exc info = (exc, info, false)
scan_exception (d ∷ ds) i exc info =
    let hit = d.avail == 1 in
    let rest = scan_exception ds (i + 1) (if hit then i else exc) (if hit then d.info else info) in
    if hit && not (exc == 0) then (exc, info, true) else rest

abbrev pub no_data : InterruptData
no_data = record { avail = 0; info = 0 }

abbrev pub msg_interrupt : ℕ
msg_interrupt = 0x7fff_ffff

abbrev pub msg_exception : ℕ
msg_exception = 0x7eee_eeee

-- Interrupt `irq` is told to `receiver` and is no longer pending.
unfoldable pub tell_interrupt : Kernel → (receiver pa irq : ℕ) → (second : Bool) → Kernel
tell_interrupt k receiver pa irq second =
    let p = k.procs receiver in
    let left = if second then p.status else lower p.status got_int in
    let m = record (k.messages pa) { type = msg_interrupt; major = irq; sender = proc_interrupt } in
    record (set_message (set_proc k receiver (record p { status = left })) pa m) {
      interrupt_data =
          set k.interrupt_data irq (record (get_or k.interrupt_data irq no_data) { avail = 0 });
    }

-- The branch of `__recv_msg` for a pending interrupt.
unfoldable pub take_interrupt : (debug : Bool) → Kernel → (receiver pa : ℕ) → Run Kernel
unfolding tell_interrupt
take_interrupt debug k receiver pa = do
  let (irq, second) = scan_pending k.interrupt_data 0 0
  assert debug (not (irq == 0))
  ok (tell_interrupt k receiver pa irq second)

-- Exception `exc` is told to `receiver` and is no longer pending.
unfoldable pub tell_exception : Kernel → (receiver pa exc info : ℕ) → (second : Bool) → Kernel
tell_exception k receiver pa exc info second =
    let p = k.procs receiver in
    let left = if second then p.status else lower p.status got_exc in
    let m = record (k.messages pa) {
      type = msg_exception;
      major = exc;
      d1 = info;
      sender = proc_interrupt;
    } in
    record (set_message (set_proc k receiver (record p { status = left })) pa m) {
      exception_data =
          set k.exception_data exc (record (get_or k.exception_data exc no_data) { avail = 0 });
    }

-- The branch for a pending exception.
unfoldable pub take_exception : (debug : Bool) → Kernel → (receiver pa : ℕ) → Run Kernel
unfolding tell_exception
take_exception debug k receiver pa = do
  let (exc, info, second) = scan_exception k.exception_data 0 0 0
  assert debug (not (exc == 0))
  ok (tell_exception k receiver pa exc info second)

-- The receiver stops until a message comes.
unfoldable pub await : Kernel → (receiver pa msg from : ℕ) → Kernel
await k receiver pa msg from =
    let p = k.procs receiver in
    let stopped = record p { p_msg = msg; status = raise (lower p.status running) receving } in
    set_proc (set_message k pa (record (k.messages pa) { ready = 1; sender = from })) receiver
      stopped

-- `while (p)`: looks for `sender` in the queue, with the process before it. `none`: it is not
-- there.
unfoldable pub find_prev :
    ℕ → (ℕ → Process) → (prev : ℕ) → (p : Option ℕ) → (sender : ℕ) → Run (Option ℕ)
find_prev zero procs prev p sender = out_of_fuel
find_prev (suc fuel) procs prev p sender = elim p [
  | none ↦ ok none
  | some q ↦
      let rest = find_prev fuel procs q (procs q).quene_body sender in
      if q == sender then ok (some prev) else rest
]

-- Takes `sender` out of the queue of `receiver`.
unfoldable pub unlink :
    (debug : Bool) → ℕ → (ℕ → Process) → (receiver sender : ℕ) → Run (ℕ → Process)
unfolding find_prev
unlink debug fuel procs receiver sender =
    let head = (procs receiver).quene_head in
    if same_proc head sender
    then ok (set_body (set_head procs receiver (procs sender).quene_body) sender none)
    else elim head [
      | none ↦ fault
      | some prev ↦ do
        assert debug (is_some (procs prev).quene_body)
        found ← find_prev fuel procs prev (procs prev).quene_body sender
        elim found [
          | none ↦ do assert debug false; ok (set_body procs sender none)
          | some q ↦ ok (set_body (set_body procs q (procs sender).quene_body) sender none)
        ]
    ]

-- The sender whose message is fetched, taken out of the queue.
unfoldable pub pick :
    (debug : Bool) → ℕ → Kernel → (receiver from : ℕ) → Run ((ℕ → Process) × Option ℕ)
pick debug fuel k receiver from =
    if from == proc_any
    then elim ((k.procs receiver).quene_head) [
      | none ↦ ok (k.procs, none)
      | some s ↦ ok (set_head k.procs receiver (k.procs s).quene_body, some s)
    ]
    else if not (p_msg_pa k from == 0)
        && is_sending k from
        && (target k from == (k.procs receiver).pid)
    then (do procs ← unlink debug fuel k.procs receiver from; ok (procs, some from))
    else ok (k.procs, none)

-- Copies the sender's message to `pa`, and lets the sender run.
unfoldable pub collect : Kernel → (sender pa : ℕ) → Kernel
collect k sender pa =
    let p = k.procs sender in
    set_proc (set_message k pa (k.messages (p_msg_pa k sender))) sender
      (record p { p_msg = 0; status = wake p.status sending })

-- The part of `__recv_msg` for messages of other processes.
unfoldable pub fetch_sent :
    (debug : Bool) → ℕ → Kernel → (receiver pa msg from : ℕ) → Run (Kernel × Bool)
unfolding pick
fetch_sent debug fuel k receiver pa msg from = do
  (procs, sender) ← pick debug fuel k receiver from
  let k1 = record k { procs = procs }
  elim sender [
    | none ↦ ok (await k1 receiver pa msg from, true)
    | some s ↦ do assert debug (is_sending k1 s); ok (collect k1 s pa, false)
  ]

-- `__recv_msg` up to its call of `scheduler`, which is made where the flag says that the receiver
-- has stopped.
unfoldable pub fetch : (debug : Bool) → ℕ → Kernel → (receiver msg from : ℕ) → Run (Kernel × Bool)
unfolding fetch_sent
fetch debug fuel k0 receiver msg from = do
  let pa = vir2phy k0.words (k0.procs receiver).page_dir msg
  assert debug (not (pa == 0))
  let pid = (k0.procs receiver).pid
  let k = set_message k0 pa (record (k0.messages pa) { receiver = pid })
  assert debug (not (pid == from))
  let status = (k.procs receiver).status
  let wants_interrupt = (from == proc_interrupt) || (from == proc_any)
  if from == 0
      then ok (k, false)
      else if has status got_int && wants_interrupt
      then (do k' ← take_interrupt debug k receiver pa; ok (k', false))
      else if has status got_exc && wants_interrupt
      then (do k' ← take_exception debug k receiver pa; ok (k', false))
      else if from == proc_interrupt
      then ok (await k receiver pa msg from, true)
      else fetch_sent debug fuel k receiver pa msg from

unfoldable pub recv_msg :
    (debug : Bool) (idle : Kernel → Kernel) → ℕ → Kernel → (receiver msg from : ℕ) → Run Kernel
unfolding fetch
recv_msg debug idle fuel k receiver msg from =
    and_schedule idle fuel (fetch debug fuel k receiver msg from)
