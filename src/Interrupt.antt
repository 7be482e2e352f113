-- ===== src/Interrupt.antt =====
-- kernel/core/interrupt.c: interrupts and exceptions, and the messages that tell them.
pub mod Told
pub mod Faults
mod Tests
use omocha_os.Base.{
  ℕ, ◌+◌, ◌-◌, ◌%◌, ◌^◌, bit_and, Bool, true, false, not, ◌==◌, ◌&&◌, ◌||◌, List, get_or, set, ltb,
  leb, if◌then◌else◌,
}
use omocha_os.Base.Flags.{has, raise, lower}
use omocha_os.Core.Process.{Process, proc_any, proc_interrupt, receving, got_int, got_exc, error}
use omocha_os.Core.Run.{Kernel, InterruptData, Run, ok, halted, fault, ◌>>=◌, ◌>>◌, assert}
use omocha_os.Core.Scheduler.{scheduler}
use omocha_os.Core.Ipc.{p_msg_pa, set_proc, set_message}
use omocha_os.Core.Ipc.Receive.{msg_interrupt, msg_exception}
use omocha_os.Systask.Env.{Env, Method, in_table, hw_irq_count, exception_count}
use omocha_os.Systask.Interrupts.{no_method}

-- The process waits for an interrupt, or for any message.
unfoldable pub wants_interrupt : Kernel → ℕ → Bool
wants_interrupt k p =
    let m = k.messages (p_msg_pa k p) in
    has (k.procs p).status receving && ((m.sender == proc_any) || (m.sender == proc_interrupt))

abbrev pub set_status : Kernel → ℕ → ℕ → Kernel
set_status k p status = set_proc k p (record (k.procs p) { status = status })

unfoldable pub send_interrupt_msg :
    (debug : Bool) (proc_count : ℕ) → Kernel → (irq p : ℕ) → Run Kernel
send_interrupt_msg debug proc_count k irq p = do
  assert debug (ltb p proc_count)
  let pa = p_msg_pa k p
  let told = record (k.messages pa) { sender = proc_interrupt; type = msg_interrupt; major = irq }
  let status = (k.procs p).status
  if wants_interrupt k p
      then ok (set_status (set_message k pa told) p (lower status receving))
      else ok (record (set_status k p (raise status got_int)) {
        interrupt_data = set k.interrupt_data irq (record { avail = 1; info = irq });
      })

unfoldable pub send_exception_msg :
    (debug : Bool) (proc_count : ℕ) → Kernel → (exc info p : ℕ) → Run Kernel
send_exception_msg debug proc_count k exc info p = do
  assert debug (ltb p proc_count)
  let pa = p_msg_pa k p
  let told = record (k.messages pa) {
    sender = proc_interrupt;
    type = msg_exception;
    major = exc;
    d1 = info;
  }
  let status = (k.procs p).status
  if wants_interrupt k p
      then ok (set_status (set_message k pa told) p (lower status receving))
      else ok (record (set_status k p (raise status got_exc)) {
        exception_data = set k.exception_data exc (record { avail = 1; info = info });
      })

abbrev pub irq0 : ℕ
irq0 = 32

-- `IRQ_TIMER` of a build with `APIC`, as CMakeLists.txt makes it.
abbrev pub irq_timer : ℕ
irq_timer = irq0 + 2

abbrev with_kernel : Env → Run Kernel → Run Env
with_kernel e r = do k ← r; ok (record e { kernel = k })

-- `status &= PROC_STATUS_ERROR`
abbrev pub faulted : ℕ → ℕ
faulted status = bit_and status error

-- `idle` is what the interrupts do that are taken while the scheduler halts, `call` what a
-- registered function does, `address` the address of a process, whose saved registers come first.
module _ (idle : Kernel → Kernel) (call : Method → Env → Env) (address : ℕ → ℕ) (debug : Bool)
    (fuel : ℕ) where
  -- An exception of process `p`. Without a subscriber the machine stops.
  unfoldable pub handle_exception : Env → (trap_no p : ℕ) → Run Env
  handle_exception e trap_no p =
      let suscriber = get_or e.exception_suscribed trap_no 0 in
      let k = set_status e.kernel p (faulted (e.kernel.procs p).status) in
      if suscriber == 0
      then halted
      else with_kernel e (do
        k' ← send_exception_msg debug e.proc_count k trap_no (address p) suscriber
        scheduler idle fuel k')

  -- A hardware interrupt: the registered function, then the message to the subscriber.
  unfoldable pub handle_irq : Env → (irq : ℕ) → Run Env
  handle_irq e irq = do
    in_table irq hw_irq_count
    let method = get_or e.interrupt_methods irq no_method
    let e1 = if method.avail == 1 then call method e else e
    let suscriber = get_or e1.interrupt_suscribed irq 0
    if suscriber == 0
        then ok e1
        else with_kernel e1 (send_interrupt_msg debug e1.proc_count e1.kernel irq suscriber)

  -- `interrupt_handler` in process `p`, up to the system calls, which start above the interrupts.
  unfoldable pub interrupt_handler : Env → (interrupt_count trap_no p : ℕ) → Run Env
  interrupt_handler e interrupt_count trap_no p =
      let ticked = record e { beats = (e.beats + 1) % 2 ^ 32 } in
      if trap_no == irq_timer
      then (if interrupt_count == 0
          then with_kernel ticked (scheduler idle fuel ticked.kernel)
          else ok ticked)
      else if ltb trap_no exception_count
      then handle_exception e trap_no p
      else if leb trap_no (irq0 + hw_irq_count)
      then handle_irq e (trap_no - irq0)
      else ok e
