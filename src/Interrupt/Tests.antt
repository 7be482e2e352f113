-- ===== src/Interrupt/Tests.antt =====
-- Interrupts at a machine whose processes 1 and 2 wait for messages and run.
use omocha_os.Base.{◌≡◌, refl, true, false, some, [], ◌==◌, arith, if◌then◌else◌, replicate}
use omocha_os.Base.Flags.{has}
use omocha_os.Core.Process.{proc_any, got_int}
use omocha_os.Core.Paging.{vir2phy}
use omocha_os.Core.Run.{Kernel, ok}
use omocha_os.Core.Ipc.{p_msg_pa}
use omocha_os.Core.Ipc.Receive.{take_interrupt, no_data}
use omocha_os.Core.Ipc.Receive.Pending.{pending}
use omocha_os.Systask.Processes.{no_proc}
use omocha_os.Interrupt.{wants_interrupt, send_interrupt_msg}
use omocha_os.Interrupt.Told.{take_interrupt-send_interrupt_msg}

abbrev waiting : Kernel
waiting = record {
  procs = λ p. record no_proc { status = if p == 1 then 0x80 else 1; pid = p; p_msg = 0x100 };
  messages = λ a. record {
    sender = proc_any;
    receiver = 1;
    ready = 1;
    type = 0;
    major = 0;
    d1 = 0;
    d2 = 0;
    d3 = 0;
    d4 = 0;
  };
  words = λ a. 0x81;
  proc_list = some 0;
  proc_running = some 2;
  interrupt_data = replicate 16 no_data;
  exception_data = replicate 32 no_data;
}

take_interrupt-send_interrupt_msg_example :
    (k' : Kernel) × (k2 : Kernel) × (send_interrupt_msg true 3 waiting 5 2 ≡ ok k')
    × (take_interrupt true k' 2 0x300 ≡ ok k2)
    × ((k2.messages 0x300).major ≡ 5)
    × (pending k2.interrupt_data 0 ≡ [])
    × (has (k2.procs 2).status got_int ≡ false)
unfolding wants_interrupt p_msg_pa vir2phy has pending
take_interrupt-send_interrupt_msg_example =
    take_interrupt-send_interrupt_msg true 3 waiting 5 2 (omega arith) 0x300 refl (omega arith)
      (omega arith) refl
