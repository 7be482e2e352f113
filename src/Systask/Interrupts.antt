-- ===== src/Systask/Interrupts.antt =====
-- The requests of kernel/modules/systask/systask.c about interrupts and exceptions. The system task
-- runs outside ring 0, where a panic only prints: the checks of a request stop nothing. An entry
-- behind the end of a table is a write to other memory, `fault`.
use omocha_os.Base.{ℕ, List, set}
use omocha_os.Core.Process.{Message}
use omocha_os.Core.Paging.{vir2phy}
use omocha_os.Core.Run.{Run, ok, ◌>>◌}
use omocha_os.Systask.Env.{Env, Method, hw_irq_count, exception_count, send_back, in_table}

abbrev pub no_method : Method
no_method = record { pid = 0; func = 0; info = 0; avail = 0 }

-- A virtual address of the process that sent the request, translated.
abbrev pub of_sender : Env → Message → ℕ → ℕ
of_sender e m va = vir2phy e.kernel.words (e.kernel.procs m.sender).page_dir va

module _ (e : Env) (m : Message) where
  unfoldable pub reg_int_func : Run (Env × List Message)
  reg_int_func = do
    in_table m.major hw_irq_count
    let new : Method = record {
      pid = m.sender;
      func = of_sender e m m.d1;
      info = of_sender e m m.d2;
      avail = 1;
    }
    ok (record e { interrupt_methods = set e.interrupt_methods m.major new }, send_back m 0)

  unfoldable pub unreg_int_func : Run (Env × List Message)
  unreg_int_func = do
    in_table m.major hw_irq_count
    ok (record e { interrupt_methods = set e.interrupt_methods m.major no_method }, send_back m 0)

  unfoldable pub reg_int_msg : Run (Env × List Message)
  reg_int_msg = do
    in_table m.major hw_irq_count
    ok (
      record e { interrupt_suscribed = set e.interrupt_suscribed m.major m.sender },
      send_back m 0,
    )

  unfoldable pub unreg_int_msg : Run (Env × List Message)
  unreg_int_msg = do
    in_table m.major hw_irq_count
    ok (record e { interrupt_suscribed = set e.interrupt_suscribed m.major 0 }, send_back m 0)

  unfoldable pub reg_exc_msg : Run (Env × List Message)
  reg_exc_msg = do
    in_table m.major exception_count
    ok (
      record e { exception_suscribed = set e.exception_suscribed m.major m.sender },
      send_back m 0,
    )

  unfoldable pub unreg_exc_msg : Run (Env × List Message)
  unreg_exc_msg = do
    in_table m.major exception_count
    ok (record e { exception_suscribed = set e.exception_suscribed m.major 0 }, send_back m 0)
